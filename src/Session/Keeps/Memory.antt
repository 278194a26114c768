-- ===== src/Session/Keeps/Memory.antt =====
-- The memory and the register requests keep the invariant.
use sidp_client.Backend.{Host}
use sidp_client.Base.{ℕ, Option, none, some, List, arith}
use sidp_client.Defs.{Status}
use sidp_client.Session.Frame.{store_at, unless_refused}
use sidp_client.Session.Keeps.Defs.{Keeps-preorder, Keeps}
use sidp_client.Session.Keeps.Frames.{
  finish_frame-Keeps, modify-Keeps, put-Keeps, respond-Keeps, call-Keeps, begin_frame-Keeps,
}
use sidp_client.Session.Keeps.Stops.{send_backend_failure-Keeps}
use sidp_client.Session.Keeps.Tables.{length-write_overlap}
use sidp_client.Session.Memory.{
  MemRequest, read_target, op_write_memory, write_target, op_read_memory,
}
use sidp_client.Session.Shadow.{sw_bp_write_overlap}
use sidp_client.Session.Sound.{Sound, sound_rules}
use sidp_client.Session.State.{modify, Session, M}

module _ {W : Type 0} (h : Host W) where
  pub unless_refused-Keeps :
      (opcode id : ℕ) (refusal : Option Status) (m : M W (Unit {0}))
      → Sound Keeps m
      → Sound Keeps (unless_refused h opcode id refusal m)
  unfolding unless_refused
  unless_refused-Keeps opcode id none m k = k
  unless_refused-Keeps opcode id (some status) m k = respond-Keeps h opcode id status

  read_target-Keeps : (id : ℕ) (req : MemRequest) → Sound Keeps (read_target h id req)
  unfolding read_target
  read_target-Keeps id req =
      search
        (
          sound_rules, Keeps-preorder, call-Keeps, begin_frame-Keeps, put-Keeps, finish_frame-Keeps,
          send_backend_failure-Keeps,
        )
        depth 24

  pub op_read_memory-Keeps : (id : ℕ) (payload : List ℕ) → Sound Keeps (op_read_memory h id payload)
  unfolding op_read_memory
  op_read_memory-Keeps id payload =
      search (sound_rules, Keeps-preorder, unless_refused-Keeps, read_target-Keeps) depth 12

  pub stage-Keeps :
      (image : List ℕ)
      → Sound Keeps (modify λ (s : Session W). record s { scratch = store_at 0 image s.scratch })
  stage-Keeps image = modify-Keeps _ λ s. ground arith

  overlap-Keeps :
      (address : ℕ) (bytes : List ℕ)
      → Sound Keeps (
          modify
            λ (s : Session W). record s { sw_table = sw_bp_write_overlap s.sw_table address bytes })
  overlap-Keeps address bytes =
      modify-Keeps _ λ s. ground (arith, length-write_overlap s.sw_table address bytes)

  write_target-Keeps :
      (id : ℕ) (req : MemRequest) (bytes : List ℕ) → Sound Keeps (write_target h id req bytes)
  unfolding write_target
  write_target-Keeps id req bytes =
      search
        (
          sound_rules, Keeps-preorder, call-Keeps, stage-Keeps, overlap-Keeps, respond-Keeps,
          send_backend_failure-Keeps,
        )
        depth 24

  pub op_write_memory-Keeps :
      (id : ℕ) (payload : List ℕ) → Sound Keeps (op_write_memory h id payload)
  unfolding op_write_memory
  op_write_memory-Keeps id payload =
      search (sound_rules, Keeps-preorder, unless_refused-Keeps, write_target-Keeps) depth 12
