-- ===== src/Session/Admit.antt =====
-- What a RUN request that passes its checks has: the plans of `op_run` are within the limits.
use sidp_client.Base.{sym}
use sidp_client.Base.{ap}
use sidp_client.Backend.{BpEntry, WpEntry}
use sidp_client.Base.{
  ℕ, zero, suc, ◌+◌, ◌*◌, ◌≤◌, ◌≡◌, refl, subst, Bool, true, false, List, [], ◌∷◌, arith, ltb, ◌==◌,
  if◌then◌else◌, length, length-append, field,
}
use sidp_client.Defs.{breakpoint_software, Status}
use sidp_client.Defs.Limits
use sidp_client.Session.Plan.{
  ◌>>◌, ◌>>=◌, check_request, check_watchpoint, scan_watchpoints, check_target, add_breakpoint,
  add_software, parse_watchpoint, plan_watchpoints, Check, add_hardware, parse_breakpoint, RunPlan,
  plan_run, parse_run_request, Tables, check_counts, scan_breakpoints, refuse_if, RunRequest,
}
use sidp_client.Session.State.{Session}

bind-pass :
    {A B : Type 0} (m : Check A) (f : A → Check B) (b : B)
    → (m >>= f) ≡ Check.pass b
    → (a : A) × (m ≡ Check.pass a) × (f a ≡ Check.pass b)
bind-pass (Check.pass a) f b e = (a, refl, e)
bind-pass (Check.deny status) f b e = ground arith

-- A chain of checks as `plan_run` is one: the tests passed, and the plan is made of their results.
chain-pass :
    {T S : Type 0} (short : Bool) (status : Status) (c d : Check (Unit {0})) (scan : Check T)
    (target : T → Check (Unit {0})) (watch : Check S) (make : T → S → RunPlan) (plan : RunPlan)
    → (refuse_if short status
        >> (c >> (d >> (scan >>= λ t. target t >> (watch >>= λ w. Check.pass (make t w))))))
      ≡ Check.pass plan
    → (t : T) × (w : S) × (c ≡ Check.pass tt)
      × (d ≡ Check.pass tt)
      × (scan ≡ Check.pass t)
      × (watch ≡ Check.pass w)
      × (make t w ≡ plan)
chain-pass short status c d scan target watch make plan e =
    let e1 = bind-pass (refuse_if short status) _ plan e in
    let e2 = bind-pass c _ plan e1.2 in
    let e3 = bind-pass d _ plan e2.2 in
    let e4 = bind-pass scan _ plan e3.2 in
    let e5 = bind-pass (target e4.0) _ plan e4.2 in
    let e6 = bind-pass watch _ plan e5.2 in (e4.0, e6.0, e2.1, e3.1, e4.1, e6.1, ground arith)

-- The tables so far are within the limits.
pub record Fits {W : Type 0} (s : Session W) (tables : Tables) : Type 0 where
  pub hw : length tables.hw ≤ s.hardware_breakpoint_limit
  pub sw : length tables.sw ≤ Limits.max_software_breakpoints

module _ {W : Type 0} (s : Session W) where
  add_software-Fits :
      (tables t : Tables) (entry : BpEntry)
      → Fits s tables
      → add_software s tables entry ≡ Check.pass t
      → Fits s t
  unfolding add_software
  add_software-Fits tables t entry fits e = ground (arith, length-append tables.sw (entry ∷ []))

  add_hardware-Fits :
      (tables t : Tables) (entry : BpEntry)
      → Fits s tables
      → add_hardware s tables entry ≡ Check.pass t
      → Fits s t
  unfolding add_hardware
  add_hardware-Fits tables t entry fits e =
      ground (arith, length-append tables.hw (record entry { instruction_size = 0 } ∷ []))

  added-Fits :
      (software : Bool) (tables t : Tables) (entry : BpEntry)
      → Fits s tables
      → (if software then add_software s tables entry else add_hardware s tables entry)
        ≡ Check.pass t
      → Fits s t
  added-Fits true tables t entry fits e = add_software-Fits tables t entry fits e
  added-Fits false tables t entry fits e = add_hardware-Fits tables t entry fits e

  add_breakpoint-Fits :
      (payload : List ℕ) (offset : ℕ) (tables t : Tables)
      → Fits s tables
      → add_breakpoint s payload offset tables ≡ Check.pass t
      → Fits s t
  unfolding add_breakpoint
  add_breakpoint-Fits payload offset tables t fits e =
      added-Fits (field payload (offset + 12) 1 == breakpoint_software) tables t
        (parse_breakpoint payload offset) fits (ground arith)

  scan_breakpoints-Fits :
      (left : ℕ) (payload : List ℕ) (offset : ℕ) (tables t : Tables)
      → Fits s tables
      → scan_breakpoints s left payload offset tables ≡ Check.pass t
      → Fits s t
  unfolding scan_breakpoints
  scan_breakpoints-Fits zero payload offset tables t fits e = ground arith
  scan_breakpoints-Fits (suc left) payload offset tables t fits e =
      let step = bind-pass (add_breakpoint s payload offset tables) _ t e in
      scan_breakpoints-Fits left payload (offset + Limits.breakpoint_size) step.0 t
        (add_breakpoint-Fits payload offset tables step.0 fits step.1) step.2

length-scan_watchpoints :
    (left : ℕ) (payload : List ℕ) (offset : ℕ) (entries : List WpEntry)
    → scan_watchpoints left payload offset ≡ Check.pass entries
    → length entries ≡ left
unfolding scan_watchpoints
length-scan_watchpoints zero payload offset entries e = ground arith
length-scan_watchpoints (suc left) payload offset entries e =
    let next = offset + Limits.watchpoint_size in
    let checked =
      bind-pass (check_watchpoint (parse_watchpoint payload offset) (field payload (offset + 14) 1))
        _ entries e in
    let rest = bind-pass (scan_watchpoints left payload next) _ entries checked.2 in
    let shorter = length-scan_watchpoints left payload next rest.0 rest.1 in ground arith

none_yet-Fits : {W : Type 0} (s : Session W) → Fits s (record { hw = []; sw = [] })
none_yet-Fits s = record { hw = ground arith; sw = ground arith }

pub record IsAdmissible {W : Type 0} (s : Session W) (payload : List ℕ) (plan : RunPlan)
    : Type 0 where
  pub fresh : plan.request.stop_id ≡ s.stop_id
  pub exact :
      length payload
      ≡ Limits.run_request_size
        + plan.request.breakpoint_count * Limits.breakpoint_size
        + plan.request.watchpoint_count * Limits.watchpoint_size
  pub hw : length plan.tables.hw ≤ s.hardware_breakpoint_limit
  pub sw : length plan.tables.sw ≤ Limits.max_software_breakpoints
  pub watch : length plan.watchpoints ≤ s.hardware_watchpoint_limit

module _ {W : Type 0} (s : Session W) where
  -- What the announced counts have to satisfy.
  counts-pass :
      (payload : List ℕ) (req : RunRequest)
      → check_counts payload req ≡ Check.pass tt
      → length payload
        ≡ Limits.run_request_size
          + req.breakpoint_count * Limits.breakpoint_size
          + req.watchpoint_count * Limits.watchpoint_size
  unfolding check_counts
  counts-pass payload req e = ground arith

  watchpoints-pass :
      (payload : List ℕ) (req : RunRequest) (entries : List WpEntry)
      → plan_watchpoints s payload req ≡ Check.pass entries
      → length entries ≤ s.hardware_watchpoint_limit
  unfolding plan_watchpoints
  watchpoints-pass payload req entries e =
      let first = Limits.run_request_size + req.breakpoint_count * Limits.breakpoint_size in
      let count =
        length-scan_watchpoints req.watchpoint_count payload first entries (ground arith) in
      ground arith

  request-pass : (req : RunRequest) → check_request s req ≡ Check.pass tt → req.stop_id ≡ s.stop_id
  unfolding check_request
  request-pass req e = ground arith

  -- A RUN request that passes its checks names the present stop generation, is exactly as long as its
  -- counts announce, and asks for no more hardware breakpoints, software breakpoints and watchpoints
  -- than there are slots.
  pub plan_run-IsAdmissible :
      (payload : List ℕ) (plan : RunPlan)
      → plan_run s payload ≡ Check.pass plan
      → IsAdmissible s payload plan
  unfolding plan_run
  plan_run-IsAdmissible payload plan e =
      let req = parse_run_request payload in
      let none_yet : Tables = record { hw = []; sw = [] } in
      let (t, w, checked, counted, scanned, watched, made) =
        chain-pass (ltb (length payload) Limits.run_request_size) Status.invalid_argument
          (check_request s req) (check_counts payload req)
          (scan_breakpoints s req.breakpoint_count payload Limits.run_request_size none_yet)
          (check_target s req) (plan_watchpoints s payload req)
          (λ t w. record { request = req; tables = t; watchpoints = w }) plan e in
      let fits =
        scan_breakpoints-Fits s req.breakpoint_count payload Limits.run_request_size none_yet t
          (none_yet-Fits s) scanned in
      subst (λ p. IsAdmissible s payload p) made
        (record {
          fresh = request-pass req checked;
          exact = counts-pass payload req counted;
          hw = fits.hw;
          sw = fits.sw;
          watch = watchpoints-pass payload req w watched;
        })

  -- The plan is for the request that the payload holds.
  pub plan_run-request :
      (payload : List ℕ) (plan : RunPlan)
      → plan_run s payload ≡ Check.pass plan
      → plan.request ≡ parse_run_request payload
  unfolding plan_run
  plan_run-request payload plan e =
      let req = parse_run_request payload in
      let none_yet : Tables = record { hw = []; sw = [] } in
      let (t, w, checked, counted, scanned, watched, made) =
        chain-pass (ltb (length payload) Limits.run_request_size) Status.invalid_argument
          (check_request s req) (check_counts payload req)
          (scan_breakpoints s req.breakpoint_count payload Limits.run_request_size none_yet)
          (check_target s req) (plan_watchpoints s payload req)
          (λ t w. record { request = req; tables = t; watchpoints = w }) plan e in
      ap (λ (p : RunPlan). p.request) (sym made)
