-- ===== src/Transport/Cdc/Receive.antt =====
-- The callbacks of sidp_transport_cdc.cpp: `drain_cdc_input`, `device_event_callback` and
-- `cdc_event_callback`.
use sidp_client.Base.{◌==◌}
use sidp_client.Base.{if◌then◌else◌}
use sidp_client.Backend.{is_ok, EspErr}
use sidp_client.Base.{ℕ, zero, suc, Bool, true, false, not, ◌||◌, Option, none, some, List, length}
use sidp_client.Transport.Cdc.Decode.{Decoder, reset_frame_state, consume_chunk}
use sidp_client.Transport.Cdc.State.{Cdc, cdc_line, Usb, DeviceEvent, CdcEvent}
use sidp_client.Transport.Port.{Line, Port}
use sidp_client.Transport.Queue.{deliver_packet, link_changed, is_open}
use sidp_client.Transport.Sizes
use sidp_client.Transport.State.{Queue}

module _ {R E : Type 0} (port : Port R E) (line : Line E) where
  -- A round of the loop of `drain_cdc_input` after a read, and the rounds after it.
  unfoldable pub read_round :
      Bool
      → (Decoder → Queue R E → Decoder × Queue R E)
      → List ℕ
      → ℕ
      → Decoder
      → Queue R E
      → Decoder × Queue R E
  read_round true go bytes current_epoch d q = (d, q)
  read_round false go bytes current_epoch d q =
      let (t, r) = consume_chunk (λ p. deliver_packet port line p current_epoch) bytes d q in go t r

  -- A round that goes on reads at least a byte, so what the driver holds is fuel enough.
  unfoldable pub read_loop :
      (E → EspErr × List ℕ × E) → ℕ → ℕ → Decoder → Queue R E → Decoder × Queue R E
  unfolding read_round
  read_loop read zero current_epoch d q = (d, q)
  read_loop read (suc fuel) current_epoch d q =
      let (result, bytes, e) = read q.env in
      read_round (not (is_ok result) || length bytes == 0) (read_loop read fuel current_epoch) bytes
        current_epoch d (record q { env = e })

-- `reset_frame_state`, and out of any frame.
unfoldable pub drop_frame : Decoder → Decoder
unfolding reset_frame_state
drop_frame d = record (reset_frame_state d) { receiving_frame = false }

module _ {R E : Type 0} (port : Port R E) (usb : Usb E) where
  unfoldable pub sync_decoder : Bool → Cdc R E → Cdc R E
  sync_decoder is_open c =
      if not (c.decoder_epoch == c.queue.epoch) || not is_open
      then record c { decoder = drop_frame c.decoder; decoder_epoch = c.queue.epoch }
      else c

  unfoldable pub drain_cdc_input : ℕ → Cdc R E → Cdc R E
  unfolding cdc_line
  drain_cdc_input fuel c =
      let line = cdc_line usb c in
      let t = sync_decoder (is_open line c.queue) c in
      let q = c.queue in
      elim (is_open line c.queue) [
        | false ↦ record t { queue = record q { env = usb.read_flush c.cdc_port q.env } }
        | true ↦
            let (d, r) =
              read_loop port line (usb.read c.cdc_port Sizes.rx_read_chunk_size) fuel c.queue.epoch
                t.decoder q in
            record t { decoder = d; queue = r }
      ]

  -- A link boundary: `link_changed` and a decoder outside of any frame.
  unfoldable pub cross_boundary : Bool → Bool → Cdc R E → Cdc R E
  cross_boundary dtr up c = record c {
    dtr = dtr;
    queue = link_changed port up c.queue;
    decoder = drop_frame c.decoder;
  }

  unfoldable pub device_event_callback : Option DeviceEvent → Cdc R E → Cdc R E
  device_event_callback none c = c
  device_event_callback (some DeviceEvent.other_device_event) c = c
  device_event_callback (some DeviceEvent.attached) c =
      if not c.initialized then c else cross_boundary false false c
  device_event_callback (some DeviceEvent.detached) c =
      if not c.initialized then c else cross_boundary false false c

  unfoldable pub is_other_port : ℕ → Cdc R E → Bool
  is_other_port itf c = not c.initialized || not (c.cdc_port == itf)

  unfoldable pub cdc_event_callback : ℕ → ℕ → Option CdcEvent → Cdc R E → Cdc R E
  cdc_event_callback fuel itf none c = c
  cdc_event_callback fuel itf (some CdcEvent.other_cdc_event) c = c
  cdc_event_callback fuel itf (some (CdcEvent.line_state_changed dtr)) c =
      if is_other_port itf c || not (if dtr then not c.dtr else c.dtr)
      then c
      else cross_boundary dtr dtr c
  cdc_event_callback fuel itf (some CdcEvent.rx) c =
      let t = drain_cdc_input fuel c in if is_other_port itf c then c else t
