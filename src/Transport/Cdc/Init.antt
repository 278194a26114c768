-- ===== src/Transport/Cdc/Init.antt =====
-- `init` of sidp_transport_cdc.cpp, with the ways out of it.
use sidp_client.Base.{leb}
use sidp_client.Base.{if◌then◌else◌}
use sidp_client.Backend.{EspErr, is_ok}
use sidp_client.Base.{ℕ, true, false, not, ◌||◌}
use sidp_client.Transport.Cdc.Send.{map_esp_error}
use sidp_client.Transport.Cdc.State.{Cdc, Usb, cdc_acm_0}
use sidp_client.Transport.Int.{ℤ, is_negative, to_size}
use sidp_client.Transport.Port.{Port}
use sidp_client.Transport.Setup.{destroy_queues, create_queues, spawn_tx_task}

module _ {R E : Type 0} (port : Port R E) (usb : Usb E) (acm_max : ℕ) where
  abbrev pub in_cdc_world : (E → E) → Cdc R E → Cdc R E
  in_cdc_world f c = let q = c.queue in record c { queue = record q { env = f q.env } }

  -- The failures after `create_queues`.
  unfoldable pub abandon_cdc : Cdc R E → Cdc R E
  abandon_cdc c = in_cdc_world usb.free (record c {
    queue = destroy_queues port c.queue;
    initialized = false;
    cdc_port = cdc_acm_0;
    has_buffers = false;
  })

  unfoldable pub spawn_cdc_task : Cdc R E → EspErr × Cdc R E
  unfolding abandon_cdc
  spawn_cdc_task c =
      let (err, q) = spawn_tx_task port c.queue in
      let t = record c { queue = q } in
      if is_ok err
      then (EspErr.esp_ok, t)
      else (err, abandon_cdc (in_cdc_world (usb.unregister_callbacks c.cdc_port) t))

  unfoldable pub start_acm : Cdc R E → EspErr × Cdc R E
  unfolding abandon_cdc spawn_cdc_task
  start_acm c =
      let q = c.queue in
      let (err, e) = usb.acm_init c.cdc_port q.env in
      let t = record c { queue = record q { env = e } } in
      if is_ok err then spawn_cdc_task t else (map_esp_error err, abandon_cdc t)

  unfoldable pub init_cdc : ℤ → Cdc R E → EspErr × Cdc R E
  unfolding start_acm
  init_cdc cdc_port c =
      let q = c.queue in
      let (allocated, e) = usb.malloc q.env in
      let (err, r) = create_queues port (record q { env = e }) in
      if c.initialized
      then (EspErr.invalid_state, c)
      else if is_negative cdc_port || leb acm_max (to_size cdc_port)
      then (EspErr.invalid_arg, c)
      else if not allocated
      then (EspErr.no_mem, record c { queue = record q { env = e } })
      else if not (is_ok err)
      then (err, in_cdc_world usb.free (record c { queue = r }))
      else start_acm (record c {
        queue = r;
        cdc_port = to_size cdc_port;
        has_buffers = true;
        initialized = true;
      })
