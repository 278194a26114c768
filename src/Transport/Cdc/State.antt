-- ===== src/Transport/Cdc/State.antt =====
-- The members of `cdc_slip_transport` of include/sidp_transport_cdc.hpp. `Usb` is what it calls of
-- TinyUSB, esp_tinyusb, esp_timer and the allocator: functions of the state `E` of the world outside.
use sidp_client.Backend.{EspErr}
use sidp_client.Base.{ℕ, Bool, ◌&&◌, List}
use sidp_client.Transport.Cdc.Decode.{Decoder}
use sidp_client.Transport.Port.{Line}
use sidp_client.Transport.State.{Queue}

pub record Usb (E : Type 0) : Type 0 where
  pub acm_init : ℕ → E → EspErr × E
  pub acm_initialized : ℕ → E → Bool
  pub connected : ℕ → E → Bool
  -- `tinyusb_cdcacm_read` of at most so many bytes.
  pub read : ℕ → ℕ → E → EspErr × List ℕ × E
  pub read_flush : ℕ → E → E
  pub write_clear : ℕ → E → E
  -- `tinyusb_cdcacm_write_queue` takes some of the bytes.
  pub write_queue : ℕ → List ℕ → E → ℕ × E
  pub write_flush : ℕ → ℕ → E → EspErr × E
  pub unregister_callbacks : ℕ → E → E
  pub get_time : E → ℕ
  pub malloc : E → Bool × E
  pub free : E → E

-- `frame_buffer` and `tx_buffer` are one block: `has_buffers` tells that it is there. `decoder` is the
-- RX frame with its flags.
pub record Cdc (R E : Type 0) : Type 0 where
  pub queue : Queue R E
  pub cdc_port : ℕ
  pub has_buffers : Bool
  pub decoder : Decoder
  pub decoder_epoch : ℕ
  pub initialized : Bool
  pub dtr : Bool

-- `TINYUSB_CDC_ACM_0`.
abbrev pub cdc_acm_0 : ℕ
cdc_acm_0 = 0

pub data DeviceEvent : Type 0 where
  attached detached other_device_event : DeviceEvent

pub data CdcEvent : Type 0 where
  rx : CdcEvent
  line_state_changed : Bool → CdcEvent
  other_cdc_event : CdcEvent

module _ {R E : Type 0} (usb : Usb E) where
  -- `physical_link_open` and `reset_wire_buffers`.
  unfoldable pub cdc_line : Cdc R E → Line E
  cdc_line c = record {
    physical_link_open =
        λ e. c.initialized && (usb.acm_initialized c.cdc_port e && usb.connected c.cdc_port e);
    reset_wire_buffers = λ e. usb.write_clear c.cdc_port (usb.read_flush c.cdc_port e);
  }
