-- ===== src/Examples/UsbRuns.antt =====
-- The USB transport at concrete inputs.
use canon_r.Prelude.{ℕ, refl, some, arith, pos, success, minus, Ends, valid}
use canon_r.Core.{fresh_device}
use canon_r.Ptp.Transport.{IsTransport}
use canon_r.Usb.{zeroed_usb, usb_transport_ops, usb_init_endpoints}
use canon_r.Usb.Transfer.{Ready, usb_bulk-IsTransport}
use canon_r.Usb.Endpoints.{Started, usb_init_endpoints-Started}
use canon_r.Usb.Probe.{attach, new_core, usb_disconnect}
use canon_r.Usb.Attach.{OrFrees, Attached, attach-Attached}
use canon_r.Usb.Disconnect.{Disconnected, usb_disconnect-silent}
use canon_r.Examples.Data.{kernel, r5_endpoints, plugged_usb, plugged, open_device, open_device-Inv}

usb_bulk-IsTransport_example : IsTransport (Ready plugged_usb 0) (usb_transport_ops kernel)
usb_bulk-IsTransport_example = usb_bulk-IsTransport kernel plugged_usb 0

-- Submitting the URB fails by -ENODEV.
usb_init_endpoints-Started_example :
    Ends (Started zeroed_usb (record plugged { usb = some zeroed_usb })) (
      usb_init_endpoints
        (record { urb = valid; buffer = valid; submit = minus 19 })
        r5_endpoints
        (record plugged { usb = some zeroed_usb }))
usb_init_endpoints-Started_example =
    usb_init_endpoints-Started (record { urb = valid; buffer = valid; submit = minus 19 })
      r5_endpoints zeroed_usb (record plugged { usb = some zeroed_usb }) refl
      (record { urb = refl; buffer = refl; submitted = refl })

attach-Attached_example : OrFrees (Attached {K = ℕ}) (
    attach {K = ℕ}
      (record {
        alloc = record { memory = valid; id = pos 0; created = valid };
        usb_memory = valid;
        interrupts = record { urb = valid; buffer = valid; submit = success };
        event_wq = valid;
      })
      r5_endpoints
      (new_core fresh_device 0))
attach-Attached_example =
    attach-Attached
      (record {
        alloc = record { memory = valid; id = pos 0; created = valid };
        usb_memory = valid;
        interrupts = record { urb = valid; buffer = valid; submit = success };
        event_wq = valid;
      })
      r5_endpoints 0

usb_disconnect-silent_example :
    Ends
      (λ _ c'. Disconnected (record { dev = open_device; env = plugged }) c')
      (usb_disconnect kernel (record { dev = open_device; env = plugged }))
usb_disconnect-silent_example =
    usb_disconnect-silent kernel plugged_usb (record { dev = open_device; env = plugged }) refl refl
      open_device-Inv refl (omega arith)
