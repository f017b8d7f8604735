-- ===== src/Examples/CoreRuns.antt =====
-- The device management at concrete inputs.
use canon_r.Prelude.{◌≡◌, refl, Ends, fault, invalid_free, valid}
use canon_r.Core.{fresh_device, device_put, device_cleanup}
use canon_r.Core.Lifecycle.{CleanedUp, device_put-last, device_cleanup-Ends}
use canon_r.Examples.Data.{
  Any, camera, camera-IsTransport, late_bytes, open_device, open_device-Inv, on_wire,
}

device_put-last_example : device_put valid (on_wire fresh_device) ≡ fault invalid_free
device_put-last_example = device_put-last (on_wire fresh_device) refl

device_cleanup-Ends_example :
    Ends
      (λ _ c'. CleanedUp Any (on_wire open_device) c')
      (device_cleanup (camera late_bytes) valid (on_wire open_device))
device_cleanup-Ends_example =
    device_cleanup-Ends (camera late_bytes) (camera-IsTransport late_bytes) (on_wire open_device)
      open_device-Inv refl tt
