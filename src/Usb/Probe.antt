-- ===== src/Usb/Probe.antt =====
-- The driver functions of drivers/core/canon-r5-usb.c that usbcore calls: probe, disconnect and the
-- completion of the interrupt URB.
use canon_r.Prelude.{
  Bool, true, false, ◌||◌, List, Option, none, some, ◌==◌, if◌then◌else◌, ℤ, pos, negsuc, minus,
  failed, success, enoent, enomem, epipe, M, ◌>>=◌, ◌>>◌, return, get, modify, done, fault, Ptr,
  null, valid, is_null,
}
use canon_r.Device.{Device, DeviceState, disconnected, connected, Core, on_env}
use canon_r.Core.{
  Registry, AllocAnswers, device_alloc, device_put, device_initialize, device_cleanup,
  register_transport, unregister_transport, set_state, get_state, notify_event,
}
use canon_r.Usb.{
  Endpoint, UsbKernel, UsbEnv, UrbAnswers, zeroed_usb, usb_transport_ops, usb_init_endpoints,
  usb_cleanup_endpoints, with_usb, on_usb,
}

-- What the kernel answers during a probe: the allocations of the device and of its USB structure,
-- the interrupt URB, and the event workqueue.
pub record ProbeAnswers : Type 0 where
  pub alloc : AllocAnswers
  pub usb_memory : Ptr
  pub interrupts : UrbAnswers
  pub event_wq : Ptr

-- The classes of an URB's status that the callback tells apart.
pub data UrbStatus : Type 0 where
  completed cancelled stalled broken : UrbStatus

abbrev pub is_disconnected : DeviceState → Bool
is_disconnected disconnected = true
is_disconnected _ = false

abbrev pub econnreset : ℤ
econnreset = minus 104

abbrev pub eshutdown : ℤ
eshutdown = minus 108

abbrev pub same_status : ℤ → ℤ → Bool
same_status (pos m) (pos n) = m == n
same_status (negsuc m) (negsuc n) = m == n
same_status _ _ = false

unfoldable pub classify : ℤ → UrbStatus
classify status =
    if same_status status success
    then completed
    else if same_status status econnreset
        || (same_status status enoent || same_status status eshutdown)
    then cancelled
    else if same_status status epipe
    then stalled
    else broken

module _ {K : Type 0} where
  -- The labels `error_endpoints` and what follows it.
  unfoldable pub error_endpoints : ℤ → M (Core (UsbEnv K)) ℤ
  error_endpoints ret = do
    on_env (on_usb (λ u. record u { intf_held = false }))
    on_env (on_usb (λ u. record u { udev_held = false }))
    on_env (modify (λ e. record e { intfdata = null }))
    device_put valid
    return ret

  -- The label `error_transport`, which falls through to the other.
  unfoldable pub error_transport : ℤ → M (Core (UsbEnv K)) ℤ
  error_transport ret = do
    unregister_transport valid
    on_env usb_cleanup_endpoints
    error_endpoints ret

  -- The probe once the device is allocated.
  unfoldable pub attach : ProbeAnswers → List Endpoint → M (Core (UsbEnv K)) ℤ
  attach a eps = if is_null a.usb_memory then (do device_put valid; return enomem) else do
    on_env (modify (λ e. record e { usb = some zeroed_usb }))
    on_env (on_usb (λ u. record u { udev_held = true }))
    on_env (on_usb (λ u. record u { intf_held = true }))
    on_env (modify (λ e. record e { intfdata = valid }))
    ret ← on_env (usb_init_endpoints a.interrupts eps)
    if failed ret then error_endpoints ret else do
      ret ← register_transport valid valid
      if failed ret then error_endpoints ret else do
        ret ← device_initialize valid a.event_wq
        if failed ret then error_transport ret else do r ← set_state valid connected; return success

  -- A device that was just allocated, on an interface without data.
  abbrev pub new_core : Device → K → Core (UsbEnv K)
  new_core d s = record {
    dev = d;
    env = record { usb = none; intfdata = null; buffers = 0; kernel = s };
  }

  -- The status, with the device if one was allocated.
  unfoldable pub usb_probe :
      ProbeAnswers → List Endpoint → K → M Registry (ℤ × Option (Core (UsbEnv K)))
  usb_probe a eps s r = elim (device_alloc a.alloc r) [
    | fault x ↦ fault x
    | done none r' ↦ done (enomem, none) r'
    | done (some d) r' ↦ elim (attach a eps (new_core d s)) [
      | fault x ↦ fault x
      | done ret c ↦ done (ret, some c) r'
    ]
  ]

  -- The USB structure is freed, and the device given back.
  unfoldable pub usb_disconnect : UsbKernel K → M (Core (UsbEnv K)) (Unit {0})
  usb_disconnect k = do
    c ← get
    if is_null c.env.intfdata then return tt else do
      unregister_transport valid
      device_cleanup (usb_transport_ops k) valid
      on_env usb_cleanup_endpoints
      on_env (on_usb (λ u. record u { intf_held = false }))
      on_env (on_usb (λ u. record u { udev_held = false }))
      on_env (modify (λ e. record e { usb = none }))
      on_env (modify (λ e. record e { intfdata = null }))
      device_put valid

  -- The URB is submitted again unless the device is gone; `submit` is what usb_submit_urb answers.
  resubmit : ℤ → M (Core (UsbEnv K)) (Unit {0})
  resubmit submit = do
    s ← get_state valid
    if is_disconnected s
        then return tt
        else if failed submit
        then return tt
        else on_env (on_usb (λ u. record u { int_submitted = true }))

  after_urb : UrbStatus → ℤ → M (Core (UsbEnv K)) (Unit {0})
  unfolding resubmit
  after_urb completed submit = do notify_event valid 0; resubmit submit
  after_urb cancelled submit = return tt
  after_urb stalled submit = do on_env (with_usb (λ u. return tt)); resubmit submit
  after_urb broken submit = resubmit submit

  -- The second argument is `urb->status`.
  unfoldable pub usb_int_callback : Ptr → ℤ → ℤ → M (Core (UsbEnv K)) (Unit {0})
  unfolding after_urb classify
  usb_int_callback null status submit = return tt
  usb_int_callback valid status submit = after_urb (classify status) submit
