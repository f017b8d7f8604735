-- ===== src/Usb/Disconnect.antt =====
-- What `canon_r5_usb_disconnect` of drivers/core/canon-r5-usb.c ends with.
use canon_r.Prelude.{
  ◌-◌, ◌<◌, ◌≡◌, refl, ap, ◌∙◌, inl, inr, false, none, some, arith, if◌then◌else◌, M, ◌>>◌, modify,
  done, Ends, Ends-bind, Ptr-cases, ◌⊎◌, null, valid, is_null,
}
use canon_r.Device.{Core, Device, disconnected, on_dev, on_env}
use canon_r.Core.{no_drivers, device_put, device_cleanup, unregister_transport}
use canon_r.Core.Lifecycle.{CleanedUp, device_cleanup-close, without_drivers, without_drivers-Inv}
use canon_r.Ptp.Requests.{SessionInv}
use canon_r.Ptp.Offline.{close-offline}
use canon_r.Usb.{Usb, UsbKernel, UsbEnv, usb_transport_ops, usb_cleanup_endpoints, on_usb, set_usb}
use canon_r.Usb.Probe.{usb_disconnect}

-- Without an URB nothing was submitted; with one it is killed and freed, and so is the buffer.
abbrev cleaned : Usb → Usb
cleaned u = record u {
  int_submitted = if is_null u.int_urb then u.int_submitted else false;
  int_urb = null;
  int_buffer = null;
}

module _ {K : Type 0} where
  -- What follows the cleanup of the device.
  tail : M (Core (UsbEnv K)) (Unit {0})
  tail = do
    on_env usb_cleanup_endpoints
    on_env (on_usb (λ u. record u { intf_held = false }))
    on_env (on_usb (λ u. record u { udev_held = false }))
    on_env (modify (λ e. record e { usb = none }))
    on_env (modify (λ e. record e { intfdata = null }))
    device_put valid

  abbrev detached : Core (UsbEnv K) → Core (UsbEnv K)
  detached = on_dev (λ d. record d { transport_ops = null })

  disconnect-eq :
      (k : UsbKernel K) (c : Core (UsbEnv K))
      → c.env.intfdata ≡ valid
      → c.dev.state_lock ≡ false
      → usb_disconnect k c ≡ (device_cleanup (usb_transport_ops k) valid >> tail) (detached c)
  unfolding usb_disconnect unregister_transport tail
  disconnect-eq k c hd hs = rw (hd, hs) refl

  -- What the interrupt URB and its buffer come to does not outlive the structure.
  abbrev gone : Core (UsbEnv K) → Core (UsbEnv K)
  gone c = record {
    dev = record (c.dev) { kref = c.dev.kref - 1 };
    env = record (c.env) { usb = none; intfdata = null };
  }

  cleanup_endpoints-eq :
      (u : Usb) (e : UsbEnv K)
      → e.usb ≡ some u
      → usb_cleanup_endpoints e ≡ done tt (set_usb (cleaned u) e)
  unfolding usb_cleanup_endpoints
  cleanup_endpoints-eq u e h = by_pointers (Ptr-cases u.int_urb) (Ptr-cases u.int_buffer)
    where
      same : e ≡ set_usb u e
      same = λ i. record e { usb = h i }

      by_pointers :
          (u.int_urb ≡ null) ⊎ (u.int_urb ≡ valid)
          → (u.int_buffer ≡ null) ⊎ (u.int_buffer ≡ valid)
          → usb_cleanup_endpoints e ≡ done tt (set_usb (cleaned u) e)
      by_pointers (inl p) (inl q) = rw (same, usb_cleanup_endpoints, p, q) refl
      by_pointers (inl p) (inr q) = rw (same, usb_cleanup_endpoints, p, q) refl
      by_pointers (inr p) (inl q) = rw (same, usb_cleanup_endpoints, p, q) refl
      by_pointers (inr p) (inr q) = rw (same, usb_cleanup_endpoints, p, q) refl

  tail-eq :
      (u : Usb) (c : Core (UsbEnv K))
      → c.env.usb ≡ some u
      → 1 < c.dev.kref
      → tail c ≡ done tt (gone c)
  unfolding tail device_put
  tail-eq u c h hk = ground (arith, cleanup_endpoints-eq u c.env h)

  -- What a disconnect leaves behind of `c`, the camera and the buffers included.
  abbrev pub Disconnected : Core (UsbEnv K) → Core (UsbEnv K) → Type 0
  Disconnected c c' =
      (c'.env ≡ record (c.env) { usb = none; intfdata = null })
      × (c'.dev ≡ record (c.dev) {
        kref = c.dev.kref - 1;
        transport_ops = null;
        drivers = no_drivers;
        state = disconnected;
        ptp = record (c.dev.ptp) {
          session_open = false;
          session_id = 0;
          transaction_id = c'.dev.ptp.transaction_id;
          event_queued = if is_null c.dev.ptp.event_wq then c.dev.ptp.event_queued else false;
        };
      })

  tail-Disconnected :
      (u : Usb) (c c1 : Core (UsbEnv K))
      → c.env.usb ≡ some u
      → 1 < c.dev.kref
      → CleanedUp (λ e. e ≡ c.env) (detached c) c1
      → Ends (λ _ c'. Disconnected c c') (tail c1)
  tail-Disconnected u c c1 hu hk (p, q) =
      rw (tail-eq u c1 (ap (λ e. e.usb) q ∙ hu) (rw (ap (λ d. d.kref) p) hk)) (
        ap {A = UsbEnv K} {B = UsbEnv K} (λ e. record e { usb = none; intfdata = null }) q,
        ap {A = Device} {B = Device} (λ d. record d { kref = d.kref - 1 }) p,
      )

  detached-Inv : (c : Core (UsbEnv K)) → SessionInv c.dev → SessionInv (detached c).dev
  detached-Inv c v = record {
    idle = v.idle;
    closed = v.closed;
    opened = v.opened;
    counter = v.counter;
  }

  -- A disconnect of a device in use, between two operations and while another reference is
  -- held, always ends: the session is closed here, there is no driver and no transport, the
  -- state is DISCONNECTED, the USB structure and the interface data are gone, and there is one
  -- reference less. The kernel's side of the transport and its buffers are as they were, so
  -- that a session that was open is not closed at the camera.
  pub usb_disconnect-silent :
      (k : UsbKernel K) (u : Usb) (c : Core (UsbEnv K))
      → c.env.intfdata ≡ valid
      → c.env.usb ≡ some u
      → SessionInv c.dev
      → c.dev.state_lock ≡ false
      → 1 < c.dev.kref
      → Ends (λ _ c'. Disconnected c c') (usb_disconnect k c)
  usb_disconnect-silent k u c hd hu v hs hk = rw (disconnect-eq k c hd hs) (
      Ends-bind (λ _ c'. CleanedUp (λ e. e ≡ c.env) (detached c) c') (λ _ c'. Disconnected c c') _
        (λ _. tail)
        (device_cleanup-close (λ e. e ≡ c.env) (usb_transport_ops k) (detached c) hs
          (close-offline (usb_transport_ops k) (without_drivers (detached c))
            (without_drivers-Inv (detached c) (detached-Inv c v)) refl))
        (λ _ c1 p. tail-Disconnected u c c1 hu hk p))
