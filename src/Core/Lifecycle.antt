-- ===== src/Core/Lifecycle.antt =====
-- The life of a device in drivers/core/canon-r5-core.c: from its allocation to its release.
use canon_r.Prelude.{
  ℕ, ◌<◌, ◌≡◌, refl, ap, ◌∙◌, ◌⊎◌, inl, inr, false, arith, ℤ, pos, negsuc, success, enomem, M, done,
  fault, invalid_free, Ends, Ends-bind, Ptr, null, valid, is_null, Bool-cases, if◌then◌else◌,
  modify, return, get, ◌>>=◌, ◌>>◌,
}
use canon_r.Device.{Core, Device, initialized, disconnected, set_ptp, on_dev}
use canon_r.Ptp.{TransportOps}
use canon_r.Ptp.Transport.{IsTransport}
use canon_r.Ptp.Session.{ptp_init, ptp_cleanup, ptp_close_session}
use canon_r.Ptp.Requests.{SessionInv}
use canon_r.Ptp.Lifecycle.{Session, ptp_close_session-Ends}
use canon_r.Core.{
  Registry, alloc_with, AllocAnswers, no_drivers, device_release, device_get, device_put,
  device_alloc, device_initialize, device_cleanup, unregister_all, set_state, drain_events,
  set_priv, unregister_driver,
}

module _ {E : Type 0} where
  -- A reference that is taken and given back leaves the device as it was, while another is held.
  pub device_put-get :
      (c : Core E) → 0 < c.dev.kref → (device_get valid >> device_put valid) c ≡ done tt c
  unfolding device_get device_put
  device_put-get c h = ground arith

  -- Giving back the last reference always frees memory that was never allocated: the release frees
  -- `serial_number`, an array inside the device.
  pub device_put-last : (c : Core E) → c.dev.kref ≡ 1 → device_put valid c ≡ fault invalid_free
  unfolding device_put device_release
  device_put-last c h = ground arith

  unregister_all-eq :
      (c : Core E) → unregister_all c ≡ done tt (on_dev (λ d. record d { drivers = no_drivers }) c)
  unfolding unregister_all unregister_driver set_priv
  unregister_all-eq c = refl

  -- With the state's mutex free, `canon_r5_device_initialize` fails for want of a workqueue
  -- only, with -ENOMEM; then the device has none, and nothing else has changed. Otherwise it is
  -- INITIALIZED, with the workqueue and no work queued.
  pub device_initialize-cases :
      (c : Core E) (wq : Ptr)
      → c.dev.state_lock ≡ false
      → device_initialize valid wq c ≡ (
          if is_null wq
          then done enomem (set_ptp (record (c.dev.ptp) { event_wq = null }) c)
          else done success (
              on_dev
                (λ d. record d {
                  ptp = record (d.ptp) { event_wq = valid; event_queued = false };
                  state = initialized;
                })
                c))
  unfolding device_initialize ptp_init set_state
  device_initialize-cases c null h = refl
  device_initialize-cases c valid h = rw h refl

-- If there is memory, but no id or no device could be made, `canon_r5_device_alloc` does not
-- return NULL: giving the new device back, it frees memory that was not allocated.
pub device_alloc-failed :
    (a : AllocAnswers) (r : Registry) (n : ℕ)
    → a.memory ≡ valid
    → (a.id ≡ negsuc n) ⊎ (a.created ≡ null)
    → device_alloc a r ≡ fault invalid_free
unfolding device_alloc device_put device_release
device_alloc-failed a r n h (inl e) = rw (h, e, device_alloc) refl
device_alloc-failed a r n h (inr e) = rw (h, e, device_alloc) (by_id a.id)
  where
    by_id : (id : ℤ) → alloc_with valid id null r ≡ fault invalid_free
    by_id (pos k) = refl
    by_id (negsuc k) = refl

module _ {E : Type 0} where
  abbrev pub without_drivers : Core E → Core E
  without_drivers = on_dev (λ d. record d { drivers = no_drivers })

  -- What follows the PTP layer in the cleanup.
  abbrev stop : Unit {0} → M (Core E) (Unit {0})
  stop u = do
    c ← get
    (if is_null c.dev.ptp.event_wq then return tt else modify drain_events)
    r ← set_state valid disconnected
    return tt

  device_cleanup-eq :
      (ops : TransportOps E) (c : Core E)
      → device_cleanup ops valid c ≡ (ptp_cleanup ops valid >>= stop) (without_drivers c)
  unfolding device_cleanup unregister_all unregister_driver set_priv
  device_cleanup-eq ops c = refl

abbrev stopped : Device → Device
stopped d = record d {
  state = disconnected;
  ptp = record (d.ptp) {
    event_queued = if is_null d.ptp.event_wq then d.ptp.event_queued else false;
  };
}

stop-eq :
    {E : Type 0} (c : Core E) → c.dev.state_lock ≡ false → stop tt c ≡ done tt (on_dev stopped c)
unfolding set_state
stop-eq c h = elim (Bool-cases (is_null c.dev.ptp.event_wq)) [
  | inl e ↦ rw (e, h) refl
  | inr e ↦ rw (e, h) refl
]

module _ {E : Type 0} (Good : E → Type 0) where
  -- What is left of the device of `c` when the cleanup is through.
  abbrev pub CleanedUp : Core E → Core E → Type 0
  CleanedUp c c' =
      (c'.dev ≡ record (c.dev) {
        drivers = no_drivers;
        state = disconnected;
        ptp = record (c.dev.ptp) {
          session_open = false;
          session_id = 0;
          transaction_id = c'.dev.ptp.transaction_id;
          event_queued = if is_null c.dev.ptp.event_wq then c.dev.ptp.event_queued else false;
        };
      })
      × Good c'.env

  stop-CleanedUp :
      (c c1 : Core E)
      → c.dev.state_lock ≡ false
      → Session Good 0 false (without_drivers c) c1
      → Ends (λ _ c'. CleanedUp c c') (stop tt c1)
  stop-CleanedUp c c1 hs k = rw (stop-eq c1 (ap (λ d. d.state_lock) k.0 ∙ hs)) (ap stopped k.0, k.2)

  -- The cleanup, given what closing the session does.
  pub device_cleanup-close :
      (ops : TransportOps E) (c : Core E)
      → c.dev.state_lock ≡ false
      → Ends
          (λ ret c'. (ret ≡ success) × Session Good 0 false (without_drivers c) c')
          (ptp_close_session ops valid (without_drivers c))
      → Ends (λ _ c'. CleanedUp c c') (device_cleanup ops valid c)
  unfolding ptp_cleanup
  device_cleanup-close ops c hs h = rw (device_cleanup-eq ops c) (
      Ends-bind (λ _ c'. Session Good 0 false (without_drivers c) c') (λ _ c'. CleanedUp c c') _
        stop
        (Ends-bind (λ ret c'. (ret ≡ success) × Session Good 0 false (without_drivers c) c')
          (λ _ c'. Session Good 0 false (without_drivers c) c') _ _ h (λ _ _ p. p.1))
        (λ _ c1 k. stop-CleanedUp c c1 hs k))

-- Dropping the drivers does not concern the session.
pub without_drivers-Inv :
    {E : Type 0} (c : Core E) → SessionInv c.dev → SessionInv (without_drivers c).dev
without_drivers-Inv c v = record {
  idle = v.idle;
  closed = v.closed;
  opened = v.opened;
  counter = v.counter;
}

module _ {E : Type 0} {Good : E → Type 0} (ops : TransportOps E) (t : IsTransport Good ops) where
  -- Between two operations and over a good transport, the cleanup always ends: no driver is
  -- registered any more, the session counts as closed, no event work is queued on a workqueue
  -- that the device has, and the state is DISCONNECTED. Both mutexes, the reference count and
  -- the transport are as before.
  pub device_cleanup-Ends :
      (c : Core E)
      → SessionInv c.dev
      → c.dev.state_lock ≡ false
      → Good c.env
      → Ends (λ _ c'. CleanedUp Good c c') (device_cleanup ops valid c)
  device_cleanup-Ends c v hs g =
      device_cleanup-close Good ops c hs
        (ptp_close_session-Ends ops t (without_drivers c) (without_drivers-Inv c v) g)
