-- ===== src/Usb/Attach.antt =====
-- What `canon_r5_usb_probe` of drivers/core/canon-r5-usb.c ends with.
use canon_r.Prelude.{
  ◌≡◌, refl, inl, inr, true, false, List, some, arith, ℤ, failed, success, M, ◌>>=◌, return,
  Outcome, done, fault, invalid_free, Ends, Ptr, null, valid, is_null, Bool-cases, if◌then◌else◌,
}
use canon_r.Device.{Core, Device, connected}
use canon_r.Core.{
  fresh_device, device_put, device_release, device_initialize, register_transport, set_state,
  unregister_transport,
}
use canon_r.Ptp.Session.{ptp_init}
use canon_r.Ptp.Requests.{SessionInv}
use canon_r.Usb.{Usb, Endpoint, UsbEnv, zeroed_usb, usb_cleanup_endpoints}
use canon_r.Usb.Endpoints.{Started, Interrupts, Found, usb_init_endpoints-Started}
use canon_r.Usb.Probe.{ProbeAnswers, attach, error_endpoints, error_transport, new_core}

-- The run ends as P says, or frees memory that was not allocated.
abbrev pub OrFrees : {S A : Type 0} → (A → S → Type 0) → Outcome S A → Type 0
OrFrees P (done a s) = P a s
OrFrees P (fault x) = x ≡ invalid_free

OrFrees-bind :
    {S A B : Type 0} (P : A → S → Type 0) (Q : B → S → Type 0) (r : Outcome S A) (f : A → M S B)
    → Ends P r
    → ((a : A) (s : S) → P a s → OrFrees Q (f a s))
    → OrFrees Q (elim r [ done a s' ↦ f a s' | fault e ↦ fault e ])
OrFrees-bind P Q (done a s) f h k = k a s h
OrFrees-bind P Q (fault e) f h k = absurd h

-- The structure when the endpoints are looked for.
abbrev held_usb : Usb
held_usb = record zeroed_usb { udev_held = true; intf_held = true }

-- A step behind the transport leaves the device alone.
on_env-keeps :
    {E A : Type 0} (P : A → E → Type 0) (d : Device) (r : Outcome E A)
    → Ends P r
    → Ends {S = Core E}
        (λ a c. P a c.env × (c.dev ≡ d))
        (elim r [ done a e ↦ done a (record { dev = d; env = e }) | fault x ↦ fault x ])
on_env-keeps P d (done a e) h = (h, refl)
on_env-keeps P d (fault x) h = absurd h

module _ {K : Type 0} where
  -- A device that is attached: connected, with its transport, an idle closed session, a workqueue
  -- for events, the three endpoints and a submitted interrupt URB.
  pub record Attached (ret : ℤ) (c : Core (UsbEnv K)) : Type 0 where
    pub status : ret ≡ success
    pub state : c.dev.state ≡ connected
    pub transport : c.dev.transport_ops ≡ valid
    pub references : c.dev.kref ≡ 1
    pub session : SessionInv c.dev
    pub closed : c.dev.ptp.session_open ≡ false
    pub no_session : c.dev.ptp.session_id ≡ 0
    pub unlocked : c.dev.state_lock ≡ false
    pub event_wq : c.dev.ptp.event_wq ≡ valid
    pub data_set : c.env.intfdata ≡ valid
    pub usb :
        (u : Usb) × (c.env.usb ≡ some u)
        × Found u
        × Interrupts valid u
        × (u.udev_held ≡ true)
        × (u.intf_held ≡ true)

  -- The device and the environment when the endpoints are set up.
  started : Usb → K → Core (UsbEnv K)
  started u s = record {
    dev = fresh_device;
    env = record { usb = some u; intfdata = valid; buffers = 0; kernel = s };
  }

  error_endpoints-frees :
      (ret : ℤ) (u : Usb) (s : K) → error_endpoints ret (started u s) ≡ fault invalid_free
  unfolding error_endpoints device_put device_release started
  error_endpoints-frees ret u s = refl

  -- The rest of the probe when the interrupts run.
  after_endpoints : Ptr → M (Core (UsbEnv K)) ℤ
  after_endpoints wq = do
    ret ← register_transport valid valid
    if failed ret then error_endpoints ret else do
      ret ← device_initialize valid wq
      if failed ret then error_transport ret else do r ← set_state valid connected; return success

  after_endpoints-Attached :
      (wq : Ptr) (u : Usb) (s : K)
      → u.udev_held ≡ true
      → u.intf_held ≡ true
      → Found u
      → Interrupts valid u
      → OrFrees Attached (after_endpoints wq (started u s))
  unfolding after_endpoints register_transport device_initialize ptp_init set_state started
      error_transport unregister_transport usb_cleanup_endpoints error_endpoints device_put
      device_release
  after_endpoints-Attached valid u s hu hi f i = record {
    status = refl;
    state = refl;
    transport = refl;
    references = refl;
    session = record { idle = refl; closed = λ h. refl; opened = λ h. cc; counter = omega arith };
    closed = refl;
    no_session = refl;
    unlocked = refl;
    event_wq = refl;
    data_set = refl;
    usb = (u, refl, f, i, hu, hi);
  }
  after_endpoints-Attached null u s hu hi f i = rw (i.urb, i.buffer) refl

  after_init-Attached :
      (wq : Ptr) (s : K) (ret : ℤ) (c : Core (UsbEnv K))
      → Started held_usb (started held_usb s).env ret c.env × (c.dev ≡ fresh_device)
      → OrFrees Attached ((if failed ret then error_endpoints ret else after_endpoints wq) c)
  unfolding started
  after_init-Attached wq s ret c ((u, e, hu, hi, w), d) =
      let same : c ≡ started u s = λ i. record { dev = d i; env = e i } in
      elim (Bool-cases (failed ret)) [
        | inl f ↦ rw (f, same, error_endpoints-frees ret u s) refl
        | inr f ↦
            let ready : Found u × Interrupts valid u = rw f at w in
            rw (f, same) (after_endpoints-Attached wq u s hu hi ready.0 ready.1)
      ]

  -- A probe of a fresh device never reports a failure. Either it succeeds, and the device is
  -- attached; or, on each failure of the allocators, of usbcore or of the search for the
  -- endpoints, the device is given back and that frees memory which was not allocated.
  pub attach-Attached :
      (a : ProbeAnswers) (eps : List Endpoint) (s : K)
      → OrFrees Attached (attach a eps (new_core fresh_device s))
  unfolding attach started after_endpoints device_put device_release
  attach-Attached a eps s = elim (Bool-cases (is_null a.usb_memory)) [
    | inl e ↦ rw (e, attach) refl
    | inr e ↦
        rw (e, attach)
          (OrFrees-bind
            (λ ret c. Started held_usb (started held_usb s).env ret c.env × (c.dev ≡ fresh_device))
            Attached _ _
            (on_env-keeps (Started held_usb (started held_usb s).env) fresh_device _ (
              usb_init_endpoints-Started a.interrupts eps held_usb (started held_usb s).env refl
                (record { urb = refl; buffer = refl; submitted = refl })))
            (after_init-Attached a.event_wq s))
  ]
