-- ===== src/Video/Opening.antt =====
-- The opening of the video device in drivers/video/canon-r5-v4l2.c.
use canon_r.Prelude.{
  ℕ, ◌+◌, ◌-◌, zero, suc, ◌≡◌, refl, sym, ap, ◌∙◌, ◌⊎◌, inl, inr, true, false, not, [],
  if◌then◌else◌, arith, ℤ, pos, negsuc, add_int, sub_int, failed, success, M, ◌>>=◌, ◌>>◌, return,
  get, done, Ends, done-Ends, Ends-bind, Ends-mono, valid, Bool-cases,
}
use canon_r.Device.{Core}
use canon_r.Ptp.{TransportOps}
use canon_r.Ptp.Transport.{IsTransport}
use canon_r.Ptp.Requests.{SessionInv, Framed, Framed-Inv, checked_command-Ends, Checked}
use canon_r.Ptp.Session.{ptp_open_session}
use canon_r.Ptp.Lifecycle.{Session, Session-Inv, ptp_open_session-Ends}
use canon_r.Ptp.Camera.{ptp_initiate_release_control, op_initiate_release_control}
use canon_r.Video.{VideoSystem, on_core, on_device, unlock_device}
use canon_r.Video.Control.{is_number, count_open, count_handles, first_open, video_open}
use canon_r.Video.Frames.{on_core-Ends}

one_less : (n : ℕ) → n + 1 - 1 ≡ n
one_less n = omega arith

add-sub : (z : ℤ) → sub_int (add_int z 1) 1 ≡ z
unfolding add_int sub_int
add-sub (pos n) = ground arith
add-sub (negsuc zero) = refl
add-sub (negsuc (suc n)) = ground arith

module _ {E : Type 0} (Good : E → Type 0) where
  -- Between two operations, with a transport that is good.
  abbrev pub Settled : VideoSystem E → Type 0
  Settled s = SessionInv s.core.dev × Good s.core.env

  -- Only the core's state has moved.
  abbrev Ensured : VideoSystem E → ℤ → VideoSystem E → Type 0
  Ensured s ret s' =
      Settled s'
      × (s' ≡ record s { core = s'.core })
      × ((failed ret ≡ true) ⊎ (s'.core.dev.ptp.session_open ≡ true))

  -- The device counts as open once more after a success, with a file handle more, and then, if it was closed before, a
  -- session is open; after a failure it counts as before.
  pub record Opened (s : VideoSystem E) (ret : ℤ) (s' : VideoSystem E) : Type 0 where
    pub settled : Settled s'
    pub stream : s'.stream ≡ s.stream
    pub device : s'.device ≡ record (s.device) {
      open_count = if failed ret then s.device.open_count else add_int (s.device.open_count) 1;
      file_handles = if failed ret then s.device.file_handles else s.device.file_handles + 1;
    }
    pub session :
        (failed ret ≡ true)
        ⊎ (is_number (add_int s.device.open_count 1) 1 ≡ false)
        ⊎ (s'.core.dev.ptp.session_open ≡ true)

module _ {E : Type 0} {Good : E → Type 0} (ops : TransportOps E) (t : IsTransport Good ops) where
  abbrev ensure : M (VideoSystem E) ℤ
  ensure = do
    s ← get
    (if not s.core.dev.ptp.session_open
        then on_core (ptp_open_session ops valid)
        else return success)

  abbrev enter : ℤ → M (VideoSystem E) ℤ
  enter ret =
      if failed ret
      then (do count_open (λ z. sub_int z 1); count_handles (λ n. n - 1); unlock_device; return ret)
      else do r ← on_core (ptp_initiate_release_control ops valid); unlock_device; return success

  first-eq : (s : VideoSystem E) → first_open ops s ≡ (ensure >>= enter) s
  unfolding first_open
  first-eq s = refl

  ensure-open : (s : VideoSystem E) → s.core.dev.ptp.session_open ≡ true → ensure s ≡ done success s
  ensure-open s h = rw h refl

  ensure-closed :
      (s : VideoSystem E)
      → s.core.dev.ptp.session_open ≡ false
      → ensure s ≡ on_core (ptp_open_session ops valid) s
  ensure-closed s h = rw h refl

  ensure-Ensured : (s : VideoSystem E) → Settled Good s → Ends (Ensured Good s) (ensure s)
  ensure-Ensured s (v, g) = elim (Bool-cases s.core.dev.ptp.session_open) [
    | inl h ↦
        done-Ends (Ensured Good s) (ensure s) success s (ensure-open s h) ((v, g), refl, inr h)
    | inr h ↦ rw (ensure-closed s h) (
        Ends-mono _ (Ensured Good s) _
          (on_core-Ends _ (ptp_open_session ops valid) s (ptp_open_session-Ends ops t s.core v g))
          opened)
  ]
    where
      opened :
          (ret : ℤ) (s' : VideoSystem E)
          → (((ret ≡ success) × Session Good 1 true s.core s'.core)
              ⊎ ((failed ret ≡ true) × Framed Good s.core s'.core))
            × (s' ≡ record s { core = s'.core })
          → Ensured Good s ret s'
      opened ret s' (inl (e, k), w) = (
        (Session-Inv Good s.core s'.core true v k, k.2),
        w,
        inr (ap (λ d. d.ptp.session_open) k.0),
      )
      opened ret s' (inr (f, k), w) = ((Framed-Inv Good s.core s'.core v k, k.alive), w, inl f)

  initiate-Framed :
      (c : Core E)
      → SessionInv c.dev
      → Good c.env
      → Ends (λ ret c'. Framed Good c c') (ptp_initiate_release_control ops valid c)
  unfolding ptp_initiate_release_control
  initiate-Framed c v g =
      Ends-mono (Checked Good op_initiate_release_control c) (λ ret c'. Framed Good c c') _
        (checked_command-Ends ops t op_initiate_release_control [] c v g (omega arith))
        (λ ret c' k. k.0)

  -- While the device is locked and counted as open.
  abbrev counted : VideoSystem E → VideoSystem E
  counted = on_device (λ d. record d {
    lock = true;
    file_handles = d.file_handles + 1;
    open_count = add_int (d.open_count) 1;
  })

  leave-eq :
      (ret : ℤ) (s : VideoSystem E)
      → failed ret ≡ true
      → enter ret s
        ≡ done ret (
            on_device
              (λ d. record d {
                lock = false;
                file_handles = d.file_handles - 1;
                open_count = sub_int (d.open_count) 1;
              })
              s)
  leave-eq ret s f = rw f refl

  abbrev ready : ℤ → M (VideoSystem E) ℤ
  ready r = do unlock_device; return success

  ready-eq :
      (ret : ℤ) (s : VideoSystem E)
      → failed ret ≡ false
      → enter ret s ≡ (on_core (ptp_initiate_release_control ops valid) >>= ready) s
  ready-eq ret s f = rw f refl

  enter-Opened :
      (s : VideoSystem E)
      → s.device.lock ≡ false
      → (ret : ℤ) (s1 : VideoSystem E) → Ensured Good (counted s) ret s1
      → Ends (Opened Good s) (enter ret s1)
  enter-Opened s hl ret s1 ((v, g), e, o) = elim (Bool-cases (failed ret)) [
    | inl f ↦ done-Ends (Opened Good s) (enter ret s1) ret _ (leave-eq ret s1 f) (record {
      settled = (v, g);
      stream = ap (λ s. s.stream) e;
      device =
          ap
            (λ x. record (x.device) {
              lock = false;
              file_handles = x.device.file_handles - 1;
              open_count = sub_int (x.device.open_count) 1;
            })
            e
          ∙ (λ i. record (s.device) {
            lock = sym hl i;
            open_count =
                (add-sub (s.device.open_count)
                    ∙ sym (
                        ap (λ b. if b then s.device.open_count else add_int s.device.open_count 1)
                          f))
                  i;
            file_handles =
                (one_less s.device.file_handles
                    ∙ sym (
                        ap (λ b. if b then s.device.file_handles else s.device.file_handles + 1) f))
                  i;
          });
      session = inl f;
    })
    | inr f ↦ rw (ready-eq ret s1 f) (
        Ends-bind _ (Opened Good s) _ ready
          (on_core-Ends (λ r c'. Framed Good s1.core c') (ptp_initiate_release_control ops valid) s1
            (initiate-Framed s1.core v g))
          (λ r s2 (w, e2). record {
            settled = (Framed-Inv Good s1.core s2.core v w, w.alive);
            stream = ap (λ s. s.stream) e2 ∙ ap (λ s. s.stream) e;
            device =
                ap (λ x. record (x.device) { lock = false }) e2
                ∙ ap (λ x. record (x.device) { lock = false }) e
                ∙ (λ i. record (s.device) {
                  lock = sym hl i;
                  open_count = add_int (s.device.open_count) 1;
                  file_handles = s.device.file_handles + 1;
                });
            session = elim o [
              | inl k ↦ inl (sym f ∙ k)
              | inr k ↦ inr (inr (ap (λ d. d.ptp.session_open) w.frame ∙ k))
            ];
          }))
  ]

  abbrev freed : VideoSystem E → VideoSystem E
  freed = on_device (λ d. record d { lock = false })

  refused-eq :
      (fh : ℤ) (s : VideoSystem E)
      → s.device.lock ≡ false
      → s.device.initialized ≡ true
      → failed fh ≡ true
      → video_open ops fh s ≡ done fh (freed s)
  unfolding video_open
  refused-eq fh s hl hi f = rw (hl, hi, f) refl

  again-eq :
      (fh : ℤ) (s : VideoSystem E)
      → s.device.lock ≡ false
      → s.device.initialized ≡ true
      → failed fh ≡ false
      → is_number (add_int s.device.open_count 1) 1 ≡ false
      → video_open ops fh s ≡ done success (freed (counted s))
  unfolding video_open
  again-eq fh s hl hi f n = rw (hl, hi, f, n) refl

  opens-eq :
      (fh : ℤ) (s : VideoSystem E)
      → s.device.lock ≡ false
      → s.device.initialized ≡ true
      → failed fh ≡ false
      → is_number (add_int s.device.open_count 1) 1 ≡ true
      → video_open ops fh s ≡ (ensure >>= enter) (counted s)
  unfolding video_open first_open
  opens-eq fh s hl hi f n = rw (hl, hi, f, n) refl

  -- Over a good transport, the opening of an initialised device that is not locked always ends with
  -- it unlocked and the stream as it was. After a success it counts as open once more, with
  -- one file handle more, and if it was closed before, a session with the camera is open; after a
  -- failure both counts are those of before.
  pub video_open-Opened :
      (fh : ℤ) (s : VideoSystem E)
      → SessionInv s.core.dev
      → Good s.core.env
      → s.device.lock ≡ false
      → s.device.initialized ≡ true
      → Ends (Opened Good s) (video_open ops fh s)
  video_open-Opened fh s v g hl hi = elim (Bool-cases (failed fh)) [
    | inl f ↦ done-Ends (Opened Good s) _ fh (freed s) (refused-eq fh s hl hi f) (record {
      settled = (v, g);
      stream = refl;
      device = λ i. record (s.device) {
        lock = sym hl i;
        open_count = (if sym f i then s.device.open_count else add_int s.device.open_count 1);
        file_handles = (if sym f i then s.device.file_handles else s.device.file_handles + 1);
      };
      session = inl f;
    })
    | inr f ↦ elim (Bool-cases (is_number (add_int s.device.open_count 1) 1)) [
      | inl n ↦ rw (opens-eq fh s hl hi f n) (
          Ends-bind (Ensured Good (counted s)) (Opened Good s) _ enter
            (ensure-Ensured (counted s) (v, g)) (enter-Opened s hl))
      | inr n ↦
          done-Ends (Opened Good s) _ success (freed (counted s)) (again-eq fh s hl hi f n)
            (record {
              settled = (v, g);
              stream = refl;
              device = λ i. record (s.device) {
                lock = sym hl i;
                open_count = add_int (s.device.open_count) 1;
                file_handles = s.device.file_handles + 1;
              };
              session = inr (inl n);
            })
    ]
  ]
