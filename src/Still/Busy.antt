-- ===== src/Still/Busy.antt =====
-- When the still driver, drivers/still/canon-r5-still.c, takes a picture, and when it refuses to.
use canon_r.Prelude.{
  ℕ, ◌≡◌, refl, sym, ap, ◌∙◌, inl, inr, Bool, true, false, ◌||◌, [], ◌∷◌, arith, ltb, ◌==◌,
  if◌then◌else◌, ℤ, pos, negsuc, add_int, sub_int, failed, success, M, ◌>>=◌, ◌>>◌, return, Outcome,
  done, fault, Ends, Ends-run, Ends-bind, valid, Bool-cases, modify,
}
use canon_r.Device.{Core}
use canon_r.Ptp.{TransportOps}
use canon_r.Ptp.Transport.{IsTransport}
use canon_r.Ptp.Camera.{op_capture}
use canon_r.Ptp.Still.{ptp_capture_single, ptp_capture_burst, op_capture_burst}
use canon_r.Ptp.Requests.{SessionInv, Framed, Checked, checked_command-Ends}
use canon_r.Still.{StillDevice, StillSystem, on_still, on_core}
use canon_r.Still.Capture.{begin_capture, abort_capture, capture_single, capture_burst}

sub_int-add_int : (p : ℤ) (n : ℕ) → sub_int (add_int p n) n ≡ p
unfolding sub_int add_int
sub_int-add_int (pos m) n = ground arith
sub_int-add_int (negsuc m) n = elim (Bool-cases (ltb m n)) [
  | inl e ↦ rw (e, add_int) (ground arith)
  | inr e ↦ rw (e, add_int) (ground arith)
]

-- A call of the core driver leaves the still driver's data alone.
pub on_core-Ends :
    {E A : Type 0} (P : A → Core E → Type 0) (m : M (Core E) A) (s : StillSystem E)
    → Ends P (m s.core)
    → Ends (λ a s'. P a s'.core × (s'.still ≡ s.still)) (on_core m s)
on_core-Ends P m s h = go (m s.core) h
  where
    go :
        (r : Outcome _ _)
        → Ends P r
        → Ends
            (λ a s'. P a s'.core × (s'.still ≡ s.still))
            (elim r [ done a c ↦ done a (record s { core = c }) | fault x ↦ fault x ])
    go (done a c) k = (k, refl)
    go (fault x) k = absurd k

abbrev released : ℕ → StillDevice → StillDevice
released n d = record (abort_capture n (begin_capture n (record d { lock = true }))) {
  lock = false;
}

released-same :
    (n : ℕ) (d : StillDevice) → d.lock ≡ false → d.capture_active ≡ false → released n d ≡ d
released-same n d hl ha i = record d {
  lock = sym hl i;
  capture_active = sym ha i;
  pending_captures = sub_int-add_int d.pending_captures n i;
}

-- The work is queued, for a single shot; not for a burst.
abbrev pub queue_work : Bool → StillDevice → StillDevice
queue_work queue? d = record d { capture_queued = if queue? then true else d.capture_queued }

module _ {E : Type 0} where
  -- What both captures do when the core driver has answered.
  abbrev finish : ℕ → Bool → ℤ → M (StillSystem E) ℤ
  finish n queue? ret =
      if failed ret
      then (do
        modify (on_still (abort_capture n))
        modify (on_still (λ d. record d { lock = false }))
        return ret)
      else do
        modify (on_still (queue_work queue?))
        modify (on_still (λ d. record d { lock = false }))
        return success

  abbrev begun : ℕ → StillSystem E → StillSystem E
  begun n = on_still (λ d. begin_capture n (record d { lock = true }))

  capture_single-eq :
      (ops : TransportOps E) (s : StillSystem E)
      → s.still.lock ≡ false
      → s.still.capture_active ≡ false
      → capture_single ops valid s
        ≡ (on_core (ptp_capture_single ops valid) >>= finish 1 true) (begun 1 s)
  unfolding capture_single
  capture_single-eq ops s hl ha = rw (hl, ha) refl

  capture_burst-eq :
      (ops : TransportOps E) (n : ℕ) (s : StillSystem E)
      → s.still.lock ≡ false
      → s.still.capture_active ≡ false
      → (n == 0 || ltb 999 n) ≡ false
      → capture_burst ops valid n s
        ≡ (on_core (ptp_capture_burst ops valid n) >>= finish n false) (begun n s)
  unfolding capture_burst
  capture_burst-eq ops n s hl ha hn = rw (hn, hl, ha) refl

-- The driver's data after a capture that the camera took: busy, with `n` pictures more pending, and
-- the work queued if `queue?`.
abbrev pub shot : ℕ → Bool → StillDevice → StillDevice
shot n queue? d = record d {
  capture_active = true;
  pending_captures = add_int d.pending_captures n;
  capture_queued = if queue? then true else d.capture_queued;
}

module _ {E : Type 0} (Good : E → Type 0) where
  -- The status is that of the core driver's `m`. A capture that the camera did not take leaves the
  -- driver's data as they were.
  abbrev pub Shot : M (Core E) ℤ → ℕ → Bool → StillSystem E → ℤ → StillSystem E → Type 0
  Shot m n queue? s ret s' =
      Framed Good s.core s'.core
      × (m s.core ≡ done ret s'.core)
      × (if failed ret
          then s'.still ≡ s.still
          else (ret ≡ success) × (s'.still ≡ shot n queue? s.still))

  abbrev pub Asked : M (Core E) ℤ → ℕ → Core E → ℤ → Core E → Type 0
  Asked m code c ret c' = Checked Good code c ret c' × (m c ≡ done ret c')

  finish-Shot :
      (m : M (Core E) ℤ) (n code : ℕ) (queue? : Bool) (s : StillSystem E) (ret : ℤ)
      (s1 : StillSystem E)
      → s.still.lock ≡ false
      → s.still.capture_active ≡ false
      → (Checked Good code s.core ret s1.core × (m s.core ≡ done ret s1.core))
        × (s1.still ≡ (begun n s).still)
      → Ends (Shot m n queue? s) (finish n queue? ret s1)
  finish-Shot m n code queue? s ret s1 hl ha ((k, r), e) = elim (Bool-cases (failed ret)) [
    | inl f ↦
        rw (f, Ends)
          (
            k.0,
            r,
            rw f (
                ap {A = StillDevice} {B = StillDevice}
                  (λ d. record (abort_capture n d) { lock = false }) e
                ∙ released-same n s.still hl ha),
          )
    | inr f ↦
        rw (f, Ends)
          (
            k.0,
            r ∙ ap (λ z. done z s1.core) (k.1 f).0,
            (
              refl,
              ap {A = StillDevice} {B = StillDevice}
                    (λ d. record (queue_work queue? d) { lock = false }) e
                  ∙ (λ i. record (shot n queue? s.still) { lock = sym hl i }),
            ),
          )
  ]

module _ {E : Type 0} {Good : E → Type 0} (ops : TransportOps E) (t : IsTransport Good ops) where
  -- A single shot of an idle driver, between two operations of the PTP layer, always ends with
  -- the status that the core driver gives. Either the camera took it, and the driver is busy
  -- with one picture more pending and its work queued; or it fails and the driver's data are
  -- unchanged. Of the device only the transaction counter has moved.
  pub capture_single-Shot :
      (s : StillSystem E)
      → s.still.lock ≡ false
      → s.still.capture_active ≡ false
      → SessionInv s.core.dev
      → Good s.core.env
      → Ends (Shot Good (ptp_capture_single ops valid) 1 true s) (capture_single ops valid s)
  unfolding ptp_capture_single
  capture_single-Shot s hl ha v g = rw (capture_single-eq ops s hl ha) (
      Ends-bind _ (Shot Good (ptp_capture_single ops valid) 1 true s) _ (finish 1 true)
        (on_core-Ends (Asked Good (ptp_capture_single ops valid) op_capture s.core)
          (ptp_capture_single ops valid) (begun 1 s)
          (Ends-run (Checked Good op_capture s.core) _
            (checked_command-Ends ops t op_capture [] s.core v g (omega arith))))
        (λ ret s1 k.
          finish-Shot Good (ptp_capture_single ops valid) 1 op_capture true s ret s1 hl ha k))

  -- A burst of 1 to 999 pictures of an idle driver, between two operations of the PTP layer,
  -- always ends with the status that the core driver gives. Either the camera took it, and the
  -- driver is busy with as many pictures more pending, without queueing the work; or it fails, and the
  -- driver's data are unchanged. Of the device only the transaction counter has moved.
  pub capture_burst-Shot :
      (s : StillSystem E) (count : ℕ)
      → (count == 0 || ltb 999 count) ≡ false
      → s.still.lock ≡ false
      → s.still.capture_active ≡ false
      → SessionInv s.core.dev
      → Good s.core.env
      → Ends
          (Shot Good (ptp_capture_burst ops valid count) count false s)
          (capture_burst ops valid count s)
  unfolding ptp_capture_burst
  capture_burst-Shot s count hn hl ha v g = rw (capture_burst-eq ops count s hl ha hn) (
      Ends-bind _ (Shot Good (ptp_capture_burst ops valid count) count false s) _
        (finish count false)
        (on_core-Ends (Asked Good (ptp_capture_burst ops valid count) op_capture_burst s.core)
          (ptp_capture_burst ops valid count) (begun count s)
          (Ends-run (Checked Good op_capture_burst s.core)
            (ptp_capture_burst ops valid count s.core)
            (rw (hn, ptp_capture_burst)
              (checked_command-Ends ops t op_capture_burst (count ∷ []) s.core v g (omega arith)))))
        (λ ret s1 k.
          finish-Shot Good (ptp_capture_burst ops valid count) count op_capture_burst false s ret s1
            hl ha k))
