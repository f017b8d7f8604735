-- ===== src/Still/Focusing.antt =====
-- What the autofocus of drivers/still/canon-r5-still.c comes to.
use canon_r.Prelude.{
  ◌+◌, ◌%◌, ◌^◌, ◌≡◌, refl, inl, inr, true, false, [], arith, if◌then◌else◌, ℤ, failed, M, ◌>>=◌,
  ◌>>◌, return, modify, done, Ends, Ends-run, Ends-bind, valid, Bool-cases,
}
use canon_r.Device.{Core}
use canon_r.Ptp.{TransportOps}
use canon_r.Ptp.Transport.{IsTransport}
use canon_r.Ptp.Command.{Exchanged}
use canon_r.Ptp.Still.{ptp_autofocus, ptp_get_focus_info, op_autofocus}
use canon_r.Ptp.Requests.{SessionInv, Framed, Exchanged-Framed, simple_command-Ends}
use canon_r.Ptp.Status.{ptp_autofocus-status}
use canon_r.Still.{StillDevice, StillSystem, on_still, on_core}
use canon_r.Still.Busy.{on_core-Ends}
use canon_r.Still.Autofocus.{af_work, note_focus}

-- The end of an attempt, and where the lens is said to be after one that worked.
abbrev pub attempted : StillDevice → StillDevice
attempted d = record d {
  focus = record (d.focus) {
    lock = false;
    af_active = false;
    af_complete = true;
    af_queued = false;
  };
  stats = record (d.stats) { af_operations = (d.stats.af_operations + 1) % 2 ^ 64 };
}

abbrev pub in_focus : StillDevice → StillDevice
in_focus d = record d {
  focus = record (d.focus) { focus_position = 100; focus_achieved = true };
  stats = record (d.stats) { af_success = (d.stats.af_success + 1) % 2 ^ 64 };
}

abbrev pub focused : ℤ → StillDevice → StillDevice
focused ret d = attempted (if failed ret then d else in_focus d)

abbrev started : StillDevice → StillDevice
started d = record d {
  focus = record (d.focus) { lock = true; af_active = true; af_queued = false };
}

module _ {E : Type 0} where
  abbrev rest : ℤ → M (StillSystem E) (Unit {0})
  rest ret = do
    (if failed ret
        then return tt
        else do r ← on_core (ptp_get_focus_info valid valid valid); note_focus r)
    modify (
        on_still (λ d. record d {
          focus = record (d.focus) { af_active = false };
          stats = record (d.stats) { af_operations = (d.stats.af_operations + 1) % 2 ^ 64 };
        }))
    modify (on_still (λ d. record d { focus = record (d.focus) { lock = false } }))
    modify (on_still (λ d. record d { focus = record (d.focus) { af_complete = true } }))

  work-eq :
      (ops : TransportOps E) (s : StillSystem E)
      → s.still.focus.lock ≡ false
      → af_work ops s ≡ (on_core (ptp_autofocus ops valid) >>= rest) (on_still started s)
  unfolding af_work
  work-eq ops s h = rw h refl

  rest-eq :
      (ret : ℤ) (d : StillDevice) (c : Core E)
      → rest ret (record { still = started d; core = c })
        ≡ done tt (record { still = focused ret d; core = c })
  unfolding ptp_get_focus_info note_focus
  rest-eq ret d c = elim (Bool-cases (failed ret)) [ inl f ↦ rw f refl | inr f ↦ rw f refl ]

module _ {E : Type 0} (Good : E → Type 0) (ops : TransportOps E) where
  -- The driver's data after an attempt, by the status that the core driver gave.
  abbrev pub Focused : StillSystem E → StillSystem E → Type 0
  Focused s s' =
      Framed Good s.core s'.core
      × ((ret : ℤ) × (ptp_autofocus ops valid s.core ≡ done ret s'.core)
          × (s'.still ≡ focused ret s.still))

  abbrev Asked : Core E → ℤ → Core E → Type 0
  Asked c ret c' = Framed Good c c' × (ptp_autofocus ops valid c ≡ done ret c')

module _ {E : Type 0} {Good : E → Type 0} (ops : TransportOps E) (t : IsTransport Good ops) where
  autofocus-Framed :
      (c : Core E)
      → SessionInv c.dev
      → Good c.env
      → Ends (λ _ c'. Framed Good c c') (ptp_autofocus ops valid c)
  autofocus-Framed c v g = rw (ptp_autofocus-status ops t c v g) (
      Ends-bind (Exchanged Good op_autofocus c) (λ _ c'. Framed Good c c') _ (λ r. return r.0)
        (simple_command-Ends ops t op_autofocus [] c v g (omega arith))
        (λ r c' x. Exchanged-Framed Good op_autofocus c r c' v x))

  -- With its mutex free and between two operations of the PTP layer, the autofocus work always
  -- ends, whatever the camera answers: the attempt is counted and over, whoever waits for it is
  -- woken, and the mutex is free. If the status of the command is 0, focus counts as achieved
  -- at the position that the PTP layer gives; if not, the position and the count of successes
  -- are those of before. Of the device only the transaction counter has moved.
  pub af_work-Focused :
      (s : StillSystem E)
      → s.still.focus.lock ≡ false
      → SessionInv s.core.dev
      → Good s.core.env
      → Ends (λ _ s'. Focused Good ops s s') (af_work ops s)
  af_work-Focused s h v g = rw (work-eq ops s h) (
      Ends-bind (λ ret s'. Asked Good ops s.core ret s'.core × (s'.still ≡ started s.still))
        (λ _ s'. Focused Good ops s s') _ rest
        (on_core-Ends (Asked Good ops s.core) (ptp_autofocus ops valid) (on_still started s)
          (Ends-run (λ _ c'. Framed Good s.core c') _ (autofocus-Framed s.core v g)))
        answered)
    where
      answered :
          (ret : ℤ) (s1 : StillSystem E)
          → Asked Good ops s.core ret s1.core × (s1.still ≡ started s.still)
          → Ends (λ _ s'. Focused Good ops s s') (rest ret s1)
      answered ret s1 (k, e) =
          let same : s1 ≡ record { still = started s.still; core = s1.core } =
            λ i. record { still = e i; core = s1.core } in
          rw (same, rest-eq ret s.still s1.core) (k.0, (ret, k.1, refl))
