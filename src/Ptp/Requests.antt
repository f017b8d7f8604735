-- ===== src/Ptp/Requests.antt =====
-- What the operations of the PTP layer keep, in any order: the session's state and the mutex.
use canon_r.Prelude.{
  ℕ, ◌+◌, ◌%◌, ◌^◌, ◌≤◌, ◌<◌, ◌≡◌, refl, sym, ap, ◌∙◌, ◌⊎◌, inl, inr, true, false, List, Option,
  none, length, arith, ◌==◌, ℤ, pos, failed, success, Ends, Ends-bind, Bool-cases,
}
use canon_r.Device.{Core, Device}
use canon_r.Ptp.{TransportOps, op_open_session}
use canon_r.Ptp.Transport.{IsTransport}
use canon_r.Ptp.Command.{Exchanged, ptp_command-Exchanged}
use canon_r.Ptp.Session.{simple_command, checked_command}

-- Between two operations nobody holds the mutex, the session's number tells whether it is open, and
-- the transaction counter is a u32.
pub record SessionInv (d : Device) : Type 0 where
  pub idle : d.ptp.lock ≡ false
  pub closed : d.ptp.session_open ≡ false → d.ptp.session_id ≡ 0
  pub opened : d.ptp.session_open ≡ true → d.ptp.session_id ≡ 1
  pub counter : d.ptp.transaction_id < 2 ^ 32

module _ {E : Type 0} (Good : E → Type 0) where
  -- An operation that is a single command: it moves the counter and nothing else of the device.
  pub record Framed (c c' : Core E) : Type 0 where
    pub frame :
        c'.dev
        ≡ record (c.dev) { ptp = record (c.dev.ptp) { transaction_id = c'.dev.ptp.transaction_id } }
    pub counter : c'.dev.ptp.transaction_id < 2 ^ 32
    pub alive : Good c'.env

  pub Framed-Inv : (c c' : Core E) → SessionInv c.dev → Framed c c' → SessionInv c'.dev
  Framed-Inv c c' v f = record {
    idle = ap (λ d. d.ptp.lock) f.frame ∙ v.idle;
    closed = λ h.
        ap (λ d. d.ptp.session_id) f.frame
        ∙ v.closed (sym (ap (λ d. d.ptp.session_open) f.frame) ∙ h);
    opened = λ h.
        ap (λ d. d.ptp.session_id) f.frame
        ∙ v.opened (sym (ap (λ d. d.ptp.session_open) f.frame) ∙ h);
    counter = f.counter;
  }

  -- Two such operations one after the other.
  pub Framed-trans : (c c1 c2 : Core E) → Framed c c1 → Framed c1 c2 → Framed c c2
  Framed-trans c c1 c2 w w2 = record {
    frame =
        w2.frame
        ∙ ap {A = Device}
            (λ d. record d { ptp = record (d.ptp) { transaction_id = c2.dev.ptp.transaction_id } })
            w.frame;
    counter = w2.counter;
    alive = w2.alive;
  }

  pub Exchanged-Framed :
      (code : ℕ) (c : Core E) (r : ℤ × Option ℕ) (c' : Core E)
      → SessionInv c.dev
      → Exchanged Good code c r c'
      → Framed c c'
  Exchanged-Framed code c r c' v x = record {
    frame = x.frame;
    counter = bound x.counted;
    alive = x.alive;
  }
    where
      bound :
          (c'.dev.ptp.transaction_id ≡ c.dev.ptp.transaction_id)
            ⊎ (c'.dev.ptp.transaction_id ≡ (c.dev.ptp.transaction_id + 1) % 2 ^ 32)
          → c'.dev.ptp.transaction_id < 2 ^ 32
      bound (inl e) = omega (arith, v.counter)
      bound (inr e) = omega arith

  -- Only the counter has moved, and a status of success means that the command was allowed.
  abbrev pub Checked : ℕ → Core E → ℤ → Core E → Type 0
  Checked code c ret c' =
      Framed c c'
      × (failed ret ≡ false
          → (ret ≡ success)
            × ((c.dev.ptp.session_open ≡ true) ⊎ ((code == op_open_session) ≡ true)))

module _ {E : Type 0} {Good : E → Type 0} (ops : TransportOps E) (t : IsTransport Good ops) where
  -- A status of success comes with the response code PTP_RC_OK, for a command that was allowed.
  pub simple_command-Ends :
      (code : ℕ) (ps : List ℕ) (c : Core E)
      → SessionInv c.dev
      → Good c.env
      → length ps ≤ 5
      → Ends (Exchanged Good code c) (simple_command ops code ps c)
  unfolding simple_command
  simple_command-Ends code ps c v g h =
      ptp_command-Exchanged ops t c code ps none (pos 0) g v.idle h tt

  -- Between two operations and over a good transport, a checked command of at most five
  -- parameters always ends with only the counter moved; a status that is no failure is 0, and
  -- then the session was open or the command opens one.
  pub checked_command-Ends :
      (code : ℕ) (ps : List ℕ) (c : Core E)
      → SessionInv c.dev
      → Good c.env
      → length ps ≤ 5
      → Ends (Checked Good code c) (checked_command ops code ps c)
  unfolding checked_command
  checked_command-Ends code ps c v g h =
      Ends-bind (Exchanged Good code c) (Checked Good code c) _ _
        (simple_command-Ends code ps c v g h)
        λ r c' x. elim (Bool-cases (failed r.0)) [
          | inl f ↦ rw f (Exchanged-Framed Good code c r c' v x, λ k. cc)
          | inr f ↦
              rw (x.answered f) (Exchanged-Framed Good code c r c' v x, λ k. (refl, x.allowed f))
        ]
