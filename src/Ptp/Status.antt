-- ===== src/Ptp/Status.antt =====
-- The tests of the response code that many operations of drivers/core/canon-r5-ptp.c make after
-- `canon_r5_ptp_command`.
use canon_r.Prelude.{
  ℕ, ◌≡◌, refl, false, List, [], Option, some, length, arith, ℤ, failed, success, M, ◌>>=◌, return,
  Outcome, done, fault, Ends, Bool-cases, valid, inl, inr, if◌then◌else◌, eio, eagain, Ends-mono,
  ◌≤◌,
}
use canon_r.Device.{Core}
use canon_r.Ptp.{TransportOps, rc_ok}
use canon_r.Ptp.Transport.{IsTransport}
use canon_r.Ptp.Command.{Exchanged}
use canon_r.Ptp.Session.{simple_command, checked_command, not_ok}
use canon_r.Ptp.Still.{ptp_autofocus, op_autofocus, is_code}
use canon_r.Ptp.Requests.{SessionInv, simple_command-Ends}

-- The status alone of a command's result.
abbrev pub status_of : {E : Type 0} → M (Core E) (ℤ × Option ℕ) → M (Core E) ℤ
status_of m = do r ← m; return r.0

-- A branch on the response code, behind the branch on the status, is never taken with a bad code.
skip_check :
    {E : Type 0} (bad : Option ℕ → ℤ) (r : Outcome (Core E) (ℤ × Option ℕ))
    → Ends (λ a _. failed a.0 ≡ false → a ≡ (success, some rc_ok)) r
    → elim r [
      | done a s ↦
          (if failed a.0
              then return a.0
              else if not_ok a.1
              then return (bad a.1)
              else return success)
            s
      | fault e ↦ fault e
    ]
      ≡ elim r [ done a s ↦ done a.0 s | fault e ↦ fault e ]
skip_check bad (fault e) h = absurd h
skip_check {E} bad (done a s) h = elim (Bool-cases (failed a.0)) [
  | inl f ↦ rw f refl
  | inr f ↦ rw (h f) refl
]

module _ {E : Type 0} {Good : E → Type 0} (ops : TransportOps E) (t : IsTransport Good ops) where
  sound_answer :
      (code : ℕ) (ps : List ℕ) (c : Core E)
      → SessionInv c.dev
      → Good c.env
      → length ps ≤ 5
      → Ends (λ a _. failed a.0 ≡ false → a ≡ (success, some rc_ok)) (simple_command ops code ps c)
  sound_answer code ps c v g h =
      Ends-mono (Exchanged Good code c) _ _ (simple_command-Ends ops t code ps c v g h)
        (λ a s x. x.answered)

  -- Between two operations and over a good transport, an operation of at most five parameters
  -- that tests the response code after its command has the command's status: the test decides
  -- nothing.
  pub checked_command-status :
      (code : ℕ) (ps : List ℕ) (c : Core E)
      → SessionInv c.dev
      → Good c.env
      → length ps ≤ 5
      → checked_command ops code ps c ≡ status_of (simple_command ops code ps) c
  unfolding checked_command
  checked_command-status code ps c v g h = skip_check (λ _. eio) _ (sound_answer code ps c v g h)

  -- Under the same conditions the autofocus has the status of its command: it never tells a
  -- failed focus (response 0x2019) from other errors by -EAGAIN, as its last test would.
  pub ptp_autofocus-status :
      (c : Core E)
      → SessionInv c.dev
      → Good c.env
      → ptp_autofocus ops valid c ≡ status_of (simple_command ops op_autofocus []) c
  unfolding ptp_autofocus
  ptp_autofocus-status c v g =
      skip_check (λ rc. if is_code 0x2019 rc then eagain else eio) _
        (sound_answer op_autofocus [] c v g (omega arith))
