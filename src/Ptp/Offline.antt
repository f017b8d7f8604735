-- ===== src/Ptp/Offline.antt =====
-- The PTP layer of a device whose transport is gone.
use canon_r.Prelude.{
  ℕ, ◌≡◌, refl, ◌∙◌, ◌⊎◌, inl, inr, true, false, List, [], Option, none, arith, ◌==◌, ℤ, pos,
  success, enodev, done, Ends, Ends-bind, done-Ends, null, valid, Bool-cases,
}
use canon_r.Wire.{Byte}
use canon_r.Device.{Core}
use canon_r.Ptp.{TransportOps, transport_send, transact, leave, next_transaction, op_open_session}
use canon_r.Ptp.Command.{command-started}
use canon_r.Ptp.Session.{simple_command, ptp_close_session, op_close_session}
use canon_r.Ptp.Requests.{SessionInv}
use canon_r.Ptp.Lifecycle.{Session, close-closed, close-open, finish_close}

module _ {E : Type 0} (ops : TransportOps E) where
  transact-offline :
      (code trans_id : ℕ) (ps : List ℕ) (b : Option (List Byte)) (n : ℤ) (c : Core E)
      → c.dev.transport_ops ≡ null
      → transact ops code trans_id ps b n c ≡ leave enodev c
  unfolding transact transport_send
  transact-offline code trans_id ps b n c h = rw (h, transact, transport_send) refl

  -- With the mutex free, a command that may go out to a device without a transport fails with
  -- -ENODEV. It uses up a transaction number, and nothing is done behind the transport.
  pub simple_command-offline :
      (code : ℕ) (ps : List ℕ) (c : Core E)
      → c.dev.transport_ops ≡ null
      → c.dev.ptp.lock ≡ false
      → (c.dev.ptp.session_open ≡ true) ⊎ ((code == op_open_session) ≡ true)
      → simple_command ops code ps c ≡ done (enodev, none) (next_transaction c)
  unfolding simple_command
  simple_command-offline code ps c h hl ha =
      command-started ops c code ps none (pos 0) hl ha
      ∙ transact-offline code c.dev.ptp.transaction_id ps none (pos 0) _ h
      ∙ rw (← hl) refl

  -- Closing without a transport closes the session here and says nothing to the camera.
  pub close-offline :
      (c : Core E)
      → SessionInv c.dev
      → c.dev.transport_ops ≡ null
      → Ends
          (λ ret c'. (ret ≡ success) × Session (λ e. e ≡ c.env) 0 false c c')
          (ptp_close_session ops valid c)
  close-offline c v h = elim (Bool-cases c.dev.ptp.session_open) [
    | inl o ↦ rw (close-open ops c v.idle o) (
        Ends-bind (λ r c'. c' ≡ next_transaction c)
          (λ ret c'. (ret ≡ success) × Session (λ e. e ≡ c.env) 0 false c c') _ (finish_close ops)
          (done-Ends (λ r c'. c' ≡ next_transaction c) _ (enodev, none) (next_transaction c)
            (simple_command-offline op_close_session [] c h v.idle (inl o)) refl)
          (λ r c' e. rw (e, v.idle) (refl, (refl, omega arith, refl))))
    | inr o ↦ rw (close-closed ops c v.idle o) (refl, (ground (arith, v.closed o), v.counter, refl))
  ]
