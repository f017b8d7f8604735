-- ===== src/Ptp/Lifecycle.antt =====
-- `canon_r5_ptp_open_session` and `canon_r5_ptp_close_session`: when a session is open.
use canon_r.Prelude.{
  ℕ, ◌^◌, ◌<◌, ◌≡◌, refl, sym, ap, ◌∙◌, ◌⊎◌, inl, inr, Bool, true, false, [], ◌∷◌, Option, arith, ℤ,
  failed, success, M, done, Ends, Ends-bind, valid, Bool-cases, ◌>>=◌, ◌>>◌, return, modify,
  if◌then◌else◌,
}
use canon_r.Device.{Core, Device, lock_ptp, unlock_ptp}
use canon_r.Ptp.{TransportOps, op_open_session}
use canon_r.Ptp.Transport.{IsTransport}
use canon_r.Ptp.Command.{Exchanged}
use canon_r.Ptp.Session.{
  simple_command, close_in, ptp_open_session, ptp_close_session, op_close_session,
}
use canon_r.Ptp.Requests.{SessionInv, Framed, Exchanged-Framed, simple_command-Ends}

module _ {E : Type 0} (Good : E → Type 0) where
  -- The device of `c` with the session and the counter of `c'`, and the counter a u32.
  abbrev pub Session : ℕ → Bool → Core E → Core E → Type 0
  Session id open? c c' =
      (c'.dev ≡ record (c.dev) {
        ptp = record (c.dev.ptp) {
          session_id = id;
          session_open = open?;
          transaction_id = c'.dev.ptp.transaction_id;
        };
      })
      × (c'.dev.ptp.transaction_id < 2 ^ 32)
      × Good c'.env

  pub Session-Inv :
      (c c' : Core E) (open? : Bool)
      → SessionInv c.dev
      → Session (if open? then 1 else 0) open? c c'
      → SessionInv c'.dev
  Session-Inv c c' true v (e, h, g0) = record {
    idle = ap (λ d. d.ptp.lock) e ∙ v.idle;
    closed = λ g. absurd-false (sym (ap (λ d. d.ptp.session_open) e) ∙ g);
    opened = λ g. ap (λ d. d.ptp.session_id) e;
    counter = h;
  }
    where
      absurd-false : true ≡ false → c'.dev.ptp.session_id ≡ 0
      absurd-false x = cc
  Session-Inv c c' false v (e, h, g0) = record {
    idle = ap (λ d. d.ptp.lock) e ∙ v.idle;
    closed = λ g. ap (λ d. d.ptp.session_id) e;
    opened = λ g. absurd-true (sym (ap (λ d. d.ptp.session_open) e) ∙ g);
    counter = h;
  }
    where
      absurd-true : false ≡ true → c'.dev.ptp.session_id ≡ 1
      absurd-true x = cc

module _ {E : Type 0} (ops : TransportOps E) where
  pub close-closed :
      (c : Core E)
      → c.dev.ptp.lock ≡ false
      → c.dev.ptp.session_open ≡ false
      → ptp_close_session ops valid c ≡ done success c
  unfolding ptp_close_session
  close-closed c hl hs = rw (hl, hs) refl

  abbrev pub finish_close : ℤ × Option ℕ → M (Core E) ℤ
  finish_close r = do lock_ptp; modify close_in; unlock_ptp; return success

  pub close-open :
      (c : Core E)
      → c.dev.ptp.lock ≡ false
      → c.dev.ptp.session_open ≡ true
      → ptp_close_session ops valid c ≡ (simple_command ops op_close_session [] >>= finish_close) c
  unfolding ptp_close_session
  close-open c hl hs = rw (hl, hs) refl

module _ {E : Type 0} {Good : E → Type 0} (ops : TransportOps E) (t : IsTransport Good ops) where
  -- Between two operations and over a good transport, opening ends. Either it reports success,
  -- session 1 is open and nothing else but the counter has changed; or it reports a failure and
  -- only the counter has changed.
  pub ptp_open_session-Ends :
      (c : Core E)
      → SessionInv c.dev
      → Good c.env
      → Ends
          (λ ret c'.
            ((ret ≡ success) × Session Good 1 true c c') ⊎ ((failed ret ≡ true) × Framed Good c c'))
          (ptp_open_session ops valid c)
  unfolding ptp_open_session
  ptp_open_session-Ends c v g =
      Ends-bind (Exchanged Good op_open_session c) _ _ _
        (simple_command-Ends ops t op_open_session (1 ∷ []) c v g (omega arith))
        λ r c' x.
          let f = Exchanged-Framed Good op_open_session c r c' v x in
          elim (Bool-cases (failed r.0)) [
            | inl h ↦ rw h (inr (h, f))
            | inr h ↦
                rw (x.answered h, ap (λ d. d.ptp.lock) f.frame, v.idle)
                  (inl (
                    refl,
                    (
                      ap {A = Device} {B = Device}
                          (λ d. record d {
                            ptp = record (d.ptp) {
                              lock = false;
                              session_id = 1;
                              session_open = true;
                            };
                          })
                          f.frame,
                      f.counter,
                      f.alive,
                    ),
                  ))
          ]

  -- Between two operations and over a good transport, closing always ends with status 0 and the
  -- session closed, whatever the camera answers and whether or not the transport works; but for
  -- the session and the counter nothing has changed.
  pub ptp_close_session-Ends :
      (c : Core E)
      → SessionInv c.dev
      → Good c.env
      → Ends (λ ret c'. (ret ≡ success) × Session Good 0 false c c') (ptp_close_session ops valid c)
  ptp_close_session-Ends c v g = elim (Bool-cases c.dev.ptp.session_open) [
    | inl o ↦ rw (close-open ops c v.idle o) (
        Ends-bind (Exchanged Good op_close_session c)
          (λ ret c'. (ret ≡ success) × Session Good 0 false c c') _ (finish_close ops)
          (simple_command-Ends ops t op_close_session [] c v g (omega arith))
          λ r c' x.
            let f = Exchanged-Framed Good op_close_session c r c' v x in
            rw (ap (λ d. d.ptp.lock) f.frame, v.idle)
              (
                refl,
                (
                  ap {A = Device} {B = Device}
                      (λ d. record d {
                        ptp = record (d.ptp) { lock = false; session_id = 0; session_open = false };
                      })
                      f.frame,
                  f.counter,
                  f.alive,
                ),
              ))
    | inr o ↦ rw (close-closed ops c v.idle o) (refl, (ground (arith, v.closed o), v.counter, g))
  ]
