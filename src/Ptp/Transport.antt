-- ===== src/Ptp/Transport.antt =====
-- What the PTP layer relies on of its transport, and what the two wrappers in
-- drivers/core/canon-r5-ptp.c make of it.
use canon_r.Prelude.{
  ℕ, ◌≤◌, ◌≡◌, refl, inl, inr, List, Option, none, some, length, ℤ, M, Outcome, done, fault, Ends,
  Ends-bind, Ends-mono, is_null, le→not-ltb, Bool-cases,
}
use canon_r.Wire.{Byte}
use canon_r.Device.{Device, Core}
use canon_r.Ptp.{TransportOps, send_with, receive_with, transport_send, transport_receive}

-- From a good state of what lies behind it, a transport operation ends in a good state, and a
-- receive gives no more bytes than the buffer holds.
pub record IsTransport {E : Type 0} (Good : E → Type 0) (ops : TransportOps E) : Type 0 where
  pub send_ends :
      (f : List Byte → M E ℤ)
      → ops.bulk_send ≡ some f
      → (bs : List Byte) (e : E) → Good e
      → Ends (λ _ e'. Good e') (f bs e)
  pub receive_ends :
      (f : ℕ → M E (ℤ × List ℕ))
      → ops.bulk_receive ≡ some f
      → (len : ℕ) (e : E) → Good e
      → Ends (λ r e'. (length r.1 ≤ len) × Good e') (f len e)

-- The device is `d`, and what lies behind the transport is good.
abbrev pub OnDevice : {E : Type 0} → (E → Type 0) → Device → Core E → Type 0
OnDevice Good d c = (c.dev ≡ d) × Good c.env

module _ {E : Type 0} (Good : E → Type 0) (d : Device) where
  -- A step behind the transport leaves the device alone.
  on_env-Ends :
      {A : Type 0} (P : A → Type 0) (c : Core E) (r : Outcome E A)
      → c.dev ≡ d
      → Ends (λ a e. P a × Good e) r
      → Ends
          (λ a c'. P a × OnDevice Good d c')
          (elim r [ done a e ↦ done a (record c { env = e }) | fault x ↦ fault x ])
  on_env-Ends P c (done a e) s h = (h.0, (s, h.1))
  on_env-Ends P c (fault x) s h = absurd h

  send_with-Ends :
      (o : Option (List Byte → M E ℤ)) (bs : List Byte) (c : Core E)
      → ((f : List Byte → M E ℤ) → o ≡ some f → Ends (λ _ e'. Good e') (f bs c.env))
      → OnDevice Good d c
      → Ends (λ _ c'. OnDevice Good d c') (send_with o bs c)
  unfolding send_with
  send_with-Ends none bs c h k = k
  send_with-Ends (some f) bs c h k =
      Ends-mono (λ _ c'. Unit {0} × OnDevice Good d c') (λ _ c'. OnDevice Good d c') _
        (on_env-Ends (λ _. Unit {0}) c (f bs c.env) k.0
          (Ends-mono (λ _ e'. Good e') (λ _ e'. Unit {0} × Good e') _ (h f refl)
            (λ _ _ g. (tt, g))))
        (λ _ _ p. p.1)

  receive_with-Ends :
      (o : Option (ℕ → M E (ℤ × List ℕ))) (len : ℕ) (c : Core E)
      → ((f : ℕ → M E (ℤ × List ℕ))
          → o ≡ some f
          → Ends (λ r e'. (length r.1 ≤ len) × Good e') (f len c.env))
      → OnDevice Good d c
      → Ends (λ _ c'. OnDevice Good d c') (receive_with o len c)
  unfolding receive_with
  receive_with-Ends none len c h k = k
  receive_with-Ends (some f) len c h k =
      Ends-bind (λ r c'. (length r.1 ≤ len) × OnDevice Good d c') (λ _ c'. OnDevice Good d c') _ _
        (on_env-Ends (λ r. length r.1 ≤ len) c (f len c.env) k.0 (h f refl))
        λ r c' p. rw (le→not-ltb len (length r.1) p.0) p.1

module _ {E : Type 0} {Good : E → Type 0} (ops : TransportOps E) (t : IsTransport Good ops)
    (d : Device) where
  pub send-Ends :
      (object : List Byte) (len : ℕ) (c : Core E)
      → len ≤ length object
      → OnDevice Good d c
      → Ends (λ _ c'. OnDevice Good d c') (transport_send ops object len c)
  unfolding transport_send
  send-Ends object len c h k = elim (Bool-cases (is_null c.dev.transport_ops)) [
    | inl e ↦ rw (e, transport_send) k
    | inr e ↦
        rw (e, le→not-ltb (length object) len h)
          (send_with-Ends Good d _ _ c (λ f q. t.send_ends f q _ c.env k.1) k)
  ]

  pub receive-Ends :
      (len : ℕ) (c : Core E)
      → OnDevice Good d c
      → Ends (λ _ c'. OnDevice Good d c') (transport_receive ops len c)
  unfolding transport_receive
  receive-Ends len c k = elim (Bool-cases (is_null c.dev.transport_ops)) [
    | inl e ↦ rw (e, transport_receive) k
    | inr e ↦ rw e (receive_with-Ends Good d _ len c (λ f q. t.receive_ends f q len c.env k.1) k)
  ]
