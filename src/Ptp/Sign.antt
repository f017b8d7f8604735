-- ===== src/Ptp/Sign.antt =====
-- The sign of the statuses of drivers/core/canon-r5-ptp.c: callers that add up or index by a result
-- rely on a failure being negative.
use canon_r.Prelude.{
  ℕ, zero, suc, ◌≡◌, refl, inl, inr, Bool, true, false, not, ◌&&◌, ◌||◌, List, Option, none, some,
  length, ltb, ◌==◌, if◌then◌else◌, ℤ, pos, negsuc, failed, M, Outcome, done, fault, Ends, Ptr,
  is_null, Bool-cases,
}
use canon_r.Wire.{
  Byte, type_of, code_of, trans_id_of, container_response, sizeof_header, sizeof_container,
}
use canon_r.Device.{Core}
use canon_r.Ptp.{
  TransportOps, send_with, receive_with, transport_send, transport_receive, send_data_phase,
  check_response, transact, ptp_command, op_open_session, rc_ok,
}

abbrev pub not_positive : ℤ → Bool
not_positive (pos zero) = true
not_positive (pos (suc n)) = false
not_positive (negsuc n) = true

-- If the run ends, P holds for its end; it may also fault.
abbrev pub Partly : {S A : Type 0} → (A → S → Type 0) → Outcome S A → Type 0
Partly P (done a s) = P a s
Partly P (fault e) = Unit {0}

pub Partly-bind :
    {S A B : Type 0} (P : A → S → Type 0) (Q : B → S → Type 0) (r : Outcome S A) (f : A → M S B)
    → Partly P r
    → ((a : A) (s : S) → P a s → Partly Q (f a s))
    → Partly Q (elim r [ done a s' ↦ f a s' | fault e ↦ fault e ])
Partly-bind P Q (done a s) f h k = k a s h
Partly-bind P Q (fault e) f h k = tt

pub if-Partly :
    {S A : Type 0} (Q : A → S → Type 0) (b : Bool) (m n : M S A) (s : S)
    → Partly Q (m s)
    → Partly Q (n s)
    → Partly Q ((if b then m else n) s)
if-Partly Q true m n s h k = h
if-Partly Q false m n s h k = k

-- What ends, ends so.
pub Ends-Partly :
    {S A : Type 0} (P Q : A → S → Type 0) (r : Outcome S A)
    → Ends P r
    → Partly Q r
    → Ends (λ a s. P a s × Q a s) r
Ends-Partly P Q (done a s) h k = (h, k)
Ends-Partly P Q (fault e) h k = absurd h

abbrev pub Sign : {S : Type 0} → ℤ → S → Type 0
Sign ret s = not_positive ret ≡ true

-- A transport reports no failure by a positive number.
pub record IsSigned {E : Type 0} (ops : TransportOps E) : Type 0 where
  pub send_sign :
      (f : List Byte → M E ℤ)
      → ops.bulk_send ≡ some f
      → (bs : List Byte) (e : E) → Partly Sign (f bs e)
  pub receive_sign :
      (f : ℕ → M E (ℤ × List ℕ))
      → ops.bulk_receive ≡ some f
      → (len : ℕ) (e : E) → Partly (λ r e'. not_positive r.0 ≡ true) (f len e)

module _ {E : Type 0} where
  -- The sign of a result whose first part is the status.
  abbrev SignOf : {A : Type 0} → ℤ × A → Core E → Type 0
  SignOf r c = not_positive r.0 ≡ true

  on_env-Partly :
      {A : Type 0} (P : A → Type 0) (c : Core E) (r : Outcome E A)
      → Partly (λ a e. P a) r
      → Partly
          (λ a c'. P a)
          (elim r [ done a e ↦ done a (record c { env = e }) | fault x ↦ fault x ])
  on_env-Partly P c (done a e) h = h
  on_env-Partly P c (fault x) h = tt

module _ {E : Type 0} (ops : TransportOps E) (t : IsSigned ops) where
  send_with-Sign :
      (o : Option (List Byte → M E ℤ)) (bs : List Byte) (c : Core E)
      → ((f : List Byte → M E ℤ) → o ≡ some f → Partly Sign (f bs c.env))
      → Partly Sign (send_with o bs c)
  unfolding send_with
  send_with-Sign none bs c h = refl
  send_with-Sign (some f) bs c h =
      on_env-Partly (λ ret. not_positive ret ≡ true) c (f bs c.env) (h f refl)

  send-Sign :
      (object : List Byte) (len : ℕ) (c : Core E) → Partly Sign (transport_send ops object len c)
  unfolding transport_send
  send-Sign object len c = if-Partly Sign (is_null c.dev.transport_ops) _ _ c refl (
      if-Partly Sign (ltb (length object) len) _ _ c tt
        (send_with-Sign ops.bulk_send _ c (λ f e. t.send_sign f e _ c.env)))

  receive_with-Sign :
      (o : Option (ℕ → M E (ℤ × List ℕ))) (len : ℕ) (c : Core E)
      → ((f : ℕ → M E (ℤ × List ℕ))
          → o ≡ some f
          → Partly (λ r e'. not_positive r.0 ≡ true) (f len c.env))
      → Partly SignOf (receive_with o len c)
  unfolding receive_with
  receive_with-Sign none len c h = refl
  receive_with-Sign (some f) len c h =
      Partly-bind SignOf SignOf _ _
        (on_env-Partly (λ r. not_positive r.0 ≡ true) c (f len c.env) (h f refl))
        λ r c' k. if-Partly SignOf (ltb len (length r.1)) _ _ c' tt k

  receive-Sign : (len : ℕ) (c : Core E) → Partly SignOf (transport_receive ops len c)
  unfolding transport_receive
  receive-Sign len c =
      if-Partly SignOf (is_null c.dev.transport_ops) _ _ c refl
        (receive_with-Sign ops.bulk_receive len c (λ f e. t.receive_sign f e len c.env))

  data_phase-Sign :
      (code trans_id : ℕ) (b : Option (List Byte)) (n : ℤ) (c : Core E)
      → Partly Sign (send_data_phase ops code trans_id b n c)
  unfolding send_data_phase
  data_phase-Sign code trans_id none n c = refl
  data_phase-Sign code trans_id (some b) (negsuc n) c = refl
  data_phase-Sign code trans_id (some b) (pos zero) c = refl
  data_phase-Sign code trans_id (some b) (pos (suc n)) c =
      Partly-bind Sign Sign _ _ (send-Sign _ _ c)
        λ ret c' k. if-Partly Sign (failed ret) _ _ c' k (send-Sign b (suc n) c')

  check-Sign :
      (trans_id : ℕ) (resp : List ℕ) (c : Core E) → Partly SignOf (check_response trans_id resp c)
  unfolding check_response
  check-Sign trans_id resp c = if-Partly SignOf (ltb (length resp) sizeof_header) _ _ c refl (
      if-Partly SignOf (not (type_of resp == container_response)) _ _ c refl (
        if-Partly SignOf (not (trans_id_of resp == trans_id)) _ _ c refl
          (elim (Bool-cases (code_of resp == rc_ok)) [ inl e ↦ rw e refl | inr e ↦ rw e refl ])))

  transact-Sign :
      (code trans_id : ℕ) (params : List ℕ) (b : Option (List Byte)) (n : ℤ) (c : Core E)
      → Partly SignOf (transact ops code trans_id params b n c)
  unfolding transact
  transact-Sign code trans_id params b n c =
      Partly-bind Sign SignOf _ _ (send-Sign _ _ c) λ r1 c1 k1.
        if-Partly SignOf (failed r1) _ _ c1 k1 (
          Partly-bind Sign SignOf _ _ (data_phase-Sign code trans_id b n c1) λ r2 c2 k2.
            if-Partly SignOf (failed r2) _ _ c2 k2 (
              Partly-bind SignOf SignOf _ _ (receive-Sign sizeof_container c2)
                λ r3 c3 k3. if-Partly SignOf (failed r3.0) _ _ c3 k3 (check-Sign trans_id r3.1 c3)))

  -- Over a transport that reports failures by negative numbers, the status of a command is never
  -- positive, whatever its arguments are.
  pub ptp_command-Sign :
      (dev : Ptr) (code : ℕ) (params : List ℕ) (b : Option (List Byte)) (n : ℤ) (rc : Ptr)
      (c : Core E)
      → Partly (λ r c'. not_positive r.0 ≡ true) (ptp_command ops dev code params b n rc c)
  unfolding ptp_command
  ptp_command-Sign dev code params b n rc c =
      if-Partly SignOf (is_null dev || is_null rc) _ _ c refl (elim (Bool-cases c.dev.ptp.lock) [
        | inl l ↦ rw l tt
        | inr l ↦ rw l (
            if-Partly SignOf (not c.dev.ptp.session_open && not (code == op_open_session)) _ _ _
              refl (transact-Sign code c.dev.ptp.transaction_id params b n _))
      ])
