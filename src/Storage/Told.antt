-- ===== src/Storage/Told.antt =====
-- How the PTP commands of drivers/storage/canon-r5-storage.c end, over a good transport.
use canon_r.Prelude.{
  ℕ, zero, suc, ◌+◌, ◌%◌, ◌^◌, ◌≤◌, ◌>>=◌, ◌≡◌, refl, ap, ◌⊎◌, inl, inr, true, false, List, [], ◌∷◌,
  Option, none, some, length, replicate, length-replicate, arith, ltb, if◌then◌else◌, ℤ, pos,
  negsuc, failed, success, lt_int, M, return, Ends, Ends-bind, Ends-mono, valid, Bool-cases,
}
use canon_r.Wire.{Byte}
use canon_r.Device.{Core}
use canon_r.Ptp.{TransportOps, ptp_command, rc_ok}
use canon_r.Ptp.Transport.{IsTransport}
use canon_r.Ptp.Command.{Exchanged, ptp_command-Exchanged}
use canon_r.Ptp.Requests.{SessionInv, Framed, Exchanged-Framed}
use canon_r.Ptp.Sign.{not_positive, IsSigned, Ends-Partly, ptp_command-Sign}
use canon_r.Ptp.Session.{not_ok}
use canon_r.Storage.Cards.{count_of}
use canon_r.Storage.Objects.{
  stack_buffer, smaller, with_response, ptp_get_storage_ids, ptp_get_storage_info,
  ptp_get_object_handles, ptp_get_object_info, ptp_get_object_data, ptp_send_object_data,
  ptp_delete_object, ptp_format_storage, storage_card, file_info, handles_from,
}

pub length-handles_from : (i n : ℕ) → length (handles_from i n) ≡ n
unfolding handles_from
length-handles_from i zero = refl
length-handles_from i (suc n) = ap suc (length-handles_from (suc i) n)

module _ {E : Type 0} (Good : E → Type 0) (c : Core E) where
  -- The answer to a command: a status of success comes with PTP_RC_OK, a failure is negative.
  abbrev pub Told : ℤ × Option ℕ → Core E → Type 0
  Told r c' =
      Framed Good c c'
      × (not_positive r.0 ≡ true)
      × (failed r.0 ≡ false → r ≡ (success, some rc_ok))

  -- Either the command failed and nothing was written, or it succeeded and `a` was.
  abbrev pub Gave : {A : Type 0} → A → ℤ × Option A → Core E → Type 0
  Gave a r c' = Framed Good c c' × (((failed r.0 ≡ true) × (r.1 ≡ none)) ⊎ (r ≡ (success, some a)))

  -- As many numbers were written as the result says.
  abbrev pub Listed : ℤ × List ℕ → Core E → Type 0
  Listed r c' = Framed Good c c' × (lt_int r.0 (pos 0) ≡ false → length r.1 ≡ count_of r.0)

abbrev unless_refused : {E A : Type 0} → A → ℤ × Option ℕ → M (Core E) (ℤ × Option A)
unless_refused a r =
    if failed r.0
    then return (r.0, none)
    else if not_ok r.1
    then return (r.0, none)
    else return (r.0, some a)

negative : (z : ℤ) → not_positive z ≡ true → failed z ≡ true → lt_int z (pos 0) ≡ true
negative (pos zero) h f = cc
negative (pos (suc n)) h f = cc
negative (negsuc n) h f = refl

module _ {E : Type 0} {Good : E → Type 0} (ops : TransportOps E) (t : IsTransport Good ops)
    (signed : IsSigned ops) (c : Core E) (v : SessionInv c.dev) (g : Good c.env) where
  told :
      (code : ℕ) (ps : List ℕ) (r : ℤ × Option ℕ) (c' : Core E)
      → Exchanged Good code c r c' × (not_positive r.0 ≡ true)
      → Told Good c r c'
  told code ps r c' (x, s) = (Exchanged-Framed Good code c r c' v x, s, x.answered)

  with_response-Told :
      (code : ℕ) (ps : List ℕ) (n : ℕ)
      → length ps ≤ 5
      → Ends (Told Good c) (with_response ops code ps n c)
  unfolding with_response
  with_response-Told code ps n h =
      Ends-mono (λ r c'. Exchanged Good code c r c' × (not_positive r.0 ≡ true)) (Told Good c) _
        (Ends-Partly (Exchanged Good code c) (λ r c'. not_positive r.0 ≡ true) _
          (ptp_command-Exchanged ops t c code ps (some (stack_buffer n)) (pos n) g v.idle h
            (omega (arith, length-replicate {A = Byte} n none)))
          (ptp_command-Sign ops signed valid code ps (some (stack_buffer n)) (pos n) valid c))
        (told code ps)

  pub ptp_get_storage_ids-Listed : (n : ℕ) → Ends (Listed Good c) (ptp_get_storage_ids ops n c)
  unfolding ptp_get_storage_ids
  ptp_get_storage_ids-Listed n =
      Ends-bind (Told Good c) (Listed Good c) _ _ (with_response-Told 0x1004 [] 64 (omega arith))
        λ r c' (w, s, a). elim (Bool-cases (failed r.0)) [
          | inl f ↦ rw (f, Ends) (w, λ k. cc (negative r.0 s f, k))
          | inr f ↦ elim (Bool-cases (ltb 1 n)) [
            | inl b ↦ rw (a f, b, Ends) (w, λ k. refl)
            | inr b ↦ rw (a f, b, Ends) (w, λ k. refl)
          ]
        ]

  -- The end of an operation that writes `a` when the camera agrees.
  gave :
      {A : Type 0} (a : A) (r : ℤ × Option ℕ) (c' : Core E)
      → Told Good c r c'
      → Ends (Gave Good c a) (unless_refused a r c')
  gave a r c' (w, s, k) = elim (Bool-cases (failed r.0)) [
    | inl f ↦ rw (f, Ends) (w, inl (f, refl))
    | inr f ↦ rw (k f, Ends) (w, inr refl)
  ]

  pub ptp_get_storage_info-Gave :
      (id : ℕ) → Ends (Gave Good c (storage_card id)) (ptp_get_storage_info ops id c)
  unfolding ptp_get_storage_info
  ptp_get_storage_info-Gave id =
      Ends-bind (Told Good c) (Gave Good c (storage_card id)) _ _
        (with_response-Told 0x1005 (id ∷ []) 128 (omega arith)) (gave (storage_card id))

  pub ptp_get_object_info-Gave :
      (now handle : ℕ)
      → Ends (Gave Good c (file_info now handle)) (ptp_get_object_info ops now handle c)
  unfolding ptp_get_object_info
  ptp_get_object_info-Gave now handle =
      Ends-bind (Told Good c) (Gave Good c (file_info now handle)) _ _
        (with_response-Told 0x1008 (handle ∷ []) 256 (omega arith)) (gave (file_info now handle))

  pub ptp_get_object_data-Gave :
      (handle size offset : ℕ)
      → Ends
          (Gave Good c (replicate (smaller size 1024) 0x55))
          (ptp_get_object_data ops handle size offset c)
  unfolding ptp_get_object_data
  ptp_get_object_data-Gave handle size offset =
      Ends-bind (Told Good c) (Gave Good c (replicate (smaller size 1024) 0x55)) _ _
        (with_response-Told 0x1009 (handle ∷ []) 1024 (omega arith))
        (gave (replicate (smaller size 1024) 0x55))

  pub ptp_send_object_data-Gave :
      (now size parent : ℕ)
      → Ends
          (Gave Good c ((0x00010000 + now % 2 ^ 32) % 2 ^ 32))
          (ptp_send_object_data ops now size parent c)
  unfolding ptp_send_object_data
  ptp_send_object_data-Gave now size parent =
      Ends-bind (Told Good c) (Gave Good c ((0x00010000 + now % 2 ^ 32) % 2 ^ 32)) _ _
        (with_response-Told 0x100C (parent ∷ (size % 2 ^ 32) ∷ []) 64 (omega arith))
        (gave ((0x00010000 + now % 2 ^ 32) % 2 ^ 32))

  pub ptp_get_object_handles-Listed :
      (id parent n : ℕ) → Ends (Listed Good c) (ptp_get_object_handles ops id parent n c)
  unfolding ptp_get_object_handles
  ptp_get_object_handles-Listed id parent n =
      Ends-bind (Told Good c) (Listed Good c) _ _
        (with_response-Told 0x1007 (id ∷ 0 ∷ parent ∷ []) 1024 (omega arith))
        λ r c' (w, s, a). elim (Bool-cases (failed r.0)) [
          | inl f ↦ rw (f, Ends) (w, λ k. cc (negative r.0 s f, k))
          | inr f ↦ rw (a f, Ends) (w, λ k. length-handles_from 0 (smaller n 10))
        ]

  -- A command without data, whose status is the result.
  plain-Framed :
      (code id : ℕ)
      → Ends
          (λ ret c'. Framed Good c c')
          ((do r ← ptp_command ops valid code (id ∷ []) none (pos 0) valid; return r.0) c)
  plain-Framed code id =
      Ends-bind (Exchanged Good code c) (λ ret c'. Framed Good c c') _ (λ r. return r.0)
        (ptp_command-Exchanged ops t c code (id ∷ []) none (pos 0) g v.idle (omega arith) tt)
        (λ r c' x. Exchanged-Framed Good code c r c' v x)

  pub ptp_delete_object-Framed :
      (handle : ℕ) → Ends (λ ret c'. Framed Good c c') (ptp_delete_object ops handle c)
  unfolding ptp_delete_object
  ptp_delete_object-Framed handle = plain-Framed 0x100A handle

  pub ptp_format_storage-Framed :
      (id : ℕ) → Ends (λ ret c'. Framed Good c c') (ptp_format_storage ops id c)
  unfolding ptp_format_storage
  ptp_format_storage-Framed id = plain-Framed 0x100F id
