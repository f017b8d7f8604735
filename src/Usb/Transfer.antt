-- ===== src/Usb/Transfer.antt =====
-- The bulk transfers of drivers/core/canon-r5-usb.c as the transport of the PTP layer.
use canon_r.Prelude.{
  ℕ, ◌+◌, ◌≤◌, ◌≡◌, sym, subst, some-injective, inl, inr, Bool, true, false, List, [], ◌∷◌, Option,
  none, some, length, arith, ◌==◌, ℤ, failed, enomem, M, Outcome, done, Ends, Ends-bind, return,
  crash, null_deref, ◌>>=◌, Ends-mono, valid, Bool-cases, if◌then◌else◌,
}
use canon_r.Wire.{Byte}
use canon_r.Ptp.Transport.{IsTransport}
use canon_r.Usb.{
  Usb, with_usb, alloc_buffer, Endpoint, UsbKernel, UsbEnv, send_through, receive_through,
  usb_bulk_send, usb_bulk_receive, usb_transport_ops,
}

module _ {K : Type 0} where
  -- The device has its USB structure, as `u`, and `n` transfer buffers are allocated.
  abbrev pub Ready : Usb → ℕ → UsbEnv K → Type 0
  Ready u n e = (e.usb ≡ some u) × (e.buffers ≡ n)

  -- A read through `dev->usb` that is there.
  pub with_usb-Ends :
      {A : Type 0} (Q : A → UsbEnv K → Type 0) (f : Usb → M (UsbEnv K) A) (u : Usb) (e : UsbEnv K)
      → e.usb ≡ some u
      → Ends Q (f u e)
      → Ends Q (with_usb f e)
  with_usb-Ends Q f u e p h = go e.usb p
    where
      go :
          (o : Option Usb)
          → o ≡ some u
          → Ends Q (elim o [ none ↦ crash null_deref e | some v ↦ f v e ])
      go none q = cc
      go (some v) q = subst (λ w. Ends Q (f w e)) (sym (some-injective _ _ q)) h

  Holding : Usb → ℕ → Bool → UsbEnv K → Type 0
  Holding u n got e = (e.usb ≡ some u) × (e.buffers ≡ (if got then n + 1 else n))

  either-Ends :
      {A : Type 0} (Q : A → UsbEnv K → Type 0) (b : Bool) (x y : Outcome (UsbEnv K) A)
      → Ends Q x
      → Ends Q y
      → Ends Q (if b then x else y)
  either-Ends Q true x y h h' = h
  either-Ends Q false x y h h' = h'

module _ {K : Type 0} (k : UsbKernel K) (u : Usb) (n : ℕ) where
  alloc_buffer-Ends :
      (len : ℕ) (e : UsbEnv K) → Ready u n e → Ends (Holding u n) (alloc_buffer k len e)
  unfolding Holding
  alloc_buffer-Ends len e r =
      let answer = k.kmalloc len e.kernel in
      either-Ends (Holding u n) answer.0
        (done true (record e { buffers = e.buffers + 1; kernel = answer.1 }))
        (done false (record e { kernel = answer.1 })) (r.0, omega (arith, r.1)) (r.0, r.1)

  -- A transfer between the allocation of its buffer and the release of it.
  buffered :
      {A : Type 0} (P : A → Type 0) (len : ℕ) (run : M (UsbEnv K) A) (no_memory : A) (e : UsbEnv K)
      → Ready u n e
      → ((e' : UsbEnv K) → Ready u (n + 1) e' → Ends (λ a e''. P a × Ready u n e'') (run e'))
      → P no_memory
      → Ends
          (λ a e'. P a × Ready u n e')
          ((do got ← alloc_buffer k len; if got then run else return no_memory) e)
  unfolding Holding
  buffered P len run no_memory e r go h =
      Ends-bind (Holding u n) (λ a e'. P a × Ready u n e') _ _ (alloc_buffer-Ends len e r) next
    where
      next :
          (got : Bool) (e' : UsbEnv K)
          → Holding u n got e'
          → Ends (λ a e''. P a × Ready u n e'') ((if got then run else return no_memory) e')
      next true e' w = go e' w
      next false e' w = (h, w)

  send_through-Ends :
      (bs : List Byte) (ep : Option Endpoint) (e : UsbEnv K)
      → Ready u n e
      → Ends (λ _ e'. Unit {0} × Ready u n e') (send_through k bs ep e)
  unfolding send_through
  send_through-Ends bs none e r = (tt, r)
  send_through-Ends bs (some ep) e r =
      buffered (λ _. Unit {0}) (length bs) _ enomem e r (λ e' w. (tt, (w.0, omega (arith, w.1)))) tt

  bulk_send-Ends :
      (bytes : Option (List Byte)) (e : UsbEnv K)
      → Ready u n e
      → Ends (λ _ e'. Unit {0} × Ready u n e') (usb_bulk_send k valid bytes e)
  unfolding usb_bulk_send
  bulk_send-Ends none e r = (tt, r)
  bulk_send-Ends (some []) e r = (tt, r)
  bulk_send-Ends (some (b ∷ bs)) e r =
      with_usb-Ends (λ _ e'. Unit {0} × Ready u n e') (λ v. send_through k (b ∷ bs) v.ep_bulk_out) u
        e r.0 (send_through-Ends (b ∷ bs) u.ep_bulk_out e r)

  kept-le :
      (len : ℕ) (ret : ℤ) (bs : List ℕ)
      → length bs ≤ len
      → length (if failed ret then [] else bs) ≤ len
  kept-le len ret bs h = elim (Bool-cases (failed ret)) [
    | inl f ↦ rw f (omega arith)
    | inr f ↦ rw f h
  ]

  receive_through-Ends :
      (len : ℕ) (ep : Option Endpoint) (e : UsbEnv K)
      → Ready u n e
      → Ends (λ r e'. (length r.1 ≤ len) × Ready u n e') (receive_through k len ep e)
  unfolding receive_through
  receive_through-Ends len none e r = (omega arith, r)
  receive_through-Ends len (some ep) e r =
      buffered (λ a. length a.1 ≤ len) len _ (enomem, []) e r
        (λ e' w. (
          kept-le len (k.bulk_in_msg ep len e'.kernel).0 _ (k.bulk_in_fits ep len e'.kernel),
          (w.0, omega (arith, w.1)),
        ))
        (omega arith)

  bulk_receive-Ends :
      (len : ℕ) (e : UsbEnv K)
      → Ready u n e
      → Ends (λ r e'. (length r.1 ≤ len) × Ready u n e') (usb_bulk_receive k valid valid len e)
  unfolding usb_bulk_receive
  bulk_receive-Ends len e r = elim (Bool-cases (len == 0)) [
    | inl z ↦ rw (z, usb_bulk_receive) (omega arith, r)
    | inr z ↦
        rw (z, usb_bulk_receive)
          (with_usb-Ends (λ a e'. (length a.1 ≤ len) × Ready u n e')
            (λ v. receive_through k len v.ep_bulk_in) u e r.0
            (receive_through-Ends len u.ep_bulk_in e r))
  ]

  -- The two bulk functions are a transport as the PTP layer relies on, as long as the device has
  -- its USB structure: no NULL is followed, nothing past a buffer is written, the structure stays
  -- as it is, and every transfer buffer that was allocated is free again, on errors too.
  pub usb_bulk-IsTransport : IsTransport (Ready u n) (usb_transport_ops k)
  usb_bulk-IsTransport = record {
    send_ends = λ f p bs e r.
        subst (λ g. Ends (λ _ e'. Ready u n e') (g bs e)) (some-injective _ _ p)
          (Ends-mono (λ _ e'. Unit {0} × Ready u n e') (λ _ e'. Ready u n e') _
            (bulk_send-Ends (some bs) e r) (λ _ _ q. q.1));
    receive_ends = λ f p len e r.
        subst (λ g. Ends (λ a e'. (length a.1 ≤ len) × Ready u n e') (g len e))
          (some-injective _ _ p) (bulk_receive-Ends len e r);
  }
