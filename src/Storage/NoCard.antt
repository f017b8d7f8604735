-- ===== src/Storage/NoCard.antt =====
-- Whether a card of drivers/storage/canon-r5-storage.c ever becomes the active one.
use canon_r.Prelude.{
  ℕ, zero, suc, ◌≡◌, refl, ap, ◌∙◌, inl, inr, Bool, true, false, List, [], ◌∷◌, Option, length,
  ◌==◌, ℤ, pos, negsuc, failed, lt_int, M, ◌>>=◌, Outcome, done, fault, Ends, Ends-bind, valid,
  Bool-cases, arith, if-Ends, ◌≤◌,
}
use canon_r.Device.{Core}
use canon_r.Ptp.{TransportOps}
use canon_r.Ptp.Transport.{IsTransport}
use canon_r.Ptp.Requests.{SessionInv, Framed, Framed-Inv}
use canon_r.Ptp.Sign.{IsSigned}
use canon_r.Storage.{
  StorageSystem, StorageCard, on_storage, on_card, on_core, max_cards, lock_storage,
}
use canon_r.Storage.Cards.{is_inserted, count_of, store_card, scan_slots, scan_cards}
use canon_r.Storage.Objects.{storage_card, smaller, ptp_get_storage_ids, ptp_get_storage_info}
use canon_r.Storage.Told.{Gave, Listed, ptp_get_storage_info-Gave, ptp_get_storage_ids-Listed}

module _ {E : Type 0} where
  -- A call of the core driver changes the device only.
  pub on_core-Ends :
      {A : Type 0} (P : A → Core E → Type 0) (m : M (Core E) A) (s : StorageSystem E)
      → Ends P (m s.core)
      → Ends (λ a s'. P a s'.core × (s' ≡ record s { core = s'.core })) (on_core m s)
  on_core-Ends {A = A} P m s h = through (m s.core) h
    where
      through :
          (r : Outcome (Core E) A)
          → Ends P r
          → Ends
              (λ a s'. P a s'.core × (s' ≡ record s { core = s'.core }))
              (elim r [ done a c ↦ done a (record s { core = c }) | fault x ↦ fault x ])
      through (done a c) k = (k, refl)
      through (fault x) k = absurd k

module _ {E : Type 0} where
  abbrev pub lock_on : StorageSystem E → StorageSystem E
  lock_on s = on_storage (λ d. record d { lock = true }) s

module _ {E : Type 0} (Good : E → Type 0) where
  -- No card is active and none counts as inserted; the mutex is held or not.
  pub record NoCard (locked : Bool) (s : StorageSystem E) : Type 0 where
    pub mutex : s.storage.lock ≡ locked
    pub inactive : s.storage.active_card ≡ negsuc 0
    pub not_inserted : (slot : ℕ) → is_inserted (s.storage.cards slot).status ≡ false
    pub session : SessionInv s.core.dev
    pub alive : Good s.core.env

  -- The same of the state that a run ends in.
  abbrev pub Stays : {A : Type 0} → Bool → A → StorageSystem E → Type 0
  Stays locked a s' = NoCard locked s'

  pub moved :
      (b : Bool) (s s' : StorageSystem E)
      → NoCard b s
      → Framed Good s.core s'.core
      → s' ≡ record s { core = s'.core }
      → NoCard b s'
  moved b s s' k w e = record {
    mutex = ap (λ s. s.storage.lock) e ∙ k.mutex;
    inactive = ap (λ s. s.storage.active_card) e ∙ k.inactive;
    not_inserted =
        λ slot. ap (λ s. is_inserted (s.storage.cards slot).status) e ∙ k.not_inserted slot;
    session = Framed-Inv Good s.core s'.core k.session w;
    alive = w.alive;
  }

  -- A card that does not count as inserted takes the place of another.
  pub carded :
      (b : Bool) (slot : ℕ) (f : StorageCard → StorageCard) (s : StorageSystem E)
      → NoCard b s
      → is_inserted (f (s.storage.cards slot)).status ≡ false
      → NoCard b (on_card slot f s)
  carded b slot f s k h = record {
    mutex = k.mutex;
    inactive = k.inactive;
    not_inserted = others;
    session = k.session;
    alive = k.alive;
  }
    where
      others : (i : ℕ) → is_inserted ((on_card slot f s).storage.cards i).status ≡ false
      others i = elim (Bool-cases (i == slot)) [ inl e ↦ rw e h | inr e ↦ rw e (k.not_inserted i) ]

  pub locked_as :
      (b b' : Bool) (s : StorageSystem E)
      → NoCard b s
      → NoCard b' (on_storage (λ d. record d { lock = b' }) s)
  locked_as b b' s k = record {
    mutex = refl;
    inactive = k.inactive;
    not_inserted = k.not_inserted;
    session = k.session;
    alive = k.alive;
  }

smaller_le : (n m : ℕ) → m ≡ n → smaller n max_cards ≤ m
smaller_le n m h = ground (arith, h)

module _ {E : Type 0} {Good : E → Type 0} (ops : TransportOps E) (t : IsTransport Good ops)
    (signed : IsSigned ops) where
  pub store-NoCard :
      (slot id : ℕ) (c : Core E) (r : ℤ × Option StorageCard) (s : StorageSystem E)
      → Gave Good c (storage_card id) r s.core
      → NoCard Good true s
      → Ends (Stays Good true) (store_card slot r.1 s)
  unfolding store_card storage_card is_inserted
  store-NoCard slot id c r s (w, inl (f, n)) k = rw (n, Ends) k
  store-NoCard slot id c r s (w, inr y) k =
      rw (y, Ends) (carded Good true slot (λ _. storage_card id) s k refl)

  -- Asking for a card's information, and storing it.
  pub fetch-NoCard :
      (slot id : ℕ) (next : ℤ × Option StorageCard → M (StorageSystem E) (Unit {0}))
      (s : StorageSystem E)
      → NoCard Good true s
      → ((r : ℤ × Option StorageCard) (s' : StorageSystem E)
          → NoCard Good true s'
          → Ends (Stays Good true) (next r s'))
      → Ends
          (Stays Good true)
          ((on_core (ptp_get_storage_info ops id) >>= λ r. store_card slot r.1 >>= λ _. next r) s)
  fetch-NoCard slot id next s k go =
      Ends-bind
        (λ r s'. Gave Good s.core (storage_card id) r s'.core × (s' ≡ record s { core = s'.core }))
        (Stays Good true) _ (λ r. store_card slot r.1 >>= λ _. next r)
        (on_core-Ends (Gave Good s.core (storage_card id)) (ptp_get_storage_info ops id) s
          (ptp_get_storage_info-Gave ops t signed s.core k.session k.alive id))
        λ r s1 (y, e).
          Ends-bind (Stays Good true) (Stays Good true) _ (λ _. next r)
            (store-NoCard slot id s.core r s1 y (moved Good true s s1 k y.0 e))
            (λ _ s2 k2. go r s2 k2)

  scan_slots-NoCard :
      (i n : ℕ) (ids : List ℕ) (s : StorageSystem E)
      → NoCard Good true s
      → n ≤ length ids
      → Ends (Stays Good true) (scan_slots ops i n ids s)
  unfolding scan_slots
  scan_slots-NoCard i zero ids s k h = k
  scan_slots-NoCard i (suc n) [] s k h = absurd (omega (arith, h))
  scan_slots-NoCard i (suc n) (id ∷ ids) s k h = fetch-NoCard i id _ s k λ r s1 k1.
      Ends-bind (Stays Good true) (Stays Good true) _ (λ _. scan_slots ops (suc i) n ids)
        (if-Ends (Stays Good true) (failed r.0) _ _ s1 k1 (
          carded Good true i (λ card. record card { last_access = s1.now }) s1 k1
            (k1.not_inserted i)))
        (λ _ s2 k2. scan_slots-NoCard (suc i) n ids s2 k2 (omega (arith, h)))

  -- An operation that takes the mutex, whose body lets it go.
  pub with_lock :
      {A : Type 0} (body : M (StorageSystem E) A) (s : StorageSystem E)
      → NoCard Good false s
      → (NoCard Good true (lock_on s) → Ends (Stays Good false) (body (lock_on s)))
      → Ends (Stays Good false) ((lock_storage >>= λ _. body) s)
  with_lock body s k go = rw (k.mutex, Ends) (go (locked_as Good false true s k))

  pub scan_cards-NoCard :
      (s : StorageSystem E) → NoCard Good false s → Ends (Stays Good false) (scan_cards ops valid s)
  unfolding scan_cards
  scan_cards-NoCard s k = with_lock _ s k λ k1.
      Ends-bind
        (λ r s'. Listed Good s.core r s'.core × (s' ≡ record (lock_on s) { core = s'.core }))
        (Stays Good false) _ _
        (on_core-Ends (Listed Good s.core) (ptp_get_storage_ids ops 8) (lock_on s)
          (ptp_get_storage_ids-Listed ops t signed s.core k.session k.alive 8))
        λ r s1 ((w, l), e).
          let k2 : NoCard Good true s1 = moved Good true (lock_on s) s1 k1 w e in
          elim (Bool-cases (lt_int r.0 (pos 0))) [
            | inl n ↦ rw (n, Ends) (locked_as Good true false s1 k2)
            | inr n ↦ rw n (
                Ends-bind (Stays Good true) (Stays Good false) _ _
                  (scan_slots-NoCard 0 (smaller (count_of r.0) max_cards) r.1 s1 k2
                    (smaller_le (count_of r.0) (length r.1) (l n)))
                  (λ _ s2 k3. locked_as Good true false s2 k3))
          ]
