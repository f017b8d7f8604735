-- ===== src/Storage/Lifecycle.antt =====
-- The start and the end of the driver of drivers/storage/canon-r5-storage.c.
use canon_r.Prelude.{
  ℕ, zero, suc, ◌+◌, ◌-◌, ◌*◌, ◌<◌, arith, return, modify, ◌≡◌, refl, ◌∙◌, inl, inr, true, false,
  List, [], ◌∷◌, Option, none, some, if◌then◌else◌, ℤ, pos, negsuc, failed, lt_int, success, enomem,
  M, ◌>>=◌, ◌>>◌, Outcome, done, fault, Ends, Ends-bind, Ptr, null, valid, Bool-cases,
}
use canon_r.Device.{Core}
use canon_r.Core.{register_driver, unregister_driver, get_driver, storage, get_priv, set_priv}
use canon_r.Ptp.{TransportOps}
use canon_r.Ptp.Transport.{IsTransport}
use canon_r.Ptp.Requests.{SessionInv}
use canon_r.Ptp.Sign.{IsSigned, Partly, if-Partly, Ends-Partly}
use canon_r.Storage.{StorageSystem, StorageCard, storage_slot_valid, on_core, on_storage, max_cards}
use canon_r.Storage.Objects.{smaller, ptp_get_storage_ids, ptp_get_storage_info}
use canon_r.Storage.Cards.{
  is_inserted, is_slot, blank_card, count_of, store_card, scan_slots, scan_cards, unmount_card,
  unmount_slot,
}
use canon_r.Storage.Setup.{fresh_storage, start_storage, storage_init, stop_works, storage_cleanup}
use canon_r.Storage.NoCard.{NoCard, Stays, lock_on, scan_cards-NoCard}

module _ {E : Type 0} where
  -- The memory and the workqueues that the driver holds.
  abbrev pub resources : StorageSystem E → ℕ × Ptr × Ptr × Ptr
  resources s = (s.workqueues, s.private_data, s.storage.refresh_wq, s.storage.background_wq)

  abbrev Kept : {A : Type 0} → StorageSystem E → A → StorageSystem E → Type 0
  Kept s a s' = resources s' ≡ resources s

  on_core-Kept :
      {A : Type 0} (m : M (Core E) A) (s : StorageSystem E) → Partly (Kept s) (on_core m s)
  on_core-Kept {A = A} m s = through (m s.core)
    where
      through :
          (r : Outcome (Core E) A)
          → Partly
              (Kept s)
              (elim r [ done a c ↦ done a (record s { core = c }) | fault x ↦ fault x ])
      through (done a c) = refl
      through (fault x) = tt

  store-Kept :
      (slot : ℕ) (o : Option StorageCard) (s : StorageSystem E)
      → Partly (Kept s) (store_card slot o s)
  unfolding store_card
  store-Kept slot none s = refl
  store-Kept slot (some card) s = refl

  -- A step that keeps the resources, before others that do.
  then_Kept :
      {A B : Type 0} (s : StorageSystem E) (r : Outcome (StorageSystem E) A)
      (next : A → M (StorageSystem E) B)
      → Partly (Kept s) r
      → ((a : A) (s' : StorageSystem E) → Partly (Kept s') (next a s'))
      → Partly (Kept s) (elim r [ done a s' ↦ next a s' | fault e ↦ fault e ])
  then_Kept {B = B} s (done a s') next h k = onward (next a s') (k a s')
    where
      onward : (r : Outcome (StorageSystem E) B) → Partly (Kept s') r → Partly (Kept s) r
      onward (done b s2) e = e ∙ h
      onward (fault x) e = tt
  then_Kept s (fault x) next h k = tt

  scan_slots-Kept :
      (ops : TransportOps E) (i n : ℕ) (ids : List ℕ) (s : StorageSystem E)
      → Partly (Kept s) (scan_slots ops i n ids s)
  unfolding scan_slots
  scan_slots-Kept ops i zero ids s = refl
  scan_slots-Kept ops i (suc n) [] s = tt
  scan_slots-Kept ops i (suc n) (id ∷ ids) s =
      then_Kept s _ _ (on_core-Kept (ptp_get_storage_info ops id) s) λ r s1.
        then_Kept s1 _ _ (store-Kept i r.1 s1) λ _ s2.
          then_Kept s2 _ _ (if-Partly (Kept s2) (failed r.0) _ _ s2 refl refl)
            (λ _ s3. scan_slots-Kept ops (suc i) n ids s3)

  scan_cards-Kept :
      (ops : TransportOps E) (s : StorageSystem E) → Partly (Kept s) (scan_cards ops valid s)
  unfolding scan_cards
  scan_cards-Kept ops s = elim (Bool-cases s.storage.lock) [
    | inl l ↦ rw l tt
    | inr l ↦ rw l (
        then_Kept (lock_on s) _ _ (on_core-Kept (ptp_get_storage_ids ops 8) (lock_on s)) λ r s1.
          if-Partly (Kept s1) (lt_int r.0 (pos 0)) _ _ s1 refl (
            then_Kept s1 _ _ (scan_slots-Kept ops 0 (smaller (count_of r.0) max_cards) r.1 s1)
              (λ _ s2. refl)))
  ]

  -- Once the workqueues are there, the start registers the driver and scans the cards.
  abbrev registered : StorageSystem E → StorageSystem E
  registered s = record s {
    storage = record fresh_storage { refresh_wq = valid; background_wq = valid };
    core = record (s.core) {
      dev = record (s.core.dev) { drivers = set_priv storage valid (s.core.dev.drivers) };
    };
    private_data = valid;
    workqueues = s.workqueues + 1 + 1;
  }

  abbrev finish : ℕ → ℤ → M (StorageSystem E) ℤ
  finish hz found = do
    modify (on_storage (λ d. record d { sync_queued = some (10 * hz); initialized = true }))
    return success

  init-eq :
      (hz : ℕ) (ops : TransportOps E) (s : StorageSystem E)
      → storage_init hz ops valid valid valid valid s
        ≡ (scan_cards ops valid >>= finish hz) (registered s)
  unfolding storage_init start_storage register_driver set_priv
  init-eq hz ops s = refl

module _ {E : Type 0} (Good : E → Type 0) where
  -- What a start with what the allocators gave ends with: the driver is up, with two workqueues
  -- more, no active card and its first sync planned, or there is nothing that it holds.
  abbrev pub Begun : ℕ → Ptr → Ptr → Ptr → StorageSystem E → ℤ → StorageSystem E → Type 0
  Begun hz valid valid valid s ret s' =
      (ret ≡ success)
      × NoCard Good false s'
      × (resources s' ≡ (s.workqueues + 1 + 1, valid, valid, valid))
      × (s'.storage.initialized ≡ true)
      × (s'.storage.sync_queued ≡ some (10 * hz))
  Begun hz memory refresh_wq background_wq s ret s' =
      (ret ≡ enomem)
      × (s'.workqueues ≡ s.workqueues)
      × (s'.private_data ≡ null)
      × (s'.core ≡ s.core)

module _ {E : Type 0} {Good : E → Type 0} (ops : TransportOps E) (t : IsTransport Good ops)
    (signed : IsSigned ops) where
  registered-NoCard :
      (s : StorageSystem E)
      → SessionInv s.core.dev
      → Good s.core.env
      → NoCard Good false (registered s)
  unfolding blank_card is_inserted
  registered-NoCard s v g = record {
    mutex = refl;
    inactive = refl;
    not_inserted = λ slot. refl;
    session = record { idle = v.idle; closed = v.closed; opened = v.opened; counter = v.counter };
    alive = g;
  }

  -- Over a good transport that reports failures by negative numbers, and between two operations,
  -- the start of the driver always ends, whatever the allocators give and the camera answers to
  -- the scan: with the memory and both workqueues it succeeds even if the scan failed, and no card
  -- is active; without one of them it fails with -ENOMEM, holds no memory and no workqueue, and the
  -- device is as before.
  pub storage_init-Begun :
      (hz : ℕ) (memory refresh_wq background_wq : Ptr) (s : StorageSystem E)
      → SessionInv s.core.dev
      → Good s.core.env
      → s.private_data ≡ null
      → Ends
          (Begun Good hz memory refresh_wq background_wq s)
          (storage_init hz ops valid memory refresh_wq background_wq s)
  unfolding storage_init
  storage_init-Begun hz null r b s v g p = (refl, refl, p, refl)
  storage_init-Begun hz valid null b s v g p = (refl, refl, refl, refl)
  storage_init-Begun hz valid valid null s v g p = (refl, omega arith, refl, refl)
  storage_init-Begun hz valid valid valid s v g p = rw (init-eq hz ops s) (
      Ends-bind (λ found s'. NoCard Good false s' × (resources s' ≡ resources (registered s)))
        (Begun Good hz valid valid valid s) _ (finish hz)
        (Ends-Partly (Stays Good false) (λ found s'. resources s' ≡ resources (registered s)) _
          (scan_cards-NoCard ops t signed (registered s) (registered-NoCard s v g))
          (scan_cards-Kept ops (registered s)))
        (λ found s1 (k, e). (
          refl,
          record {
            mutex = k.mutex;
            inactive = k.inactive;
            not_inserted = k.not_inserted;
            session = k.session;
            alive = k.alive;
          },
          e,
          refl,
          refl,
        )))

-- The active card after each slot in turn was unmounted.
abbrev without : ℕ → ℤ → ℤ
without slot card = if is_slot card slot then negsuc 0 else card

gone : (card : ℤ) (slot : ℕ) → slot < max_cards → is_slot (without 1 (without 0 card)) slot ≡ false
gone (negsuc n) slot h = refl
gone (pos zero) slot h = refl
gone (pos (suc zero)) slot h = refl
gone (pos (suc (suc n))) slot h = ground (arith, h)

module _ {E : Type 0} where
  -- With the mutex free and both workqueues there, the end of a registered driver always ends:
  -- it gives both workqueues and its memory back, takes itself off the device, plans no sync, and
  -- no card is active in either slot.
  pub storage_cleanup-Stopped :
      (s : StorageSystem E)
      → s.storage.lock ≡ false
      → get_priv storage s.core.dev.drivers ≡ valid
      → s.storage.refresh_wq ≡ valid
      → s.storage.background_wq ≡ valid
      → Ends
          (λ _ s'.
            (s'.workqueues ≡ s.workqueues - 2)
            × (s'.private_data ≡ null)
            × (get_priv storage s'.core.dev.drivers ≡ null)
            × (s'.storage.sync_queued ≡ none)
            × ((slot : ℕ) → slot < max_cards → is_slot s'.storage.active_card slot ≡ false))
          (storage_cleanup valid s)
  unfolding storage_cleanup stop_works unmount_card unmount_slot storage_slot_valid get_driver
      unregister_driver get_priv set_priv
  storage_cleanup-Stopped s hl hp hr hb =
      rw (hl, hp, hb, hr, Ends) (omega arith, refl, refl, refl, gone s.storage.active_card)
