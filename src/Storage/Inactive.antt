-- ===== src/Storage/Inactive.antt =====
-- The storage driver of drivers/storage/canon-r5-storage.c from its start on, as a server of
-- requests: whether it ever lets a file be written or a directory be listed.
use canon_r.Prelude.{
  ℕ, ◌≡◌, refl, ap, lt_int, inl, inr, true, false, not, List, [], ◌∷◌, ◌==◌, ℤ, pos, negsuc, failed,
  success, enodev, return, Outcome, done, fault, ltb, Ends, Ends-bind, Ends-mono, if-Ends, valid,
  Bool-cases,
}
use canon_r.Ptp.{TransportOps}
use canon_r.Ptp.Transport.{IsTransport}
use canon_r.Ptp.Requests.{Framed}
use canon_r.Ptp.Sign.{IsSigned}
use canon_r.Storage.{
  StorageSystem, CardStatus, status_empty, storage_slot_valid, storage_id_of, max_cards, on_storage,
}
use canon_r.Storage.Serve.{
  StorageRequest, scan, refresh, mount, unmount, format, card_event, write, list, no_change,
  AllQuiet, Refuses, AllRefused, storage_serve, storage_serve_all,
}
use canon_r.Storage.Cards.{
  is_inserted, is_mounted, is_empty, blank_card, formatted, mount_slot, mount_card, unmount_slot,
  unmount_card, format_slot, format_card, refresh_slot, refresh_work, card_changed, event_in_slot,
  card_event_work,
}
use canon_r.Storage.Objects.{ptp_format_storage}
use canon_r.Storage.Files.{write_file, list_directory}
use canon_r.Storage.Told.{ptp_format_storage-Framed}
use canon_r.Storage.NoCard.{
  NoCard, Stays, moved, carded, locked_as, lock_on, with_lock, fetch-NoCard, scan_cards-NoCard,
  on_core-Ends,
}

module _ {E : Type 0} {Good : E → Type 0} (ops : TransportOps E) (t : IsTransport Good ops)
    (signed : IsSigned ops) where
  refresh_slot-NoCard :
      (slot : ℕ) (s : StorageSystem E)
      → NoCard Good true s
      → Ends (Stays Good true) (refresh_slot ops slot s)
  unfolding refresh_slot
  refresh_slot-NoCard slot s k =
      if-Ends (Stays Good true) (is_mounted (s.storage.cards slot).status) _ _ s
        (fetch-NoCard ops t signed slot (storage_id_of slot) (λ r. return tt) s k (λ r s' k'. k')) k

  refresh-NoCard :
      (s : StorageSystem E) → NoCard Good false s → Ends (Stays Good false) (refresh_work ops s)
  unfolding refresh_work
  refresh-NoCard s k = with_lock ops t signed _ s k λ k1.
      Ends-bind (Stays Good true) (Stays Good false) _ _ (refresh_slot-NoCard 0 (lock_on s) k1)
        λ _ s1 k2.
          Ends-bind (Stays Good true) (Stays Good false) _ _ (refresh_slot-NoCard 1 s1 k2)
            λ _ s2 k3. record {
              mutex = refl;
              inactive = k3.inactive;
              not_inserted = k3.not_inserted;
              session = k3.session;
              alive = k3.alive;
            }

  -- No card counts as inserted, so none is mounted.
  mount_slot-NoCard :
      (slot : ℕ) (s : StorageSystem E)
      → NoCard Good false s
      → Ends (λ ret s'. NoCard Good false s' × (ret ≡ enodev)) (mount_slot slot s)
  unfolding mount_slot
  mount_slot-NoCard slot s k =
      rw (k.mutex, k.not_inserted slot, Ends)
        (
          record {
            mutex = refl;
            inactive = k.inactive;
            not_inserted = k.not_inserted;
            session = k.session;
            alive = k.alive;
          },
          refl,
        )

  unmount_slot-NoCard :
      (slot : ℕ) (s : StorageSystem E)
      → NoCard Good false s
      → Ends (Stays Good false) (unmount_slot slot s)
  unfolding unmount_slot blank_card is_inserted
  unmount_slot-NoCard slot s k =
      let k1 = carded Good false slot (λ card. record card { status = status_empty }) s k refl in
      let k2 = carded Good false slot (λ _. blank_card) _ k1 refl in
      rw (k.mutex, k.inactive, Ends)
        (record {
          mutex = refl;
          inactive = refl;
          not_inserted = k2.not_inserted;
          session = k.session;
          alive = k.alive;
        })

  format_slot-NoCard :
      (slot : ℕ) (s : StorageSystem E)
      → NoCard Good false s
      → Ends (Stays Good false) (format_slot ops slot s)
  unfolding format_slot
  format_slot-NoCard slot s k = with_lock ops t signed _ s k λ k1.
      if-Ends (Stays Good false) (not (is_mounted (s.storage.cards slot).status)) _ _ (lock_on s)
        (locked_as Good true false (lock_on s) k1)
        (Ends-bind
          (λ ret s'. Framed Good s.core s'.core × (s' ≡ record (lock_on s) { core = s'.core }))
          (Stays Good false) _ _
          (on_core-Ends (λ ret c'. Framed Good s.core c')
            (ptp_format_storage ops (storage_id_of slot)) (lock_on s)
            (ptp_format_storage-Framed ops t signed s.core k.session k.alive (storage_id_of slot)))
          λ ret s1 (w, e).
            let k2 : NoCard Good true s1 = moved Good true (lock_on s) s1 k1 w e in
            Ends-bind (Stays Good true) (Stays Good false) _ _
              (if-Ends (Stays Good true) (failed ret) _ _ s1 k2
                (carded Good true slot formatted s1 k2 (k2.not_inserted slot)))
              (λ _ s2 k3. locked_as Good true false s2 k3))

  event-NoCard :
      (slot : ℤ) (status : CardStatus) (s : StorageSystem E)
      → NoCard Good true s
      → no_change (card_event slot status) ≡ true
      → Ends (Stays Good true) (event_in_slot slot status s)
  unfolding event_in_slot no_change card_changed
  event-NoCard (negsuc n) status s k h = k
  event-NoCard (pos n) status s k h = elim (Bool-cases (storage_slot_valid (pos n))) [
    | inr v ↦ rw (v, Ends) k
    | inl v ↦ elim (Bool-cases (is_inserted status)) [
      | inl i ↦ absurd cc
      | inr i ↦ elim (Bool-cases (is_empty status)) [
        | inl e ↦ absurd cc
        | inr e ↦
            rw (v, i, e, Ends) (carded Good true n (λ card. record card { status = status }) s k i)
      ]
    ]
  ]

  -- An answer that the camera has a say in.
  any_answer :
      {A B : Type 0} (f : A → B) (r : Outcome (StorageSystem E) A)
      → Ends (Stays Good false) r
      → Ends
          (λ b s'. NoCard Good false s' × Unit {0})
          (elim r [ done a s' ↦ return (f a) s' | fault e ↦ fault e ])
  any_answer f r h =
      Ends-bind (Stays Good false) (λ b s'. NoCard Good false s' × Unit {0}) r (λ a. return (f a)) h
        (λ a s' k. (k, tt))

  mount-Refused :
      (slot : ℤ) (s : StorageSystem E)
      → NoCard Good false s
      → Ends (λ ret s'. NoCard Good false s' × Refuses (mount slot) ret) (mount_card valid slot s)
  unfolding mount_card storage_slot_valid Refuses
  mount-Refused (negsuc n) s k = (k, refl)
  mount-Refused (pos n) s k = elim (Bool-cases (ltb n max_cards)) [
    | inl v ↦ rw v (mount_slot-NoCard n s k)
    | inr v ↦ rw (v, Ends) (k, rw v refl)
  ]

  unmount-NoCard :
      (slot : ℤ) (s : StorageSystem E)
      → NoCard Good false s
      → Ends (Stays Good false) (unmount_card valid slot s)
  unfolding unmount_card
  unmount-NoCard (negsuc n) s k = k
  unmount-NoCard (pos n) s k =
      if-Ends (Stays Good false) (not (storage_slot_valid (pos n))) _ _ s k
        (unmount_slot-NoCard n s k)

  format-NoCard :
      (slot : ℤ) (s : StorageSystem E)
      → NoCard Good false s
      → Ends (Stays Good false) (format_card ops valid slot s)
  unfolding format_card
  format-NoCard (negsuc n) s k = k
  format-NoCard (pos n) s k =
      if-Ends (Stays Good false) (not (storage_slot_valid (pos n))) _ _ s k
        (format_slot-NoCard n s k)

  event_work-NoCard :
      (s : StorageSystem E)
      → NoCard Good false s
      → no_change (card_event s.storage.event_card_slot s.storage.event_status) ≡ true
      → Ends (Stays Good false) (card_event_work s)
  unfolding card_event_work
  event_work-NoCard s k h = with_lock ops t signed _ s k λ k1.
      Ends-bind (Stays Good true) (Stays Good false) _ _
        (event-NoCard s.storage.event_card_slot s.storage.event_status (lock_on s) k1 h)
        (λ _ s2 k2. locked_as Good true false s2 k2)

  noted :
      (slot : ℤ) (status : CardStatus) (s : StorageSystem E)
      → NoCard Good false s
      → NoCard Good false
          (on_storage (λ d. record d { event_card_slot = slot; event_status = status }) s)
  noted slot status s k = record {
    mutex = k.mutex;
    inactive = k.inactive;
    not_inserted = k.not_inserted;
    session = k.session;
    alive = k.alive;
  }

  negative :
      (s : StorageSystem E) → NoCard Good false s → lt_int s.storage.active_card (pos 0) ≡ true
  negative s k = ap (λ z. lt_int z (pos 0)) k.inactive

  serve-NoCard :
      (q : StorageRequest) (s : StorageSystem E)
      → NoCard Good false s
      → no_change q ≡ true
      → Ends (λ ret s'. NoCard Good false s' × Refuses q ret) (storage_serve ops q s)
  unfolding storage_serve Refuses write_file list_directory
  serve-NoCard scan s k h =
      Ends-mono (Stays Good false) (λ ret s'. NoCard Good false s' × Unit {0}) _
        (scan_cards-NoCard ops t signed s k) (λ ret s' k'. (k', tt))
  serve-NoCard refresh s k h = any_answer (λ _. success) _ (refresh-NoCard s k)
  serve-NoCard (mount slot) s k h = mount-Refused slot s k
  serve-NoCard (unmount slot) s k h =
      Ends-mono (Stays Good false) (λ ret s'. NoCard Good false s' × Unit {0}) _
        (unmount-NoCard slot s k) (λ ret s' k'. (k', tt))
  serve-NoCard (format slot) s k h =
      Ends-mono (Stays Good false) (λ ret s'. NoCard Good false s' × Unit {0}) _
        (format-NoCard slot s k) (λ ret s' k'. (k', tt))
  serve-NoCard (card_event slot status) s k h =
      any_answer (λ _. success) _ (event_work-NoCard _ (noted slot status s k) h)
  serve-NoCard (write filename size new_file memory) s k h = elim (Bool-cases (size == 0)) [
    | inl e ↦ rw (e, Ends) (k, rw e refl)
    | inr e ↦ rw (e, negative s k, Ends) (k, rw e refl)
  ]
  serve-NoCard (list parent memory) s k h = rw (negative s k, Ends) (k, refl)

  -- Over a good transport that reports failures by negative numbers, from a driver with no active
  -- and no inserted card, as it is from its start on: any sequence of scans, refreshes, mounts,
  -- unmounts, formats, writes, listings and card events, but those of a card that comes or goes,
  -- runs to its end, and no card is active then either. Every mount of a slot is refused with
  -- -ENODEV (-EINVAL if there is no such slot), every write with -ENODEV (-EINVAL for no bytes),
  -- every listing with -ENODEV.
  pub storage_serve_all-NoCard :
      (qs : List StorageRequest) (s : StorageSystem E)
      → NoCard Good false s
      → AllQuiet qs
      → Ends (λ rets s'. NoCard Good false s' × AllRefused qs rets) (storage_serve_all ops qs s)
  unfolding storage_serve_all
  storage_serve_all-NoCard [] s k h = (k, tt)
  storage_serve_all-NoCard (q ∷ qs) s k h =
      Ends-bind (λ ret s'. NoCard Good false s' × Refuses q ret)
        (λ rets s'. NoCard Good false s' × AllRefused (q ∷ qs) rets) _ _ (serve-NoCard q s k h.0)
        λ ret s1 (k1, r1).
          Ends-bind (λ rets s'. NoCard Good false s' × AllRefused qs rets)
            (λ rets s'. NoCard Good false s' × AllRefused (q ∷ qs) rets) _ _
            (storage_serve_all-NoCard qs s1 k1 h.1) (λ rets s2 (k2, r2). (k2, (r1, r2)))
