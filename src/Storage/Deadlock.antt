-- ===== src/Storage/Deadlock.antt =====
-- What becomes of the card event work of drivers/storage/canon-r5-storage.c.
use canon_r.Prelude.{ℕ, ◌<◌, ◌≡◌, refl, ◌⊎◌, inl, inr, false, lt→ltb, pos, fault, deadlock}
use canon_r.Storage.{StorageSystem, max_cards, storage_slot_valid, status_inserted, status_empty}
use canon_r.Storage.Cards.{
  is_inserted, is_empty, card_event_work, event_in_slot, card_changed, mount_card, mount_slot,
  unmount_card, unmount_slot,
}

module _ {E : Type 0} where
  -- The work for a card that was put into one of the two slots, or taken out of it, takes the
  -- driver's mutex and then waits for it for ever: it deadlocks, whatever else the state is.
  pub card_event_work-deadlock :
      (slot : ℕ) (s : StorageSystem E)
      → slot < max_cards
      → s.storage.lock ≡ false
      → s.storage.event_card_slot ≡ pos slot
      → (s.storage.event_status ≡ status_inserted) ⊎ (s.storage.event_status ≡ status_empty)
      → card_event_work s ≡ fault deadlock
  unfolding card_event_work event_in_slot card_changed mount_card mount_slot unmount_card
      unmount_slot storage_slot_valid is_inserted is_empty
  card_event_work-deadlock slot s h hl hs (inl e) = rw (hl, hs, e, lt→ltb slot 2 h) refl
  card_event_work-deadlock slot s h hl hs (inr e) = rw (hl, hs, e, lt→ltb slot 2 h) refl
