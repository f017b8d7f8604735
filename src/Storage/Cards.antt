-- ===== src/Storage/Cards.antt =====
-- The card slots of drivers/storage/canon-r5-storage.c: scanning, mounting, unmounting, formatting,
-- and the two works on them.
use canon_r.Prelude.{
  ℕ, zero, suc, Bool, true, false, not, ◌||◌, List, [], ◌∷◌, Option, none, some, ◌==◌,
  if◌then◌else◌, ℤ, pos, negsuc, failed, lt_int, success, einval, enodev, M, ◌>>=◌, ◌>>◌, return,
  get, modify, crash, uninitialized, Ptr, valid, is_null,
}
use canon_r.Ptp.{TransportOps}
use canon_r.Storage.{
  StorageCard, CardStatus, StorageSystem, max_cards, type_none, status_empty, status_inserted,
  status_mounted, status_write_protected, storage_slot_valid, storage_id_of, on_storage, on_card,
  on_core, lock_storage, unlock_storage,
}
use canon_r.Storage.Objects.{smaller, ptp_get_storage_ids, ptp_get_storage_info, ptp_format_storage}

unfoldable pub is_inserted : CardStatus → Bool
is_inserted status_inserted = true
is_inserted _ = false

unfoldable pub is_mounted : CardStatus → Bool
is_mounted status_mounted = true
is_mounted _ = false

unfoldable pub is_empty : CardStatus → Bool
is_empty status_empty = true
is_empty _ = false

unfoldable pub is_protected : CardStatus → Bool
is_protected status_write_protected = true
is_protected _ = false

unfoldable pub blank_card : StorageCard
blank_card = record {
  slot_id = 0;
  type = type_none;
  status = status_empty;
  label = [];
  serial_number = [];
  total_capacity = 0;
  free_space = 0;
  write_speed = 0;
  read_speed = 0;
  filesystem = [];
  cluster_size = 0;
  last_access = 0;
  file_count = 0;
  folder_count = 0;
  write_protected = false;
  needs_format = false;
}

-- A count that is not negative, as a number of steps.
abbrev pub count_of : ℤ → ℕ
count_of (pos n) = n
count_of (negsuc n) = 0

-- The test `active_card == slot`.
abbrev pub is_slot : ℤ → ℕ → Bool
is_slot (pos n) slot = n == slot
is_slot (negsuc n) slot = false

-- A card after it was formatted.
abbrev pub formatted : StorageCard → StorageCard
formatted card = record card {
  free_space = card.total_capacity;
  file_count = 0;
  folder_count = 0;
  needs_format = false;
}

module _ {E : Type 0} where
  -- `*info`, a card of the array, where the command wrote it.
  unfoldable pub store_card : ℕ → Option StorageCard → M (StorageSystem E) (Unit {0})
  store_card slot none = return tt
  store_card slot (some card) = modify (on_card slot (λ _. card))

  unfoldable pub scan_slots : TransportOps E → ℕ → ℕ → List ℕ → M (StorageSystem E) (Unit {0})
  scan_slots ops i zero ids = return tt
  scan_slots ops i (suc n) [] = crash uninitialized
  scan_slots ops i (suc n) (id ∷ ids) = do
    r ← on_core (ptp_get_storage_info ops id)
    store_card i r.1
    (if failed r.0
        then return tt
        else modify (λ s. on_card i (λ card. record card { last_access = s.now }) s))
    scan_slots ops (suc i) n ids

  unfoldable pub scan_cards : TransportOps E → Ptr → M (StorageSystem E) ℤ
  scan_cards ops storage = if is_null storage then return einval else do
    lock_storage
    r ← on_core (ptp_get_storage_ids ops 8)
    if lt_int r.0 (pos 0)
        then (do unlock_storage; return r.0)
        else do scan_slots ops 0 (smaller (count_of r.0) max_cards) r.1; unlock_storage; return r.0

  -- The body of the mount, with the mutex free.
  unfoldable pub mount_slot : ℕ → M (StorageSystem E) ℤ
  mount_slot slot = do
    lock_storage
    s ← get
    if not (is_inserted (s.storage.cards slot).status)
        then (do unlock_storage; return enodev)
        else do
          modify
              (on_card slot (λ card. record card { status = status_mounted; last_access = s.now }))
          modify (
              on_storage (λ d. record d {
                active_card = if lt_int d.active_card (pos 0) then pos slot else d.active_card;
              }))
          unlock_storage
          return success

  unfoldable pub mount_card : Ptr → ℤ → M (StorageSystem E) ℤ
  mount_card storage (negsuc n) = return einval
  mount_card storage (pos slot) =
      if is_null storage || not (storage_slot_valid (pos slot))
      then return einval
      else mount_slot slot

  unfoldable pub unmount_slot : ℕ → M (StorageSystem E) ℤ
  unmount_slot slot = do
    lock_storage
    modify (on_card slot (λ card. record card { status = status_empty }))
    modify (on_card slot (λ _. blank_card))
    modify (
        on_storage (λ d. record d {
          active_card = if is_slot d.active_card slot then negsuc 0 else d.active_card;
        }))
    unlock_storage
    return success

  unfoldable pub unmount_card : Ptr → ℤ → M (StorageSystem E) ℤ
  unmount_card storage (negsuc n) = return einval
  unmount_card storage (pos slot) =
      if is_null storage || not (storage_slot_valid (pos slot))
      then return einval
      else unmount_slot slot

  unfoldable pub format_slot : TransportOps E → ℕ → M (StorageSystem E) ℤ
  format_slot ops slot = do
    lock_storage
    s ← get
    if not (is_mounted (s.storage.cards slot).status)
        then (do unlock_storage; return enodev)
        else do
          ret ← on_core (ptp_format_storage ops (storage_id_of slot))
          (if failed ret then return tt else modify (on_card slot formatted))
          unlock_storage
          return ret

  unfoldable pub format_card : TransportOps E → Ptr → ℤ → M (StorageSystem E) ℤ
  format_card ops storage (negsuc n) = return einval
  format_card ops storage (pos slot) =
      if is_null storage || not (storage_slot_valid (pos slot))
      then return einval
      else format_slot ops slot

  unfoldable pub refresh_slot : TransportOps E → ℕ → M (StorageSystem E) (Unit {0})
  refresh_slot ops slot = do
    s ← get
    if is_mounted (s.storage.cards slot).status
        then (do
          r ← on_core (ptp_get_storage_info ops (storage_id_of slot))
          store_card slot r.1
          return tt)
        else return tt

  unfoldable pub refresh_work : TransportOps E → M (StorageSystem E) (Unit {0})
  refresh_work ops = do
    lock_storage
    refresh_slot ops 0
    refresh_slot ops 1
    modify (λ s. on_storage (λ d. record d { last_refresh = s.now }) s)
    unlock_storage

  -- What is done for a card that came or went.
  unfoldable pub card_changed : ℕ → CardStatus → M (StorageSystem E) (Unit {0})
  card_changed slot status =
      if is_inserted status
      then (do ret ← mount_card valid (pos slot); return tt)
      else if is_empty status
      then (do ret ← unmount_card valid (pos slot); return tt)
      else return tt

  unfoldable pub event_in_slot : ℤ → CardStatus → M (StorageSystem E) (Unit {0})
  event_in_slot (negsuc n) status = return tt
  event_in_slot (pos slot) status =
      if storage_slot_valid (pos slot)
      then (do
        modify (on_card slot (λ card. record card { status = status }))
        card_changed slot status)
      else return tt

  unfoldable pub card_event_work : M (StorageSystem E) (Unit {0})
  card_event_work = do
    s ← get
    lock_storage
    event_in_slot s.storage.event_card_slot s.storage.event_status
    unlock_storage

  pub get_free_space : Ptr → ℤ → M (StorageSystem E) ℕ
  get_free_space storage (negsuc n) = return 0
  get_free_space storage (pos slot) =
      if is_null storage || not (storage_slot_valid (pos slot))
      then return 0
      else do s ← get; return (s.storage.cards slot).free_space

  unfoldable pub is_write_protected : Ptr → ℤ → M (StorageSystem E) Bool
  is_write_protected storage (negsuc n) = return true
  is_write_protected storage (pos slot) =
      if is_null storage || not (storage_slot_valid (pos slot)) then return true else do
        s ← get
        return
            ((s.storage.cards slot).write_protected || is_protected (s.storage.cards slot).status)
