-- ===== src/Storage/Serve.antt =====
-- The storage driver of drivers/storage/canon-r5-storage.c as a server of requests.
use canon_r.Prelude.{
  ℕ, ◌≡◌, Bool, true, not, ◌&&◌, ◌||◌, List, [], ◌∷◌, Option, some, ◌==◌, if◌then◌else◌, ℤ, success,
  einval, enodev, M, ◌>>=◌, ◌>>◌, return, modify, Ptr, valid,
}
use canon_r.Ptp.{TransportOps}
use canon_r.Storage.{StorageSystem, CardStatus, storage_slot_valid, on_storage}
use canon_r.Storage.Cards.{
  is_inserted, is_empty, scan_cards, mount_card, unmount_card, format_card, refresh_work,
  card_event_work,
}
use canon_r.Storage.Files.{write_file, list_directory}

-- A call of the driver's user, with what kzalloc gives where it is called, or one of the works.
pub data StorageRequest : Type 0 where
  scan refresh : StorageRequest
  mount unmount format : ℤ → StorageRequest
  card_event : ℤ → CardStatus → StorageRequest
  write : List ℕ → ℕ → Ptr → Option ℕ → StorageRequest
  list : ℕ → (ℕ → Bool) → StorageRequest

-- All but the event of a card that comes or goes.
unfoldable pub no_change : StorageRequest → Bool
no_change (card_event slot status) =
    not (storage_slot_valid slot && (is_inserted status || is_empty status))
no_change _ = true

abbrev pub AllQuiet : List StorageRequest → Type 0
AllQuiet [] = Unit {0}
AllQuiet (q ∷ qs) = (no_change q ≡ true) × AllQuiet qs

-- What the driver answers, where the camera has no say.
unfoldable pub Refuses : StorageRequest → ℤ → Type 0
Refuses (mount slot) ret = ret ≡ (if storage_slot_valid slot then enodev else einval)
Refuses (write filename size new_file memory) ret = ret ≡ (if size == 0 then einval else enodev)
Refuses (list parent memory) ret = ret ≡ enodev
Refuses _ ret = Unit {0}

abbrev pub AllRefused : List StorageRequest → List ℤ → Type 0
AllRefused [] [] = Unit {0}
AllRefused [] (ret ∷ rets) = ⊥
AllRefused (q ∷ qs) [] = ⊥
AllRefused (q ∷ qs) (ret ∷ rets) = Refuses q ret × AllRefused qs rets

module _ {E : Type 0} where
  unfoldable pub storage_serve : TransportOps E → StorageRequest → M (StorageSystem E) ℤ
  storage_serve ops scan = scan_cards ops valid
  storage_serve ops refresh = do refresh_work ops; return success
  storage_serve ops (mount slot) = mount_card valid slot
  storage_serve ops (unmount slot) = unmount_card valid slot
  storage_serve ops (format slot) = format_card ops valid slot
  storage_serve ops (card_event slot status) = do
    modify (on_storage (λ d. record d { event_card_slot = slot; event_status = status }))
    card_event_work
    return success
  storage_serve ops (write filename size new_file memory) = do
    r ← write_file ops valid (some filename) valid size new_file memory
    return r.0
  storage_serve ops (list parent memory) = do
    r ← list_directory ops valid parent valid memory
    return r.0

  unfoldable pub storage_serve_all :
      TransportOps E → List StorageRequest → M (StorageSystem E) (List ℤ)
  storage_serve_all ops [] = return []
  storage_serve_all ops (q ∷ qs) = do
    ret ← storage_serve ops q
    rets ← storage_serve_all ops qs
    return (ret ∷ rets)
