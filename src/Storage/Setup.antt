-- ===== src/Storage/Setup.antt =====
-- The start, the end, the statistics and the background work of
-- drivers/storage/canon-r5-storage.c.
use canon_r.Prelude.{
  ℕ, ◌+◌, ◌-◌, ◌*◌, true, false, Option, none, some, if◌then◌else◌, ℤ, pos, negsuc, failed, success,
  einval, enomem, M, ◌>>=◌, ◌>>◌, return, get, modify, Ptr, null, valid, is_null,
}
use canon_r.Core.{register_driver, unregister_driver, get_driver, storage}
use canon_r.Ptp.{TransportOps}
use canon_r.Storage.{
  StorageDevice, StorageStats, StorageSystem, status_empty, on_storage, on_core, lock_storage,
  unlock_storage,
}
use canon_r.Storage.Cards.{blank_card, scan_cards, unmount_card}

abbrev pub no_stats : StorageStats
no_stats = record {
  files_read = 0;
  files_written = 0;
  bytes_read = 0;
  bytes_written = 0;
  cache_hits = 0;
  cache_misses = 0;
  last_operation = 0;
}

-- The zeroed private data with what `canon_r5_storage_init` sets before the workqueues.
abbrev pub fresh_storage : StorageDevice
fresh_storage = record {
  lock = false;
  initialized = false;
  cards = λ slot. record blank_card { slot_id = slot };
  active_card = negsuc 0;
  fs_info = none;
  last_refresh = 0;
  stats = no_stats;
  event_card_slot = pos 0;
  event_status = status_empty;
  sync_queued = none;
  refresh_wq = null;
  background_wq = null;
}

module _ {E : Type 0} where
  unfoldable pub get_stats : Ptr → Ptr → M (StorageSystem E) (ℤ × Option StorageStats)
  get_stats null stats = return (einval, none)
  get_stats valid null = return (einval, none)
  get_stats valid valid = do
    lock_storage
    s ← get
    unlock_storage
    return (success, some s.storage.stats)

  unfoldable pub reset_stats : Ptr → M (StorageSystem E) (Unit {0})
  reset_stats null = return tt
  reset_stats valid = do
    lock_storage
    modify (on_storage (λ d. record d { stats = no_stats }))
    unlock_storage

  -- At `hz` jiffies a second.
  unfoldable pub sync_work : ℕ → M (StorageSystem E) (Unit {0})
  sync_work hz = modify (on_storage (λ d. record d { sync_queued = some (30 * hz) }))

  -- A workqueue that the kernel gave, or not.
  abbrev pub new_wq : Ptr → M (StorageSystem E) (Unit {0})
  new_wq null = return tt
  new_wq valid = modify (λ s. record s { workqueues = s.workqueues + 1 })

  abbrev pub destroy_wq : M (StorageSystem E) (Unit {0})
  destroy_wq = modify (λ s. record s { workqueues = s.workqueues - 1 })

  abbrev pub free_private : M (StorageSystem E) (Unit {0})
  free_private = modify (λ s. record s { private_data = null })

  -- The start with the workqueues: registering, and the first scan of the cards.
  unfoldable pub start_storage : ℕ → TransportOps E → M (StorageSystem E) ℤ
  start_storage hz ops = do
    ret ← on_core (register_driver storage valid valid)
    if failed ret then (do destroy_wq; destroy_wq; free_private; return ret) else do
      found ← scan_cards ops valid
      modify (on_storage (λ d. record d { sync_queued = some (10 * hz); initialized = true }))
      return success

  -- `memory`, `refresh_wq` and `background_wq` are what kzalloc and alloc_workqueue give.
  unfoldable pub storage_init : ℕ → TransportOps E → Ptr → Ptr → Ptr → Ptr → M (StorageSystem E) ℤ
  storage_init hz ops dev memory refresh_wq background_wq =
      if is_null dev then return einval else if is_null memory then return enomem else do
        modify (λ s. record s { private_data = valid; storage = fresh_storage })
        new_wq refresh_wq
        modify (on_storage (λ d. record d { refresh_wq = refresh_wq }))
        if is_null refresh_wq then (do free_private; return enomem) else do
          new_wq background_wq
          modify (on_storage (λ d. record d { background_wq = background_wq }))
          if is_null background_wq
              then (do destroy_wq; free_private; return enomem)
              else start_storage hz ops

  unfoldable pub stop_works : M (StorageSystem E) (Unit {0})
  stop_works = do
    s ← get
    (if is_null s.storage.background_wq
        then return tt
        else do modify (on_storage (λ d. record d { sync_queued = none })); destroy_wq)
    (if is_null s.storage.refresh_wq then return tt else destroy_wq)

  unfoldable pub storage_cleanup : Ptr → M (StorageSystem E) (Unit {0})
  storage_cleanup dev = if is_null dev then return tt else do
    priv ← on_core (get_driver storage dev)
    if is_null priv then return tt else do
      stop_works
      r ← unmount_card valid (pos 0)
      r ← unmount_card valid (pos 1)
      on_core (unregister_driver storage dev)
      free_private
