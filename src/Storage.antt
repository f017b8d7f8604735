-- ===== src/Storage.antt =====
-- The storage driver, drivers/storage/canon-r5-storage.c: the structures of
-- include/storage/canon-r5-storage.h, and the access to them. The driver sits on the device of
-- `canon_r.Device`, whose operations it runs by `on_core`.
pub mod Extension
pub mod Objects
pub mod Cards
pub mod Files
pub mod Cache
pub mod Setup
pub mod Told
pub mod NoCard
pub mod Serve
pub mod Inactive
pub mod Deadlock
pub mod Reading
pub mod Lifecycle
pub mod Undefined
use canon_r.Prelude.{
  ℕ, ◌≡◌, refl, ◌>>=◌, Bool, true, false, List, Option, none, some, ltb, ◌==◌, if◌then◌else◌, ℤ,
  pos, negsuc, M, Outcome, done, fault, deadlock, use_after_free, modify, Ptr,
}
use canon_r.Device.{Core}

abbrev pub max_cards : ℕ
max_cards = 2

pub data StorageType : Type 0 where
  type_none type_cf_express type_sd_card type_internal : StorageType

pub data CardStatus : Type 0 where
  status_empty status_inserted status_mounted status_error status_write_protected status_full :
      CardStatus

pub data FileType : Type 0 where
  file_unknown file_jpeg file_raw_cr3 file_raw_cr2 file_heif file_mov file_mp4 file_wav
        file_folder :
      FileType

-- Texts are the bytes before the first NUL.
pub record StorageCard : Type 0 where
  pub slot_id : ℕ
  pub type : StorageType
  pub status : CardStatus
  pub label : List ℕ
  pub serial_number : List ℕ
  pub total_capacity : ℕ  -- u64
  pub free_space : ℕ  -- u64
  pub write_speed : ℕ  -- u32
  pub read_speed : ℕ  -- u32
  pub filesystem : List ℕ
  pub cluster_size : ℕ  -- u32
  pub last_access : ℕ
  pub file_count : ℕ  -- u32
  pub folder_count : ℕ  -- u32
  pub write_protected : Bool
  pub needs_format : Bool

-- What the pointers of a list or tree node are: never set since kzalloc, or those of a node that is
-- in no list, or those of one that is in a list or tree.
pub data Link : Type 0 where
  zeroed unlinked linked : Link

-- `struct canon_r5_file_object`, without the metadata and attributes that no code reads.
pub record FileObject : Type 0 where
  pub list_link : Link
  pub tree_link : Link
  pub object_handle : ℕ  -- u32
  pub parent_handle : ℕ  -- u32
  pub filename : List ℕ
  pub file_type : FileType
  pub file_size : ℕ  -- u64
  pub creation_time : ℕ
  pub modification_time : ℕ
  pub storage_id : ℕ
  pub ref_count : ℕ
  pub cached : Bool
  pub cache_data : Option (List ℕ)  -- NULL, or what the memory holds
  pub cache_size : ℕ

pub record DirEntry : Type 0 where
  pub name : List ℕ
  pub object_handle : ℕ
  pub type : FileType
  pub size : ℕ
  pub mtime : ℕ
  pub is_directory : Bool

-- A tree of file objects, each known by its address.
pub data FileTree : Type 0 where
  leaf : FileTree
  node : FileTree → ℕ → FileTree → FileTree

pub record FsInfo : Type 0 where
  pub lock : Bool  -- the mutex is held
  pub file_tree : FileTree
  pub file_lock : Bool  -- the spinlock is held
  pub lru_list : List ℕ
  pub total_size : ℕ
  pub max_size : ℕ

pub record StorageStats : Type 0 where
  pub files_read : ℕ  -- u64, as are the next three
  pub files_written : ℕ
  pub bytes_read : ℕ
  pub bytes_written : ℕ
  pub cache_hits : ℕ  -- u32
  pub cache_misses : ℕ  -- u32
  pub last_operation : ℕ

-- `struct canon_r5_storage_device`, with the background work of `struct canon_r5_storage`.
pub record StorageDevice : Type 0 where
  pub lock : Bool  -- the mutex is held
  pub initialized : Bool
  pub cards : ℕ → StorageCard  -- by slot, below `max_cards`
  pub active_card : ℤ
  pub fs_info : Option FsInfo
  pub last_refresh : ℕ
  pub stats : StorageStats
  pub event_card_slot : ℤ
  pub event_status : CardStatus
  pub sync_queued : Option ℕ  -- the jiffies after which `background.sync_work` runs, if it is queued
  pub refresh_wq : Ptr
  pub background_wq : Ptr

-- The driver's data with the device it belongs to, the file objects by address, and what the kernel
-- keeps for the driver.
pub record StorageSystem (E : Type 0) : Type 0 where
  pub storage : StorageDevice
  pub core : Core E
  pub files : ℕ → Option FileObject
  pub private_data : Ptr  -- what kzalloc gave for `struct canon_r5_storage`, until it is freed
  pub workqueues : ℕ  -- the live workqueues of the driver
  pub now : ℕ  -- ktime_get: nanoseconds; it does not pass within an operation

unfoldable pub storage_slot_valid : ℤ → Bool
storage_slot_valid (pos slot) = ltb slot max_cards
storage_slot_valid (negsuc slot) = false

abbrev pub storage_id_of : ℕ → ℕ
storage_id_of slot = if slot == 0 then 0x00010001 else 0x00020001

abbrev pub set_card : ℕ → StorageCard → (ℕ → StorageCard) → ℕ → StorageCard
set_card slot card cards i = if i == slot then card else cards i

abbrev pub put_file_at : ℕ → Option FileObject → (ℕ → Option FileObject) → ℕ → Option FileObject
put_file_at a f files b = if b == a then f else files b

module _ {E : Type 0} where
  abbrev pub on_storage : (StorageDevice → StorageDevice) → StorageSystem E → StorageSystem E
  on_storage f s = record s { storage = f s.storage }

  abbrev pub on_card : ℕ → (StorageCard → StorageCard) → StorageSystem E → StorageSystem E
  on_card slot f = on_storage (λ d. record d { cards = set_card slot (f (d.cards slot)) (d.cards) })

  abbrev pub on_stats : (StorageStats → StorageStats) → StorageSystem E → StorageSystem E
  on_stats f = on_storage (λ d. record d { stats = f (d.stats) })

  -- A call of the core driver.
  abbrev pub on_core : {A : Type 0} → M (Core E) A → M (StorageSystem E) A
  on_core m s = elim (m s.core) [ done a c ↦ done a (record s { core = c }) | fault x ↦ fault x ]

  abbrev pub lock_storage : M (StorageSystem E) (Unit {0})
  lock_storage s =
      if s.storage.lock
      then fault deadlock
      else done tt (on_storage (λ d. record d { lock = true }) s)

  abbrev pub unlock_storage : M (StorageSystem E) (Unit {0})
  unlock_storage = modify (on_storage (λ d. record d { lock = false }))

  -- The object behind a pointer that is not NULL.
  abbrev pub file_at : ℕ → M (StorageSystem E) FileObject
  file_at a s = elim (s.files a) [ none ↦ fault use_after_free | some f ↦ done f s ]

  abbrev pub set_file : ℕ → Option FileObject → M (StorageSystem E) (Unit {0})
  set_file a f = modify (λ s. record s { files = put_file_at a f (s.files) })

  -- The call ended so, and the rest goes on from there.
  pub on_core-done :
      {A B : Type 0} (m : M (Core E) A) (next : A → M (StorageSystem E) B) (s : StorageSystem E)
      (a : A) (c : Core E)
      → m s.core ≡ done a c
      → (on_core m >>= next) s ≡ next a (record s { core = c })
  on_core-done m next s a c e = rw (e, ◌>>=◌, on_core) refl

  pub file_at-done :
      {B : Type 0} (a : ℕ) (f : FileObject) (next : FileObject → M (StorageSystem E) B)
      (s : StorageSystem E)
      → s.files a ≡ some f
      → (file_at a >>= next) s ≡ next f s
  file_at-done a f next s e = rw (e, ◌>>=◌, file_at) refl
