-- ===== src/Storage/Files.antt =====
-- The file objects of drivers/storage/canon-r5-storage.c: looking one up, reading, writing and
-- deleting a file, and listing a directory.
use canon_r.Prelude.{
  ℕ, zero, suc, ◌+◌, ◌-◌, ◌%◌, ◌^◌, Bool, true, false, not, ◌&&◌, ◌||◌, List, [], ◌∷◌, ◌++◌, Option,
  none, some, length, take, drop, ltb, ◌==◌, if◌then◌else◌, ℤ, pos, negsuc, failed, lt_int, success,
  einval, enodev, M, ◌>>=◌, ◌>>◌, return, get, modify, crash, deadlock, null_deref, out_of_bounds,
  uninitialized, Ptr, is_null,
}
use canon_r.Ptp.{TransportOps}
use canon_r.Storage.{
  FileObject, FileType, file_folder, DirEntry, FileTree, leaf, node, FsInfo, StorageSystem, Link,
  zeroed, unlinked, linked, on_storage, on_stats, on_core, file_at, set_file,
}
use canon_r.Storage.Extension.{detect_file_type}
use canon_r.Storage.Objects.{
  smaller, ptp_get_object_data, ptp_send_object_data, ptp_delete_object, ptp_get_object_handles,
  ptp_get_object_info,
}
use canon_r.Storage.Cards.{count_of, is_slot}

-- An offset as a size_t, which is what a comparison with a size makes of it.
abbrev pub to_size : ℤ → ℕ
to_size (pos n) = n % 2 ^ 64
to_size (negsuc n) = 2 ^ 64 - 1 - n % 2 ^ 64

abbrev pub is_folder : FileType → Bool
is_folder file_folder = true
is_folder _ = false

-- What a call of `canon_r5_storage_read_file` leaves: its result, the bytes that it wrote to the
-- buffer, and `*bytes_read`.
pub record ReadResult : Type 0 where
  pub status : ℤ
  pub buffer : List ℕ
  pub bytes_read : ℕ

-- A reference taken, and the object after one was given back, if it is still there.
abbrev pub held : FileObject → FileObject
held f = record f { ref_count = f.ref_count + 1 }

abbrev pub dropped : FileObject → Option FileObject
dropped f = if f.ref_count - 1 == 0 then none else some (record f { ref_count = f.ref_count - 1 })

-- `before` is what `*bytes_read` was; it stays when the camera gave nothing.
abbrev pub read_or : ℕ → Option (List ℕ) → ℕ
read_or before none = before
read_or before (some bs) = length bs

abbrev pub bytes_of : Option (List ℕ) → List ℕ
bytes_of none = []
bytes_of (some bs) = bs

-- The object that `canon_r5_storage_write_file` makes, over a zeroed structure.
unfoldable pub written_file : ℕ → ℕ → List ℕ → ℕ → FileObject
written_file now new_handle filename size = record {
  list_link = zeroed;
  tree_link = zeroed;
  object_handle = new_handle;
  parent_handle = 0;
  filename = take 255 filename;
  file_type = detect_file_type filename;
  file_size = size;
  creation_time = now;
  modification_time = now;
  storage_id = 0;
  ref_count = 1;
  cached = false;
  cache_data = none;
  cache_size = 0;
}

abbrev pub entry_of : ℕ → FileObject → DirEntry
entry_of handle f = record {
  name = take 255 f.filename;
  object_handle = handle;
  type = f.file_type;
  size = f.file_size;
  mtime = f.modification_time;
  is_directory = is_folder f.file_type;
}

-- The links that a list removal leaves, where it does not follow a NULL pointer.
abbrev pub is_zeroed : Link → Bool
is_zeroed zeroed = true
is_zeroed unlinked = false
is_zeroed linked = false

abbrev pub is_unlinked : Link → Bool
is_unlinked zeroed = false
is_unlinked unlinked = true
is_unlinked linked = false

abbrev pub in_fs : (FsInfo → FsInfo) → Option FsInfo → Option FsInfo
in_fs f none = none
in_fs f (some fs) = some (f fs)

abbrev pub remove : ℕ → List ℕ → List ℕ
remove a [] = []
remove a (b ∷ bs) = if b == a then bs else b ∷ remove a bs

module _ {E : Type 0} where
  abbrev pub on_fs : (FsInfo → FsInfo) → StorageSystem E → StorageSystem E
  on_fs f = on_storage (λ d. record d { fs_info = in_fs f (d.fs_info) })

  -- The spinlock of the filesystem whose data is given.
  abbrev pub lock_files : FsInfo → M (StorageSystem E) (Unit {0})
  lock_files fs =
      if fs.file_lock then crash deadlock else modify (on_fs (λ fs. record fs { file_lock = true }))

  abbrev pub unlock_files : M (StorageSystem E) (Unit {0})
  unlock_files = modify (on_fs (λ fs. record fs { file_lock = false }))

  -- At a node of the tree: on to the left or to the right, or the object is found.
  abbrev pub at_node :
      ℕ
      → ℕ
      → M (StorageSystem E) (Option ℕ)
      → M (StorageSystem E) (Option ℕ)
      → FileObject
      → M (StorageSystem E) (Option ℕ)
  at_node object_handle a left right f =
      if ltb object_handle f.object_handle
      then left
      else if ltb f.object_handle object_handle
      then right
      else (do set_file a (some (held f)); return (some a))

  -- The walk down the tree, which takes a reference of the object that it finds.
  unfoldable pub search_tree : FileTree → ℕ → M (StorageSystem E) (Option ℕ)
  search_tree leaf object_handle = return none
  search_tree (node l a r) object_handle =
      let left = search_tree l object_handle in
      let right = search_tree r object_handle in file_at a >>= at_node object_handle a left right

  unfoldable pub get_file_in : Option FsInfo → ℕ → M (StorageSystem E) (Option ℕ)
  get_file_in none object_handle = return none
  get_file_in (some fs) object_handle = do
    lock_files fs
    r ← search_tree fs.file_tree object_handle
    unlock_files
    return r

  -- The address of the object, or NULL.
  unfoldable pub get_file : Ptr → ℕ → M (StorageSystem E) (Option ℕ)
  get_file storage object_handle =
      if is_null storage
      then return none
      else do s ← get; get_file_in s.storage.fs_info object_handle

  unfoldable pub put_file : Option ℕ → M (StorageSystem E) (Unit {0})
  put_file none = return tt
  put_file (some a) = do f ← file_at a; set_file a (dropped f)

  -- The bytes from the cached ones; memcpy must not read past them.
  unfoldable pub read_cached : FileObject → List ℕ → ℕ → ℕ → M (StorageSystem E) ReadResult
  read_cached f cache size offset =
      let to_copy = smaller size (f.cache_size - offset) in
      if ltb (length cache) (offset + to_copy) then crash out_of_bounds else do
        modify (on_stats (λ t. record t { cache_hits = (t.cache_hits + 1) % 2 ^ 32 }))
        return (record {
          status = success;
          buffer = take to_copy (drop offset cache);
          bytes_read = to_copy;
        })

  -- What is done with the camera's answer.
  unfoldable pub finish_read : ℕ → ℤ × Option (List ℕ) → M (StorageSystem E) ReadResult
  finish_read before (ret, bytes) = do
    let n = read_or before bytes
    (if failed ret
        then return tt
        else modify (λ s.
          on_stats
            (λ t. record t {
              files_read = (t.files_read + 1) % 2 ^ 64;
              bytes_read = (t.bytes_read + n) % 2 ^ 64;
              last_operation = s.now;
              cache_misses = (t.cache_misses + 1) % 2 ^ 32;
            })
            s))
    return (record { status = ret; buffer = bytes_of bytes; bytes_read = n })

  unfoldable pub read_camera :
      TransportOps E → FileObject → ℕ → ℕ → ℕ → M (StorageSystem E) ReadResult
  read_camera ops f size offset before = do
    r ← on_core (ptp_get_object_data ops f.object_handle size offset)
    finish_read before r

  -- From the cached data, if there is any and it reaches as far, or from the camera.
  unfoldable pub read_from :
      TransportOps E → FileObject → Option (List ℕ) → ℕ → ℕ → ℕ → M (StorageSystem E) ReadResult
  read_from ops f none size offset before = read_camera ops f size offset before
  read_from ops f (some cache) size offset before =
      if f.cached && ltb offset f.cache_size
      then read_cached f cache size offset
      else read_camera ops f size offset before

  -- `bytes_read` is NULL, or points to a size_t.
  unfoldable pub read_file :
      TransportOps E → Ptr → Option ℕ → Ptr → ℕ → ℤ → Option ℕ → M (StorageSystem E) ReadResult
  read_file ops storage none buffer size offset bytes_read =
      return (record { status = einval; buffer = []; bytes_read = 0 })
  read_file ops storage (some a) buffer size offset none =
      return (record { status = einval; buffer = []; bytes_read = 0 })
  read_file ops storage (some a) buffer size offset (some before) =
      if is_null storage || is_null buffer
      then return (record { status = einval; buffer = []; bytes_read = before })
      else do f ← file_at a; read_from ops f f.cache_data size (to_size offset) before

  -- The object for the new file, where the caller wants one and there is memory: the address that
  -- kzalloc gave.
  unfoldable pub new_object : Option ℕ → List ℕ → ℕ → Option ℕ → M (StorageSystem E) (Unit {0})
  new_object none filename size new_handle = return tt
  new_object (some a) filename size none = crash uninitialized
  new_object (some a) filename size (some handle) = do
    s ← get
    set_file a (some (written_file s.now handle filename size))

  abbrev pub count_write : ℕ → StorageSystem E → StorageSystem E
  count_write size s =
      on_stats
        (λ t. record t {
          files_written = (t.files_written + 1) % 2 ^ 64;
          bytes_written = (t.bytes_written + size) % 2 ^ 64;
          last_operation = s.now;
        })
        s

  -- `memory` is what kzalloc gives. The result has `*new_file`, if the caller gave the pointer and
  -- it was written.
  unfoldable pub write_file :
      TransportOps E
      → Ptr
      → Option (List ℕ)
      → Ptr
      → ℕ
      → Ptr
      → Option ℕ
      → M (StorageSystem E) (ℤ × Option ℕ)
  write_file ops storage none buffer size new_file memory = return (einval, none)
  write_file ops storage (some filename) buffer size new_file memory =
      if is_null storage || is_null buffer || size == 0 then return (einval, none) else do
        s ← get
        if lt_int s.storage.active_card (pos 0) then return (enodev, none) else do
          r ← on_core (ptp_send_object_data ops s.now size 0)
          if failed r.0 then return (r.0, none) else do
            let object = if is_null new_file then none else memory
            new_object object filename size r.1
            modify (count_write size)
            return (success, object)

  -- `rb_erase` of a node at an address. The kernel's library is a parameter.
  unfoldable pub erase_node :
      (ℕ → FileTree → FileTree) → ℕ → FileObject → M (StorageSystem E) (Unit {0})
  erase_node rb_erase a f = do
    (if is_unlinked f.tree_link
        then return tt
        else modify (on_fs (λ fs. record fs { file_tree = rb_erase a (fs.file_tree) })))
    (if is_zeroed f.list_link
        then crash null_deref
        else modify (on_fs (λ fs. record fs { lru_list = remove a (fs.lru_list) })))
    set_file a (some (record f { tree_link = unlinked; list_link = unlinked }))

  unfoldable pub forget_file :
      (ℕ → FileTree → FileTree) → ℕ → FileObject → Option FsInfo → M (StorageSystem E) (Unit {0})
  forget_file rb_erase a f none = return tt
  forget_file rb_erase a f (some fs) = do lock_files fs; erase_node rb_erase a f; unlock_files

  unfoldable pub delete_file :
      TransportOps E → (ℕ → FileTree → FileTree) → Ptr → Option ℕ → M (StorageSystem E) ℤ
  delete_file ops rb_erase storage none = return einval
  delete_file ops rb_erase storage (some a) = if is_null storage then return einval else do
    f ← file_at a
    ret ← on_core (ptp_delete_object ops f.object_handle)
    if failed ret then return ret else do
      s ← get
      forget_file rb_erase a f s.storage.fs_info
      modify (λ s. on_stats (λ t. record t { last_operation = s.now }) s)
      return ret

  -- The entry for one handle; kzalloc has memory or not.
  unfoldable pub dir_entry : ℕ → Bool → ℤ × Option FileObject → M (StorageSystem E) (List DirEntry)
  dir_entry handle memory (ret, info) =
      if failed ret || not memory
      then return []
      else elim info [ none ↦ crash uninitialized | some f ↦ return (entry_of handle f ∷ []) ]

  -- `memory` says of each object that is asked for whether there is memory for its entry.
  unfoldable pub list_entries :
      TransportOps E → (ℕ → Bool) → ℕ → List ℕ → M (StorageSystem E) (List DirEntry)
  list_entries ops memory zero handles = return []
  list_entries ops memory (suc n) [] = crash uninitialized
  list_entries ops memory (suc n) (h ∷ handles) = do
    s ← get
    r ← on_core (ptp_get_object_info ops s.now h)
    e ← dir_entry h (memory h) r
    es ← list_entries ops memory n handles
    return (e ++ es)

  -- The result with the list, where it was initialized.
  unfoldable pub list_directory :
      TransportOps E → Ptr → ℕ → Ptr → (ℕ → Bool) → M (StorageSystem E) (ℤ × List DirEntry)
  list_directory ops storage parent_handle entries memory =
      if is_null storage || is_null entries then return (einval, []) else do
        s ← get
        if lt_int s.storage.active_card (pos 0) then return (enodev, []) else do
          let id = if is_slot s.storage.active_card 0 then 0x00010001 else 0x00020001
          r ← on_core (ptp_get_object_handles ops id parent_handle 256)
          if lt_int r.0 (pos 0)
              then return (r.0, [])
              else do es ← list_entries ops memory (count_of r.0) r.1; return (r.0, es)
