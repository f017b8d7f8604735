-- ===== src/Storage/Cache.antt =====
-- The cache of file data of drivers/storage/canon-r5-storage.c: the work that drops what is old.
use canon_r.Prelude.{
  ℕ, ◌+◌, ◌-◌, ◌*◌, ◌^◌, Bool, true, false, ◌&&◌, List, [], ◌∷◌, none, some, ltb, is_some,
  if◌then◌else◌, M, ◌>>=◌, ◌>>◌, return, get, crash, deadlock,
}
use canon_r.Storage.{FileObject, FsInfo, StorageSystem, file_at, set_file}

-- The difference of two values of type size_t.
abbrev pub sub_size : ℕ → ℕ → ℕ
sub_size m n = if ltb m n then 2 ^ 64 + m - n else m - n

-- CANON_R5_CACHE_TIMEOUT, a number of jiffies, at `hz` of them a second.
abbrev pub cache_timeout : ℕ → ℕ
cache_timeout hz = 300 * hz

-- The test of the cleanup: the number of jiffies is taken as nanoseconds.
unfoldable pub is_old : ℕ → ℕ → FileObject → Bool
is_old hz now f =
    f.cached && ltb (f.modification_time + cache_timeout hz) now && is_some f.cache_data

abbrev pub uncached : FileObject → FileObject
uncached f = record f { cache_data = none; cache_size = 0; cached = false }

module _ {E : Type 0} where
  -- The filesystem's data after the object was looked at.
  unfoldable pub clean_file : ℕ → ℕ → FileObject → FsInfo → M (StorageSystem E) FsInfo
  clean_file hz a f fs = do
    s ← get
    if is_old hz s.now f
        then (do
          set_file a (some (uncached f))
          return (record fs { total_size = sub_size (fs.total_size) (uncached f).cache_size }))
        else return fs

  unfoldable pub clean_list : ℕ → List ℕ → FsInfo → M (StorageSystem E) FsInfo
  clean_list hz [] fs = return fs
  clean_list hz (a ∷ rest) fs = do f ← file_at a; fs ← clean_file hz a f fs; clean_list hz rest fs

  -- The work is given the filesystem's data that contain it, and leaves the result.
  unfoldable pub cache_cleanup_work : ℕ → FsInfo → M (StorageSystem E) FsInfo
  cache_cleanup_work hz fs = if fs.lock then crash deadlock else do
    fs ← clean_list hz fs.lru_list (record fs { lock = true })
    return (record fs { lock = false })
