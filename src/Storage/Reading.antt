-- ===== src/Storage/Reading.antt =====
-- What reading a file of drivers/storage/canon-r5-storage.c gives.
use canon_r.Prelude.{
  ℕ, zero, suc, ◌+◌, ◌-◌, ◌%◌, ◌^◌, ◌≤◌, ◌<◌, ◌≡◌, refl, sym, ap, inl, inr, true, false, ◌&&◌, List,
  [], ◌∷◌, Option, none, some, length, take, drop, replicate, length-replicate, ltb, lt→ltb,
  le→not-ltb, ℤ, failed, success, ◌>>=◌, done, Ends, Ends-bind, valid, Bool-cases, arith,
}
use canon_r.Device.{Core}
use canon_r.Ptp.{TransportOps}
use canon_r.Ptp.Transport.{IsTransport}
use canon_r.Ptp.Requests.{SessionInv, Framed}
use canon_r.Ptp.Sign.{IsSigned}
use canon_r.Storage.{StorageSystem, FileObject, on_stats, file_at}
use canon_r.Storage.Objects.{smaller, ptp_get_object_data}
use canon_r.Storage.Files.{
  ReadResult, read_file, read_from, read_cached, read_camera, finish_read, to_size,
}
use canon_r.Storage.Told.{Gave, ptp_get_object_data-Gave}
use canon_r.Storage.NoCard.{on_core-Ends}

length-slice : (n m : ℕ) (xs : List ℕ) → m + n ≤ length xs → length (take n (drop m xs)) ≡ n
length-slice zero zero xs h = refl
length-slice (suc n) zero [] h = absurd (omega (arith, h))
length-slice (suc n) zero (x ∷ xs) h = ap suc (length-slice n zero xs (omega (arith, h)))
length-slice zero (suc m) [] h = refl
length-slice (suc n) (suc m) [] h = absurd (omega (arith, h))
length-slice n (suc m) (x ∷ xs) h = length-slice n m xs (omega (arith, h))

-- The cached bytes of a file are as many as it says.
abbrev pub Backed : Option (List ℕ) → ℕ → Type 0
Backed none n = Unit {0}
Backed (some cache) n = n ≤ length cache

slice_in : (size n off : ℕ) → off < n → off + smaller size (n - off) ≤ n
slice_in size n off h = ground (arith, h)

in_cache :
    (f : FileObject) (off : ℕ) → (f.cached && ltb off f.cache_size) ≡ true → off < f.cache_size
in_cache f off h = ground (arith, h)

smaller_left : (m n : ℕ) → smaller m n ≤ m
smaller_left m n = ground arith

module _ {E : Type 0} where
  read-eq :
      (ops : TransportOps E) (a size before : ℕ) (offset : ℤ) (f : FileObject) (s : StorageSystem E)
      → s.files a ≡ some f
      → read_file ops valid (some a) valid size offset (some before) s
        ≡ read_from ops f f.cache_data size (to_size offset) before s
  unfolding read_file
  read-eq ops a size before offset f s ha = rw (ha, ◌>>=◌, file_at) refl

  -- What is cached at the offset is read from the cache, up to the end of it, without the camera:
  -- the bytes asked for there, and the hit is counted.
  pub read_file-cached :
      (ops : TransportOps E) (a size before : ℕ) (offset : ℤ) (f : FileObject) (cache : List ℕ)
      (s : StorageSystem E)
      → s.files a ≡ some f
      → f.cached ≡ true
      → f.cache_data ≡ some cache
      → f.cache_size ≤ length cache
      → to_size offset < f.cache_size
      → read_file ops valid (some a) valid size offset (some before) s
        ≡ done
            (record {
              status = success;
              buffer =
                  take (smaller size (f.cache_size - to_size offset)) (drop (to_size offset) cache);
              bytes_read = smaller size (f.cache_size - to_size offset);
            })
            (on_stats (λ t. record t { cache_hits = (t.cache_hits + 1) % 2 ^ 32 }) s)
  unfolding read_from read_cached
  read_file-cached ops a size before offset f cache s ha hc hd hn ho =
      let inside = slice_in size f.cache_size (to_size offset) ho in
      let bound =
        le→not-ltb (length cache) (to_size offset + smaller size (f.cache_size - to_size offset))
          (omega (arith, inside, hn)) in
      rw
        (
          read-eq ops a size before offset f s ha,
          hd,
          hc,
          lt→ltb (to_size offset) f.cache_size ho,
          bound,
        )
        refl

module _ {E : Type 0} (Good : E → Type 0) where
  -- What a read that started in `s` ends with.
  pub record Read (size : ℕ) (s : StorageSystem E) (r : ReadResult) (s' : StorageSystem E)
      : Type 0 where
    pub fits : length r.buffer ≤ size
    pub counted : failed r.status ≡ false → r.bytes_read ≡ length r.buffer
    pub framed : Framed Good s.core s'.core
    pub files : s'.files ≡ s.files

module _ {E : Type 0} {Good : E → Type 0} (ops : TransportOps E) (t : IsTransport Good ops)
    (signed : IsSigned ops) where
  same_core : (c : Core E) → SessionInv c.dev → Good c.env → Framed Good c c
  same_core c v g = record { frame = refl; counter = v.counter; alive = g }

  finish-Read :
      (size before : ℕ) (s : StorageSystem E) (ret : ℤ) (o : Option (List ℕ)) (s1 : StorageSystem E)
      → Gave Good s.core (replicate (smaller size 1024) 0x55) (ret, o) s1.core
      → s1.files ≡ s.files
      → Ends (Read Good size s) (finish_read before (ret, o) s1)
  unfolding finish_read
  finish-Read size before s ret none s1 (w, inl (k, n)) e =
      rw (k, Ends) (record { fits = omega arith; counted = λ z. cc; framed = w; files = e })
  finish-Read size before s ret (some bs) s1 (w, inl (k, n)) e = absurd cc
  finish-Read size before s ret none s1 (w, inr y) e = absurd cc
  finish-Read size before s ret (some bs) s1 (w, inr y) e =
      let bytes : bs ≡ replicate (smaller size 1024) 0x55 = cc y in
      rw (ap (λ r. r.0) y, Ends)
        (record {
          fits = rw bytes (
              omega
                (arith, length-replicate {A = ℕ} (smaller size 1024) 0x55, smaller_left size 1024));
          counted = λ z. refl;
          framed = w;
          files = e;
        })

  camera-Read :
      (f : FileObject) (size offset before : ℕ) (s : StorageSystem E)
      → SessionInv s.core.dev
      → Good s.core.env
      → Ends (Read Good size s) (read_camera ops f size offset before s)
  unfolding read_camera
  camera-Read f size offset before s v g =
      let bytes = replicate (smaller size 1024) 0x55 in
      Ends-bind (λ r s'. Gave Good s.core bytes r s'.core × (s' ≡ record s { core = s'.core }))
        (Read Good size s) _ (finish_read before)
        (on_core-Ends (Gave Good s.core bytes) (ptp_get_object_data ops f.object_handle size offset)
          s (ptp_get_object_data-Gave ops t signed s.core v g f.object_handle size offset))
        (λ r s1 (y, e). finish-Read size before s r.0 r.1 s1 y (ap (λ s. s.files) e))

  cached-Read :
      (f : FileObject) (cache : List ℕ) (size offset : ℕ) (s : StorageSystem E)
      → f.cache_size ≤ length cache
      → offset < f.cache_size
      → SessionInv s.core.dev
      → Good s.core.env
      → Ends (Read Good size s) (read_cached f cache size offset s)
  unfolding read_cached
  cached-Read f cache size offset s hn ho v g =
      let n = smaller size (f.cache_size - offset) in
      let inside = slice_in size f.cache_size offset ho in
      let slice = length-slice n offset cache (omega (arith, inside, hn)) in
      rw (le→not-ltb (length cache) (offset + n) (omega (arith, inside, hn)), Ends)
        (record {
          fits = omega (arith, slice, smaller_left size (f.cache_size - offset));
          counted = λ _. sym slice;
          framed = same_core s.core v g;
          files = refl;
        })

  from-Read :
      (f : FileObject) (o : Option (List ℕ)) (size offset before : ℕ) (s : StorageSystem E)
      → Backed o f.cache_size
      → SessionInv s.core.dev
      → Good s.core.env
      → Ends (Read Good size s) (read_from ops f o size offset before s)
  unfolding read_from
  from-Read f none size offset before s hb v g = camera-Read f size offset before s v g
  from-Read f (some cache) size offset before s hb v g =
      elim (Bool-cases (f.cached && ltb offset f.cache_size)) [
        | inl k ↦ rw k (cached-Read f cache size offset s hb (in_cache f offset k) v g)
        | inr k ↦ rw k (camera-Read f size offset before s v g)
      ]

  -- Between two operations and over a good transport, reading a file that exists, and of whose
  -- data as much is cached as it says, always ends, at any offset: no more bytes are written to
  -- the buffer than it holds, on success `*bytes_read` is their number, no file object changes,
  -- and of the device only the transaction counter.
  pub read_file-Read :
      (a size before : ℕ) (offset : ℤ) (f : FileObject) (s : StorageSystem E)
      → s.files a ≡ some f
      → Backed f.cache_data f.cache_size
      → SessionInv s.core.dev
      → Good s.core.env
      → Ends (Read Good size s) (read_file ops valid (some a) valid size offset (some before) s)
  read_file-Read a size before offset f s ha hb v g =
      rw (read-eq ops a size before offset f s ha)
        (from-Read f f.cache_data size (to_size offset) before s hb v g)
