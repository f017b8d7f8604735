-- ===== src/Storage/Objects.antt =====
-- The PTP commands of drivers/storage/canon-r5-storage.c. Each has a buffer for the answer, which
-- it passes as the data to send.
use canon_r.Prelude.{
  ℕ, zero, suc, ◌+◌, ◌*◌, ◌/◌, ◌%◌, ◌^◌, false, not, ◌&&◌, List, [], ◌∷◌, ◌++◌, Option, none, some,
  replicate, ltb, ◌==◌, if◌then◌else◌, ℤ, pos, failed, success, M, ◌>>=◌, return, codes, valid,
}
use canon_r.Wire.{Byte}
use canon_r.Device.{Core}
use canon_r.Ptp.{TransportOps, ptp_command}
use canon_r.Ptp.Session.{not_ok}
use canon_r.Storage.{
  StorageCard, FileObject, type_cf_express, type_sd_card, status_mounted, file_raw_cr3, zeroed,
}

-- min
abbrev pub smaller : ℕ → ℕ → ℕ
smaller m n = if ltb m n then m else n

-- A local array of `n` bytes that nothing was written to.
abbrev pub stack_buffer : ℕ → List Byte
stack_buffer n = replicate n none

-- What PTP GetStorageInfo is taken to say of a card, over a zeroed structure.
unfoldable pub storage_card : ℕ → StorageCard
storage_card storage_id = record {
  slot_id = if storage_id == 0x00010001 then 0 else 1;
  type = if storage_id == 0x00010001 then type_cf_express else type_sd_card;
  status = status_mounted;
  label = codes "CANON_R5";
  serial_number = [];
  total_capacity = 128 * 1024 * 1024 * 1024;
  free_space = 64 * 1024 * 1024 * 1024;
  write_speed = 0;
  read_speed = 0;
  filesystem = codes "exFAT";
  cluster_size = 0;
  last_access = 0;
  file_count = 0;
  folder_count = 0;
  write_protected = false;
  needs_format = false;
}

four_digits : ℕ → List ℕ
four_digits n =
    (b'0' + n / 1000 % 10) ∷ (b'0' + n / 100 % 10) ∷ (b'0' + n / 10 % 10) ∷ (b'0' + n % 10) ∷ []

-- The conversion `%04u`, of a number below 100000.
pub decimal : ℕ → List ℕ
unfolding four_digits
decimal n = if ltb n 10000 then four_digits n else (b'0' + n / 10000) ∷ four_digits n

-- What PTP GetObjectInfo is taken to say of a file, over a zeroed structure.
unfoldable pub file_info : ℕ → ℕ → FileObject
file_info now object_handle = record {
  list_link = zeroed;
  tree_link = zeroed;
  object_handle = object_handle;
  parent_handle = 0;
  filename = codes "IMG_" ++ decimal (object_handle % 2 ^ 16) ++ codes ".CR3";
  file_type = file_raw_cr3;
  file_size = 50 * 1024 * 1024;
  creation_time = now;
  modification_time = now;
  storage_id = object_handle / 2 ^ 16 % 2 ^ 8;
  ref_count = 1;
  cached = false;
  cache_data = none;
  cache_size = 0;
}

unfoldable pub handles_from : ℕ → ℕ → List ℕ
handles_from i zero = []
handles_from i (suc n) = (0x00010000 + i + 1) ∷ handles_from (suc i) n

module _ {E : Type 0} where
  -- A command with `n` bytes of `response` and the address of a local `response_code`.
  unfoldable pub with_response : TransportOps E → ℕ → List ℕ → ℕ → M (Core E) (ℤ × Option ℕ)
  with_response ops code params n =
      ptp_command ops valid code params (some (stack_buffer n)) (pos n) valid

  -- The result with the ids that were written.
  unfoldable pub ptp_get_storage_ids : TransportOps E → ℕ → M (Core E) (ℤ × List ℕ)
  ptp_get_storage_ids ops max_ids = do
    r ← with_response ops 0x1004 [] 64
    if failed r.0
        then return (r.0, [])
        else if not (not_ok r.1) && ltb 1 max_ids
        then return (pos 2, 0x00010001 ∷ 0x00020001 ∷ [])
        else return (r.0, [])

  -- The result with `*info` where it was written.
  unfoldable pub ptp_get_storage_info : TransportOps E → ℕ → M (Core E) (ℤ × Option StorageCard)
  ptp_get_storage_info ops storage_id = do
    r ← with_response ops 0x1005 (storage_id ∷ []) 128
    if failed r.0
        then return (r.0, none)
        else if not_ok r.1
        then return (r.0, none)
        else return (r.0, some (storage_card storage_id))

  -- The result with the handles that were written.
  unfoldable pub ptp_get_object_handles : TransportOps E → ℕ → ℕ → ℕ → M (Core E) (ℤ × List ℕ)
  ptp_get_object_handles ops storage_id parent_handle max_handles = do
    r ← with_response ops 0x1007 (storage_id ∷ 0 ∷ parent_handle ∷ []) 1024
    if failed r.0
        then return (r.0, [])
        else if not_ok r.1
        then return (success, [])
        else do let count = smaller max_handles 10; return (pos count, handles_from 0 count)

  -- The result with `*info` where it was written.
  unfoldable pub ptp_get_object_info : TransportOps E → ℕ → ℕ → M (Core E) (ℤ × Option FileObject)
  ptp_get_object_info ops now object_handle = do
    r ← with_response ops 0x1008 (object_handle ∷ []) 256
    if failed r.0
        then return (r.0, none)
        else if not_ok r.1
        then return (r.0, none)
        else return (r.0, some (file_info now object_handle))

  -- The result with the bytes that were written to the buffer; their number is `*bytes_read`.
  unfoldable pub ptp_get_object_data : TransportOps E → ℕ → ℕ → ℕ → M (Core E) (ℤ × Option (List ℕ))
  ptp_get_object_data ops object_handle size offset = do
    r ← with_response ops 0x1009 (object_handle ∷ []) 1024
    if failed r.0
        then return (r.0, none)
        else if not_ok r.1
        then return (r.0, none)
        else return (r.0, some (replicate (smaller size 1024) 0x55))

  -- The result with `*new_handle` where it was written.
  unfoldable pub ptp_send_object_data : TransportOps E → ℕ → ℕ → ℕ → M (Core E) (ℤ × Option ℕ)
  ptp_send_object_data ops now size parent_handle = do
    r ← with_response ops 0x100C (parent_handle ∷ (size % 2 ^ 32) ∷ []) 64
    if failed r.0
        then return (r.0, none)
        else if not_ok r.1
        then return (r.0, none)
        else return (r.0, some ((0x00010000 + now % 2 ^ 32) % 2 ^ 32))

  unfoldable pub ptp_delete_object : TransportOps E → ℕ → M (Core E) ℤ
  ptp_delete_object ops object_handle = do
    r ← ptp_command ops valid 0x100A (object_handle ∷ []) none (pos 0) valid
    return r.0

  unfoldable pub ptp_format_storage : TransportOps E → ℕ → M (Core E) ℤ
  ptp_format_storage ops storage_id = do
    r ← ptp_command ops valid 0x100F (storage_id ∷ []) none (pos 0) valid
    return r.0
