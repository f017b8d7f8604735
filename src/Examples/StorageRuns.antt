-- ===== src/Examples/StorageRuns.antt =====
-- The storage driver at concrete inputs.
use canon_r.Prelude.{
  ℕ, ◌≡◌, refl, inl, [], ◌∷◌, Option, some, none, replicate, arith, ◌==◌, if◌then◌else◌, true,
  false, pos, success, Ends, done, fault, deadlock, null, valid, codes,
}
use canon_r.Wire.{header, le16, le32}
use canon_r.Ptp.{next_transaction}
use canon_r.Ptp.Answer.{wire_command}
use canon_r.Ptp.DataPhase.{wire_data_header}
use canon_r.Storage.{
  StorageSystem, FileObject, leaf, node, FsInfo, on_storage, status_inserted, status_full, linked,
  storage_slot_valid, file_jpeg,
}
use canon_r.Storage.Objects.{with_response}
use canon_r.Storage.Cards.{is_inserted, is_empty, blank_card, card_event_work}
use canon_r.Storage.Files.{read_file}
use canon_r.Storage.Setup.{fresh_storage, storage_init}
use canon_r.Storage.Serve.{
  scan, mount, write, list, card_event, no_change, AllRefused, storage_serve_all,
}
use canon_r.Storage.NoCard.{NoCard}
use canon_r.Storage.Inactive.{storage_serve_all-NoCard}
use canon_r.Storage.Deadlock.{card_event_work-deadlock}
use canon_r.Storage.Reading.{Read, read_file-Read}
use canon_r.Storage.Lifecycle.{Begun, storage_init-Begun}
use canon_r.Storage.Undefined.{with_response-undefined}
use canon_r.Examples.Data.{
  Any, Sent, camera, camera-IsTransport, camera-IsSigned, record_packet, answer_with, ok_bytes,
  ok_answer, open_device, open_device-Inv, on_wire,
}

-- A file at the address 3 whose four bytes are cached, in a tree between two others.
abbrev cached_file : FileObject
cached_file = record {
  list_link = linked;
  tree_link = linked;
  object_handle = 20;
  parent_handle = 0;
  filename = codes "A.JPG";
  file_type = file_jpeg;
  file_size = 4;
  creation_time = 5;
  modification_time = 5;
  storage_id = 1;
  ref_count = 1;
  cached = true;
  cache_data = some (10 ∷ 11 ∷ 12 ∷ 13 ∷ []);
  cache_size = 4;
}

abbrev three_files : ℕ → Option FileObject
three_files a =
    if a == 1
    then some (record cached_file { object_handle = 10 })
    else if a == 2
    then some (record cached_file { object_handle = 30 })
    else some cached_file

abbrev mounted_fs : FsInfo
mounted_fs = record {
  lock = false;
  file_tree = node (node leaf 1 leaf) 3 (node leaf 2 leaf);
  file_lock = false;
  lru_list = 1 ∷ 3 ∷ [];
  total_size = 8;
  max_size = 64;
}

abbrev driver : StorageSystem Sent
driver = record {
  storage = fresh_storage;
  core = on_wire open_device;
  files = three_files;
  private_data = null;
  workqueues = 0;
  now = 1000000;
}

abbrev mounted_driver : StorageSystem Sent
mounted_driver = on_storage (λ d. record d { fs_info = some mounted_fs }) driver

-- The same over a camera that agrees to everything, with a card active.
abbrev writing_driver : StorageSystem ℕ
writing_driver = record {
  storage = record fresh_storage { fs_info = some mounted_fs; active_card = pos 0 };
  core = record { dev = open_device; env = 1 };
  files = three_files;
  private_data = valid;
  workqueues = 2;
  now = 1000;
}

driver-NoCard : NoCard Any false driver
unfolding blank_card is_inserted
driver-NoCard = record {
  mutex = refl;
  inactive = refl;
  not_inserted = λ slot. refl;
  session = open_device-Inv;
  alive = tt;
}

storage_serve_all-NoCard_example :
    Ends
      (λ rets s'.
        NoCard Any false s'
        × AllRefused
            (scan
              ∷ mount (pos 0)
              ∷ write (codes "A.JPG") 5 valid (some 1)
              ∷ card_event (pos 0) status_full
              ∷ list 0 (λ _. true)
              ∷ [])
            rets)
      (storage_serve_all
        (camera ok_bytes)
        (scan
          ∷ mount (pos 0)
          ∷ write (codes "A.JPG") 5 valid (some 1)
          ∷ card_event (pos 0) status_full
          ∷ list 0 (λ _. true)
          ∷ [])
        driver)
unfolding no_change storage_slot_valid is_inserted is_empty
storage_serve_all-NoCard_example =
    storage_serve_all-NoCard (camera ok_bytes) (camera-IsTransport ok_bytes)
      (camera-IsSigned ok_bytes)
      (scan
        ∷ mount (pos 0)
        ∷ write (codes "A.JPG") 5 valid (some 1)
        ∷ card_event (pos 0) status_full
        ∷ list 0 (λ _. true)
        ∷ [])
      driver driver-NoCard (refl, (refl, (refl, (refl, (refl, tt)))))

card_event_work-deadlock_example :
    card_event_work (
      on_storage (λ d. record d { event_card_slot = pos 1; event_status = status_inserted }) driver)
    ≡ fault deadlock
card_event_work-deadlock_example =
    card_event_work-deadlock 1
      (on_storage (λ d. record d { event_card_slot = pos 1; event_status = status_inserted })
        driver)
      (omega arith) refl refl (inl refl)

read_file-Read_example :
    Ends
      (Read Any 3 driver)
      (read_file (camera ok_bytes) valid (some 3) valid 3 (pos 2) (some 0) driver)
read_file-Read_example =
    read_file-Read (camera ok_bytes) (camera-IsTransport ok_bytes) (camera-IsSigned ok_bytes) 3 3 0
      (pos 2) cached_file driver refl (omega arith) open_device-Inv tt

storage_init-Begun_example :
    Ends
      (Begun Any 1000 valid valid valid driver)
      (storage_init 1000 (camera ok_bytes) valid valid valid valid driver)
storage_init-Begun_example =
    storage_init-Begun (camera ok_bytes) (camera-IsTransport ok_bytes) (camera-IsSigned ok_bytes)
      1000 valid valid valid driver open_device-Inv tt refl

with_response-undefined_example :
    with_response (camera ok_bytes) 0x1004 [] 64 (on_wire open_device)
    ≡ done
        (success, some 0x2001)
        (record (next_transaction (on_wire open_device)) {
          env = replicate 64 none ∷ wire_data_header 0x1004 1 64 ∷ wire_command 0x1004 1 [] ∷ [];
        })
unfolding header le16 le32
with_response-undefined_example =
    with_response-undefined (camera ok_bytes) record_packet (answer_with ok_bytes) 0x1004 [] 63
      ok_answer [] (on_wire open_device) _ _ _ _ refl refl refl refl refl (omega arith) refl refl
      refl refl (omega arith) refl (omega arith) refl (omega arith)
