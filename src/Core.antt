-- ===== src/Core.antt =====
-- The device management of drivers/core/canon-r5-core.c: allocation and reference count, start and
-- stop, transport, state, events and the registration of the driver modules. What the kernel's
-- allocators answer is an argument.
pub mod Lifecycle
pub mod Registration
use canon_r.Prelude.{
  ℕ, ◌+◌, ◌-◌, List, [], ◌∷◌, Bool, true, false, Option, none, some, ◌==◌, if◌then◌else◌, ℤ, pos,
  negsuc, failed, success, einval, enomem, eexist, M, ◌>>=◌, ◌>>◌, return, get, modify, crash, done,
  fault, invalid_free, null_deref, Ptr, null, valid, is_null,
}
use canon_r.Device.{
  Device, DeviceState, disconnected, initialized, Ptp, Drivers, Core, set_ptp, on_dev, lock_state,
  unlock_state,
}
use canon_r.Ptp.{TransportOps}
use canon_r.Ptp.Session.{ptp_init, ptp_cleanup}

-- `canon_r5_device_idr`: the ids of the devices that are known.
pub record Registry : Type 0 where
  pub ids : List ℕ

pub remove_id : ℕ → List ℕ → List ℕ
remove_id id [] = []
remove_id id (x ∷ xs) = if x == id then xs else x ∷ remove_id id xs

-- What kfree is given: the start of an allocation, or a member array of a struct.
pub data Block : Type 0 where
  allocation member : Block

abbrev pub kfree : {S : Type 0} → Block → M S (Unit {0})
kfree allocation = return tt
kfree member = crash invalid_free

abbrev pub no_drivers : Drivers
no_drivers = record {
  video_priv = null;
  still_priv = null;
  audio_priv = null;
  storage_priv = null;
  control_priv = null;
  power_priv = null;
  input_priv = null;
  lens_priv = null;
  display_priv = null;
  wireless_priv = null;
}

-- The zeroed structure with the fields that `canon_r5_device_alloc` sets.
abbrev pub fresh_device : Device
fresh_device = record {
  kref = 1;
  transport_ops = null;
  ptp = record {
    lock = false;
    session_id = 0;
    transaction_id = 1;
    session_open = false;
    event_wq = null;
    event_queued = false;
  };
  state = disconnected;
  state_lock = false;
  drivers = no_drivers;
}

module _ {E : Type 0} where
  abbrev pub set_event_wq : Ptr → Core E → Core E
  set_event_wq wq c = set_ptp (record (c.dev.ptp) { event_wq = wq }) c

  -- destroy_workqueue and cancel_work_sync: no work is left in the queue. (The handler, which the
  -- former runs first, changes nothing.)
  abbrev pub drain_events : Core E → Core E
  drain_events c = set_ptp (record (c.dev.ptp) { event_queued = false }) c

  -- `serial_number` and `firmware_version` are arrays inside the device.
  unfoldable pub device_release : M (Core E) (Unit {0})
  device_release = do
    c ← get
    (if is_null c.dev.ptp.event_wq then return tt else modify drain_events)
    kfree member
    kfree member
    kfree allocation

  -- The one function of the module that takes no NULL.
  unfoldable pub device_get : Ptr → M (Core E) (Unit {0})
  device_get null = crash null_deref
  device_get valid = modify (on_dev (λ d. record d { kref = d.kref + 1 }))

  unfoldable pub device_put : Ptr → M (Core E) (Unit {0})
  device_put null = return tt
  device_put valid = do
    modify (on_dev (λ d. record d { kref = d.kref - 1 }))
    c ← get
    if c.dev.kref == 0 then device_release else return tt

-- The answers of kzalloc, idr_alloc and device_create (NULL for an error pointer).
pub record AllocAnswers : Type 0 where
  pub memory : Ptr
  pub id : ℤ
  pub created : Ptr

abbrev put_fresh : M Registry (Option Device)
put_fresh r = elim (device_put valid (record { dev = fresh_device; env = r })) [
  | done u c ↦ done none c.env
  | fault e ↦ fault e
]

alloc_with : Ptr → ℤ → Ptr → M Registry (Option Device)
alloc_with null id created = return none
alloc_with valid (negsuc n) created = put_fresh
alloc_with valid (pos id) null = do
  modify (λ (r : Registry). record r { ids = id ∷ r.ids })
  modify (λ (r : Registry). record r { ids = remove_id id r.ids })
  put_fresh
alloc_with valid (pos id) valid = do
  modify (λ (r : Registry). record r { ids = id ∷ r.ids })
  return (some fresh_device)

unfoldable pub device_alloc : AllocAnswers → M Registry (Option Device)
unfolding alloc_with
device_alloc a = alloc_with a.memory a.id a.created

-- The driver modules that keep private data at the device.
pub data Driver : Type 0 where
  video still audio storage control power input lens display wireless : Driver

unfoldable pub set_priv : Driver → Ptr → Drivers → Drivers
set_priv video p d = record d { video_priv = p }
set_priv still p d = record d { still_priv = p }
set_priv audio p d = record d { audio_priv = p }
set_priv storage p d = record d { storage_priv = p }
set_priv control p d = record d { control_priv = p }
set_priv power p d = record d { power_priv = p }
set_priv input p d = record d { input_priv = p }
set_priv lens p d = record d { lens_priv = p }
set_priv display p d = record d { display_priv = p }
set_priv wireless p d = record d { wireless_priv = p }

unfoldable pub get_priv : Driver → Drivers → Ptr
get_priv video d = d.video_priv
get_priv still d = d.still_priv
get_priv audio d = d.audio_priv
get_priv storage d = d.storage_priv
get_priv control d = d.control_priv
get_priv power d = d.power_priv
get_priv input d = d.input_priv
get_priv lens d = d.lens_priv
get_priv display d = d.display_priv
get_priv wireless d = d.wireless_priv

module _ {E : Type 0} where
  -- canon_r5_register_*_driver, one function for each driver in the source.
  unfoldable pub register_driver : Driver → Ptr → Ptr → M (Core E) ℤ
  register_driver k null priv = return einval
  register_driver k valid priv = do
    modify (on_dev (λ d. record d { drivers = set_priv k priv (d.drivers) }))
    return success

  unfoldable pub unregister_driver : Driver → Ptr → M (Core E) (Unit {0})
  unregister_driver k null = return tt
  unregister_driver k valid =
      modify (on_dev (λ d. record d { drivers = set_priv k null (d.drivers) }))

  -- canon_r5_get_audio_driver and canon_r5_get_storage_driver.
  unfoldable pub get_driver : Driver → Ptr → M (Core E) Ptr
  get_driver k null = return null
  get_driver k valid = do c ← get; return (get_priv k c.dev.drivers)

  unfoldable pub register_transport : Ptr → Ptr → M (Core E) ℤ
  register_transport null ops = return einval
  register_transport valid null = return einval
  register_transport valid valid = do
    lock_state
    c ← get
    if is_null c.dev.transport_ops
        then (do
          modify (on_dev (λ d. record d { transport_ops = valid }))
          unlock_state
          return success)
        else (do unlock_state; return eexist)

  unfoldable pub unregister_transport : Ptr → M (Core E) (Unit {0})
  unregister_transport null = return tt
  unregister_transport valid = do
    lock_state
    modify (on_dev (λ d. record d { transport_ops = null }))
    unlock_state

  unfoldable pub set_state : Ptr → DeviceState → M (Core E) ℤ
  set_state null new_state = return einval
  set_state valid new_state = do
    lock_state
    modify (on_dev (λ d. record d { state = new_state }))
    unlock_state
    return success

  unfoldable pub get_state : Ptr → M (Core E) DeviceState
  get_state null = return disconnected
  get_state valid = do lock_state; c ← get; unlock_state; return c.dev.state

  unfoldable pub notify_event : Ptr → ℕ → M (Core E) (Unit {0})
  notify_event null event_type = return tt
  notify_event valid event_type = do
    c ← get
    if is_null c.dev.ptp.event_wq
        then return tt
        else modify (λ k. set_ptp (record (k.dev.ptp) { event_queued = true }) k)

  -- The second argument is what alloc_workqueue gave.
  unfoldable pub device_initialize : Ptr → Ptr → M (Core E) ℤ
  device_initialize null wq = return einval
  device_initialize valid wq = do
    modify (set_event_wq wq)
    if is_null wq then return enomem else do
      modify (λ k. set_ptp (record (k.dev.ptp) { event_queued = false }) k)
      ret ← ptp_init valid
      if failed ret
          then (do modify drain_events; modify (set_event_wq null); return ret)
          else do r ← set_state valid initialized; return success

  unfoldable pub unregister_all : M (Core E) (Unit {0})
  unregister_all = do
    unregister_driver video valid
    unregister_driver still valid
    unregister_driver audio valid
    unregister_driver storage valid
    unregister_driver control valid
    unregister_driver power valid
    unregister_driver input valid
    unregister_driver lens valid
    unregister_driver display valid
    unregister_driver wireless valid

  unfoldable pub device_cleanup : TransportOps E → Ptr → M (Core E) (Unit {0})
  device_cleanup ops null = return tt
  device_cleanup ops valid = do
    unregister_all
    ptp_cleanup ops valid
    c ← get
    (if is_null c.dev.ptp.event_wq then return tt else modify drain_events)
    r ← set_state valid disconnected
    return tt
