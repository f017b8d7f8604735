-- ===== src/Device.antt =====
-- `struct canon_r5_device` and `struct canon_r5_ptp` of include/core/canon-r5.h: the state that all
-- drivers of one camera share, and the accessors of it that every layer uses.
use canon_r.Prelude.{ℕ, Bool, true, false, Ptr, M, done, fault, deadlock, modify, if◌then◌else◌}

pub data DeviceState : Type 0 where
  disconnected connected initialized ready error : DeviceState

pub record Ptp : Type 0 where
  pub lock : Bool  -- the mutex is held
  pub session_id : ℕ  -- u32
  pub transaction_id : ℕ  -- u32
  pub session_open : Bool
  pub event_wq : Ptr
  pub event_queued : Bool  -- `event_work` waits on `event_wq`

-- The private pointers of the driver modules.
pub record Drivers : Type 0 where
  pub video_priv : Ptr
  pub still_priv : Ptr
  pub audio_priv : Ptr
  pub storage_priv : Ptr
  pub control_priv : Ptr
  pub power_priv : Ptr
  pub input_priv : Ptr
  pub lens_priv : Ptr
  pub display_priv : Ptr
  pub wireless_priv : Ptr

pub record Device : Type 0 where
  pub kref : ℕ
  pub transport_ops : Ptr
  pub ptp : Ptp
  pub state : DeviceState
  pub state_lock : Bool
  pub drivers : Drivers

-- The device with what lies behind its transport.
pub record Core (E : Type 0) : Type 0 where
  pub dev : Device
  pub env : E

module _ {E : Type 0} where
  abbrev pub set_ptp : Ptp → Core E → Core E
  set_ptp p c = record c { dev = record (c.dev) { ptp = p } }

  abbrev pub on_dev : (Device → Device) → Core E → Core E
  on_dev f c = record c { dev = f c.dev }

  -- mutex_lock(&dev->ptp.lock): a thread that holds it waits for ever.
  abbrev pub lock_ptp : M (Core E) (Unit {0})
  lock_ptp c =
      if c.dev.ptp.lock
      then fault deadlock
      else done tt (set_ptp (record (c.dev.ptp) { lock = true }) c)

  abbrev pub unlock_ptp : M (Core E) (Unit {0})
  unlock_ptp = modify (λ c. set_ptp (record (c.dev.ptp) { lock = false }) c)

  abbrev pub lock_state : M (Core E) (Unit {0})
  lock_state c =
      if c.dev.state_lock
      then fault deadlock
      else done tt (on_dev (λ d. record d { state_lock = true }) c)

  abbrev pub unlock_state : M (Core E) (Unit {0})
  unlock_state = modify (on_dev (λ d. record d { state_lock = false }))

  -- A step of what lies behind the transport.
  abbrev pub on_env : {A : Type 0} → M E A → M (Core E) A
  on_env m c = elim (m c.env) [ done a e ↦ done a (record c { env = e }) | fault x ↦ fault x ]
