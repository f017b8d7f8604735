-- ===== src/Ptp/Camera.antt =====
-- The camera operations of drivers/core/canon-r5-ptp.c that are one PTP command each. What a
-- function writes through an output pointer is an `Option` beside its status: `none` if it writes
-- nothing.
use canon_r.Prelude.{
  ℕ, List, [], ◌∷◌, Option, none, some, replicate, if◌then◌else◌, ◌||◌, ℤ, to_int, failed, success,
  einval, M, ◌>>=◌, return, Ptr, null, valid, is_null,
}
use canon_r.Wire.{Byte}
use canon_r.Device.{Core}
use canon_r.Ptp.{TransportOps, ptp_command}
use canon_r.Ptp.Session.{simple_command, checked_command}

abbrev pub op_get_device_info : ℕ
op_get_device_info = 0x1001

abbrev pub op_initiate_release_control : ℕ
op_initiate_release_control = 0x9128

abbrev pub op_terminate_release_control : ℕ
op_terminate_release_control = 0x9129

abbrev pub op_liveview_start : ℕ
op_liveview_start = 0x9153

abbrev pub op_liveview_stop : ℕ
op_liveview_stop = 0x9154

abbrev pub op_get_liveview : ℕ
op_get_liveview = 0x9155

abbrev pub op_capture : ℕ
op_capture = 0x9116

abbrev pub op_movie_start : ℕ
op_movie_start = 0x915E

abbrev pub op_movie_stop : ℕ
op_movie_stop = 0x915F

abbrev pub op_get_property : ℕ
op_get_property = 0x9127

abbrev pub op_set_property : ℕ
op_set_property = 0x9110

abbrev pub canon_usb_vid : ℕ
canon_usb_vid = 0x04A9

pub record PtpDeviceInfo : Type 0 where
  pub standard_version : ℕ  -- u16
  pub vendor_extension_id : ℕ  -- u32
  pub vendor_extension_version : ℕ  -- u16
  pub vendor_extension_desc : Ptr
  pub functional_mode : ℕ  -- u16
  pub operations_supported : Ptr
  pub events_supported : Ptr
  pub device_properties_supported : Ptr
  pub capture_formats : Ptr
  pub image_formats : Ptr
  pub manufacturer : Ptr
  pub model : Ptr
  pub device_version : Ptr
  pub serial_number : Ptr

-- What is written to `*info`: zeroed memory with two fields set.
abbrev pub basic_info : PtpDeviceInfo
basic_info = record {
  standard_version = 0x0100;
  vendor_extension_id = canon_usb_vid;
  vendor_extension_version = 0;
  vendor_extension_desc = null;
  functional_mode = 0;
  operations_supported = null;
  events_supported = null;
  device_properties_supported = null;
  capture_formats = null;
  image_formats = null;
  manufacturer = null;
  model = null;
  device_version = null;
  serial_number = null;
}

module _ {E : Type 0} where
  unfoldable pub ptp_get_device_info :
      TransportOps E → Ptr → Ptr → M (Core E) (ℤ × Option PtpDeviceInfo)
  ptp_get_device_info ops dev info =
      if is_null dev || is_null info then return (einval, none) else do
        r ← simple_command ops op_get_device_info []
        if failed r.0 then return (r.0, none) else return (success, some basic_info)

  unfoldable pub ptp_initiate_release_control : TransportOps E → Ptr → M (Core E) ℤ
  ptp_initiate_release_control ops null = return einval
  ptp_initiate_release_control ops valid = checked_command ops op_initiate_release_control []

  -- A failure to terminate is only logged.
  unfoldable pub ptp_terminate_release_control : TransportOps E → Ptr → M (Core E) ℤ
  ptp_terminate_release_control ops null = return einval
  ptp_terminate_release_control ops valid = do
    r ← simple_command ops op_terminate_release_control []
    return success

  unfoldable pub ptp_liveview_start : TransportOps E → Ptr → M (Core E) ℤ
  ptp_liveview_start ops null = return einval
  ptp_liveview_start ops valid = checked_command ops op_liveview_start []

  unfoldable pub ptp_liveview_stop : TransportOps E → Ptr → M (Core E) ℤ
  ptp_liveview_stop ops null = return einval
  ptp_liveview_stop ops valid = do r ← simple_command ops op_liveview_stop []; return success

  -- Writes a NULL frame of size 0: the retrieval of the data is not written yet.
  unfoldable pub ptp_get_liveview_frame :
      TransportOps E → Ptr → Ptr → Ptr → M (Core E) (ℤ × Option (Ptr × ℕ))
  ptp_get_liveview_frame ops dev frame_data frame_size =
      if is_null dev || (is_null frame_data || is_null frame_size)
      then return (einval, none)
      else do
        r ← simple_command ops op_get_liveview []
        if failed r.0 then return (r.0, none) else return (success, some (null, 0))

  unfoldable pub ptp_capture_image : TransportOps E → Ptr → M (Core E) ℤ
  ptp_capture_image ops null = return einval
  ptp_capture_image ops valid = checked_command ops op_capture []

  unfoldable pub ptp_start_movie : TransportOps E → Ptr → M (Core E) ℤ
  ptp_start_movie ops null = return einval
  ptp_start_movie ops valid = checked_command ops op_movie_start []

  unfoldable pub ptp_stop_movie : TransportOps E → Ptr → M (Core E) ℤ
  ptp_stop_movie ops null = return einval
  ptp_stop_movie ops valid = do r ← simple_command ops op_movie_stop []; return success

  -- Writes zeros to the whole of `value`: the parsing of the data is not written yet.
  unfoldable pub ptp_get_property :
      TransportOps E → Ptr → ℕ → Ptr → ℕ → M (Core E) (ℤ × Option (List ℕ))
  ptp_get_property ops dev property value value_size =
      if is_null dev || is_null value then return (einval, none) else do
        r ← simple_command ops op_get_property (property ∷ [])
        if failed r.0 then return (r.0, none) else return (success, some (replicate value_size 0))

  -- The size is a size_t here and an int in `ptp_command`.
  unfoldable pub ptp_set_property : TransportOps E → Ptr → ℕ → Option (List Byte) → ℕ → M (Core E) ℤ
  ptp_set_property ops null property value value_size = return einval
  ptp_set_property ops valid property none value_size = return einval
  ptp_set_property ops valid property (some value) value_size = do
    r ← ptp_command ops valid op_set_property (property ∷ []) (some value) (to_int value_size) valid
    if failed r.0 then return r.0 else return success
