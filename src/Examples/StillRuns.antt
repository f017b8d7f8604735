-- ===== src/Examples/StillRuns.antt =====
-- The still driver at concrete inputs.
use canon_r.Prelude.{
  ◌≡◌, ◌↔◌, refl, inr, [], ◌∷◌, map, some, arith, true, false, pos, negsuc, success, ◌>>=◌, Ends,
  done, fault, div_by_zero, valid,
}
use canon_r.Wire.{
  header, le16, le32, build_ptp_container, encode, store_params, encode_params, read16, read32,
  type_of, code_of, trans_id_of, container_command,
}
use canon_r.Ptp.{
  next_transaction, ptp_command, transact, transport_send, transport_receive, send_data_phase,
  check_response,
}
use canon_r.Ptp.Session.{simple_command, checked_command}
use canon_r.Ptp.Still.{ptp_capture_single, ptp_capture_burst}
use canon_r.Ptp.Requests.{SessionInv}
use canon_r.Still.{CaptureSettings, CapturedImage, StillSystem, on_still}
use canon_r.Still.Settings.{
  validate_quality, validate_capture_settings, validate_continuous, validate_bracket,
  set_capture_settings,
}
use canon_r.Still.Capture.{capture_single, capture_burst, start_continuous, continuous_timer}
use canon_r.Still.Images.{fresh_still, capture_work}
use canon_r.Still.Validate.{
  QualityOk, validate_quality-QualityOk, SettingsOk, validate_capture_settings-SettingsOk,
}
use canon_r.Still.Busy.{Shot, capture_single-Shot, capture_burst-Shot}
use canon_r.Still.Serve.{Busy}
use canon_r.Still.Continuous.{
  Ticked, continuous_timer-Ticked, timer_fires_times, timer_fires_times-Busy,
}
use canon_r.Still.Starting.{start_continuous-div_by_zero, Launched, start_continuous-Launched}
use canon_r.Still.Focusing.{Focused, af_work-Focused}
use canon_r.Still.Autofocus.{af_work}
use canon_r.Still.Fetch.{failed_fetch, capture_work-failed_fetch}
use canon_r.Examples.Data.{
  Any, Sent, camera, camera-IsTransport, ok_bytes, busy_bytes, open_device, open_device-Inv,
  on_wire,
}

abbrev driver : StillSystem Sent
driver = record { still = fresh_still; core = on_wire open_device }

-- A driver that took a picture.
abbrev busy_driver : StillSystem Sent
busy_driver = on_still (λ d. record d { capture_active = true; pending_captures = pos 1 }) driver

-- Two pictures of three are still to be taken.
abbrev shooting_driver : StillSystem Sent
shooting_driver =
    on_still
      (λ d. record d {
        capture_active = true;
        continuous_active = true;
        continuous_count = 1;
        timer = some 10;
        settings = record (d.settings) { mode = 1; burst_count = 3 };
      })
      driver

abbrev slow_settings : CaptureSettings
slow_settings = record (fresh_still.settings) { continuous_fps = 0 }

abbrev bracket_settings : CaptureSettings
bracket_settings = record (fresh_still.settings) {
  mode = 4;
  bracket_shots = 5;
  bracket_step = negsuc 0;
}

abbrev picture : CapturedImage
picture = record {
  image_data = valid;
  data_size = 7;
  file_size = 7;
  capture_settings = fresh_still.settings;
  ready = true;
  ref_count = 1;
}

abbrev reading_driver : StillSystem Sent
reading_driver =
    on_still
      (λ d. record d {
        allocated = λ a. some picture;
        captured_images = 5 ∷ [];
        image_queue = 5 ∷ [];
      })
      driver

validate_quality-QualityOk_example :
    (validate_quality (some fresh_still.quality) ≡ success) ↔ QualityOk fresh_still.quality
validate_quality-QualityOk_example = validate_quality-QualityOk fresh_still.quality

validate_capture_settings-SettingsOk_example :
    (validate_capture_settings (some bracket_settings) ≡ success) ↔ SettingsOk bracket_settings
validate_capture_settings-SettingsOk_example = validate_capture_settings-SettingsOk bracket_settings

capture_single-Shot_example :
    Ends
      (Shot Any (ptp_capture_single (camera ok_bytes) valid) 1 true driver)
      (capture_single (camera ok_bytes) valid driver)
capture_single-Shot_example =
    capture_single-Shot (camera ok_bytes) (camera-IsTransport ok_bytes) driver refl refl
      open_device-Inv tt

capture_burst-Shot_example :
    Ends
      (Shot Any (ptp_capture_burst (camera busy_bytes) valid 9) 9 false driver)
      (capture_burst (camera busy_bytes) valid 9 driver)
capture_burst-Shot_example =
    capture_burst-Shot (camera busy_bytes) (camera-IsTransport busy_bytes) driver 9 refl refl refl
      open_device-Inv tt

continuous_timer-Ticked_example :
    Ends
      (λ _ s'. Ticked Any (camera ok_bytes) 250 9 shooting_driver s')
      (continuous_timer 250 (camera ok_bytes) shooting_driver)
continuous_timer-Ticked_example =
    continuous_timer-Ticked (camera ok_bytes) (camera-IsTransport ok_bytes) 250 9 shooting_driver
      refl refl open_device-Inv tt

timer_fires_times-Busy_example :
    Ends
      (λ _ s'. Busy s'.still × SessionInv s'.core.dev × Any s'.core.env)
      (timer_fires_times 250 2 (camera ok_bytes) shooting_driver)
timer_fires_times-Busy_example =
    timer_fires_times-Busy (camera ok_bytes) (camera-IsTransport ok_bytes) 250 9 2 shooting_driver
      (record {
        idle = refl;
        active = refl;
        rate = refl;
        burst = omega arith;
        left = inr (refl, omega arith, omega arith, omega arith);
      })
      open_device-Inv tt

start_continuous-div_by_zero_example :
    (set_capture_settings valid (some slow_settings) >>= λ _.
    start_continuous 250 (camera ok_bytes) valid)
      driver
    ≡ fault div_by_zero
unfolding validate_capture_settings validate_continuous validate_bracket ptp_capture_single
    checked_command simple_command ptp_command transact transport_send transport_receive
    send_data_phase check_response build_ptp_container encode store_params header le16 le32
    encode_params read16 read32 type_of code_of trans_id_of
start_continuous-div_by_zero_example =
    start_continuous-div_by_zero 250 (camera ok_bytes) driver slow_settings
      (record (next_transaction (on_wire open_device)) {
        env = map some (header (build_ptp_container container_command 0x9116 1 [])) ∷ [];
      })
      refl refl refl refl refl refl

capture_work-failed_fetch_example :
    capture_work (some 4) valid busy_driver ≡ done tt (on_still (failed_fetch (some 4)) busy_driver)
capture_work-failed_fetch_example = capture_work-failed_fetch (some 4) valid busy_driver

start_continuous-Launched_example :
    Ends
      (Launched Any (camera busy_bytes) 250 9 driver)
      (start_continuous 250 (camera busy_bytes) valid driver)
start_continuous-Launched_example =
    start_continuous-Launched 250 (camera busy_bytes) (camera-IsTransport busy_bytes) 9 driver refl
      refl refl refl open_device-Inv tt

af_work-Focused_example :
    Ends (λ _ s'. Focused Any (camera ok_bytes) driver s') (af_work (camera ok_bytes) driver)
af_work-Focused_example =
    af_work-Focused (camera ok_bytes) (camera-IsTransport ok_bytes) driver refl open_device-Inv tt
