-- ===== src/Still/Autofocus.antt =====
-- Focusing and the statistics of drivers/still/canon-r5-still.c.
use canon_r.Prelude.{
  ℕ, ◌+◌, ◌%◌, ◌^◌, Bool, true, false, ◌||◌, Option, none, some, if◌then◌else◌, ℤ, failed, success,
  einval, M, ◌>>=◌, ◌>>◌, return, get, modify, Ptr, null, valid, is_null,
}
use canon_r.Ptp.{TransportOps}
use canon_r.Ptp.Still.{ptp_autofocus, ptp_get_focus_info, ptp_manual_focus}
use canon_r.Still.{StillStats, StillSystem, on_still, on_core, on_focus, lock_focus, unlock_focus}

abbrev pub no_stats : StillStats
no_stats = record {
  images_captured = 0;
  images_failed = 0;
  total_bytes = 0;
  af_operations = 0;
  af_success = 0;
}

module _ {E : Type 0} where
  -- Where the lens came to rest, if the camera tells.
  unfoldable pub note_focus : ℤ × Option (ℕ × Bool) → M (StillSystem E) (Unit {0})
  note_focus (ret, none) = return tt
  note_focus (ret, some (position, achieved)) =
      if failed ret
      then return tt
      else modify (
          on_still (λ d. record d {
            focus = record (d.focus) { focus_position = position; focus_achieved = achieved };
            stats = record (d.stats) {
              af_success = (d.stats.af_success + (if achieved then 1 else 0)) % 2 ^ 64;
            };
          }))

  -- The work leaves the queue when it starts.
  unfoldable pub af_work : TransportOps E → M (StillSystem E) (Unit {0})
  af_work ops = do
    modify (on_focus (λ f. record f { af_queued = false }))
    lock_focus
    modify (on_focus (λ f. record f { af_active = true }))
    ret ← on_core (ptp_autofocus ops valid)
    (if failed ret
        then return tt
        else do r ← on_core (ptp_get_focus_info valid valid valid); note_focus r)
    modify (
        on_still (λ d. record d {
          focus = record (d.focus) { af_active = false };
          stats = record (d.stats) { af_operations = (d.stats.af_operations + 1) % 2 ^ 64 };
        }))
    unlock_focus
    modify (on_focus (λ f. record f { af_complete = true }))

  unfoldable pub autofocus : Ptr → M (StillSystem E) ℤ
  autofocus null = return einval
  autofocus valid = do
    modify (on_focus (λ f. record f { af_complete = false; af_queued = true }))
    return success

  unfoldable pub manual_focus : Ptr → ℕ → M (StillSystem E) ℤ
  manual_focus null position = return einval
  manual_focus valid position = do
    lock_focus
    ret ← on_core (ptp_manual_focus valid position)
    (if failed ret
        then return tt
        else modify (on_focus (λ f. record f { focus_position = position })))
    unlock_focus
    return ret

  -- With what is written to `*position` and `*achieved`.
  unfoldable pub get_focus_info : Ptr → Ptr → Ptr → M (StillSystem E) (ℤ × Option (ℕ × Bool))
  get_focus_info still position achieved =
      if is_null still || (is_null position || is_null achieved) then return (einval, none) else do
        lock_focus
        s ← get
        unlock_focus
        return (success, some (s.still.focus.focus_position, s.still.focus.focus_achieved))

  unfoldable pub get_stats : Ptr → Ptr → M (StillSystem E) (ℤ × Option StillStats)
  get_stats still stats =
      if is_null still || is_null stats
      then return (einval, none)
      else do s ← get; return (success, some s.still.stats)

  unfoldable pub reset_stats : Ptr → M (StillSystem E) (Unit {0})
  reset_stats null = return tt
  reset_stats valid = modify (on_still (λ d. record d { stats = no_stats }))
