-- ===== src/Schedule/Equality.antt =====
-- The derived equality of schedules.
use timelord.Prelude.{◌≡◌, refl, true, arith}
use timelord.Prelude.Text.{same_text_refl, same_list_refl}
use timelord.Schedule.{
  PowerAction, sleep, shutdown, OffWindow, Schedule, same_action, same_window, same_schedule,
}

action_refl : (a : PowerAction) → same_action a a ≡ true
action_refl sleep = refl
action_refl shutdown = refl

window_refl : (w : OffWindow) → same_window w w ≡ true
window_refl w = ground arith

pub same_schedule_refl : (s : Schedule) → same_schedule s s ≡ true
unfolding same_schedule
same_schedule_refl s =
    rw
      (
        same_text_refl s.revision,
        action_refl s.action,
        same_text_refl s.timezone,
        same_list_refl same_window window_refl s.windows,
      )
      refl
