-- ===== src/Tests/Windows.antt =====
-- Ignore windows at concrete times.
use feed_reader.Common.{ℕ, ◌≡◌, refl, true, false, Option, none, some, List, [], ◌∷◌, ◌↔◌, arith}
use feed_reader.Common.Int.{ℤ, pos}
use feed_reader.Common.Text.{Text, codes}
use feed_reader.IgnoreWindow.Active.{
  Window, Part, weekday_part, hour_part, minute_part, other_part, get_local_time_in_timezone,
  is_ignore_window_active,
}
use feed_reader.IgnoreWindow.Schedule.{Covers}
use feed_reader.IgnoreWindow.Clock.{IsTimeOfDay, is_ignore_window_active_iff}

-- Monday, 23:30, in every time zone.
abbrev monday_night : Text → ℤ → Option (List Part)
monday_night zone date = some (
    record { kind = weekday_part; value = codes "Mon" }
    ∷ record { kind = other_part; value = codes ", " }
    ∷ record { kind = hour_part; value = codes "23" }
    ∷ record { kind = minute_part; value = codes "30" }
    ∷ [])

-- Mondays from 22:00 to 06:00.
abbrev overnight : Window
overnight = record {
  start_time = codes "22:00";
  end_time = codes "06:00";
  days_of_week = 1 ∷ [];
  timezone = codes "Asia/Tokyo";
}

monday_night-IsTimeOfDay :
    IsTimeOfDay (get_local_time_in_timezone monday_night (pos 0) (codes "Asia/Tokyo")) 23 30
unfolding get_local_time_in_timezone feed_reader.Common.Text.is_space
monday_night-IsTimeOfDay = record {
  weekday_range = omega arith;
  hours_are = refl;
  hours_range = omega arith;
  minutes_are = refl;
  minutes_range = omega arith;
}

is_ignore_window_active_iff_example :
    (is_ignore_window_active monday_night overnight (pos 0) ≡ true)
    ↔ Covers (1 ∷ []) 1 1410 1320 360
unfolding get_local_time_in_timezone feed_reader.Common.Text.is_space
is_ignore_window_active_iff_example =
    is_ignore_window_active_iff monday_night overnight (pos 0) 22 0 6 0 23 30 refl refl
      (omega arith, omega arith) (omega arith, omega arith) monday_night-IsTimeOfDay
