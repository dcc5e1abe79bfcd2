-- ===== src/IgnoreWindow/Active.antt =====
-- `getLocalTimeInTimezone` and `isIgnoreWindowActive`.
use feed_reader.Common.{
  ℕ, ◌+◌, ◌*◌, ◌/◌, ◌%◌, Bool, true, false, ◌&&◌, ◌||◌, Option, none, some, List, [], ◌∷◌,
  if◌then◌else◌, ◌==◌, nat_eq, list_eq,
}
use feed_reader.Common.Int.{ℤ, pos, ◌+ℤ◌, div_floor, mod_floor}
use feed_reader.Common.Lists.{get_elem?, includes}
use feed_reader.Common.Text.{Text, codes, split}
use feed_reader.Common.Number.{number, parse_int, num_lt, num_le, num_is}

-- The fields of `IgnoreWindow` that the test of activity reads.
pub record Window : Type 0 where
  pub start_time : Text
  pub end_time : Text
  pub days_of_week : List ℕ
  pub timezone : Text

-- A local time; `none` is NaN.
pub record LocalTime : Type 0 where
  pub weekday : ℕ
  pub hours : Option ℕ
  pub minutes : Option ℕ

-- What `Intl.DateTimeFormat.formatToParts` returns: typed pieces of text.
pub data PartType : Type 0 where
  weekday_part hour_part minute_part other_part : PartType

pub record Part : Type 0 where
  pub kind : PartType
  pub value : Text

-- The three strings that the loop over the parts fills; a later part overrides an earlier one.
pub record Pieces : Type 0 where
  pub weekday_str : Text
  pub hour_str : Text
  pub minute_str : Text

take_part : Pieces → PartType → Text → Pieces
take_part p weekday_part v = record p { weekday_str = v }
take_part p hour_part v = record p { hour_str = v }
take_part p minute_part v = record p { minute_str = v }
take_part p other_part v = p

unfoldable pub take_parts : Pieces → List Part → Pieces
unfolding take_part
take_parts p [] = p
take_parts p (q ∷ qs) = take_parts (take_part p q.kind q.value) qs

lookup_day : Text → List (Text × ℕ) → Option ℕ
lookup_day s [] = none
lookup_day s ((name, n) ∷ days) = if name == s then some n else lookup_day s days

abbrev weekday_map : List (Text × ℕ)
weekday_map =
    (codes "Sun", 0)
    ∷ (codes "Mon", 1)
    ∷ (codes "Tue", 2)
    ∷ (codes "Wed", 3)
    ∷ (codes "Thu", 4)
    ∷ (codes "Fri", 5)
    ∷ (codes "Sat", 6)
    ∷ []

-- `date.getUTCDay()`, `getUTCHours()` and `getUTCMinutes()` of a time in milliseconds.
unfoldable pub get_utc_day : ℤ → ℕ
unfolding ◌+ℤ◌
get_utc_day date = mod_floor (div_floor date 86_400_000 +ℤ pos 4) 7

unfoldable pub get_utc_hours : ℤ → ℕ
get_utc_hours date = mod_floor date 86_400_000 / 3_600_000

unfoldable pub get_utc_minutes : ℤ → ℕ
get_utc_minutes date = mod_floor date 3_600_000 / 60_000

or_day : Option ℕ → ℕ → ℕ
or_day none d = d
or_day (some n) d = n

midnight : Option ℕ → Option ℕ
midnight none = none
midnight (some h) = if h == 24 then some 0 else some h

unfoldable pub time_of_parts : ℤ → List Part → LocalTime
unfolding take_parts lookup_day get_utc_day or_day midnight parse_int
time_of_parts date parts =
    let p =
      take_parts (record { weekday_str = []; hour_str = codes "0"; minute_str = codes "0" })
        parts in
    record {
      weekday = or_day (lookup_day p.weekday_str weekday_map) (get_utc_day date);
      hours = midnight (parse_int p.hour_str);
      minutes = parse_int p.minute_str;
    }

-- The `catch`: the time zone is unknown to `Intl`.
unfoldable pub utc_time : ℤ → LocalTime
unfolding get_utc_day get_utc_hours get_utc_minutes
utc_time date = record {
  weekday = get_utc_day date;
  hours = some (get_utc_hours date);
  minutes = some (get_utc_minutes date);
}

abbrev pub minutes_of : Option ℕ → Option ℕ → Option ℕ
minutes_of (some h) (some m) = some (h * 60 + m)
minutes_of (some h) none = none
minutes_of none _ = none

-- Element `i` of `time.split(":").map(Number)`; a missing one is `undefined`, hence NaN.
abbrev piece : Option Text → Option ℕ
piece none = none
piece (some s) = number s

unfoldable pub hour_of : Text → Option ℕ
unfolding number
hour_of time = piece (get_elem? (split b':' time) 0)

unfoldable pub minute_of : Text → Option ℕ
unfolding number
minute_of time = piece (get_elem? (split b':' time) 1)

unfoldable pub start_minutes : Text → Option ℕ
unfolding hour_of minute_of
start_minutes time = minutes_of (hour_of time) (minute_of time)

unfoldable pub end_minutes : Text → Option ℕ
unfolding hour_of minute_of
end_minutes time =
    if (time == codes "24:00") || (num_is (hour_of time) 24 && num_is (minute_of time) 0)
    then some 1440
    else minutes_of (hour_of time) (minute_of time)

-- The decision from the start and the end of the window and the minute of the day.
unfoldable pub in_window : List ℕ → ℕ → Option ℕ → Option ℕ → Option ℕ → Bool
in_window days weekday curr start end =
    if (num_is start 0 && num_is end 0) || (num_is start 0 && num_is end 1440)
    then includes days weekday
    else if num_lt start end
    then (if includes days weekday then num_le start curr && num_lt curr end else false)
    else if num_lt end start
    then (if includes days weekday && num_le start curr
        then true
        else if includes days ((weekday + 6) % 7) && num_lt curr end
        then true
        else false)
    else false

-- The early return on an empty `daysOfWeek`.
unfoldable pub unless_empty : List ℕ → Bool → Bool
unless_empty [] active = false
unless_empty (_ ∷ _) active = active

abbrev pub or_utc : Text → Text
or_utc [] = codes "UTC"
or_utc (c ∷ s) = c ∷ s

-- `formatToParts` in a time zone is `Intl`'s; `none` stands for the `RangeError` that an unknown
-- time zone raises.
module _ (format_to_parts : Text → ℤ → Option (List Part)) where
  unfoldable pub get_local_time_in_timezone : ℤ → Text → LocalTime
  unfolding time_of_parts utc_time
  get_local_time_in_timezone date timezone = elim (format_to_parts timezone date) [
    | some parts ↦ time_of_parts date parts
    | none ↦ utc_time date
  ]

  unfoldable pub is_ignore_window_active : Window → ℤ → Bool
  unfolding get_local_time_in_timezone start_minutes end_minutes in_window unless_empty
  is_ignore_window_active window date =
      let local = get_local_time_in_timezone date (or_utc window.timezone) in
      let active =
        in_window window.days_of_week local.weekday (minutes_of local.hours local.minutes)
          (start_minutes window.start_time) (end_minutes window.end_time) in
      unless_empty window.days_of_week active
