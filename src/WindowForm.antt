-- ===== src/WindowForm.antt =====
-- AddIgnoreWindowModal.tsx: the form that adds or changes an ignore window. Texts are lists of UTF-16
-- code units.
pub mod Days
pub mod Saving
use feed_reader.Common.{
  ℕ, ◌≡◌, refl, String, Bool, true, false, not, ◌&&◌, ◌||◌, Option, none, some, List, [], ◌∷◌, ◌++◌,
  if◌then◌else◌, ltb, leb, ◌==◌, nat_eq, list_eq, string_eq,
}
use feed_reader.Common.Lists.{length, filter, includes}
use feed_reader.Common.Sorting.{sort}
use feed_reader.Common.Text.{Text, codes, trim}

-- `IgnoreWindow`, as far as the form reads it, and `IgnoreWindowFormData`.
pub record FormData : Type 0 where
  pub name : Text
  pub start_time : Text
  pub end_time : Text
  pub days_of_week : List ℕ
  pub timezone : Text

pub record Times : Type 0 where
  pub start_time : Text
  pub end_time : Text

-- The signals of the form.
pub record FormState : Type 0 where
  pub name : Text
  pub is_all_day : Bool
  pub start_time : Text
  pub end_time : Text
  pub previous_custom_times : Times
  pub days_of_week : List ℕ
  pub timezone : Text
  pub error_message : Option Text

abbrev pub common_timezones : List Text
common_timezones =
    codes "UTC"
    ∷ codes "Asia/Tokyo"
    ∷ codes "America/New_York"
    ∷ codes "America/Chicago"
    ∷ codes "America/Denver"
    ∷ codes "America/Los_Angeles"
    ∷ codes "Europe/London"
    ∷ codes "Europe/Paris"
    ∷ codes "Europe/Berlin"
    ∷ codes "Asia/Shanghai"
    ∷ codes "Asia/Singapore"
    ∷ codes "Australia/Sydney"
    ∷ []

-- `if (timezone) set.add(timezone)`
abbrev add_zone : Text → List Text → List Text
add_zone zone zones = if (zone == []) || includes zones zone then zones else zones ++ zone ∷ []

abbrev zone_of : Option FormData → Text
zone_of none = []
zone_of (some data_of) = data_of.timezone

-- `local_tz` is the zone of the browser; `zone_le` is `a <= b` in the order of `sort`.
unfoldable pub available_timezones :
    (Text → Text → Bool) → Text → Option FormData → FormState → List Text
unfolding sort
available_timezones zone_le local_tz initial s =
    sort zone_le
      (add_zone s.timezone (add_zone (zone_of initial) (add_zone local_tz common_timezones)))

abbrev pub default_times : Times
default_times = record { start_time = codes "23:00"; end_time = codes "07:00" }

unfoldable pub is_all_day_data : FormData → Bool
is_all_day_data d =
    (d.start_time == codes "00:00")
    && ((d.end_time == codes "24:00") || (d.end_time == codes "00:00"))

abbrev or_utc : Text → Text
or_utc zone = if zone == [] then codes "UTC" else zone

-- The effect that runs when the modal opens, on the window to change or on none.
unfoldable pub open_form : Text → Option FormData → FormState
unfolding is_all_day_data
open_form local_tz (some d) = record {
  name = d.name;
  is_all_day = is_all_day_data d;
  start_time = d.start_time;
  end_time = d.end_time;
  previous_custom_times =
      if is_all_day_data d
      then default_times
      else record { start_time = d.start_time; end_time = d.end_time };
  days_of_week = d.days_of_week;
  timezone = d.timezone;
  error_message = none;
}
open_form local_tz none = record {
  name = [];
  is_all_day = false;
  start_time = codes "23:00";
  end_time = codes "07:00";
  previous_custom_times = default_times;
  days_of_week = 1 ∷ 2 ∷ 3 ∷ 4 ∷ 5 ∷ [];
  timezone = or_utc local_tz;
  error_message = none;
}

-- `toggleDay`, on the days selected.
unfoldable pub toggle_day : ℕ → List ℕ → List ℕ
unfolding sort
toggle_day day days =
    if includes days day then filter (λ d. not (d == day)) days else sort leb (days ++ day ∷ [])

abbrev or_default : Text → Text → Text
or_default time default = if time == [] then default else time

-- The change event of the box "All day".
unfoldable pub check_all_day : Bool → FormState → FormState
check_all_day true s = record s {
  previous_custom_times = record { start_time = s.start_time; end_time = s.end_time };
  is_all_day = true;
  start_time = codes "00:00";
  end_time = codes "24:00";
}
check_all_day false s = record s {
  is_all_day = false;
  start_time = or_default s.previous_custom_times.start_time (codes "23:00");
  end_time = or_default s.previous_custom_times.end_time (codes "07:00");
}

abbrev pub is_filled : Text → Bool
is_filled t = ltb 0 (length (trim t))

unfoldable pub is_valid : FormState → Bool
unfolding trim
is_valid s =
    is_filled s.name
    && (is_filled s.start_time
        && (is_filled s.end_time && (ltb 0 (length s.days_of_week) && is_filled s.timezone)))

unfoldable pub form_data : FormState → FormData
unfolding trim
form_data s = record {
  name = trim s.name;
  start_time = if s.is_all_day then codes "00:00" else s.start_time;
  end_time = if s.is_all_day then codes "24:00" else s.end_time;
  days_of_week = s.days_of_week;
  timezone = s.timezone;
}

-- What `onSave` comes to; `other` is a thrown value that is no `Error`.
pub data Outcome : Type 0 where
  saved : Outcome
  failed : Text → Outcome
  other : Outcome

abbrev pub message_of : Outcome → Option Text
message_of saved = none
message_of (failed message) = some message
message_of other = some (codes "Failed to save ignore window")

-- `handleSubmit`: the data given to `onSave`, if it is called, and the form afterwards.
unfoldable pub handle_submit : Bool → Outcome → FormState → Option FormData × FormState
unfolding is_valid form_data
handle_submit is_pending outcome s =
    if not (is_valid s) || is_pending
    then (none, s)
    else (some (form_data s), record s { error_message = message_of outcome })
