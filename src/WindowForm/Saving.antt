-- ===== src/WindowForm/Saving.antt =====
-- What the form saves, and when a window saved for all day is active.
use feed_reader.Common.{
  ℕ, ◌≡◌, refl, ap, sym, ◌∙◌, Bool, true, false, ◌&&◌, ◌||◌, Option, some, List, [], ◌∷◌,
  if◌then◌else◌, ◌==◌, ==_iff, nat_eq, list_eq,
}
use feed_reader.Common.Int.{ℤ}
use feed_reader.Common.Lists.{includes}
use feed_reader.Common.Text.{Text, codes, trim}
use feed_reader.IgnoreWindow.Active.{
  Window, Part, or_utc, get_local_time_in_timezone, is_ignore_window_active, unless_empty,
}
use feed_reader.WindowForm.{
  FormData, FormState, is_all_day_data, open_form, check_all_day, form_data,
}

either : (a b : Bool) (t u : Text) → (a ≡ true → u ≡ t) → (if a && b then t else u) ≡ u
either true true t u h = sym (h refl)
either true false t u h = refl
either false b t u h = refl

start_kept :
    (d : FormData) → (if is_all_day_data d then codes "00:00" else d.start_time) ≡ d.start_time
unfolding is_all_day_data
start_kept d =
    either (d.start_time == codes "00:00")
      ((d.end_time == codes "24:00") || (d.end_time == codes "00:00")) (codes "00:00") d.start_time
      (==_iff d.start_time (codes "00:00")).0

-- Opening a window in the form and saving it at once gives the same window, but for the spaces
-- around its name, and for the end of a window of all day, which is then 24:00.
pub form_data-open_form :
    (local_tz : Text) (d : FormData)
    → form_data (open_form local_tz (some d)) ≡ record d {
      name = trim d.name;
      end_time = if is_all_day_data d then codes "24:00" else d.end_time;
    }
unfolding form_data open_form
form_data-open_form local_tz d =
    ap
      (λ (start : Text). record d {
        name = trim d.name;
        start_time = start;
        end_time = if is_all_day_data d then codes "24:00" else d.end_time;
      })
      (start_kept d)

-- Checking "All day" and unchecking it again leaves the data to save as they were, for a form that
-- is not for all day and has both times.
pub check_all_day_back :
    (s : FormState)
    → s.is_all_day ≡ false
    → (s.start_time == []) ≡ false
    → (s.end_time == []) ≡ false
    → form_data (check_all_day false (check_all_day true s)) ≡ form_data s
unfolding form_data check_all_day
check_all_day_back s h a b = rw (h, a, b) refl

abbrev pub window_of : FormData → Window
window_of d = record {
  start_time = d.start_time;
  end_time = d.end_time;
  days_of_week = d.days_of_week;
  timezone = d.timezone;
}

unless_empty-includes :
    (days : List ℕ) (w : ℕ) → unless_empty days (includes days w) ≡ includes days w
unfolding unless_empty
unless_empty-includes [] w = refl
unless_empty-includes (d ∷ days) w = refl

all_day_of : FormState → FormData
unfolding trim
all_day_of s = record {
  name = trim s.name;
  start_time = codes "00:00";
  end_time = codes "24:00";
  days_of_week = s.days_of_week;
  timezone = s.timezone;
}

all_day_data : (s : FormState) → s.is_all_day ≡ true → form_data s ≡ all_day_of s
unfolding form_data all_day_of
all_day_data s h = rw h refl

module _ (format_to_parts : Text → ℤ → Option (List Part)) where
  all_day-active :
      (s : FormState) (date : ℤ)
      → is_ignore_window_active format_to_parts (window_of (all_day_of s)) date
        ≡ includes s.days_of_week
            (get_local_time_in_timezone format_to_parts date (or_utc s.timezone)).weekday
  unfolding is_ignore_window_active all_day_of
  all_day-active s date = unless_empty-includes s.days_of_week _

  -- What a form for all day saves is a window that is active the whole of the days selected, in its
  -- time zone, and on no other day.
  pub is_ignore_window_active-form_data :
      (s : FormState) (date : ℤ)
      → s.is_all_day ≡ true
      → is_ignore_window_active format_to_parts (window_of (form_data s)) date
        ≡ includes s.days_of_week
            (get_local_time_in_timezone format_to_parts date (or_utc s.timezone)).weekday
  unfolding is_ignore_window_active form_data
  is_ignore_window_active-form_data s date h =
      ap (λ (d : FormData). is_ignore_window_active format_to_parts (window_of d) date)
        (all_day_data s h)
      ∙ all_day-active s date
