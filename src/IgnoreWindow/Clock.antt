-- ===== src/IgnoreWindow/Clock.antt =====
-- Windows whose times are written "HH:MM".
use feed_reader.Common.{
  ℕ, ◌+◌, ◌*◌, ◌/◌, ◌%◌, ◌<◌, ◌≤◌, ◌≡◌, ◌↔◌, refl, ap, ◌∙◌, Bool, true, false, Option, some, List,
  [], ◌∷◌, arith, ◌==◌, ==_iff, Bool-cases, inl, inr, nat_eq, list_eq,
}
use feed_reader.Common.Int.{ℤ}
use feed_reader.Common.Number.{number, digits}
use feed_reader.Common.Text.{Text, codes, split, trim, trim_start, is_space}
use feed_reader.IgnoreWindow.Active.{
  Window, LocalTime, Part, hour_of, minute_of, start_minutes, end_minutes, in_window, utc_time,
  get_utc_day, get_utc_hours, get_utc_minutes, is_ignore_window_active, get_local_time_in_timezone,
  or_utc, unless_empty, minutes_of,
}
use feed_reader.IgnoreWindow.Schedule.{Covers, in_window_iff}

abbrev two_digits : ℕ → Text
two_digits n = (b'0' + n / 10) ∷ (b'0' + n % 10) ∷ []

-- "HH:MM"
abbrev pub clock_text : ℕ → ℕ → Text
clock_text h m = (b'0' + h / 10) ∷ (b'0' + h % 10) ∷ b':' ∷ (b'0' + m / 10) ∷ (b'0' + m % 10) ∷ []

digit_not_space : (n : ℕ) → n < 10 → is_space (b'0' + n) ≡ false
unfolding is_space
digit_not_space n h = ground arith

trim-two : (c d : ℕ) → is_space c ≡ false → is_space d ≡ false → trim (c ∷ d ∷ []) ≡ c ∷ d ∷ []
unfolding trim trim_start
trim-two c d hc hd = rw hc (rw hd refl)

digits-two :
    (a b : ℕ) → a < 10 → b < 10 → digits 0 ((b'0' + a) ∷ (b'0' + b) ∷ []) ≡ some (a * 10 + b)
unfolding digits
digits-two a b ha hb = ground arith

number-two_digits : (n : ℕ) → n < 100 → number (two_digits n) ≡ some n
unfolding number
number-two_digits n h =
    rw
      (trim-two (b'0' + n / 10) (b'0' + n % 10) (digit_not_space (n / 10) (omega arith))
        (digit_not_space (n % 10) (omega arith)))
      (digits-two (n / 10) (n % 10) (omega arith) (omega arith) ∙ ground arith)

split-clock_text :
    (h m : ℕ) → h < 100 → m < 100 → split b':' (clock_text h m) ≡ two_digits h ∷ two_digits m ∷ []
split-clock_text h m p q = ground arith

hour_of-clock_text : (h m : ℕ) → h < 100 → m < 100 → hour_of (clock_text h m) ≡ some h
unfolding hour_of
hour_of-clock_text h m p q = rw (split-clock_text h m p q) (number-two_digits h p)

minute_of-clock_text : (h m : ℕ) → h < 100 → m < 100 → minute_of (clock_text h m) ≡ some m
unfolding minute_of
minute_of-clock_text h m p q = rw (split-clock_text h m p q) (number-two_digits m q)

start_minutes-clock_text :
    (h m : ℕ) → h < 100 → m < 100 → start_minutes (clock_text h m) ≡ some (h * 60 + m)
unfolding start_minutes
start_minutes-clock_text h m p q = rw (hour_of-clock_text h m p q, minute_of-clock_text h m p q)

midnight_text : (hour_of (codes "24:00") ≡ some 24) × (minute_of (codes "24:00") ≡ some 0)
unfolding hour_of minute_of is_space
midnight_text = (refl, refl)

eq_of_midnight : (h m : ℕ) → h < 100 → m < 100 → clock_text h m ≡ codes "24:00" → h * 60 + m ≡ 1440
eq_of_midnight h m p q e =
    let hours = hour_of-clock_text h m p q in
    let minutes = minute_of-clock_text h m p q in
    ground (arith, midnight_text, rw e at hours, rw e at minutes)

end_minutes-clock_text :
    (h m : ℕ) → h < 100 → m < 100 → end_minutes (clock_text h m) ≡ some (h * 60 + m)
unfolding end_minutes
end_minutes-clock_text h m p q = elim (Bool-cases (clock_text h m == codes "24:00")) [
  | inl e ↦ rw e (ground (arith, eq_of_midnight h m p q ((==_iff _ _).0 e)))
  | inr e ↦ rw (e, hour_of-clock_text h m p q, minute_of-clock_text h m p q) (ground arith)
]

-- The local time is a time of day.
pub record IsTimeOfDay (t : LocalTime) (h m : ℕ) : Type 0 where
  pub weekday_range : t.weekday < 7
  pub hours_are : t.hours ≡ some h
  pub hours_range : h < 24
  pub minutes_are : t.minutes ≡ some m
  pub minutes_range : m < 60

-- A time of day at which a window can start or end: 00:00 to 24:00.
abbrev pub IsClock : ℕ → ℕ → Type 0
IsClock h m = (m < 60) × (h * 60 + m ≤ 1440)

-- With an unknown time zone the time is that of UTC, and it is a time of day.
pub utc_time-IsTimeOfDay :
    (date : ℤ) → IsTimeOfDay (utc_time date) (get_utc_hours date) (get_utc_minutes date)
unfolding utc_time get_utc_day get_utc_hours get_utc_minutes
utc_time-IsTimeOfDay date = record {
  weekday_range = ground arith;
  hours_are = refl;
  hours_range = ground arith;
  minutes_are = refl;
  minutes_range = ground arith;
}

unless_empty_iff :
    (days : List ℕ) (active : Bool) (w curr start end : ℕ)
    → (active ≡ true) ↔ Covers days w curr start end
    → (unless_empty days active ≡ true) ↔ Covers days w curr start end
unfolding unless_empty
unless_empty_iff [] active w curr start end h = (λ e. cc, λ (_, _, on, _). cc)
unless_empty_iff (_ ∷ _) active w curr start end h = h

module _ (format_to_parts : Text → ℤ → Option (List Part)) where
  -- A window whose times are written "HH:MM" is active at a date exactly if the minute of the week
  -- in the window's time zone lies on an arc of the week that begins at the start time of one of
  -- its days and lasts the window's duration: overnight windows go on into the next day, across the
  -- end of the week too, midnight to midnight is the whole day, and a window that ends when it
  -- starts at another time is never active.
  pub is_ignore_window_active_iff :
      (window : Window) (date : ℤ) (sh sm eh em h m : ℕ)
      → window.start_time ≡ clock_text sh sm
      → window.end_time ≡ clock_text eh em
      → IsClock sh sm
      → IsClock eh em
      → IsTimeOfDay (get_local_time_in_timezone format_to_parts date (or_utc window.timezone)) h m
      → (is_ignore_window_active format_to_parts window date ≡ true)
        ↔ Covers window.days_of_week
            (get_local_time_in_timezone format_to_parts date (or_utc window.timezone)).weekday
            (h * 60 + m)
            (sh * 60 + sm)
            (eh * 60 + em)
  unfolding is_ignore_window_active
  is_ignore_window_active_iff window date sh sm eh em h m s e cs ce t =
      let local = get_local_time_in_timezone format_to_parts date (or_utc window.timezone) in
      let starts : start_minutes window.start_time ≡ some (sh * 60 + sm) =
        ap start_minutes s ∙ start_minutes-clock_text sh sm (omega arith) (omega arith) in
      let ends : end_minutes window.end_time ≡ some (eh * 60 + em) =
        ap end_minutes e ∙ end_minutes-clock_text eh em (omega arith) (omega arith) in
      let decided =
        in_window_iff window.days_of_week local.weekday (h * 60 + m) (sh * 60 + sm) (eh * 60 + em)
          t.weekday_range (omega arith) (omega arith) (omega arith) in
      unless_empty_iff window.days_of_week
        (in_window window.days_of_week local.weekday (minutes_of local.hours local.minutes)
          (start_minutes window.start_time) (end_minutes window.end_time))
        local.weekday (h * 60 + m) (sh * 60 + sm) (eh * 60 + em)
        (rw (t.hours_are, t.minutes_are, starts, ends) decided)
