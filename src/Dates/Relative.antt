-- ===== src/Dates/Relative.antt =====
-- `formatRelativeDate` and `formatUnreadCount` of item-utils.ts: the number and the unit that
-- `Intl.RelativeTimeFormat` is given.
use feed_reader.Common.{
  ℕ, suc, ◌+◌, ◌*◌, ◌/◌, ◌≤◌, ◌<◌, Option, none, some, arith, if◌then◌else◌, ltb, leb, Bool-cases,
  inl, inr,
}
use feed_reader.Common.Int.{ℤ, pos, negsuc, pos_part, neg_part, ◌-ℤ◌, div_floor}

pub data TimeUnit : Type 0 where
  second minute hour day month year : TimeUnit

pub record RelativeTime : Type 0 where
  pub value : ℤ
  pub unit : TimeUnit

abbrev pub abs : ℤ → ℕ
abs (pos n) = n
abs (negsuc n) = suc n

abbrev relative : ℤ → TimeUnit → RelativeTime
relative value unit = record { value = value; unit = unit }

-- From the number of seconds between the date and now on.
unfoldable pub relative_time : ℤ → RelativeTime
relative_time diff_in_seconds =
    let diff_in_minutes = div_floor diff_in_seconds 60 in
    let diff_in_hours = div_floor diff_in_minutes 60 in
    let diff_in_days = div_floor diff_in_hours 24 in
    let diff_in_months = div_floor diff_in_days 30 in
    if ltb (abs diff_in_seconds) 60
    then relative diff_in_seconds second
    else if ltb (abs diff_in_minutes) 60
    then relative diff_in_minutes minute
    else if ltb (abs diff_in_hours) 24
    then relative diff_in_hours hour
    else if ltb (abs diff_in_days) 30
    then relative diff_in_days day
    else if ltb (abs diff_in_months) 12
    then relative diff_in_months month
    else relative (div_floor diff_in_months 12) year

-- `date` and `now` are in milliseconds; `none` is a date that there is not.
unfoldable pub format_relative_date : Option ℤ → ℤ → Option RelativeTime
unfolding relative_time ◌-ℤ◌
format_relative_date none now = none
format_relative_date (some date) now = some (relative_time (div_floor (date -ℤ now) 1000))

-- The text of a count: `none` is "999+".
unfoldable pub format_unread_count : ℕ → Option ℕ
format_unread_count count = if leb 1000 count then none else some count

-- The length of a unit in seconds: a month is 30 days, and a year 12 months.
abbrev pub span : TimeUnit → ℕ
span second = 1
span minute = 60
span hour = 3600
span day = 86_400
span month = 2_592_000
span year = 31_104_000

-- The value is the whole number of its units that the difference comes to, rounded down:
-- `value * span <= diff < (value + 1) * span`.
abbrev pub IsFloor : ℤ → RelativeTime → Type 0
IsFloor diff r =
    (pos_part r.value * span r.unit + neg_part diff
      ≤ pos_part diff + neg_part r.value * span r.unit)
    × (pos_part diff + neg_part r.value * span r.unit
        < pos_part r.value * span r.unit + span r.unit + neg_part diff)

-- How many of a unit are counted in it before the next one takes over. Years go on.
abbrev pub Shows : TimeUnit → ℤ → Type 0
Shows second diff = (pos_part diff < 60) × (neg_part diff < 60)
Shows minute diff = (pos_part diff < 60 * 60) × (neg_part diff ≤ 59 * 60)
Shows hour diff = (pos_part diff < 24 * 3600) × (neg_part diff ≤ 23 * 3600)
Shows day diff = (pos_part diff < 30 * 86_400) × (neg_part diff ≤ 29 * 86_400)
Shows month diff = (pos_part diff < 12 * 2_592_000) × (neg_part diff ≤ 11 * 2_592_000)
Shows year diff = Unit

-- The next shorter unit, and with it every shorter one, no longer shows the difference.
abbrev pub Outgrown : TimeUnit → ℤ → Type 0
Outgrown second diff = Unit
Outgrown minute diff = ¬ Shows second diff
Outgrown hour diff = ¬ Shows minute diff
Outgrown day diff = ¬ Shows hour diff
Outgrown month diff = ¬ Shows day diff
Outgrown year diff = ¬ Shows month diff

-- The difference is shown in the shortest unit that counts so far, a second, a minute and an hour to
-- 60, 60 and 24, a day to 30, and a month to 12, of a past time what is rounded down included, and
-- it is the true one rounded down to whole such units: 60 seconds, 60 minutes, 24 hours, 30 days and
-- 12 such months.
pub relative_time_lem :
    (diff : ℤ)
    → IsFloor diff (relative_time diff)
      × Shows (relative_time diff).unit diff
      × Outgrown (relative_time diff).unit diff
unfolding relative_time
relative_time_lem (pos n) = elim (Bool-cases (ltb (n) 60)) [
  | inl e ↦ rw e ((omega arith, omega arith), (ground arith, ground arith), tt)
  | inr e ↦ elim (Bool-cases (ltb (n / 60) 60)) [
    | inl f ↦
        rw (e, f) ((omega arith, omega arith), (ground arith, ground arith), λ (a, b). ground arith)
    | inr f ↦ elim (Bool-cases (ltb (n / 60 / 60) 24)) [
      | inl g ↦
          rw (e, f, g)
            ((omega arith, omega arith), (ground arith, ground arith), λ (a, b). ground arith)
      | inr g ↦ elim (Bool-cases (ltb (n / 60 / 60 / 24) 30)) [
        | inl h ↦
            rw (e, f, g, h)
              ((omega arith, omega arith), (ground arith, ground arith), λ (a, b). ground arith)
        | inr h ↦ elim (Bool-cases (ltb (n / 60 / 60 / 24 / 30) 12)) [
          | inl k ↦
              rw (e, f, g, h, k)
                ((omega arith, omega arith), (ground arith, ground arith), λ (a, b). ground arith)
          | inr k ↦ rw (e, f, g, h, k) ((omega arith, omega arith), tt, λ (a, b). ground arith)
        ]
      ]
    ]
  ]
]
relative_time_lem (negsuc n) = elim (Bool-cases (ltb (suc n) 60)) [
  | inl e ↦ rw e ((omega arith, omega arith), (ground arith, ground arith), tt)
  | inr e ↦ elim (Bool-cases (ltb (suc (n / 60)) 60)) [
    | inl f ↦
        rw (e, f) ((omega arith, omega arith), (ground arith, ground arith), λ (a, b). ground arith)
    | inr f ↦ elim (Bool-cases (ltb (suc (n / 60 / 60)) 24)) [
      | inl g ↦
          rw (e, f, g)
            ((omega arith, omega arith), (ground arith, ground arith), λ (a, b). ground arith)
      | inr g ↦ elim (Bool-cases (ltb (suc (n / 60 / 60 / 24)) 30)) [
        | inl h ↦
            rw (e, f, g, h)
              ((omega arith, omega arith), (ground arith, ground arith), λ (a, b). ground arith)
        | inr h ↦ elim (Bool-cases (ltb (suc (n / 60 / 60 / 24 / 30)) 12)) [
          | inl k ↦
              rw (e, f, g, h, k)
                ((omega arith, omega arith), (ground arith, ground arith), λ (a, b). ground arith)
          | inr k ↦ rw (e, f, g, h, k) ((omega arith, omega arith), tt, λ (a, b). ground arith)
        ]
      ]
    ]
  ]
]
