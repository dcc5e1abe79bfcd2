-- ===== src/Dates.antt =====
-- frontend/src/lib/date-utils.ts, and `getPublishedSince` of frontend/src/lib/item-utils.ts. A
-- `Date` is its time in milliseconds, `none` the invalid one.
pub mod Conversions
pub mod Relative
use feed_reader.Common.{
  ℕ, ◌+◌, ◌*◌, ◌/◌, ◌%◌, Option, none, some, String, if◌then◌else◌, ◌==◌, string_eq,
}
use feed_reader.Common.Int.{ℤ, pos, negsuc, ◌+ℤ◌, ◌-ℤ◌, ◌*ℤ◌, div_floor, sub_ℕ}

pub record TimestampLike : Type 0 where
  pub seconds : ℤ
  pub nanos : ℤ

-- `n % k` keeps the sign of `n`.
abbrev pub rem : ℤ → ℕ → ℤ
rem (pos n) k = pos (n % k)
rem (negsuc n) k = sub_ℕ 0 ((n + 1) % k)

-- `Math.trunc(n / k)`, which `new Date` does to a fractional time.
abbrev pub quot : ℤ → ℕ → ℤ
quot (pos n) k = pos (n / k)
quot (negsuc n) k = sub_ℕ 0 ((n + 1) / k)

unfoldable pub date_to_timestamp : ℤ → TimestampLike
unfolding ◌*ℤ◌
date_to_timestamp d = record { seconds = div_floor d 1000; nanos = rem d 1000 *ℤ pos 1_000_000 }

-- The argument of `toDate`.
pub data DateLike : Type 0 where
  undefined : DateLike
  date : Option ℤ → DateLike
  timestamp : TimestampLike → DateLike
  text : String → DateLike

-- `new Date(text)` is the platform's parser; `none` stands for an invalid date.
module _ (parse_date : String → Option ℤ) where
  -- `none` is `undefined`, `some none` an invalid date.
  unfoldable pub to_date : DateLike → Option (Option ℤ)
  unfolding ◌+ℤ◌ ◌*ℤ◌
  to_date undefined = none
  to_date (date d) = some d
  to_date (timestamp ts) =
      some (some (quot (ts.seconds *ℤ pos 1_000_000_000 +ℤ ts.nanos) 1_000_000))
  to_date (text s) =
      if s == "" then none else elim (parse_date s) [ none ↦ none | some d ↦ some (some d) ]

pub data DateFilterValue : Type 0 where
  all_dates hours_24 days_7 days_30 days_90 days_365 : DateFilterValue

-- The length of the filter's window in milliseconds.
abbrev pub filter_span : DateFilterValue → Option ℕ
filter_span all_dates = none
filter_span hours_24 = some (24 * 60 * 60 * 1000)
filter_span days_7 = some (7 * 24 * 60 * 60 * 1000)
filter_span days_30 = some (30 * 24 * 60 * 60 * 1000)
filter_span days_90 = some (90 * 24 * 60 * 60 * 1000)
filter_span days_365 = some (365 * 24 * 60 * 60 * 1000)

unfoldable pub get_published_since : ℤ → DateFilterValue → Option TimestampLike
unfolding date_to_timestamp ◌-ℤ◌
get_published_since now value = elim (filter_span value) [
  | none ↦ none
  | some span ↦ some (date_to_timestamp (now -ℤ pos span))
]
