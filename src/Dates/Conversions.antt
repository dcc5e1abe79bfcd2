-- ===== src/Dates/Conversions.antt =====
-- A date, made a timestamp and read back.
use feed_reader.Common.{◌+◌, ◌%◌, ◌≡◌, Option, some, String, arith, if◌then◌else◌, ◌==◌, nat_eq}
use feed_reader.Common.Int.{ℤ, pos, negsuc, ◌-ℤ◌}
use feed_reader.Dates.{timestamp, date_to_timestamp, to_date}

-- The time that comes back.
unfoldable pub read_back : ℤ → ℤ
unfolding ◌-ℤ◌
read_back (pos n) = pos n
read_back (negsuc n) = if (n + 1) % 1000 == 0 then negsuc n else negsuc (n + 1000)

-- A timestamp made from a date reads back as that date from 1970 on, and before 1970 at a whole
-- second; at any other time before 1970 it reads back one second too early.
pub to_date-date_to_timestamp :
    (parse_date : String → Option ℤ) (d : ℤ)
    → to_date parse_date (timestamp (date_to_timestamp d)) ≡ some (some (read_back d))
unfolding to_date date_to_timestamp read_back
to_date-date_to_timestamp parse_date (pos n) = ground arith
to_date-date_to_timestamp parse_date (negsuc n) = ground arith
