-- ===== src/Items/Requests.antt =====
-- The first request of a query of items.
use feed_reader.Common.{
  ℕ, String, ◌≡◌, refl, ap, ◌*◌, false, true, Bool, Option, none, some, if◌then◌else◌, string_eq,
}
use feed_reader.Common.Int.{ℤ, pos, ◌-ℤ◌}
use feed_reader.Items.Fetch.{since_value, search_since, ListRequest, first_request}
use feed_reader.Dates.{
  DateFilterValue, all_dates, hours_24, days_7, days_30, days_90, days_365, date_to_timestamp,
  get_published_since,
}
use feed_reader.Dates.Conversions.{read_back, to_date-date_to_timestamp}

-- The days that a filter looks back.
abbrev pub days_of : DateFilterValue → Option ℕ
days_of all_dates = none
days_of hours_24 = some 1
days_of days_7 = some 7
days_of days_30 = some 30
days_of days_90 = some 90
days_of days_365 = some 365

-- The date from which on items are asked for: the anchor, or else the days of the filter before now,
-- either one as a timestamp gives it back.
abbrev pub asked_since : ℤ → DateFilterValue → Option ℤ → Option ℤ
asked_since now since (some a) = some (read_back a)
asked_since now since none = elim (days_of since) [
  | none ↦ none
  | some days ↦ some (read_back (now -ℤ pos (days * 86_400_000)))
]

-- The request for the first page.
abbrev pub asked : ℤ → Bool → DateFilterValue → Option ℤ → ListRequest
asked now show_read since last_fetched = record {
  since = asked_since now since last_fetched;
  page_token = "";
  is_read = if show_read then none else some false;
}

since_value-read_back :
    (parse_date : String → Option ℤ) (a : ℤ)
    → since_value parse_date (some (date_to_timestamp a)) ≡ some (read_back a)
unfolding since_value
since_value-read_back parse_date a =
    ap (λ (o : Option (Option ℤ)). elim o [ none ↦ none | some d ↦ d ])
      (to_date-date_to_timestamp parse_date a)

first_request-since :
    (parse_date : String → Option ℤ) (now : ℤ) (f : DateFilterValue) (o : Option ℤ)
    → since_value parse_date (search_since (get_published_since now f) o) ≡ asked_since now f o
unfolding search_since get_published_since since_value
first_request-since parse_date now f (some a) = since_value-read_back parse_date a
first_request-since parse_date now all_dates none = refl
first_request-since parse_date now hours_24 none =
    since_value-read_back parse_date (now -ℤ pos 86_400_000)
first_request-since parse_date now days_7 none =
    since_value-read_back parse_date (now -ℤ pos 604_800_000)
first_request-since parse_date now days_30 none =
    since_value-read_back parse_date (now -ℤ pos 2_592_000_000)
first_request-since parse_date now days_90 none =
    since_value-read_back parse_date (now -ℤ pos 7_776_000_000)
first_request-since parse_date now days_365 none =
    since_value-read_back parse_date (now -ℤ pos 31_536_000_000)

pub first_request-asked :
    (parse_date : String → Option ℤ) (now : ℤ) (show_read : Bool) (since : DateFilterValue)
    (last_fetched : Option ℤ)
    → first_request parse_date now show_read since last_fetched
      ≡ asked now show_read since last_fetched
unfolding first_request
first_request-asked parse_date now true since last_fetched =
    ap (λ (date : Option ℤ). record { since = date; page_token = ""; is_read = none })
      (first_request-since parse_date now since last_fetched)
first_request-asked parse_date now false since last_fetched =
    ap (λ (date : Option ℤ). record { since = date; page_token = ""; is_read = some false })
      (first_request-since parse_date now since last_fetched)
