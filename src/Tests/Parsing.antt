-- ===== src/Tests/Parsing.antt =====
-- CSV rules, URLs and dates at concrete inputs.
use feed_reader.Common.{
  ℕ, String, ◌≡◌, ◌≢◌, refl, true, false, Option, none, some, List, [], ◌∷◌, ◌++◌, ◌↔◌, inl, inr,
}
use feed_reader.Common.Int.{ℤ, negsuc}
use feed_reader.Common.Text.{Text, codes}
use feed_reader.Csv.Scan.{parse_csv_rows}
use feed_reader.Csv.Rules.{parse_csv_block_rules}
use feed_reader.Csv.RoundTrip.{
  LineEnd, lf, crlf, Row, print_rows, print_lines, parse_csv_rows-print_rows,
}
use feed_reader.Csv.RulesLaws.{
  BlockRule, IsWritable, row_of, rows_of, accepted_rule, parse_csv_block_rules-print_rows,
}
use feed_reader.Categories.{normalize_categories}
use feed_reader.Categories.Names.{IsName}
use feed_reader.Categories.Lists.{Written, normalize_categories-print_list}
use feed_reader.Dates.{TimestampLike, timestamp, to_date, date_to_timestamp}
use feed_reader.Dates.Conversions.{to_date-date_to_timestamp}
use feed_reader.UrlParser.{Url, UrlParsingRule, ExtractedUserInfo, extract_user_info}
use feed_reader.UrlParser.Extracts.{ReadsFirst, extract_user_info_iff}

abbrev quoted_row : Row
quoted_row = (codes "a,\"b\"", codes "two" ∷ [] ∷ [])

abbrev second_row : Row
second_row = (codes "x", codes "y" ∷ [])

abbrev two_rows : List (List Text)
two_rows = (codes "a,\"b\"" ∷ codes "two" ∷ [] ∷ []) ∷ (codes "x" ∷ codes "y" ∷ []) ∷ []

parse_csv_rows-print_rows_example :
    (parse_csv_rows (print_rows quoted_row ((crlf, second_row) ∷ [])) ≡ two_rows)
    × ((e : LineEnd)
        → parse_csv_rows (print_lines quoted_row ((crlf, second_row) ∷ []) e)
          ≡ two_rows ++ ([] ∷ []) ∷ [])
parse_csv_rows-print_rows_example = parse_csv_rows-print_rows quoted_row ((crlf, second_row) ∷ [])

abbrev user_rule : BlockRule
user_rule = record { rule_type = codes "user"; value = codes "spam"; domain = [] }

user_rule-IsWritable : IsWritable user_rule
unfolding feed_reader.Common.Text.trim
user_rule-IsWritable = record {
  trimmed = refl;
  accepted = record {
    no_extra = tt;
    has_type = inl refl;
    has_value = λ e. cc;
    has_domain = λ e. cc;
  };
}

parse_csv_block_rules-print_rows_example :
    parse_csv_block_rules (print_rows (row_of user_rule) (rows_of ((lf, user_rule) ∷ [])))
    ≡ accepted_rule user_rule ∷ accepted_rule user_rule ∷ []
parse_csv_block_rules-print_rows_example =
    parse_csv_block_rules-print_rows user_rule ((lf, user_rule) ∷ []) user_rule-IsWritable
      (user_rule-IsWritable, tt)

abbrev no_dates : String → Option ℤ
no_dates s = none

-- 1500 milliseconds before 1970.
to_date-date_to_timestamp_example :
    to_date no_dates (timestamp (date_to_timestamp (negsuc 1499))) ≡ some (some (negsuc 2499))
unfolding feed_reader.Dates.Conversions.read_back
to_date-date_to_timestamp_example = to_date-date_to_timestamp no_dates (negsuc 1499)

abbrev blog : Url
blog = record { hostname = codes "ann.blog.org"; pathname = codes "/post" }

abbrev new_url : Text → Option Url
new_url s = some blog

abbrev blog_rules : List UrlParsingRule
blog_rules = record { rule_type = codes "subdomain"; pattern = codes "blog.org" } ∷ []

abbrev ann : ExtractedUserInfo
ann = record { user = codes "ann"; domain = codes "blog.org" }

extract_user_info_iff_example :
    (extract_user_info new_url blog_rules (codes "https://ann.blog.org/post") ≡ some ann)
    ↔ ((url : Url) × (some blog ≡ some url) × ReadsFirst url ann blog_rules)
extract_user_info_iff_example =
    extract_user_info_iff new_url blog_rules (codes "https://ann.blog.org/post") ann

-- `["a b",go]`, which is not JSON.
abbrev first_written : Written
first_written = record { in_quotes = true; name = codes "a b" }

abbrev second_written : Written
second_written = record { in_quotes = false; name = codes "go" }

first_written-IsName : IsName (codes "a b")
unfolding feed_reader.Common.Text.trim
first_written-IsName = record { filled = refl; trimmed = refl; one = (refl, (refl, (refl, tt))) }

second_written-IsName : IsName (codes "go")
unfolding feed_reader.Common.Text.trim
second_written-IsName = record { filled = refl; trimmed = refl; one = (refl, (refl, tt)) }

abbrev no_json : Text → Option (List (Option Text))
no_json s = none

normalize_categories-print_list_example :
    normalize_categories no_json (codes "[\"a b\",go]") ≡ codes "a b" ∷ codes "go" ∷ []
normalize_categories-print_list_example =
    normalize_categories-print_list no_json first_written (second_written ∷ [])
      ((first_written-IsName, refl), ((second_written-IsName, refl), tt)) (inl refl)
