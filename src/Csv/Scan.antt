-- ===== src/Csv/Scan.antt =====
-- `parseCSVRows`: a scanner with one code unit of lookahead.
use feed_reader.Common.{
  ℕ, ◌≡◌, refl, Bool, true, false, not, ◌&&◌, ◌||◌, Option, none, some, List, [], ◌∷◌, ◌++◌,
  if◌then◌else◌, ◌==◌, nat_eq,
}
use feed_reader.Common.Text.{Text, codes}

-- The local variables of `parseCSVRows`.
pub record Scanner : Type 0 where
  pub rows : List (List Text)
  pub current_row : List Text
  pub current_field : Text
  pub in_quotes : Bool

unfoldable pub push_field : Scanner → Scanner
push_field s = record s { current_row = s.current_row ++ s.current_field ∷ []; current_field = [] }

unfoldable pub keep_row : List (List Text) → List Text → List (List Text)
keep_row rows [] = rows
keep_row rows (f ∷ fs) = rows ++ (f ∷ fs) ∷ []

unfoldable pub push_row : Scanner → Scanner
unfolding keep_row
push_row s = record s { rows = keep_row s.rows s.current_row; current_row = [] }

is_unit : ℕ → Option ℕ → Bool
is_unit c none = false
is_unit c (some d) = d == c

-- One turn of the loop at `char`, with the unit after it. The flag tells that the turn also
-- consumes that unit (`i++` in its body).
unfoldable pub step : Scanner → ℕ → Option ℕ → Scanner × Bool
unfolding push_field push_row is_unit
step s char next =
    if char == b'"'
    then if s.in_quotes && is_unit b'"' next
      then (record s { current_field = s.current_field ++ b'"' ∷ [] }, true)
      else (record s { in_quotes = not s.in_quotes }, false)
    else if char == b',' && not s.in_quotes
    then (push_field s, false)
    else if (char == 10 || char == 13) && not s.in_quotes
    then (push_row (push_field s), (char == 13) && is_unit 10 next)
    else (record s { current_field = s.current_field ++ char ∷ [] }, false)

unfoldable pub scan : Scanner → Text → Scanner
unfolding step
scan s [] = s
scan s (char ∷ []) = (step s char none).0
scan s (char ∷ next ∷ text) =
    let turn = step s char (some next) in
    let skipping = scan turn.0 text in
    let going_on = scan turn.0 (next ∷ text) in if turn.1 then skipping else going_on

abbrev pub start : Scanner
start = record { rows = []; current_row = []; current_field = []; in_quotes = false }

unfoldable pub parse_csv_rows : Text → List (List Text)
unfolding scan
parse_csv_rows csv = (push_row (push_field (scan start csv))).rows

quoted_test :
    parse_csv_rows (codes "a,\"b,\"\"c\"\r\n\nx")
    ≡ (codes "a" ∷ codes "b,\"c" ∷ []) ∷ ([] ∷ []) ∷ (codes "x" ∷ []) ∷ []
unfolding parse_csv_rows
quoted_test = refl
