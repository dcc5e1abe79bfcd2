-- ===== src/Csv/RoundTrip.antt =====
-- A printer of quoted CSV, and what `parseCSVRows` reads back from it.
use feed_reader.Common.{
  ℕ, ◌≡◌, refl, ap, ◌∙◌, ◌≢◌, Bool, true, false, List, [], ◌∷◌, ◌++◌, arith, append_assoc,
  append-nil, if◌then◌else◌, ◌==◌, ==_iff, nat_eq, Bool-cases, inl, inr,
}
use feed_reader.Common.Text.{Text}
use feed_reader.Csv.Scan.{Scanner, push_field, push_row, step, scan, keep_row, parse_csv_rows}

-- The field with its quotes doubled, and the closing quote.
pub quoted_tail : Text → Text → Text
quoted_tail [] rest = b'"' ∷ rest
quoted_tail (c ∷ t) rest =
    let more = quoted_tail t rest in if c == b'"' then b'"' ∷ b'"' ∷ more else c ∷ more

pub data LineEnd : Type 0 where
  lf cr crlf : LineEnd

abbrev pub line_end : LineEnd → Text → Text
line_end lf rest = 10 ∷ rest
line_end cr rest = 13 ∷ rest
line_end crlf rest = 13 ∷ 10 ∷ rest

-- The fields after the first one of a row, each behind its comma.
pub print_more : List Text → Text → Text
print_more [] rest = rest
print_more (f ∷ fs) rest = b',' ∷ b'"' ∷ quoted_tail f (print_more fs rest)

-- A row is its first field and the others.
abbrev pub Row : Type 0
Row = Text × List Text

abbrev print_row : Row → Text → Text
print_row (f, fs) rest = b'"' ∷ quoted_tail f (print_more fs rest)

-- Further rows, each behind a line end, and what follows the last row.
pub print_rows_to : Row → List (LineEnd × Row) → Text → Text
print_rows_to row [] rest = print_row row rest
print_rows_to row ((e, next) ∷ more) rest =
    print_row row (line_end e (print_rows_to next more rest))

-- Rows with line ends between them, and the same with a line end behind the last row too.
pub print_rows : Row → List (LineEnd × Row) → Text
unfolding print_rows_to
print_rows row more = print_rows_to row more []

pub print_lines : Row → List (LineEnd × Row) → LineEnd → Text
unfolding print_rows_to
print_lines row more e = print_rows_to row more (line_end e [])

abbrev fields : Row → List Text
fields (f, fs) = f ∷ fs

abbrev pub all_fields : List (LineEnd × Row) → List (List Text)
all_fields [] = []
all_fields ((_, row) ∷ more) = fields row ∷ all_fields more

-- The text does not begin with a quote.
abbrev NoQuote : Text → Type 0
NoQuote [] = Unit
NoQuote (c ∷ _) = c ≢ b'"'

abbrev at : List (List Text) → List Text → Text → Bool → Scanner
at rows row field q = record {
  rows = rows;
  current_row = row;
  current_field = field;
  in_quotes = q;
}

module _ (rows : List (List Text)) (row : List Text) where
  scan-close :
      (f rest : Text)
      → NoQuote rest
      → scan (at rows row f true) (b'"' ∷ rest) ≡ scan (at rows row f false) rest
  unfolding scan step
  scan-close f [] h = refl
  scan-close f (c ∷ rest) h = ground arith

  scan-char :
      (f : Text) (c : ℕ) (rest : Text)
      → c ≢ b'"'
      → scan (at rows row f true) (c ∷ rest) ≡ scan (at rows row (f ++ c ∷ []) true) rest
  unfolding scan step
  scan-char f c [] h = ground arith
  scan-char f c (d ∷ rest) h = ground arith

  scan-escaped :
      (f rest : Text)
      → scan (at rows row f true) (b'"' ∷ b'"' ∷ rest)
        ≡ scan (at rows row (f ++ b'"' ∷ []) true) rest
  unfolding scan step
  scan-escaped f [] = refl
  scan-escaped f (c ∷ rest) = refl

  -- Inside quotes the scanner reads the field back and stops at the closing quote.
  scan-quoted_tail :
      (f t rest : Text)
      → NoQuote rest
      → scan (at rows row f true) (quoted_tail t rest) ≡ scan (at rows row (f ++ t) false) rest
  unfolding quoted_tail
  scan-quoted_tail f [] rest h = rw append-nil (scan-close f rest h)
  scan-quoted_tail f (c ∷ t) rest h = elim (Bool-cases (c == b'"')) [
    | inl e ↦ rw e (
        scan-escaped f (quoted_tail t rest)
        ∙ scan-quoted_tail (f ++ b'"' ∷ []) t rest h
        ∙ rw ((==_iff c b'"').0 e, append_assoc) refl)
    | inr e ↦ rw e (
        scan-char f c (quoted_tail t rest) (ground arith)
        ∙ scan-quoted_tail (f ++ c ∷ []) t rest h
        ∙ rw append_assoc refl)
  ]

  scan-open :
      (rest : Text) → scan (at rows row [] false) (b'"' ∷ rest) ≡ scan (at rows row [] true) rest
  unfolding scan step
  scan-open [] = refl
  scan-open (c ∷ rest) = refl

  scan-comma :
      (f rest : Text)
      → scan (at rows row f false) (b',' ∷ rest) ≡ scan (at rows (row ++ f ∷ []) [] false) rest
  unfolding scan step push_field
  scan-comma f [] = refl
  scan-comma f (c ∷ rest) = refl

  -- A quoted field at the start of a field.
  scan-field :
      (t rest : Text)
      → NoQuote rest
      → scan (at rows row [] false) (b'"' ∷ quoted_tail t rest) ≡ scan (at rows row t false) rest
  scan-field t rest h = scan-open (quoted_tail t rest) ∙ scan-quoted_tail [] t rest h

keep_row-append :
    (rows : List (List Text)) (row : List Text) (f : Text)
    → keep_row rows (row ++ f ∷ []) ≡ rows ++ (row ++ f ∷ []) ∷ []
unfolding keep_row
keep_row-append rows [] f = refl
keep_row-append rows (_ ∷ _) f = refl

-- The end of a row, before a row that begins with a quote.
scan-line_end :
    (rows : List (List Text)) (row : List Text) (f : Text) (e : LineEnd) (rest : Text)
    → scan (at rows row f false) (line_end e (b'"' ∷ rest))
      ≡ scan (at (rows ++ (row ++ f ∷ []) ∷ []) [] [] false) (b'"' ∷ rest)
unfolding scan step push_field push_row
scan-line_end rows row f lf rest = rw (keep_row-append rows row f)
scan-line_end rows row f cr rest = rw (keep_row-append rows row f)
scan-line_end rows row f crlf rest = rw (keep_row-append rows row f)

print_more-NoQuote : (fs : List Text) (rest : Text) → NoQuote rest → NoQuote (print_more fs rest)
unfolding print_more
print_more-NoQuote [] rest h = h
print_more-NoQuote (f ∷ fs) rest h = omega arith

-- The row's fields but the last, which is still in `current_field`.
scan-print_more :
    (rows : List (List Text)) (row : List Text) (f : Text) (fs : List Text) (rest : Text)
    → NoQuote rest
    → (row' : List Text) × (f' : Text) × (row' ++ f' ∷ [] ≡ row ++ f ∷ fs)
      × (scan (at rows row f false) (print_more fs rest) ≡ scan (at rows row' f' false) rest)
unfolding print_more
scan-print_more rows row f [] rest h = (row, f, refl, refl)
scan-print_more rows row f (g ∷ fs) rest h =
    let (row', f', same, run) = scan-print_more rows (row ++ f ∷ []) g fs rest h in
    (
      row',
      f',
      same ∙ append_assoc row (f ∷ []) (g ∷ fs),
      scan-comma rows row f (b'"' ∷ quoted_tail g (print_more fs rest))
          ∙ scan-field rows (row ++ f ∷ []) g (print_more fs rest) (print_more-NoQuote fs rest h)
          ∙ run,
    )

scan-print_row :
    (rows : List (List Text)) (row : Row) (rest : Text)
    → NoQuote rest
    → (row' : List Text) × (f' : Text) × (row' ++ f' ∷ [] ≡ fields row)
      × (scan (at rows [] [] false) (print_row row rest) ≡ scan (at rows row' f' false) rest)
scan-print_row rows (f, fs) rest h =
    let (row', f', same, run) = scan-print_more rows [] f fs rest h in
    (row', f', same, scan-field rows [] f (print_more fs rest) (print_more-NoQuote fs rest h) ∙ run)

abbrev finish : Scanner → List (List Text)
finish s = (push_row (push_field s)).rows

line_end-NoQuote : (e : LineEnd) (rest : Text) → NoQuote (line_end e rest)
line_end-NoQuote lf rest = omega arith
line_end-NoQuote cr rest = omega arith
line_end-NoQuote crlf rest = omega arith

print_rows_to-quote :
    (row : Row) (more : List (LineEnd × Row)) (rest : Text)
    → (t : Text) × (print_rows_to row more rest ≡ b'"' ∷ t)
unfolding print_rows_to
print_rows_to-quote row [] rest = (_, refl)
print_rows_to-quote row (_ ∷ _) rest = (_, refl)

scan-next_row :
    (rows : List (List Text)) (row : List Text) (f : Text) (e : LineEnd) (next : Row)
    (more : List (LineEnd × Row)) (rest : Text)
    → scan (at rows row f false) (line_end e (print_rows_to next more rest))
      ≡ scan (at (rows ++ (row ++ f ∷ []) ∷ []) [] [] false) (print_rows_to next more rest)
scan-next_row rows row f e next more rest =
    let (t, begins) = print_rows_to-quote next more rest in rw begins (scan-line_end rows row f e t)

-- Before what follows the last row all rows are read but the last field's end.
scan-print_rows_to :
    (rows : List (List Text)) (row : Row) (more : List (LineEnd × Row)) (rest : Text)
    → NoQuote rest
    → (rows' : List (List Text)) × (row' : List Text) × (f' : Text) × (rows'
          ++ (row' ++ f' ∷ []) ∷ []
        ≡ rows ++ fields row ∷ all_fields more)
      × (scan (at rows [] [] false) (print_rows_to row more rest)
          ≡ scan (at rows' row' f' false) rest)
unfolding print_rows_to
scan-print_rows_to rows row [] rest h =
    let (row', f', same, run) = scan-print_row rows row rest h in
    (rows, row', f', ap (λ r. rows ++ r ∷ []) same, run)
scan-print_rows_to rows row ((e, next) ∷ more) rest h =
    let text = print_rows_to next more rest in
    let (row', f', same, run) =
      scan-print_row rows row (line_end e text) (line_end-NoQuote e text) in
    let rows' = rows ++ (row' ++ f' ∷ []) ∷ [] in
    let (last_rows, last_row, last_field, all, ran) = scan-print_rows_to rows' next more rest h in
    (
      last_rows,
      last_row,
      last_field,
      all
          ∙ append_assoc rows ((row' ++ f' ∷ []) ∷ []) (fields next ∷ all_fields more)
          ∙ ap (λ r. rows ++ r ∷ fields next ∷ all_fields more) same,
      run ∙ scan-next_row rows row' f' e next more rest ∙ ran,
    )

scan-last_end :
    (rows : List (List Text)) (row : List Text) (f : Text) (e : LineEnd)
    → finish (scan (at rows row f false) (line_end e []))
      ≡ (rows ++ (row ++ f ∷ []) ∷ []) ++ ([] ∷ []) ∷ []
unfolding scan step push_field push_row keep_row
scan-last_end rows row f lf = rw (keep_row-append rows row f)
scan-last_end rows row f cr = rw (keep_row-append rows row f)
scan-last_end rows row f crlf = rw (keep_row-append rows row f)

-- Quoted CSV reads back: whatever units the fields hold, quotes, commas and line ends included, and
-- whichever of LF, CR and CRLF stands between two rows, the parser returns the rows that were printed.
-- With a line end behind the last row too it returns one more row, of one empty field.
pub parse_csv_rows-print_rows :
    (row : Row) (more : List (LineEnd × Row))
    → (parse_csv_rows (print_rows row more) ≡ fields row ∷ all_fields more)
      × ((e : LineEnd)
          → parse_csv_rows (print_lines row more e)
            ≡ (fields row ∷ all_fields more) ++ ([] ∷ []) ∷ [])
unfolding parse_csv_rows print_rows print_lines push_field push_row scan
parse_csv_rows-print_rows row more = (
  (let (rows, last_row, last_field, all, ran) = scan-print_rows_to [] row more [] tt in
      ap finish ran ∙ keep_row-append rows last_row last_field ∙ all),
  λ e.
      let (rows, last_row, last_field, all, ran) =
        scan-print_rows_to [] row more (line_end e []) (line_end-NoQuote e []) in
      ap finish ran
      ∙ scan-last_end rows last_row last_field e
      ∙ ap (λ (rs : List (List Text)). rs ++ ([] ∷ []) ∷ []) all,
)
