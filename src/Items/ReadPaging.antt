-- ===== src/Items/ReadPaging.antt =====
-- The loop over the pages of read states, against the chain of pages that the server serves.
use feed_reader.Common.{
  ℕ, zero, suc, ◌≤◌, String, ◌≡◌, ◌≢◌, map, append_assoc, append-nil, if◌then◌else◌, ==_iff, refl,
  sym, ◌∙◌, ap, inl, inr, Option, none, some, List, [], ◌∷◌, ◌++◌, arith, ◌==◌, string_eq,
  Bool-cases, Option-cases,
}
use feed_reader.Common.Int.{ℤ}
use feed_reader.Common.Lists.{length}
use feed_reader.Items.Reads.{
  ItemRead, OpenApiItemRead, ReadsRequest, ReadsPage, Progress, take_read, take_reads, fetch_reads,
}

-- A read state of the API, where a time that does not parse counts as the anchor.
abbrev pub read_of : (String → Option ℤ) → ℤ → OpenApiItemRead → ItemRead
read_of parse_date anchor ir = record {
  id = ir.item_id;
  is_read = ir.is_read;
  updated_at = elim (parse_date ir.updated_at) [ none ↦ anchor | some t ↦ t ];
}

module _ (parse_date : String → Option ℤ) (item_reads_list : ReadsRequest → Option ReadsPage)
    (anchor : ℤ) where
  -- The request with a token: the first one, which has none, carries the anchor.
  abbrev pub asked_reads : String → ReadsRequest
  asked_reads token = record {
    since = if token == "" then some anchor else none;
    page_token = token;
  }

  -- The pages from the request with a token on, as `Serves` of Items/Paging.
  pub data ServesReads : String → List ReadsPage → Type 0 where
    last_reads :
        {token : String} {page : ReadsPage}
        → item_reads_list (asked_reads token) ≡ some page
        → page.next_page_token ≡ ""
        → ServesReads token (page ∷ [])
    more_reads :
        {token : String} {page : ReadsPage} {pages : List ReadsPage}
        → item_reads_list (asked_reads token) ≡ some page
        → page.next_page_token ≢ ""
        → ServesReads page.next_page_token pages
        → ServesReads token (page ∷ pages)

  -- The read states of the pages, in order.
  abbrev pub reads_of : List ReadsPage → List ItemRead
  reads_of [] = []
  reads_of (page ∷ pages) = map (read_of parse_date anchor) page.item_reads ++ reads_of pages

  take_read-all_new_reads :
      (p : Progress) (ir : OpenApiItemRead)
      → (take_read parse_date anchor p ir).all_new_reads
        ≡ p.all_new_reads ++ read_of parse_date anchor ir ∷ []
  unfolding take_read
  take_read-all_new_reads p ir = elim (Option-cases (parse_date ir.updated_at)) [
    | inl e ↦ rw e refl
    | inr (t, e) ↦ rw e refl
  ]

  take_reads-all_new_reads :
      (irs : List OpenApiItemRead) (p : Progress)
      → (take_reads parse_date anchor p irs).all_new_reads
        ≡ p.all_new_reads ++ map (read_of parse_date anchor) irs
  unfolding take_reads
  take_reads-all_new_reads [] p = sym (append-nil p.all_new_reads)
  take_reads-all_new_reads (ir ∷ irs) p =
      take_reads-all_new_reads irs (take_read parse_date anchor p ir)
      ∙ rw (take_read-all_new_reads p ir) (append_assoc p.all_new_reads _ _)

  fetch_reads-some :
      (fuel : ℕ) (token : String) (p : Progress) (page : ReadsPage)
      → item_reads_list (asked_reads token) ≡ some page
      → fetch_reads parse_date anchor item_reads_list (suc fuel) token p ≡ (
          if page.next_page_token == ""
          then some (take_reads parse_date anchor p page.item_reads)
          else fetch_reads parse_date anchor item_reads_list fuel page.next_page_token
              (take_reads parse_date anchor p page.item_reads))
  unfolding fetch_reads
  fetch_reads-some fuel token p page e = rw (e, fetch_reads)

  -- A chain of pages that ends is read to its end, with the read states of all pages in order.
  pub fetch_reads_complete :
      {token : String} {pages : List ReadsPage} (served : ServesReads token pages) (fuel : ℕ)
      (p : Progress)
      → length pages ≤ fuel
      → (q : Progress) × (fetch_reads parse_date anchor item_reads_list fuel token p ≡ some q)
        × (q.all_new_reads ≡ p.all_new_reads ++ reads_of pages)
  fetch_reads_complete (last_reads answer ends) zero p h = absurd (omega arith)
  fetch_reads_complete (last_reads {token = t} {page = page} answer ends) (suc fuel) p h = (
    take_reads parse_date anchor p page.item_reads,
    fetch_reads-some fuel t p page answer ∙ rw ((==_iff page.next_page_token "").1 ends) refl,
    take_reads-all_new_reads page.item_reads p
        ∙ ap (λ (rs : List ItemRead). p.all_new_reads ++ rs) (sym (append-nil _)),
  )
  fetch_reads_complete (more_reads answer goes rest) zero p h = absurd (omega arith)
  fetch_reads_complete (more_reads {token = t} {page = page} {pages = pages} answer goes rest)
        (suc fuel) p h =
      let p' = take_reads parse_date anchor p page.item_reads in
      let (q, ended, all) = fetch_reads_complete rest fuel p' (omega (arith, h)) in
      (
        q,
        fetch_reads-some fuel t p page answer ∙ elim (Bool-cases (page.next_page_token == "")) [
          | inl e ↦ absurd (goes ((==_iff page.next_page_token "").0 e))
          | inr e ↦ rw e ended
        ],
        all ∙ rw (take_reads-all_new_reads page.item_reads p) (append_assoc p.all_new_reads _ _),
      )
