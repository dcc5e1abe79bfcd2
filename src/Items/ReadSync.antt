-- ===== src/Items/ReadSync.antt =====
-- The query of the read states: its anchor and its result.
use feed_reader.Common.{
  ℕ, zero, suc, ◌≤◌, String, ◌≡◌, refl, ◌∙◌, ap, inl, inr, Option, none, some, List, [], ◌∷◌, ◌++◌,
  arith, some_inj, ◌==◌, string_eq, Bool-cases, Option-cases,
}
use feed_reader.Common.Int.{ℤ, ◌≤ℤ◌, ltb_ℤ}
use feed_reader.Common.Lists.{All, length}
use feed_reader.Common.Maps.{or_else}
use feed_reader.Items.Fetch.{SyncState}
use feed_reader.Items.Merge.{merge, merge_lem, latest, HasDistinctIds}
use feed_reader.Items.Reads.{
  ItemRead, read_id, OpenApiItemRead, ReadsRequest, ReadsPage, Progress, later_of, take_read,
  take_reads, reads_request, fetch_reads, advance, or_empty, finish_reads, reads_query_fn,
}
use feed_reader.Items.ReadPaging.{ServesReads, reads_of, fetch_reads_complete}

-- The newest time so far bounds the times of all reads so far.
abbrev Bounds : Option ℤ → List ItemRead → Type 0
Bounds none reads = reads ≡ []
Bounds (some m) reads = All (λ (r : ItemRead). r.updated_at ≤ℤ m) reads

All-append :
    (m n : ℤ) (reads : List ItemRead) (r : ItemRead)
    → m ≤ℤ n
    → r.updated_at ≤ℤ n
    → All (λ (r : ItemRead). r.updated_at ≤ℤ m) reads
    → All (λ (r : ItemRead). r.updated_at ≤ℤ n) (reads ++ r ∷ [])
All-append m n [] r h p all = (p, tt)
All-append m n (x ∷ reads) r h p (here, there) = (omega arith, All-append m n reads r h p there)

later_of-Bounds :
    (o : Option ℤ) (reads : List ItemRead) (r : ItemRead)
    → Bounds o reads
    → Bounds (later_of o r.updated_at) (reads ++ r ∷ [])
unfolding later_of
later_of-Bounds none reads r b = rw b (omega arith, tt)
later_of-Bounds (some m) reads r b = elim (Bool-cases (ltb_ℤ m r.updated_at)) [
  | inl e ↦ rw e (All-append m r.updated_at reads r (ground arith) (omega arith) b)
  | inr e ↦ rw e (All-append m m reads r (omega arith) (ground arith) b)
]

module _ (parse_date : String → Option ℤ) (anchor : ℤ) where
  take_reads-Bounds :
      (irs : List OpenApiItemRead) (p : Progress)
      → Bounds p.max_server_updated_at p.all_new_reads
      → Bounds
          (take_reads parse_date anchor p irs).max_server_updated_at
          (take_reads parse_date anchor p irs).all_new_reads
  unfolding take_reads take_read
  take_reads-Bounds [] p b = b
  take_reads-Bounds (ir ∷ irs) p b =
      take_reads-Bounds irs (take_read parse_date anchor p ir)
        (later_of-Bounds p.max_server_updated_at p.all_new_reads _ b)

  fetch_reads-Bounds :
      (item_reads_list : ReadsRequest → Option ReadsPage) (fuel : ℕ) (token : String)
      (p q : Progress)
      → Bounds p.max_server_updated_at p.all_new_reads
      → fetch_reads parse_date anchor item_reads_list fuel token p ≡ some q
      → Bounds q.max_server_updated_at q.all_new_reads
  unfolding fetch_reads
  fetch_reads-Bounds item_reads_list zero token p q b h = cc
  fetch_reads-Bounds item_reads_list (suc fuel) token p q b h =
      elim (Option-cases (item_reads_list (reads_request parse_date anchor token))) [
        | inl e ↦ cc (rw (e, fetch_reads) at h)
        | inr (page, e) ↦
            let step = rw (e, fetch_reads) at h in
            let here = take_reads-Bounds page.item_reads p b in
            elim (Bool-cases (page.next_page_token == "")) [
              | inl f ↦ rw (some_inj (rw f at step)) at here
              | inr f ↦
                  fetch_reads-Bounds item_reads_list fuel page.next_page_token
                    (take_reads parse_date anchor p page.item_reads) q here (rw f at step)
            ]
      ]

All-mono :
    (m n : ℤ) (reads : List ItemRead)
    → m ≤ℤ n
    → All (λ (r : ItemRead). r.updated_at ≤ℤ m) reads
    → All (λ (r : ItemRead). r.updated_at ≤ℤ n) reads
All-mono m n [] h all = tt
All-mono m n (x ∷ reads) h (here, there) = (omega arith, All-mono m n reads h there)

advance-covers :
    (anchor : ℤ) (newest : Option ℤ) (fresh : List ItemRead) (s : SyncState)
    → s.last_read_fetched ≡ some anchor
    → Bounds newest fresh
    → (b : ℤ) × ((advance anchor newest s).last_read_fetched ≡ some b)
      × (anchor ≤ℤ b)
      × All (λ (r : ItemRead). r.updated_at ≤ℤ b) fresh
      × ((advance anchor newest s).last_fetched_map ≡ s.last_fetched_map)
unfolding advance
advance-covers anchor none fresh s h b = (anchor, h, omega arith, rw b tt, refl)
advance-covers anchor (some m) fresh s h b = elim (Bool-cases (ltb_ℤ anchor m)) [
  | inl e ↦ rw e (m, refl, ground arith, b, refl)
  | inr e ↦ rw e (anchor, h, omega arith, All-mono m anchor fresh (ground arith) b, refl)
]

abbrev pub nothing_read : Progress
nothing_read = record { all_new_reads = []; max_server_updated_at = none }

-- What a query has done that began with these cached read states and read `fresh` from the server.
pub record IsReadSynced (anchor : ℤ) (cached : Option (List ItemRead)) (fresh : List ItemRead)
    (before after : SyncState) (reads : List ItemRead) : Type 0 where
  pub distinct : HasDistinctIds read_id reads
  pub latest_reads :
      (k : String)
      → latest read_id k reads
        ≡ or_else
            (latest read_id k fresh)
            (elim cached [ none ↦ none | some existing ↦ latest read_id k existing ])
  pub moved : ℤ
  pub anchor_moved : after.last_read_fetched ≡ some moved
  pub not_back : anchor ≤ℤ moved
  pub covers : All (λ (r : ItemRead). r.updated_at ≤ℤ moved) fresh
  pub item_anchors : after.last_fetched_map ≡ before.last_fetched_map

latest-or_empty :
    (k : String) (cached : Option (List ItemRead))
    → latest read_id k (or_empty cached)
      ≡ elim cached [ none ↦ none | some existing ↦ latest read_id k existing ]
unfolding or_empty latest
latest-or_empty k none = refl
latest-or_empty k (some existing) = refl

module _ (parse_date : String → Option ℤ) (item_reads_list : ReadsRequest → Option ReadsPage) where
  -- A query of the read states, begun at an anchor that still stands when its last page has come, of
  -- a server whose chain of pages ends, resolves within as many turns as there are pages. It
  -- returns each id once, under it the last state of the pages or else the last cached one, moves
  -- the anchor to a time no earlier than it was and no earlier than any state of the pages, and
  -- leaves the anchors of the items alone.
  pub reads_query_fn_lem :
      (fuel : ℕ) (cached : Option (List ItemRead)) (meanwhile : SyncState → SyncState)
      (s : SyncState) (anchor : ℤ) (pages : List ReadsPage)
      → s.last_read_fetched ≡ some anchor
      → (meanwhile s).last_read_fetched ≡ some anchor
      → ServesReads parse_date item_reads_list anchor "" pages
      → length pages ≤ fuel
      → (after : SyncState) × (reads : List ItemRead) × (reads_query_fn parse_date item_reads_list
            fuel cached meanwhile s
          ≡ some (after, reads))
        × IsReadSynced anchor cached
            (reads_of parse_date item_reads_list anchor pages)
            (meanwhile s)
            after
            reads
  unfolding reads_query_fn finish_reads
  reads_query_fn_lem fuel cached meanwhile s anchor pages set still served enough =
      let (q, ended, all) =
        fetch_reads_complete parse_date item_reads_list anchor served fuel nothing_read enough in
      let bounds =
        fetch_reads-Bounds parse_date anchor item_reads_list fuel "" nothing_read q refl ended in
      let (b, moved, later, covers, others) =
        advance-covers anchor q.max_server_updated_at q.all_new_reads (meanwhile s) still bounds in
      let merged = merge_lem read_id (or_empty cached) q.all_new_reads in
      (
        advance anchor q.max_server_updated_at (meanwhile s),
        merge read_id (or_empty cached) q.all_new_reads,
        ap
              (λ (o : Option ℤ). elim o [
                | none ↦ some (s, [])
                | some a ↦
                    finish_reads a (or_empty cached) (meanwhile s)
                      (fetch_reads parse_date a item_reads_list fuel "" nothing_read)
              ])
              set
            ∙ ap (finish_reads anchor (or_empty cached) (meanwhile s)) ended,
        record {
          distinct = merged.0;
          latest_reads = λ k. rw (← all, ← latest-or_empty k cached) (merged.1 k);
          moved = b;
          anchor_moved = moved;
          not_back = later;
          covers = rw (← all) covers;
          item_anchors = others;
        },
      )
