-- ===== src/Items/Paging.antt =====
-- The loop over the pages, against the chain of pages that the server serves.
use feed_reader.Common.{
  ℕ, zero, suc, ◌≤◌, String, ◌≡◌, ◌≢◌, ap, sym, ◌∙◌, Option, none, some, List, [], ◌∷◌, ◌++◌, map,
  append_assoc, append-nil, arith, if◌then◌else◌, ◌==◌, ==_iff, string_eq, Bool-cases, Option-cases,
  some_inj, inl, inr,
}
use feed_reader.Common.Int.{ℤ}
use feed_reader.Common.Lists.{length}
use feed_reader.Items.{Item, map_open_api_item}
use feed_reader.Items.Fetch.{ListRequest, ListPage, fetch_pages}

module _ (parse_date : String → Option ℤ) (items_list : ListRequest → Option ListPage) where
  -- The pages from a request on: each is the answer to the request with the token of the page
  -- before it, and the last one has no token.
  pub data Serves : ListRequest → List ListPage → Type 0 where
    last :
        {request : ListRequest} {page : ListPage}
        → items_list request ≡ some page
        → page.next_page_token ≡ ""
        → Serves request (page ∷ [])
    more :
        {request : ListRequest} {page : ListPage} {pages : List ListPage}
        → items_list request ≡ some page
        → page.next_page_token ≢ ""
        → Serves (record request { page_token = page.next_page_token }) pages
        → Serves request (page ∷ pages)

  -- The items of the pages, in order.
  abbrev pub items_of : List ListPage → List Item
  items_of [] = []
  items_of (page ∷ pages) = map (map_open_api_item parse_date) page.items ++ items_of pages

  abbrev with_token : ListRequest → String → ListRequest
  with_token request token = record request { page_token = token }

  abbrev read_page : List Item → ListPage → List Item
  read_page so_far page = so_far ++ map (map_open_api_item parse_date) page.items

  fetch_pages-none :
      (fuel : ℕ) (request : ListRequest) (so_far : List Item)
      → items_list request ≡ none
      → fetch_pages parse_date items_list (suc fuel) request so_far ≡ none
  unfolding fetch_pages
  fetch_pages-none fuel request so_far e = rw (e, fetch_pages)

  fetch_pages-some :
      (fuel : ℕ) (request : ListRequest) (so_far : List Item) (page : ListPage)
      → items_list request ≡ some page
      → fetch_pages parse_date items_list (suc fuel) request so_far ≡ (
          if page.next_page_token == ""
          then some (read_page so_far page)
          else fetch_pages parse_date items_list fuel
              (with_token request page.next_page_token)
              (read_page so_far page))
  unfolding fetch_pages
  fetch_pages-some fuel request so_far page e = rw (e, fetch_pages)

  -- If the server's chain of pages ends, the loop ends within as many turns and returns the items
  -- of all pages in order.
  pub fetch_pages_complete :
      {request : ListRequest} {pages : List ListPage} (served : Serves request pages) (fuel : ℕ)
      (so_far : List Item)
      → length pages ≤ fuel
      → fetch_pages parse_date items_list fuel request so_far ≡ some (so_far ++ items_of pages)
  fetch_pages_complete (last {request = r} {page = page} answer ends) zero so_far h =
      absurd (omega arith)
  fetch_pages_complete (last {request = r} {page = page} answer ends) (suc fuel) so_far h =
      fetch_pages-some fuel r so_far page answer
      ∙ rw ((==_iff page.next_page_token "").1 ends)
          (ap (λ xs. some (so_far ++ xs)) (sym (append-nil _)))
  fetch_pages_complete (more {request = r} {page = page} answer goes rest) zero so_far h =
      absurd (omega arith)
  fetch_pages_complete (more {request = r} {page = page} {pages = pages} answer goes rest)
        (suc fuel) so_far h =
      fetch_pages-some fuel r so_far page answer ∙ elim (Bool-cases (page.next_page_token == "")) [
        | inl e ↦ absurd (goes ((==_iff page.next_page_token "").0 e))
        | inr e ↦ rw e (
            fetch_pages_complete rest fuel (read_page so_far page) (omega arith)
            ∙ ap some (append_assoc so_far _ _))
      ]

  -- What the loop returns is the items of a chain of pages that the server served.
  fetch_pages_sound :
      (fuel : ℕ) (request : ListRequest) (so_far items : List Item)
      → fetch_pages parse_date items_list fuel request so_far ≡ some items
      → (pages : List ListPage) × Serves request pages × (items ≡ so_far ++ items_of pages)
  unfolding fetch_pages
  fetch_pages_sound zero request so_far items h = cc
  fetch_pages_sound (suc fuel) request so_far items h = elim (Option-cases (items_list request)) [
    | inl e ↦ cc (fetch_pages-none fuel request so_far e)
    | inr (page, e) ↦
        let step = sym (fetch_pages-some fuel request so_far page e) ∙ h in
        elim (Bool-cases (page.next_page_token == "")) [
          | inl f ↦
              let read = rw f at step in
              (
                page ∷ [],
                last e ((==_iff page.next_page_token "").0 f),
                sym (some_inj read) ∙ ap (λ xs. so_far ++ xs) (sym (append-nil _)),
              )
          | inr f ↦
              let (pages, served, same) =
                fetch_pages_sound fuel (with_token request page.next_page_token)
                  (read_page so_far page) items (rw f at step) in
              (
                page ∷ pages,
                more e (λ p. cc ((==_iff page.next_page_token "").1 p)) served,
                same ∙ append_assoc so_far _ _,
              )
        ]
  ]
