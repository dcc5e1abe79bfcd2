-- ===== src/Detail/ReadToggle/Rollback.antt =====
-- What the handler of the read state leaves in the caches, whatever the server answers.
use feed_reader.Common.{
  String, ◌≡◌, refl, ap, sym, ◌∙◌, Bool, true, false, not, Option, none, some, List, [], ◌∷◌,
  if◌then◌else◌, ◌==◌, ==_refl, ==_iff, string_eq, Bool-cases, inl, inr,
}
use feed_reader.Common.Int.{ℤ}
use feed_reader.Common.Lists.{find?}
use feed_reader.Common.Maps.{Dict, get, set, get-set}
use feed_reader.Items.{Item}
use feed_reader.Items.Merge.{latest, HasDistinctIds}
use feed_reader.Items.Reads.{ItemRead, read_id, or_empty, update_item_read_status}
use feed_reader.Items.ReadRollback.{
  new_state, find_read-latest, update_item_read_status-HasDistinctIds, update_item_read_status_lem,
}
use feed_reader.Detail.ReadToggle.{
  marked_as_read, marked_as_unread, Announcement, read_or, prioritized_item, ToggleState, put_read,
  with_is_read, toggle_item, handle_toggle_read,
}

-- The read state that the modal shows.
abbrev pub shown_state : Option Item → Option Bool
shown_state none = none
shown_state (some i) = some i.is_read

find_read : String → List ItemRead → Option ItemRead
find_read k reads = find? (λ (r : ItemRead). r.id == k) reads

-- The read state that the cached read states and the item itself come to.
abbrev pub state_of : Item → List ItemRead → Bool
state_of i reads = read_or (find? (λ (r : ItemRead). r.id == i.id) reads) i.is_read

abbrev pub shown_by : String → ToggleState → Option Bool
shown_by id s = shown_state (prioritized_item (get id s.cached_items) s.cached_reads)

abbrev pub as_read : Bool → Option Item → Option Item
as_read is_read none = none
as_read is_read (some i) = some (record i { is_read = is_read })

abbrev pub is_at : Option String → String → Bool
is_at none k = false
is_at (some id) k = id == k

get-put_read :
    (is_read : Bool) (id : String) (o : Option Item) (items : Dict Item) (k : String)
    → get id items ≡ o
    → get k (put_read is_read id o items) ≡ (if id == k then as_read is_read o else get k items)
unfolding put_read
get-put_read is_read id none items k e = elim (Bool-cases (id == k)) [
  | inl f ↦ rw f (rw ((==_iff id k).0 f) at e)
  | inr f ↦ rw f refl
]
get-put_read is_read id (some old) items k e = get-set id k (record old { is_read = is_read }) items

get-with_is_read :
    (is_read : Bool) (id : String) (items : Dict Item) (k : String)
    → get k (with_is_read is_read id items)
      ≡ (if id == k then as_read is_read (get k items) else get k items)
unfolding with_is_read
get-with_is_read is_read id items k =
    get-put_read is_read id (get id items) items k refl
    ∙ elim (Bool-cases (id == k)) [ inl f ↦ rw (f, (==_iff id k).0 f) refl | inr f ↦ rw f refl ]

module _ (i : Item) (existing : List ItemRead) (now : ℤ) (said : Announcement)
    (distinct : HasDistinctIds read_id existing) where
  call : Bool → List ItemRead
  call accepted =
      (update_item_read_status (i.id ∷ []) (not (state_of i existing)) now accepted (λ r. r)
        (some existing)).0

  found : (accepted : Bool) → find_read i.id (call accepted) ≡ latest read_id i.id (call accepted)
  unfolding call find_read
  found accepted = find_read-latest i.id (call accepted) (
      update_item_read_status-HasDistinctIds (i.id ∷ []) (not (state_of i existing)) now accepted
        existing)

  found_accepted :
      find_read i.id (call true) ≡ some (new_state (not (state_of i existing)) now i.id)
  unfolding call
  found_accepted =
      found true
      ∙ (update_item_read_status_lem (i.id ∷ []) (not (state_of i existing)) now existing (λ r. r)
          distinct i.id).0
      ∙ rw (==_refl i.id) refl

  found_refused : find_read i.id (call false) ≡ find_read i.id existing
  unfolding call find_read
  found_refused =
      found false
      ∙ (update_item_read_status_lem (i.id ∷ []) (not (state_of i existing)) now existing (λ r. r)
          distinct i.id).1
      ∙ rw (==_refl i.id) (sym (find_read-latest i.id existing distinct))

read_or-twice : (o : Option ItemRead) (b : Bool) → read_or o (read_or o b) ≡ read_or o b
read_or-twice none b = refl
read_or-twice (some r) b = refl

-- The caches when the handler is called, with an item loaded.
abbrev pub loaded : Dict Item → List ItemRead → Announcement → ToggleState
loaded items existing said = record {
  cached_items = items;
  cached_reads = some existing;
  announcement = said;
}

module _ (items : Dict Item) (item_id : String) (i : Item) (existing : List ItemRead) (now : ℤ)
    (said : Announcement) (cached : get item_id items ≡ some i)
    (no_end : (item_id == "end-of-list") ≡ false) where
  started :
      (later_id : Option String) (accepted : Bool) (meanwhile : List ItemRead → List ItemRead)
      (loads : Dict Item → Dict Item)
      → handle_toggle_read item_id later_id now accepted meanwhile loads
          (loaded items existing said)
        ≡ toggle_item
            (record i { is_read = state_of i existing })
            item_id
            later_id
            now
            accepted
            meanwhile
            loads
            (loaded items existing said)
  unfolding handle_toggle_read prioritized_item or_empty
  started later_id accepted meanwhile loads =
      ap
        (λ (o : Option Item). elim (prioritized_item o (some existing)) [
          | none ↦ loaded items existing said
          | some current ↦
              if item_id == "end-of-list"
              then loaded items existing said
              else toggle_item current item_id later_id now accepted meanwhile loads
                  (loaded items existing said)
        ])
        cached
      ∙ rw no_end refl

  marked : Bool → Dict Item
  marked is_read = set item_id (record i { is_read = is_read }) items

  with_is_read-marked : (is_read : Bool) → with_is_read is_read item_id items ≡ marked is_read
  unfolding with_is_read put_read marked
  with_is_read-marked is_read = ap (λ (o : Option Item). put_read is_read item_id o items) cached

shown_from :
    (i : Item) (b : Bool) (o : Option Item) (reads : List ItemRead) (r : Option ItemRead)
    → o ≡ some (record i { is_read = b })
    → find_read i.id reads ≡ r
    → shown_state (prioritized_item o (some reads)) ≡ some (read_or r b)
unfolding prioritized_item or_empty find_read
shown_from i b o reads r here found =
    ap (λ (q : Option Item). shown_state (prioritized_item q (some reads))) here
    ∙ ap (λ (q : Option ItemRead). some (read_or q b)) found

get-rolled_back :
    (b : Bool) (later_id : Option String) (waiting : Dict Item) (k : String)
    → get k (elim later_id [ none ↦ waiting | some id ↦ with_is_read b id waiting ])
      ≡ (if is_at later_id k then as_read b (get k waiting) else get k waiting)
get-rolled_back b none waiting k = refl
get-rolled_back b (some id) waiting k = get-with_is_read b id waiting k

-- The handler turns the read state shown of a loaded item, where the cached read states have distinct
-- ids. The item's cached copy has the new state while the server is awaited, whatever `loads` others
-- then do to the cached items, and keeps it if the server accepts, which is announced. If the server
-- refuses, the item's cached read state, or the lack of one, is as before and nothing is announced; but the
-- old state is put into the cached copy of the item that is on view by then, be it another one, and
-- every other copy stays, that of an item moved away from with the state that was refused. If the
-- view stays and nobody else writes the caches, what is shown is the turned state if the server
-- accepts and the old one if it refuses.
pub handle_toggle_read_lem :
    (items : Dict Item) (item_id : String) (i : Item) (existing : List ItemRead) (now : ℤ)
    (said : Announcement) (later_id : Option String) (meanwhile : List ItemRead → List ItemRead)
    (loads : Dict Item → Dict Item)
    → get item_id items ≡ some i
    → (item_id == "end-of-list") ≡ false
    → HasDistinctIds read_id existing
    → let was = state_of i existing in
      let waiting = loads (set item_id (record i { is_read = not was }) items) in
      let start = loaded items existing said in
      let run = λ (accepted : Bool).
        handle_toggle_read item_id later_id now accepted meanwhile loads start in
      let quiet = λ (accepted : Bool).
        handle_toggle_read item_id (some item_id) now accepted (λ r. r) (λ m. m) start in
      ((run true).cached_items ≡ waiting)
      × ((run true).announcement ≡ (if not was then marked_as_read else marked_as_unread))
      × ((k : String)
          → get k (run false).cached_items
            ≡ (if is_at later_id k then as_read was (get k waiting) else get k waiting))
      × (latest read_id i.id (or_empty (run false).cached_reads) ≡ latest read_id i.id existing)
      × ((run false).announcement ≡ said)
      × (shown_by item_id (quiet true) ≡ some (not was))
      × (shown_by item_id (quiet false) ≡ some was)
unfolding toggle_item or_empty marked update_item_read_status call find_read
handle_toggle_read_lem items item_id i existing now said later_id meanwhile loads cached no_end
      distinct =
    let was = state_of i existing in
    let calls = started items item_id i existing now said cached no_end in
    let copy = with_is_read-marked items item_id i existing now said cached no_end (not was) in
    let here : get item_id (with_is_read (not was) item_id items)
        ≡ some (record i { is_read = not was }) =
      ap (get item_id) copy
      ∙ get-set item_id item_id (record i { is_read = not was }) items
      ∙ rw (==_refl item_id) refl in
    let back : get item_id (with_is_read was item_id (with_is_read (not was) item_id items))
        ≡ some (record i { is_read = was }) =
      get-with_is_read was item_id (with_is_read (not was) item_id items) item_id
      ∙ rw (==_refl item_id) (ap (as_read was) here) in
    (
      ap (λ (s : ToggleState). s.cached_items) (calls later_id true meanwhile loads)
          ∙ ap loads copy,
      ap (λ (s : ToggleState). s.announcement) (calls later_id true meanwhile loads),
      λ k.
          ap (λ (s : ToggleState). get k s.cached_items) (calls later_id false meanwhile loads)
          ∙ get-rolled_back was later_id (loads (with_is_read (not was) item_id items)) k
          ∙ ap
              (λ (m : Dict Item).
                if is_at later_id k then as_read was (get k (loads m)) else get k (loads m))
              copy,
      ap (λ (s : ToggleState). latest read_id i.id (or_empty s.cached_reads))
            (calls later_id false meanwhile loads)
          ∙ (update_item_read_status_lem (i.id ∷ []) (not was) now existing meanwhile distinct
              i.id).1
          ∙ rw (==_refl i.id) refl,
      ap (λ (s : ToggleState). s.announcement) (calls later_id false meanwhile loads),
      ap (shown_by item_id) (calls (some item_id) true (λ r. r) (λ m. m))
          ∙ shown_from i (not was) _ _ _ here (found_accepted i existing now said distinct),
      ap (shown_by item_id) (calls (some item_id) false (λ r. r) (λ m. m))
          ∙ shown_from i was _ _ _ back (found_refused i existing now said distinct)
          ∙ ap some (read_or-twice (find_read i.id existing) i.is_read),
    )
