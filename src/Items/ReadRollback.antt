-- ===== src/Items/ReadRollback.antt =====
-- What `updateItemReadStatus` leaves in the cache, whether the server accepts the change or not.
use feed_reader.Common.{
  String, ◌≡◌, refl, ◌∙◌, Bool, true, false, Option, none, some, List, [], ◌∷◌, map, arith,
  if◌then◌else◌, ◌==◌, ==_iff, string_eq,
}
use feed_reader.Common.Int.{ℤ}
use feed_reader.Common.Lists.{includes, filter, find?}
use feed_reader.Common.Maps.{Dict, values, get, set, delete, get-set, get-delete}
use feed_reader.Items.Merge.{
  put_all, latest, HasDistinctIds, IsFiled, set-IsFiled, put_all-IsFiled, latest-values,
  values-HasDistinctIds, get-put_all, or_else-none,
}
use feed_reader.Items.Reads.{
  ItemRead, read_id, mark_reads, put_back, restore_reads, or_empty, update_item_read_status,
}

abbrev pub new_state : Bool → ℤ → String → ItemRead
new_state is_read now id = record { id = id; is_read = is_read; updated_at = now }

-- The first state with the id.
abbrev find_read : String → List ItemRead → Option ItemRead
find_read k reads = find? (λ (s : ItemRead). s.id == k) reads

module _ (is_read : Bool) (now : ℤ) where
  get-mark_reads :
      (ids : List String) (m : Dict ItemRead) (k : String)
      → get k (mark_reads ids is_read now m)
        ≡ (if includes ids k then some (new_state is_read now k) else get k m)
  unfolding mark_reads
  get-mark_reads [] m k = refl
  get-mark_reads (id ∷ ids) m k = ground (
    arith,
    get-mark_reads ids (set id (new_state is_read now id) m) k,
    get-set id k (new_state is_read now id) m,
    ==_iff id k,
  )

  mark_reads-IsFiled :
      (ids : List String) (m : Dict ItemRead)
      → IsFiled read_id m
      → IsFiled read_id (mark_reads ids is_read now m)
  unfolding mark_reads
  mark_reads-IsFiled [] m f = f
  mark_reads-IsFiled (id ∷ ids) m f =
      mark_reads-IsFiled ids (set id (new_state is_read now id) m)
        (set-IsFiled read_id (new_state is_read now id) m f)

delete-none : (k j : String) (m : Dict ItemRead) → get j m ≡ none → get j (delete k m) ≡ none
delete-none k j m h = get-delete k j m ∙ ground arith

delete-IsFiled : (k : String) (m : Dict ItemRead) → IsFiled read_id m → IsFiled read_id (delete k m)
unfolding delete
delete-IsFiled k [] f = tt
delete-IsFiled k ((j, r) ∷ m) (same, fresh, f) =
    ground (arith, delete-IsFiled k m f, delete-none k j m fresh)

-- The states that the call remembers: those of the named ids.
find_read-filter :
    (ids : List String) (k : String) (reads : List ItemRead)
    → find_read k (filter (λ d. includes ids d.id) reads)
      ≡ (if includes ids k then find_read k reads else none)
find_read-filter ids k [] = ground arith
find_read-filter ids k (r ∷ reads) = ground (arith, ==_iff r.id k, find_read-filter ids k reads)

pub find_read-latest :
    (k : String) (reads : List ItemRead)
    → HasDistinctIds read_id reads
    → find_read k reads ≡ latest read_id k reads
unfolding latest
find_read-latest k [] d = refl
find_read-latest k (r ∷ reads) (fresh, d) =
    ground (arith, ==_iff r.id k, find_read-latest k reads d)

find_read-id :
    (k : String) (reads : List ItemRead) (r : ItemRead) → find_read k reads ≡ some r → r.id ≡ k
find_read-id k [] r h = cc
find_read-id k (s ∷ reads) r h = ground (arith, ==_iff s.id k, find_read-id k reads r)

-- One turn of the rollback, without its test: the remembered state goes back, or the id goes.
abbrev undo : Option ItemRead → String → Dict ItemRead → Dict ItemRead
undo none id m = delete id m
undo (some state) id m = set id state m

known_undo :
    (previous : List ItemRead) (id : String) (m : Dict ItemRead)
    → (if includes (map read_id previous) id
        then put_back id (find_read id previous) m
        else delete id m)
      ≡ undo (find_read id previous) id m
unfolding put_back
known_undo [] id m = refl
known_undo (s ∷ previous) id m = ground (arith, known_undo previous id m)

get-undo :
    (state : Option ItemRead) (id : String) (m : Dict ItemRead) (k : String)
    → get k (undo state id m) ≡ (if id == k then state else get k m)
get-undo none id m k = get-delete id k m
get-undo (some s) id m k = get-set id k s m

undo-IsFiled :
    (previous : List ItemRead) (id : String) (m : Dict ItemRead) (state : Option ItemRead)
    → find_read id previous ≡ state
    → IsFiled read_id m
    → IsFiled read_id (undo state id m)
undo-IsFiled previous id m none e f = delete-IsFiled id m f
undo-IsFiled previous id m (some s) e f =
    rw (← find_read-id id previous s e) (set-IsFiled read_id s m f)

module _ (previous : List ItemRead) where
  get-restore_reads :
      (ids : List String) (m : Dict ItemRead) (k : String)
      → get k (restore_reads previous ids m)
        ≡ (if includes ids k then find_read k previous else get k m)
  unfolding restore_reads
  get-restore_reads [] m k = refl
  get-restore_reads (id ∷ ids) m k = rw (known_undo previous id m) (
      get-restore_reads ids (undo (find_read id previous) id m) k
      ∙ ground (arith, get-undo (find_read id previous) id m k, ==_iff id k))

  restore_reads-IsFiled :
      (ids : List String) (m : Dict ItemRead)
      → IsFiled read_id m
      → IsFiled read_id (restore_reads previous ids m)
  unfolding restore_reads
  restore_reads-IsFiled [] m f = f
  restore_reads-IsFiled (id ∷ ids) m f = rw (known_undo previous id m) (
      restore_reads-IsFiled ids (undo (find_read id previous) id m)
        (undo-IsFiled previous id m (find_read id previous) refl f))

module _ (ids : List String) (is_read : Bool) (now : ℤ) (existing : List ItemRead) where
  -- The server accepts: each named id has the new state, every other id its old one.
  latest-accepted :
      (k : String)
      → latest read_id k (update_item_read_status ids is_read now true (λ r. r) (some existing)).0
        ≡ (if includes ids k then some (new_state is_read now k) else latest read_id k existing)
  unfolding update_item_read_status or_empty get
  latest-accepted k =
      let m = put_all read_id existing [] in
      latest-values read_id k (mark_reads ids is_read now m)
        (mark_reads-IsFiled is_read now ids m (put_all-IsFiled read_id existing [] tt))
      ∙ get-mark_reads is_read now ids m k
      ∙ rw (get-put_all read_id existing k []) (rw (or_else-none (latest read_id k existing)))

  -- The server refuses: each named id has its state from before the call, every other id the one
  -- that stands in the cache when the refusal comes.
  latest-refused :
      (meanwhile : List ItemRead → List ItemRead) (waiting : List ItemRead)
      → HasDistinctIds read_id existing
      → meanwhile (update_item_read_status ids is_read now true (λ r. r) (some existing)).0
        ≡ waiting
      → (k : String)
      → latest read_id k (update_item_read_status ids is_read now false meanwhile (some existing)).0
        ≡ (if includes ids k then latest read_id k existing else latest read_id k waiting)
  unfolding update_item_read_status or_empty get
  latest-refused meanwhile waiting distinct e k =
      let previous = filter (λ (d : ItemRead). includes ids d.id) existing in
      let m = put_all read_id waiting [] in
      rw e (
        latest-values read_id k (restore_reads previous ids m)
          (restore_reads-IsFiled previous ids m (put_all-IsFiled read_id waiting [] tt))
        ∙ get-restore_reads previous ids m k
        ∙ ground (
          arith,
          find_read-filter ids k existing,
          find_read-latest k existing distinct,
          get-put_all read_id waiting k [],
          or_else-none (latest read_id k waiting),
        ))

-- The read states that the call leaves have distinct ids.
pub update_item_read_status-HasDistinctIds :
    (ids : List String) (is_read : Bool) (now : ℤ) (accepted : Bool) (existing : List ItemRead)
    → HasDistinctIds read_id
        (update_item_read_status ids is_read now accepted (λ r. r) (some existing)).0
unfolding update_item_read_status or_empty
update_item_read_status-HasDistinctIds ids is_read now true existing =
    let m = put_all read_id existing [] in
    values-HasDistinctIds read_id (mark_reads ids is_read now m)
      (mark_reads-IsFiled is_read now ids m (put_all-IsFiled read_id existing [] tt))
update_item_read_status-HasDistinctIds ids is_read now false existing =
    let previous = filter (λ (d : ItemRead). includes ids d.id) existing in
    let waiting = values (mark_reads ids is_read now (put_all read_id existing [])) in
    let m = put_all read_id waiting [] in
    values-HasDistinctIds read_id (restore_reads previous ids m)
      (restore_reads-IsFiled previous ids m (put_all-IsFiled read_id waiting [] tt))

-- A change of read states, of a cache that is loaded and has distinct ids, shows at once: each named id
-- has the new state, every other id its old one, and so it stays if the server accepts and nobody else
-- writes the cache meanwhile. If the server refuses, the call throws, each named id
-- has again the state from before the call (none, if it had none), and every other id keeps what
-- others wrote meanwhile.
pub update_item_read_status_lem :
    (ids : List String) (is_read : Bool) (now : ℤ) (existing : List ItemRead)
    (meanwhile : List ItemRead → List ItemRead)
    → HasDistinctIds read_id existing
    → (k : String)
    → let shown = (update_item_read_status ids is_read now true (λ r. r) (some existing)).0 in
      let refused = update_item_read_status ids is_read now false meanwhile (some existing) in
      (latest read_id k shown
        ≡ (if includes ids k then some (new_state is_read now k) else latest read_id k existing))
      × (latest read_id k refused.0 ≡ (
          if includes ids k then latest read_id k existing else latest read_id k (meanwhile shown)))
      × (refused.1 ≡ true)
unfolding update_item_read_status
update_item_read_status_lem ids is_read now existing meanwhile distinct k = (
  latest-accepted ids is_read now existing k,
  latest-refused ids is_read now existing meanwhile _ distinct refl k,
  refl,
)
