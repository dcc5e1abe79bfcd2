-- ===== src/Items/Anchors.antt =====
-- The anchors after a query.
use feed_reader.Common.{
  String, ◌≡◌, refl, ap, ◌∙◌, ◌⊎◌, inl, inr, Option, none, some, List, [], ◌∷◌, ◌++◌, Option-cases,
  arith, if◌then◌else◌, ◌==◌, string_eq,
}
use feed_reader.Common.Int.{ℤ, pos, ◌≤ℤ◌, ltb_ℤ}
use feed_reader.Common.Lists.{All}
use feed_reader.Common.Maps.{get, get-set}
use feed_reader.Items.{Item}
use feed_reader.Items.Fetch.{
  SyncState, valid_dates, max_time, larger, read_anchor, anchor_time, restore, settle_dates, settle,
}

-- The time stands in the list.
abbrev pub Listed : ℤ → List ℤ → Type 0
Listed t [] = ⊥
Listed t (u ∷ us) = (t ≡ u) ⊎ Listed t us

larger_lem :
    (t u : ℤ) → (t ≤ℤ larger t u) × (u ≤ℤ larger t u) × ((larger t u ≡ t) ⊎ (larger t u ≡ u))
unfolding larger
larger_lem t u = ground arith

-- The maximum bounds every time and is one of them.
max_time_lem :
    (t : ℤ) (ts : List ℤ)
    → (t ≤ℤ max_time t ts)
      × All (λ u. u ≤ℤ max_time t ts) ts
      × ((max_time t ts ≡ t) ⊎ Listed (max_time t ts) ts)
unfolding max_time
max_time_lem t [] = (omega arith, tt, inl refl)
max_time_lem t (u ∷ us) =
    let (least, others, from) = max_time_lem (larger t u) us in
    let (a, b, one) = larger_lem t u in
    (
      omega arith,
      (omega arith, others),
      elim from [
        | inl e ↦ elim one [ inl f ↦ inl (e ∙ f) | inr f ↦ inr (inl (e ∙ f)) ]
        | inr l ↦ inr (inr l)
      ],
    )

All-le_trans : (a b : ℤ) (ts : List ℤ) → a ≤ℤ b → All (λ t. t ≤ℤ a) ts → All (λ t. t ≤ℤ b) ts
All-le_trans a b [] h all = tt
All-le_trans a b (t ∷ ts) h (here, there) = (omega arith, All-le_trans a b ts h there)

-- The anchor of a filter after a query that began at `last_fetched` and read these times; `other`
-- is what stands under its key if the query writes nothing.
unfoldable pub next_anchor : Option ℤ → Option ℤ → List ℤ → Option ℤ
unfolding larger max_time
next_anchor (some a) other [] = some a
next_anchor (some a) other (t ∷ ts) = some (larger a (max_time t ts))
next_anchor none other [] = other
next_anchor none other (t ∷ ts) =
    if ltb_ℤ (pos 0) (max_time t ts) then some (max_time t ts) else other

get-settle_dates :
    (key : String) (last_fetched : Option ℤ) (ts : List ℤ) (s : SyncState) (j : String)
    → get j (settle_dates key last_fetched ts s).last_fetched_map ≡ (
        if key == j
        then next_anchor last_fetched (get j s.last_fetched_map) ts
        else get j s.last_fetched_map)
unfolding settle_dates restore anchor_time next_anchor
get-settle_dates key none [] s j = ground arith
get-settle_dates key (some a) [] s j = get-set key j a s.last_fetched_map
get-settle_dates key none (t ∷ ts) s j =
    ground (arith, get-set key j (max_time t ts) s.last_fetched_map)
get-settle_dates key (some a) (t ∷ ts) s j =
    ground
      (arith, get-set key j (max_time t ts) s.last_fetched_map, get-set key j a s.last_fetched_map)

pub get-settle :
    (sync_time : ℤ) (key : String) (last_fetched : Option ℤ) (fresh : List Item) (s : SyncState)
    (j : String)
    → get j (settle sync_time key last_fetched fresh s).last_fetched_map ≡ (
        if key == j
        then next_anchor last_fetched (get j s.last_fetched_map) (valid_dates fresh)
        else get j s.last_fetched_map)
unfolding settle
get-settle sync_time key last_fetched fresh s j =
    get-settle_dates key last_fetched (valid_dates fresh) _ j

settle-kept :
    (key : String) (last_fetched : Option ℤ) (ts : List ℤ) (s : SyncState) (r : ℤ)
    → s.last_read_fetched ≡ some r
    → (settle_dates key last_fetched ts s).last_read_fetched ≡ some r
unfolding settle_dates read_anchor
settle-kept key last_fetched [] s r h = h
settle-kept key last_fetched (t ∷ ts) s r h = ground arith

pub settle-read_kept :
    (sync_time : ℤ) (key : String) (last_fetched : Option ℤ) (fresh : List Item) (s : SyncState)
    (r : ℤ)
    → s.last_read_fetched ≡ some r
    → (settle sync_time key last_fetched fresh s).last_read_fetched ≡ some r
unfolding settle
settle-read_kept sync_time key last_fetched fresh s r h =
    settle-kept key last_fetched (valid_dates fresh)
      (record s { last_items_synced_at = some sync_time }) r h

Listed-eq : (b c : ℤ) (ts : List ℤ) → b ≡ c → Listed c ts → Listed b ts
Listed-eq b c (t ∷ ts) e (inl f) = inl (e ∙ f)
Listed-eq b c (t ∷ ts) e (inr l) = inr (Listed-eq b c ts e l)
Listed-eq b c [] e l = l

-- An anchor that was set moves to a time that is not before it, nor before any of the times, and
-- that is one of these.
next_anchor_covers :
    (a : ℤ) (other : Option ℤ) (ts : List ℤ)
    → (b : ℤ) × (next_anchor (some a) other ts ≡ some b)
      × (a ≤ℤ b)
      × All (λ t. t ≤ℤ b) ts
      × ((b ≡ a) ⊎ Listed b ts)
unfolding next_anchor
next_anchor_covers a other [] = (a, refl, omega arith, tt, inl refl)
next_anchor_covers a other (t ∷ ts) =
    let (least, others, from) = max_time_lem t ts in
    let (p, q, one) = larger_lem a (max_time t ts) in
    (
      larger a (max_time t ts),
      refl,
      p,
      (omega arith, All-le_trans (max_time t ts) (larger a (max_time t ts)) ts q others),
      elim one [
        | inl e ↦ inl e
        | inr e ↦ elim from [ inl f ↦ inr (inl (e ∙ f)) | inr l ↦ inr (inr (Listed-eq _ _ ts e l)) ]
      ],
    )

-- Where the anchor of a filter has moved to by a query that found these dates: a set one to the latest
-- of itself and the dates; one that was not set to the latest date, if that is positive. Else what
-- stood under its key by then stays.
abbrev pub Moves : Option ℤ → Option ℤ → List ℤ → Option ℤ → Type 0
Moves (some a) other ts moved =
    (b : ℤ) × (moved ≡ some b) × (a ≤ℤ b) × All (λ t. t ≤ℤ b) ts × ((b ≡ a) ⊎ Listed b ts)
Moves none other [] moved = moved ≡ other
Moves none other (t ∷ ts) moved =
    (b : ℤ) × All (λ u. u ≤ℤ b) (t ∷ ts)
    × Listed b (t ∷ ts)
    × (moved ≡ (if ltb_ℤ (pos 0) b then some b else other))

pub next_anchor-Moves :
    (last_fetched other : Option ℤ) (ts : List ℤ)
    → Moves last_fetched other ts (next_anchor last_fetched other ts)
unfolding next_anchor
next_anchor-Moves (some a) other ts = next_anchor_covers a other ts
next_anchor-Moves none other [] = refl
next_anchor-Moves none other (t ∷ ts) =
    let (least, others, from) = max_time_lem t ts in (max_time t ts, (least, others), from, refl)

abbrev pub time_of : Option (Option ℤ) → List ℤ
time_of none = []
time_of (some none) = []
time_of (some (some t)) = t ∷ []

-- The creation dates of the items, as far as they are valid.
abbrev pub created : List Item → List ℤ
created [] = []
created (i ∷ items) = time_of i.created_at ++ created items

pub valid_dates-created : (items : List Item) → valid_dates items ≡ created items
unfolding valid_dates
valid_dates-created [] = refl
valid_dates-created (i ∷ items) = elim (Option-cases i.created_at) [
  | inl e ↦ rw e (valid_dates-created items)
  | inr (none, e) ↦ rw e (valid_dates-created items)
  | inr (some t, e) ↦ rw e (ap (λ (ts : List ℤ). t ∷ ts) (valid_dates-created items))
]
