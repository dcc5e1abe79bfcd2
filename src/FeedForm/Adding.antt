-- ===== src/FeedForm/Adding.antt =====
-- What the form sends after any clicks on its tags, and what it shows after the call.
use feed_reader.Common.{
  ◌%◌, String, ◌≡◌, refl, ap, ◌∙◌, Bool, true, false, not, Option, none, some, List, [], ◌∷◌, ◌++◌,
  map, fun_ext, arith, if◌then◌else◌, ◌==◌, ==_iff, nat_eq, string_eq, Bool-cases, inl, inr,
}
use feed_reader.Common.Lists.{filter, includes}
use feed_reader.Queries.ItemQueries.{FeedTag}
use feed_reader.Queries.Counts.{Tag, count}
use feed_reader.LinkForm.{includes-without, includes-push}
use feed_reader.FeedForm.{
  FeedForm, empty_form, toggle_tag, toggle_tags, tags_sorted, Ending, resolves, throws, message_of,
  handle_submit,
}

-- A tag pressed an odd number of times.
abbrev pub is_on : List String → String → Bool
is_on ids k = count k ids % 2 == 1

includes-toggle_tag :
    (id : String) (s : FeedForm) (k : String)
    → includes (toggle_tag id s).selected_tag_ids k
      ≡ (if id == k then not (includes s.selected_tag_ids k) else includes s.selected_tag_ids k)
unfolding toggle_tag
includes-toggle_tag id s k = elim (Bool-cases (includes s.selected_tag_ids id)) [
  | inl e ↦ rw (e, includes-without id s.selected_tag_ids k) (ground (arith, e, ==_iff id k))
  | inr e ↦ rw (e, includes-push s.selected_tag_ids id k) (ground (arith, e, ==_iff id k))
]

includes-toggle_tags :
    (ids : List String) (s : FeedForm) (k : String)
    → includes (toggle_tags ids s).selected_tag_ids k
      ≡ (if is_on ids k then not (includes s.selected_tag_ids k) else includes s.selected_tag_ids k)
includes-toggle_tags [] s k = refl
includes-toggle_tags (id ∷ ids) s k =
    includes-toggle_tags ids (toggle_tag id s) k ∙ rw (includes-toggle_tag id s k) (ground arith)

toggle_tags-url :
    (ids : List String) (s : FeedForm)
    → ((toggle_tags ids s).url ≡ s.url) × ((toggle_tags ids s).error ≡ s.error)
unfolding toggle_tag
toggle_tags-url [] s = (refl, refl)
toggle_tags-url (id ∷ ids) s = toggle_tags-url ids (toggle_tag id s)

is_on-append :
    (ids more : List String) (k : String)
    → is_on (ids ++ more) k ≡ (if is_on more k then not (is_on ids k) else is_on ids k)
is_on-append [] more k = ground arith
is_on-append (id ∷ ids) more k = ground (arith, is_on-append ids more k)

-- What the form shows when the call has ended: it is empty again, or it has the URL, the message
-- and the tags chosen before and during the call.
abbrev pub Leaves : Ending → String → List String → FeedForm → Type 0
Leaves resolves url ids after = after ≡ empty_form
Leaves (throws e) url ids after =
    (after.url ≡ url)
    × ((k : String) → includes after.selected_tag_ids k ≡ is_on ids k)
    × (after.is_pending ≡ false)
    × (after.error ≡ some (message_of e))

-- The form with a URL typed in and tags pressed.
abbrev pub filled_form : String → List String → FeedForm
filled_form url ids = toggle_tags ids (record empty_form { url = url })

includes-filled_form :
    (url : String) (ids : List String) (k : String)
    → includes (filled_form url ids).selected_tag_ids k ≡ is_on ids k
unfolding empty_form
includes-filled_form url ids k =
    includes-toggle_tags ids (record empty_form { url = url }) k ∙ ground arith

leaves :
    (ending : Ending) (tags : List Tag) (url : String) (ids waiting : List String)
    → Leaves ending url (ids ++ waiting) (handle_submit tags ending waiting (filled_form url ids)).1
unfolding handle_submit empty_form
leaves resolves tags url ids waiting =
    ap
      (λ (e : Option String). record {
        url = "";
        selected_tag_ids = [];
        is_pending = false;
        error = e;
      })
      (toggle_tags-url waiting (record (filled_form url ids) { is_pending = true; error = none })).1
leaves (throws e) tags url ids waiting =
    let pending : FeedForm = record (filled_form url ids) { is_pending = true; error = none } in
    (
      (toggle_tags-url waiting pending).0
          ∙ (toggle_tags-url ids (record empty_form { url = url })).0,
      λ k.
          includes-toggle_tags waiting pending k
          ∙ rw (includes-filled_form url ids k, is_on-append ids waiting k) refl,
      refl,
      refl,
    )

rests :
    (ending : Ending) (tags : List Tag) (waiting : List String) (s : FeedForm)
    → (handle_submit tags ending waiting s).1.is_pending ≡ false
unfolding handle_submit
rests resolves tags waiting s = refl
rests (throws e) tags waiting s = refl

-- A feed is added with the text as its URL and with the tags on offer that were pressed an odd
-- number of times, in their order. If the call succeeds the form is empty again, whatever was
-- pressed meanwhile; if it throws, the URL and the tags chosen stay, those pressed meanwhile
-- included, and the message is shown. Either way the form is no longer pending.
pub handle_submit_lem :
    (raw_tags : List Tag) (feed_tags : List FeedTag) (url : String) (ids waiting : List String)
    (ending : Ending)
    → let tags = tags_sorted raw_tags feed_tags in
      let (request, after) = handle_submit tags ending waiting (filled_form url ids) in
      (request.url ≡ url)
      × (request.tag_ids ≡ map (λ (t : Tag). t.id) (filter (λ (t : Tag). is_on ids t.id) tags))
      × (after.is_pending ≡ false)
      × Leaves ending url (ids ++ waiting) after
unfolding handle_submit empty_form
handle_submit_lem raw_tags feed_tags url ids waiting ending = (
  (toggle_tags-url ids (record empty_form { url = url })).0,
  ap
      (λ (on : String → Bool).
        map (λ (t : Tag). t.id) (filter (λ (t : Tag). on t.id) (tags_sorted raw_tags feed_tags)))
      (fun_ext λ k. includes-filled_form url ids k),
  rests ending (tags_sorted raw_tags feed_tags) waiting (filled_form url ids),
  leaves ending (tags_sorted raw_tags feed_tags) url ids waiting,
)
