-- ===== src/Tests/Detail.antt =====
-- The detail view at concrete inputs.
use feed_reader.Common.{
  String, if◌then◌else◌, ◌≡◌, refl, Bool, true, false, ◌+◌, Option, none, some, List, [], ◌∷◌,
  string_eq,
}
use feed_reader.Common.Int.{pos}
use feed_reader.Common.Lists.{All}
use feed_reader.Common.Maps.{Dict, get, set}
use feed_reader.Common.Text.{Text, codes}
use feed_reader.Dates.{days_7}
use feed_reader.Items.{Item}
use feed_reader.Items.Merge.{latest, HasDistinctIds}
use feed_reader.Items.Reads.{ItemRead, read_id, or_empty}
use feed_reader.Detail.Navigation.{View, mark_read, end_of_list, handle_next, handle_prev}
use feed_reader.Detail.Navigation.Steps.{IsListing, Shows, link_to}
use feed_reader.Detail.Navigation.Walk.{
  follow, at_item, read_through, handle_prev-handle_next, read_through-end,
}
use feed_reader.Detail.Inputs.{
  Props, Container, Touch, Target, skip, can_swipe_up, on_touch_start, is_at_bottom,
  is_at_bottom_boundary, on_swipe_up, takes_text, is_prev_key, is_next_key, handle_key_down,
}
use feed_reader.Detail.Inputs.Presses.{props_of, perform, on_swipe_up-on_touch_start, next_key_lem}
use feed_reader.Detail.Skip.{opened, handle_skip}
use feed_reader.Detail.Skip.Runs.{
  Reached, opens, asks, IsSound, waiting, settle_skip, settle_recovery, Reached-IsSound, settle_lem,
}
use feed_reader.UrlParser.{Url, UrlParsingRule}
use feed_reader.Detail.Menu.{menu_actions, close}
use feed_reader.Detail.Menu.Offers.{IsOffer, menu_actions-IsOffer}
use feed_reader.Detail.ReadToggle.{handle_toggle_read, silent, marked_as_read}
use feed_reader.Detail.ReadToggle.Rollback.{
  loaded, shown_by, as_read, is_at, handle_toggle_read_lem,
}

abbrev view : View
view = record {
  item_id = some "b";
  tag_id = some "news";
  since = some days_7;
  filtered_items = "a" ∷ "b" ∷ "c" ∷ [];
  read_only = false;
}

view-IsListing : IsListing view.filtered_items
view-IsListing = record {
  distinct = ((refl, (refl, tt)), ((refl, tt), (tt, tt)));
  named = ((refl, refl), ((refl, refl), ((refl, refl), tt)));
}

view-Shows : Shows view 1 "b"
view-Shows = record { shown = refl; listed = refl }

abbrev on_page : Target
on_page = record { tag_name = "DIV"; is_content_editable = false }

on_page-types : takes_text on_page ≡ false
unfolding takes_text
on_page-types = refl

j_not_prev : is_prev_key "j" ≡ false
unfolding is_prev_key
j_not_prev = refl

j_next : is_next_key "j" ≡ true
unfolding is_next_key
j_next = refl

next_key_example :
    perform view (handle_key_down false (props_of view) (some on_page) "j")
    ≡ mark_read "b" ∷ link_to view "c" ∷ []
next_key_example =
    next_key_lem view 1 "b" view-IsListing view-Shows on_page "j" on_page-types j_not_prev j_next

handle_prev-handle_next_example :
    follow (follow view (handle_next view)) (handle_prev (follow view (handle_next view))) ≡ view
handle_prev-handle_next_example = handle_prev-handle_next view 1 "b" view-IsListing view-Shows

-- From the second of three items on.
read_through-end_example : read_through 2 view ≡ ("b" ∷ "c" ∷ [], at_item view (some end_of_list))
read_through-end_example = read_through-end view 1 "b" ("c" ∷ []) view-IsListing refl refl refl

abbrev page : Container
page = record {
  scroll_height = 2000;
  scroll_top = 100;
  client_height = 800;
  rect_top = 50;
  rect_height = 800;
}

abbrev props : Props
props = record {
  item_id = some "b";
  prev_item_id = some "a";
  next_item_id = some "c";
  has_prev = true;
  has_next = true;
  has_skip = true;
}

abbrev untouched : Touch
untouched = record { start_y = 0; threshold_y = 0 }

props-can_swipe_up : can_swipe_up props ≡ true
unfolding can_swipe_up
props-can_swipe_up = refl

page-middle : is_at_bottom page ≡ false
unfolding is_at_bottom
page-middle = refl

page-boundary :
    is_at_bottom_boundary (some page) (on_touch_start props (some page) (800 ∷ []) untouched) ≡ true
unfolding is_at_bottom_boundary on_touch_start is_at_bottom
page-boundary = refl

on_swipe_up-on_touch_start_example :
    on_swipe_up props (some page) (on_touch_start props (some page) (800 ∷ []) untouched)
    ≡ skip true
on_swipe_up-on_touch_start_example =
    on_swipe_up-on_touch_start props page 800 untouched props-can_swipe_up page-middle page-boundary

-- Two swipes up while the animation runs.
swiped : Reached 1 (handle_skip true true 40 (handle_skip true true 0 opened))
unfolding handle_skip opened
swiped = asks 1 (handle_skip true true 0 opened) true 40 (asks 0 opened true 0 opens)

Reached-IsSound_example : IsSound 1 (handle_skip true true 40 (handle_skip true true 0 opened))
Reached-IsSound_example =
    Reached-IsSound 1 (handle_skip true true 40 (handle_skip true true 0 opened)) swiped

swiped_open : (handle_skip true true 40 (handle_skip true true 0 opened)).disposed ≡ false
unfolding handle_skip opened
swiped_open = refl

settle_example :
    ((settle_recovery
        (settle_skip (handle_skip true true 40 (handle_skip true true 0 opened)))).is_skipping
      ≡ false)
    × ((settle_recovery
          (settle_skip (handle_skip true true 40 (handle_skip true true 0 opened)))).skips
        ≡ (handle_skip true true 40 (handle_skip true true 0 opened)).skips
          + waiting (handle_skip true true 40 (handle_skip true true 0 opened)).skip_due)
settle_example =
    settle_lem 1 (handle_skip true true 40 (handle_skip true true 0 opened)) swiped swiped_open

abbrev new_url : Text → Option Url
new_url t = some (record { hostname = codes "ann.blog.net"; pathname = codes "/x" })

abbrev blog_rules : List UrlParsingRule
blog_rules = record { rule_type = codes "subdomain"; pattern = codes "blog.net" } ∷ []

menu_actions-IsOffer_example :
    (menu_actions new_url true blog_rules (some (codes "u")) ≡ close ∷ [])
    × All IsOffer (menu_actions new_url false blog_rules (some (codes "u")))
menu_actions-IsOffer_example = menu_actions-IsOffer new_url blog_rules (some (codes "u"))

abbrev item : Item
item = record {
  id = "a";
  title = "";
  description = "";
  published_at = none;
  is_read = true;
  created_at = none;
  feed_id = "f";
  url = "";
  author = "";
  categories = "";
  image_url = "";
  content = "";
  feeds = none;
}

abbrev reads : List ItemRead
reads = record { id = "a"; is_read = false; updated_at = pos 1 } ∷ []

reads-HasDistinctIds : HasDistinctIds read_id reads
unfolding latest
reads-HasDistinctIds = (refl, tt)

-- The item itself counts as read, but its read state says that it is not; when the server answers,
-- the item "c" is on view.
abbrev opened_items : Dict Item
opened_items = ("b", item) ∷ ("c", item) ∷ []

abbrev toggled_items : Dict Item
toggled_items = set "b" (record item { is_read = true }) opened_items

opened_b : get "b" opened_items ≡ some item
unfolding get
opened_b = refl

handle_toggle_read_example :
    let start = loaded opened_items reads silent in
    let run = λ (accepted : Bool).
      handle_toggle_read "b" (some "c") (pos 7) accepted (λ r. r) (λ m. m) start in
    let quiet = λ (accepted : Bool).
      handle_toggle_read "b" (some "b") (pos 7) accepted (λ r. r) (λ m. m) start in
    ((run true).cached_items ≡ toggled_items)
    × ((run true).announcement ≡ marked_as_read)
    × ((k : String)
        → get k (run false).cached_items ≡ (
            if is_at (some "c") k
            then as_read false (get k toggled_items)
            else get k toggled_items))
    × (latest read_id item.id (or_empty (run false).cached_reads) ≡ latest read_id item.id reads)
    × ((run false).announcement ≡ silent)
    × (shown_by "b" (quiet true) ≡ some true)
    × (shown_by "b" (quiet false) ≡ some false)
handle_toggle_read_example =
    handle_toggle_read_lem opened_items "b" item reads (pos 7) silent (some "c") (λ r. r) (λ m. m)
      opened_b refl reads-HasDistinctIds
