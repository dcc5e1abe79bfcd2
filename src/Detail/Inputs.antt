-- ===== src/Detail/Inputs.antt =====
-- ItemDetailModal.tsx: what swipes and keys do in the detail view. Lengths are in pixels, those of a
-- threshold in tenths of a pixel.
pub mod Presses
use feed_reader.Common.{
  ℕ, zero, suc, ◌+◌, ◌-◌, ◌*◌, ◌≡◌, refl, String, Bool, true, false, not, ◌&&◌, ◌||◌, Option, none,
  some, List, [], ◌∷◌, if◌then◌else◌, ltb, leb, ◌==◌, nat_eq, string_eq,
}
use feed_reader.Common.Int.{ℤ, pos, ◌+ℤ◌, ◌-ℤ◌, ltb_ℤ}
use feed_reader.Common.Lists.{length}
use feed_reader.Detail.Navigation.{end_of_list, is_id}

-- The props that the handlers read: the ids, and whether each callback is given.
pub record Props : Type 0 where
  pub item_id : Option String
  pub prev_item_id : Option String
  pub next_item_id : Option String
  pub has_prev : Bool
  pub has_next : Bool
  pub has_skip : Bool

-- What an input makes the view call; `skip` is `handleSkip(animate)`.
pub data Action : Type 0 where
  go_prev go_next toggle_read ignored : Action
  skip : Bool → Action

-- `!!id`
abbrev pub truthy : Option String → Bool
truthy none = false
truthy (some id) = not (id == "")

abbrev pub is_end : Props → Bool
is_end p = is_id end_of_list p.item_id

unfoldable pub can_swipe_left : Props → Bool
can_swipe_left p = p.has_next && (truthy p.next_item_id && not (is_end p))

unfoldable pub can_swipe_right : Props → Bool
can_swipe_right p = p.has_prev && truthy p.prev_item_id

unfoldable pub can_swipe_up : Props → Bool
can_swipe_up p = p.has_skip && (truthy p.next_item_id && not (is_end p))

unfoldable pub on_swipe_left : Props → Action
on_swipe_left p =
    if p.has_next && (truthy p.next_item_id && not (is_end p)) then go_next else ignored

unfoldable pub on_swipe_right : Props → Action
on_swipe_right p = if p.has_prev && truthy p.prev_item_id then go_prev else ignored

-- What the handlers read of the scrolled element and its bounding rectangle.
pub record Container : Type 0 where
  pub scroll_height : ℕ
  pub scroll_top : ℕ
  pub client_height : ℕ
  pub rect_top : ℕ
  pub rect_height : ℕ

-- `touchStartY`, and ten times `touchThresholdY`.
pub record Touch : Type 0 where
  pub start_y : ℕ
  pub threshold_y : ℕ

-- The part that stands before the hook's own `ontouchstart`; `touches` are their `clientY`.
unfoldable pub on_touch_start : Props → Option Container → List ℕ → Touch → Touch
on_touch_start p container [] touch = touch
on_touch_start p container (y ∷ []) touch = if is_end p then touch else elim container [
  | none ↦ record touch { start_y = y }
  | some c ↦ record { start_y = y; threshold_y = 10 * c.rect_top + 9 * c.rect_height }
]
on_touch_start p container (y ∷ z ∷ ys) touch = touch

-- `Math.abs(scrollHeight - scrollTop - clientHeight) < 5`
unfoldable pub is_at_bottom : Container → Bool
is_at_bottom c =
    ltb c.scroll_height (c.scroll_top + c.client_height + 5)
    && ltb (c.scroll_top + c.client_height) (c.scroll_height + 5)

unfoldable pub is_at_bottom_boundary : Option Container → Touch → Bool
unfolding is_at_bottom
is_at_bottom_boundary none touch = true
is_at_bottom_boundary (some c) touch =
    if is_at_bottom c then true else leb touch.threshold_y (10 * touch.start_y)

unfoldable pub is_at_top_boundary : Option Container → Bool
is_at_top_boundary none = true
is_at_top_boundary (some c) = ltb c.scroll_top 5

unfoldable pub on_swipe_up : Props → Option Container → Touch → Action
on_swipe_up p container touch =
    if p.has_skip && (truthy p.next_item_id && not (is_end p))
    then elim container [
      | none ↦ skip true
      | some c ↦
          if ltb (10 * touch.start_y) (10 * c.rect_top + 7 * c.rect_height)
          then ignored
          else skip true
    ]
    else ignored

-- The target of a key event, if it is an HTML element.
pub record Target : Type 0 where
  pub tag_name : String
  pub is_content_editable : Bool

unfoldable pub takes_text : Target → Bool
takes_text t = (t.tag_name == "INPUT") || ((t.tag_name == "TEXTAREA") || t.is_content_editable)

unfoldable pub is_prev_key : String → Bool
is_prev_key key =
    (key == "ArrowLeft") || ((key == "k") || ((key == "K") || ((key == "h") || (key == "H"))))

unfoldable pub is_next_key : String → Bool
is_next_key key =
    (key == "ArrowRight") || ((key == "j") || ((key == "J") || ((key == "l") || (key == "L"))))

-- `handleKeyDown`; it calls `preventDefault` exactly if it does not ignore the key.
unfoldable pub handle_key : Bool → Props → String → Action
unfolding is_prev_key is_next_key can_swipe_up
handle_key read_only p key =
    if is_prev_key key
    then if p.has_prev && truthy p.prev_item_id then go_prev else ignored
    else if is_next_key key
    then if not (is_end p) && (p.has_next && truthy p.next_item_id) then go_next else ignored
    else if ((key == "m") || (key == "M")) && not read_only
    then toggle_read
    else if (key == "n") || (key == "N")
    then if can_swipe_up p then skip false else ignored
    else ignored

unfoldable pub handle_key_down : Bool → Props → Option Target → String → Action
unfolding handle_key takes_text
handle_key_down read_only p none key = ignored
handle_key_down read_only p (some target) key =
    if takes_text target then ignored else handle_key read_only p key
