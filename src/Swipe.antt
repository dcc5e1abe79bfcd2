-- ===== src/Swipe.antt =====
-- frontend/src/lib/use-swipe.ts: the state machine of a swipe. Coordinates are whole numbers of
-- pixels; the handlers' boundary callbacks are asked at each move, so their answers come with it.
pub mod Gestures
use feed_reader.Common.{
  ℕ, Bool, true, false, not, ◌&&◌, ◌||◌, Option, none, some, List, [], ◌∷◌, ◌++◌, if◌then◌else◌,
  ◌==◌, ltb, nat_eq,
}
use feed_reader.Common.Int.{ℤ, pos, negsuc, pos_part, neg_part, ◌-ℤ◌, ltb_ℤ}

pub data Direction : Type 0 where
  horizontal vertical : Direction

-- Which callbacks the options have, and the threshold with its default filled in.
pub record Options : Type 0 where
  pub threshold : ℤ
  pub on_swipe_left : Bool
  pub on_swipe_right : Bool
  pub on_swipe_up : Bool
  pub on_swipe_down : Bool
  pub disabled : Bool

-- `x` and `y` are signals, and so is `is_swiping_signal`.
pub record Swipe : Type 0 where
  pub x : ℤ
  pub y : ℤ
  pub is_swiping_signal : Bool
  pub start_x : ℤ
  pub start_y : ℤ
  pub is_swiping : Bool
  pub is_cancelled : Bool
  pub direction : Option Direction

abbrev pub init : Swipe
init = record {
  x = pos 0;
  y = pos 0;
  is_swiping_signal = false;
  start_x = pos 0;
  start_y = pos 0;
  is_swiping = false;
  is_cancelled = false;
  direction = none;
}

-- A touch event: the number of touches, the first one's place, and the answers of the boundary
-- callbacks (`true` where an option is missing).
pub record Touch : Type 0 where
  pub touches : ℕ
  pub client_x : ℤ
  pub client_y : ℤ
  pub at_left : Bool
  pub at_right : Bool
  pub at_top : Bool
  pub at_bottom : Bool

pub data Callback : Type 0 where
  swipe_left swipe_right swipe_up swipe_down : Callback

-- `Math.abs(n)`
abbrev pub abs : ℤ → ℕ
abs n = if ltb_ℤ n (pos 0) then neg_part n else pos_part n

unfoldable pub touchstart : Options → Touch → Swipe → Swipe
touchstart options e s = if options.disabled || not (e.touches == 1) then s else record {
  x = s.x;
  y = s.y;
  is_swiping_signal = true;
  start_x = e.client_x;
  start_y = e.client_y;
  is_swiping = true;
  is_cancelled = false;
  direction = none;
}

-- The direction that a move decides on, if it goes far enough.
unfoldable pub decide : Option Direction → ℕ → ℕ → Option Direction
decide (some d) dx dy = some d
decide none dx dy =
    if ltb 2 dx || ltb 2 dy then (if ltb dy dx then some horizontal else some vertical) else none

unfoldable pub move_horizontally : Touch → ℤ → ℤ → Swipe → Swipe
move_horizontally e diff_x diff_y s =
    if ltb 50 (abs diff_y)
    then record s { is_cancelled = true; is_swiping_signal = false; x = pos 0 }
    else if (ltb_ℤ (pos 0) diff_x && e.at_left) || (ltb_ℤ diff_x (pos 0) && e.at_right)
    then record s { x = diff_x }
    else record s { x = pos 0; start_x = e.client_x }

unfoldable pub move_vertically : Touch → ℤ → ℤ → Swipe → Swipe
move_vertically e diff_x diff_y s =
    if ltb 50 (abs diff_x)
    then record s { is_cancelled = true; is_swiping_signal = false; y = pos 0 }
    else if (ltb_ℤ (pos 0) diff_y && e.at_top) || (ltb_ℤ diff_y (pos 0) && e.at_bottom)
    then record s { y = diff_y }
    else record s { y = pos 0; start_y = e.client_y }

move : Touch → ℤ → ℤ → Option Direction → Swipe → Swipe
unfolding move_horizontally move_vertically
move e diff_x diff_y none s = s
move e diff_x diff_y (some horizontal) s =
    move_horizontally e diff_x diff_y (record s { direction = some horizontal })
move e diff_x diff_y (some vertical) s =
    move_vertically e diff_x diff_y (record s { direction = some vertical })

-- The state after a move; `prevents_default` says whether it also stops the browser's scrolling.
unfoldable pub touchmove : Touch → Swipe → Swipe
unfolding move decide ◌-ℤ◌
touchmove e s =
    let diff_x = e.client_x -ℤ s.start_x in
    let diff_y = e.client_y -ℤ s.start_y in
    let moved = move e diff_x diff_y (decide s.direction (abs diff_x) (abs diff_y)) s in
    if not s.is_swiping || (s.is_cancelled || not (e.touches == 1)) then s else moved

prevents_horizontally : Touch → ℤ → ℤ → Bool
prevents_horizontally e diff_x diff_y =
    not (ltb 50 (abs diff_y))
    && ((ltb_ℤ (pos 0) diff_x && e.at_left) || (ltb_ℤ diff_x (pos 0) && e.at_right))

prevents_vertically : Options → Touch → ℤ → ℤ → Bool
prevents_vertically options e diff_x diff_y =
    not (ltb 50 (abs diff_x))
    && (((ltb_ℤ (pos 0) diff_y && e.at_top) || (ltb_ℤ diff_y (pos 0) && e.at_bottom))
        && ((ltb_ℤ (pos 0) diff_y && options.on_swipe_down)
            || (ltb_ℤ diff_y (pos 0) && options.on_swipe_up)))

prevents : Options → Touch → ℤ → ℤ → Option Direction → Bool
unfolding prevents_horizontally prevents_vertically
prevents options e diff_x diff_y none = false
prevents options e diff_x diff_y (some horizontal) = prevents_horizontally e diff_x diff_y
prevents options e diff_x diff_y (some vertical) = prevents_vertically options e diff_x diff_y

-- Whether the move calls `e.preventDefault()`.
unfoldable pub prevents_default : Options → Touch → Swipe → Bool
unfolding prevents decide ◌-ℤ◌
prevents_default options e s =
    let diff_x = e.client_x -ℤ s.start_x in
    let diff_y = e.client_y -ℤ s.start_y in
    let stops = prevents options e diff_x diff_y (decide s.direction (abs diff_x) (abs diff_y)) in
    if not s.is_swiping || (s.is_cancelled || not (e.touches == 1)) then false else stops

-- What all three ends of a touch leave.
abbrev reset : Swipe → Swipe
reset s = record s {
  x = pos 0;
  y = pos 0;
  is_swiping = false;
  is_swiping_signal = false;
  direction = none;
}

called : Options → ℤ → ℤ → Option Direction → Option Callback
unfolding ◌-ℤ◌
called options x y none = none
called options x y (some horizontal) =
    if ltb_ℤ options.threshold x && options.on_swipe_right
    then some swipe_right
    else if ltb_ℤ x (pos 0 -ℤ options.threshold) && options.on_swipe_left
    then some swipe_left
    else none
called options x y (some vertical) =
    if ltb_ℤ options.threshold y && options.on_swipe_down
    then some swipe_down
    else if ltb_ℤ y (pos 0 -ℤ options.threshold) && options.on_swipe_up
    then some swipe_up
    else none

-- The callback that the end of the touch calls, and the state that it leaves.
unfoldable pub touchend : Options → Swipe → Swipe × Option Callback
unfolding called
touchend options s =
    if not s.is_swiping || s.is_cancelled
    then (reset s, none)
    else (reset s, called options s.x s.y s.direction)

unfoldable pub touchcancel : Swipe → Swipe
touchcancel s = record (reset s) { is_cancelled = false }

pub data Event : Type 0 where
  start move_to : Touch → Event
  end cancel : Event

unfoldable pub handle : Options → Event → Swipe → Swipe × Option Callback
unfolding touchstart touchmove touchend touchcancel
handle options (start e) s = (touchstart options e s, none)
handle options (move_to e) s = (touchmove e s, none)
handle options end s = touchend options s
handle options cancel s = (touchcancel s, none)

abbrev pub noted : Option Callback → List Callback → List Callback
noted none more = more
noted (some c) more = c ∷ more

-- A run of events: the last state, and the callbacks called on the way.
unfoldable pub run : Options → List Event → Swipe → Swipe × List Callback
unfolding handle
run options [] s = (s, [])
run options (e ∷ es) s =
    let (s', called) = handle options e s in
    let (last, more) = run options es s' in (last, noted called more)
