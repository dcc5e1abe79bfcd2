-- ===== src/Swipe/Gestures.antt =====
-- Invariants of the swipe's state, and when a callback is called.
use feed_reader.Common.{
  ◌≡◌, refl, ap₂, ◌⊎◌, inl, inr, true, false, not, ◌&&◌, ◌||◌, Option, none, some, List, [], ◌∷◌,
  arith, ◌==◌, nat_eq, Bool-cases,
}
use feed_reader.Common.Int.{ℤ, pos, ◌<ℤ◌, ◌-ℤ◌}
use feed_reader.Common.Lists.{All}
use feed_reader.Swipe.{
  Options, Swipe, Touch, Direction, horizontal, vertical, Callback, swipe_left, swipe_right,
  swipe_up, swipe_down, Event, start, move_to, end, cancel, touchstart, touchmove, touchend,
  touchcancel, move, move_horizontally, move_vertically, decide, abs, called, handle, run, init,
  noted,
}

-- Nothing is being tracked.
pub record IsAtRest (s : Swipe) : Type 0 where
  pub not_swiping : s.is_swiping ≡ false
  pub no_signal : s.is_swiping_signal ≡ false
  pub no_x : s.x ≡ pos 0
  pub no_y : s.y ≡ pos 0
  pub no_direction : s.direction ≡ none

-- The signal that the page sees is on exactly while a touch is tracked that was not given up, and
-- without a touch there is no offset and no direction.
pub record IsCoherent (s : Swipe) : Type 0 where
  pub signal : s.is_swiping_signal ≡ (s.is_swiping && not s.is_cancelled)
  pub rest : s.is_swiping ≡ false → (s.x ≡ pos 0) × (s.y ≡ pos 0) × (s.direction ≡ none)

move-tracks :
    (e : Touch) (dx dy : ℤ) (d : Option Direction) (s : Swipe)
    → s.is_swiping ≡ true
    → s.is_cancelled ≡ false
    → s.is_swiping_signal ≡ true
    → ((move e dx dy d s).is_swiping ≡ true)
      × ((move e dx dy d s).is_swiping_signal ≡ not (move e dx dy d s).is_cancelled)
unfolding move move_horizontally move_vertically
move-tracks e dx dy none s h c g = ground arith
move-tracks e dx dy (some horizontal) s h c g = ground arith
move-tracks e dx dy (some vertical) s h c g = ground arith

touchmove-IsCoherent : (e : Touch) (s : Swipe) → IsCoherent s → IsCoherent (touchmove e s)
unfolding touchmove
touchmove-IsCoherent e s c =
    let dx = e.client_x -ℤ s.start_x in
    let dy = e.client_y -ℤ s.start_y in
    elim (Bool-cases (not s.is_swiping || (s.is_cancelled || not (e.touches == 1)))) [
      | inl f ↦ rw f c
      | inr f ↦
          let swiping : s.is_swiping ≡ true = ground arith in
          let going : s.is_cancelled ≡ false = ground arith in
          let (still, shown) =
            move-tracks e dx dy (decide s.direction (abs dx) (abs dy)) s swiping going
              (ground arith) in
          rw f (record { signal = ground arith; rest = λ stopped. cc })
    ]

-- Every event keeps the state coherent.
pub handle-IsCoherent :
    (options : Options) (e : Event) (s : Swipe) → IsCoherent s → IsCoherent (handle options e s).0
unfolding handle touchstart touchend touchcancel
handle-IsCoherent options (start e) s c = ground arith
handle-IsCoherent options (move_to e) s c = touchmove-IsCoherent e s c
handle-IsCoherent options end s c = ground arith
handle-IsCoherent options cancel s c = ground arith

-- A callback that the options have, and the offset that it asks for: along its own direction and
-- beyond the threshold.
abbrev pub Exceeds : Options → Swipe → Callback → Type 0
Exceeds options s swipe_right =
    (options.on_swipe_right ≡ true) × (s.direction ≡ some horizontal) × (options.threshold <ℤ s.x)
Exceeds options s swipe_left =
    (options.on_swipe_left ≡ true)
    × (s.direction ≡ some horizontal)
    × (s.x <ℤ pos 0 -ℤ options.threshold)
Exceeds options s swipe_down =
    (options.on_swipe_down ≡ true) × (s.direction ≡ some vertical) × (options.threshold <ℤ s.y)
Exceeds options s swipe_up =
    (options.on_swipe_up ≡ true)
    × (s.direction ≡ some vertical)
    × (s.y <ℤ pos 0 -ℤ options.threshold)

called-Exceeds :
    (options : Options) (s : Swipe) (d : Option Direction) (c : Callback)
    → s.direction ≡ d
    → called options s.x s.y d ≡ some c
    → Exceeds options s c
unfolding called
called-Exceeds options s none c h e = cc
called-Exceeds options s (some horizontal) swipe_left h e = ground arith
called-Exceeds options s (some horizontal) swipe_right h e = ground arith
called-Exceeds options s (some horizontal) swipe_up h e = ground arith
called-Exceeds options s (some horizontal) swipe_down h e = ground arith
called-Exceeds options s (some vertical) swipe_left h e = ground arith
called-Exceeds options s (some vertical) swipe_right h e = ground arith
called-Exceeds options s (some vertical) swipe_up h e = ground arith
called-Exceeds options s (some vertical) swipe_down h e = ground arith

reset-IsAtRest : (options : Options) (s : Swipe) → IsAtRest (touchend options s).0
unfolding touchend
reset-IsAtRest options s = ground arith

touchend-called :
    (options : Options) (s : Swipe) (c : Callback)
    → (touchend options s).1 ≡ some c
    → (s.is_swiping ≡ true)
      × (s.is_cancelled ≡ false)
      × (called options s.x s.y s.direction ≡ some c)
unfolding touchend
touchend-called options s c e = ground arith

-- Only the end of a touch calls a callback, and one at most: the touch was tracked and not given
-- up, the options have the callback, and the offset exceeds the threshold along the direction that
-- was locked in; after it nothing is tracked.
pub handle-Exceeds :
    (options : Options) (e : Event) (s : Swipe) (c : Callback)
    → (handle options e s).1 ≡ some c
    → (e ≡ end)
      × (s.is_swiping ≡ true)
      × (s.is_cancelled ≡ false)
      × Exceeds options s c
      × IsAtRest (handle options e s).0
unfolding handle
handle-Exceeds options (start e) s c h = cc
handle-Exceeds options (move_to e) s c h = cc
handle-Exceeds options end s c h =
    let (swiping, going, calls) = touchend-called options s c h in
    (
      refl,
      swiping,
      going,
      called-Exceeds options s s.direction c refl calls,
      reset-IsAtRest options s,
    )
handle-Exceeds options cancel s c h = cc

-- An event that starts no touch: any but a start, and any start if the options are disabled or it
-- has more or fewer than one finger.
abbrev pub StartsNone : Options → Event → Type 0
StartsNone options (start e) = (options.disabled ≡ true) ⊎ ((e.touches == 1) ≡ false)
StartsNone options (move_to e) = Unit
StartsNone options end = Unit
StartsNone options cancel = Unit

touchmove_at_rest : (e : Touch) (s : Swipe) → s.is_swiping ≡ false → touchmove e s ≡ s
unfolding touchmove
touchmove_at_rest e s h =
    elim (Bool-cases (not s.is_swiping || (s.is_cancelled || not (e.touches == 1)))) [
      | inl f ↦ rw f
      | inr f ↦ absurd (ground arith)
    ]

handle-IsAtRest :
    (options : Options) (e : Event) (s : Swipe)
    → StartsNone options e
    → IsAtRest s
    → IsAtRest (handle options e s).0 × ((handle options e s).1 ≡ none)
unfolding handle touchstart touchend touchcancel
handle-IsAtRest options (start e) s n r = (ground arith, refl)
handle-IsAtRest options (move_to e) s n r = (rw (touchmove_at_rest e s r.not_swiping) r, refl)
handle-IsAtRest options end s n r = (ground arith, ground arith)
handle-IsAtRest options cancel s n r = (ground arith, refl)

-- Until a touch is started, whatever else happens, no callback is called and nothing is tracked.
pub run-IsAtRest :
    (options : Options) (es : List Event) (s : Swipe)
    → All (StartsNone options) es
    → IsAtRest s
    → IsAtRest (run options es s).0 × ((run options es s).1 ≡ [])
unfolding run
run-IsAtRest options [] s n r = (r, refl)
run-IsAtRest options (e ∷ es) s (here, there) r =
    let (still, silent) = handle-IsAtRest options e s here r in
    let (last, quiet) = run-IsAtRest options es (handle options e s).0 there still in
    (last, ap₂ noted silent quiet)

run-IsCoherent :
    (options : Options) (es : List Event) (s : Swipe)
    → IsCoherent s
    → IsCoherent (run options es s).0
unfolding run
run-IsCoherent options [] s c = c
run-IsCoherent options (e ∷ es) s c =
    run-IsCoherent options es (handle options e s).0 (handle-IsCoherent options e s c)

-- After any run of events from the initial state the signal is on exactly while a touch is tracked
-- that was not given up, and without a touch there is no offset and no direction.
pub run-init-IsCoherent : (options : Options) (es : List Event) → IsCoherent (run options es init).0
run-init-IsCoherent options es =
    run-IsCoherent options es init (record { signal = refl; rest = λ _. (refl, refl, refl) })
