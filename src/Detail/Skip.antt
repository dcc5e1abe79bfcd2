-- ===== src/Detail/Skip.antt =====
-- ItemDetailModal.tsx: the skip of an item, its animation and its two timers. A timer is the time it
-- is due at; `none` is a timer that was never set, was cleared, or has fired.
pub mod Runs
use feed_reader.Common.{
  ℕ, zero, suc, ◌+◌, ◌-◌, ◌≤◌, ◌≡◌, refl, Bool, true, false, not, ◌&&◌, ◌||◌, Option, none, some,
  List, [], ◌∷◌, ◌++◌, arith, if◌then◌else◌, Bool-cases, inl, inr,
}

-- `skipTimeoutId` and `skipRecoveryTimeoutId` as the pending timers, and the calls so far of
-- `props.onSkipNext`.
pub record SkipState : Type 0 where
  pub is_skipping : Bool
  pub skip_due : Option ℕ
  pub recovery_due : Option ℕ
  pub disposed : Bool
  pub skips : ℕ

unfoldable pub opened : SkipState
opened = record {
  is_skipping = false;
  skip_due = none;
  recovery_due = none;
  disposed = false;
  skips = 0;
}

-- `handleSkip(animate)` at the time `now`; `has_skip` tells whether `props.onSkipNext` is given.
unfoldable pub handle_skip : Bool → Bool → ℕ → SkipState → SkipState
handle_skip has_skip animate now s =
    if not has_skip || s.is_skipping
    then s
    else if animate
    then record s { is_skipping = true; skip_due = some (now + 200); recovery_due = none }
    else record s { skips = suc s.skips }

-- The callback of the animation's timer.
unfoldable pub skip_timer : Bool → ℕ → SkipState → SkipState
skip_timer has_skip now s = if s.disposed then record s { skip_due = none } else record s {
  skip_due = none;
  recovery_due = some (now + 1000);
  skips = if has_skip then suc s.skips else s.skips;
}

-- The callback of the recovery timer.
unfoldable pub recovery_timer : SkipState → SkipState
recovery_timer s = record s {
  is_skipping = if s.disposed then s.is_skipping else false;
  recovery_due = none;
}

-- The effect that runs when `itemId` changes.
unfoldable pub item_changed : SkipState → SkipState
item_changed s = record s { is_skipping = false; recovery_due = none }

-- `onCleanup`
unfoldable pub clean_up : SkipState → SkipState
clean_up s = record s { disposed = true; skip_due = none; recovery_due = none }
