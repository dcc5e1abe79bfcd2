-- ===== src/Detail/Skip/Runs.antt =====
-- The states that the events of the detail view lead to, and what holds in each of them.
use feed_reader.Common.{
  ℕ, suc, ◌+◌, ◌≤◌, ◌≡◌, refl, ap, Bool, true, false, ◌||◌, Option, none, some, arith,
  if◌then◌else◌, Bool-cases, Option-cases, inl, inr,
}
use feed_reader.Detail.Skip.{
  SkipState, opened, handle_skip, skip_timer, recovery_timer, item_changed, clean_up,
}

abbrev pub is_pending : Option ℕ → Bool
is_pending none = false
is_pending (some due) = true

abbrev pub waiting : Option ℕ → ℕ
waiting none = 0
waiting (some due) = 1

-- The states that are reached, with the number of skips that were begun on the way: a timer fires
-- when it is due, or later.
pub data Reached : ℕ → SkipState → Type 0 where
  opens : Reached 0 opened
  asks :
      (n : ℕ) (s : SkipState) (animate : Bool) (now : ℕ)
      → Reached n s
      → Reached (if s.is_skipping then n else suc n) (handle_skip true animate now s)
  skips :
      (n : ℕ) (s : SkipState) (due now : ℕ)
      → Reached n s
      → s.skip_due ≡ some due
      → due ≤ now
      → Reached n (skip_timer true now s)
  recovers :
      (n : ℕ) (s : SkipState) (due now : ℕ)
      → Reached n s
      → s.recovery_due ≡ some due
      → due ≤ now
      → Reached n (recovery_timer s)
  changes : (n : ℕ) (s : SkipState) → Reached n s → Reached n (item_changed s)
  cleans : (n : ℕ) (s : SkipState) → Reached n s → Reached n (clean_up s)

-- The open view that is skipping waits for one of its timers, and no more skips are made or waited
-- for than were begun.
pub record IsSound (n : ℕ) (s : SkipState) : Type 0 where
  pub awaited :
      s.is_skipping ≡ true
      → s.disposed ≡ false
      → (is_pending s.skip_due || is_pending s.recovery_due) ≡ true
  pub counted : s.skips + waiting s.skip_due ≤ n

handle_skip-IsSound :
    (n : ℕ) (s : SkipState) (animate : Bool) (now : ℕ)
    → IsSound n s
    → IsSound (if s.is_skipping then n else suc n) (handle_skip true animate now s)
unfolding handle_skip
handle_skip-IsSound n s animate now sound = elim (Bool-cases s.is_skipping) [
  | inl e ↦ simp e sound
  | inr e ↦ elim (Bool-cases animate) [
    | inl a ↦ rw (e, a) (record { awaited = λ _ _. refl; counted = omega (arith, sound.counted) })
    | inr a ↦ rw (e, a) (record { awaited = λ h _. cc; counted = omega (arith, sound.counted) })
  ]
]

skip_timer-IsSound :
    (n : ℕ) (s : SkipState) (due now : ℕ)
    → IsSound n s
    → s.skip_due ≡ some due
    → IsSound n (skip_timer true now s)
unfolding skip_timer
skip_timer-IsSound n s due now sound e = elim (Bool-cases s.disposed) [
  | inl d ↦ rw d (record { awaited = λ _ h. cc; counted = omega (arith, sound.counted) })
  | inr d ↦
      rw d (record { awaited = λ _ _. refl; counted = omega (arith, sound.counted, ap waiting e) })
]

recovery_timer-IsSound : (n : ℕ) (s : SkipState) → IsSound n s → IsSound n (recovery_timer s)
unfolding recovery_timer
recovery_timer-IsSound n s sound = elim (Bool-cases s.disposed) [
  | inl d ↦ rw d (record { awaited = λ _ h. cc; counted = sound.counted })
  | inr d ↦ rw d (record { awaited = λ h _. cc; counted = sound.counted })
]

-- In every state that is reached, an open view that is skipping waits for a timer, and the calls of
-- `onSkipNext`, made or waited for, are no more than the skips begun.
pub Reached-IsSound : (n : ℕ) (s : SkipState) → Reached n s → IsSound n s
unfolding opened item_changed clean_up
Reached-IsSound _ _ opens = record { awaited = cc; counted = omega arith }
Reached-IsSound _ _ (asks n s animate now r) =
    handle_skip-IsSound n s animate now (Reached-IsSound n s r)
Reached-IsSound _ _ (skips n s due now r e h) =
    skip_timer-IsSound n s due now (Reached-IsSound n s r) e
Reached-IsSound _ _ (recovers n s due now r e h) =
    recovery_timer-IsSound n s (Reached-IsSound n s r)
Reached-IsSound _ _ (changes n s r) = record {
  awaited = λ h _. cc;
  counted = (Reached-IsSound n s r).counted;
}
Reached-IsSound _ _ (cleans n s r) = record {
  awaited = λ _ h. cc;
  counted = omega (arith, (Reached-IsSound n s r).counted);
}

-- The timers that are pending fire, each when it is due.
abbrev pub settle_skip : SkipState → SkipState
settle_skip s = elim s.skip_due [ none ↦ s | some due ↦ skip_timer true due s ]

abbrev pub settle_recovery : SkipState → SkipState
settle_recovery s = elim s.recovery_due [ none ↦ s | some due ↦ recovery_timer s ]

idle :
    (n : ℕ) (s : SkipState)
    → Reached n s
    → s.disposed ≡ false
    → s.skip_due ≡ none
    → s.recovery_due ≡ none
    → s.is_skipping ≡ false
idle n s r shown e f = elim (Bool-cases s.is_skipping) [
  | inl g ↦ cc ((Reached-IsSound n s r).awaited g shown, e, f)
  | inr g ↦ g
]

-- From every state that is reached with the view open, the timers alone end the skipping, and call
-- `onSkipNext` once if the animation was under way and not at all otherwise.
pub settle_lem :
    (n : ℕ) (s : SkipState)
    → Reached n s
    → s.disposed ≡ false
    → ((settle_recovery (settle_skip s)).is_skipping ≡ false)
      × ((settle_recovery (settle_skip s)).skips ≡ s.skips + waiting s.skip_due)
unfolding skip_timer recovery_timer
settle_lem n s r shown = elim (Option-cases s.skip_due) [
  | inl e ↦ elim (Option-cases s.recovery_due) [
    | inl f ↦ rw (e, f) (idle n s r shown e f, omega arith)
    | inr (due, f) ↦ rw (e, f, shown) (refl, omega arith)
  ]
  | inr (due, e) ↦ rw (e, shown) (refl, omega arith)
]
