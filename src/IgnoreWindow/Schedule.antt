-- ===== src/IgnoreWindow/Schedule.antt =====
-- Ignore windows as arcs of the week: the test of activity against an independent description.
use native.Mathlib.Decide.{dec_le}
use feed_reader.Common.{
  ℕ, ◌+◌, ◌-◌, ◌*◌, ◌%◌, ◌<◌, ◌≤◌, ◌≡◌, ◌↔◌, ◌⊎◌, inl, inr, refl, Bool, true, false, ◌&&◌, ◌||◌,
  some, List, arith, if◌then◌else◌, ltb, leb, ◌==◌, nat_eq, list_eq,
}
use feed_reader.Common.Lists.{includes}
use feed_reader.IgnoreWindow.Active.{in_window}

-- The minutes from minute `from` of the week to minute `to`, going round at the end of the week.
abbrev pub elapsed : ℕ → ℕ → ℕ
elapsed from to = (to + 10080 - from) % 10080

-- How long a window lasts: the whole day from midnight to midnight, up to the end on the same day,
-- or over midnight; no time if it ends when it starts at another time of the day.
unfoldable pub duration : ℕ → ℕ → ℕ
duration start end =
    if ltb start end
    then end - start
    else if start == 0
    then 1440
    else if start == end
    then 0
    else end + 1440 - start

-- Some day of the list on which the window opened less than its duration ago.
abbrev pub Covers : List ℕ → ℕ → ℕ → ℕ → ℕ → Type 0
Covers days weekday curr start end =
    (d : ℕ) × (d < 7)
    × (includes days d ≡ true)
    × (elapsed (d * 1440 + start) (weekday * 1440 + curr) < duration start end)

module _ (d w curr start : ℕ) (hd : d < 7) (hw : w < 7) (hc : curr < 1440) (hs : start ≤ 1440) where
  elapsed_today : d ≡ w → start ≤ curr → elapsed (d * 1440 + start) (w * 1440 + curr) ≡ curr - start
  elapsed_today e h = omega arith

  elapsed_yesterday :
      d ≡ (w + 6) % 7
      → curr < start
      → elapsed (d * 1440 + start) (w * 1440 + curr) ≡ curr + 1440 - start
  elapsed_yesterday e h = omega arith

  -- An arc of at most a day that reaches now opened today or yesterday.
  elapsed_opened :
      elapsed (d * 1440 + start) (w * 1440 + curr) < 1440
      → ((d ≡ w) × (start ≤ curr)) ⊎ ((d ≡ (w + 6) % 7) × (curr < start))
  elapsed_opened h = elim (dec_le start curr) [
    | yes p ↦ inl (omega arith, p)
    | no p ↦ inr (omega arith, omega arith)
  ]

-- Today's opening is behind us and not over, or yesterday's is not over yet.
abbrev Opened : List ℕ → ℕ → ℕ → ℕ → ℕ → Type 0
Opened days w curr start end =
    ((includes days w ≡ true) × (start ≤ curr) × (curr - start < duration start end))
    ⊎ ((includes days ((w + 6) % 7) ≡ true)
        × (curr < start)
        × (curr + 1440 - start < duration start end))

-- The decision, for any answers of the two tests for a day.
decide_window : Bool → Bool → ℕ → ℕ → ℕ → Bool
decide_window today yesterday curr start end =
    if ((start == 0) && (end == 0)) || ((start == 0) && (end == 1440))
    then today
    else if ltb start end
    then (if today then leb start curr && ltb curr end else false)
    else if ltb end start
    then (if today && leb start curr
        then true
        else if yesterday && ltb curr end
        then true
        else false)
    else false

module _ (today yesterday : Bool) (curr start end : ℕ) (hc : curr < 1440) (hs : start ≤ 1440)
    (he : end ≤ 1440) where
  decide_window_iff : (decide_window today yesterday curr start end ≡ true) ↔ (
      ((today ≡ true) × (start ≤ curr) × (curr - start < duration start end))
      ⊎ ((yesterday ≡ true) × (curr < start) × (curr + 1440 - start < duration start end)))
  unfolding decide_window duration
  decide_window_iff = ground arith

in_window-decide :
    (days : List ℕ) (w curr start end : ℕ)
    → in_window days w (some curr) (some start) (some end)
      ≡ decide_window (includes days w) (includes days ((w + 6) % 7)) curr start end
unfolding in_window decide_window
in_window-decide days w curr start end = refl

duration-le : (start end : ℕ) → end ≤ 1440 → duration start end ≤ 1440
unfolding duration
duration-le start end h = ground arith

module _ (days : List ℕ) (w curr start end : ℕ) (hw : w < 7) (hc : curr < 1440) (hs : start ≤ 1440)
    (he : end ≤ 1440) where
  Covers-of_Opened : Opened days w curr start end → Covers days w curr start end
  Covers-of_Opened (inl (on, from, until)) =
      (w, hw, on, omega (arith, elapsed_today w w curr start hw hw hc hs refl from))
  Covers-of_Opened (inr (on, from, until)) = (
    (w + 6) % 7,
    omega arith,
    on,
    omega (arith, elapsed_yesterday ((w + 6) % 7) w curr start (omega arith) hw hc hs refl from),
  )

  Opened-of_Covers : Covers days w curr start end → Opened days w curr start end
  Opened-of_Covers (d, hd, on, until) =
      elim (elapsed_opened d w curr start hd hw hc hs (omega (arith, duration-le start end he))) [
        | inl (same, from) ↦
            inl (
              rw same at on,
              from,
              omega (arith, elapsed_today d w curr start hd hw hc hs same from),
            )
        | inr (same, from) ↦ inr (
          rw same at on,
          from,
          omega (arith, elapsed_yesterday d w curr start hd hw hc hs same from),
        )
      ]

  pub in_window_iff :
      (in_window days w (some curr) (some start) (some end) ≡ true) ↔ Covers days w curr start end
  in_window_iff =
      let tests =
        decide_window_iff (includes days w) (includes days ((w + 6) % 7)) curr start end hc hs he in
      (
        λ e. Covers-of_Opened (tests.0 (rw in_window-decide at e)),
        λ c. rw in_window-decide (tests.1 (Opened-of_Covers c)),
      )
