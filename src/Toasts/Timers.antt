-- ===== src/Toasts/Timers.antt =====
-- Every toast on the screen has a timer, and none outlives its time.
use feed_reader.Common.{
  ℕ, ◌+◌, String, ◌≡◌, refl, ap, sym, ◌∙◌, Bool, true, false, not, ◌&&◌, ◌||◌, List, [], ◌∷◌, ◌++◌,
  arith, leb, ltb, ◌==◌, ==_iff, ==_refl, string_eq, nat_eq, Bool-cases, inl, inr,
}
use feed_reader.Common.Lists.{filter, any, All}
use feed_reader.Toasts.{
  Toast, ToastType, Timer, ToastState, dismissed, show, dismiss, clear, fire, pass,
}

-- The timer of a toast.
abbrev pub is_timer_of : Toast → Timer → Bool
is_timer_of toast timer = (timer.id == toast.id) && (timer.due == toast.expires_at)

-- The toast has not expired, and a timer waits to dismiss it.
abbrev pub IsAwaited : List Timer → ℕ → Toast → Type 0
IsAwaited timers clock toast =
    (ltb clock toast.expires_at ≡ true) × (any timers (is_timer_of toast) ≡ true)

abbrev pub IsTimed : ToastState → Type 0
IsTimed s = All (IsAwaited s.timers s.clock) s.toasts

pub data Event : Type 0 where
  shows : (id message : String) (kind : ToastType) → Event
  dismisses : (id : String) → Event
  clears : Event
  passes : (now : ℕ) → Event

unfoldable pub happen : Event → ToastState → ToastState
unfolding show dismiss clear pass
happen (shows id message kind) s = show id message kind s
happen (dismisses id) s = dismiss id s
happen clears s = clear s
happen (passes now) s = pass now s

All-filter :
    (P : Toast → Type 0) (p : Toast → Bool) (xs : List Toast) → All P xs → All P (filter p xs)
All-filter P p [] all = tt
All-filter P p (x ∷ xs) (h, all) = elim (Bool-cases (p x)) [
  | inl e ↦ rw e (h, All-filter P p xs all)
  | inr e ↦ rw e (All-filter P p xs all)
]

any-more :
    (p : Timer → Bool) (timers : List Timer) (timer : Timer)
    → any (timers ++ (timer ∷ [])) p ≡ (any timers p || p timer)
any-more p [] timer = ground arith
any-more p (x ∷ timers) timer = ground (arith, any-more p timers timer)

All-shown :
    (timers : List Timer) (clock : ℕ) (timer : Timer) (toast : Toast) (toasts : List Toast)
    → All (IsAwaited timers clock) toasts
    → IsAwaited (timers ++ (timer ∷ [])) clock toast
    → All (IsAwaited (timers ++ (timer ∷ [])) clock) (toasts ++ (toast ∷ []))
All-shown timers clock timer toast [] all new = (new, tt)
All-shown timers clock timer toast (x ∷ toasts) ((late, awaited), all) new = (
  (late, any-more (is_timer_of x) timers timer ∙ rw awaited),
  All-shown timers clock timer toast toasts all new,
)

-- No timer of the list dismisses the toast by `now`.
abbrev is_kept : ℕ → List Timer → Toast → Bool
is_kept now [] toast = true
is_kept now (timer ∷ timers) toast =
    not (leb timer.due now && (toast.id == timer.id)) && is_kept now timers toast

fire-kept :
    (now : ℕ) (timers : List Timer) (toasts : List Toast)
    → fire now timers toasts ≡ filter (is_kept now timers) toasts
unfolding fire dismissed
fire-kept now [] toasts = sym (filter_true toasts)
  where
    filter_true : (xs : List Toast) → filter (λ x. true) xs ≡ xs
    filter_true [] = refl
    filter_true (x ∷ xs) = ap (λ ys. x ∷ ys) (filter_true xs)
fire-kept now (timer ∷ timers) toasts = elim (Bool-cases (leb timer.due now)) [
  | inl e ↦
      let fired : fire now (timer ∷ timers) toasts
          ≡ filter (is_kept now timers) (filter (λ (t : Toast). not (t.id == timer.id)) toasts) =
        rw e (fire-kept now timers (filter (λ (t : Toast). not (t.id == timer.id)) toasts)) in
      fired ∙ twice e toasts
  | inr e ↦
      let waits : fire now (timer ∷ timers) toasts ≡ filter (is_kept now timers) toasts =
        rw e (fire-kept now timers toasts) in
      waits ∙ once e toasts
]
  where
    twice :
        leb timer.due now ≡ true
        → (xs : List Toast)
        → filter (is_kept now timers) (filter (λ (t : Toast). not (t.id == timer.id)) xs)
          ≡ filter (is_kept now (timer ∷ timers)) xs
    twice due [] = refl
    twice due (x ∷ xs) = elim (Bool-cases (x.id == timer.id)) [
      | inl e ↦ rw (due, e) (twice due xs)
      | inr e ↦
          rw (due, e)
            (elim (Bool-cases (is_kept now timers x)) [
              | inl k ↦ rw k (ap (λ ys. x ∷ ys) (twice due xs))
              | inr k ↦ rw k (twice due xs)
            ])
    ]

    once :
        leb timer.due now ≡ false
        → (xs : List Toast)
        → filter (is_kept now timers) xs ≡ filter (is_kept now (timer ∷ timers)) xs
    once later [] = refl
    once later (x ∷ xs) = elim (Bool-cases (is_kept now timers x)) [
      | inl k ↦ rw (later, k) (ap (λ ys. x ∷ ys) (once later xs))
      | inr k ↦ rw (later, k) (once later xs)
    ]

kept-awaited :
    (now : ℕ) (timers : List Timer) (toast : Toast)
    → is_kept now timers toast ≡ true
    → any timers (is_timer_of toast) ≡ true
    → (ltb now toast.expires_at ≡ true)
      × (any (filter (λ (t : Timer). not (leb t.due now)) timers) (is_timer_of toast) ≡ true)
kept-awaited now [] toast k h = cc
kept-awaited now (timer ∷ timers) toast k h =
    ground
      (arith, kept-awaited now timers toast, ==_iff timer.id toast.id, ==_iff toast.id timer.id)

All-kept :
    (now clock : ℕ) (timers : List Timer) (toasts : List Toast)
    → All (IsAwaited timers clock) toasts
    → All
        (IsAwaited (filter (λ (t : Timer). not (leb t.due now)) timers) now)
        (filter (is_kept now timers) toasts)
All-kept now clock timers [] all = tt
All-kept now clock timers (x ∷ xs) ((late, awaited), all) =
    elim (Bool-cases (is_kept now timers x)) [
      | inl e ↦ rw e (kept-awaited now timers x e awaited, All-kept now clock timers xs all)
      | inr e ↦ rw e (All-kept now clock timers xs all)
    ]

-- Whatever happens, every toast on the screen has time left, and a timer waits to dismiss it when
-- that is over.
pub happen-IsTimed : (e : Event) (s : ToastState) → IsTimed s → IsTimed (happen e s)
unfolding happen show dismiss clear pass dismissed
happen-IsTimed (shows id message kind) s timed =
    All-shown s.timers s.clock _ _ s.toasts timed
      (ground arith, any-more _ s.timers _ ∙ rw (==_refl id, ==_refl (s.clock + 5000)) (or_true _))
  where
    or_true : (b : Bool) → (b || true) ≡ true
    or_true true = refl
    or_true false = refl
happen-IsTimed (dismisses id) s timed = All-filter (IsAwaited s.timers s.clock) _ s.toasts timed
happen-IsTimed clears s timed = tt
happen-IsTimed (passes now) s timed =
    rw (fire-kept now s.timers s.toasts) (All-kept now s.clock s.timers s.toasts timed)
