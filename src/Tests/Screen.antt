-- ===== src/Tests/Screen.antt =====
-- Toasts at concrete times.
use feed_reader.Common.{refl, [], ◌∷◌}
use feed_reader.Toasts.{info, ToastState}
use feed_reader.Toasts.Timers.{IsTimed, passes, happen, happen-IsTimed}

-- Two toasts, shown one after the other.
abbrev on_screen : ToastState
on_screen = record {
  toasts =
      record { id = "a"; message = "A"; kind = info; expires_at = 5000 }
      ∷ record { id = "b"; message = "B"; kind = info; expires_at = 7000 }
      ∷ [];
  timers = record { due = 5000; id = "a" } ∷ record { due = 7000; id = "b" } ∷ [];
  clock = 2000;
}

happen-IsTimed_example : IsTimed (happen (passes 6000) on_screen)
happen-IsTimed_example = happen-IsTimed (passes 6000) on_screen ((refl, refl), ((refl, refl), tt))
