-- ===== src/Toasts.antt =====
-- frontend/src/lib/toast-store.ts: the toasts on the screen, and the timers that dismiss them. Times
-- are milliseconds; a timer fires when the clock reaches its time.
pub mod Timers
use feed_reader.Common.{
  ℕ, ◌+◌, String, Bool, true, false, not, List, [], ◌∷◌, ◌++◌, if◌then◌else◌, leb, ◌==◌, string_eq,
}
use feed_reader.Common.Lists.{filter}

pub data ToastType : Type 0 where
  success failure info : ToastType

pub record Toast : Type 0 where
  pub id : String
  pub message : String
  pub kind : ToastType
  pub expires_at : ℕ

pub record Timer : Type 0 where
  pub due : ℕ
  pub id : String

-- The toasts, the timers that have not fired, and the clock.
pub record ToastState : Type 0 where
  pub toasts : List Toast
  pub timers : List Timer
  pub clock : ℕ

unfoldable pub dismissed : String → List Toast → List Toast
dismissed id toasts = filter (λ (t : Toast). not (t.id == id)) toasts

unfoldable pub show : String → String → ToastType → ToastState → ToastState
show id message kind s = record s {
  toasts =
      s.toasts
      ++ (record { id = id; message = message; kind = kind; expires_at = s.clock + 5000 } ∷ []);
  timers = s.timers ++ (record { due = s.clock + 5000; id = id } ∷ []);
}

unfoldable pub dismiss : String → ToastState → ToastState
unfolding dismissed
dismiss id s = record s { toasts = dismissed id s.toasts }

unfoldable pub clear : ToastState → ToastState
clear s = record s { toasts = [] }

-- The timers whose time has come call `dismiss`, in order.
unfoldable pub fire : ℕ → List Timer → List Toast → List Toast
unfolding dismissed
fire now [] toasts = toasts
fire now (timer ∷ timers) toasts =
    fire now timers (if leb timer.due now then dismissed timer.id toasts else toasts)

-- Time passes until `now`.
unfoldable pub pass : ℕ → ToastState → ToastState
unfolding fire
pass now s = record {
  toasts = fire now s.timers s.toasts;
  timers = filter (λ (t : Timer). not (leb t.due now)) s.timers;
  clock = now;
}
