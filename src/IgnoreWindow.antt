-- ===== src/IgnoreWindow.antt =====
-- frontend/src/lib/ignore-window-db.ts: ignore windows and when one is active.
pub mod Active
pub mod Schedule
pub mod Clock
