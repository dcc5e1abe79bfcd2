-- ===== src/Detail.antt =====
-- The view of a single item: frontend/src/components/ItemDetailRouteView.tsx and
-- frontend/src/components/ItemDetailModal.tsx.
pub mod Navigation
pub mod ReadToggle
pub mod Skip
pub mod Menu
pub mod Inputs
