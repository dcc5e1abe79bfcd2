-- ===== src/Tests.antt =====
-- The theorems at concrete inputs.
mod Parsing
mod Windows
mod Sync
mod Reading
mod Swipes
mod Screen
mod Lists
mod Server
mod Detail
mod Views
mod Forms
mod Client
