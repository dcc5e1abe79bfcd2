-- ===== src/Queries.antt =====
-- frontend/src/lib/queries/: what the pages show, computed from the cached lists.
pub mod ItemQueries
pub mod CacheLaws
pub mod Counts
pub mod FeedQueries
