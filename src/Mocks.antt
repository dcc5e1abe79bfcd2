-- ===== src/Mocks.antt =====
-- The server that the demo and the tests run in the browser: frontend/src/mocks.
pub mod Store
pub mod FeedHandlers
pub mod WindowHandlers
pub mod ItemHandlers
pub mod RuleHandlers
pub mod Collections
pub mod Links
pub mod Pages
pub mod Rules
