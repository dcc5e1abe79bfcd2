-- ===== src/Lib.antt =====
-- Verification of the frontend of feed-reader, an RSS reader: the logic of frontend/src/lib,
-- the state of the main views in frontend/src/components, and the server that the demo and the tests
-- run in the browser, frontend/src/mocks.
--
-- The frontend keeps the server's data in a query cache. A query of items fetches what is newer than
-- the anchor of its filter, page by page, and merges it with the cached list; read states are
-- fetched in the same way and changed optimistically; the lists on the screen are made from both.
--
-- Common: shared names and lemmas. Signed integers, JavaScript's arrays, strings (`Text`: lists of
--   UTF-16 code units), `Number` and `parseInt`, `Map`s and `Set`s as lists, the stable sort.
-- Csv: frontend/src/lib/csv-parser.ts. Csv/Scan is parseCSVRows, one unit a step; Csv/Rules is
--   parseCSVBlockRules.
-- UrlParser: frontend/src/lib/url-parser.ts, URLParser.extractUserInfo. The platform's `URL` is a
--   parameter.
-- IgnoreWindow: frontend/src/lib/ignore-window-db.ts, getLocalTimeInTimezone and
--   isIgnoreWindowActive, in Active. The answer of Intl.DateTimeFormat is a parameter.
-- FetchingState: frontend/src/lib/fetching-state.ts, and refreshFeeds of frontend/src/lib/feed-db.ts.
--   What the store setter of Solid makes of an object is a parameter.
-- Dates: frontend/src/lib/date-utils.ts, and getPublishedSince and formatRelativeDate of
--   frontend/src/lib/item-utils.ts.
--   Dates are milliseconds; how the platform reads a text as a date is a parameter.
-- Categories: normalizeCategories of frontend/src/lib/item-utils.ts. What JSON.parse makes of the text
--   is a parameter.
-- Items: frontend/src/lib/item-db.ts (Items/Fetch: the query function; Items/Merge: its merge;
--   Items/Status: updateItemStatus), frontend/src/lib/item-sync-state.ts (`SyncState`), and
--   frontend/src/lib/item-read-db.ts (Items/Reads). The API calls are parameters: a function from
--   requests to answers, `none` where a call rejects. What other code does to the shared state while
--   a call waits is an argument `meanwhile`.
-- Swipe: frontend/src/lib/use-swipe.ts, a state machine on touch events.
-- Queries: frontend/src/lib/queries. ItemQueries keeps the two WeakMaps of item-queries.ts as lists
--   keyed by the places of the objects in a heap; FeedQueries is feed-queries.ts. The order of a
--   locale is a parameter.
-- Prefetch: frontend/src/lib/item-prefetch.ts, getPrefetchIds.
-- Toasts: frontend/src/lib/toast-store.ts; the timers of the platform are part of the state, and the
--   passing of time is an event.
-- Detail: the view of one item. Navigation is frontend/src/components/ItemDetailRouteView.tsx, its
--   handlers giving the calls that they make (`Effect`); the rest is ItemDetailModal.tsx beside it:
--   Inputs the keys and swipes, Skip the skip with its two timers as a state machine, Menu the block
--   rules on offer, ReadToggle handleToggleRead.
-- ItemView: frontend/src/components/ItemList.tsx over frontend/src/lib/item-store.ts; DateFilter follows
--   a choice through the search of frontend/src/routes/_items.tsx back to the store.
-- FeedView: frontend/src/components/FeedList.tsx, its selection and filters.
-- RuleForm, RuleTable: frontend/src/components/BulkAddBlockRulesModal.tsx, which registers the rules
--   that Csv reads, and frontend/src/routes/block-rules.tsx.
-- WindowForm: frontend/src/components/AddIgnoreWindowModal.tsx; its data are the windows of IgnoreWindow.
-- FeedForm: frontend/src/components/AddFeedForm.tsx over Queries; what feedInsert sends is its request.
-- LinkForm: ManageTagsModal.tsx and ManageIgnoreWindowsModal.tsx of frontend/src/components.
-- HttpClient: frontend/src/lib/api/kubb-client.ts and auth-redirect.ts. JSON, `fetch` and
--   `URLSearchParams` are parameters.
-- ErrorToasts: frontend/src/lib/query.ts over Toasts.
-- FeedSettings: frontend/src/lib/storage-utils.ts and feed-store.ts.
-- Mutations: what the mutations of frontend/src/lib/feed-db.ts, tag-db.ts, block-db.ts and
--   ignore-window-db.ts invalidate; Mutations/Freshness runs them against Mocks.
-- Mocks: frontend/src/mocks/handlers.stateful.ts over the collections of frontend/src/mocks/db.ts
--   (Store), with a handler a function on the database. The package @msw/data is a parameter;
--   nothing is assumed of its updates, whose promises the server does not await.
-- Tests: the theorems at concrete inputs.
--
-- The loops over pages run on fuel, a page a unit, and fail when it runs out, as a call that rejects
-- does; a chain of pages that ends needs as much fuel as it has pages. The loop of getPrefetchIds
-- runs on one unit more than the window is wide, which it never uses up. All other loops are
-- structural.
--
-- Not modelled: the rendering of the Solid components, and the components and routes that are not
-- named above; in the detail view the drag offsets, which are fractional powers, the focus and the
-- parsing of authors, which is the platform's; the generated API client, telemetry, and the server in
-- Go; of the other files, the copying of records from the answers of the API, and the OPML
-- handlers; in the server of the tests, the relation of its feeds to its tags.
pub mod Common
pub mod Csv
pub mod IgnoreWindow
pub mod FetchingState
pub mod Dates
pub mod Items
pub mod UrlParser
pub mod Swipe
pub mod Queries
pub mod Categories
pub mod FeedForm
pub mod Prefetch
pub mod Toasts
pub mod Detail
pub mod HttpClient
pub mod ErrorToasts
pub mod FeedSettings
pub mod LinkForm
pub mod RuleTable
pub mod ItemView
pub mod FeedView
pub mod RuleForm
pub mod WindowForm
pub mod Mocks
pub mod Mutations
mod Tests
