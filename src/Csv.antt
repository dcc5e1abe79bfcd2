-- ===== src/Csv.antt =====
-- frontend/src/lib/csv-parser.ts: the CSV scanner and the block rules read from its rows. A text is
-- the list of its UTF-16 code units.
pub mod Scan
pub mod Rules
pub mod RoundTrip
pub mod RulesLaws
