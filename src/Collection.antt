-- ===== src/Collection.antt =====
-- The collector of sources: src/mei/infrastructure/collection/http_fetcher.py, which fetches a URL, and
-- parser.py, which cuts a text into chunks.
pub mod Fetcher
pub mod Chunks
mod Tests
