-- ===== src/Web.antt =====
-- apps/web/src/lib: what the pages keep in the browser, and the addresses of the catalogue.
pub mod Anonymous
pub mod Filters
pub mod Messages
pub mod Json
pub mod Settings
pub mod Storage
mod Tests
