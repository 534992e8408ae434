-- ===== src/Import.antt =====
-- The import track (src-tauri/src/import): cookies of other browsers, deduplicated and filtered, and
-- where those browsers keep their data.
pub mod Dedupe
pub mod Catalog
pub mod Detect
pub mod Cookies
