-- ===== src/Static.antt =====
-- internal/static: the keys that files get in the generated module, and the manifest of the files that
-- can be served.
pub mod Keys
pub mod Manifest
pub mod Scan
pub mod Serving
pub mod Config
mod Tests
