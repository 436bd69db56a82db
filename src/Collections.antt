-- ===== src/Collections.antt =====
-- internal/collections: SetMap, a map of sets (setmap.go).
pub mod SetMap
