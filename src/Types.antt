-- ===== src/Types.antt =====
-- internal/types: how the props that a component takes are compared with what it is given.
pub mod Canonical
pub mod Shape
pub mod Cache
pub mod Mapper
mod Tests
