-- ===== src/Forge.antt =====
-- ldfd/forge: what a forge discovers, and how its versions are filtered and ordered.
pub mod Types
pub mod Glob
pub mod Version
pub mod Filter
