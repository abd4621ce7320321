-- ===== src/Wal.antt =====
-- src/wal/mod.rs and src/wal/heap.rs.
pub mod Values
pub mod Reader
pub mod Safe
pub mod Heap
pub mod Pglz
pub mod Toast
pub mod Record
pub mod Text
pub mod Numeric
pub mod Jsonb
pub mod Tuple
pub mod Encode
