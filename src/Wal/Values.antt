-- ===== src/Wal/Values.antt =====
-- src/wal/heap.rs: decoded values and rows. A fixed-width value is its bit pattern, an `i32` a
-- number below 2 ^ 32 that stands for it in two's complement, a float its IEEE bits; a text is
-- its UTF-8 bytes.
use open_ltap.Base.{ℕ, Bool, List, Option, Bytes}

pub data Value : Type 0 where
  bool : Bool → Value
  i16 i32 i64 f32 f64 : ℕ → Value
  text bytes : Bytes → Value

abbrev pub Row : Type 0
Row = List (Option Value)
