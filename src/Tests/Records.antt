-- ===== src/Tests/Records.antt =====
-- A record through `handle_record`.
use open_ltap.Base.{
  ℕ, Bool, true, false, List, [], ◌∷◌, ◌++◌, Option, none, some, Bytes, Result, ok, err, panic, ◌≡◌,
  refl, length, All, lookup, pair_eq, nat_eq, arith,
}
use open_ltap.Wal.Record.{parse_record}
use open_ltap.Engine.{Engine, Table, EmitRow, Mirror}
use open_ltap.Engine.Records.{handle_record}
use Prim.Native.String.{String}
use open_ltap.Schema.{Col, int4}
use open_ltap.Wal.Values.{Value}
use open_ltap.Engine.Tables.{
  collapsed, compacts, vacuums, maybe_compact, compact_tables, reshape_rows,
}
use open_ltap.Engine.Compaction.{IsBounded, Compacted, IsDueCall, maybe_compact-IsBounded}
use open_ltap.Engine.Reshape.{reshaped, lookup-reshape_rows}
use open_ltap.Engine.Keeps.{SameContents}
use open_ltap.Engine.Isolation.{is_commit, handle_record-SameContents}
use open_ltap.Tests.Pages.{codecs, desc}

abbrev table : Table
table = record {
  desc = desc;
  mirror = [];
  dedupe_below = 0;
  pending = record { rows = []; first_at = none; max_commit_lsn = 0; seq = 0 };
  needs_resnapshot = false;
  rows_since_compaction = 0;
}

abbrev engine : Engine
engine = record {
  tables = table ∷ [];
  rel_to_table = (16384, 0) ∷ [];
  toast_rels = [];
  catalog_rels = 1259 ∷ [];
  txbuf = record { open_txs = [] };
  toast = record { vals = [] };
  last_commit_lsn = 90;
  smgr_suspects = [];
  remap_at = none;
  db_oid = 5;
}

-- A heap insert by transaction 700: the record's header, block 0 with ten bytes of data, three bytes
-- of main data, and the two data sections.
abbrev heap_insert : Bytes
heap_insert =
    (59 ∷ 0 ∷ 0 ∷ 0 ∷ 188 ∷ 2 ∷ 0 ∷ 0 ∷ 0 ∷ 0 ∷ 0 ∷ 0 ∷ 0 ∷ 0 ∷ 0 ∷ 0 ∷ 0 ∷ 10 ∷ 0 ∷ 0 ∷ 0 ∷ 0 ∷ 0
      ∷ 0 ∷ [])
    ++ (0 ∷ 32 ∷ 10 ∷ 0 ∷ 127 ∷ 6 ∷ 0 ∷ 0 ∷ 5 ∷ 0 ∷ 0 ∷ 0 ∷ 0 ∷ 64 ∷ 0 ∷ 0 ∷ 3 ∷ 0 ∷ 0 ∷ 0 ∷ [])
    ++ (255 ∷ 3 ∷ [])
    ++ (1 ∷ 0 ∷ 0 ∷ 8 ∷ 24 ∷ 0 ∷ 7 ∷ 0 ∷ 0 ∷ 0 ∷ [])
    ++ (4 ∷ 0 ∷ 0 ∷ [])

abbrev engine_of : Result (Engine × List (ℕ × List EmitRow)) → Engine
engine_of (ok (e, rows)) = e
engine_of _ = engine

abbrev inserted : Engine
inserted = engine_of (handle_record codecs none 100 9 heap_insert engine)

abbrev nothing : List (ℕ × List EmitRow)
nothing = []

is_inserted : handle_record codecs none 100 9 heap_insert engine ≡ ok (inserted, [])
unfolding handle_record open_ltap.Engine.Records.dispatch open_ltap.Engine.Records.handle_heap
    open_ltap.Engine.Records.find_block open_ltap.Engine.Records.heap_op
    open_ltap.Engine.Records.row_insert open_ltap.Engine.Records.block_content
    open_ltap.Wal.Heap.normalize_dml open_ltap.Wal.Heap.insert_offnum
    open_ltap.Wal.Heap.wal_heap_header open_ltap.Wal.Record.with_hole open_ltap.Wal.Record.take_n
    open_ltap.Wal.Record.word open_ltap.Wal.Record.hole_length open_ltap.Wal.Record.image_hdr
    open_ltap.Wal.Record.image_if open_ltap.Wal.Record.rel_tag open_ltap.Wal.Record.block_hdr
    open_ltap.Wal.Record.main_hdr open_ltap.Wal.Record.block_item open_ltap.Wal.Record.passed
    open_ltap.Wal.Record.header_item open_ltap.Wal.Record.headers open_ltap.Wal.Record.image_of
    open_ltap.Wal.Record.data_of open_ltap.Wal.Record.data_section open_ltap.Wal.Record.image_body
    open_ltap.Wal.Record.check_crc open_ltap.Wal.Record.parse_record
    open_ltap.Wal.Tuple.decode_insert_tuple open_ltap.Wal.Tuple.decode_tuple_payload
    open_ltap.Wal.Tuple.columns open_ltap.Wal.Tuple.column open_ltap.Wal.Tuple.present_column
    open_ltap.Wal.Tuple.null_at open_ltap.Wal.Tuple.decode_value open_ltap.Wal.Tuple.fixed
    open_ltap.Wal.Tuple.or_old open_ltap.Wal.Tuple.skip_dropped open_ltap.Base.slice?
    open_ltap.Base.u16_at open_ltap.Base.u32_at open_ltap.Base.u8_at open_ltap.Base.index
    open_ltap.Base.range open_ltap.Base.le open_ltap.Base.get? open_ltap.Base.has_bit
    open_ltap.Base.tail? open_ltap.Base.align_to open_ltap.Base.lookup open_ltap.Base.insert
    open_ltap.TxBuf.add_op open_ltap.TxBuf.add_to open_ltap.TxBuf.apply
is_inserted = refl

is_no_commit : is_commit (parse_record codecs heap_insert) ≡ false
unfolding open_ltap.Wal.Record.with_hole open_ltap.Wal.Record.take_n open_ltap.Wal.Record.word
    open_ltap.Wal.Record.hole_length open_ltap.Wal.Record.image_hdr open_ltap.Wal.Record.image_if
    open_ltap.Wal.Record.rel_tag open_ltap.Wal.Record.block_hdr open_ltap.Wal.Record.main_hdr
    open_ltap.Wal.Record.block_item open_ltap.Wal.Record.passed open_ltap.Wal.Record.header_item
    open_ltap.Wal.Record.headers open_ltap.Wal.Record.image_of open_ltap.Wal.Record.data_of
    open_ltap.Wal.Record.data_section open_ltap.Wal.Record.image_body open_ltap.Wal.Record.check_crc
    open_ltap.Wal.Record.parse_record open_ltap.Base.slice? open_ltap.Base.u16_at
    open_ltap.Base.u32_at open_ltap.Base.u8_at open_ltap.Base.index open_ltap.Base.range
    open_ltap.Base.le open_ltap.Base.get? open_ltap.Base.has_bit open_ltap.Base.tail?
    open_ltap.Base.align_to open_ltap.Base.lookup open_ltap.Base.insert
is_no_commit = refl

-- It leaves one open transaction.
is_buffered : length inserted.txbuf.open_txs ≡ 1
unfolding handle_record open_ltap.Engine.Records.dispatch open_ltap.Engine.Records.handle_heap
    open_ltap.Engine.Records.find_block open_ltap.Engine.Records.heap_op
    open_ltap.Engine.Records.row_insert open_ltap.Engine.Records.block_content
    open_ltap.Wal.Heap.normalize_dml open_ltap.Wal.Heap.insert_offnum
    open_ltap.Wal.Heap.wal_heap_header open_ltap.Wal.Record.with_hole open_ltap.Wal.Record.take_n
    open_ltap.Wal.Record.word open_ltap.Wal.Record.hole_length open_ltap.Wal.Record.image_hdr
    open_ltap.Wal.Record.image_if open_ltap.Wal.Record.rel_tag open_ltap.Wal.Record.block_hdr
    open_ltap.Wal.Record.main_hdr open_ltap.Wal.Record.block_item open_ltap.Wal.Record.passed
    open_ltap.Wal.Record.header_item open_ltap.Wal.Record.headers open_ltap.Wal.Record.image_of
    open_ltap.Wal.Record.data_of open_ltap.Wal.Record.data_section open_ltap.Wal.Record.image_body
    open_ltap.Wal.Record.check_crc open_ltap.Wal.Record.parse_record
    open_ltap.Wal.Tuple.decode_insert_tuple open_ltap.Wal.Tuple.decode_tuple_payload
    open_ltap.Wal.Tuple.columns open_ltap.Wal.Tuple.column open_ltap.Wal.Tuple.present_column
    open_ltap.Wal.Tuple.null_at open_ltap.Wal.Tuple.decode_value open_ltap.Wal.Tuple.fixed
    open_ltap.Wal.Tuple.or_old open_ltap.Wal.Tuple.skip_dropped open_ltap.Base.slice?
    open_ltap.Base.u16_at open_ltap.Base.u32_at open_ltap.Base.u8_at open_ltap.Base.index
    open_ltap.Base.range open_ltap.Base.le open_ltap.Base.get? open_ltap.Base.has_bit
    open_ltap.Base.tail? open_ltap.Base.align_to open_ltap.Base.lookup open_ltap.Base.insert
    open_ltap.TxBuf.add_op open_ltap.TxBuf.add_to open_ltap.TxBuf.apply
is_buffered = refl

handle_record-SameContents_example : SameContents engine inserted × (nothing ≡ [])
handle_record-SameContents_example =
    handle_record-SameContents codecs none 100 9 engine heap_insert inserted [] is_no_commit
      is_inserted

-- A table with a key and a log past a threshold of 3, beside one without a key.
abbrev keyed : Table
keyed = record table { desc = record desc { pk = "number" ∷ [] }; rows_since_compaction = 5 }

abbrev two_tables : Engine
two_tables = record engine { tables = table ∷ keyed ∷ [] }

is_compacted : (maybe_compact 3 true (λ t. collapsed) two_tables).1 ≡ compacts 1 ∷ vacuums 1 ∷ []
unfolding maybe_compact compact_tables
is_compacted = refl

maybe_compact-IsBounded_example :
    let (e', calls) = maybe_compact 3 true (λ t. collapsed) two_tables in
    All (IsBounded 3 true (λ t. collapsed)) e'.tables
    × Compacted 3 true (λ t. collapsed) two_tables.tables e'.tables
    × (e' ≡ record two_tables { tables = e'.tables })
    × All (IsDueCall 3 true (λ t. collapsed) 0 two_tables.tables) calls
maybe_compact-IsBounded_example =
    maybe_compact-IsBounded 3 true (λ t. collapsed) two_tables (omega arith)

-- The columns of the mirror's rows, renamed, reordered, and one of them new.
abbrev col : String → Col
col name = record { name = name; ty = int4 }

abbrev mirror : Mirror
mirror = ((0, 1), record { row = some (Value.i32 7) ∷ some (Value.i32 8) ∷ []; attrs = none }) ∷ []

lookup-reshape_rows_example :
    lookup (0, 1) (reshape_rows mirror (col "a" ∷ col "b" ∷ []) (col "b" ∷ col "c" ∷ []))
    ≡ reshaped (col "a" ∷ col "b" ∷ []) (col "b" ∷ col "c" ∷ []) (lookup (0, 1) mirror)
lookup-reshape_rows_example =
    lookup-reshape_rows mirror (col "a" ∷ col "b" ∷ []) (col "b" ∷ col "c" ∷ []) (0, 1)

reshape_rows_first :
    lookup (0, 1) (reshape_rows mirror (col "a" ∷ col "b" ∷ []) (col "b" ∷ col "c" ∷ []))
    ≡ some (record { row = some (Value.i32 8) ∷ none ∷ []; attrs = none })
unfolding lookup reshape_rows open_ltap.Engine.Tables.reshape_row open_ltap.Engine.Tables.position
reshape_rows_first = refl
