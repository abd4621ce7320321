-- ===== src/Lib.antt =====
-- open-ltap turns the write-ahead log of a Postgres (or Neon) server into tables of a data lake.
-- This library models its own logic: the parts that read WAL, buffer transactions, decide which
-- row versions are visible and which pages can be served at an LSN.
--
-- A stream of WAL bytes goes to `WalReader::feed`, which gives whole records. A record's opcode and
-- layout say which rows it changes; the changes of a transaction wait in `TxBuffer` until it
-- commits, and out-of-line values wait in `ToastCache`. Pages are read with CLOG and MultiXact data
-- to find the visible versions, and fragments of them answer reads at an LSN. A demoted page is
-- rebuilt from the rows of its fragment, or from their byte-exact tuples.
--
--   Base         machine words, bytes, slices, maps, results and lists that the parts share
--   Schema       src/schema.rs: `PgType`, `Col`, `PhysCol`, `TableDesc`
--   Wal/Reader   src/wal/mod.rs: `WalReader`; a round of the loop in `feed` is `round`
--   Wal/Safe     what a parser keeps that stays inside its input and ends
--   Wal/Heap     src/wal/heap.rs: opcodes, and the fixed parts of heap, xact and smgr records
--   Wal/Pglz     src/wal/heap.rs: `pglz_decompress`
--   Wal/Toast    src/wal/heap.rs: `ToastCache`, `decode_varlena`, `decode_toast_chunk`
--   Wal/Values   src/wal/heap.rs: `Value`, `Row`
--   Wal/Record   src/wal/mod.rs: `parse_record`, `PageImage`
--   Wal/Text     src/wal/heap.rs: UTF-8 text, `format_uuid`, `write_json_string`
--   Wal/Numeric  src/wal/heap.rs: `numeric_to_string`, `numeric_from_binary`, `numeric_from_string`
--   Wal/Jsonb    src/wal/heap.rs: `jsonb_to_string`
--   Wal/Tuple    src/wal/heap.rs: `decode_value`, `decode_tuple_payload` and the tuple decoders
--   Wal/Encode   src/wal/heap.rs: `encode_attrs`
--   Engine       src/engine.rs: `Table`, `Engine`, `handle_record`, commits, aborts and flushes
--   Engine/Tables  src/engine.rs: `maybe_compact`, `rebuild_routing`, `reshape_rows`, `tables_to_attach`
--   Fragment     src/fragment.rs: `chain_roots`, `visible_version`, `emit_page`, `emit_page_raw`
--   Reconstruct  src/reconstruct.rs: `build_page`, `RawTuple`, `pg_checksum_page`
--   TxBuf        src/txbuf.rs: `TxBuffer`
--   Timetravel   src/timetravel.rs: `Lake`, `Branch`, `effective_gc_horizon`
--   Clog         src/clog.rs: transaction status and `tuple_visible`
--   Multixact    src/multixact.rs: `resolve_updater`
--
-- Functions and fields have the source's names. State passes explicitly; `anyhow::Result` is
-- `Result`, where `panic` stands for an index or a slice out of range. Unsigned words are natural
-- numbers with the wrap-around written out where the source can reach it; LSNs are far from 2 ^ 64.
-- Hash maps are association lists with one entry for a key. The loop of `feed` runs on fuel, two
-- rounds for each byte and two more; the loop of `pglz_decompress` has a round for each byte. The
-- lz4 and zstd decompressors and the CRC are other packages, and parameters, as are the sources
-- of CLOG and MultiXact pages and the sink that a flush appends to. The header loop of
-- `parse_record` has a round for each byte, and a HOT chain the source's own bound of 1024 rounds.
--
-- The nesting of jsonb is the source's own bound of 200. A fixed-width value is its bit pattern, and
-- a text its UTF-8 bytes; epochs are added with the wrap-around of release builds. The oracle that
-- `handle_record` may ask for an old page is a parameter, a function of relation, block and position.
--
-- Not modelled: the network protocol (src/pgwire.rs), SQL (src/schema.rs, src/snapshot.rs), the
-- Delta and HTTP ends (src/sink.rs, src/serve.rs), configuration and start-up (src/embed.rs,
-- src/main.rs), log messages, and so far also src/catalog.rs, and in src/engine.rs the checks of the
-- catalog and what they do to the tables.
mod Base
pub mod Schema
pub mod Wal
pub mod TxBuf
pub mod Timetravel
pub mod Multixact
pub mod Clog
pub mod Engine
pub mod Fragment
mod Tests
pub mod Reconstruct
