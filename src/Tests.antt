-- ===== src/Tests.antt =====
-- The theorems at concrete inputs.
mod Pages
mod Rows
mod Records
mod Buffers
mod Lakes
mod Visibility
use open_ltap.Base.{
  panic, Option, corrupt, Error, out_of_fuel, sym, ℕ, suc, ◌+◌, ◌-◌, ◌*◌, ◌%◌, ◌/◌, ◌^◌, ◌≤◌, ◌<◌,
  Bool, true, false, List, [], ◌∷◌, ◌++◌, Option, none, some, ◌≡◌, ◌≢◌, ◌↔◌, refl, ◌⊎◌, inl, inr,
  arith, Result, ok, err, ◌>>=◌, ok_or, Bytes, length, All, get_elem?, replicate, if◌then◌else◌,
  ◌==◌, ◌||◌, Bool-cases, subst, zero, lookup, nat_eq, pair_eq, needs_multixact,
  unbounded_multixact, stream_gap, truncated,
}
use open_ltap.Wal.Reader.{WalReader, new, feed, extend, rounds, round, avail}
use open_ltap.Wal.Reader.Progress.{IsReading, Ends, AllComplete, feed-Ends}
use open_ltap.Wal.Reader.Chunks.{IsWhole, then_feed, feed-append}
use open_ltap.TxBuf.{
  Ctid, RowVersion, inserts, updates, deletes, default, commit, abort, apply, oldest_first_lsn,
  pack_ctid, unpack_ctid,
}
use open_ltap.TxBuf.History.{
  inside, outside, log_run, Refines, mem, Event, adds, aborts, run, inside, log_run, Refines, view,
  default-Refines, run-Refines,
}
use open_ltap.TxBuf.Commit.{InOrder, added, commit-run, abort-run}
use open_ltap.TxBuf.Restart.{IsRising, Covers, oldest_first_lsn-run}
use open_ltap.TxBuf.Overlay.{shows, lookup-apply}
use open_ltap.Timetravel.{
  uncovered, Lake, Branch, Resolve, image_redundant, resolve_branch, effective_gc_horizon,
}
use open_ltap.Timetravel.Resolution.{Answers, resolve-Answers}
use open_ltap.Timetravel.Retention.{
  Serves, image_redundant-Serves, branch_gc_safe, effective_gc_horizon-greatest,
}
use open_ltap.Clog.{
  page_sz, resolve, ClogSource, committed, tuple_visible, tuple_visible_with_multixact, lock_only,
  is_multi, status_in_page, status_of_bits, clog_xacts_per_page,
}
use open_ltap.Clog.Visibility.{
  Says, tuple_visible_iff, tuple_visible-needs_multixact, tuple_visible_with_multixact-updater,
  tuple_visible_with_multixact-extends,
}
use open_ltap.Clog.Layout.{entries, status_in_page-entries}
use open_ltap.Wal.Safe.{Clean}
use open_ltap.Wal.Toast.{Codecs}
use open_ltap.Wal.Toast.RoundTrip.{add_chunks, resolve-add_chunks}
use open_ltap.Wal.Heap.{vanilla, neon, raw_attrs_from_page, parse_update_main, multi_insert_offsets}
use open_ltap.Wal.Heap.Safety.{
  raw_attrs_from_page-Clean, parse_update_main-Clean, multi_insert_offsets-Clean,
}
use open_ltap.Wal.Record.{parse_record}
use open_ltap.Wal.Record.Safety.{parse_record-Clean}
use open_ltap.Wal.Pglz.{pglz_decompress}
use open_ltap.Wal.Pglz.Safety.{pglz_decompress-Ends}
use open_ltap.Engine.{
  has, handle_abort, EmitRow, Table, Engine, handle_commit, restart_lsn, pending_total,
}
use open_ltap.Engine.CommitLoop.{of_table}
use open_ltap.Engine.Commit.{Outcome, handle_commit-Tables}
use open_ltap.Engine.Batches.{IsBatch, handle_commit-IsBatch}
use open_ltap.Engine.Abort.{Disowned, handle_abort-Isolates}
use open_ltap.Engine.Flush.{flush_all, flush_all-Outcome, restart_lsn-Covers}
use open_ltap.Fragment.{
  LinePointer, TupleHdr, line_pointer, read_header, max_chain, visible_version,
}
use open_ltap.Fragment.Chains.{EndsAt, visible_version_iff}
use open_ltap.Multixact.{
  MultiXactSource, resolve_updater, read_member, read_offset, member_location, offset_page_entry,
}
use open_ltap.Multixact.Updater.{FirstUpdater, resolve_updater-FirstUpdater}
use open_ltap.Tests.Buffers.{version, history, history-InOrder, history-IsRising}
use open_ltap.Tests.Visibility.{page, all_committed}

-- A reader in the middle of a page, and a record of 26 bytes in two chunks.
abbrev mid_page : WalReader
mid_page = record {
  pos = 8216;
  pending = [];
  skip_left = 0;
  started = true;
  rec = [];
  rec_lsn = 0;
  need = 0;
}

abbrev first_chunk : Bytes
first_chunk = 26 ∷ 0 ∷ 0 ∷ 0 ∷ 7 ∷ 7 ∷ 7 ∷ 7 ∷ 7 ∷ 7 ∷ []

abbrev second_chunk : Bytes
second_chunk = 1 ∷ 2 ∷ 3 ∷ 4 ∷ 5 ∷ 6 ∷ 7 ∷ 8 ∷ 9 ∷ 10 ∷ 11 ∷ 12 ∷ 13 ∷ 14 ∷ 15 ∷ 16 ∷ []

mid_page-IsReading : IsReading mid_page
mid_page-IsReading = record { unfinished = inl refl; header = inl refl }

first_chunk-IsWhole : IsWhole (rounds (extend first_chunk mid_page)) (extend first_chunk mid_page)
unfolding round open_ltap.Base.le open_ltap.Wal.Reader.new_record open_ltap.Wal.Reader.body
first_chunk-IsWhole = (refl, (refl, (refl, tt)))

feed-append_example :
    feed mid_page 8216 (first_chunk ++ second_chunk)
    ≡ (feed mid_page 8216 first_chunk >>= then_feed 8226 second_chunk)
feed-append_example =
    feed-append mid_page 8216 first_chunk second_chunk mid_page-IsReading first_chunk-IsWhole
      (omega arith)

feed-Ends_example :
    ((mid_page.pos ≡ mid_page.pos)
      × Ends (extend first_chunk mid_page) (feed mid_page mid_page.pos first_chunk)
      × AllComplete (extend first_chunk mid_page) (feed mid_page mid_page.pos first_chunk))
    ⊎ ((mid_page.pos ≢ mid_page.pos) × (feed mid_page mid_page.pos first_chunk ≡ err stream_gap))
feed-Ends_example = feed-Ends mid_page mid_page.pos first_chunk mid_page-IsReading

-- An engine with two tables that the history's operations change.
abbrev empty_table : Table
empty_table = record {
  desc = record {
    name = "t";
    oid = 1;
    db_oid = 5;
    rel_node = 100;
    toast_rel_node = none;
    cols = [];
    phys = [];
    has_fast_defaults = false;
    pk = [];
  };
  mirror = [];
  dedupe_below = 0;
  pending = record { rows = []; first_at = none; max_commit_lsn = 0; seq = 0 };
  needs_resnapshot = false;
  rows_since_compaction = 0;
}

abbrev engine : Engine
engine = record {
  tables = empty_table ∷ empty_table ∷ [];
  rel_to_table = [];
  toast_rels = [];
  catalog_rels = [];
  txbuf = run default history;
  toast = record { vals = [] };
  last_commit_lsn = 0;
  smgr_suspects = [];
  remap_at = none;
  db_oid = 5;
}

history_left : All (λ o. o.table < 2) (inside (7 ∷ 8 ∷ []) (log_run [] history))
unfolding log_run
history_left = (omega arith, (omega arith, (omega arith, tt)))

history_in_range : All (λ o. o.table < 2) (commit engine.txbuf 7 (8 ∷ [])).0
history_in_range =
    subst (λ os. All (λ o. o.table < 2) os) (sym (commit-run history 7 (8 ∷ []) history-InOrder))
      history_left

handle_commit-Tables_example :
    (e' : Engine) × (rows : List (ℕ × List EmitRow)) × (handle_commit 9 130 7 (8 ∷ []) engine
      ≡ ok (e', rows))
    × Refines e'.txbuf (outside (7 ∷ 8 ∷ []) (log_run [] history))
    × (e'.last_commit_lsn ≡ 130)
    × ((i : ℕ) (t : Table)
        → get_elem? engine.tables i ≡ some t
        → (t' : Table) × (get_elem? e'.tables i ≡ some t')
          × Outcome 130
              (of_table i (inside (7 ∷ 8 ∷ []) (log_run [] history)))
              t
              t'
              (lookup i rows))
handle_commit-Tables_example =
    handle_commit-Tables 9 130 7 (8 ∷ []) engine history history-InOrder refl history_left

handle_commit-IsBatch_example :
    (e' : Engine) × (rows : List (ℕ × List EmitRow)) × (handle_commit 9 130 7 (8 ∷ []) engine
      ≡ ok (e', rows))
    × (t' : Table) × (get_elem? e'.tables 1 ≡ some t')
    × IsBatch t'.pending
handle_commit-IsBatch_example =
    handle_commit-IsBatch 9 130 7 (8 ∷ []) engine 1 empty_table history_in_range refl
      (record { rising = tt; newest = tt })

-- A sink that refuses everything.
abbrev closed_sink : Table → List EmitRow → ℕ → ℕ → ℕ → Result (Unit {0})
closed_sink t rows commit_at restart node = err truncated

flush_all-Outcome_example :
    let (e', persisted', r) = flush_all closed_sink 50 engine in
    ((r ≡ ok tt)
      × (pending_total e'.tables ≡ 0)
      × ((persisted' ≡ restart_lsn engine)
          ⊎ ((pending_total engine.tables ≡ 0) × (persisted' ≡ 50))))
    ⊎ ((r ≢ ok tt) × (persisted' ≡ 50))
flush_all-Outcome_example = flush_all-Outcome closed_sink 50 engine

restart_lsn-Covers_example : All (λ p. restart_lsn engine ≤ p.lsn) (view engine.txbuf 7)
restart_lsn-Covers_example = restart_lsn-Covers engine history 7 history-IsRising refl

-- A codec that decompresses nothing, and whose checksum is 0.
abbrev codecs : Codecs
codecs = record {
  lz4_block = λ b n. err corrupt;
  zstd_bulk = λ b n. err corrupt;
  crc32c_append = λ c b. 0;
}

parse_record-Clean_example : Clean (parse_record codecs (replicate 24 0 ++ 255 ∷ 2 ∷ 7 ∷ 8 ∷ []))
parse_record-Clean_example = parse_record-Clean codecs (replicate 24 0 ++ 255 ∷ 2 ∷ 7 ∷ 8 ∷ [])

raw_attrs_from_page-Clean_example : Clean (raw_attrs_from_page page 1)
raw_attrs_from_page-Clean_example = raw_attrs_from_page-Clean page 1

parse_update_main-Clean_example : Clean (parse_update_main (replicate 18 3) neon)
parse_update_main-Clean_example = parse_update_main-Clean (replicate 18 3) neon

multi_insert_offsets-Clean_example :
    Clean (multi_insert_offsets (0 ∷ 0 ∷ 1 ∷ 0 ∷ 9 ∷ 0 ∷ []) 0 vanilla)
multi_insert_offsets-Clean_example =
    multi_insert_offsets-Clean (0 ∷ 0 ∷ 1 ∷ 0 ∷ 9 ∷ 0 ∷ []) 0 vanilla

-- A literal, and a back-reference to it.
abbrev packed : Bytes
packed = 2 ∷ 65 ∷ 2 ∷ 1 ∷ []

pglz_decompress-Ends_example :
    ((out : Bytes) × (pglz_decompress packed 6 ≡ ok out) × (length out ≡ 6))
    ⊎ ((why : Error) × (pglz_decompress packed 6 ≡ err why) × (why ≢ out_of_fuel))
pglz_decompress-Ends_example = pglz_decompress-Ends packed 6 (omega arith)

packed_six : pglz_decompress packed 6 ≡ ok (replicate 6 65)
unfolding pglz_decompress open_ltap.Wal.Pglz.items
packed_six = refl

-- Eight bytes of padding at the end of a page, whole, and cut two bytes before the end: then the
-- next page's magic is read as part of a record's length.
abbrev near_end : WalReader
near_end = record mid_page { pos = 16376 }

abbrev next_page : Bytes
next_page = 0x16 ∷ 0xD1 ∷ replicate 22 0

abbrev needed : Result (WalReader × List (ℕ × Bytes)) → Option ℕ
needed (ok (r, out)) = some r.need
needed (err why) = none
needed panic = none

whole_padding : needed (feed near_end 16376 (replicate 8 0 ++ next_page)) ≡ some 0
unfolding feed round open_ltap.Wal.Reader.new_record open_ltap.Base.le
    open_ltap.Wal.Reader.page_header
whole_padding = refl

cut_padding :
    needed (feed near_end 16376 (replicate 6 0) >>= then_feed 16382 (replicate 2 0 ++ next_page))
    ≡ some 3507879936
unfolding feed round open_ltap.Wal.Reader.new_record open_ltap.Base.le open_ltap.Wal.Reader.body
    open_ltap.Wal.Reader.page_header
cut_padding = refl

-- The engine with a suspect and a value of transaction 7.
abbrev busy_engine : Engine
busy_engine = record engine {
  smgr_suspects = 7 ∷ 11 ∷ [];
  toast = record { vals = (40, (7, [])) ∷ [] };
}

handle_abort-Isolates_example :
    let e' = handle_abort 7 (8 ∷ []) busy_engine in
    ((y : ℕ) → view e'.txbuf y ≡ (if mem y (7 ∷ 8 ∷ []) then [] else view busy_engine.txbuf y))
    × ((y : ℕ)
        → has y e'.smgr_suspects
          ≡ (if mem y (7 ∷ 8 ∷ []) then false else has y busy_engine.smgr_suspects))
    × Disowned (7 ∷ 8 ∷ []) e'.toast.vals
    × (e'.tables ≡ busy_engine.tables)
handle_abort-Isolates_example = handle_abort-Isolates 7 (8 ∷ []) busy_engine

resolve-add_chunks_example :
    open_ltap.Wal.Toast.resolve codecs
      (add_chunks (record { vals = [] }) 7 40 0 ((1 ∷ 2 ∷ []) ∷ (3 ∷ []) ∷ []))
      40
      7
      3
    ≡ ok (1 ∷ 2 ∷ 3 ∷ [])
unfolding lookup
resolve-add_chunks_example =
    resolve-add_chunks codecs (record { vals = [] }) 7 40 (1 ∷ 2 ∷ []) ((3 ∷ []) ∷ []) refl
      (omega arith) (omega arith)
