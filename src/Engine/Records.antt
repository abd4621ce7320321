-- ===== src/Engine/Records.antt =====
-- src/engine.rs: `handle_record`, which routes one WAL record to the engine's state. The oracle's
-- pages are those that a server returns for a relation, a block and a position.
use open_ltap.Base.{
  ℕ, ◌/◌, ◌%◌, Bool, not, ◌&&◌, List, [], ◌∷◌, Option, none, some, Bytes, Result, ok, err, ◌>>=◌,
  or_panic, ok_of, match_result, traverse, ◌==◌, if◌then◌else◌, length, get_elem?, lookup, nat_eq,
  corrupt,
}
use open_ltap.Schema.{TableDesc}
use open_ltap.Wal.Values.{Row}
use open_ltap.Wal.Heap.{
  HeapFmt, normalize_dml, opcode, rmgr_smgr, rmgr_heap, rmgr_heap2, rmgr_xact, heap_insert,
  heap_delete, heap_update, heap_hot_update, heap2_multi_insert, xact_commit, xact_abort,
  parse_smgr_create, parse_xact_subxacts, insert_offnum, delete_offnum, parse_update_main,
  multi_insert_offsets, raw_attrs_from_page,
}
use open_ltap.Wal.Toast.{
  Codecs, add_chunk, decode_toast_chunk_from_wal, decode_toast_chunk_from_page,
}
use open_ltap.Wal.Tuple.{
  decode_tuple_from_page, decode_insert_tuple, decode_update_new_tuple, decode_multi_insert,
}
use open_ltap.Wal.Record.{RelTag, BlockRef, Record, restore, parse_record}
use open_ltap.TxBuf.{RowVersion, Op, inserts, updates, deletes, add_op}
use open_ltap.Engine.{
  EmitRow, Engine, preimage, row_of, has, handle_commit, handle_abort, handle_smgr_create,
  note_decode_error,
}

abbrev pub Oracle : Type 0
Oracle = Option (RelTag → ℕ → ℕ → Option Bytes)

-- `blocks.iter().find(|b| b.id == id)`.
unfoldable pub find_block : ℕ → List BlockRef → Option BlockRef
find_block id [] = none
find_block id (b ∷ bs) = if b.id == id then some b else find_block id bs

-- `txbuf.add_op`.
abbrev pub buffer_op : ℕ → ℕ → ℕ → Op → Engine → Engine
buffer_op xid lsn table op e = record e { txbuf = add_op e.txbuf xid lsn table op }

abbrev pub version_of : Row × Bytes → RowVersion
version_of (row, attrs) = record { row = row; attrs = some attrs }

abbrev pub desc_of : Engine → ℕ → Result TableDesc
desc_of e ti = or_panic (get_elem? e.tables ti) >>= λ t. ok t.desc

-- The page that the oracle has, if there is an oracle and it has one.
abbrev pub ask : Oracle → RelTag → ℕ → ℕ → Option Bytes
ask none rel blkno lsn = none
ask (some page) rel blkno lsn = page rel blkno lsn

-- A catalog heap was written: DDL is in flight.
unfoldable pub suspect : ℕ → Engine → Engine
suspect xid e = if xid == 0 then e else record e {
  smgr_suspects = if has xid e.smgr_suspects then e.smgr_suspects else xid ∷ e.smgr_suspects;
}

unfoldable pub multi_ops : ℕ → ℕ → ℕ → ℕ → List (Row × Bytes) → List ℕ → Engine → Engine
multi_ops xid lsn ti blkno (r ∷ rows) (off ∷ offs) e =
    multi_ops xid lsn ti blkno rows offs
      (buffer_op xid lsn ti (inserts (blkno, off) (version_of r)) e)
multi_ops xid lsn ti blkno _ _ e = e

module _ (codecs : Codecs) (oracle : Oracle) (lsn : ℕ) where
  -- What a block holds: its data, or else its page image, decoded by one function each.
  unfoldable pub block_content {ℓ} :
      {A : Type ℓ} → BlockRef → (Bytes → Result A) → (Bytes → Result A) → Result A
  block_content b of_data of_page =
      if not (length b.block_data == 0)
      then of_data b.block_data
      else elim b.image [ some img ↦ restore codecs img >>= of_page | none ↦ err corrupt ]

  unfoldable pub toast_insert : Record → BlockRef → HeapFmt → Engine → Result Engine
  toast_insert r b fmt e =
      match_result
        (block_content b (λ d. decode_toast_chunk_from_wal codecs d fmt)
          (λ page.
            insert_offnum r.main_data >>= λ off. decode_toast_chunk_from_page codecs page off))
        (λ (valueid, seq, chunk).
          ok (record e { toast = add_chunk e.toast r.xid valueid seq chunk }))
        (λ why. ok e)

  unfoldable pub row_insert : Record → BlockRef → ℕ → HeapFmt → Engine → Result Engine
  row_insert r b ti fmt e = do
    desc ← desc_of e ti
    let decoded =
        block_content b (λ d. decode_insert_tuple codecs e.toast d desc fmt)
          (λ page. insert_offnum r.main_data >>= λ off.
            decode_tuple_from_page codecs e.toast page off desc)
    match_result (decoded >>= λ d. insert_offnum r.main_data >>= λ off. ok (d, off))
        (λ (d, off). ok (buffer_op r.xid lsn ti (inserts (b.blkno, off) (version_of d)) e))
        (λ why. note_decode_error ti lsn why e)

  -- The old row as the oracle's page has it, when it is not known.
  unfoldable pub oracle_row : Option Row → RelTag → ℕ → ℕ → ℕ → Engine → Result (Option Row)
  oracle_row (some row) rel blkno off ti e = ok (some row)
  oracle_row none rel blkno off ti e = desc_of e ti >>= λ desc. elim (ask oracle rel blkno lsn) [
    | none ↦ ok none
    | some page ↦ ok_of (decode_tuple_from_page codecs e.toast page off desc >>= λ (row, _). ok row)
  ]

  unfoldable pub row_delete : Record → BlockRef → ℕ → Engine → Result Engine
  row_delete r b ti e =
      match_result (delete_offnum r.main_data)
        (λ off. do
          before ← preimage e ti (b.blkno, off)
          old_row ← oracle_row (row_of before) b.rel b.blkno off ti e
          ok (buffer_op r.xid lsn ti (deletes (b.blkno, off) old_row) e))
        (λ why. ok e)

  abbrev pub attrs_of : Option RowVersion → Option Bytes
  attrs_of none = none
  attrs_of (some v) = v.attrs

  unfoldable pub oracle_attrs : Option Bytes → RelTag → ℕ → ℕ → Result (Option Bytes)
  oracle_attrs (some attrs) rel blkno off = ok (some attrs)
  oracle_attrs none rel blkno off = elim (ask oracle rel blkno lsn) [
    | none ↦ ok none
    | some page ↦ ok_of (raw_attrs_from_page page off)
  ]

  abbrev pub block_or : Option BlockRef → BlockRef → BlockRef
  block_or (some b) other = b
  block_or none other = other

  unfoldable pub handle_update : Record → BlockRef → ℕ → HeapFmt → Engine → Result Engine
  handle_update r b ti fmt e = do
    info ← parse_update_main r.main_data fmt
    let old = block_or (find_block 1 r.blocks) b
    before ← preimage e ti (old.blkno, info.old_offnum)
    old_attrs ← oracle_attrs (attrs_of before) old.rel old.blkno info.old_offnum
    old_row ← oracle_row (row_of before) old.rel old.blkno info.old_offnum ti e
    desc ← desc_of e ti
    decoded ←
        block_content b
          (λ d. decode_update_new_tuple codecs e.toast d info.flags old_attrs old_row desc fmt)
          (λ page. decode_tuple_from_page codecs e.toast page info.new_offnum desc)
    ok (
        buffer_op r.xid lsn ti
          (updates (old.blkno, info.old_offnum) (b.blkno, info.new_offnum) (version_of decoded)) e)

  unfoldable pub row_update : Record → BlockRef → ℕ → HeapFmt → Engine → Result Engine
  row_update r b ti fmt e =
      match_result (handle_update r b ti fmt e) (λ e'. ok e')
        (λ why. note_decode_error ti lsn why e)

  unfoldable pub multi_insert : Record → BlockRef → ℕ → HeapFmt → Engine → Result Engine
  multi_insert r b ti fmt e = do
    desc ← desc_of e ti
    let offsets = multi_insert_offsets r.main_data r.info fmt
    let rows =
        block_content b (λ d. decode_multi_insert codecs e.toast d r.main_data desc)
          (λ page. offsets >>= λ offs.
            traverse (λ off. decode_tuple_from_page codecs e.toast page off desc) offs)
    match_result (rows >>= λ rs. offsets >>= λ offs. ok (rs, offs))
        (λ (rs, offs).
          ok (if length rs == length offs then multi_ops r.xid lsn ti b.blkno rs offs e else e))
        (λ why. note_decode_error ti lsn why e)

  -- A heap operation on a tracked relation: a table's, a toast relation's, or both.
  unfoldable pub heap_op :
      Record → BlockRef → ℕ → HeapFmt → Option ℕ → Bool → Engine → Result Engine
  heap_op r b op fmt main is_toast e =
      if op == heap_insert && is_toast then toast_insert r b fmt e else elim main [
        | none ↦ ok e
        | some ti ↦
            if op == heap_insert
            then row_insert r b ti fmt e
            else if op == heap_delete
            then row_delete r b ti e
            else if op == heap_update
            then row_update r b ti fmt e
            else if op == heap_hot_update
            then row_update r b ti fmt e
            else ok e
      ]

  abbrev pub is_catalog : BlockRef → Engine → Bool
  is_catalog b e = b.rel.db == e.db_oid && has b.rel.rel e.catalog_rels

  unfoldable pub handle_heap : Record → ℕ → HeapFmt → Engine → Result Engine
  handle_heap r op fmt e = elim (find_block 0 r.blocks) [
    | none ↦ ok e
    | some b ↦
        if is_catalog b e
        then ok (suspect r.xid e)
        else heap_op r b op fmt (lookup b.rel.rel e.rel_to_table) (has b.rel.rel e.toast_rels) e
  ]

  unfoldable pub tracked_multi_insert :
      Record → BlockRef → Option ℕ → HeapFmt → Engine → Result Engine
  tracked_multi_insert r b none fmt e = ok e
  tracked_multi_insert r b (some ti) fmt e = multi_insert r b ti fmt e

  unfoldable pub handle_heap2 : Record → ℕ → HeapFmt → Engine → Result Engine
  handle_heap2 r op fmt e =
      if not (op == heap2_multi_insert) then ok e else elim (find_block 0 r.blocks) [
        | none ↦ ok e
        | some b ↦
            if is_catalog b e
            then ok (suspect r.xid e)
            else tracked_multi_insert r b (lookup b.rel.rel e.rel_to_table) fmt e
      ]

  unfoldable pub handle_smgr : Record → Engine → Result Engine
  handle_smgr r e =
      if not (r.info / 16 % 16 == 1)
      then ok e
      else match_result (parse_smgr_create r.main_data)
          (λ created. elim created [
            | none ↦ ok e
            | some (db, rel) ↦ ok (handle_smgr_create r.xid db e)
          ])
          (λ why. ok e)

  -- The rows that a commit publishes, by table.
  abbrev pub Published : Type 0
  Published = List (ℕ × List EmitRow)

  abbrev pub quietly : Result Engine → Result (Engine × Published)
  quietly m = m >>= λ e. ok (e, [])

  -- A subxact list that does not parse counts as empty.
  abbrev pub subxids_of : Record → Result (List ℕ)
  subxids_of r =
      match_result (parse_xact_subxacts r.info r.main_data) (λ xids. ok xids) (λ why. ok [])

  unfoldable pub handle_xact : ℕ → Record → Engine → Result (Engine × Published)
  handle_xact now r e =
      let op = opcode r.info in
      if op == xact_commit
      then (subxids_of r >>= λ xids. handle_commit now lsn r.xid xids e)
      else if op == xact_abort
      then (subxids_of r >>= λ xids. ok (handle_abort r.xid xids e, []))
      else ok (e, [])

  -- `match rmid`, of a record in the vanilla opcode space.
  unfoldable pub dispatch : ℕ → Record → ℕ × ℕ × HeapFmt → Engine → Result (Engine × Published)
  dispatch now r (rmid, op, fmt) e =
      if rmid == rmgr_smgr
      then quietly (handle_smgr r e)
      else if rmid == rmgr_heap
      then quietly (handle_heap r op fmt e)
      else if rmid == rmgr_heap2
      then quietly (handle_heap2 r op fmt e)
      else if rmid == rmgr_xact
      then handle_xact now r e
      else ok (e, [])

  unfoldable pub handle_record : ℕ → Bytes → Engine → Result (Engine × Published)
  handle_record now rec e =
      match_result (parse_record codecs rec)
        (λ r. elim (normalize_dml r.rmid r.info) [
          | none ↦ ok (e, [])
          | some dml ↦ dispatch now r dml e
        ])
        (λ why. ok (e, []))
