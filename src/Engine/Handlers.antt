-- ===== src/Engine/Handlers.antt =====
-- src/engine.rs: the handlers of row changes and relation files keep the tables' contents.
use open_ltap.Base.{
  ℕ, Bool, not, ◌&&◌, Option, none, some, Result, ok, refl, subst, ◌∙◌, inl, inr, bind_ok, ok_inj,
  ◌==◌, if◌then◌else◌, lookup, nat_eq, length, ◌/◌, ◌%◌,
}
use open_ltap.Wal.Heap.{
  HeapFmt, parse_smgr_create, delete_offnum, parse_update_main, heap_insert, heap_delete,
  heap_update, heap_hot_update, heap2_multi_insert,
}
use open_ltap.Wal.Toast.{Codecs}
use open_ltap.Wal.Tuple.{decode_tuple_from_page, decode_update_new_tuple}
use open_ltap.Wal.Record.{Record, BlockRef}
use open_ltap.TxBuf.{deletes}
use open_ltap.Engine.{Engine, note_decode_error, has, preimage, row_of, handle_smgr_create}
use open_ltap.Engine.Records.{
  Oracle, desc_of, find_block, oracle_row, oracle_attrs, attrs_of, block_or, block_content,
  buffer_op, suspect, multi_ops, toast_insert, row_insert, row_delete, row_update, handle_update,
  multi_insert, heap_op, handle_heap, tracked_multi_insert, handle_heap2, handle_smgr, is_catalog,
}
use open_ltap.Engine.Keeps.{
  SameContents, Keeps, Keeps-ok, Keeps-bind, Keeps-match, Keeps-if, match_ok, SameContents-if,
  note_decode_error-Keeps, suspect-SameContents, multi_ops-SameContents,
}

module _ (codecs : Codecs) (oracle : Oracle) (lsn : ℕ) (e : Engine) where
  pub toast_insert-Keeps :
      (r : Record) (b : BlockRef) (fmt : HeapFmt)
      → Keeps e (toast_insert codecs oracle lsn r b fmt e)
  unfolding toast_insert
  toast_insert-Keeps r b fmt =
      Keeps-match e _ _ _ (λ c. Keeps-ok e _ (refl, refl)) (λ why. Keeps-ok e e (refl, refl))

  pub row_insert-Keeps :
      (r : Record) (b : BlockRef) (ti : ℕ) (fmt : HeapFmt)
      → Keeps e (row_insert codecs oracle lsn r b ti fmt e)
  unfolding row_insert
  row_insert-Keeps r b ti fmt = Keeps-bind e (desc_of e ti) _ (λ desc.
      Keeps-match e _ _ _ (λ c. Keeps-ok e _ (refl, refl))
        (λ why. note_decode_error-Keeps ti lsn why e))

  pub row_delete-Keeps :
      (r : Record) (b : BlockRef) (ti : ℕ) → Keeps e (row_delete codecs oracle lsn r b ti e)
  unfolding row_delete
  row_delete-Keeps r b ti =
      Keeps-match e (delete_offnum r.main_data) _ _
        (λ off. Keeps-bind e (preimage e ti (b.blkno, off)) _ (λ before.
          Keeps-bind e (oracle_row codecs oracle lsn (row_of before) b.rel b.blkno off ti e) _
            (λ old.
              Keeps-ok e (buffer_op r.xid lsn ti (deletes (b.blkno, off) old) e) (refl, refl))))
        (λ why. Keeps-ok e e (refl, refl))

  -- What is left once the update's old tuple has been looked up.
  pub handle_update-Keeps :
      (r : Record) (b : BlockRef) (ti : ℕ) (fmt : HeapFmt)
      → Keeps e (handle_update codecs oracle lsn r b ti fmt e)
  unfolding handle_update
  handle_update-Keeps r b ti fmt e' h =
      let (info, _, h1) = bind_ok (parse_update_main r.main_data fmt) h in
      let old = block_or codecs oracle lsn (find_block 1 r.blocks) b in
      let (before, _, h2) = bind_ok (preimage e ti (old.blkno, info.old_offnum)) h1 in
      let (attrs, _, h3) =
        bind_ok
          (oracle_attrs codecs oracle lsn (attrs_of codecs oracle lsn before) old.rel old.blkno
            info.old_offnum)
          h2 in
      let (row, _, h4) =
        bind_ok
          (oracle_row codecs oracle lsn (row_of before) old.rel old.blkno info.old_offnum ti e)
          h3 in
      let (desc, _, h5) = bind_ok (desc_of e ti) h4 in
      let (decoded, _, h6) =
        bind_ok
          (block_content codecs oracle lsn b
            (λ d. decode_update_new_tuple codecs e.toast d info.flags attrs row desc fmt)
            (λ page. decode_tuple_from_page codecs e.toast page info.new_offnum desc))
          h5 in
      subst (SameContents e) (ok_inj h6) (refl, refl)

  pub row_update-Keeps :
      (r : Record) (b : BlockRef) (ti : ℕ) (fmt : HeapFmt)
      → Keeps e (row_update codecs oracle lsn r b ti fmt e)
  unfolding row_update
  row_update-Keeps r b ti fmt e' h =
      elim (match_ok (handle_update codecs oracle lsn r b ti fmt e) (λ x. ok x)
        (λ why. note_decode_error ti lsn why e) e' h) [
          | inl (x, done, same) ↦ handle_update-Keeps r b ti fmt e' (done ∙ same)
          | inr (why, failed, noted) ↦ note_decode_error-Keeps ti lsn why e e' noted
        ]

  pub multi_insert-Keeps :
      (r : Record) (b : BlockRef) (ti : ℕ) (fmt : HeapFmt)
      → Keeps e (multi_insert codecs oracle lsn r b ti fmt e)
  unfolding multi_insert
  multi_insert-Keeps r b ti fmt = Keeps-bind e (desc_of e ti) _ (λ desc.
      Keeps-match e _ _ _
        (λ (rs, offs).
          Keeps-ok e
            (if length rs == length offs then multi_ops r.xid lsn ti b.blkno rs offs e else e)
            (SameContents-if e (length rs == length offs) (multi_ops r.xid lsn ti b.blkno rs offs e)
              (multi_ops-SameContents r.xid lsn ti b.blkno rs offs e)))
        (λ why. note_decode_error-Keeps ti lsn why e))

  pub heap_op-Keeps :
      (r : Record) (b : BlockRef) (op : ℕ) (fmt : HeapFmt) (main : Option ℕ) (is_toast : Bool)
      → Keeps e (heap_op codecs oracle lsn r b op fmt main is_toast e)
  unfolding heap_op
  heap_op-Keeps r b op fmt none is_toast =
      Keeps-if e (op == heap_insert && is_toast) _ _ (toast_insert-Keeps r b fmt)
        (Keeps-ok e e (refl, refl))
  heap_op-Keeps r b op fmt (some ti) is_toast =
      Keeps-if e (op == heap_insert && is_toast) _ _ (toast_insert-Keeps r b fmt) (
        Keeps-if e (op == heap_insert) _ _ (row_insert-Keeps r b ti fmt) (
          Keeps-if e (op == heap_delete) _ _ (row_delete-Keeps r b ti) (
            Keeps-if e (op == heap_update) _ _ (row_update-Keeps r b ti fmt) (
              Keeps-if e (op == heap_hot_update) _ _ (row_update-Keeps r b ti fmt)
                (Keeps-ok e e (refl, refl))))))

  pub block-Keeps :
      (o : Option BlockRef) (f : BlockRef → Result Engine)
      → ((b : BlockRef) → Keeps e (f b))
      → Keeps e (elim o [ none ↦ ok e | some b ↦ f b ])
  block-Keeps none f k = Keeps-ok e e (refl, refl)
  block-Keeps (some b) f k = k b

  pub handle_heap-Keeps :
      (r : Record) (op : ℕ) (fmt : HeapFmt) → Keeps e (handle_heap codecs oracle lsn r op fmt e)
  unfolding handle_heap
  handle_heap-Keeps r op fmt = block-Keeps (find_block 0 r.blocks) _ (λ b.
      Keeps-if e (is_catalog codecs oracle lsn b e) _ _
        (Keeps-ok e (suspect r.xid e) (suspect-SameContents r.xid e))
        (heap_op-Keeps r b op fmt (lookup b.rel.rel e.rel_to_table) (has b.rel.rel e.toast_rels)))

  pub tracked_multi_insert-Keeps :
      (r : Record) (b : BlockRef) (main : Option ℕ) (fmt : HeapFmt)
      → Keeps e (tracked_multi_insert codecs oracle lsn r b main fmt e)
  unfolding tracked_multi_insert
  tracked_multi_insert-Keeps r b none fmt = Keeps-ok e e (refl, refl)
  tracked_multi_insert-Keeps r b (some ti) fmt = multi_insert-Keeps r b ti fmt

  pub handle_heap2-Keeps :
      (r : Record) (op : ℕ) (fmt : HeapFmt) → Keeps e (handle_heap2 codecs oracle lsn r op fmt e)
  unfolding handle_heap2
  handle_heap2-Keeps r op fmt =
      Keeps-if e (not (op == heap2_multi_insert)) _ _ (Keeps-ok e e (refl, refl)) (
        block-Keeps (find_block 0 r.blocks) _ (λ b.
          Keeps-if e (is_catalog codecs oracle lsn b e) _ _
            (Keeps-ok e (suspect r.xid e) (suspect-SameContents r.xid e))
            (tracked_multi_insert-Keeps r b (lookup b.rel.rel e.rel_to_table) fmt)))

  pub created-Keeps :
      (r : Record) (created : Option (ℕ × ℕ))
      → Keeps e (elim created [ none ↦ ok e | some (db, rel) ↦ ok (handle_smgr_create r.xid db e) ])
  unfolding handle_smgr_create
  created-Keeps r none = Keeps-ok e e (refl, refl)
  created-Keeps r (some (db, rel)) =
      Keeps-ok e (handle_smgr_create r.xid db e)
        (SameContents-if e (db == e.db_oid && not (r.xid == 0)) _ (refl, refl))

  pub handle_smgr-Keeps : (r : Record) → Keeps e (handle_smgr codecs oracle lsn r e)
  unfolding handle_smgr
  handle_smgr-Keeps r = Keeps-if e (not (r.info / 16 % 16 == 1)) _ _ (Keeps-ok e e (refl, refl)) (
      Keeps-match e (parse_smgr_create r.main_data) _ _ (created-Keeps r)
        (λ why. Keeps-ok e e (refl, refl)))
