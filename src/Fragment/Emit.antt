-- ===== src/Fragment/Emit.antt =====
-- src/fragment.rs: the visible rows of a page under the line pointers that an index addresses, plain
-- and with their byte-exact tuples.
use open_ltap.Base.{
  ℕ, List, [], ◌∷◌, map, some, none, Bytes, Result, ok, ◌>>=◌, ◌>>◌, ◌≡◌, ap, bind_ok, Option-cases,
  inl, inr,
}
use open_ltap.Schema.{TableDesc}
use open_ltap.Wal.Values.{Row}
use open_ltap.Wal.Toast.{Codecs, ToastCache}
use open_ltap.Wal.Tuple.{decode_tuple_from_page}
use open_ltap.Clog.{ClogSource}
use open_ltap.Fragment.{check_page, chain_roots, visible_version}
use open_ltap.Reconstruct.{RawTuple, from_page}

pub record FragmentRow : Type 0 where
  pub block : ℕ
  pub offnum : ℕ
  pub row : Row

pub record RawFragmentRow : Type 0 where
  pub block : ℕ
  pub offnum : ℕ
  pub row : Row
  pub raw : RawTuple

module _ (codecs : Codecs) (toast : ToastCache) (desc : TableDesc) (clog : ClogSource) where
  -- The rounds of the loop over the chain roots.
  unfoldable pub emit_roots : Bytes → ℕ → List (ℕ × ℕ) → Result (List FragmentRow)
  emit_roots page block [] = ok []
  emit_roots page block ((offnum, start) ∷ roots) =
      visible_version page block start clog >>= λ version. elim version [
        | none ↦ emit_roots page block roots
        | some vis ↦ decode_tuple_from_page codecs toast page vis desc >>= λ (row, _).
            emit_roots page block roots >>= λ rows.
            ok (record { block = block; offnum = offnum; row = row } ∷ rows)
      ]

  unfoldable pub emit_page : Bytes → ℕ → Result (List FragmentRow)
  emit_page page block = do check_page page; roots ← chain_roots page; emit_roots page block roots

  unfoldable pub emit_roots_raw : Bytes → ℕ → List (ℕ × ℕ) → Result (List RawFragmentRow)
  emit_roots_raw page block [] = ok []
  emit_roots_raw page block ((offnum, start) ∷ roots) =
      visible_version page block start clog >>= λ version. elim version [
        | none ↦ emit_roots_raw page block roots
        | some vis ↦ decode_tuple_from_page codecs toast page vis desc >>= λ (row, _).
            from_page page vis >>= λ raw. emit_roots_raw page block roots >>= λ rows.
            ok (record { block = block; offnum = offnum; row = row; raw = raw } ∷ rows)
      ]

  unfoldable pub emit_page_raw : Bytes → ℕ → Result (List RawFragmentRow)
  emit_page_raw page block = do
    check_page page
    roots ← chain_roots page
    emit_roots_raw page block roots

abbrev pub without_raw : RawFragmentRow → FragmentRow
without_raw r = record { block = r.block; offnum = r.offnum; row = r.row }

module _ (codecs : Codecs) (toast : ToastCache) (desc : TableDesc) (clog : ClogSource) where
  pub emit_roots_raw-emit_roots :
      (page : Bytes) (block : ℕ) (roots : List (ℕ × ℕ)) (rows : List RawFragmentRow)
      → emit_roots_raw codecs toast desc clog page block roots ≡ ok rows
      → emit_roots codecs toast desc clog page block roots ≡ ok (map without_raw rows)
  unfolding emit_roots emit_roots_raw
  emit_roots_raw-emit_roots page block [] rows h =
      let is : [] ≡ rows = cc in ap (λ l. ok (map without_raw l)) is
  emit_roots_raw-emit_roots page block ((offnum, start) ∷ roots) rows h =
      let (version, e, h1) = bind_ok (visible_version page block start clog) h in
      elim (Option-cases version) [
        | inl gone ↦
            let h2 = rw gone at (h1) in
            rw (e, gone) (emit_roots_raw-emit_roots page block roots rows h2)
        | inr (vis, found) ↦
            let h2 = rw found at (h1) in
            let (decoded, e1, h3) =
              bind_ok (decode_tuple_from_page codecs toast page vis desc) h2 in
            let (raw, e2, h4) = bind_ok (from_page page vis) h3 in
            let (rest, e3, h5) =
              bind_ok (emit_roots_raw codecs toast desc clog page block roots) h4 in
            let is : record { block = block; offnum = offnum; row = decoded.0; raw = raw } ∷ rest
                ≡ rows =
              cc in
            let plain = emit_roots_raw-emit_roots page block roots rest e3 in
            rw (e, found, e1, plain) (ap (λ l. ok (map without_raw l)) is)
      ]

  -- Where the byte-exact emission succeeds, the plain one does, and emits the same rows under the
  -- same offset numbers.
  pub emit_page_raw-emit_page :
      (page : Bytes) (block : ℕ) (rows : List RawFragmentRow)
      → emit_page_raw codecs toast desc clog page block ≡ ok rows
      → emit_page codecs toast desc clog page block ≡ ok (map without_raw rows)
  unfolding emit_page emit_page_raw
  emit_page_raw-emit_page page block rows h =
      let (_, e, h1) = bind_ok (check_page page) h in
      let (roots, e1, h2) = bind_ok (chain_roots page) h1 in
      rw (e, e1) (emit_roots_raw-emit_roots page block roots rows h2)
