-- ===== src/Wal/Toast.antt =====
-- src/wal/heap.rs: decompression by method, out-of-line values, and varlena datums.
pub mod RoundTrip
use open_ltap.Base.{
  ℕ, ◌+◌, ◌-◌, ◌/◌, ◌%◌, ◌^◌, Bool, true, false, not, List, [], ◌∷◌, ◌++◌, Option, none, some,
  Bytes, Result, ok, err, ◌>>=◌, ◌>>◌, bail_if, ok_or, ltb, ◌==◌, if◌then◌else◌, length, le, slice?,
  get?, tail?, align_to, usize_of_i32, Map, lookup, insert, nat_eq, truncated, corrupt, unsupported,
  missing_chunk, drop,
}
use open_ltap.Wal.Heap.{HeapFmt, wal_heap_header, bits_len, tuple_on_page}
use open_ltap.Wal.Pglz.{pglz_decompress}

-- The decompressors and the checksum of other packages.
pub record Codecs : Type 0 where
  pub lz4_block : Bytes → ℕ → Result Bytes
  pub zstd_bulk : Bytes → ℕ → Result Bytes
  -- the checksum so far, and the bytes that it takes in
  pub crc32c_append : ℕ → Bytes → ℕ

-- An entry: the owning xid, and the chunks by sequence number, which is an `i32` bit pattern.
abbrev pub Chunks : Type 0
Chunks = List (ℕ × Bytes)

pub record ToastCache : Type 0 where
  pub vals : Map ℕ (ℕ × Chunks)

pub no_toast : ToastCache
no_toast = record { vals = [] }

-- The order of signed numbers, on their bit patterns.
abbrev pub signed_ltb : ℕ → ℕ → Bool
signed_ltb a b = ltb ((a + 2 ^ 31) % 2 ^ 32) ((b + 2 ^ 31) % 2 ^ 32)

-- `BTreeMap::insert`.
unfoldable pub insert_chunk : ℕ → Bytes → Chunks → Chunks
insert_chunk seq bytes [] = (seq, bytes) ∷ []
insert_chunk seq bytes ((s, b) ∷ cs) =
    if s == seq
    then (seq, bytes) ∷ cs
    else if signed_ltb seq s
    then (seq, bytes) ∷ (s, b) ∷ cs
    else (s, b) ∷ insert_chunk seq bytes cs

abbrev pub entry_or : ℕ → Option (ℕ × Chunks) → ℕ × Chunks
entry_or xid (some e) = e
entry_or xid none = (xid, [])

unfoldable pub add_chunk : ToastCache → ℕ → ℕ → ℕ → Bytes → ToastCache
unfolding insert_chunk lookup insert
add_chunk t xid valueid seq bytes =
    let (owner, chunks) = entry_or xid (lookup valueid t.vals) in
    record { vals = insert valueid (owner, insert_chunk seq bytes chunks) t.vals }

unfoldable pub retain_others : ℕ → Map ℕ (ℕ × Chunks) → Map ℕ (ℕ × Chunks)
retain_others xid [] = []
retain_others xid ((v, (owner, chunks)) ∷ m) =
    if owner == xid then retain_others xid m else (v, (owner, chunks)) ∷ retain_others xid m

unfoldable pub gc_xid : ToastCache → ℕ → ToastCache
unfolding retain_others
gc_xid t xid = record { vals = retain_others xid t.vals }

abbrev pub is_some {ℓ} : {A : Type ℓ} → Option A → Bool
is_some none = false
is_some (some a) = true

unfoldable pub contains : ToastCache → ℕ → Bool
unfolding lookup
contains t valueid = is_some (lookup valueid t.vals)

-- The loop of `resolve`: the chunks are numbered from `i` on without a gap.
unfoldable pub reassemble : Chunks → ℕ → Bytes → Result Bytes
reassemble [] i buf = ok buf
reassemble ((seq, chunk) ∷ cs) i buf =
    let rest = reassemble cs (i + 1) (buf ++ chunk) in
    if not (seq == i % 2 ^ 32) then err missing_chunk else rest

module _ (codecs : Codecs) where
  unfoldable pub lz4_decompress : Bytes → ℕ → Result Bytes
  lz4_decompress src rawsize = do
    out ← codecs.lz4_block src rawsize
    bail_if (not (length out == rawsize)) corrupt
    ok out

  unfoldable pub decompress_datum : ℕ → Bytes → ℕ → Result Bytes
  unfolding pglz_decompress lz4_decompress
  decompress_datum method payload rawsize =
      if method == 0
      then pglz_decompress payload rawsize
      else if method == 1
      then lz4_decompress payload rawsize
      else err unsupported

  -- `ToastCache::resolve`; `rawsize as usize - 4` wraps.
  unfoldable pub resolve : ToastCache → ℕ → ℕ → ℕ → Result Bytes
  unfolding lookup reassemble tail? decompress_datum
  resolve t valueid rawsize extinfo = do
    (_, chunks) ← ok_or (lookup valueid t.vals) missing_chunk
    buf ← reassemble chunks 0 []
    bail_if (not (length buf == extinfo % 2 ^ 30)) corrupt
    let raw_data = (usize_of_i32 rawsize + (2 ^ 64 - 4)) % 2 ^ 64
    if length buf == raw_data then ok buf else do
      payload ← ok_or (tail? buf 4) truncated
      decompress_datum (extinfo / 2 ^ 30) payload raw_data

  abbrev pub Datum : Type 0
  Datum = Option Bytes × ℕ

  -- A toast pointer at `off`.
  unfoldable pub external : Bytes → ℕ → ToastCache → Result Datum
  unfolding get? slice? le contains resolve
  external bytes off toast = do
    tag ← ok_or (get? bytes (off + 1)) truncated
    bail_if (not (tag == 18)) unsupported
    s ← ok_or (slice? bytes (off + 2) (off + 18)) truncated
    rawsize ← ok_or (slice? s 0 4) truncated
    extinfo ← ok_or (slice? s 4 8) truncated
    valueid ← ok_or (slice? s 8 12) truncated
    if not (contains toast (le valueid))
        then ok (none, off + 18)
        else do v ← resolve toast (le valueid) (le rawsize) (le extinfo); ok (some v, off + 18)

  -- A one-byte header.
  unfoldable pub short : Bytes → ℕ → ℕ → Result Datum
  unfolding slice?
  short bytes off first = do
    let total = first / 2
    bail_if (total == 0) corrupt
    payload ← ok_or (slice? bytes (off + 1) (off + total)) truncated
    ok (some payload, off + total)

  -- VARATT_4B_C.
  unfoldable pub compressed : Bytes → ℕ → ℕ → Result Datum
  unfolding slice? le decompress_datum
  compressed bytes off total = do
    tcinfo_bytes ← ok_or (slice? bytes (off + 4) (off + 8)) truncated
    let tcinfo = le tcinfo_bytes
    payload ← ok_or (slice? bytes (off + 8) (off + total)) truncated
    out ← decompress_datum (tcinfo / 2 ^ 30) payload (tcinfo % 2 ^ 30)
    ok (some out, off + total)

  -- A four-byte header at an aligned offset.
  unfoldable pub long : Bytes → ℕ → Result Datum
  unfolding slice? le compressed
  long bytes off = do
    hdr_bytes ← ok_or (slice? bytes off (off + 4)) truncated
    let hdr = le hdr_bytes
    let total = hdr / 4
    bail_if (ltb total 4) corrupt
    if hdr % 4 == 2 then compressed bytes off total else do
      payload ← ok_or (slice? bytes (off + 4) (off + total)) truncated
      ok (some payload, off + total)

  unfoldable pub decode_varlena : Bytes → ℕ → ToastCache → Result Datum
  unfolding get? external short long align_to
  decode_varlena bytes off toast = do
    first ← ok_or (get? bytes off) truncated
    if first == 1
        then external bytes off toast
        else if first % 2 == 1
        then short bytes off first
        else long bytes (align_to off 4)

  -- (value id, sequence number, bytes).
  unfoldable pub decode_toast_chunk : Bytes → ℕ → Result (ℕ × ℕ × Bytes)
  unfolding tail? slice? le decode_varlena no_toast
  decode_toast_chunk payload t_hoff = do
    n ← bits_len t_hoff
    bytes ← ok_or (tail? payload n) truncated
    valueid ← ok_or (slice? bytes 0 4) truncated
    seq ← ok_or (slice? bytes 4 8) truncated
    (chunk, _) ← decode_varlena bytes 8 no_toast
    chunk' ← ok_or chunk corrupt
    ok (le valueid, le seq, chunk')

  unfoldable pub decode_toast_chunk_from_wal : Bytes → HeapFmt → Result (ℕ × ℕ × Bytes)
  unfolding wal_heap_header decode_toast_chunk
  decode_toast_chunk_from_wal block_data fmt = do
    (_, _, t_hoff, hdr_len) ← wal_heap_header block_data fmt
    decode_toast_chunk (drop hdr_len block_data) t_hoff

  unfoldable pub decode_toast_chunk_from_page : Bytes → ℕ → Result (ℕ × ℕ × Bytes)
  unfolding tuple_on_page decode_toast_chunk
  decode_toast_chunk_from_page page offnum = do
    (payload, _, _, t_hoff) ← tuple_on_page page offnum
    decode_toast_chunk payload t_hoff
