-- ===== src/TxBuf/Ctids.antt =====
-- Packed tuple addresses.
use open_ltap.Base.{ℕ, ◌^◌, ◌<◌, ◌≡◌, arith}
use open_ltap.TxBuf.{pack_ctid, unpack_ctid}

-- A block number below 2 ^ 32 and an offset below 2 ^ 16 survive packing.
unpack_ctid-pack_ctid :
    (blk off : ℕ) → blk < 2 ^ 32 → off < 2 ^ 16 → unpack_ctid (pack_ctid (blk, off)) ≡ (blk, off)
unfolding pack_ctid unpack_ctid
unpack_ctid-pack_ctid blk off h k = ground arith

-- A packed address below 2 ^ 48 survives unpacking.
pack_ctid-unpack_ctid : (p : ℕ) → p < 2 ^ 48 → pack_ctid (unpack_ctid p) ≡ p
unfolding pack_ctid unpack_ctid
pack_ctid-unpack_ctid p h = ground arith
