-- ===== src/Binlog/Seen.antt =====
-- The bitmap of the blocks that were seen: BinlogWriter::seqno_seen and mark_seqno_seen.
pub mod Laws
use support_proxy.Base.{
  ℕ, zero, suc, ◌+◌, ◌-◌, ◌*◌, ◌/◌, ◌%◌, ◌^◌, Bool, true, false, List, [], ◌∷◌, ◌++◌, Option, none,
  some, bit_or, has_bits, leb, ltb, if◌then◌else◌, length, replicate, get_elem?,
}

unfoldable pub bit_at : Option ℕ → ℕ → Bool
bit_at none k = false
bit_at (some byte) k = has_bits byte (2 ^ k)

unfoldable pub seqno_seen : List ℕ → ℕ → Bool
unfolding bit_at
seqno_seen bitmap seqno = bit_at (get_elem? bitmap (seqno / 8)) (seqno % 8)

-- seen_bitmap[byte] |= bit
unfoldable pub or_at : List ℕ → ℕ → ℕ → List ℕ
or_at [] i bit = []
or_at (b ∷ bs) zero bit = bit_or b bit ∷ bs
or_at (b ∷ bs) (suc i) bit = b ∷ or_at bs i bit

-- seen_bitmap.resize, to a multiple of 64 KiB that has the byte.
unfoldable pub grown : List ℕ → ℕ → List ℕ
grown bitmap byte =
    let round = (byte + 1 + 65535) / 65536 * 65536 in
    if leb (length bitmap) byte then bitmap ++ replicate (round - length bitmap) 0 else bitmap

unfoldable pub mark_seqno_seen : List ℕ → ℕ → List ℕ
mark_seqno_seen bitmap seqno = or_at (grown bitmap (seqno / 8)) (seqno / 8) (2 ^ (seqno % 8))
