-- ===== src/Binlog/Gaps.antt =====
-- BinlogWriter::queue_gap_nacks and drop_stale_nack_state.
pub mod Walk
use support_proxy.Base.{
  ℕ, zero, suc, ◌+◌, ◌-◌, Bool, true, false, not, ◌&&◌, ◌||◌, List, [], ◌∷◌, ltb, leb, ◌==◌,
  if◌then◌else◌,
}
use support_proxy.Binlog.{Nack, BinlogWriter, nack_giveup_ms, nack_giveup_blocks}
use support_proxy.Binlog.Seen.{seqno_seen}

-- nack_state.find(s) != nack_state.end()
unfoldable pub is_nacked : List Nack → ℕ → Bool
is_nacked [] s = false
is_nacked (n ∷ ns) s = Nack.seqno n == s || is_nacked ns s

unfoldable pub erase_nack : List Nack → ℕ → List Nack
erase_nack [] s = []
erase_nack (n ∷ ns) s = let rest = erase_nack ns s in if Nack.seqno n == s then rest else n ∷ rest

-- One round of the loop, at block `s`.
unfoldable pub noticed : List ℕ → ℕ → ℕ → List Nack → List Nack
noticed bitmap now s ns =
    if seqno_seen bitmap s || is_nacked ns s
    then ns
    else record { seqno = s; first_seen = now; last_sent = 0 } ∷ ns

-- The loop, from block `s` on, with `n` blocks left.
unfoldable pub queue_gap_nacks : List ℕ → ℕ → ℕ → ℕ → List Nack → List Nack
queue_gap_nacks bitmap now s zero ns = ns
queue_gap_nacks bitmap now s (suc n) ns =
    queue_gap_nacks bitmap now (s + 1) n (noticed bitmap now s ns)

unfoldable pub is_stale : BinlogWriter → ℕ → Nack → Bool
is_stale b now n =
    seqno_seen b.seen_bitmap n.seqno
    || (ltb (n.first_seen + nack_giveup_ms) now
        || (leb n.seqno b.highest_seen && ltb nack_giveup_blocks (b.highest_seen - n.seqno)))

unfoldable pub keep_fresh : BinlogWriter → ℕ → List Nack → List Nack
keep_fresh b now [] = []
keep_fresh b now (n ∷ ns) =
    let rest = keep_fresh b now ns in if is_stale b now n then rest else n ∷ rest

unfoldable pub drop_stale_nack_state : BinlogWriter → ℕ → BinlogWriter
drop_stale_nack_state b now = record b { nack_state = keep_fresh b now b.nack_state }
