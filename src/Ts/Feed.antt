-- ===== src/Ts/Feed.antt =====
-- TSScanner::feed: packets out of chunks of any size.
pub mod Total
use support_proxy.Base.{
  ℕ, zero, suc, ◌+◌, ◌-◌, ◌*◌, Bool, true, false, not, ◌&&◌, ◌||◌, List, [], ◌∷◌, ◌++◌, Option,
  none, some, ◌>>=◌, ltb, ◌==◌, if◌then◌else◌, length, take, drop, get_elem?, min,
}
use support_proxy.Ts.{TsStats, TsScanner, ts_packet_size, ts_sync_byte}
use support_proxy.Ts.Packet.{packet}

-- Whether what stands a packet later is a sync byte, or not there.
unfoldable pub sync_or_end : Option ℕ → Bool
sync_or_end none = true
sync_or_end (some b) = b == ts_sync_byte

-- The hunt: how many bytes to skip to a sync byte with another one, or the end, a packet later.
unfoldable pub hunt : List ℕ → Option ℕ
hunt [] = none
hunt (b ∷ rest) =
    let later = hunt rest in
    if b == ts_sync_byte && sync_or_end (get_elem? (b ∷ rest) ts_packet_size)
    then some 0
    else elim later [ none ↦ none | some j ↦ some (j + 1) ]

unfoldable pub keep_partial : TsScanner → List ℕ → ℕ → TsScanner
keep_partial s rest off = record s { partial = rest; partial_off = off }

-- Where the loop stands: the scanner, the bytes from `i` on, and the offset of the first.
unfoldable pub resynced : TsScanner → ℕ → TsScanner
resynced s j =
    let stats = s.stats in
    record s {
      stats = record stats { resyncs = if j == 0 then stats.resyncs else stats.resyncs + 1 };
      synced = true;
    }

-- The rest of a round, for a scanner in sync: `next` is the loop on the bytes behind the packet.
unfoldable pub one_packet :
    (TsScanner → List ℕ → ℕ → Option TsScanner) → TsScanner → List ℕ → ℕ → Option TsScanner
one_packet next s rest off =
    if ltb (length rest) ts_packet_size then some (keep_partial s rest off) else (do
      s' ← packet s (take ts_packet_size rest) off
      next s' (drop ts_packet_size rest) (off + ts_packet_size))

-- The hunt's answer; without one the rest of the chunk is dropped.
unfoldable pub after_hunt :
    (TsScanner → List ℕ → ℕ → Option TsScanner)
    → TsScanner
    → List ℕ
    → ℕ
    → Option ℕ
    → Option TsScanner
after_hunt next s rest off none = some s
after_hunt next s rest off (some j) = one_packet next (resynced s j) (drop j rest) (off + j)

unfoldable pub feed_round :
    (TsScanner → List ℕ → ℕ → Option TsScanner) → TsScanner → List ℕ → ℕ → Option TsScanner
feed_round next s rest off =
    if length rest == 0
    then some s
    else if s.synced
    then one_packet next s rest off
    else after_hunt next s rest off (hunt rest)

-- while (i < n); a round that goes on takes a packet's bytes.
unfoldable pub feed_loop : ℕ → TsScanner → List ℕ → ℕ → Option TsScanner
feed_loop zero s rest off = none
feed_loop (suc fuel) s rest off = feed_round (feed_loop fuel) s rest off

-- Behind the end of a packet that an earlier call began.
unfoldable pub after_partial : List ℕ → ℕ → TsScanner → Option TsScanner
after_partial rest off s = feed_loop (suc (length rest)) (record s { partial = [] }) rest off

unfoldable pub feed : TsScanner → List ℕ → ℕ → Option TsScanner
feed s buf base =
    let stats = s.stats in
    let s0 : TsScanner = record s { stats = record stats { bytes = stats.bytes + length buf } } in
    let taken = min (length buf) (ts_packet_size - length s.partial) in
    let whole = s.partial ++ take taken buf in
    if length s.partial == 0
    then feed_loop (suc (length buf)) s0 buf base
    else if ltb (length whole) ts_packet_size
    then some (record s0 { partial = whole })
    else (do
      s1 ← packet (record s0 { partial = whole }) whole s.partial_off
      after_partial (drop taken buf) (base + taken) s1)
