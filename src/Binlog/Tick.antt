-- ===== src/Binlog/Tick.antt =====
-- BinlogWriter::tick. A link answers for each message whether it went out whole; MAVLink packs it.
pub mod Rightful
pub mod Sends
pub mod Drain
use support_proxy.Base.{
  ℕ, zero, suc, ◌+◌, ◌-◌, Bool, true, false, not, ◌&&◌, ◌||◌, List, [], ◌∷◌, ◌++◌, ltb, leb, ◌==◌,
  if◌then◌else◌,
}
use support_proxy.Binlog.{
  Nack, BinlogWriter, is_closed, max_nacks_per_tick, nack_repeat_ms, start_repeat_ms,
  stop_repeat_ms, start_keepalive_ms, stop_min_gated_blocks,
}
use support_proxy.Binlog.Gaps.{drop_stale_nack_state}

-- A REMOTE_LOG_BLOCK_STATUS: the two magic numbers, or the status of a block.
pub data Status : Type 0 where
  start_packet stop_packet : Status
  ack nack : ℕ → Status

-- What was handed to the link, in order, and the writer.
pub record Ticked : Type 0 where
  pub writer : BinlogWriter
  pub sent : List Status

abbrev pub Link : Type 0
Link = Status → Bool

unfoldable pub stop_nudge : BinlogWriter → ℕ → Link → Ticked
stop_nudge b now link =
    let due =
      is_closed b
      && (leb stop_min_gated_blocks b.gated_block_count
          && leb (b.last_stop_sent + stop_repeat_ms) now) in
    if due
    then (record {
      writer =
          if link stop_packet then record b { last_stop_sent = now; last_start_sent = 0 } else b;
      sent = stop_packet ∷ [];
    })
    else record { writer = b; sent = [] }

-- A START that is due `period` after the last one that went out.
unfoldable pub start_loop : ℕ → BinlogWriter → ℕ → Link → Ticked
start_loop period b now link =
    if leb (b.last_start_sent + period) now
    then (record {
      writer = if link start_packet then record b { last_start_sent = now } else b;
      sent = start_packet ∷ [];
    })
    else record { writer = b; sent = [] }

-- while (!pending_acks.empty()): what the link answers is not looked at.
unfoldable pub drain_acks : List ℕ → List Status
drain_acks [] = []
drain_acks (s ∷ rest) = ack s ∷ drain_acks rest

unfoldable pub is_throttled : ℕ → Nack → Bool
is_throttled now n = not (n.last_sent == 0) && ltb now (n.last_sent + nack_repeat_ms)

-- The loop over nack_state: the entries as it leaves them, and the messages.
unfoldable pub send_nacks : ℕ → ℕ → Link → List Nack → List Nack × List Status
send_nacks zero now link ns = (ns, [])
send_nacks (suc budget) now link [] = ([], [])
send_nacks (suc budget) now link (n ∷ ns) = elim (is_throttled now n) [
  | true ↦ let rest = send_nacks (suc budget) now link ns in (n ∷ rest.0, rest.1)
  | false ↦ elim (link (nack n.seqno)) [
    | true ↦
        let rest = send_nacks budget now link ns in
        (record n { last_sent = now } ∷ rest.0, nack n.seqno ∷ rest.1)
    | false ↦ let rest = send_nacks (suc budget) now link ns in (n ∷ rest.0, nack n.seqno ∷ rest.1)
  ]
]

-- From the drain of the ACKs on.
unfoldable pub pump : BinlogWriter → ℕ → Link → Ticked
pump b now link =
    let fresh = drop_stale_nack_state (record b { pending_acks = [] }) now in
    let nacks = send_nacks max_nacks_per_tick now link fresh.nack_state in
    record {
      writer = record fresh { nack_state = nacks.0 };
      sent = drain_acks b.pending_acks ++ nacks.1;
    }

-- What a step sends goes before what the next one sends.
abbrev pub and_then : Ticked → (BinlogWriter → Ticked) → Ticked
and_then t next = let u = next t.writer in record { writer = u.writer; sent = t.sent ++ u.sent }

unfoldable pub after_start : ℕ → Link → BinlogWriter → Ticked
after_start now link b = if is_closed b then record { writer = b; sent = [] } else pump b now link

unfoldable pub after_nudge : ℕ → Link → BinlogWriter → Ticked
after_nudge now link b =
    if not b.any_block_seen
    then start_loop start_repeat_ms b now link
    else and_then (start_loop start_keepalive_ms b now link) (after_start now link)

unfoldable pub tick : BinlogWriter → ℕ → Link → Ticked
tick b now link = and_then (stop_nudge b now link) (after_nudge now link)
