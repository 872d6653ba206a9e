-- ===== src/Binlog/Gaps/Walk.antt =====
-- What is in the NACK state is missing from the log and lies below the highest block.
use support_proxy.Base.{
  ℕ, zero, suc, ◌+◌, ◌≤◌, ◌<◌, ◌≡◌, false, ◌||◌, List, [], ◌∷◌, arith, inl, inr, ◌==◌, All,
  Bool-cases,
}
use support_proxy.Binlog.{Nack, BinlogWriter}
use support_proxy.Binlog.Seen.{seqno_seen, mark_seqno_seen}
use support_proxy.Binlog.Seen.Laws.{Bytewise, seqno_seen-mark}
use support_proxy.Binlog.Gaps.{
  is_nacked, erase_nack, noticed, queue_gap_nacks, is_stale, keep_fresh,
}

-- A block that is missing below `high`.
abbrev pub Missing : List ℕ → ℕ → Nack → Type 0
Missing bitmap high n = (seqno_seen bitmap n.seqno ≡ false) × (n.seqno < high)

unseen_after :
    (bitmap : List ℕ) (q high high' : ℕ) (n : Nack)
    → Bytewise bitmap
    → high ≤ high'
    → (Nack.seqno n == q) ≡ false
    → Missing bitmap high n
    → Missing (mark_seqno_seen bitmap q) high' n
unseen_after bitmap q high high' n bytes up ne m =
    (ground (arith, seqno_seen-mark bitmap q n.seqno bytes), omega arith)

pub erase_nack-Missing :
    (bitmap : List ℕ) (q high high' : ℕ) (ns : List Nack)
    → Bytewise bitmap
    → high ≤ high'
    → All (Missing bitmap high) ns
    → All (Missing (mark_seqno_seen bitmap q) high') (erase_nack ns q)
unfolding erase_nack
erase_nack-Missing bitmap q high high' [] bytes up ms = tt
erase_nack-Missing bitmap q high high' (n ∷ ns) bytes up (m, ms) =
    let rest = erase_nack-Missing bitmap q high high' ns bytes up ms in
    elim (Bool-cases (n.seqno == q)) [
      | inl e ↦ rw e rest
      | inr e ↦ rw e (unseen_after bitmap q high high' n bytes up e m, rest)
    ]

noticed-Missing :
    (bitmap : List ℕ) (now s high : ℕ) (ns : List Nack)
    → s < high
    → All (Missing bitmap high) ns
    → All (Missing bitmap high) (noticed bitmap now s ns)
unfolding noticed
noticed-Missing bitmap now s high ns h ms =
    elim (Bool-cases (seqno_seen bitmap s || is_nacked ns s)) [
      | inl e ↦ rw e ms
      | inr e ↦ rw e ((ground (arith, e), h), ms)
    ]

pub queue_gap_nacks-Missing :
    (bitmap : List ℕ) (now s n high : ℕ) (ns : List Nack)
    → s + n ≤ high
    → All (Missing bitmap high) ns
    → All (Missing bitmap high) (queue_gap_nacks bitmap now s n ns)
unfolding queue_gap_nacks
queue_gap_nacks-Missing bitmap now s zero high ns h ms = ms
queue_gap_nacks-Missing bitmap now s (suc n) high ns h ms =
    queue_gap_nacks-Missing bitmap now (s + 1) n high (noticed bitmap now s ns) (omega arith)
      (noticed-Missing bitmap now s high ns (omega arith) ms)

pub keep_fresh-Missing :
    (bitmap : List ℕ) (high : ℕ) (b : BinlogWriter) (now : ℕ) (ns : List Nack)
    → All (Missing bitmap high) ns
    → All (Missing bitmap high) (keep_fresh b now ns)
unfolding keep_fresh
keep_fresh-Missing bitmap high b now [] ms = tt
keep_fresh-Missing bitmap high b now (n ∷ ns) (m, ms) =
    let rest = keep_fresh-Missing bitmap high b now ns ms in
    elim (Bool-cases (is_stale b now n)) [ inl e ↦ rw e rest | inr e ↦ rw e (m, rest) ]
