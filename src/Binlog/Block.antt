-- ===== src/Binlog/Block.antt =====
-- BinlogWriter::handle_block.
pub mod Invariant
pub mod Durable
pub mod Stores
use support_proxy.Base.{
  ℕ, suc, ◌+◌, ◌-◌, ◌*◌, ◌%◌, Bool, true, false, not, ◌&&◌, ◌||◌, List, [], ◌∷◌, ◌++◌, Option, none,
  some, ltb, leb, ◌==◌, if◌then◌else◌, length, get_elem?, take,
}
use support_proxy.Binlog.{
  Nack, BinlogWriter, is_closed, u32_mod, block_bytes, seqno0_restart_min_highest,
  stop_min_gated_blocks, max_forward_jump_bytes, quota_cleanup_min_interval_ms,
}
use support_proxy.Binlog.Seen.{seqno_seen, mark_seqno_seen}
use support_proxy.Binlog.Gaps.{erase_nack, queue_gap_nacks}
use support_proxy.Binlog.Reboot.{rotate_for_reboot}

-- A REMOTE_LOG_DATA_BLOCK with the identity of its sender.
pub record Block : Type 0 where
  pub sysid : ℕ
  pub compid : ℕ
  pub seqno : ℕ
  pub bytes : List ℕ

-- What the system answers during a call: the clock; whether the file opens, and the size of the
-- other files then; st_blocks and st_blksize, if fstat works; the quota; the size of the other
-- files behind a cleanup and behind a refresh; whether the seek works; how much fwrite takes.
pub record System : Type 0 where
  pub now : ℕ
  pub opens : Bool
  pub others_at_open : ℕ
  pub stat : Option (ℕ × ℕ)
  pub quota : ℕ
  pub others_cleaned : ℕ
  pub others_refreshed : ℕ
  pub seeks : Bool
  pub wrote : ℕ

-- BinlogWriter::open, where the file opens.
unfoldable pub opened : BinlogWriter → System → BinlogWriter
opened b sys = record b {
  fp = some (λ i. 0);
  current_file_size = 0;
  other_sessions_bytes = sys.others_at_open;
  writes_since_quota_refresh = 0;
}

-- Behind the open for a block 0.
unfoldable pub started : BinlogWriter → System → BinlogWriter
started b sys = record (opened b sys) { gated_block_count = 0 }

-- A block in mid-log at a closed file.
unfoldable pub gated : BinlogWriter → Block → BinlogWriter
gated b m =
    let b' =
      if b.target_system == 0
      then record b { target_system = m.sysid; target_component = m.compid }
      else b in
    if ltb b.gated_block_count stop_min_gated_blocks
    then record b' { gated_block_count = b.gated_block_count + 1 }
    else b'

-- The file after fwrite of `bytes` at `offset`.
unfoldable pub byte_or : List ℕ → ℕ → ℕ → ℕ
byte_or bytes i old = elim (get_elem? bytes i) [ none ↦ old | some v ↦ v ]

unfoldable pub written : (ℕ → ℕ) → ℕ → List ℕ → ℕ → ℕ
written file offset bytes i = if leb offset i then byte_or bytes (i - offset) (file i) else file i

unfoldable pub prospective_size : BinlogWriter → ℕ → ℕ
prospective_size b seqno =
    let end = seqno * block_bytes + block_bytes in
    if ltb b.current_file_size end then end else b.current_file_size

-- own_alloc and write_growth.
unfoldable pub own_growth : Option (ℕ × ℕ) → ℕ × ℕ
own_growth none = (0, block_bytes)
own_growth (some (blocks, blksize)) =
    (blocks * 512, if ltb block_bytes blksize then blksize else block_bytes)

unfoldable pub needed : BinlogWriter → System → ℕ
needed b sys = b.other_sessions_bytes + (own_growth sys.stat).0 + (own_growth sys.stat).1

-- The cleanup before a block is dropped for the quota.
unfoldable pub make_room : BinlogWriter → System → BinlogWriter
make_room b sys =
    if ltb sys.quota (needed b sys)
      && leb (b.last_quota_cleanup + quota_cleanup_min_interval_ms) sys.now
    then record b { last_quota_cleanup = sys.now; other_sessions_bytes = sys.others_cleaned }
    else b

unfoldable pub latched : BinlogWriter → Block → BinlogWriter
latched b m =
    if b.any_block_seen
    then b
    else record b { target_system = m.sysid; target_component = m.compid; any_block_seen = true }

-- The writes since the last refresh, and the size of the other files.
unfoldable pub counted : BinlogWriter → System → BinlogWriter
counted b sys =
    if leb 10000 (b.writes_since_quota_refresh + 1)
    then record b { writes_since_quota_refresh = 0; other_sessions_bytes = sys.others_refreshed }
    else record b { writes_since_quota_refresh = b.writes_since_quota_refresh + 1 }

-- The test for a forward jump, with was_seen.
unfoldable pub jumps_ahead : BinlogWriter → ℕ → Bool
jumps_ahead b seqno =
    b.any_block_seen
    && (ltb ((b.highest_seen + 1) % u32_mod) seqno
        && not (b.highest_seen == 0 && (not (seqno_seen b.seen_bitmap seqno) && seqno == 0)))

unfoldable pub with_gaps : BinlogWriter → ℕ → ℕ → List Nack
with_gaps b seqno now =
    let from = (b.highest_seen + 1) % u32_mod in
    let marked = mark_seqno_seen b.seen_bitmap seqno in
    let erased = erase_nack b.nack_state seqno in
    if jumps_ahead b seqno then queue_gap_nacks marked now from (seqno - from) erased else erased

-- From mark_seqno_seen to the end.
unfoldable pub recorded : BinlogWriter → ℕ → ℕ → BinlogWriter
recorded b seqno now = record b {
  seen_bitmap = mark_seqno_seen b.seen_bitmap seqno;
  nack_state = with_gaps b seqno now;
  highest_seen = if leb b.highest_seen seqno then seqno else b.highest_seen;
  pending_acks = b.pending_acks ++ (seqno ∷ []);
}

-- From fseeko on, on the file that is open.
unfoldable pub write_block : BinlogWriter → System → Block → (ℕ → ℕ) → BinlogWriter
write_block b sys m file =
    let size = prospective_size b m.seqno in
    let file' = written file (m.seqno * block_bytes) (take sys.wrote m.bytes) in
    let b' = record b { fp = some file' } in
    if not sys.seeks
    then b
    else if not (sys.wrote == block_bytes)
    then b'
    else recorded (counted (record b' { current_file_size = size }) sys) m.seqno sys.now

-- Behind the gate, on the file that is open: the caps and the write.
unfoldable pub store_block : BinlogWriter → System → Block → (ℕ → ℕ) → BinlogWriter
store_block b sys m file =
    let roomy = make_room b sys in
    if ltb max_forward_jump_bytes (prospective_size b m.seqno - b.current_file_size)
    then b
    else if ltb sys.quota (needed roomy sys)
    then roomy
    else write_block (latched roomy m) sys m file

unfoldable pub restarts : BinlogWriter → Block → Bool
restarts b m = not (is_closed b) && (m.seqno == 0 && leb seqno0_restart_min_highest b.highest_seen)

-- From the strict-start gate on.
unfoldable pub gate : BinlogWriter → System → Block → Option (ℕ → ℕ) → BinlogWriter
gate b sys m (some file) = store_block b sys m file
gate b sys m none =
    if not (m.seqno == 0)
    then gated b m
    else if sys.opens
    then store_block (started b sys) sys m (λ i. 0)
    else b

unfoldable pub handle_block : BinlogWriter → System → Block → BinlogWriter
handle_block b sys m =
    let b' = if restarts b m then rotate_for_reboot b else b in gate b' sys m b'.fp
