-- ===== src/Binlog.antt =====
-- binlog.h and binlog.cpp: the writer of ArduPilot logs that a vehicle sends block by block. Times
-- are whole milliseconds. Names of files and directories are not modelled: what the file system
-- answers is an argument.
pub mod Seen
pub mod Gaps
pub mod Reboot
pub mod Block
pub mod Tick
pub mod Life
use support_proxy.Base.{ℕ, ◌*◌, ◌^◌, Bool, true, false, List, [], Option, none, some, is_none}

abbrev pub u32_mod : ℕ
u32_mod = 2 ^ 32

abbrev pub block_bytes : ℕ
block_bytes = 200

abbrev pub max_nacks_per_tick : ℕ
max_nacks_per_tick = 10

abbrev pub nack_repeat_ms : ℕ
nack_repeat_ms = 100

abbrev pub nack_giveup_ms : ℕ
nack_giveup_ms = 60000

abbrev pub nack_giveup_blocks : ℕ
nack_giveup_blocks = 200

abbrev pub start_repeat_ms : ℕ
start_repeat_ms = 1000

abbrev pub stop_repeat_ms : ℕ
stop_repeat_ms = 2000

abbrev pub stop_min_gated_blocks : ℕ
stop_min_gated_blocks = 3

abbrev pub start_keepalive_ms : ℕ
start_keepalive_ms = 5000

abbrev pub reboot_time_backward_ms : ℕ
reboot_time_backward_ms = 10000

abbrev pub seqno0_restart_min_highest : ℕ
seqno0_restart_min_highest = 200

abbrev pub max_forward_jump_bytes : ℕ
max_forward_jump_bytes = 100 * 1024 * 1024

abbrev pub quota_cleanup_min_interval_ms : ℕ
quota_cleanup_min_interval_ms = 30000

-- NackState, with its key.
pub record Nack : Type 0 where
  pub seqno : ℕ
  pub first_seen : ℕ
  pub last_sent : ℕ

-- `fp` is the byte at each offset of the file that is open; a hole reads as 0. The entries of
-- nack_state stand in the order in which the map is walked.
pub record BinlogWriter : Type 0 where
  pub fp : Option (ℕ → ℕ)
  pub seen_bitmap : List ℕ
  pub highest_seen : ℕ
  pub any_block_seen : Bool
  pub last_start_sent : ℕ
  pub target_system : ℕ
  pub target_component : ℕ
  pub pending_acks : List ℕ
  pub nack_state : List Nack
  pub gated_block_count : ℕ
  pub last_stop_sent : ℕ
  pub current_file_size : ℕ
  pub other_sessions_bytes : ℕ
  pub writes_since_quota_refresh : ℕ
  pub last_quota_cleanup : ℕ
  pub fc_sysid_filter : ℕ
  pub last_system_time_boot : ℕ

-- A writer as it is made, with the sysid filter that the child sets.
unfoldable pub new_writer : ℕ → BinlogWriter
new_writer sysid = record {
  fp = none;
  seen_bitmap = [];
  highest_seen = 0;
  any_block_seen = false;
  last_start_sent = 0;
  target_system = 0;
  target_component = 0;
  pending_acks = [];
  nack_state = [];
  gated_block_count = 0;
  last_stop_sent = 0;
  current_file_size = 0;
  other_sessions_bytes = 0;
  writes_since_quota_refresh = 0;
  last_quota_cleanup = 0;
  fc_sysid_filter = sysid;
  last_system_time_boot = 0;
}

abbrev pub is_closed : BinlogWriter → Bool
is_closed b = is_none b.fp
