-- ===== src/Binlog/Reboot.antt =====
-- BinlogWriter::rotate_for_reboot and observe. The name of the next file is not modelled. MAVLink's
-- numbers for SYSTEM_TIME and for the autopilot's component are parameters.
pub mod Overflow
use support_proxy.Base.{
  ℕ, ◌+◌, ◌%◌, Bool, true, false, not, ◌&&◌, ◌||◌, List, [], none, leb, ◌==◌, if◌then◌else◌,
}
use support_proxy.Binlog.{BinlogWriter, is_closed, u32_mod, reboot_time_backward_ms}

unfoldable pub rotate_for_reboot : BinlogWriter → BinlogWriter
rotate_for_reboot b = record b {
  fp = none;
  seen_bitmap = [];
  highest_seen = 0;
  pending_acks = [];
  nack_state = [];
  last_start_sent = 0;
  gated_block_count = 0;
  last_system_time_boot = 0;
}

-- A message of the user side, with time_boot_ms as a SYSTEM_TIME would decode it.
pub record UserMessage : Type 0 where
  pub msgid : ℕ
  pub sysid : ℕ
  pub compid : ℕ
  pub time_boot_ms : ℕ

-- The test for a backward jump, in 32 bits.
unfoldable pub went_back : BinlogWriter → ℕ → Bool
went_back b t =
    not (b.last_system_time_boot == 0)
    && (leb ((t + reboot_time_backward_ms) % u32_mod) b.last_system_time_boot && not (is_closed b))

module _ (system_time autopilot : ℕ) where
  unfoldable pub is_clock : BinlogWriter → UserMessage → Bool
  is_clock b m =
      m.msgid == system_time
      && (m.compid == autopilot && (b.fc_sysid_filter == 0 || m.sysid == b.fc_sysid_filter))

  unfoldable pub observe : BinlogWriter → UserMessage → BinlogWriter
  observe b m =
      if is_clock b m
      then record (if went_back b m.time_boot_ms then rotate_for_reboot b else b) {
        last_system_time_boot = m.time_boot_ms;
      }
      else b
