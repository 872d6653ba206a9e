-- ===== src/Binlog/Reboot/Overflow.antt =====
-- When `observe` takes a clock for that of a rebooted vehicle.
use support_proxy.Base.{ℕ, ◌+◌, ◌≤◌, ◌<◌, ◌≡◌, ◌≢◌, true, false, [], arith, leb}
use support_proxy.Binlog.{BinlogWriter, is_closed, u32_mod, reboot_time_backward_ms}
use support_proxy.Binlog.Reboot.{rotate_for_reboot, UserMessage, went_back, is_clock, observe}

-- While the clock is more than ten seconds from the end of its 32 bits, an open log is rotated on a
-- message of the clock exactly when it stands ten seconds or more behind the last one.
pub observe_rotates :
    (system_time autopilot : ℕ) (b : BinlogWriter) (m : UserMessage)
    → is_clock system_time autopilot b m ≡ true
    → is_closed b ≡ false
    → b.last_system_time_boot ≢ 0
    → m.time_boot_ms + reboot_time_backward_ms < u32_mod
    → is_closed (observe system_time autopilot b m)
      ≡ leb (m.time_boot_ms + reboot_time_backward_ms) b.last_system_time_boot
unfolding observe went_back rotate_for_reboot
observe_rotates system_time autopilot b m clock open_ last early = ground (arith, clock, open_)

-- In the last ten seconds of the clock's 32 bits the code takes a clock that moves on for a
-- reboot: the sum in the test wraps, and the open log is closed and its state dropped, although the
-- new time is later than the last.
pub observe_wraps :
    (system_time autopilot : ℕ) (b : BinlogWriter) (m : UserMessage)
    → is_clock system_time autopilot b m ≡ true
    → is_closed b ≡ false
    → b.last_system_time_boot < m.time_boot_ms
    → m.time_boot_ms < u32_mod
    → u32_mod ≤ m.time_boot_ms + reboot_time_backward_ms
    → reboot_time_backward_ms ≤ b.last_system_time_boot
    → (is_closed (observe system_time autopilot b m) ≡ true)
      × ((observe system_time autopilot b m).seen_bitmap ≡ [])
      × ((observe system_time autopilot b m).pending_acks ≡ [])
unfolding observe went_back rotate_for_reboot
observe_wraps system_time autopilot b m clock open_ on small late far = ground (arith, clock, open_)
