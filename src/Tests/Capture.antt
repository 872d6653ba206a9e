-- ===== src/Tests/Capture.antt =====
-- The capture of logs on small inputs: a vehicle that starts a log, loses a block and reboots.
use support_proxy.Base.{
  ℕ, ◌≡◌, refl, true, false, ◌||◌, ◌==◌, none, some, List, [], ◌∷◌, arith, replicate,
}
use support_proxy.Binlog.{BinlogWriter, new_writer, is_closed}
use support_proxy.Binlog.Seen.{seqno_seen, mark_seqno_seen}
use support_proxy.Binlog.Seen.Laws.{seqno_seen-mark, nil-Bytewise}
use support_proxy.Binlog.Reboot.{UserMessage, is_clock, observe}
use support_proxy.Binlog.Reboot.Overflow.{observe_wraps}
use support_proxy.Binlog.Block.{
  Block, System, prospective_size, own_growth, needed, make_room, restarts, handle_block,
}
use support_proxy.Binlog.Block.Invariant.{Books, handle_block-Books, new_writer-Books}
use support_proxy.Binlog.Block.Durable.{Durable, rebased, contents, handle_block-Durable}
use support_proxy.Binlog.Block.Stores.{Allows}
use support_proxy.Binlog.Tick.{Link, tick}
use support_proxy.Binlog.Tick.Sends.{Fair}
use support_proxy.Binlog.Tick.Drain.{Drained, tick-Drained}
use support_proxy.Binlog.Life.{Event, data_block, user_message, pumped, run, run-Fair, run_closed}

abbrev healthy : System
healthy = record {
  now = 50000;
  opens = true;
  others_at_open = 0;
  stat = some (8, 4096);
  quota = 1073741824;
  others_cleaned = 0;
  others_refreshed = 0;
  seeks = true;
  wrote = 200;
}

abbrev block : ℕ → Block
block n = record { sysid = 1; compid = 1; seqno = n; bytes = replicate 200 7 }

abbrev clock : ℕ → UserMessage
clock t = record { msgid = 2; sysid = 1; compid = 1; time_boot_ms = t }

abbrev all_sent : Link
all_sent s = true

abbrev blank : ℕ → ℕ
blank i = 0

-- A writer with a file open that has seen the clock at `t`.
abbrev streaming : ℕ → BinlogWriter
streaming t = record (new_writer 0) {
  fp = some blank;
  any_block_seen = true;
  pending_acks = 0 ∷ 1 ∷ [];
  last_system_time_boot = t;
}

abbrev flight : List Event
flight =
    data_block healthy (block 0)
    ∷ data_block healthy (block 3)
    ∷ pumped 50100 all_sent
    ∷ user_message (clock 90000)
    ∷ user_message (clock 100)
    ∷ data_block healthy (block 4)
    ∷ []

abbrev late : List Event
late = data_block healthy (block 7) ∷ pumped 50100 all_sent ∷ user_message (clock 100) ∷ []

run-Fair_example :
    let b = run 2 1 (new_writer 0) flight in Fair b all_sent 10 (tick b 50200 all_sent)
run-Fair_example = run-Fair 2 1 0 flight 50200 all_sent

new_closed : (new_writer 0).fp ≡ none
unfolding new_writer
new_closed = refl

run_closed_example : (run 2 1 (new_writer 0) late).fp ≡ none
run_closed_example = run_closed 2 1 (new_writer 0) late new_closed (refl, (tt, (tt, tt)))

handle_block-Durable_example :
    let base = rebased (streaming 0) (block 5) in
    Durable
      (contents base.fp)
      (block 5)
      base.pending_acks
      (handle_block (streaming 0) healthy (block 5))
handle_block-Durable_example = handle_block-Durable (streaming 0) healthy (block 5) refl

five_allowed : Allows (streaming 0) healthy (block 5)
unfolding new_writer prospective_size needed make_room own_growth
five_allowed = record { near = omega arith; within_quota = omega arith; seek = refl; whole = refl }

no_restart : restarts (streaming 0) (block 5) ≡ false
unfolding restarts new_writer
no_restart = refl

handle_block-Books_example : Books (handle_block (new_writer 0) healthy (block 0))
handle_block-Books_example =
    handle_block-Books (new_writer 0) healthy (block 0) (new_writer-Books 0)

tick-Drained_example : Drained (0 ∷ 1 ∷ []) (tick (streaming 0) 50100 all_sent)
tick-Drained_example = tick-Drained (streaming 0) 50100 all_sent blank refl refl

seqno_seen-mark_example : seqno_seen (mark_seqno_seen [] 9) 9 ≡ (9 == 9 || seqno_seen [] 9)
seqno_seen-mark_example = seqno_seen-mark [] 9 9 nil-Bytewise

clock_counts : (t u : ℕ) → is_clock 2 1 (streaming t) (clock u) ≡ true
unfolding is_clock new_writer
clock_counts t u = refl

observe_wraps_example :
    let b = observe 2 1 (streaming 4294959000) (clock 4294960000) in
    (is_closed b ≡ true) × (b.seen_bitmap ≡ []) × (b.pending_acks ≡ [])
observe_wraps_example =
    observe_wraps 2 1 (streaming 4294959000) (clock 4294960000) (clock_counts 4294959000 4294960000)
      refl (omega arith) (omega arith) (omega arith) (omega arith)
