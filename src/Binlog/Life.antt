-- ===== src/Binlog/Life.antt =====
-- The life of a writer: blocks, messages of the user side and ticks, in any order.
use support_proxy.Base.{
  ℕ, ◌≡◌, refl, false, List, [], ◌∷◌, Option, none, some, arith, inl, inr, ◌==◌, All, Bool-cases,
}
use support_proxy.Binlog.{BinlogWriter, new_writer}
use support_proxy.Binlog.Gaps.{drop_stale_nack_state}
use support_proxy.Binlog.Reboot.{UserMessage, rotate_for_reboot, went_back, is_clock, observe}
use support_proxy.Binlog.Block.{Block, System, gated, restarts, gate, handle_block}
use support_proxy.Binlog.Block.Invariant.{
  Books, SameBooks-Books, rotate_for_reboot-Books, handle_block-Books, new_writer-Books,
}
use support_proxy.Binlog.Tick.{
  Ticked, Link, stop_nudge, start_loop, after_start, after_nudge, tick, pump,
}
use support_proxy.Binlog.Tick.Sends.{Fair, tick-Fair}

pub data Event : Type 0 where
  data_block : System → Block → Event
  user_message : UserMessage → Event
  pumped : ℕ → Link → Event

restarts_closed : (b : BinlogWriter) (m : Block) → b.fp ≡ none → restarts b m ≡ false
unfolding restarts
restarts_closed b m c = ground (arith, c)

module _ (system_time autopilot : ℕ) where
  unfoldable pub step : BinlogWriter → Event → BinlogWriter
  step b (data_block sys m) = handle_block b sys m
  step b (user_message m) = observe system_time autopilot b m
  step b (pumped now link) = Ticked.writer (tick b now link)

  unfoldable pub run : BinlogWriter → List Event → BinlogWriter
  run b [] = b
  run b (e ∷ es) = run (step b e) es

  observe-Books :
      (b : BinlogWriter) (m : UserMessage) → Books b → Books (observe system_time autopilot b m)
  unfolding observe
  observe-Books b m k = elim (Bool-cases (is_clock system_time autopilot b m)) [
    | inr e ↦ rw e k
    | inl e ↦ elim (Bool-cases (went_back b m.time_boot_ms)) [
      | inl w ↦
          rw (e, w)
            (SameBooks-Books (rotate_for_reboot b) _
              (record {
                same_bitmap = refl;
                same_acks = refl;
                same_nacks = refl;
                same_highest = refl;
              })
              (rotate_for_reboot-Books b))
      | inr w ↦
          rw (e, w)
            (SameBooks-Books b _
              (record {
                same_bitmap = refl;
                same_acks = refl;
                same_nacks = refl;
                same_highest = refl;
              })
              k)
    ]
  ]

  step-Books : (b : BinlogWriter) (e : Event) → Books b → Books (step b e)
  unfolding step
  step-Books b (data_block sys m) k = handle_block-Books b sys m k
  step-Books b (user_message m) k = observe-Books b m k
  step-Books b (pumped now link) k = Fair.books (tick-Fair b now link k)

  run-Books : (b : BinlogWriter) (es : List Event) → Books b → Books (run b es)
  unfolding run
  run-Books b [] k = k
  run-Books b (e ∷ es) k = run-Books (step b e) es (step-Books b e k)

  -- After any life at all, a tick acknowledges only blocks that were seen since the file was opened,
  -- asks again only for blocks that were not and lie below the highest one, and at most ten such
  -- requests of it go out.
  pub run-Fair :
      (sysid : ℕ) (es : List Event) (now : ℕ) (link : Link)
      → let b = run (new_writer sysid) es in Fair b link 10 (tick b now link)
  run-Fair sysid es now link =
      tick-Fair (run (new_writer sysid) es) now link
        (run-Books (new_writer sysid) es (new_writer-Books sysid))

  -- Not block 0 of a log.
  abbrev pub MidLog : Event → Type 0
  MidLog (data_block sys m) = (m.seqno == 0) ≡ false
  MidLog (user_message m) = Unit {0}
  MidLog (pumped now link) = Unit {0}

  observe_closed :
      (b : BinlogWriter) (m : UserMessage)
      → b.fp ≡ none
      → (observe system_time autopilot b m).fp ≡ none
  unfolding observe rotate_for_reboot
  observe_closed b m c = ground (arith, c)

  gate_closed :
      (b : BinlogWriter) (sys : System) (m : Block) (f : Option (ℕ → ℕ))
      → b.fp ≡ none
      → f ≡ none
      → (m.seqno == 0) ≡ false
      → (gate b sys m f).fp ≡ none
  unfolding gate gated
  gate_closed b sys m none c n z = ground (arith, c, z)
  gate_closed b sys m (some file) c n z = cc

  handle_block_closed :
      (b : BinlogWriter) (sys : System) (m : Block)
      → b.fp ≡ none
      → (m.seqno == 0) ≡ false
      → (handle_block b sys m).fp ≡ none
  unfolding handle_block
  handle_block_closed b sys m c z = rw (restarts_closed b m c) (gate_closed b sys m b.fp c c z)

  tick_closed :
      (b : BinlogWriter) (now : ℕ) (link : Link)
      → b.fp ≡ none
      → (Ticked.writer (tick b now link)).fp ≡ none
  unfolding tick stop_nudge after_nudge start_loop after_start pump drop_stale_nack_state
  tick_closed b now link c = ground (arith, c)

  step_closed : (b : BinlogWriter) (e : Event) → b.fp ≡ none → MidLog e → (step b e).fp ≡ none
  unfolding step
  step_closed b (data_block sys m) c z = handle_block_closed b sys m c z
  step_closed b (user_message m) c z = observe_closed b m c
  step_closed b (pumped now link) c z = tick_closed b now link c

  -- A writer with no file open makes none, and writes none, in any run of events without block 0 of
  -- a log, whatever the blocks, the messages of the user side and the ticks are.
  pub run_closed :
      (b : BinlogWriter) (es : List Event) → b.fp ≡ none → All MidLog es → (run b es).fp ≡ none
  unfolding run
  run_closed b [] c a = c
  run_closed b (e ∷ es) c (z, a) = run_closed (step b e) es (step_closed b e c z) a
