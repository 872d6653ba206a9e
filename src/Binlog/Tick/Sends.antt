-- ===== src/Binlog/Tick/Sends.antt =====
-- What a tick sends, and the books behind it.
use support_proxy.Base.{
  ℕ, ◌+◌, ◌≤◌, ◌≡◌, refl, ◌∙◌, Bool, true, false, not, ◌&&◌, List, [], arith, leb, if◌then◌else◌,
  All,
}
use support_proxy.Binlog.{
  BinlogWriter, is_closed, stop_min_gated_blocks, stop_repeat_ms, start_keepalive_ms,
  start_repeat_ms,
}
use support_proxy.Binlog.Gaps.{drop_stale_nack_state, keep_fresh}
use support_proxy.Binlog.Gaps.Walk.{keep_fresh-Missing}
use support_proxy.Binlog.Block.Invariant.{Books, SameBooks, SameBooks-Books}
use support_proxy.Binlog.Tick.{
  Status, start_packet, stop_packet, Ticked, Link, stop_nudge, start_loop, drain_acks, send_nacks,
  pump, and_then, after_start, after_nudge, tick,
}
use support_proxy.Binlog.Tick.Rightful.{
  Rightful, append-All, drain_acks-Rightful, nacks_out, send_nacks_lem, nacks_out-append,
  nacks_out-drain_acks,
}

-- A step that sends only what the books of `b` allow, with at most `n` NACKs, and keeps the books.
pub record Fair (b : BinlogWriter) (link : Link) (n : ℕ) (t : Ticked) : Type 0 where
  pub same_bitmap : (Ticked.writer t).seen_bitmap ≡ b.seen_bitmap
  pub same_highest : (Ticked.writer t).highest_seen ≡ b.highest_seen
  pub rightful : All (Rightful b.seen_bitmap b.highest_seen) (Ticked.sent t)
  pub few : nacks_out link (Ticked.sent t) ≤ n
  pub books : Books (Ticked.writer t)

either_Fair :
    (c : Bool) (b : BinlogWriter) (link : Link) (n : ℕ) (t u : Ticked)
    → Fair b link n t
    → Fair b link n u
    → Fair b link n (if c then t else u)
either_Fair true b link n t u f g = f
either_Fair false b link n t u f g = g

quiet_Fair :
    (b w : BinlogWriter) (link : Link) (n : ℕ) (sent : List Status)
    → SameBooks b w
    → Books b
    → All (Rightful b.seen_bitmap b.highest_seen) sent
    → nacks_out link sent ≤ n
    → Fair b link n (record { writer = w; sent = sent })
quiet_Fair b w link n sent s k r few = record {
  same_bitmap = s.same_bitmap;
  same_highest = s.same_highest;
  rightful = r;
  few = few;
  books = SameBooks-Books b w s k;
}

stamped : (c : Bool) (b w : BinlogWriter) → SameBooks b w → SameBooks b (if c then w else b)
stamped true b w s = s
stamped false b w s = record {
  same_bitmap = refl;
  same_acks = refl;
  same_nacks = refl;
  same_highest = refl;
}

wider :
    (b : BinlogWriter) (link : Link) (m n : ℕ) (t : Ticked)
    → Fair b link m t
    → m ≤ n
    → Fair b link n t
wider b link m n t f h = record {
  same_bitmap = f.same_bitmap;
  same_highest = f.same_highest;
  rightful = f.rightful;
  few = omega (arith, f.few);
  books = f.books;
}

stop_nudge-Fair :
    (b : BinlogWriter) (now : ℕ) (link : Link) → Books b → Fair b link 0 (stop_nudge b now link)
unfolding stop_nudge
stop_nudge-Fair b now link k =
    either_Fair
      (is_closed b
        && (leb stop_min_gated_blocks b.gated_block_count
            && leb (b.last_stop_sent + stop_repeat_ms) now))
      b link 0 _ _
      (quiet_Fair b _ link 0 _ (stamped (link stop_packet) b _ (ground arith)) k (tt, tt)
        (omega arith))
      (quiet_Fair b b link 0 [] (ground arith) k tt (omega arith))

start_loop-Fair :
    (period : ℕ) (b : BinlogWriter) (now : ℕ) (link : Link)
    → Books b
    → Fair b link 0 (start_loop period b now link)
unfolding start_loop
start_loop-Fair period b now link k =
    either_Fair (leb (b.last_start_sent + period) now) b link 0 _ _
      (quiet_Fair b _ link 0 _ (stamped (link start_packet) b _ (ground arith)) k (tt, tt)
        (omega arith))
      (quiet_Fair b b link 0 [] (ground arith) k tt (omega arith))

pump-Fair : (b : BinlogWriter) (now : ℕ) (link : Link) → Books b → Fair b link 10 (pump b now link)
unfolding pump drop_stale_nack_state
pump-Fair b now link k =
    let kept = keep_fresh (record b { pending_acks = [] }) now b.nack_state in
    let fresh =
      keep_fresh-Missing b.seen_bitmap b.highest_seen (record b { pending_acks = [] }) now
        b.nack_state k.nacks_missing in
    let (ms, r, few) = send_nacks_lem b.seen_bitmap b.highest_seen now link 10 kept fresh in
    record {
      same_bitmap = refl;
      same_highest = refl;
      rightful =
          append-All b.seen_bitmap b.highest_seen (drain_acks b.pending_acks) _
            (drain_acks-Rightful b.seen_bitmap b.highest_seen b.pending_acks k.acks_seen) r;
      few = omega (
        arith,
        nacks_out-append link (drain_acks b.pending_acks) (send_nacks 10 now link kept).1,
        nacks_out-drain_acks link b.pending_acks,
      );
      books = record {
        bitmap_bytes = k.bitmap_bytes;
        acks_seen = tt;
        nacks_missing = ms;
        seen_below = k.seen_below;
      };
    }

and_then-Fair :
    (b : BinlogWriter) (link : Link) (m n : ℕ) (t : Ticked) (next : BinlogWriter → Ticked)
    → Fair b link m t
    → Fair (Ticked.writer t) link n (next (Ticked.writer t))
    → Fair b link (m + n) (and_then t next)
and_then-Fair b link m n t next f g =
    let u = next (Ticked.writer t) in
    record {
      same_bitmap = g.same_bitmap ∙ f.same_bitmap;
      same_highest = g.same_highest ∙ f.same_highest;
      rightful =
          append-All b.seen_bitmap b.highest_seen (Ticked.sent t) (Ticked.sent u) f.rightful
            (rw (← f.same_bitmap, ← f.same_highest) g.rightful);
      few = omega (arith, nacks_out-append link (Ticked.sent t) (Ticked.sent u), f.few, g.few);
      books = g.books;
    }

after_nudge-Fair :
    (b : BinlogWriter) (now : ℕ) (link : Link) → Books b → Fair b link 10 (after_nudge now link b)
unfolding after_nudge after_start
after_nudge-Fair b now link k =
    let started = start_loop-Fair start_keepalive_ms b now link k in
    let w = Ticked.writer (start_loop start_keepalive_ms b now link) in
    either_Fair (not b.any_block_seen) b link 10 _ _
      (wider b link 0 10 _ (start_loop-Fair start_repeat_ms b now link k) (omega arith))
      (and_then-Fair b link 0 10 _ (after_start now link) started (
        either_Fair (is_closed w) w link 10 _ _
          (quiet_Fair w w link 10 [] (ground arith) started.books tt (omega arith))
          (pump-Fair w now link started.books)))

-- A tick acknowledges only blocks that were seen, asks again only for blocks that were not seen and
-- lie below the highest, with at most ten such requests that go out, and keeps the books so.
pub tick-Fair :
    (b : BinlogWriter) (now : ℕ) (link : Link) → Books b → Fair b link 10 (tick b now link)
unfolding tick
tick-Fair b now link k =
    let nudged = stop_nudge-Fair b now link k in
    and_then-Fair b link 0 10 _ (after_nudge now link) nudged
      (after_nudge-Fair (Ticked.writer (stop_nudge b now link)) now link nudged.books)
