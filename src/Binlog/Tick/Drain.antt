-- ===== src/Binlog/Tick/Drain.antt =====
-- Every ACK that waits is sent.
use support_proxy.Base.{
  ℕ, zero, suc, ◌≡◌, refl, ap, ◌∙◌, subst, Bool, true, false, not, List, [], ◌∷◌, ◌++◌, append-nil,
  some, arith, inl, inr, if◌then◌else◌, Bool-cases,
}
use support_proxy.Binlog.{Nack, BinlogWriter, is_closed, max_nacks_per_tick, start_keepalive_ms}
use support_proxy.Binlog.Gaps.{drop_stale_nack_state, keep_fresh}
use support_proxy.Binlog.Tick.{
  Status, start_packet, stop_packet, ack, nack, Ticked, Link, stop_nudge, start_loop, drain_acks,
  is_throttled, send_nacks, pump, and_then, after_start, after_nudge, tick,
}

-- The blocks that a list of messages acknowledges.
abbrev pub acks_of : List Status → List ℕ
acks_of [] = []
acks_of (ack s ∷ rest) = s ∷ acks_of rest
acks_of (nack s ∷ rest) = acks_of rest
acks_of (start_packet ∷ rest) = acks_of rest
acks_of (stop_packet ∷ rest) = acks_of rest

acks_of-append : (xs ys : List Status) → acks_of (xs ++ ys) ≡ acks_of xs ++ acks_of ys
acks_of-append [] ys = refl
acks_of-append (ack s ∷ xs) ys = ap (λ l. s ∷ l) (acks_of-append xs ys)
acks_of-append (nack s ∷ xs) ys = acks_of-append xs ys
acks_of-append (start_packet ∷ xs) ys = acks_of-append xs ys
acks_of-append (stop_packet ∷ xs) ys = acks_of-append xs ys

acks_of-drain_acks : (acks : List ℕ) → acks_of (drain_acks acks) ≡ acks
unfolding drain_acks
acks_of-drain_acks [] = refl
acks_of-drain_acks (s ∷ acks) = ap (λ l. s ∷ l) (acks_of-drain_acks acks)

acks_of-send_nacks :
    (budget now : ℕ) (link : Link) (ns : List Nack) → acks_of (send_nacks budget now link ns).1 ≡ []
unfolding send_nacks
acks_of-send_nacks zero now link ns = refl
acks_of-send_nacks (suc budget) now link [] = refl
acks_of-send_nacks (suc budget) now link (n ∷ ns) =
    let e = acks_of-send_nacks (suc budget) now link ns in
    let e' = acks_of-send_nacks budget now link ns in
    elim (Bool-cases (is_throttled now n)) [
      | inl t ↦ rw (t, send_nacks) e
      | inr t ↦ elim (Bool-cases (link (nack n.seqno))) [
        | inl went ↦ rw (t, send_nacks, went, send_nacks) e'
        | inr lost ↦ rw (t, send_nacks, lost, send_nacks) e
      ]
    ]

-- A step that sends no ACK, and leaves what the rest of the tick looks at.
record Quiet (b : BinlogWriter) (t : Ticked) : Type 0 where
  no_ack : acks_of (Ticked.sent t) ≡ []
  same_acks : (Ticked.writer t).pending_acks ≡ b.pending_acks
  same_file : (Ticked.writer t).fp ≡ b.fp
  same_latch : (Ticked.writer t).any_block_seen ≡ b.any_block_seen

stop_nudge-Quiet : (b : BinlogWriter) (now : ℕ) (link : Link) → Quiet b (stop_nudge b now link)
unfolding stop_nudge
stop_nudge-Quiet b now link = ground arith

start_loop-Quiet :
    (period : ℕ) (b : BinlogWriter) (now : ℕ) (link : Link) → Quiet b (start_loop period b now link)
unfolding start_loop
start_loop-Quiet period b now link = ground arith

-- What a step that drains the ACKs does.
pub record Drained (acks : List ℕ) (t : Ticked) : Type 0 where
  pub sent_all : acks_of (Ticked.sent t) ≡ acks
  pub none_left : (Ticked.writer t).pending_acks ≡ []

and_then-Drained :
    (b : BinlogWriter) (t : Ticked) (next : BinlogWriter → Ticked)
    → Quiet b t
    → Drained b.pending_acks (next (Ticked.writer t))
    → Drained b.pending_acks (and_then t next)
and_then-Drained b t next q d = record {
  sent_all =
      acks_of-append (Ticked.sent t) _
      ∙ ap (λ l. l ++ acks_of (Ticked.sent (next (Ticked.writer t)))) q.no_ack
      ∙ d.sent_all;
  none_left = d.none_left;
}

pump-Drained : (b : BinlogWriter) (now : ℕ) (link : Link) → Drained b.pending_acks (pump b now link)
unfolding pump drop_stale_nack_state
pump-Drained b now link =
    let kept = keep_fresh (record b { pending_acks = [] }) now b.nack_state in
    record {
      sent_all =
          acks_of-append (drain_acks b.pending_acks) _
          ∙ ap (λ l. acks_of (drain_acks b.pending_acks) ++ l)
              (acks_of-send_nacks max_nacks_per_tick now link kept)
          ∙ append-nil _
          ∙ acks_of-drain_acks b.pending_acks;
      none_left = refl;
    }

else_Drained :
    (c : Bool) (acks : List ℕ) (t u : Ticked)
    → c ≡ false
    → Drained acks u
    → Drained acks (if c then t else u)
else_Drained true acks t u e d = cc
else_Drained false acks t u e d = d

after_start-Drained :
    (b : BinlogWriter) (now : ℕ) (link : Link) (file : ℕ → ℕ)
    → b.fp ≡ some file
    → Drained b.pending_acks (after_start now link b)
unfolding after_start
after_start-Drained b now link file f =
    else_Drained (is_closed b) b.pending_acks _ _ (ground (arith, f)) (pump-Drained b now link)

after_nudge-Drained :
    (b : BinlogWriter) (now : ℕ) (link : Link) (file : ℕ → ℕ)
    → b.fp ≡ some file
    → b.any_block_seen ≡ true
    → Drained b.pending_acks (after_nudge now link b)
unfolding after_nudge
after_nudge-Drained b now link file f a =
    let q = start_loop-Quiet start_keepalive_ms b now link in
    let w = Ticked.writer (start_loop start_keepalive_ms b now link) in
    else_Drained (not b.any_block_seen) b.pending_acks _ _ (ground (arith, a)) (
      and_then-Drained b _ (after_start now link) q (
        subst (λ acks. Drained acks (after_start now link w)) q.same_acks
          (after_start-Drained w now link file (q.same_file ∙ f))))

-- A tick at an open file, once a block has come, acknowledges exactly the blocks that wait for it,
-- in their order, and none is left to wait, whatever the link answers.
pub tick-Drained :
    (b : BinlogWriter) (now : ℕ) (link : Link) (file : ℕ → ℕ)
    → b.fp ≡ some file
    → b.any_block_seen ≡ true
    → Drained b.pending_acks (tick b now link)
unfolding tick
tick-Drained b now link file f a =
    let q = stop_nudge-Quiet b now link in
    let w = Ticked.writer (stop_nudge b now link) in
    and_then-Drained b _ (after_nudge now link) q (
      subst (λ acks. Drained acks (after_nudge now link w)) q.same_acks
        (after_nudge-Drained w now link file (q.same_file ∙ f) (q.same_latch ∙ a)))
