-- ===== src/Relay/Queue.antt =====
-- SpliceQueue and splice_flush: one direction of the splice, and what the socket takes of it.
pub mod Conserve
use support_proxy.Base.{
  ℕ, ◌+◌, ◌-◌, min, Bool, true, false, not, List, [], ◌∷◌, ◌++◌, ltb, ◌==◌, if◌then◌else◌, length,
  take, drop,
}

pub record SpliceQueue : Type 0 where
  pub buf : List ℕ
  pub sent : ℕ
  pub armed : Bool

abbrev pub cleared : SpliceQueue
cleared = record { buf = []; sent = 0; armed = false }

unfoldable pub pending_bytes : SpliceQueue → ℕ
pending_bytes q = length q.buf - q.sent

unfoldable pub compact : SpliceQueue → SpliceQueue
compact q =
    if q.sent == length q.buf
    then record q { buf = []; sent = 0 }
    else if ltb 65536 q.sent
    then record q { buf = drop q.sent q.buf; sent = 0 }
    else q

-- What ::send answers: `room` for that many bytes at most, EINTR, EAGAIN, or anything else.
pub data QueueAnswer : Type 0 where
  room : ℕ → QueueAnswer
  interrupted again broken : QueueAnswer

-- What goes out in one call.
abbrev pub taken : SpliceQueue → ℕ → ℕ
taken q n = min n (length q.buf - q.sent)

abbrev pub moved_on : SpliceQueue → ℕ → SpliceQueue
moved_on q n = record q { sent = q.sent + n }

-- What splice_flush answers, the queue, and the bytes that went out.
pub record Flushed : Type 0 where
  pub alive : Bool
  pub queue : SpliceQueue
  pub out : List ℕ

-- The socket is full when no answer is left.
unfoldable pub splice_flush : SpliceQueue → List QueueAnswer → Flushed
unfolding pending_bytes compact
splice_flush q [] = record { alive = true; queue = compact q; out = [] }
splice_flush q (room n ∷ answers) =
    let rest = splice_flush (moved_on q (taken q n)) answers in
    if not (ltb 0 (pending_bytes q))
    then record { alive = true; queue = compact q; out = [] }
    else if taken q n == 0
    then record { alive = false; queue = q; out = [] }
    else record rest { out = take (taken q n) (drop q.sent q.buf) ++ rest.out }
splice_flush q (interrupted ∷ answers) =
    let rest = splice_flush q answers in
    if not (ltb 0 (pending_bytes q))
    then record { alive = true; queue = compact q; out = [] }
    else rest
splice_flush q (again ∷ answers) = record { alive = true; queue = compact q; out = [] }
splice_flush q (broken ∷ answers) =
    if not (ltb 0 (pending_bytes q))
    then record { alive = true; queue = compact q; out = [] }
    else record { alive = false; queue = q; out = [] }
