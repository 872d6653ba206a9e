-- ===== src/Relay/Queue/Conserve.antt =====
-- A flush loses, repeats and reorders no byte of the queue.
use support_proxy.Base.{
  ℕ, ◌≤◌, ◌≡◌, refl, sym, ap, ◌∙◌, Bool, true, false, not, List, [], ◌∷◌, ◌++◌, ltb, ◌==◌,
  if◌then◌else◌, length, take, drop, drop_all, drop_add, take-append-drop, append_assoc, arith,
}
use support_proxy.Relay.Queue.{
  SpliceQueue, pending_bytes, compact, QueueAnswer, room, interrupted, again, broken, taken,
  moved_on, Flushed, splice_flush,
}

-- The bytes that are still owed.
abbrev pub owed : SpliceQueue → List ℕ
owed q = drop q.sent q.buf

pub record Conserves (q : SpliceQueue) (f : Flushed) : Type 0 where
  pub conserved : f.out ++ owed f.queue ≡ owed q
  pub within : (f.queue).sent ≤ length (f.queue).buf

Conserves-if :
    (q : SpliceQueue) (t : Bool) (x y : Flushed)
    → Conserves q x
    → (t ≡ false → Conserves q y)
    → Conserves q (if t then x else y)
Conserves-if q true x y f g = f
Conserves-if q false x y f g = g refl

kept-Conserves :
    (q : SpliceQueue) (b : Bool)
    → q.sent ≤ length q.buf
    → Conserves q (record { alive = b; queue = q; out = [] })
kept-Conserves q b h = record { conserved = refl; within = h }

owed_if :
    (t : Bool) (x y : SpliceQueue) (l : List ℕ)
    → (t ≡ true → owed x ≡ l)
    → owed y ≡ l
    → owed (if t then x else y) ≡ l
owed_if true x y l f g = f refl
owed_if false x y l f g = g

compact-Conserves :
    (q : SpliceQueue)
    → q.sent ≤ length q.buf
    → Conserves q (record { alive = true; queue = compact q; out = [] })
unfolding compact
compact-Conserves q h = record {
  conserved =
      owed_if (q.sent == length q.buf) _ _ (owed q)
        (λ e. sym (drop_all q.sent q.buf (ground (arith, e))))
        (owed_if (ltb 65536 q.sent) _ q (owed q) (λ _. refl) refl);
  within = ground (arith, h);
}

sent-Conserves :
    (q : SpliceQueue) (n : ℕ) (f : Flushed)
    → Conserves (moved_on q (taken q n)) f
    → Conserves q (record f { out = take (taken q n) (owed q) ++ f.out })
sent-Conserves q n f c = record {
  conserved =
      append_assoc (take (taken q n) (owed q)) f.out (owed f.queue)
      ∙ (ap (λ (l : List ℕ). take (taken q n) (owed q) ++ l)
            (c.conserved ∙ drop_add q.sent (taken q n) q.buf)
          ∙ take-append-drop (taken q n) (owed q));
  within = c.within;
}

-- Whatever the socket answers, the bytes that a flush sends, followed by those that are owed behind
-- it, are those that were owed before, where no more was sent before than the queue holds; and that
-- holds behind it.
pub splice_flush-Conserves :
    (q : SpliceQueue) (answers : List QueueAnswer)
    → q.sent ≤ length q.buf
    → Conserves q (splice_flush q answers)
unfolding splice_flush
splice_flush-Conserves q [] h = compact-Conserves q h
splice_flush-Conserves q (room n ∷ answers) h =
    Conserves-if q (not (ltb 0 (pending_bytes q))) _ _ (compact-Conserves q h) (λ _.
      Conserves-if q (taken q n == 0) _ _ (kept-Conserves q false h) (λ _.
        sent-Conserves q n _
          (splice_flush-Conserves (moved_on q (taken q n)) answers (omega (arith, h)))))
splice_flush-Conserves q (interrupted ∷ answers) h =
    Conserves-if q (not (ltb 0 (pending_bytes q))) _ _ (compact-Conserves q h)
      (λ _. splice_flush-Conserves q answers h)
splice_flush-Conserves q (again ∷ answers) h = compact-Conserves q h
splice_flush-Conserves q (broken ∷ answers) h =
    Conserves-if q (not (ltb 0 (pending_bytes q))) _ _ (compact-Conserves q h)
      (λ _. kept-Conserves q false h)
