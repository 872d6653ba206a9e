-- ===== src/WebSocket/Output/Untouched.antt =====
-- What writing leaves alone: the receiving side of the connection.
use support_proxy.Base.{
  ℕ, ◌≡◌, refl, subst, ◌⊎◌, ◌∙◌, Bool, true, false, List, [], ◌∷◌, ◌++◌, inl, inr, arith, ltb,
  length, Bool-cases,
}
use support_proxy.WebSocket.{WebSocket, SendResult, SendCall, wrote, send_again, send_failed}
use support_proxy.WebSocket.Output.{
  Round, onward, returns, offer, after_call, one_call, flush, queue_frame, drained,
}

pub record SameInput (a b : WebSocket) : Type 0 where
  pub msg_same : b.msg ≡ a.msg
  pub taken_same : b.msg_taken ≡ a.msg_taken
  pub max_same : b.max_message ≡ a.max_message
  pub fragment_same : b.in_fragment ≡ a.in_fragment
  pub rx_same : b.rx ≡ a.rx

trans : {a b c : WebSocket} → SameInput a b → SameInput b c → SameInput a c
trans p q = record {
  msg_same = q.msg_same ∙ p.msg_same;
  taken_same = q.taken_same ∙ p.taken_same;
  max_same = q.max_same ∙ p.max_same;
  fragment_same = q.fragment_same ∙ p.fragment_same;
  rx_same = q.rx_same ∙ p.rx_same;
}

abbrev RoundSame : WebSocket → Round → Type 0
RoundSame ws (onward ws' out) = SameInput ws ws'
RoundSame ws (returns ws' alive) = SameInput ws ws'

offer-SameInput : (ws : WebSocket) → SameInput ws (offer ws).1
unfolding offer
offer-SameInput ws = ground arith

after_call-Same :
    (offered : List ℕ) (ws : WebSocket) (r : SendResult) → RoundSame ws (after_call offered ws r)
unfolding after_call
after_call-Same offered ws (wrote n) = ground arith
after_call-Same offered ws send_again = ground arith
after_call-Same offered ws send_failed = ground arith

trans_round : {a b : WebSocket} (r : Round) → SameInput a b → RoundSame b r → RoundSame a r
trans_round (onward ws out) p q = trans p q
trans_round (returns ws alive) p q = trans p q

one_call-Same : (ws : WebSocket) (call : SendCall) → RoundSame ws (one_call ws call)
unfolding one_call
one_call-Same ws call =
    trans_round (after_call (offer ws).0 (offer ws).1 (call (offer ws).0)) (offer-SameInput ws)
      (after_call-Same (offer ws).0 (offer ws).1 (call (offer ws).0))

pub Round-cases :
    (r : Round)
    → ((ws : WebSocket) × (out : List ℕ) × (r ≡ onward ws out))
      ⊎ ((ws : WebSocket) × (alive : Bool) × (r ≡ returns ws alive))
Round-cases (onward ws out) = inl (ws, out, refl)
Round-cases (returns ws alive) = inr (ws, alive, refl)

drained-SameInput : (ws : WebSocket) → SameInput ws (drained ws)
unfolding drained
drained-SameInput ws = ground arith

-- The loop of flush, one round at a time.
pub flush_onward :
    (ws ws' : WebSocket) (call : SendCall) (calls : List SendCall) (out : List ℕ)
    → ltb ws.tx_sent (length ws.tx) ≡ true
    → one_call ws call ≡ onward ws' out
    → flush ws (call ∷ calls) ≡ record {
      ws = (flush ws' calls).ws;
      alive = (flush ws' calls).alive;
      out = out ++ (flush ws' calls).out;
      calls = (flush ws' calls).calls;
    }
unfolding flush
flush_onward ws ws' call calls out e r = rw (e, flush, r, flush)

pub flush_returns :
    (ws ws' : WebSocket) (call : SendCall) (calls : List SendCall) (alive : Bool)
    → ltb ws.tx_sent (length ws.tx) ≡ true
    → one_call ws call ≡ returns ws' alive
    → flush ws (call ∷ calls) ≡ record { ws = ws'; alive = alive; out = []; calls = calls }
unfolding flush
flush_returns ws ws' call calls alive e r = rw (e, flush, r, flush)

pub flush_done :
    (ws : WebSocket) (calls : List SendCall)
    → ltb ws.tx_sent (length ws.tx) ≡ false
    → flush ws calls ≡ record { ws = drained ws; alive = true; out = []; calls = calls }
unfolding flush
flush_done ws [] e = rw e
flush_done ws (call ∷ calls) e = rw (e, flush)

pub flush_full :
    (ws : WebSocket)
    → ltb ws.tx_sent (length ws.tx) ≡ true
    → flush ws [] ≡ record { ws = (offer ws).1; alive = true; out = []; calls = [] }
unfolding flush
flush_full ws e = rw e

pub flush-SameInput : (ws : WebSocket) (calls : List SendCall) → SameInput ws (flush ws calls).ws
flush-SameInput ws [] = elim (Bool-cases (ltb ws.tx_sent (length ws.tx))) [
  | inl e ↦ rw (flush_full ws e) (offer-SameInput ws)
  | inr e ↦ rw (flush_done ws [] e) (drained-SameInput ws)
]
flush-SameInput ws (call ∷ calls) = elim (Bool-cases (ltb ws.tx_sent (length ws.tx))) [
  | inr e ↦ rw (flush_done ws (call ∷ calls) e) (drained-SameInput ws)
  | inl e ↦ elim (Round-cases (one_call ws call)) [
    | inl (ws', out, r) ↦
        rw (flush_onward ws ws' call calls out e r)
          (trans (subst (RoundSame ws) r (one_call-Same ws call)) (flush-SameInput ws' calls))
    | inr (ws', alive, r) ↦
        rw (flush_returns ws ws' call calls alive e r)
          (subst (RoundSame ws) r (one_call-Same ws call))
  ]
]

pub queue_frame-SameInput :
    (ws : WebSocket) (opcode : ℕ) (payload : List ℕ) → SameInput ws (queue_frame ws opcode payload)
unfolding queue_frame
queue_frame-SameInput ws opcode payload = ground arith

pub queue_flush-SameInput :
    (ws : WebSocket) (opcode : ℕ) (payload : List ℕ) (calls : List SendCall)
    → SameInput ws (flush (queue_frame ws opcode payload) calls).ws
queue_flush-SameInput ws opcode payload calls =
    trans (queue_frame-SameInput ws opcode payload)
      (flush-SameInput (queue_frame ws opcode payload) calls)
