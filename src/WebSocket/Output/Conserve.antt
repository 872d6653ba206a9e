-- ===== src/WebSocket/Output/Conserve.antt =====
-- Short writes, retries and growth of the queue lose, repeat and reorder nothing.
use support_proxy.Base.{
  ℕ, ◌+◌, ◌-◌, ◌≤◌, ◌≡◌, refl, sym, ap, subst, ◌∙◌, ◌&&◌, Bool, true, false, List, [], ◌∷◌, ◌++◌,
  inl, inr, arith, tests, ltb, length, take, drop, All, Bool-cases, length-take, length-drop,
  length-append, drop-drop, take-append-drop, take-take_le, take-length-take, drop-append_le,
  drop_all, append_assoc, append-nil, take-append_le, is_none, ◌==◌, if◌then◌else◌, not, take_all,
}
use support_proxy.WebSocket.{
  WebSocket, SendResult, SendCall, wrote, send_again, send_failed, ws_max_tx_queue,
}
use support_proxy.WebSocket.Frame.{frame_header}
use support_proxy.WebSocket.Output.{
  Sent, Round, onward, returns, tls_record, offer, after_call, one_call, flush, queue_frame,
  drained, send,
}
use support_proxy.WebSocket.Output.Untouched.{
  Round-cases, flush_onward, flush_returns, flush_done, flush_full,
}

-- What is framed and not yet on the wire.
abbrev pub pending : WebSocket → List ℕ
pending ws = drop ws.tx_sent ws.tx

-- The record that TLS retries is the front of what is pending.
pub record TxOk (ws : WebSocket) : Type 0 where
  pub sent_le : ws.tx_sent ≤ length ws.tx
  pub retry_front : ws.tls_tx ≡ take (length ws.tls_tx) (pending ws)

-- ::send and SSL_write take no more than they are offered.
abbrev pub Honest : SendCall → Type 0
Honest call = (offered : List ℕ) (n : ℕ) → call offered ≡ wrote n → n ≤ length offered

tls_record_front :
    (ws : WebSocket) → TxOk ws → tls_record ws ≡ take (length (tls_record ws)) (pending ws)
unfolding tls_record
tls_record_front ws v = elim (Bool-cases (length ws.tls_tx == 0)) [
  | inl e ↦ rw e (
      take-length-take
        (if ltb (length ws.tx - ws.tx_sent) 16384 then length ws.tx - ws.tx_sent else 16384)
        (pending ws))
  | inr e ↦ rw e v.retry_front
]

-- What is offered is the front of what is pending, and offering changes neither.
abbrev Offers : WebSocket → List ℕ × WebSocket → Type 0
Offers ws o = (o.0 ≡ take (length o.0) (pending ws)) × (pending o.1 ≡ pending ws) × TxOk o.1

offer_tls :
    (ws : WebSocket)
    → ws.is_ssl && ws.ssl ≡ true
    → offer ws ≡ (tls_record ws, record ws { tls_tx = tls_record ws })
unfolding offer
offer_tls ws e = rw e

offer_plain : (ws : WebSocket) → ws.is_ssl && ws.ssl ≡ false → offer ws ≡ (pending ws, ws)
unfolding offer
offer_plain ws e = rw e

offer-Offers : (ws : WebSocket) → TxOk ws → Offers ws (offer ws)
offer-Offers ws v = elim (Bool-cases (ws.is_ssl && ws.ssl)) [
  | inl e ↦ subst (Offers ws) (sym (offer_tls ws e)) (
    tls_record_front ws v,
    refl,
    record { sent_le = v.sent_le; retry_front = tls_record_front ws v },
  )
  | inr e ↦
      subst (Offers ws) (sym (offer_plain ws e))
        (sym (take_all (length (pending ws)) (pending ws) (omega arith)), refl, v)
]

-- A round keeps the bytes: those that went out, then those pending, are those that were pending.
abbrev RoundKeeps : WebSocket → Round → Type 0
RoundKeeps ws (onward ws' out) = (out ++ pending ws' ≡ pending ws) × TxOk ws'
RoundKeeps ws (returns ws' alive) = (pending ws' ≡ pending ws) × TxOk ws'

after_call-Keeps :
    (ws ws' : WebSocket) (offered : List ℕ) (r : SendResult)
    → Offers ws (offered, ws')
    → ((n : ℕ) → r ≡ wrote n → n ≤ length offered)
    → RoundKeeps ws (after_call offered ws' r)
unfolding after_call
after_call-Keeps ws ws' offered send_again (front, same, v) honest = (same, v)
after_call-Keeps ws ws' offered send_failed (front, same, v) honest =
    (same, record { sent_le = v.sent_le; retry_front = v.retry_front })
after_call-Keeps ws ws' offered (wrote n) (front, same, v) honest =
    let le = honest n refl in
    let there : length offered ≤ length (pending ws') =
      omega (arith, ap length front, length-take (length offered) (pending ws), ap length same) in
    let out_front : take n offered ≡ take n (pending ws) =
      ap (take n) front ∙ take-take_le n (length offered) (pending ws) le in
    let rest_back : drop (ws'.tx_sent + n) ws'.tx ≡ drop n (pending ws) =
      sym (drop-drop n ws'.tx_sent ws'.tx) ∙ ap (drop n) same in
    (
      rw (out_front, rest_back) (take-append-drop n (pending ws)),
      record { sent_le = omega (arith, length-drop ws'.tx_sent ws'.tx); retry_front = refl },
    )

one_call-Keeps :
    (ws : WebSocket) (call : SendCall) → TxOk ws → Honest call → RoundKeeps ws (one_call ws call)
unfolding one_call
one_call-Keeps ws call v honest =
    after_call-Keeps ws (offer ws).1 (offer ws).0 (call (offer ws).0) (offer-Offers ws v)
      (honest (offer ws).0)

drained-Keeps :
    (ws : WebSocket)
    → TxOk ws
    → ltb ws.tx_sent (length ws.tx) ≡ false
    → (pending (drained ws) ≡ pending ws) × TxOk (drained ws)
unfolding drained
drained-Keeps ws v e =
    let empty : pending ws ≡ [] = drop_all ws.tx_sent ws.tx (omega tests) in
    (
      sym empty,
      record {
        sent_le = omega arith;
        retry_front = v.retry_front ∙ ap (take (length ws.tls_tx)) empty;
      },
    )

-- What a flush puts on the wire, with what it leaves pending, is what was pending.
abbrev pub Keeps : WebSocket → Sent → Type 0
Keeps ws s = (s.out ++ pending s.ws ≡ pending ws) × TxOk s.ws

flush-Keeps :
    (ws : WebSocket) (calls : List SendCall)
    → TxOk ws
    → All Honest calls
    → Keeps ws (flush ws calls)
flush-Keeps ws [] v honest = elim (Bool-cases (ltb ws.tx_sent (length ws.tx))) [
  | inl e ↦ rw (flush_full ws e) ((offer-Offers ws v).1, (offer-Offers ws v).2)
  | inr e ↦ rw (flush_done ws [] e) (drained-Keeps ws v e)
]
flush-Keeps ws (call ∷ calls) v (honest, later) =
    elim (Bool-cases (ltb ws.tx_sent (length ws.tx))) [
      | inr e ↦ rw (flush_done ws (call ∷ calls) e) (drained-Keeps ws v e)
      | inl e ↦ elim (Round-cases (one_call ws call)) [
        | inl (ws', out, r) ↦
            let (same, v') = subst (RoundKeeps ws) r (one_call-Keeps ws call v honest) in
            let (same', v'') = flush-Keeps ws' calls v' later in
            rw (flush_onward ws ws' call calls out e r) (
              append_assoc out (flush ws' calls).out (pending (flush ws' calls).ws)
                  ∙ ap (λ t. out ++ t) same'
                  ∙ same,
              v'',
            )
        | inr (ws', alive, r) ↦
            rw (flush_returns ws ws' call calls alive e r)
              (subst (RoundKeeps ws) r (one_call-Keeps ws call v honest))
      ]
    ]

front_grows : (t p q : List ℕ) → t ≡ take (length t) p → t ≡ take (length t) (p ++ q)
front_grows t p q e =
    e ∙ sym (take-append_le (length t) p q (omega (arith, ap length e, length-take (length t) p)))

queue_frame-Queues :
    (ws : WebSocket) (opcode : ℕ) (payload : List ℕ)
    → TxOk ws
    → (pending (queue_frame ws opcode payload)
        ≡ pending ws ++ (frame_header opcode (length payload) ++ payload))
      × TxOk (queue_frame ws opcode payload)
unfolding queue_frame
queue_frame-Queues ws opcode payload v =
    elim (Bool-cases (ltb 0 ws.tx_sent && ws.tx_sent == length ws.tx)) [
      | inl e ↦
          let empty : pending ws ≡ [] = drop_all ws.tx_sent ws.tx (ground arith) in
          rw e (
            ap (λ t. t ++ (frame_header opcode (length payload) ++ payload)) (sym empty),
            record {
              sent_le = omega arith;
              retry_front =
                  subst
                    (λ (p : List ℕ).
                      ws.tls_tx
                      ≡ take (length ws.tls_tx)
                          (p ++ (frame_header opcode (length payload) ++ payload)))
                    empty
                    (front_grows ws.tls_tx (pending ws)
                      (frame_header opcode (length payload) ++ payload) v.retry_front);
            },
          )
      | inr e ↦
          let grown : drop ws.tx_sent (ws.tx ++ (frame_header opcode (length payload) ++ payload))
              ≡ pending ws ++ (frame_header opcode (length payload) ++ payload) =
            drop-append_le ws.tx_sent ws.tx (frame_header opcode (length payload) ++ payload)
              v.sent_le in
          rw e (
            grown,
            record {
              sent_le = omega (
                arith,
                v.sent_le,
                length-append ws.tx (frame_header opcode (length payload) ++ payload),
              );
              retry_front =
                  front_grows ws.tls_tx (pending ws)
                    (frame_header opcode (length payload) ++ payload) v.retry_front
                  ∙ ap (take (length ws.tls_tx)) (sym grown);
            },
          )
    ]

-- Whether a send gets past its guards, to the queue.
abbrev pub queues : WebSocket → Bool
queues ws =
    ws.done_headers
    && (not (is_none ws.fd) && not (ltb ws_max_tx_queue (length ws.tx - ws.tx_sent)))

-- A send puts one frame of its payload behind what is pending, or nothing where a guard stops it,
-- and no byte of that is lost, repeated or reordered, over plain TCP or TLS, however short the
-- writes of the socket and whether it fails; given that the record kept for a TLS retry is the
-- front of what is pending, which stays so, and that the socket takes no more than it is offered.
pub send-Keeps :
    (ws : WebSocket) (payload : List ℕ) (calls : List SendCall)
    → TxOk ws
    → All Honest calls
    → let s = (send ws payload calls).1 in
      let framed = frame_header 0x2 (length payload) ++ payload in
      (s.out ++ pending s.ws ≡ pending ws ++ (if queues ws then framed else [])) × TxOk s.ws
unfolding send
send-Keeps ws payload calls v honest =
    let (queued, v') = queue_frame-Queues ws 0x2 payload v in
    let (same, v'') = flush-Keeps (queue_frame ws 0x2 payload) calls v' honest in
    ground (arith, append-nil (pending ws), queued, same, v'')
