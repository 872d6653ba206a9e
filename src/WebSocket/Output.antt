-- ===== src/WebSocket/Output.antt =====
-- WebSocket::queue_frame, flush and send. With a flush comes what the socket took, in order.
pub mod Untouched
pub mod Conserve
use support_proxy.Base.{
  ℕ, ◌+◌, ◌-◌, ◌≤◌, ◌≡◌, Bool, true, false, not, ◌&&◌, List, [], ◌∷◌, ◌++◌, Option, none, some, ltb,
  ◌==◌, if◌then◌else◌, is_none, length, take, drop,
}
use support_proxy.WebSocket.{
  WebSocket, SendResult, SendCall, wrote, send_again, send_failed, ws_max_tx_queue, ws_read_chunk,
}
use support_proxy.WebSocket.Frame.{frame_header}

pub queue_frame : WebSocket → ℕ → List ℕ → WebSocket
queue_frame ws opcode payload =
    let header = frame_header opcode (length payload) in
    let flushed = ltb 0 ws.tx_sent && ws.tx_sent == length ws.tx in
    record ws {
      tx = (if flushed then [] else ws.tx) ++ (header ++ payload);
      tx_sent = if flushed then 0 else ws.tx_sent;
    }

-- The outcome of a call that writes: the state, what it returns, and the bytes that went out.
pub record Sent : Type 0 where
  pub ws : WebSocket
  pub alive : Bool
  pub out : List ℕ
  pub calls : List SendCall

-- The TLS record to offer: the one kept for a retry, or a new one of up to 16384 bytes.
pub tls_record : WebSocket → List ℕ
tls_record ws =
    let remain = length ws.tx - ws.tx_sent in
    let chunk = take (if ltb remain 16384 then remain else 16384) (drop ws.tx_sent ws.tx) in
    if length ws.tls_tx == 0 then chunk else ws.tls_tx

-- The bytes that the next call offers, and the state with the record that TLS keeps for a retry.
pub offer : WebSocket → List ℕ × WebSocket
unfolding tls_record
offer ws =
    if ws.is_ssl && ws.ssl
    then (tls_record ws, record ws { tls_tx = tls_record ws })
    else (drop ws.tx_sent ws.tx, ws)

-- The end of the loop: all is sent.
pub drained : WebSocket → WebSocket
drained ws = record ws { tx = []; tx_sent = 0 }

-- One round of the loop: on with the bytes that went out, or what flush returns.
pub data Round : Type 0 where
  onward : WebSocket → List ℕ → Round
  returns : WebSocket → Bool → Round

pub after_call : List ℕ → WebSocket → SendResult → Round
after_call offered ws (wrote n) =
    onward (record ws { tls_tx = []; tx_sent = ws.tx_sent + n }) (take n offered)
after_call offered ws send_again = returns ws true
after_call offered ws send_failed = returns (record ws { fd = none }) false

pub one_call : WebSocket → SendCall → Round
unfolding after_call offer
one_call ws call = let (offered, ws') = offer ws in after_call offered ws' (call offered)

-- The loop of `flush`, one call of the socket a round; the socket is full when no call is left.
pub flush : WebSocket → List SendCall → Sent
unfolding drained
flush ws [] =
    if ltb ws.tx_sent (length ws.tx)
    then record { ws = (offer ws).1; alive = true; out = []; calls = [] }
    else record { ws = drained ws; alive = true; out = []; calls = [] }
flush ws (call ∷ calls) = elim (ltb ws.tx_sent (length ws.tx)) [
  | true ↦ elim (one_call ws call) [
    | onward ws' out ↦ let rest = flush ws' calls in record rest { out = out ++ rest.out }
    | returns ws' alive ↦ record { ws = ws'; alive = alive; out = []; calls = calls }
  ]
  | false ↦ record { ws = drained ws; alive = true; out = []; calls = call ∷ calls }
]

-- What send returns: the count, or -1.
pub data Status : Type 0 where
  count : ℕ → Status
  failed : Status

pub send : WebSocket → List ℕ → List SendCall → Status × Sent
send ws payload calls =
    let kept : Sent = record { ws = ws; alive = true; out = []; calls = calls } in
    let dropped : Sent = record kept { ws = record ws { fd = none } } in
    let sent = flush (queue_frame ws 0x2 payload) calls in
    if not ws.done_headers
    then (count (length payload), kept)
    else if is_none ws.fd
    then (failed, kept)
    else if ltb ws_max_tx_queue (length ws.tx - ws.tx_sent)
    then (failed, dropped)
    else if sent.alive
    then (count (length payload), sent)
    else (failed, sent)
