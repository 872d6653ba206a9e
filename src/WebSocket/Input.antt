-- ===== src/WebSocket/Input.antt =====
-- WebSocket::fill_pending, decode_frames and recv. `none` is a read out of bounds, or a loop that
-- ran out of fuel.
pub mod Decode
pub mod Deliver
use support_proxy.Base.{
  ℕ, zero, suc, ◌+◌, ◌-◌, Bool, true, false, not, ◌&&◌, ◌||◌, List, [], ◌∷◌, ◌++◌, Option, none,
  some, ltb, ◌==◌, if◌then◌else◌, is_none, min, length, take, drop, ◌>>=◌,
}
use support_proxy.WebSocket.{
  WebSocket, SendCall, RecvResult, got, recv_again, recv_eof, recv_failed, AcceptResult, accepted,
  accept_again, accept_failed,
}
use support_proxy.WebSocket.Frame.{Frame, Parsed, incomplete, refused, frame, parse_frame}
use support_proxy.WebSocket.Output.{Sent, Status, count, failed, queue_frame, flush}
use support_proxy.WebSocket.Handshake.{check_headers}

-- The read proper, once no handshake is pending.
read_more : WebSocket → RecvResult → WebSocket
read_more ws (got bytes) = record ws { rx = ws.rx ++ bytes }
read_more ws recv_again = ws
read_more ws recv_eof = record ws { fd = none }
read_more ws recv_failed = record ws { fd = none }

accept_then_read : WebSocket → AcceptResult → RecvResult → WebSocket
unfolding read_more
accept_then_read ws accepted r = read_more (record ws { ssl_handshake_complete = true }) r
accept_then_read ws accept_again r = ws
accept_then_read ws accept_failed r = record ws { fd = none }

pub fill_pending : WebSocket → AcceptResult → RecvResult → WebSocket
unfolding accept_then_read
fill_pending ws a r =
    if is_none ws.fd
    then ws
    else if ltb (ws.max_message + 64) (length ws.rx)
    then record ws { fd = none }
    else if ws.ssl && not ws.ssl_handshake_complete
    then accept_then_read ws a r
    else read_more ws r

-- A case that ends with `break`, and one that ends with `return false`.
abbrev pub goes_on : WebSocket → List SendCall → Sent
goes_on ws calls = record { ws = ws; alive = true; out = []; calls = calls }

abbrev pub gives_up : WebSocket → List SendCall → Sent
gives_up ws calls = record { ws = ws; alive = false; out = []; calls = calls }

-- case WS_OP_CLOSE
on_close : WebSocket → List ℕ → List SendCall → Sent
on_close ws payload calls =
    let echo = flush (record (queue_frame ws 0x8 payload) { sent_close = true }) calls in
    if not ws.sent_close then record echo { alive = false } else gives_up ws calls

-- case WS_OP_PING
on_ping : WebSocket → List ℕ → List SendCall → Sent
on_ping ws payload calls =
    let pong = flush (queue_frame ws 0xA payload) calls in record pong { alive = true }

-- case WS_OP_CONT, where a message must be open, and case WS_OP_TEXT and WS_OP_BIN, where none may.
on_data : Bool → WebSocket → Frame → List SendCall → Sent
on_data allowed ws f calls =
    if not allowed
    then gives_up ws calls
    else if ltb ws.max_message (length ws.msg + length f.payload)
    then gives_up ws calls
    else goes_on (record ws { msg = ws.msg ++ f.payload; in_fragment = not f.fin }) calls

-- The switch on the opcode: on with the loop, or return false.
pub handle_frame : WebSocket → Frame → List SendCall → Sent
handle_frame ws f calls =
    if f.opcode == 0x8
    then on_close ws f.payload calls
    else if f.opcode == 0x9
    then on_ping ws f.payload calls
    else if f.opcode == 0xA
    then goes_on ws calls
    else if f.opcode == 0x0
    then on_data ws.in_fragment ws f calls
    else if f.opcode == 0x1 || f.opcode == 0x2
    then on_data (not ws.in_fragment) ws f calls
    else gives_up ws calls

-- The buffer as the loop leaves it when it returns false at a frame: unmasked up to that frame.
abbrev pub unmasked_rx : List ℕ → List ℕ → Frame → ℕ → List ℕ
unmasked_rx seen f fr need =
    seen ++ ((take (need - length fr.payload) f ++ fr.payload) ++ drop need f)

-- What the loop goes on with: the state, the bytes before `pos`, those from it, the calls left.
abbrev pub Loop : Type 0
Loop = WebSocket → List ℕ → List ℕ → List SendCall → Option Sent

-- pos += need, or the early return; `s` is what the switch left.
after_switch : Loop → List ℕ → List ℕ → Frame → ℕ → Sent → Bool → Option Sent
after_switch more seen f fr need s true = do
  rest ← more s.ws (seen ++ (take (need - length fr.payload) f ++ fr.payload)) (drop need f) s.calls
  some (record rest { out = s.out ++ rest.out })
after_switch more seen f fr need s false =
    some (record s { ws = record (s.ws) { rx = unmasked_rx seen f fr need } })

loop_body : Loop → WebSocket → List ℕ → List ℕ → List SendCall → Parsed → Option Sent
unfolding after_switch
loop_body more ws seen f calls incomplete = some (goes_on (record ws { rx = f }) calls)
loop_body more ws seen f calls refused = some (gives_up (record ws { rx = seen ++ f }) calls)
loop_body more ws seen f calls (frame fr need) =
    let s = handle_frame ws fr calls in after_switch more seen f fr need s s.alive

-- The loop over `f`, the bytes from `pos` on; `seen` are those before, unmasked where they stand.
pub decode_loop : ℕ → Loop
unfolding loop_body
decode_loop zero ws seen f calls = none
decode_loop (suc fuel) ws seen f calls =
    parse_frame ws.max_message f >>= loop_body (decode_loop fuel) ws seen f calls

-- Each frame takes six bytes at least, so the bytes at hand are fuel enough.
pub decode_frames : WebSocket → List SendCall → Option Sent
decode_frames ws calls = decode_loop (suc (length ws.rx)) ws [] ws.rx calls

pub record Received : Type 0 where
  pub status : Status
  pub bytes : List ℕ
  pub sent : Sent

-- Hand out up to `n` bytes of `msg` from `from` on.
deliver : WebSocket → ℕ → ℕ → Status × List ℕ × WebSocket
deliver ws from n =
    let taken = min n (length ws.msg - from) in
    let all = from + taken == length ws.msg in
    (
      count taken,
      take taken (drop from ws.msg),
      record ws { msg = if all then [] else ws.msg; msg_taken = if all then 0 else from + taken },
    )

-- What recv makes of the decoded frames.
after_decode : Sent → ℕ → List ℕ → Received
unfolding deliver
after_decode s n out =
    let sent : Sent = record s { out = out ++ s.out } in
    let (status, bytes, ws') = deliver s.ws 0 n in
    if not s.alive
    then record {
      status = failed;
      bytes = [];
      sent = record sent { ws = record (s.ws) { fd = none } };
    }
    else if s.ws.in_fragment || length s.ws.msg == 0
    then record { status = count 0; bytes = []; sent = sent }
    else record { status = status; bytes = bytes; sent = record sent { ws = ws' } }

-- What recv does once the upgrade is done; `out` went out with it.
decode_and_deliver : WebSocket → ℕ → List ℕ → List SendCall → Option Received
unfolding after_decode
decode_and_deliver ws n out calls = do s ← decode_frames ws calls; some (after_decode s n out)

module _ (accept_key : List ℕ → List ℕ) where
  -- What recv does when it has read from the socket.
  after_fill : WebSocket → ℕ → List SendCall → Option Received
  unfolding decode_and_deliver
  after_fill ws n calls =
      let idle : Sent = record { ws = ws; alive = true; out = []; calls = calls } in
      let s = check_headers accept_key ws calls in
      if is_none ws.fd
      then some (record { status = failed; bytes = []; sent = idle })
      else if ws.done_headers
      then decode_and_deliver ws n [] calls
      else if s.ws.done_headers
      then decode_and_deliver s.ws n s.out s.calls
      else some (record { status = count 0; bytes = []; sent = s })

  pub recv : WebSocket → ℕ → AcceptResult → RecvResult → List SendCall → Option Received
  unfolding after_fill deliver
  recv ws n a r calls =
      let (status, bytes, ws') = deliver ws ws.msg_taken n in
      let sent : Sent = record { ws = ws'; alive = true; out = []; calls = calls } in
      if ltb ws.msg_taken (length ws.msg)
      then some (record { status = status; bytes = bytes; sent = sent })
      else after_fill (fill_pending ws a r) n calls
