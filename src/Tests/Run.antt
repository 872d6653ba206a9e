-- ===== src/Tests/Run.antt =====
-- The ring and the WebSocket on small inputs.
use support_proxy.Base.{
  ℕ, ◌≤◌, ◌≡◌, refl, true, false, some, List, [], ◌∷◌, ◌++◌, arith, length, if◌then◌else◌, min,
}
use support_proxy.Ring.{VideoRing, init, read_at}
use support_proxy.Ring.Window.{window, write_all, joined, read_at-write_all}
use support_proxy.WebSocket.{WebSocket, SendCall, wrote, recv_again, accept_again}
use support_proxy.WebSocket.Detect.{detect}
use support_proxy.WebSocket.Detect.Prefixes.{classify, detect-classify}
use support_proxy.WebSocket.Frame.{Frame, frame, parse_frame, frame_header}
use support_proxy.WebSocket.Output.{Sent, send}
use support_proxy.WebSocket.Output.Conserve.{pending, TxOk, Honest, queues, send-Keeps}
use support_proxy.WebSocket.Input.{decode_frames, Received, recv}
use support_proxy.WebSocket.Input.Decode.{Bounded, decode_frames_total}
use support_proxy.WebSocket.Input.Deliver.{left_over, recv_gives_unfinished}

abbrev no_ring : VideoRing
no_ring = record { buf = []; write_pos = 0 }

abbrev chunks : List (List ℕ)
chunks = (1 ∷ 2 ∷ []) ∷ (3 ∷ []) ∷ []

read_at-write_all_example :
    let fresh = (init no_ring 0).0 in
    let w = window (joined chunks) (length fresh.buf) 1 5 in
    read_at (write_all fresh chunks) 1 5 ≡ (length w, w)
read_at-write_all_example = read_at-write_all no_ring 0 chunks 1 5 (omega arith)

detect-classify_example : detect (0x47 ∷ 0x45 ∷ []) ≡ classify (0x47 ∷ 0x45 ∷ [])
detect-classify_example = detect-classify (0x47 ∷ 0x45 ∷ [])

abbrev binary_frame : List ℕ
binary_frame = 0x02 ∷ 0x83 ∷ 1 ∷ 2 ∷ 3 ∷ 4 ∷ 0x60 ∷ 0x60 ∷ 0x60 ∷ []

-- An upgraded plain connection that has received `rx` and holds `msg`.
abbrev connected : List ℕ → List ℕ → WebSocket
connected rx msg = record {
  fd = some 7;
  is_ssl = false;
  ssl_handshake_complete = false;
  ssl = false;
  done_headers = true;
  sent_close = false;
  max_message = 1000;
  rx = rx;
  msg = msg;
  msg_taken = 0;
  in_fragment = false;
  tx = [];
  tx_sent = 0;
  tls_tx = [];
  req_target = [];
  handshake_buf = [];
  handshake_len = 0;
  handshake_sent = 0;
}

abbrev takes_all : SendCall
takes_all offered = wrote (length offered)

takes_all-Honest : Honest takes_all
takes_all-Honest offered n e = ground (arith, e)

send-Keeps_example :
    let s = (send (connected [] []) (1 ∷ 2 ∷ []) (takes_all ∷ [])).1 in
    let framed = frame_header 0x2 2 ++ (1 ∷ 2 ∷ []) in
    (s.out ++ pending s.ws ≡ (if queues (connected [] []) then framed else [])) × TxOk s.ws
send-Keeps_example =
    send-Keeps (connected [] []) (1 ∷ 2 ∷ []) (takes_all ∷ [])
      (record { sent_le = omega arith; retry_front = refl }) (takes_all-Honest, tt)

decode_frames_total_example :
    (s : Sent) × (decode_frames (connected binary_frame []) [] ≡ some s)
    × Bounded 1000 s.ws
    × (length s.ws.rx ≤ 9)
decode_frames_total_example = decode_frames_total (connected binary_frame []) [] (omega arith)

abbrev first_fragment : Frame
first_fragment = record { fin = false; opcode = 0x2; payload = 0x61 ∷ 0x62 ∷ 0x63 ∷ [] }

fragment_parses : parse_frame 1000 binary_frame ≡ some (frame first_fragment 9)
unfolding parse_frame
fragment_parses = refl

recv_gives_unfinished_example :
    (first second : Received) × (recv
        (λ key. key)
        (connected binary_frame [])
        10
        accept_again
        recv_again
        []
      ≡ some first)
    × (first.bytes ≡ [])
    × (recv (λ key. key) first.sent.ws 2 accept_again recv_again [] ≡ some second)
    × (second.bytes ++ left_over second.sent.ws ≡ 0x61 ∷ 0x62 ∷ 0x63 ∷ [])
    × (length second.bytes ≡ min 2 3)
recv_gives_unfinished_example =
    recv_gives_unfinished (λ key. key) (connected binary_frame []) first_fragment 10 2 7
      accept_again refl refl refl refl refl refl (omega arith) fragment_parses refl refl
      (omega arith)
