-- ===== src/WebSocket/Handshake.antt =====
-- WebSocket::check_headers and send_handshake. `accept_key` stands for the base64 text of the SHA-1
-- hash of its argument, which OpenSSL computes.
use support_proxy.Base.{
  ℕ, ◌+◌, ◌-◌, true, false, List, [], ◌∷◌, ◌++◌, Option, none, some, ltb, ◌==◌, if◌then◌else◌,
  length, take, drop, find, codes,
}
use support_proxy.WebSocket.{WebSocket, SendCall, wrote, send_again, send_failed}
use support_proxy.WebSocket.Output.{Sent}

abbrev pub crlf : List ℕ
crlf = b'\r' ∷ b'\n' ∷ []

abbrev pub guid : List ℕ
guid = codes "258EAFA5-E914-47DA-95CA-C5AB0DC85B11"

pub response : List ℕ → List ℕ
response accept_val =
    codes "HTTP/1.1 101 Switching Protocols"
    ++ (crlf
        ++ (codes "Upgrade: websocket"
            ++ (crlf
                ++ (codes "Connection: Upgrade"
                    ++ (crlf
                        ++ (codes "Sec-WebSocket-Accept: " ++ (accept_val ++ (crlf ++ crlf))))))))

module _ (accept_key : List ℕ → List ℕ) where
  -- snprintf keeps 511 characters of the text and returns the length of the whole.
  prepare : WebSocket → List ℕ → WebSocket
  prepare ws key =
      let text = response (accept_key (key ++ guid)) in
      if ws.handshake_len == 0
      then record ws {
        handshake_buf = take 511 text;
        handshake_len = length text;
        handshake_sent = 0;
      }
      else ws

  send_rest : WebSocket → List SendCall → Sent
  send_rest ws [] = record {
    ws = ws;
    alive = ws.handshake_sent == ws.handshake_len;
    out = [];
    calls = [];
  }
  send_rest ws (call ∷ calls) =
      let offered =
        take (ws.handshake_len - ws.handshake_sent) (drop ws.handshake_sent ws.handshake_buf) in
      elim (ltb ws.handshake_sent ws.handshake_len) [
        | true ↦ elim (call offered) [
          | wrote n ↦
              let rest = send_rest (record ws { handshake_sent = ws.handshake_sent + n }) calls in
              record rest { out = take n offered ++ rest.out }
          | send_again ↦ record { ws = ws; alive = false; out = []; calls = calls }
          | send_failed ↦ record {
            ws = record ws { fd = none };
            alive = false;
            out = [];
            calls = calls;
          }
        ]
        | false ↦ record {
          ws = ws;
          alive = ws.handshake_sent == ws.handshake_len;
          out = [];
          calls = call ∷ calls;
        }
      ]

  pub send_handshake : WebSocket → List ℕ → List SendCall → Sent
  unfolding prepare send_rest
  send_handshake ws key calls = send_rest (prepare ws key) calls

  -- The request target, between the first two spaces of the headers.
  set_target : WebSocket → List ℕ → WebSocket
  set_target ws headers = elim (find (b' ' ∷ []) headers) [
    | none ↦ ws
    | some sp1 ↦ elim (find (b' ' ∷ []) (drop (sp1 + 1) headers)) [
      | none ↦ ws
      | some len ↦ record ws { req_target = take len (drop (sp1 + 1) headers) }
    ]
  ]

  -- The value of the key header, up to the end of its line.
  sec_key : List ℕ → Option (List ℕ)
  sec_key headers = elim (find (codes "Sec-WebSocket-Key: ") headers) [
    | none ↦ none
    | some at ↦
        let from = drop (at + length (codes "Sec-WebSocket-Key: ")) headers in
        elim (find crlf from) [ none ↦ none | some len ↦ some (take len from) ]
  ]

  pub check_headers : WebSocket → List SendCall → Sent
  unfolding set_target sec_key
  check_headers ws calls =
      let same : Sent = record { ws = ws; alive = true; out = []; calls = calls } in
      if ltb (length ws.rx) 4 then same else elim (find (crlf ++ crlf) ws.rx) [
        | none ↦ same
        | some at ↦
            let header_bytes = at + 4 in
            let headers = take header_bytes ws.rx in
            let ws' = set_target ws headers in
            elim (sec_key headers) [
              | none ↦ record same { ws = ws' }
              | some key ↦
                  let s = send_handshake ws' key calls in
                  let done = record (s.ws) {
                    done_headers = true;
                    rx = drop header_bytes s.ws.rx;
                  } in
                  if s.alive then record s { ws = done } else s
            ]
      ]
