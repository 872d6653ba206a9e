-- ===== src/WebSocket/Input/Deliver.antt =====
-- What recv hands to its caller.
use support_proxy.Base.{
  ℕ, suc, ◌+◌, ◌-◌, ◌≤◌, ◌<◌, ◌≡◌, refl, sym, ap, ◌∙◌, true, false, not, List, [], ◌++◌, some, inl,
  inr, arith, ◌==◌, length, take, drop, Bool-cases, length-append, length-drop, length-take,
  take-append-drop, drop-drop, drop_all, append-nil, take_all, min, ==_iff,
}
use support_proxy.WebSocket.{WebSocket, SendCall, AcceptResult, RecvResult, recv_again}
use support_proxy.WebSocket.Frame.{Frame, frame, parse_frame}
use support_proxy.WebSocket.Output.{Sent, count}
use support_proxy.WebSocket.Input.{
  Received, goes_on, decode_loop, deliver, recv, decode_frames, handle_frame, on_data, after_fill,
  fill_pending, read_more, decode_and_deliver, after_decode,
}
use support_proxy.WebSocket.Frame.Bounds.{Fits-frame}
use support_proxy.WebSocket.Input.Decode.{decode_on, decode_incomplete}

-- The decoded bytes that the caller has not had yet.
abbrev pub left_over : WebSocket → List ℕ
left_over ws = drop ws.msg_taken ws.msg

deliver_lem :
    (ws : WebSocket) (from n : ℕ)
    → from ≤ length ws.msg
    → ((deliver ws from n).1 ++ left_over (deliver ws from n).2 ≡ drop from ws.msg)
      × (length (deliver ws from n).1 ≡ min n (length (drop from ws.msg)))
      × ((deliver ws from n).0 ≡ count (length (deliver ws from n).1))
unfolding deliver
deliver_lem ws from n h = (
  elim (Bool-cases (from + taken == length ws.msg)) [
    | inl e ↦ simp e (
        append-nil (take taken (drop from ws.msg))
        ∙ take_all taken (drop from ws.msg)
            (omega (arith, (==_iff _ _).0 e, length-drop from ws.msg)))
    | inr e ↦ simp e (
        ap (λ t. take taken (drop from ws.msg) ++ t) (sym (drop-drop taken from ws.msg))
        ∙ take-append-drop taken (drop from ws.msg))
  ],
  omega (arith, len, length-drop from ws.msg),
  ap count (sym len),
)
  where
    taken : ℕ
    taken = min n (length ws.msg - from)

    len : length (take taken (drop from ws.msg)) ≡ taken
    len = omega (arith, length-take taken (drop from ws.msg), length-drop from ws.msg)

-- While decoded bytes are left, recv hands out the first `n` of them, says how many, and keeps
-- the rest for the next call; it does not touch the socket.
pub recv_drains :
    (accept_key : List ℕ → List ℕ) (ws : WebSocket) (n : ℕ) (a : AcceptResult) (r : RecvResult)
    (calls : List SendCall)
    → ws.msg_taken < length ws.msg
    → (got : Received) × (recv accept_key ws n a r calls ≡ some got)
      × (got.bytes ++ left_over got.sent.ws ≡ left_over ws)
      × (got.status ≡ count (length got.bytes))
      × (length got.bytes ≡ min n (length (left_over ws)))
      × (got.sent.calls ≡ calls)
unfolding recv
recv_drains accept_key ws n a r calls h =
    let (whole, len, status) = deliver_lem ws ws.msg_taken n (omega arith) in
    (
      record {
        status = (deliver ws ws.msg_taken n).0;
        bytes = (deliver ws ws.msg_taken n).1;
        sent = record { ws = (deliver ws ws.msg_taken n).2; alive = true; out = []; calls = calls };
      },
      ground arith,
      whole,
      status,
      len,
      refl,
    )

-- recv on an upgraded connection that holds no decoded bytes, when the socket has nothing new.
recv_decodes :
    (accept_key : List ℕ → List ℕ) (ws : WebSocket) (n fd : ℕ) (a : AcceptResult)
    (calls : List SendCall) (s : Sent)
    → ws.msg ≡ []
    → ws.fd ≡ some fd
    → ws.done_headers ≡ true
    → length ws.rx ≤ ws.max_message + 64
    → decode_frames (fill_pending ws a recv_again) calls ≡ some s
    → ws.ssl ≡ false
    → recv accept_key ws n a recv_again calls ≡ some (after_decode s n [])
unfolding recv after_fill fill_pending read_more decode_and_deliver
recv_decodes accept_key ws n fd a calls s e1 e2 e3 e4 e5 e6 = ground arith

-- One non-final frame of data in the buffer, and nothing else.
module _ (ws : WebSocket) (fr : Frame)
    (parsed : parse_frame ws.max_message ws.rx ≡ some (frame fr (length ws.rx)))
    (opens : fr.opcode ≡ 0x2) (closed : ws.in_fragment ≡ false) (part : fr.fin ≡ false)
    (empty : ws.msg ≡ []) (fits : length fr.payload ≤ ws.max_message) where
  opened : WebSocket
  opened = record ws { msg = ws.msg ++ fr.payload; in_fragment = not fr.fin }

  handle_opens : handle_frame ws fr [] ≡ goes_on opened []
  unfolding handle_frame on_data opened
  handle_opens = ground (arith, length-append ws.msg fr.payload, ap length empty)

  opened_rest :
      (k : ℕ) (seen : List ℕ)
      → decode_loop (suc k) opened seen [] [] ≡ some (goes_on (record opened { rx = [] }) [])
  opened_rest k seen = decode_incomplete k opened seen [] [] (unfold parse_frame in refl)

  after_opens :
      (k fuel : ℕ) (s : Sent) (rest seen : List ℕ)
      → fuel ≡ suc k
      → s ≡ goes_on opened []
      → rest ≡ []
      → decode_loop fuel s.ws seen rest s.calls ≡ some (goes_on (record opened { rx = [] }) [])
  after_opens k fuel s rest seen e1 e2 e3 = rw (e1, e2, e3) (opened_rest k seen)

  decode_opens :
      (k : ℕ)
      → length ws.rx ≡ suc k
      → decode_frames ws [] ≡ some (goes_on (record opened { rx = [] }) [])
  unfolding decode_frames
  decode_opens k e =
      let done : Sent = goes_on (record opened { rx = [] }) [] in
      decode_on (length ws.rx) ws [] ws.rx [] fr (length ws.rx) parsed done
        (ap (λ (s : Sent). s.alive) handle_opens)
        (after_opens k (length ws.rx) (handle_frame ws fr []) (drop (length ws.rx) ws.rx) _ e
          handle_opens (drop_all (length ws.rx) ws.rx (omega arith)))
      ∙ ap (λ (s : Sent). some (record done { out = s.out ++ [] })) handle_opens

  nothing_yet : (n : ℕ) → (after_decode (goes_on (record opened { rx = [] }) []) n []).bytes ≡ []
  unfolding after_decode opened
  nothing_yet n = ground arith

  kept_open :
      (n : ℕ)
      → (after_decode (goes_on (record opened { rx = [] }) []) n []).sent.ws
        ≡ record opened { rx = [] }
  unfolding after_decode opened
  kept_open n = ground arith

  left_opened : ws.msg_taken ≡ 0 → left_over (record opened { rx = [] }) ≡ fr.payload
  unfolding opened
  left_opened e =
      ap (λ k. drop k (ws.msg ++ fr.payload)) e ∙ ap (λ (m : List ℕ). m ++ fr.payload) empty

  some_opened :
      ws.msg_taken ≡ 0
      → 0 < length fr.payload
      → (record opened { rx = [] }).msg_taken < length (record opened { rx = [] }).msg
  unfolding opened
  some_opened e h = omega (arith, length-append ws.msg fr.payload)

idle_fill :
    (ws : WebSocket) (a : AcceptResult)
    → ws.ssl ≡ false
    → length ws.rx ≤ ws.max_message + 64
    → fill_pending ws a recv_again ≡ ws
unfolding fill_pending read_more
idle_fill ws a e h = ground arith

-- The code hands out the bytes of a message that is still being assembled: on an upgraded plain
-- connection, after a data frame without FIN, the first recv returns nothing, as the message is
-- not complete, and the second returns bytes of that fragment although no FIN has come.
pub recv_gives_unfinished :
    (accept_key : List ℕ → List ℕ) (ws : WebSocket) (fr : Frame) (n m fd : ℕ) (a : AcceptResult)
    → ws.fd ≡ some fd
    → ws.ssl ≡ false
    → ws.done_headers ≡ true
    → ws.msg ≡ []
    → ws.msg_taken ≡ 0
    → ws.in_fragment ≡ false
    → length ws.rx ≤ ws.max_message + 64
    → parse_frame ws.max_message ws.rx ≡ some (frame fr (length ws.rx))
    → fr.fin ≡ false
    → fr.opcode ≡ 0x2
    → 0 < length fr.payload
    → (first second : Received) × (recv accept_key ws n a recv_again [] ≡ some first)
      × (first.bytes ≡ [])
      × (recv accept_key first.sent.ws m a recv_again [] ≡ some second)
      × (second.bytes ++ left_over second.sent.ws ≡ fr.payload)
      × (length second.bytes ≡ min m (length fr.payload))
recv_gives_unfinished accept_key ws fr n m fd a e1 e2 e3 e4 e5 e6 small parsed part opens
      some_bytes =
    let (_, six, _, fits) = Fits-frame ws.max_message ws.rx fr (length ws.rx) parsed in
    let next : WebSocket = opened ws fr parsed opens e6 part e4 fits in
    let later : WebSocket = record next { rx = [] } in
    let first : Received = after_decode (goes_on later []) n [] in
    let left : left_over later ≡ fr.payload = left_opened ws fr parsed opens e6 part e4 fits e5 in
    let (second, runs, whole, status, len, calls) =
      recv_drains accept_key later m a recv_again []
        (some_opened ws fr parsed opens e6 part e4 fits e5 some_bytes) in
    (
      first,
      second,
      recv_decodes accept_key ws n fd a [] (goes_on later []) e4 e1 e3 small
          (rw (idle_fill ws a e2 small)
            (decode_opens ws fr parsed opens e6 part e4 fits (length ws.rx - 1) (omega arith)))
          e2,
      nothing_yet ws fr parsed opens e6 part e4 fits n,
      rw (kept_open ws fr parsed opens e6 part e4 fits n) runs,
      whole ∙ left,
      len ∙ ap (λ (l : List ℕ). min m (length l)) left,
    )
