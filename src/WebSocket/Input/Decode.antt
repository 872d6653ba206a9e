-- ===== src/WebSocket/Input/Decode.antt =====
-- decode_frames on every input: it returns, reads within the buffer, and keeps `msg` in its limit.
use support_proxy.Base.{
  ℕ, zero, suc, ◌+◌, ◌-◌, ◌≤◌, ◌<◌, ◌≡◌, refl, ◌∙◌, Bool, true, false, not, List, [], ◌++◌, ◌>>=◌,
  ap, Option, some, inl, inr, arith, length, drop, take, Bool-cases, length-append, length-drop,
  length-take,
}
use support_proxy.WebSocket.{WebSocket, SendCall}
use support_proxy.WebSocket.Frame.{Frame, Parsed, incomplete, refused, frame, parse_frame}
use support_proxy.WebSocket.Frame.Bounds.{Fits, parse_frame-Fits}
use support_proxy.WebSocket.Output.{Sent, queue_frame}
use support_proxy.WebSocket.Output.Untouched.{
  SameInput, flush-SameInput, queue_flush-SameInput, queue_frame-SameInput,
}
use support_proxy.WebSocket.Input.{
  handle_frame, decode_loop, decode_frames, on_close, on_ping, on_data, goes_on, gives_up,
  unmasked_rx, after_switch, loop_body,
}

-- What is kept of a message stays within the limit, which never changes.
abbrev pub Bounded : ℕ → WebSocket → Type 0
Bounded limit ws = (ws.max_message ≡ limit) × (length ws.msg ≤ limit)

same-Bounded : (limit : ℕ) {a b : WebSocket} → SameInput a b → Bounded limit a → Bounded limit b
same-Bounded limit s b = ground arith

on_close-Bounded :
    (limit : ℕ) (ws : WebSocket) (payload : List ℕ) (calls : List SendCall)
    → Bounded limit ws
    → Bounded limit (on_close ws payload calls).ws
unfolding on_close
on_close-Bounded limit ws payload calls b = ground (
  arith,
  b,
  same-Bounded limit
      (flush-SameInput (record (queue_frame ws 0x8 payload) { sent_close = true }) calls)
      (let q = queue_frame-SameInput ws 0x8 payload in ground arith),
)

on_data-Bounded :
    (limit : ℕ) (allowed : Bool) (ws : WebSocket) (f : Frame) (calls : List SendCall)
    → Bounded limit ws
    → Bounded limit (on_data allowed ws f calls).ws
unfolding on_data
on_data-Bounded limit allowed ws f calls b = ground (arith, length-append ws.msg f.payload)

handle_frame-Bounded :
    (limit : ℕ) (ws : WebSocket) (f : Frame) (calls : List SendCall)
    → Bounded limit ws
    → Bounded limit (handle_frame ws f calls).ws
unfolding handle_frame on_ping
handle_frame-Bounded limit ws f calls b = ground (
  arith,
  on_close-Bounded limit ws f.payload calls b,
  same-Bounded limit (queue_flush-SameInput ws 0xA f.payload calls) b,
  on_data-Bounded limit ws.in_fragment ws f calls b,
  on_data-Bounded limit (not ws.in_fragment) ws f calls b,
)

-- The loop of decode_frames, one frame at a time.
module _ (fuel : ℕ) (ws : WebSocket) (seen f : List ℕ) (calls : List SendCall) where
  pub decode_incomplete :
      parse_frame ws.max_message f ≡ some incomplete
      → decode_loop (suc fuel) ws seen f calls ≡ some (goes_on (record ws { rx = f }) calls)
  unfolding decode_loop
  decode_incomplete e = rw e

  pub decode_refused :
      parse_frame ws.max_message f ≡ some refused
      → decode_loop (suc fuel) ws seen f calls
        ≡ some (gives_up (record ws { rx = seen ++ f }) calls)
  unfolding decode_loop
  decode_refused e = rw e

  module _ (fr : Frame) (need : ℕ) (e : parse_frame ws.max_message f ≡ some (frame fr need)) where
    pub decode_stop :
        (handle_frame ws fr calls).alive ≡ false
        → decode_loop (suc fuel) ws seen f calls
          ≡ some (record (handle_frame ws fr calls) {
            ws = record ((handle_frame ws fr calls).ws) { rx = unmasked_rx seen f fr need };
          })
    unfolding decode_loop
    decode_stop a =
        ap (λ o. o >>= loop_body (decode_loop fuel) ws seen f calls) e
        ∙ ap (after_switch (decode_loop fuel) seen f fr need (handle_frame ws fr calls)) a

    pub decode_on :
        (r : Sent)
        → (handle_frame ws fr calls).alive ≡ true
        → decode_loop fuel
            (handle_frame ws fr calls).ws
            (seen ++ (take (need - length fr.payload) f ++ fr.payload))
            (drop need f)
            (handle_frame ws fr calls).calls
          ≡ some r
        → decode_loop (suc fuel) ws seen f calls
          ≡ some (record r { out = (handle_frame ws fr calls).out ++ r.out })
    unfolding decode_loop
    decode_on r a e' =
        ap (λ o. o >>= loop_body (decode_loop fuel) ws seen f calls) e
        ∙ ap (after_switch (decode_loop fuel) seen f fr need (handle_frame ws fr calls)) a
        ∙ ap
            (λ o. o >>= λ (rest : Sent).
              some (record rest { out = (handle_frame ws fr calls).out ++ rest.out }))
            e'

-- The result of the loop: bounded, over a buffer that did not grow.
abbrev pub Decodes : ℕ → ℕ → Option Sent → Type 0
Decodes limit size o = (s : Sent) × (o ≡ some s) × Bounded limit s.ws × (length s.ws.rx ≤ size)

-- One round, given the loop's later rounds.
body_total :
    (fuel limit : ℕ) (ws : WebSocket) (seen f : List ℕ) (calls : List SendCall)
    → ((ws' : WebSocket) (seen' f' : List ℕ) (calls' : List SendCall)
        → length f' < fuel
        → Bounded limit ws'
        → Decodes limit (length seen' + length f') (decode_loop fuel ws' seen' f' calls'))
    → length f ≤ fuel
    → Bounded limit ws
    → (r : Parsed) × (parse_frame ws.max_message f ≡ some r) × Fits ws.max_message f r
    → Decodes limit (length seen + length f) (decode_loop (suc fuel) ws seen f calls)
body_total fuel limit ws seen f calls later h b (incomplete, e, fits) =
    (goes_on (record ws { rx = f }) calls, decode_incomplete fuel ws seen f calls e, b, omega arith)
body_total fuel limit ws seen f calls later h b (refused, e, fits) = (
  gives_up (record ws { rx = seen ++ f }) calls,
  decode_refused fuel ws seen f calls e,
  b,
  omega (arith, length-append seen f),
)
body_total fuel limit ws seen f calls later h b (frame fr need, e, fits) =
    elim (Bool-cases (handle_frame ws fr calls).alive) [
      | inl a ↦
          let (r, e', b', size) =
            later (handle_frame ws fr calls).ws (seen ++ here) (drop need f)
              (handle_frame ws fr calls).calls (omega (arith, length-drop need f))
              (handle_frame-Bounded limit ws fr calls b) in
          (
            record r { out = (handle_frame ws fr calls).out ++ r.out },
            decode_on fuel ws seen f calls fr need e r a e',
            b',
            omega (arith, size, length-append seen here, len_here, length-drop need f),
          )
      | inr a ↦ (
        record (handle_frame ws fr calls) {
          ws = record ((handle_frame ws fr calls).ws) { rx = unmasked_rx seen f fr need };
        },
        decode_stop fuel ws seen f calls fr need e a,
        handle_frame-Bounded limit ws fr calls b,
        omega (
          arith,
          length-append seen (here ++ drop need f),
          length-append here (drop need f),
          len_here,
          length-drop need f,
        ),
      )
    ]
  where
    here : List ℕ
    here = take (need - length fr.payload) f ++ fr.payload

    len_here : length here ≡ need
    len_here = omega (
      arith,
      length-append (take (need - length fr.payload) f) fr.payload,
      length-take (need - length fr.payload) f,
    )

decode_loop_total :
    (fuel limit : ℕ) (ws : WebSocket) (seen f : List ℕ) (calls : List SendCall)
    → length f < fuel
    → Bounded limit ws
    → Decodes limit (length seen + length f) (decode_loop fuel ws seen f calls)
decode_loop_total zero limit ws seen f calls h b = absurd (omega arith)
decode_loop_total (suc fuel) limit ws seen f calls h b =
    body_total fuel limit ws seen f calls (decode_loop_total fuel limit) (omega arith) b
      (parse_frame-Fits ws.max_message f)

-- On any bytes decode_frames returns: its loop ends, no read leaves the buffer, the buffer does not
-- grow, and a message under assembly that is within `max_message` stays within it.
pub decode_frames_total :
    (ws : WebSocket) (calls : List SendCall)
    → length ws.msg ≤ ws.max_message
    → (s : Sent) × (decode_frames ws calls ≡ some s)
      × Bounded ws.max_message s.ws
      × (length s.ws.rx ≤ length ws.rx)
unfolding decode_frames
decode_frames_total ws calls h =
    let (s, e, b, size) =
      decode_loop_total (suc (length ws.rx)) ws.max_message ws [] ws.rx calls (omega arith)
        (refl, h) in
    (s, e, b, omega (arith, size))
