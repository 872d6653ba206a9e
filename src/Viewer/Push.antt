-- ===== src/Viewer/Push.antt =====
-- on_writable: what a viewer is sent in one turn. The answers of the socket, or of the WebSocket,
-- are a list, one a call; none is left where it is full. The viewer is one that has no playback over
-- RTSP attached (rtsp_view_ is null): the first line, which hands the turn to that, is left out.
pub mod Parts
pub mod Gapless
use support_proxy.Base.{
  ℕ, zero, suc, ◌+◌, ◌-◌, ◌*◌, ◌/◌, ◌%◌, ◌^◌, min, Bool, true, false, not, ◌&&◌, ◌||◌, List, [],
  ◌∷◌, ◌++◌, Option, none, some, ltb, leb, ◌==◌, if◌then◌else◌, length, take, drop, codes,
}
use support_proxy.Ring.{VideoRing, resident, read_at, u64_mod}
use support_proxy.Viewer.{
  VideoViewer, ViewerState, detect, responding, streaming, closing, SendAnswer, room, interrupted,
  again, broken, video_viewer_write_chunk, video_viewer_stuck_s, viewer_chunk,
}

-- What a part of the turn answers, or none to go on; with the answers that are left, and the bytes
-- that went out.
pub record Turn : Type 0 where
  pub answer : Option Bool
  pub viewer : VideoViewer
  pub answers : List SendAnswer
  pub out : List ℕ

abbrev pub turn : Option Bool → VideoViewer → List SendAnswer → Turn
turn a v answers = record { answer = a; viewer = v; answers = answers; out = [] }

-- Bytes that went out before the rest of a turn.
abbrev pub with_out : List ℕ → Turn → Turn
with_out bytes t = record t { out = bytes ++ t.out }

abbrev pub dropped : VideoViewer → List ℕ → List SendAnswer → Turn
dropped v why answers = turn (some false) (record v { drop_reason = why }) answers

-- flush: the response head.
abbrev pub flushed : VideoViewer → VideoViewer
flushed v = record v { out = []; out_sent = 0; blocked = false }

unfoldable pub flush_head : VideoViewer → ℕ → List SendAnswer → Turn
flush_head v now [] =
    if not (ltb v.out_sent (length v.out))
    then turn none (flushed v) []
    else turn none (record v { blocked = true }) []
flush_head v now (room n ∷ answers) =
    let w = min n (length v.out - v.out_sent) in
    let rest =
      flush_head (record v { out_sent = v.out_sent + w; last_progress = now }) now answers in
    if not (ltb v.out_sent (length v.out))
    then turn none (flushed v) (room n ∷ answers)
    else with_out (take w (drop v.out_sent v.out)) rest
flush_head v now (interrupted ∷ answers) =
    let rest = flush_head v now answers in
    if not (ltb v.out_sent (length v.out))
    then turn none (flushed v) (interrupted ∷ answers)
    else rest
flush_head v now (again ∷ answers) =
    if not (ltb v.out_sent (length v.out))
    then turn none (flushed v) (again ∷ answers)
    else turn none (record v { blocked = true }) answers
flush_head v now (broken ∷ answers) =
    if not (ltb v.out_sent (length v.out))
    then turn none (flushed v) (broken ∷ answers)
    else dropped v (codes "write error") answers

-- The setup of the codec, before any byte of the ring.
abbrev pub stuck : VideoViewer → ℕ → List SendAnswer → Turn
stuck v now answers =
    turn (some (leb (now - v.last_progress) video_viewer_stuck_s)) (record v { blocked = true })
      answers

unfoldable pub send_prefix : Bool → VideoViewer → ℕ → List SendAnswer → Turn
send_prefix over_ws v now [] =
    if ltb v.prefix_sent (length v.prefix) then stuck v now [] else turn none v []
send_prefix over_ws v now (room n ∷ answers) =
    let w = min n (min viewer_chunk (length v.prefix - v.prefix_sent)) in
    let rest =
      send_prefix over_ws (record v { prefix_sent = v.prefix_sent + w; last_progress = now }) now
        answers in
    if not (ltb v.prefix_sent (length v.prefix))
    then turn none v (room n ∷ answers)
    else if w == 0
    then (if over_ws then stuck v now answers else turn (some false) v answers)
    else with_out (take w (drop v.prefix_sent v.prefix)) rest
send_prefix over_ws v now (interrupted ∷ answers) =
    let rest = send_prefix over_ws v now answers in
    if not (ltb v.prefix_sent (length v.prefix)) then turn none v (interrupted ∷ answers) else rest
send_prefix over_ws v now (again ∷ answers) =
    if not (ltb v.prefix_sent (length v.prefix))
    then turn none v (again ∷ answers)
    else stuck v now answers
send_prefix over_ws v now (broken ∷ answers) =
    if not (ltb v.prefix_sent (length v.prefix))
    then turn none v (broken ∷ answers)
    else turn (some false) v answers

-- The bytes that are offered in a round over the ring.
unfoldable pub offered : VideoRing → VideoViewer → ℕ → List ℕ
offered ring v budget =
    if ltb 0 budget && ltb v.read_pos ring.write_pos
    then (read_at ring v.read_pos (min budget viewer_chunk)).1
    else []

abbrev pub sent_on : VideoViewer → ℕ → ℕ → Bool → VideoViewer
sent_on v now w full = record v {
  read_pos = (v.read_pos + w) % u64_mod;
  bytes_sent = (v.bytes_sent + w) % u64_mod;
  last_progress = now;
  blocked = full;
}

-- The loop ends where nothing is offered.
unfoldable pub send_ring : Bool → VideoRing → VideoViewer → ℕ → ℕ → List SendAnswer → Turn
unfolding offered
send_ring over_ws ring v now budget [] =
    turn none (if length (offered ring v budget) == 0 then v else record v { blocked = true }) []
send_ring over_ws ring v now budget (room n ∷ answers) =
    let chunk = offered ring v budget in
    let w = min n (length chunk) in
    let rest = send_ring over_ws ring (sent_on v now w false) now (budget - w) answers in
    if length chunk == 0
    then turn none v (room n ∷ answers)
    else if w == 0 && over_ws
    then turn none (record v { blocked = true }) answers
    else if ltb w (length chunk)
    then with_out (take w chunk) (turn none (sent_on v now w true) answers)
    else with_out (take w chunk) rest
send_ring over_ws ring v now budget (interrupted ∷ answers) =
    let rest = send_ring over_ws ring v now budget answers in
    if length (offered ring v budget) == 0 then turn none v (interrupted ∷ answers) else rest
send_ring over_ws ring v now budget (again ∷ answers) =
    turn none (if length (offered ring v budget) == 0 then v else record v { blocked = true })
      answers
send_ring over_ws ring v now budget (broken ∷ answers) =
    if length (offered ring v budget) == 0
    then turn none v (broken ∷ answers)
    else dropped v (codes "write error") answers

-- What follows the loop: whether the viewer keeps up.
unfoldable pub keeps_up : VideoRing → VideoViewer → ℕ → Bool × VideoViewer
keeps_up ring v0 now =
    let v : VideoViewer = record v0 {
      blocked = if leb ring.write_pos v0.read_pos then false else v0.blocked;
    } in
    let lag = (ring.write_pos + u64_mod - v.read_pos) % u64_mod in
    let behind = ltb (length ring.buf / 2) lag in
    let timed : VideoViewer = record v {
      behind_since = if behind then (if v.behind_since == 0 then now else v.behind_since) else 0;
    } in
    if behind && (not (v.behind_since == 0) && ltb 5 (now - v.behind_since))
    then (false, record v { drop_reason = codes "chronically behind" })
    else if ltb 0 lag && ltb video_viewer_stuck_s (now - v.last_progress)
    then (false, record timed { drop_reason = codes "stalled" })
    else (true, timed)

unfoldable pub then_turn : Turn → (VideoViewer → List SendAnswer → Turn) → Turn
then_turn t next = elim (t.answer) [ some b ↦ t | none ↦ with_out t.out (next t.viewer t.answers) ]

abbrev pub end_turn : VideoRing → ℕ → VideoViewer → List SendAnswer → Turn
end_turn ring now v answers = let r = keeps_up ring v now in turn (some r.0) r.1 answers

-- A viewer in VV_STREAMING; one whose bytes are overwritten is dropped.
unfoldable pub stream_turn : Bool → VideoRing → ℕ → VideoViewer → List SendAnswer → Turn
unfolding send_prefix send_ring then_turn keeps_up
stream_turn over_ws ring now v answers =
    if not (resident ring v.read_pos)
    then dropped v (codes "fell too far behind (lapped)") answers
    else then_turn (send_prefix over_ws v now answers) (λ v1 rest.
      then_turn (send_ring over_ws ring v1 now video_viewer_write_chunk rest)
        (λ v2 left. end_turn ring now v2 left))

-- Behind flush, by the state.
unfoldable pub after_flush :
    Bool → VideoRing → ℕ → VideoViewer → ViewerState → List SendAnswer → Turn
unfolding stream_turn
after_flush over_ws ring now v responding answers =
    if not (length v.out == 0)
    then turn (some true) v answers
    else if v.is_streaming
    then stream_turn over_ws ring now (record v { state = streaming }) answers
    else turn (some false) v answers
after_flush over_ws ring now v streaming answers = stream_turn over_ws ring now v answers
after_flush over_ws ring now v detect answers = turn (some true) v answers
after_flush over_ws ring now v closing answers = turn (some true) v answers

unfoldable pub on_writable : Bool → VideoRing → ℕ → VideoViewer → List SendAnswer → Turn
unfolding flush_head then_turn after_flush
on_writable over_ws ring now v answers =
    then_turn (flush_head v now answers) (λ v1 rest. after_flush over_ws ring now v1 v1.state rest)
