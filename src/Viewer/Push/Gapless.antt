-- ===== src/Viewer/Push/Gapless.antt =====
-- A whole turn hands out what a viewer is owed, with no gap.
use support_proxy.Base.{
  ℕ, ◌+◌, ◌-◌, ◌%◌, min, ◌≤◌, ◌<◌, ◌≡◌, refl, sym, ap, ◌∙◌, Bool, true, false, not, ◌&&◌, List, [],
  ◌∷◌, ◌++◌, none, ltb, leb, ◌==◌, if◌then◌else◌, length, take, drop, drop_add, drop_nil, take-take,
  take-append-drop, length-take, length-drop, arith,
}
use support_proxy.Ring.{VideoRing, resident, u64_mod}
use support_proxy.Ring.Holds.{Holds}
use support_proxy.Ring.Window.{window, read_at-window}
use support_proxy.Viewer.{
  VideoViewer, ViewerState, detect, responding, streaming, closing, SendAnswer, room, interrupted,
  again, broken, viewer_chunk, video_viewer_write_chunk,
}
use support_proxy.Viewer.Push.{
  turn, offered, sent_on, send_prefix, send_ring, keeps_up, then_turn, end_turn, flush_head,
  stream_turn, after_flush, on_writable,
}
use support_proxy.Viewer.Push.Parts.{
  head, setup, owed, Conserves, Conserves-test, with_out-Conserves, then_turn-Conserves,
  flush_head-HeadFlushed, send_prefix-SetUp,
}

-- What is offered is the beginning of the stream from the place of the viewer.
IsNext : List ℕ → ℕ → List ℕ → Type 0
IsNext h pos chunk = (n : ℕ) × (chunk ≡ take n (drop pos h))

IsNext-if :
    (h : List ℕ) (pos : ℕ) (t : Bool) (x : List ℕ)
    → IsNext h pos x
    → IsNext h pos (if t then x else [])
unfolding IsNext
IsNext-if h pos true x y = y
IsNext-if h pos false x y = (0, refl)

window-IsNext : (h : List ℕ) (cap pos n : ℕ) → IsNext h pos (window h cap pos n)
unfolding IsNext
window-IsNext h cap pos n =
    IsNext-if h pos (leb (length h) (pos + cap) && leb pos (length h)) (take n (drop pos h))
      (n, refl)

offered-IsNext :
    (ring : VideoRing) (h : List ℕ) (v : VideoViewer) (budget : ℕ)
    → Holds ring h
    → IsNext h v.read_pos (offered ring v budget)
unfolding offered
offered-IsNext ring h v budget holds =
    IsNext-if h v.read_pos (ltb 0 budget && ltb v.read_pos ring.write_pos) _ (
      rw (read_at-window ring h v.read_pos (min budget viewer_chunk) holds)
        (window-IsNext h (length ring.buf) v.read_pos (min budget viewer_chunk)))

-- Some of what is offered goes out, and the place moves on by as much.
chunk_sent :
    (h : List ℕ) (pos w : ℕ) (chunk : List ℕ)
    → IsNext h pos chunk
    → w ≤ length chunk
    → 0 < length chunk
    → length h < u64_mod
    → take w chunk ++ drop ((pos + w) % u64_mod) h ≡ drop pos h
unfolding IsNext
chunk_sent h pos w chunk (n, e) le pos_len wide =
    let size : length chunk ≡ min n (length h - pos) =
      omega
        (arith, ap (λ (l : List ℕ). length l) e, length-take n (drop pos h), length-drop pos h) in
    let same : (pos + w) % u64_mod ≡ pos + w = omega (arith, size, le, pos_len, wide) in
    ap (λ (l : List ℕ). take w l ++ drop ((pos + w) % u64_mod) h) e
    ∙ (ap (λ (l : List ℕ). l ++ drop ((pos + w) % u64_mod) h)
          (take-take w n (drop pos h) (omega (arith, size, le)))
        ∙ (ap (λ (k : ℕ). take w (drop pos h) ++ drop k h) same
            ∙ (ap (λ (l : List ℕ). take w (drop pos h) ++ l) (drop_add pos w h)
                ∙ take-append-drop w (drop pos h))))

-- A viewer whose head and setup are out is owed the stream alone.
bare : (h : List ℕ) (v : VideoViewer) → head v ≡ [] → setup v ≡ [] → owed h v ≡ drop v.read_pos h
bare h v e f =
    ap (λ (l : List ℕ). l ++ (setup v ++ drop v.read_pos h)) e
    ∙ ap (λ (l : List ℕ). l ++ drop v.read_pos h) f

step_on :
    (h : List ℕ) (ring : VideoRing) (v : VideoViewer) (now budget w : ℕ) (full : Bool)
    → Holds ring h
    → length h < u64_mod
    → head v ≡ []
    → setup v ≡ []
    → w ≤ length (offered ring v budget)
    → (length (offered ring v budget) == 0) ≡ false
    → take w (offered ring v budget) ++ owed h (sent_on v now w full) ≡ owed h v
step_on h ring v now budget w full holds wide e f le some_left =
    ap (λ (l : List ℕ). take w (offered ring v budget) ++ l) (bare h (sent_on v now w full) e f)
    ∙ (chunk_sent h v.read_pos w (offered ring v budget) (offered-IsNext ring h v budget holds) le
          (ground (arith, some_left)) wide
        ∙ sym (bare h v e f))

blocked_if :
    (h : List ℕ) (v : VideoViewer) (t : Bool)
    → owed h (if t then v else record v { blocked = true }) ≡ owed h v
blocked_if h v true = refl
blocked_if h v false = refl

send_ring-Conserves :
    (over_ws : Bool) (ring : VideoRing) (h : List ℕ) (v : VideoViewer) (now budget : ℕ)
    (answers : List SendAnswer)
    → Holds ring h
    → length h < u64_mod
    → head v ≡ []
    → setup v ≡ []
    → Conserves h v (send_ring over_ws ring v now budget answers)
unfolding send_ring
send_ring-Conserves over_ws ring h v now budget [] holds wide e f =
    blocked_if h v (length (offered ring v budget) == 0)
send_ring-Conserves over_ws ring h v now budget (room n ∷ answers) holds wide e f =
    let chunk = offered ring v budget in
    let w = min n (length chunk) in
    Conserves-test h v (length chunk == 0) _ _ (λ _. refl)
      (λ left.
        Conserves-test h v (w == 0 && over_ws) _ _ (λ _. refl)
          (λ _.
            Conserves-test h v (ltb w (length chunk)) _ _
              (λ _.
                with_out-Conserves h (take w chunk) v (sent_on v now w true)
                  (turn none (sent_on v now w true) answers)
                  (step_on h ring v now budget w true holds wide e f (omega arith) left) refl)
              (λ _.
                with_out-Conserves h (take w chunk) v (sent_on v now w false)
                  (send_ring over_ws ring (sent_on v now w false) now (budget - w) answers)
                  (step_on h ring v now budget w false holds wide e f (omega arith) left)
                  (send_ring-Conserves over_ws ring h (sent_on v now w false) now (budget - w)
                    answers holds wide e f))))
send_ring-Conserves over_ws ring h v now budget (interrupted ∷ answers) holds wide e f =
    Conserves-test h v (length (offered ring v budget) == 0) _ _ (λ _. refl)
      (λ _. send_ring-Conserves over_ws ring h v now budget answers holds wide e f)
send_ring-Conserves over_ws ring h v now budget (again ∷ answers) holds wide e f =
    blocked_if h v (length (offered ring v budget) == 0)
send_ring-Conserves over_ws ring h v now budget (broken ∷ answers) holds wide e f =
    Conserves-test h v (length (offered ring v budget) == 0) _ _ (λ _. refl) (λ _. refl)

keeps_up-owed :
    (h : List ℕ) (ring : VideoRing) (v : VideoViewer) (now : ℕ)
    → owed h (keeps_up ring v now).1 ≡ owed h v
unfolding keeps_up
keeps_up-owed h ring v now = ground arith

end_turn-Conserves :
    (h : List ℕ) (ring : VideoRing) (v : VideoViewer) (now : ℕ) (answers : List SendAnswer)
    → Conserves h v (end_turn ring now v answers)
end_turn-Conserves h ring v now answers = keeps_up-owed h ring v now

stream_turn-Conserves :
    (over_ws : Bool) (ring : VideoRing) (h : List ℕ) (now : ℕ) (v : VideoViewer)
    (answers : List SendAnswer)
    → Holds ring h
    → length h < u64_mod
    → head v ≡ []
    → Conserves h v (stream_turn over_ws ring now v answers)
unfolding stream_turn
stream_turn-Conserves over_ws ring h now v answers holds wide e =
    let p = send_prefix over_ws v now answers in
    let s = send_prefix-SetUp over_ws h v now answers e in
    let q = send_ring over_ws ring p.viewer now video_viewer_write_chunk p.answers in
    Conserves-test h v (not (resident ring v.read_pos)) _ _ (λ _. refl)
      (λ _.
        then_turn-Conserves h v p
          (λ v1 rest.
            then_turn (send_ring over_ws ring v1 now video_viewer_write_chunk rest)
              (λ v2 left. end_turn ring now v2 left))
          s.conserves
          (λ go.
            then_turn-Conserves h p.viewer q (λ v2 left. end_turn ring now v2 left)
              (send_ring-Conserves over_ws ring h p.viewer now video_viewer_write_chunk p.answers
                holds wide s.headless (s.complete go))
              (λ _. end_turn-Conserves h ring q.viewer now q.answers)))

empty_of : (l : List ℕ) → (length l == 0) ≡ true → l ≡ []
empty_of [] e = refl
empty_of (x ∷ l) e = absurd (ground (arith, e))

no_head : (v : VideoViewer) → v.out ≡ [] → head v ≡ []
no_head v e = ap (λ (l : List ℕ). drop v.out_sent l) e ∙ drop_nil v.out_sent

after_flush-Conserves :
    (over_ws : Bool) (ring : VideoRing) (h : List ℕ) (now : ℕ) (v : VideoViewer) (st : ViewerState)
    (answers : List SendAnswer)
    → Holds ring h
    → length h < u64_mod
    → (st ≡ streaming → v.out ≡ [])
    → Conserves h v (after_flush over_ws ring now v st answers)
unfolding after_flush
after_flush-Conserves over_ws ring h now v responding answers holds wide e =
    Conserves-test h v (not (length v.out == 0)) _ _ (λ _. refl)
      (λ f.
        Conserves-test h v v.is_streaming _ _
          (λ _.
            stream_turn-Conserves over_ws ring h now (record v { state = streaming }) answers holds
              wide (no_head v (empty_of v.out (ground (arith, f)))))
          (λ _. refl))
after_flush-Conserves over_ws ring h now v streaming answers holds wide e =
    stream_turn-Conserves over_ws ring h now v answers holds wide (no_head v (e refl))
after_flush-Conserves over_ws ring h now v detect answers holds wide e = refl
after_flush-Conserves over_ws ring h now v closing answers holds wide e = refl

-- Whatever the socket answers, the bytes that a turn hands to a viewer, followed by what the viewer
-- is owed behind it, are what it was owed before: the rest of the response head, the rest of the codec's
-- setup, and the stream from its place on, of which the ring holds the last lap. The stream is shorter
-- than 2^64 bytes, and a viewer that streams has no response left to send.
pub on_writable-Conserves :
    (over_ws : Bool) (ring : VideoRing) (h : List ℕ) (now : ℕ) (v : VideoViewer)
    (answers : List SendAnswer)
    → Holds ring h
    → length h < u64_mod
    → (v.state ≡ streaming → v.out ≡ [])
    → let t = on_writable over_ws ring now v answers in t.out ++ owed h t.viewer ≡ owed h v
unfolding on_writable
on_writable-Conserves over_ws ring h now v answers holds wide e =
    let f = flush_head v now answers in
    let d = flush_head-HeadFlushed h v now answers in
    then_turn-Conserves h v f (λ v1 rest. after_flush over_ws ring now v1 v1.state rest) d.conserves
      (λ _.
        after_flush-Conserves over_ws ring h now f.viewer (f.viewer).state f.answers holds wide
          (λ s. d.no_head (e (sym d.same_state ∙ s))))
