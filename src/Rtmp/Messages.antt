-- ===== src/Rtmp/Messages.antt =====
-- What each message may change of the session.
use support_proxy.Base.{
  ℕ, ◌%◌, ◌^◌, ◌<◌, ◌≡◌, refl, ap, ◌∙◌, inl, ◌&&◌, ◌||◌, List, [], ◌∷◌, ltb, leb, ◌==◌, length,
  arith, codes, ltb→lt,
}
use support_proxy.Base.Returns.{Returns, returns, Returns-then, Returns-weaken, Returns-test}
use support_proxy.Rtmp.{ChunkStream, RtmpSession, rtmp_max_chunk_size, size_sub}
use support_proxy.Rtmp.Amf.Total.{get_elem?-Returns, be-Returns}
use support_proxy.Rtmp.Out.{send_msg}
use support_proxy.Rtmp.Chunk.{set_stream}
use support_proxy.Rtmp.Message.{
  set_chunk_size, abort_message, set_ack_window, user_control, on_message,
}
use support_proxy.Rtmp.Quiet.{core, on_command-Quiet}
use support_proxy.Rtmp.Sound.{IsSound, stream_slots, put-other, held-put, held-below, put-IsPartial}
use support_proxy.Rtmp.Handled.{Handled, same_core-Handled, refused, answered}
use support_proxy.Rtmp.Media.{on_media-Handled}

set_chunk_size-Handled : (s : RtmpSession) (p : List ℕ) → Returns (Handled s) (set_chunk_size s p)
unfolding set_chunk_size
set_chunk_size-Handled s p =
    Returns-test (ltb (length p) 4) (λ _. refused s (codes "short SetChunkSize"))
      (λ f. Returns-then (be-Returns p 4 0 0 (ground arith)) (λ n _.
        Returns-test (n % 2 ^ 31 == 0 || ltb rtmp_max_chunk_size (n % 2 ^ 31))
          (λ _. refused s (codes "bad chunk size"))
          (λ g. returns (record {
            input_kept = refl;
            in_pos_kept = refl;
            publishing_kept = refl;
            flv_kept = λ _. refl;
            media_kept = λ _. refl;
            total_kept = refl;
            stopped = λ x. ground arith;
            sound = λ v. record {
              position = v.position;
              some_chunk = ground (arith, g);
              chunk_bound = ground (arith, g);
              slots = v.slots;
              fresh = v.fresh;
              partial = v.partial;
              counted = v.counted;
              capped = v.capped;
            };
          }))))

-- A stream that drops what it holds.
pub dropped-IsSound :
    (s : RtmpSession) (k : ℕ)
    → k < s.stream_count
    → IsSound s
    → IsSound (
        set_stream
          (record s { assembly_bytes = size_sub s.assembly_bytes (length (s.streams k).acc) })
          k
          (record (s.streams k) { acc = [] }))
unfolding set_stream
dropped-IsSound s k h v =
    let c : ChunkStream = record (s.streams k) { acc = [] } in
    let below = held-below stream_slots k s.streams (omega (arith, h, v.slots)) in
    let moved = held-put stream_slots k s.streams c (omega (arith, h, v.slots)) in
    record {
      position = v.position;
      some_chunk = v.some_chunk;
      chunk_bound = v.chunk_bound;
      slots = v.slots;
      fresh = λ j n.
          ap (λ (x : ChunkStream). length x.acc)
            (put-other s.streams k j c (λ e. absurd (omega (arith, e, h, n))))
          ∙ v.fresh j n;
      partial = λ j. put-IsPartial s.streams k c j (inl refl) (v.partial j);
      counted = omega (arith, moved, below, v.counted, v.capped);
      capped = omega (arith, below, v.counted, v.capped);
    }

abort_message-Handled : (s : RtmpSession) (p : List ℕ) → Returns (Handled s) (abort_message s p)
unfolding abort_message
abort_message-Handled s p =
    Returns-test (leb 4 (length p))
      (λ f. Returns-then (be-Returns p 4 0 0 (ground arith)) (λ id _.
        Returns-test (ltb id s.stream_count)
          (λ g. returns (record {
            input_kept = refl;
            in_pos_kept = refl;
            publishing_kept = refl;
            flv_kept = λ _. refl;
            media_kept = λ _. refl;
            total_kept = refl;
            stopped = λ x. ground arith;
            sound = dropped-IsSound s id (ltb→lt id s.stream_count g);
          }))
          (λ _. answered s s refl)))
      (λ _. answered s s refl)

set_ack_window-Handled : (s : RtmpSession) (p : List ℕ) → Returns (Handled s) (set_ack_window s p)
unfolding set_ack_window
set_ack_window-Handled s p =
    Returns-test (leb 4 (length p))
      (λ f. Returns-then (be-Returns p 4 0 0 (ground arith)) (λ w _. answered s _ refl))
      (λ _. answered s s refl)

pub send_msg-core :
    (s : RtmpSession) (csid kind sid : ℕ) (p : List ℕ) → core (send_msg s csid kind sid p) ≡ core s
unfolding send_msg
send_msg-core s csid kind sid p = refl

user_control-Handled : (s : RtmpSession) (p : List ℕ) → Returns (Handled s) (user_control s p)
unfolding user_control
user_control-Handled s p =
    Returns-test (leb 2 (length p))
      (λ f. Returns-then (be-Returns p 2 0 0 (ground arith)) (λ ev _.
        Returns-test (ev == 6 && leb 6 (length p))
          (λ g. Returns-then (get_elem?-Returns p 2 (ground (arith, g))) (λ b2 _.
            Returns-then (get_elem?-Returns p 3 (ground (arith, g))) (λ b3 _.
              Returns-then (get_elem?-Returns p 4 (ground (arith, g))) (λ b4 _.
                Returns-then (get_elem?-Returns p 5 (ground (arith, g))) (λ b5 _.
                  answered s _ (send_msg-core s 2 4 0 (0 ∷ 7 ∷ b2 ∷ b3 ∷ b4 ∷ b5 ∷ [])))))))
          (λ _. answered s s refl)))
      (λ _. answered s s refl)

pub on_message-Handled :
    (s : RtmpSession) (c : ChunkStream) (p : List ℕ) → Returns (Handled s) (on_message s c p)
unfolding on_message
on_message-Handled s c p =
    Returns-test (c.kind == 1) (λ _. set_chunk_size-Handled s p)
      (λ _.
        Returns-test (c.kind == 2) (λ _. abort_message-Handled s p)
          (λ _.
            Returns-test (c.kind == 5 || c.kind == 6) (λ _. set_ack_window-Handled s p)
              (λ _.
                Returns-test (c.kind == 4) (λ _. user_control-Handled s p)
                  (λ _.
                    Returns-test (c.kind == 8 || (c.kind == 9 || c.kind == 18))
                      (λ _. Returns-then (on_media-Handled s c.kind c.ts p) (λ s' h. returns h))
                      (λ _.
                        Returns-test (c.kind == 20)
                          (λ _.
                            Returns-weaken (on_command-Quiet s c p)
                              (λ r e. same_core-Handled s r e.core_kept e.stopped))
                          (λ _. answered s s refl))))))
