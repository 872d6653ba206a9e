-- ===== src/Rtmp/Steps.antt =====
-- A call of parse_chunks, and one of do_handshake.
use support_proxy.Base.{
  ℕ, ◌+◌, ◌-◌, min, ◌≤◌, ◌<◌, ◌≡◌, ◌≢◌, inl, inr, refl, ap, Bool, true, false, not, ◌&&◌, List,
  Option, none, some, ltb, leb, ◌==◌, if◌then◌else◌, length, arith, codes, ltb→ge,
}
use support_proxy.Base.Returns.{
  Returns, returns, Returns-then, Returns-weaken, Returns-test, Returns-at,
}
use support_proxy.Rtmp.{
  ChunkStream, RtmpSession, RtmpState, want_c0c1, want_c2, chunks, dead, no_text, fail, size_sub,
  rtmp_max_message_bytes, rtmp_max_chunk_stream, rtmp_max_assembly_bytes,
}
use support_proxy.Rtmp.Command.{failed}
use support_proxy.Rtmp.Amf.Total.{Anything, get_elem?-Returns}
use support_proxy.Rtmp.Handled.{IsSound-core}
use support_proxy.Rtmp.Out.{bytes_at}
use support_proxy.Rtmp.Chunk.{BasicHeader, resized}
use support_proxy.Rtmp.Message.{chunk_body, with_message_header, with_basic_header, parse_chunks}
use support_proxy.Rtmp.Feed.{do_handshake, parse_step}
use support_proxy.Rtmp.Headers.{HasSize, basic_header-Returns, HeaderEnds, message_header-Returns}
use support_proxy.Rtmp.Parsed.{Parsed, stays, commit-Parsed}
use support_proxy.Rtmp.Sound.{IsSound}
use support_proxy.Rtmp.Quiet.{Core, core}

still : (s : RtmpSession) → IsSound s → Returns (Parsed s) (some (false, s))
still s v = returns (stays s s refl (inl refl) v)

refused : (s : RtmpSession) (why : List ℕ) → IsSound s → Returns (Parsed s) (failed s why)
refused s why v = returns (stays s (fail s why) refl (inr refl) v)

chunk_body-Parsed :
    (s : RtmpSession) (b : BasicHeader) (c : ChunkStream) (pos : ℕ)
    → IsSound s
    → b.csid < s.stream_count
    → c.acc ≡ (s.streams b.csid).acc
    → s.in_pos < pos
    → Returns (Parsed s) (chunk_body s b c pos)
unfolding chunk_body
chunk_body-Parsed s b c pos v h same ahead =
    let n = min (size_sub c.len (length c.acc)) s.in_chunk in
    Returns-test (ltb rtmp_max_message_bytes c.len) (λ _. refused s (codes "message too large") v)
      (λ small.
        Returns-test (not (b.fmt == 3) && not (no_text c.acc))
          (λ _. refused s (codes "header restarts a message already in progress") v)
          (λ _.
            Returns-test (ltb (length s.input) (pos + n)) (λ _. still s v)
              (λ inside.
                Returns-test (ltb rtmp_max_assembly_bytes (s.assembly_bytes + n))
                  (λ _. refused s (codes "too many partial messages") v)
                  (λ cap.
                    commit-Parsed s b.csid c pos n v h same (ltb→ge _ _ small) ahead
                      (ltb→ge _ _ inside) (ltb→ge _ _ cap)))))

with_message_header-Parsed :
    (s : RtmpSession) (b : BasicHeader) (o : Option (ChunkStream × ℕ))
    → IsSound s
    → b.csid < s.stream_count
    → 0 < b.size
    → HeaderEnds (s.in_pos + b.size) (s.streams b.csid) o
    → Returns (Parsed s) (with_message_header s b o)
unfolding with_message_header
with_message_header-Parsed s b none v h size e = still s v
with_message_header-Parsed s b (some t) v h size e =
    chunk_body-Parsed s b t.0 t.1 v h (e.0) (omega (arith, e, size))

-- The table of streams grows up to its bound.
resized-IsSound :
    (s : RtmpSession) (k : ℕ) → k ≤ rtmp_max_chunk_stream → IsSound s → IsSound (resized s k)
unfolding resized
resized-IsSound s k h v = record {
  position = v.position;
  some_chunk = v.some_chunk;
  chunk_bound = v.chunk_bound;
  slots = ground (arith, v.slots, h);
  fresh = λ j n. v.fresh j (ground (arith, n));
  partial = v.partial;
  counted = v.counted;
  capped = v.capped;
}

resized-count : (s : RtmpSession) (k : ℕ) → k < (resized s k).stream_count
unfolding resized
resized-count s k = ground arith

Parsed-resized :
    (s : RtmpSession) (k : ℕ) (r : Bool × RtmpSession) → Parsed (resized s k) r → Parsed s r
unfolding resized
Parsed-resized s k r d = record {
  input_kept = d.input_kept;
  progress = d.progress;
  publishing_kept = d.publishing_kept;
  flv_kept = d.flv_kept;
  media_kept = d.media_kept;
  total_kept = d.total_kept;
  waits = d.waits;
  sound = d.sound;
}

resized_ends :
    (s : RtmpSession) (k h : ℕ) (m : Option (ChunkStream × ℕ))
    → HeaderEnds h (s.streams k) m
    → HeaderEnds h ((resized s k).streams k) m
unfolding resized
resized_ends s k h m e = e

with_basic_header-Parsed :
    (s : RtmpSession) (o : Option BasicHeader)
    → IsSound s
    → HasSize o
    → Returns (Parsed s) (with_basic_header s o)
unfolding with_basic_header
with_basic_header-Parsed s none v e = still s v
with_basic_header-Parsed s (some b) v e =
    Returns-test (ltb rtmp_max_chunk_stream b.csid)
      (λ _. refused s (codes "chunk stream id out of range") v)
      (λ f.
        Returns-then (message_header-Returns s.input (s.in_pos + b.size) b.fmt (s.streams b.csid))
          (λ m ends.
            Returns-weaken
              (with_message_header-Parsed (resized s b.csid) b m
                (resized-IsSound s b.csid (ltb→ge _ _ f) v) (resized-count s b.csid) e
                (resized_ends s b.csid (s.in_pos + b.size) m ends))
              (λ r d. Parsed-resized s b.csid r d)))

-- A call of parse_chunks on a session within its bounds reads no byte out of bounds, stays within
-- them, and answers true only when it went on in the input.
pub parse_chunks-Parsed : (s : RtmpSession) → IsSound s → Returns (Parsed s) (parse_chunks s)
unfolding parse_chunks
parse_chunks-Parsed s v =
    Returns-then (basic_header-Returns s.input s.in_pos) λ o e. with_basic_header-Parsed s o v e

bytes_at-Returns : (p : List ℕ) (i n : ℕ) → i + n ≤ length p → Returns Anything (bytes_at p i n)
unfolding bytes_at
bytes_at-Returns p i n h =
    Returns-test (leb (i + n) (length p)) (λ _. returns tt) (λ f. absurd (ground (arith, f, h)))

advanced :
    (s s' : RtmpSession)
    → core s' ≡ core (record s { in_pos = s'.in_pos })
    → s.in_pos < s'.in_pos
    → s'.in_pos ≤ length s.input
    → IsSound s
    → Parsed s (true, s')
advanced s s' e lt le v = record {
  input_kept = ap (λ (x : Core). x.input) e;
  progress = λ _. lt;
  publishing_kept = ap (λ (x : Core). x.publishing) e;
  flv_kept = λ _. ap (λ (x : Core). x.to_flv) e;
  media_kept = λ _. ap (λ (x : Core). x.media_bytes) e;
  total_kept = ap (λ (x : Core). x.total_in) e;
  waits = λ x. ground arith;
  sound =
      IsSound-core (record s { in_pos = s'.in_pos }) s' e
        (record {
          position = le;
          some_chunk = v.some_chunk;
          chunk_bound = v.chunk_bound;
          slots = v.slots;
          fresh = v.fresh;
          partial = v.partial;
          counted = v.counted;
          capped = v.capped;
        });
}

second_part :
    (s : RtmpSession)
    → IsSound s
    → Returns (Parsed s) (
        if ltb (length s.input - s.in_pos) 1536
        then some (false, s)
        else some (true, record s { in_pos = s.in_pos + 1536; state = chunks }))
second_part s v =
    Returns-test (ltb (length s.input - s.in_pos) 1536) (λ _. still s v)
      (λ f. returns (advanced s _ refl (omega arith) (ground (arith, f)) v))

pub parse_step-Parsed :
    (s : RtmpSession) (st : RtmpState) → IsSound s → Returns (Parsed s) (parse_step s st)
unfolding parse_step do_handshake
parse_step-Parsed s want_c0c1 v =
    Returns-test (ltb (length s.input - s.in_pos) 1537) (λ _. still s v)
      (λ f. Returns-then (get_elem?-Returns s.input s.in_pos (ground (arith, f))) (λ version _.
        Returns-test (not (version == 3)) (λ _. refused s (codes "unsupported RTMP version") v)
          (λ _.
            Returns-then (bytes_at-Returns s.input (s.in_pos + 1) 1536 (ground (arith, f)))
              (λ c1 _. returns (advanced s _ refl (omega arith) (ground (arith, f)) v)))))
parse_step-Parsed s want_c2 v = second_part s v
parse_step-Parsed s chunks v = parse_chunks-Parsed s v
parse_step-Parsed s dead v = still s v

-- A call of parse_chunks, on a session within its bounds, that answers false and leaves it alive waits
-- for bytes: it leaves all but the size of the table of streams as it was, so that the next read
-- parses the same chunk again from its first byte, the timestamp's delta included.
pub parse_chunks_waits :
    (s s' : RtmpSession)
    → IsSound s
    → parse_chunks s ≡ some (false, s')
    → s'.state ≢ dead
    → s' ≡ record s { stream_count = s'.stream_count }
parse_chunks_waits s s' v e live = (Returns-at (parse_chunks-Parsed s v) e).waits refl live
