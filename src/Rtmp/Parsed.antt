-- ===== src/Rtmp/Parsed.antt =====
-- A step over one chunk: no byte out of bounds is read, and the bounds are kept.
use support_proxy.Base.{
  ℕ, ◌+◌, ◌-◌, ◌≤◌, ◌<◌, ◌≡◌, refl, sym, ap, ◌∙◌, ◌⊎◌, ◌≢◌, inl, inr, Bool, true, false, List, [],
  ◌++◌, some, ltb, leb, length, take, drop, length-append, length-take, length-drop, arith, codes,
}
use support_proxy.Base.Returns.{Returns, returns, Returns-then, Returns-test}
use support_proxy.Rtmp.{
  ChunkStream, RtmpSession, dead, fail, size_sub, rtmp_max_message_bytes, rtmp_max_assembly_bytes,
  rtmp_max_out_bytes,
}
use support_proxy.Rtmp.Out.{send_msg}
use support_proxy.Rtmp.Chunk.{set_stream}
use support_proxy.Rtmp.Message.{acknowledge, within_out, commit}
use support_proxy.Rtmp.Quiet.{Core, core, quiet_if}
use support_proxy.Rtmp.Messages.{on_message-Handled}
use support_proxy.Rtmp.Handled.{Handled, same_core-Handled, IsSound-core}
use support_proxy.Rtmp.Sound.{
  IsPartial, IsSound, stream_slots, put, put-other, held-put, held-below, put-IsPartial,
}

-- What a step may change; true only if it went on in the input.
pub record Parsed (s : RtmpSession) (r : Bool × RtmpSession) : Type 0 where
  pub input_kept : (r.1).input ≡ s.input
  pub progress : r.0 ≡ true → s.in_pos < (r.1).in_pos
  pub publishing_kept : (r.1).publishing ≡ s.publishing
  pub flv_kept : s.publishing ≡ false → (r.1).to_flv ≡ s.to_flv
  pub media_kept : s.publishing ≡ false → (r.1).media_bytes ≡ s.media_bytes
  pub total_kept : (r.1).total_in ≡ s.total_in
  pub waits :
      r.0 ≡ false → (r.1).state ≢ dead → r.1 ≡ record s { stream_count = (r.1).stream_count }
  pub sound : IsSound r.1

unchanged :
    (s s' : RtmpSession)
    → (s' ≡ s) ⊎ (s'.state ≡ dead)
    → s'.state ≢ dead
    → s' ≡ record s { stream_count = s'.stream_count }
unchanged s s' (inl e) live =
    e ∙ ap (λ n. record s { stream_count = n }) (sym (ap (λ (x : RtmpSession). x.stream_count) e))
unchanged s s' (inr e) live = absurd (live e)

-- A step that stops leaves the core of the session, a new stream in its table aside.
pub stays :
    (s s' : RtmpSession)
    → core s' ≡ core s
    → (s' ≡ s) ⊎ (s'.state ≡ dead)
    → IsSound s
    → Parsed s (false, s')
stays s s' e h v = record {
  input_kept = ap (λ (x : Core). x.input) e;
  progress = λ t. ground arith;
  publishing_kept = ap (λ (x : Core). x.publishing) e;
  flv_kept = λ _. ap (λ (x : Core). x.to_flv) e;
  media_kept = λ _. ap (λ (x : Core). x.media_bytes) e;
  total_kept = ap (λ (x : Core). x.total_in) e;
  waits = λ _ live. unchanged s s' h live;
  sound = IsSound-core s s' e v;
}

-- A chunk's stream, put in its slot with what it holds of an unfinished message, or with nothing.
taken-IsSound :
    (s s1 : RtmpSession) (k : ℕ) (c : ChunkStream) (pos a : ℕ)
    → core s1 ≡ core s
    → IsSound s
    → k < s.stream_count
    → pos ≤ length s.input
    → a ≤ rtmp_max_assembly_bytes
    → a + length (s.streams k).acc ≡ s.assembly_bytes + length c.acc
    → IsPartial c
    → IsSound (set_stream (record s1 { assembly_bytes = a; in_pos = pos }) k c)
unfolding set_stream
taken-IsSound s s1 k c pos a e v h inside cap sum part =
    let moved : Core → Core =
      λ x. record x { in_pos = pos; assembly_bytes = a; streams = put x.streams k c } in
    IsSound-core (set_stream (record s { assembly_bytes = a; in_pos = pos }) k c) _ (ap moved e)
      (record {
        position = inside;
        some_chunk = v.some_chunk;
        chunk_bound = v.chunk_bound;
        slots = v.slots;
        fresh = λ j n.
            ap (λ (x : ChunkStream). length x.acc)
              (put-other s.streams k j c (λ x. absurd (omega (arith, x, h, n))))
            ∙ v.fresh j n;
        partial = λ j. put-IsPartial s.streams k c j part (v.partial j);
        counted = omega (
          arith,
          sum,
          v.counted,
          held-put stream_slots k s.streams c (omega (arith, h, v.slots)),
        );
        capped = cap;
      })

acknowledge-core : (s : RtmpSession) (n : ℕ) → core (acknowledge s n) ≡ core s
unfolding acknowledge send_msg
acknowledge-core s n = quiet_if _ s _ _ refl refl

-- A session that went on in the input.
record Moved (s s' : RtmpSession) : Type 0 where
  input_kept : s'.input ≡ s.input
  further : s.in_pos < s'.in_pos
  publishing_kept : s'.publishing ≡ s.publishing
  flv_kept : s.publishing ≡ false → s'.to_flv ≡ s.to_flv
  media_kept : s.publishing ≡ false → s'.media_bytes ≡ s.media_bytes
  total_kept : s'.total_in ≡ s.total_in
  sound : IsSound s'

Moved-Parsed :
    (s s' : RtmpSession) (b : Bool) → Moved s s' → (b ≡ false → s'.state ≡ dead) → Parsed s (b, s')
Moved-Parsed s s' b m stopped = record {
  input_kept = m.input_kept;
  progress = λ _. m.further;
  publishing_kept = m.publishing_kept;
  flv_kept = m.flv_kept;
  media_kept = m.media_kept;
  total_kept = m.total_kept;
  waits = λ e live. absurd (live (stopped e));
  sound = m.sound;
}

taken-Moved :
    (s s1 : RtmpSession) (k : ℕ) (c : ChunkStream) (pos a : ℕ)
    → core s1 ≡ core s
    → s.in_pos < pos
    → IsSound (set_stream (record s1 { assembly_bytes = a; in_pos = pos }) k c)
    → Moved s (set_stream (record s1 { assembly_bytes = a; in_pos = pos }) k c)
unfolding set_stream
taken-Moved s s1 k c pos a e lt v = record {
  input_kept = ap (λ (x : Core). x.input) e;
  further = lt;
  publishing_kept = ap (λ (x : Core). x.publishing) e;
  flv_kept = λ _. ap (λ (x : Core). x.to_flv) e;
  media_kept = λ _. ap (λ (x : Core). x.media_bytes) e;
  total_kept = ap (λ (x : Core). x.total_in) e;
  sound = v;
}

Handled-Moved :
    (s s2 : RtmpSession) (r : Bool × RtmpSession) → Moved s s2 → Handled s2 r → Moved s r.1
Handled-Moved s s2 r m h = record {
  input_kept = h.input_kept ∙ m.input_kept;
  further = omega (arith, h.in_pos_kept, m.further);
  publishing_kept = h.publishing_kept ∙ m.publishing_kept;
  flv_kept = λ e. h.flv_kept (m.publishing_kept ∙ e) ∙ m.flv_kept e;
  media_kept = λ e. h.media_kept (m.publishing_kept ∙ e) ∙ m.media_kept e;
  total_kept = h.total_kept ∙ m.total_kept;
  sound = h.sound m.sound;
}

failed-Moved : (s s' : RtmpSession) (why : List ℕ) → Moved s s' → Moved s (fail s' why)
failed-Moved s s' why m =
    Handled-Moved s s' (false, fail s' why) m
      (same_core-Handled s' (false, fail s' why) refl (λ _. refl))

within_out-Parsed : (s s' : RtmpSession) → Moved s s' → Returns (Parsed s) (within_out s.in_pos s')
unfolding within_out
within_out-Parsed s s' m =
    Returns-test (ltb rtmp_max_out_bytes (length s'.to_peer))
      (λ _. returns (
        Moved-Parsed s _ false (failed-Moved s s' (codes "peer is not reading its responses") m)
          (λ _. refl)))
      (λ _. returns (Moved-Parsed s s' _ m (λ e. absurd (ground (arith, e, m.further)))))

answered-Parsed :
    (s : RtmpSession) (r : Bool × RtmpSession)
    → Moved s r.1
    → (r.0 ≡ false → (r.1).state ≡ dead)
    → Returns (Parsed s) (elim (r.0) [ true ↦ within_out s.in_pos r.1 | false ↦ some r ])
answered-Parsed s (true, s') m stopped = within_out-Parsed s s' m
answered-Parsed s (false, s') m stopped = returns (Moved-Parsed s s' false m stopped)

pub commit-Parsed :
    (s : RtmpSession) (k : ℕ) (c : ChunkStream) (pos n : ℕ)
    → IsSound s
    → k < s.stream_count
    → c.acc ≡ (s.streams k).acc
    → c.len ≤ rtmp_max_message_bytes
    → s.in_pos < pos
    → pos + n ≤ length s.input
    → s.assembly_bytes + n ≤ rtmp_max_assembly_bytes
    → Returns (Parsed s) (commit s k c pos n)
unfolding commit
commit-Parsed s k c pos n v h same small ahead inside cap =
    let acc' = c.acc ++ take n (drop pos s.input) in
    let s1 = acknowledge s (pos - s.in_pos + n) in
    let e = acknowledge-core s (pos - s.in_pos + n) in
    let grown : length acc' ≡ length (s.streams k).acc + n = omega (
      arith,
      length-append c.acc (take n (drop pos s.input)),
      length-take n (drop pos s.input),
      length-drop pos s.input,
      ap (λ (l : List ℕ). length l) same,
      inside,
    ) in
    let below = held-below stream_slots k s.streams (omega (arith, h, v.slots)) in
    Returns-test (leb c.len (length acc'))
      (λ _.
        let a = size_sub (s.assembly_bytes + n) (length acc') in
        let sound =
          taken-IsSound s s1 k (record c { acc = [] }) (pos + n) a e v h inside
            (omega (arith, grown, below, v.counted, cap))
            (omega (arith, grown, below, v.counted, cap)) (inl refl) in
        let m =
          taken-Moved s s1 k (record c { acc = [] }) (pos + n) a e (omega (arith, ahead)) sound in
        Returns-then (on_message-Handled _ c acc')
          (λ r d. answered-Parsed s r (Handled-Moved s _ r m d) d.stopped))
      (λ f. within_out-Parsed s _ (
        taken-Moved s s1 k (record c { acc = acc' }) (pos + n) (s.assembly_bytes + n) e
          (omega (arith, ahead))
          (taken-IsSound s s1 k (record c { acc = acc' }) (pos + n) (s.assembly_bytes + n) e v h
            inside cap (omega (arith, grown)) (inr (ground (arith, f), small)))))
