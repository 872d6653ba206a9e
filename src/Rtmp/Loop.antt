-- ===== src/Rtmp/Loop.antt =====
-- The loop over what is buffered.
use support_proxy.Base.{
  ℕ, zero, suc, ◌-◌, ◌≤◌, ◌<◌, ◌≡◌, refl, ap, ◌∙◌, Bool, true, false, not, ◌||◌, List, ltb, ◌==◌,
  if◌then◌else◌, length, length-drop, arith,
}
use support_proxy.Base.Returns.{Returns, returns, Returns-then, Returns-weaken, Returns-test}
use support_proxy.Rtmp.{RtmpSession, compact}
use support_proxy.Rtmp.Feed.{alive, run_parser, parser_fuel}
use support_proxy.Rtmp.Sound.{IsSound}
use support_proxy.Rtmp.Handled.{IsSound-at}
use support_proxy.Rtmp.Parsed.{Parsed}
use support_proxy.Rtmp.Steps.{parse_step-Parsed}

-- What the loop may change.
pub record Ran (s : RtmpSession) (r : Bool × RtmpSession) : Type 0 where
  pub publishing_kept : (r.1).publishing ≡ s.publishing
  pub flv_kept : s.publishing ≡ false → (r.1).to_flv ≡ s.to_flv
  pub media_kept : s.publishing ≡ false → (r.1).media_bytes ≡ s.media_bytes
  pub total_kept : (r.1).total_in ≡ s.total_in
  pub shorter : length (r.1).input ≤ length s.input
  pub retained : (r.1).publish_pending ≡ false → (r.1).input ≡ s.input
  pub sound : IsSound r.1

pub IsSound-if :
    (t : Bool) (a b : RtmpSession)
    → IsSound a
    → (t ≡ false → IsSound b)
    → IsSound (if t then a else b)
IsSound-if true a b v w = v
IsSound-if false a b v w = w refl

compact-IsSound : (s : RtmpSession) → IsSound s → IsSound (compact s)
unfolding compact
compact-IsSound s v =
    IsSound-if (s.in_pos == length s.input) _ _ (IsSound-at s _ refl (omega arith) v)
      (λ _. IsSound-if (ltb 65536 s.in_pos) _ s (IsSound-at s _ refl (omega arith) v) (λ _. v))

compact_shorter : (s : RtmpSession) → length (compact s).input ≤ length s.input
unfolding compact
compact_shorter s = ground (arith, length-drop s.in_pos s.input)

Parsed-Ran : (s : RtmpSession) (r : Bool × RtmpSession) (b : Bool) → Parsed s r → Ran s (b, r.1)
Parsed-Ran s r b d = record {
  publishing_kept = d.publishing_kept;
  flv_kept = d.flv_kept;
  media_kept = d.media_kept;
  total_kept = d.total_kept;
  shorter = omega (arith, ap (λ (l : List ℕ). length l) d.input_kept);
  retained = λ _. d.input_kept;
  sound = d.sound;
}

Parsed-then-Ran : (s : RtmpSession) (r r' : Bool × RtmpSession) → Parsed s r → Ran r.1 r' → Ran s r'
Parsed-then-Ran s r r' d n = record {
  publishing_kept = n.publishing_kept ∙ d.publishing_kept;
  flv_kept = λ e. n.flv_kept (d.publishing_kept ∙ e) ∙ d.flv_kept e;
  media_kept = λ e. n.media_kept (d.publishing_kept ∙ e) ∙ d.media_kept e;
  total_kept = n.total_kept ∙ d.total_kept;
  shorter = omega (arith, n.shorter, ap (λ (l : List ℕ). length l) d.input_kept);
  retained = λ e. n.retained e ∙ d.input_kept;
  sound = n.sound;
}

compacted-Ran :
    (s : RtmpSession) (r : Bool × RtmpSession)
    → Parsed s r
    → (r.1).publish_pending ≡ true
    → Ran s (true, compact r.1)
unfolding compact
compacted-Ran s r d pending = record {
  publishing_kept = ground (arith, d.publishing_kept);
  flv_kept = λ e. ground (arith, d.flv_kept e);
  media_kept = λ e. ground (arith, d.media_kept e);
  total_kept = ground (arith, d.total_kept);
  shorter = omega (arith, compact_shorter r.1, ap (λ (l : List ℕ). length l) d.input_kept);
  retained = λ e. absurd (ground (arith, pending, e));
  sound = compact-IsSound r.1 d.sound;
}

pub run_parser-Ran :
    (fuel : ℕ) (s : RtmpSession)
    → IsSound s
    → length s.input - s.in_pos < fuel
    → Returns (Ran s) (run_parser fuel s)
unfolding run_parser
run_parser-Ran zero s v h = absurd (omega (arith, h))
run_parser-Ran (suc fuel) s v h = Returns-then (parse_step-Parsed s s.state v) λ r d.
    Returns-test (not r.0) (λ _. returns (Parsed-Ran s r (alive r.1) d))
      (λ went.
        let further = d.progress (ground (arith, went)) in
        Returns-test ((r.1).publish_pending || (r.1).in_pos == s.in_pos)
          (λ t. returns (compacted-Ran s r d (ground (arith, t, further))))
          (λ _.
            Returns-weaken
              (run_parser-Ran fuel r.1 d.sound (
                omega (
                  arith,
                  further,
                  h,
                  ap (λ (l : List ℕ). length l) d.input_kept,
                  d.sound.position,
                )))
              (λ r' n. Parsed-then-Ran s r r' d n)))

pub parsed-Ran : (s : RtmpSession) → IsSound s → Returns (Ran s) (run_parser (parser_fuel s) s)
parsed-Ran s v = run_parser-Ran (parser_fuel s) s v (omega arith)
