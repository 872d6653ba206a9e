-- ===== src/Rtmp/Handled.antt =====
-- What a message may change of the session.
use support_proxy.Base.{
  ℕ, ◌≤◌, ◌≡◌, refl, sym, ap, subst, ◌∙◌, Bool, true, false, List, length, arith,
}
use support_proxy.Base.Returns.{Returns, returns}
use support_proxy.Rtmp.{RtmpSession, dead, fail}
use support_proxy.Rtmp.Command.{done, failed}
use support_proxy.Rtmp.Quiet.{Core, core}
use support_proxy.Rtmp.Sound.{held, IsPartial, IsSound, stream_slots}

pub IsSound-core : (s s' : RtmpSession) → core s' ≡ core s → IsSound s → IsSound s'
IsSound-core s s' e v = record {
  position =
      omega (arith, ap (λ (x : Core). x.in_pos) e, ap (λ (x : Core). length x.input) e, v.position);
  some_chunk = omega (arith, ap (λ (x : Core). x.in_chunk) e, v.some_chunk);
  chunk_bound = omega (arith, ap (λ (x : Core). x.in_chunk) e, v.chunk_bound);
  slots = omega (arith, ap (λ (x : Core). x.stream_count) e, v.slots);
  fresh = λ k h.
      ap (λ (x : Core). length (x.streams k).acc) e
      ∙ v.fresh k (omega (arith, ap (λ (x : Core). x.stream_count) e, h));
  partial = λ k. subst (λ (x : Core). IsPartial (x.streams k)) (sym e) (v.partial k);
  counted =
      ap (λ (x : Core). x.assembly_bytes) e
      ∙ (v.counted ∙ ap (λ (x : Core). held stream_slots x.streams) (sym e));
  capped = omega (arith, ap (λ (x : Core). x.assembly_bytes) e, v.capped);
}

-- Another input, and another place in it.
pub IsSound-at :
    (s s' : RtmpSession)
    → core s' ≡ core (record s { input = s'.input; in_pos = s'.in_pos; total_in = s'.total_in })
    → s'.in_pos ≤ length s'.input
    → IsSound s
    → IsSound s'
IsSound-at s s' e h v =
    IsSound-core (record s { input = s'.input; in_pos = s'.in_pos; total_in = s'.total_in }) s' e
      (record {
        position = h;
        some_chunk = v.some_chunk;
        chunk_bound = v.chunk_bound;
        slots = v.slots;
        fresh = v.fresh;
        partial = v.partial;
        counted = v.counted;
        capped = v.capped;
      })

pub record Handled (s : RtmpSession) (r : Bool × RtmpSession) : Type 0 where
  pub input_kept : (r.1).input ≡ s.input
  pub in_pos_kept : (r.1).in_pos ≡ s.in_pos
  pub publishing_kept : (r.1).publishing ≡ s.publishing
  pub flv_kept : s.publishing ≡ false → (r.1).to_flv ≡ s.to_flv
  pub media_kept : s.publishing ≡ false → (r.1).media_bytes ≡ s.media_bytes
  pub total_kept : (r.1).total_in ≡ s.total_in
  pub stopped : r.0 ≡ false → (r.1).state ≡ dead
  pub sound : IsSound s → IsSound r.1

pub same_core-Handled :
    (s : RtmpSession) (r : Bool × RtmpSession)
    → core r.1 ≡ core s
    → (r.0 ≡ false → (r.1).state ≡ dead)
    → Handled s r
same_core-Handled s r e h = record {
  input_kept = ap (λ (x : Core). x.input) e;
  in_pos_kept = ap (λ (x : Core). x.in_pos) e;
  publishing_kept = ap (λ (x : Core). x.publishing) e;
  flv_kept = λ _. ap (λ (x : Core). x.to_flv) e;
  media_kept = λ _. ap (λ (x : Core). x.media_bytes) e;
  total_kept = ap (λ (x : Core). x.total_in) e;
  stopped = h;
  sound = IsSound-core s r.1 e;
}

pub refused : (s : RtmpSession) (why : List ℕ) → Returns (Handled s) (failed s why)
refused s why = returns (same_core-Handled s (false, fail s why) refl (λ _. refl))

pub answered : (s s' : RtmpSession) → core s' ≡ core s → Returns (Handled s) (done s')
answered s s' e = returns (same_core-Handled s (true, s') e (λ x. ground arith))
