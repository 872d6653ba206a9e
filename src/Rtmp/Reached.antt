-- ===== src/Rtmp/Reached.antt =====
-- The sessions that reads, the caller's answers and its draining of the two outputs lead to.
use support_proxy.Base.{
  ℕ, zero, suc, ◌^◌, ◌≤◌, ◌<◌, ◌≡◌, inl, inr, refl, sym, ap, ◌∙◌, Bool, true, false, not, List, [],
  some, if◌then◌else◌, length, drop, arith,
}
use support_proxy.Base.Returns.{Returns, Returns-weaken, Returns-at}
use support_proxy.Rtmp.{RtmpSession, new_session, rtmp_prepublish_max_bytes}
use support_proxy.Rtmp.Out.{send_msg, write_flv_header}
use support_proxy.Rtmp.Answer.{accept_publish, reject_publish}
use support_proxy.Rtmp.Feed.{feed, resume}
use support_proxy.Rtmp.Sound.{held, IsSound, stream_slots}
use support_proxy.Rtmp.Loop.{IsSound-if}
use support_proxy.Rtmp.Reads.{IsFrugal, Fed, feed-Fed, resume-Fed}

pub data Reached : RtmpSession → Type 0 where
  begun : Reached new_session
  fed :
      {s : RtmpSession} {r : Bool × RtmpSession} (buf : List ℕ) (now : ℕ)
      → Reached s
      → length buf < 2 ^ 63
      → feed s buf now ≡ some r
      → Reached r.1
  resumed : {s : RtmpSession} {r : Bool × RtmpSession} → Reached s → resume s ≡ some r → Reached r.1
  accepted : {s : RtmpSession} → Reached s → Reached (accept_publish s)
  rejected :
      {s : RtmpSession} (code description : List ℕ)
      → Reached s
      → Reached (reject_publish s code description)
  peer_drained :
      {s : RtmpSession} (n : ℕ) → Reached s → Reached (record s { to_peer = drop n s.to_peer })
  flv_drained :
      {s : RtmpSession} (n : ℕ) → Reached s → Reached (record s { to_flv = drop n s.to_flv })

-- Before it publishes, a session has no media.
abbrev pub IsUnheard : RtmpSession → Type 0
IsUnheard s = s.publishing ≡ false → (s.to_flv ≡ []) × (s.media_bytes ≡ 0)

-- All that a session keeps to.
record IsKept (s : RtmpSession) : Type 0 where
  sound : IsSound s
  unheard : IsUnheard s
  frugal : IsFrugal s

held_none : (n : ℕ) → held n new_session.streams ≡ 0
unfolding held new_session
held_none zero = refl
held_none (suc n) = omega (arith, held_none n)

new_session-IsKept : IsKept new_session
unfolding new_session
new_session-IsKept = record {
  sound = record {
    position = omega arith;
    some_chunk = omega arith;
    chunk_bound = omega arith;
    slots = omega arith;
    fresh = λ k h. refl;
    partial = λ k. inl refl;
    counted = sym (held_none stream_slots);
    capped = omega arith;
  };
  unheard = λ e. (refl, refl);
  frugal = λ e. (omega arith, inr (omega arith, omega arith));
}

Fed-IsKept :
    (s : RtmpSession) (n : ℕ) (r : Bool × RtmpSession)
    → IsKept s
    → n < 2 ^ 63
    → Fed s n r
    → IsKept r.1
Fed-IsKept s n r k small f = record {
  sound = f.sound;
  unheard = λ e.
      let silent = sym f.publishing_kept ∙ e in
      (f.flv_kept silent ∙ (k.unheard silent).0, f.media_kept silent ∙ (k.unheard silent).1);
  frugal = f.frugal small k.frugal;
}

write_flv_header-IsSound : (s : RtmpSession) → IsSound s → IsSound (write_flv_header s)
unfolding write_flv_header
write_flv_header-IsSound s v = IsSound-if s.flv_header_written s _ v λ _. record {
  position = v.position;
  some_chunk = v.some_chunk;
  chunk_bound = v.chunk_bound;
  slots = v.slots;
  fresh = v.fresh;
  partial = v.partial;
  counted = v.counted;
  capped = v.capped;
}

write_flv_header-publishing : (s : RtmpSession) → (write_flv_header s).publishing ≡ s.publishing
unfolding write_flv_header
write_flv_header-publishing s = ground arith

IsKept-if : (t : Bool) (a b : RtmpSession) → IsKept a → IsKept b → IsKept (if t then a else b)
IsKept-if true a b v w = v
IsKept-if false a b v w = w

-- A session that publishes has to keep to its bounds only.
heard-IsKept : (s : RtmpSession) → s.publishing ≡ true → IsSound s → IsKept s
heard-IsKept s h v = record {
  sound = v;
  unheard = λ e. absurd (ground (arith, e, h));
  frugal = λ e. absurd (ground (arith, e, h));
}

accept_publish-IsKept : (s : RtmpSession) → IsKept s → IsKept (accept_publish s)
unfolding accept_publish send_msg
accept_publish-IsKept s k = IsKept-if (not s.publish_pending) s _ k (
    heard-IsKept _ (write_flv_header-publishing _) (
      write_flv_header-IsSound _ (record {
        position = k.sound.position;
        some_chunk = k.sound.some_chunk;
        chunk_bound = k.sound.chunk_bound;
        slots = k.sound.slots;
        fresh = k.sound.fresh;
        partial = k.sound.partial;
        counted = k.sound.counted;
        capped = k.sound.capped;
      })))

reject_publish-IsKept :
    (s : RtmpSession) (code description : List ℕ)
    → IsKept s
    → IsKept (reject_publish s code description)
unfolding reject_publish send_msg
reject_publish-IsKept s code description k = record {
  sound = record {
    position = k.sound.position;
    some_chunk = k.sound.some_chunk;
    chunk_bound = k.sound.chunk_bound;
    slots = k.sound.slots;
    fresh = k.sound.fresh;
    partial = k.sound.partial;
    counted = k.sound.counted;
    capped = k.sound.capped;
  };
  unheard = k.unheard;
  frugal = λ e. ((k.frugal e).0, inl refl);
}

drop_nil : (n : ℕ) → drop {A = ℕ} n [] ≡ []
drop_nil zero = refl
drop_nil (suc n) = refl

peer_drained-IsKept :
    (s : RtmpSession) (n : ℕ) → IsKept s → IsKept (record s { to_peer = drop n s.to_peer })
peer_drained-IsKept s n k = record {
  sound = record {
    position = k.sound.position;
    some_chunk = k.sound.some_chunk;
    chunk_bound = k.sound.chunk_bound;
    slots = k.sound.slots;
    fresh = k.sound.fresh;
    partial = k.sound.partial;
    counted = k.sound.counted;
    capped = k.sound.capped;
  };
  unheard = k.unheard;
  frugal = k.frugal;
}

flv_drained-IsKept :
    (s : RtmpSession) (n : ℕ) → IsKept s → IsKept (record s { to_flv = drop n s.to_flv })
flv_drained-IsKept s n k = record {
  sound = record {
    position = k.sound.position;
    some_chunk = k.sound.some_chunk;
    chunk_bound = k.sound.chunk_bound;
    slots = k.sound.slots;
    fresh = k.sound.fresh;
    partial = k.sound.partial;
    counted = k.sound.counted;
    capped = k.sound.capped;
  };
  unheard = λ e. (ap (drop n) (k.unheard e).0 ∙ drop_nil n, (k.unheard e).1);
  frugal = k.frugal;
}

Reached-IsKept : (s : RtmpSession) → Reached s → IsKept s
Reached-IsKept _ begun = new_session-IsKept
Reached-IsKept _ (fed {s} {r} buf now h small e) =
    let k = Reached-IsKept s h in
    Fed-IsKept s (length buf) r k small (Returns-at (feed-Fed s buf now k.sound) e)
Reached-IsKept _ (resumed {s} {r} h e) =
    let k = Reached-IsKept s h in
    Fed-IsKept s 0 r k (omega arith) (Returns-at (resume-Fed s k.sound) e)
Reached-IsKept _ (accepted {s} h) = accept_publish-IsKept s (Reached-IsKept s h)
Reached-IsKept _ (rejected {s} code description h) =
    reject_publish-IsKept s code description (Reached-IsKept s h)
Reached-IsKept _ (peer_drained {s} n h) = peer_drained-IsKept s n (Reached-IsKept s h)
Reached-IsKept _ (flv_drained {s} n h) = flv_drained-IsKept s n (Reached-IsKept s h)

-- A read of any bytes at any time returns on every session that the operations lead to, by reads of
-- less than 2^63 bytes each: no byte out of bounds is read and the loop ends. Behind it, the streams
-- hold the bytes that are counted and at most 8 MiB, there are at most 256 of them, a chunk is at most
-- 1 MiB, and each stream holds nothing or the start of a message of at most 4 MiB.
pub Reached-feed :
    (s : RtmpSession) (buf : List ℕ) (now : ℕ)
    → Reached s
    → Returns (λ r. IsSound r.1) (feed s buf now)
Reached-feed s buf now h =
    Returns-weaken (feed-Fed s buf now (Reached-IsKept s h).sound) (λ r f. f.sound)

-- In every session that the operations lead to, by reads of less than 2^63 bytes each, no byte is
-- written for the backend, and no media is counted, before a publish is accepted.
pub Reached-unheard :
    (s : RtmpSession) → Reached s → s.publishing ≡ false → (s.to_flv ≡ []) × (s.media_bytes ≡ 0)
Reached-unheard s h e = (Reached-IsKept s h).unheard e

-- Before a publish is accepted, a session that the operations lead to, by reads of less than 2^63
-- bytes each, buffers at most 256 KiB of input.
pub Reached-frugal :
    (s : RtmpSession)
    → Reached s
    → s.publishing ≡ false
    → length s.input ≤ rtmp_prepublish_max_bytes
Reached-frugal s h e = ((Reached-IsKept s h).frugal e).0
