-- ===== src/Rtmp/Reads.antt =====
-- A read of the socket.
use support_proxy.Base.{
  ℕ, ◌+◌, ◌%◌, ◌^◌, ◌≤◌, ◌<◌, ◌≡◌, ◌≢◌, ◌⊎◌, inl, inr, refl, sym, ◌∙◌, Bool, true, false, not, List,
  ◌++◌, some, length, length-append, arith, codes,
}
use support_proxy.Base.Returns.{Returns, returns, Returns-weaken, Returns-test, Returns-at}
use support_proxy.Rtmp.{
  RtmpSession, RtmpState, want_c0c1, want_c2, chunks, dead, fail, rtmp_prepublish_max_bytes,
}
use support_proxy.Rtmp.Feed.{alive, late, counted_in, buffered, feed, resume}
use support_proxy.Rtmp.Sound.{IsSound}
use support_proxy.Rtmp.Handled.{IsSound-at}
use support_proxy.Rtmp.Loop.{Ran, parsed-Ran}

-- What a session that does not publish holds of its input, within the bytes that came in.
abbrev pub IsFrugal : RtmpSession → Type 0
IsFrugal s =
    s.publishing ≡ false
    → (length s.input ≤ rtmp_prepublish_max_bytes)
      × ((s.state ≡ dead)
          ⊎ ((length s.input ≤ s.total_in) × (s.total_in ≤ rtmp_prepublish_max_bytes)))

-- What a read of `n` bytes may change.
pub record Fed (s : RtmpSession) (n : ℕ) (r : Bool × RtmpSession) : Type 0 where
  pub publishing_kept : (r.1).publishing ≡ s.publishing
  pub flv_kept : s.publishing ≡ false → (r.1).to_flv ≡ s.to_flv
  pub media_kept : s.publishing ≡ false → (r.1).media_bytes ≡ s.media_bytes
  pub sound : IsSound r.1
  pub frugal : n < 2 ^ 63 → IsFrugal s → IsFrugal r.1

Ran-IsFrugal :
    (s : RtmpSession) (r : Bool × RtmpSession)
    → Ran s r
    → (s.publishing ≡ false
        → (length s.input ≤ s.total_in) × (s.total_in ≤ rtmp_prepublish_max_bytes))
    → IsFrugal r.1
Ran-IsFrugal s r n h e =
    let b = h (sym n.publishing_kept ∙ e) in
    (
      omega (arith, n.shorter, b),
      inr (omega (arith, n.shorter, b, n.total_kept), omega (arith, b, n.total_kept)),
    )

dead-Fed : (s : RtmpSession) (n : ℕ) → IsSound s → Fed s n (false, s)
dead-Fed s n v = record {
  publishing_kept = refl;
  flv_kept = λ _. refl;
  media_kept = λ _. refl;
  sound = v;
  frugal = λ _ f. f;
}

late-Fed :
    (s : RtmpSession) (n now : ℕ) (why : List ℕ)
    → IsSound s
    → Fed s n (false, fail (counted_in s n now) why)
late-Fed s n now why v = record {
  publishing_kept = refl;
  flv_kept = λ _. refl;
  media_kept = λ _. refl;
  sound = IsSound-at s (fail (counted_in s n now) why) refl v.position v;
  frugal = λ _ f e. ((f e).0, inl refl);
}

alive_ne :
    (st : RtmpState)
    → elim st [ dead ↦ false | want_c0c1 ↦ true | want_c2 ↦ true | chunks ↦ true ] ≡ true
    → st ≢ dead
alive_ne dead e = λ _. absurd (ground (arith, e))
alive_ne want_c0c1 e = λ d. ground (arith, d)
alive_ne want_c2 e = λ d. ground (arith, d)
alive_ne chunks e = λ d. ground (arith, d)

live_bounds :
    (s : RtmpSession)
    → alive s ≡ true
    → (s.state ≡ dead) ⊎ ((length s.input ≤ s.total_in) × (s.total_in ≤ rtmp_prepublish_max_bytes))
    → (length s.input ≤ s.total_in) × (s.total_in ≤ rtmp_prepublish_max_bytes)
live_bounds s live (inl d) = absurd (alive_ne s.state live d)
live_bounds s live (inr b) = b

-- The bytes of a read are counted before they are buffered.
counted-IsFrugal :
    (s : RtmpSession) (buf : List ℕ) (now : ℕ)
    → alive s ≡ true
    → late (counted_in s (length buf) now) ≡ false
    → length buf < 2 ^ 63
    → IsFrugal s
    → s.publishing ≡ false
    → (length (s.input ++ buf) ≤ (s.total_in + length buf) % 2 ^ 64)
      × ((s.total_in + length buf) % 2 ^ 64 ≤ rtmp_prepublish_max_bytes)
unfolding late
counted-IsFrugal s buf now live early small f e =
    let b = live_bounds s live (f e).1 in
    (omega (arith, length-append s.input buf, b, small), ground (arith, early, e))

buffered-IsSound :
    (s : RtmpSession) (buf : List ℕ) (now : ℕ) → IsSound s → IsSound (buffered s buf now)
buffered-IsSound s buf now v =
    IsSound-at s (buffered s buf now) refl (omega (arith, length-append s.input buf, v.position)) v

-- A read of any bytes, at any time, returns on a session within its bounds: no byte out of bounds
-- is read, the loop ends, and the bounds hold behind it.
pub feed-Fed :
    (s : RtmpSession) (buf : List ℕ) (now : ℕ)
    → IsSound s
    → Returns (Fed s (length buf)) (feed s buf now)
unfolding feed
feed-Fed s buf now v =
    Returns-test (not (alive s)) (λ _. returns (dead-Fed s (length buf) v))
      (λ live.
        Returns-test (late (counted_in s (length buf) now))
          (λ _. returns (late-Fed s (length buf) now (codes "did not publish in time") v))
          (λ early.
            Returns-weaken (parsed-Ran (buffered s buf now) (buffered-IsSound s buf now v)) (λ r n.
              record {
                publishing_kept = n.publishing_kept;
                flv_kept = n.flv_kept;
                media_kept = n.media_kept;
                sound = n.sound;
                frugal = λ small f.
                    Ran-IsFrugal (buffered s buf now) r n
                      (counted-IsFrugal s buf now (ground (arith, live)) early small f);
              })))

pub resume-Fed : (s : RtmpSession) → IsSound s → Returns (Fed s 0) (resume s)
unfolding resume
resume-Fed s v =
    Returns-test (not (alive s)) (λ _. returns (dead-Fed s 0 v))
      (λ live. Returns-weaken (parsed-Ran s v) (λ r n. record {
        publishing_kept = n.publishing_kept;
        flv_kept = n.flv_kept;
        media_kept = n.media_kept;
        sound = n.sound;
        frugal = λ _ f. Ran-IsFrugal s r n (λ e. live_bounds s (ground (arith, live)) (f e).1);
      }))

not_alive :
    (st : RtmpState)
    → not (elim st [ dead ↦ false | want_c0c1 ↦ true | want_c2 ↦ true | chunks ↦ true ]) ≡ true
    → st ≡ dead
not_alive dead e = refl
not_alive want_c0c1 e = ground arith
not_alive want_c2 e = ground arith
not_alive chunks e = ground arith

read-Ran :
    (s : RtmpSession) (buf : List ℕ) (now : ℕ)
    → IsSound s
    → s.publishing ≡ true
    → s.state ≢ dead
    → Returns (Ran (buffered s buf now)) (feed s buf now)
unfolding feed late
read-Ran s buf now v publishing live =
    Returns-test (not (alive s)) (λ e. absurd (live (not_alive s.state e)))
      (λ _.
        Returns-test (late (counted_in s (length buf) now))
          (λ e. absurd (ground (arith, publishing, e)))
          (λ _. parsed-Ran (buffered s buf now) (buffered-IsSound s buf now v)))

-- A read of a live session that publishes, behind which no publish is pending, leaves all that was
-- buffered before in the buffer, consumed or not, followed by the bytes of the read.
pub feed_retains :
    (s : RtmpSession) (buf : List ℕ) (now : ℕ) (b : Bool) (s' : RtmpSession)
    → IsSound s
    → s.publishing ≡ true
    → s.state ≢ dead
    → feed s buf now ≡ some (b, s')
    → s'.publish_pending ≡ false
    → s'.input ≡ s.input ++ buf
feed_retains s buf now b s' v publishing live e settled =
    (Returns-at (read-Ran s buf now v publishing live) e).retained settled
