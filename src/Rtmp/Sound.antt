-- ===== src/Rtmp/Sound.antt =====
-- The bounds of a session, and what no step changes.
use native.Mathlib.Decide.{ℕ_discrete}
use support_proxy.Base.{
  ℕ, zero, suc, ◌+◌, ◌≤◌, ◌<◌, ◌≡◌, refl, sym, ap, Bool, true, false, ◌==◌, if◌then◌else◌, length,
  arith, ◌⊎◌, ◌≢◌,
}
use support_proxy.Rtmp.{
  ChunkStream, RtmpSession, rtmp_max_message_bytes, rtmp_max_chunk_size, rtmp_max_chunk_stream,
  rtmp_max_assembly_bytes,
}

-- The bytes that the first `n` streams hold.
unfoldable pub held : ℕ → (ℕ → ChunkStream) → ℕ
held zero f = 0
held (suc n) f = length (f n).acc + held n f

-- A stream holds nothing, or the start of a message that is not too large.
abbrev pub IsPartial : ChunkStream → Type 0
IsPartial c = (length c.acc ≡ 0) ⊎ (length c.acc < c.len) × (c.len ≤ rtmp_max_message_bytes)

abbrev pub stream_slots : ℕ
stream_slots = rtmp_max_chunk_stream + 1

pub record IsSound (s : RtmpSession) : Type 0 where
  pub position : s.in_pos ≤ length s.input
  pub some_chunk : 0 < s.in_chunk
  pub chunk_bound : s.in_chunk ≤ rtmp_max_chunk_size
  pub slots : s.stream_count ≤ stream_slots
  pub fresh : (k : ℕ) → s.stream_count ≤ k → length (s.streams k).acc ≡ 0
  pub partial : (k : ℕ) → IsPartial (s.streams k)
  pub counted : s.assembly_bytes ≡ held stream_slots s.streams
  pub capped : s.assembly_bytes ≤ rtmp_max_assembly_bytes

-- f with c at k
abbrev pub put : (ℕ → ChunkStream) → ℕ → ChunkStream → ℕ → ChunkStream
put f k c j = if j == k then c else f j

pub put-at : (f : ℕ → ChunkStream) (k : ℕ) (c : ChunkStream) → put f k c k ≡ c
put-at f k c = ground arith

pub put-other : (f : ℕ → ChunkStream) (k j : ℕ) (c : ChunkStream) → j ≢ k → put f k c j ≡ f j
put-other f k j c ne = ground (arith, ne)

held-put_above :
    (n k : ℕ) (f : ℕ → ChunkStream) (c : ChunkStream) → n ≤ k → held n (put f k c) ≡ held n f
unfolding held
held-put_above zero k f c h = refl
held-put_above (suc n) k f c h = omega (
  arith,
  ap (λ (x : ChunkStream). length x.acc) (put-other f k n c (λ e. absurd (omega (arith, e, h)))),
  held-put_above n k f c (omega (arith, h)),
)

pub held-put :
    (n k : ℕ) (f : ℕ → ChunkStream) (c : ChunkStream)
    → k < n
    → held n (put f k c) + length (f k).acc ≡ held n f + length c.acc
unfolding held
held-put zero k f c h = absurd (omega (arith, h))
held-put (suc n) k f c h = elim (ℕ_discrete k n) [
  | yes e ↦ omega (
    arith,
    ap (λ (x : ChunkStream). length x.acc) (put-at f k c),
    ap (λ j. length (put f k c j).acc) e,
    ap (λ j. length (f j).acc) e,
    held-put_above n k f c (omega (arith, e)),
  )
  | no ne ↦ omega (
    arith,
    ap (λ (x : ChunkStream). length x.acc) (put-other f k n c (λ e. ne (sym e))),
    held-put n k f c (omega (arith, h, ne)),
  )
]

pub held-below : (n k : ℕ) (f : ℕ → ChunkStream) → k < n → length (f k).acc ≤ held n f
unfolding held
held-below zero k f h = absurd (omega (arith, h))
held-below (suc n) k f h = elim (ℕ_discrete k n) [
  | yes e ↦ omega (arith, ap (λ j. length (f j).acc) e)
  | no ne ↦ omega (arith, held-below n k f (omega (arith, h, ne)))
]

IsPartial-if :
    (t : Bool) (c d : ChunkStream) → IsPartial c → IsPartial d → IsPartial (if t then c else d)
IsPartial-if true c d p q = p
IsPartial-if false c d p q = q

pub put-IsPartial :
    (f : ℕ → ChunkStream) (k : ℕ) (c : ChunkStream) (j : ℕ)
    → IsPartial c
    → IsPartial (f j)
    → IsPartial (put f k c j)
put-IsPartial f k c j p q = IsPartial-if (j == k) c (f j) p q
