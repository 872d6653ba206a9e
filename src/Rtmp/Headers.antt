-- ===== src/Rtmp/Headers.antt =====
-- The headers of a chunk are read within what is buffered.
use support_proxy.Base.{
  ℕ, zero, suc, ◌+◌, ◌%◌, ◌≤◌, ◌<◌, ◌≡◌, true, List, Option, none, some, ltb, leb, ◌==◌, length,
  arith,
}
use support_proxy.Base.Returns.{Returns, returns, Returns-then, Returns-test}
use support_proxy.Rtmp.{ChunkStream}
use support_proxy.Rtmp.Amf.Total.{Anything, get_elem?-Returns, be-Returns}
use support_proxy.Rtmp.Chunk.{
  BasicHeader, basic_header, mh, le, Fields, fields, want_ext, with_fields, message_header,
}

abbrev pub HasSize : Option BasicHeader → Type 0
HasSize none = Unit
HasSize (some b) = 0 < b.size

pub basic_header-Returns : (p : List ℕ) (i : ℕ) → Returns HasSize (basic_header p i)
unfolding basic_header
basic_header-Returns p i =
    Returns-test (leb (length p) i) (λ _. returns tt)
      (λ f. Returns-then (get_elem?-Returns p i (ground (arith, f))) (λ b0 _.
        Returns-test (b0 % 64 == 0)
          (λ _.
            Returns-test (ltb (length p) (i + 2)) (λ _. returns tt)
              (λ g.
                Returns-then (get_elem?-Returns p (i + 1) (ground (arith, g)))
                  (λ b1 _. returns (omega arith))))
          (λ _.
            Returns-test (b0 % 64 == 1)
              (λ _.
                Returns-test (ltb (length p) (i + 3)) (λ _. returns tt)
                  (λ g. Returns-then (get_elem?-Returns p (i + 1) (ground (arith, g))) (λ b1 _.
                    Returns-then (get_elem?-Returns p (i + 2) (ground (arith, g)))
                      (λ b2 _. returns (omega arith)))))
              (λ _. returns (omega arith)))))

le-Returns : (p : List ℕ) (n i : ℕ) → i + n ≤ length p → Returns Anything (le p n i)
unfolding le
le-Returns p zero i h = returns tt
le-Returns p (suc n) i h =
    Returns-then (get_elem?-Returns p i (omega (arith, h)))
      λ b _. Returns-then (le-Returns p n (i + 1) (omega (arith, h))) (λ v _. returns tt)

mh_short : (fmt : ℕ) → leb fmt 2 ≡ true → 3 ≤ mh fmt
unfolding mh
mh_short zero h = omega arith
mh_short (suc zero) h = omega arith
mh_short (suc (suc zero)) h = omega arith
mh_short (suc (suc (suc n))) h = absurd (ground (arith, h))

mh_long : (fmt : ℕ) → leb fmt 1 ≡ true → 7 ≤ mh fmt
unfolding mh
mh_long zero h = omega arith
mh_long (suc zero) h = omega arith
mh_long (suc (suc n)) h = absurd (ground (arith, h))

mh_full : (fmt : ℕ) → (fmt == 0) ≡ true → 11 ≤ mh fmt
unfolding mh
mh_full zero h = omega arith
mh_full (suc n) h = absurd (ground (arith, h))

fields-Returns :
    (p : List ℕ) (h fmt : ℕ) (c : ChunkStream)
    → h + mh fmt ≤ length p
    → Returns Anything (fields p h fmt c)
unfolding fields
fields-Returns p h fmt c le =
    Returns-then
      (Returns-test (leb fmt 2) (λ e. be-Returns p 3 h 0 (omega (arith, mh_short fmt e, le)))
        (λ _. returns tt))
      λ t _.
        Returns-then
          (Returns-test (leb fmt 1)
            (λ e. be-Returns p 3 (h + 3) 0 (omega (arith, mh_long fmt e, le))) (λ _. returns tt))
          λ l _.
            Returns-then
              (Returns-test (leb fmt 1)
                (λ e. get_elem?-Returns p (h + 6) (omega (arith, mh_long fmt e, le)))
                (λ _. returns tt))
              λ k _.
                Returns-then
                  (Returns-test (fmt == 0)
                    (λ e. le-Returns p 4 (h + 7) (omega (arith, mh_full fmt e, le)))
                    (λ _. returns tt))
                  λ d _. returns tt

with_fields-acc :
    (c : ChunkStream) (fmt : ℕ) (f : Fields) (ext : ℕ) → (with_fields c fmt f ext).acc ≡ c.acc
unfolding with_fields
with_fields-acc c fmt f ext = ground arith

-- A header keeps what the stream holds, and ends behind `h`.
abbrev pub HeaderEnds : ℕ → ChunkStream → Option (ChunkStream × ℕ) → Type 0
HeaderEnds h c none = Unit
HeaderEnds h c (some t) = (t.0).acc ≡ c.acc × (h ≤ t.1)

pub message_header-Returns :
    (p : List ℕ) (h fmt : ℕ) (c : ChunkStream) → Returns (HeaderEnds h c) (message_header p h fmt c)
unfolding message_header
message_header-Returns p h fmt c =
    Returns-test (ltb (length p) (h + mh fmt)) (λ _. returns tt)
      (λ e. Returns-then (fields-Returns p h fmt c (ground (arith, e))) (λ f _.
        Returns-test (want_ext fmt c f)
          (λ _.
            Returns-test (ltb (length p) (h + mh fmt + 4)) (λ _. returns tt)
              (λ g.
                Returns-then (be-Returns p 4 (h + mh fmt) 0 (ground (arith, g)))
                  (λ ext _. returns (with_fields-acc c fmt f ext, omega arith))))
          (λ _. returns (with_fields-acc c fmt f 0, omega arith))))
