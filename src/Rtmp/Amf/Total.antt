-- ===== src/Rtmp/Amf/Total.antt =====
-- Reading AMF returns, and what is skipped lies within the message.
use support_proxy.Base.{
  ℕ, zero, suc, ◌+◌, ◌*◌, ◌≤◌, ◌<◌, ◌≡◌, refl, Bool, true, false, not, ◌&&◌, ◌||◌, List, [], ◌∷◌,
  Option, none, some, ltb, leb, ◌==◌, length, take, drop, get_elem?, arith, leb→le, bytes_eq,
}
use support_proxy.Base.Returns.{Returns, returns, Returns-then, Returns-weaken, Returns-test}
use support_proxy.Rtmp.Amf.{
  be, Skip, object_end, then_from, amf_skip_object_body, skip_elements, skip_strict_array,
  skip_text, skip_value, amf_skip, amf_levels, amf_read_string, amf_read_number, Members, members,
  member_value, amf_object_strings, noted, with_string,
}

abbrev pub Anything {ℓ} : {A : Type ℓ} → A → Type 0
Anything a = Unit

pub get_elem?-Returns : (p : List ℕ) (i : ℕ) → i < length p → Returns Anything (get_elem? p i)
get_elem?-Returns [] i h = absurd (omega (arith, h))
get_elem?-Returns (b ∷ p) zero h = returns tt
get_elem?-Returns (b ∷ p) (suc i) h = get_elem?-Returns p i (omega (arith, h))

pub be-Returns : (p : List ℕ) (n i acc : ℕ) → i + n ≤ length p → Returns Anything (be p n i acc)
unfolding be
be-Returns p zero i acc h = returns tt
be-Returns p (suc n) i acc h =
    Returns-then (get_elem?-Returns p i (omega (arith, h)))
      λ b _. be-Returns p n (i + 1) (acc * 256 + b) (omega (arith, h))

-- A value that was skipped ends behind `i` and within the message.
abbrev pub Within : List ℕ → ℕ → Skip → Type 0
Within p i r = r.0 ≡ true → (i ≤ r.1) × (r.1 ≤ length p)

abbrev pub Skips : List ℕ → (ℕ → Option Skip) → Type 0
Skips p skip = (i : ℕ) → Returns (Within p i) (skip i)

then_from-Within :
    (p : List ℕ) (i k : ℕ) (r : Skip) (next : ℕ → Option Skip)
    → Within p k r
    → (k ≤ r.1 → r.1 ≤ length p → Returns (Within p i) (next r.1))
    → Returns (Within p i) (then_from r next)
then_from-Within p i k (true, j) next w go = go ((w refl).0) ((w refl).1)
then_from-Within p i k (false, j) next w go = returns (λ e. ground arith)

object_end-Within : (p : List ℕ) (i : ℕ) → Returns (Within p i) (object_end p i)
unfolding object_end
object_end-Within p i =
    Returns-test (leb (length p) i) (λ _. returns (λ e. ground arith))
      (λ f. Returns-then (get_elem?-Returns p i (ground arith)) (λ m _.
        Returns-test (m == 9) (λ _. returns (λ e. ground arith))
          (λ _. returns (λ e. ground arith))))

no_skip : (p : List ℕ) (i j : ℕ) → Returns (Within p i) (some (false, j))
no_skip p i j = returns (λ e. ground arith)

object_body-Within :
    (skip : ℕ → Option Skip) (fuel : ℕ) (p : List ℕ) (i : ℕ)
    → Skips p skip
    → i ≤ length p
    → length p < fuel + i
    → Returns (Within p i) (amf_skip_object_body skip fuel p i)
unfolding amf_skip_object_body
object_body-Within skip zero p i skips le h = absurd (omega (arith, le, h))
object_body-Within skip (suc fuel) p i skips le h =
    Returns-test (ltb (length p) (i + 2)) (λ _. no_skip p i i)
      (λ f. Returns-then (be-Returns p 2 i 0 (ground arith)) (λ klen _.
        Returns-test (klen == 0)
          (λ _.
            Returns-weaken (object_end-Within p (i + 2)) (λ r w e. (omega (arith, w e), (w e).1)))
          (λ _.
            Returns-test (ltb (length p) (i + 2 + klen)) (λ _. no_skip p i (i + 2))
              (λ g. Returns-then (skips (i + 2 + klen)) (λ r w.
                then_from-Within p i (i + 2 + klen) r (λ j. amf_skip_object_body skip fuel p j) w
                  (λ lo hi.
                    Returns-weaken
                      (object_body-Within skip fuel p r.1 skips hi (omega (arith, lo, h)))
                      (λ r' w' e. (omega (arith, w' e, lo), (w' e).1))))))))

skip_elements-Within :
    (skip : ℕ → Option Skip) (k : ℕ) (p : List ℕ) (i : ℕ)
    → Skips p skip
    → i ≤ length p
    → Returns (Within p i) (skip_elements skip k i)
unfolding skip_elements
skip_elements-Within skip zero p i skips h = returns (λ e. (omega arith, h))
skip_elements-Within skip (suc k) p i skips h = Returns-then (skips i) λ r w.
    then_from-Within p i i r (λ j. skip_elements skip k j) w
      (λ lo hi.
        Returns-weaken (skip_elements-Within skip k p r.1 skips hi)
          (λ r' w' e. (omega (arith, w' e, lo), (w' e).1)))

strict_array-Within :
    (skip : ℕ → Option Skip) (p : List ℕ) (i : ℕ)
    → Skips p skip
    → Returns (Within p i) (skip_strict_array skip p i)
unfolding skip_strict_array
strict_array-Within skip p i skips =
    Returns-test (ltb (length p) (i + 4)) (λ _. no_skip p i i)
      (λ f. Returns-then (be-Returns p 4 i 0 (ground arith)) (λ cnt _.
        Returns-test (ltb (length p) cnt) (λ _. no_skip p i (i + 4))
          (λ _.
            Returns-weaken (skip_elements-Within skip cnt p (i + 4) skips (ground arith))
              (λ r w e. (omega (arith, w e), (w e).1)))))

skip_text-Within : (p : List ℕ) (w i : ℕ) → Returns (Within p i) (skip_text p w i)
unfolding skip_text
skip_text-Within p w i =
    Returns-test (ltb (length p) (i + w)) (λ _. no_skip p i i)
      (λ f.
        Returns-then (be-Returns p w i 0 (ground arith))
          (λ len _. returns (λ e. (omega arith, leb→le (i + w + len) (length p) e))))

skip_value-Within :
    (skip : ℕ → Option Skip) (p : List ℕ) (m i : ℕ)
    → Skips p skip
    → i ≤ length p
    → Returns (Within p i) (skip_value skip p m i)
unfolding skip_value
skip_value-Within skip p m i skips h =
    let to : (n : ℕ) → Returns (Within p i) (some (leb (i + n) (length p), i + n)) =
      λ n. returns (λ e. (omega arith, leb→le (i + n) (length p) e)) in
    Returns-test (m == 0) (λ _. to 8)
      (λ _.
        Returns-test (m == 1) (λ _. to 1)
          (λ _.
            Returns-test (m == 2) (λ _. skip_text-Within p 2 i)
              (λ _.
                Returns-test (m == 12) (λ _. skip_text-Within p 4 i)
                  (λ _.
                    Returns-test (m == 5 || m == 6) (λ _. returns (λ e. (omega arith, h)))
                      (λ _.
                        Returns-test (m == 7) (λ _. to 2)
                          (λ _.
                            Returns-test (m == 11) (λ _. to 10)
                              (λ _.
                                Returns-test (m == 3)
                                  (λ _.
                                    object_body-Within skip (length p + 1) p i skips h
                                      (omega arith))
                                  (λ _.
                                    Returns-test (m == 8)
                                      (λ _.
                                        Returns-test (ltb (length p) (i + 4))
                                          (λ _. no_skip p i (i + 4))
                                          (λ g.
                                            Returns-weaken
                                              (object_body-Within skip (length p + 1) p (i + 4)
                                                skips (ground arith) (omega arith))
                                              (λ r w e. (omega (arith, w e), (w e).1))))
                                      (λ _.
                                        Returns-test (m == 10)
                                          (λ _. strict_array-Within skip p i skips)
                                          (λ _. returns (λ e. (omega arith, h))))))))))))

-- Skipping a value neither reads out of bounds nor ends out of the message, whatever the bytes are,
-- at each depth and from each index; a value that was skipped ends behind where it began.
pub amf_skip-Within : (levels : ℕ) (p : List ℕ) (i : ℕ) → Returns (Within p i) (amf_skip levels p i)
unfolding amf_skip
amf_skip-Within zero p i = no_skip p i i
amf_skip-Within (suc levels) p i =
    Returns-test (leb (length p) i) (λ _. no_skip p i i)
      (λ f. Returns-then (get_elem?-Returns p i (ground arith)) (λ m _.
        Returns-weaken
          (skip_value-Within (λ j. amf_skip levels p j) p m (i + 1)
            (λ j. amf_skip-Within levels p j) (ground arith))
          (λ r w e. (omega (arith, w e), (w e).1))))

-- A string that was read ends behind `i`, within the message.
abbrev pub Ends : List ℕ → ℕ → Option (List ℕ × ℕ) → Type 0
Ends p i none = Unit
Ends p i (some t) = (i < t.1) × (t.1 ≤ length p)

pub amf_read_string-Returns : (p : List ℕ) (i : ℕ) → Returns (Ends p i) (amf_read_string p i)
unfolding amf_read_string
amf_read_string-Returns p i =
    Returns-test (leb (length p) i) (λ _. returns tt)
      (λ f. Returns-then (get_elem?-Returns p i (ground arith)) (λ m _.
        Returns-test (not (m == 2) || ltb (length p) (i + 3)) (λ _. returns tt)
          (λ g. Returns-then (be-Returns p 2 (i + 1) 0 (ground arith)) (λ len _.
            Returns-test (ltb (length p) (i + 3 + len)) (λ _. returns tt)
              (λ g'. returns (omega arith, ground arith))))))

pub amf_read_number-Returns : (p : List ℕ) (i : ℕ) → Returns Anything (amf_read_number p i)
unfolding amf_read_number
amf_read_number-Returns p i =
    Returns-test (leb (length p) i) (λ _. returns tt)
      (λ f. Returns-then (get_elem?-Returns p i (ground arith)) (λ m _.
        Returns-test (not (m == 0) || ltb (length p) (i + 9)) (λ _. returns tt)
          (λ g. Returns-then (be-Returns p 8 (i + 1) 0 (ground arith)) (λ d _. returns tt))))

member_value-Returns :
    (p : List ℕ) (i : ℕ) (ms : Members) (is1 is2 : Bool) (t : Option (List ℕ × ℕ))
    (next : ℕ → Members → Option (Bool × Members))
    → Ends p i t
    → ((j : ℕ) (ms' : Members) → i ≤ j → j ≤ length p → Returns Anything (next j ms'))
    → Returns Anything (member_value p i ms is1 is2 t next)
unfolding member_value
member_value-Returns p i ms is1 is2 (some t) next h k =
    k t.1 (with_string ms is1 is2 t.0) (omega (arith, h)) (h.1)
member_value-Returns p i ms is1 is2 none next h k =
    Returns-then (amf_skip-Within amf_levels p i) (λ r w. after r w)
  where
    after :
        (r : Skip)
        → Within p i r
        → Returns {A = Bool × Members} Anything
            (elim (r.0) [ true ↦ next r.1 ms | false ↦ some (false, ms) ])
    after (true, j) w = k j ms ((w refl).0) ((w refl).1)
    after (false, j) w = returns tt

members-Returns :
    (fuel : ℕ) (p k1 k2 : List ℕ) (i : ℕ) (ms : Members)
    → 0 < fuel
    → length p < fuel + i
    → Returns Anything (members fuel p k1 k2 i ms)
unfolding members
members-Returns zero p k1 k2 i ms pos h = absurd (omega (arith, pos))
members-Returns (suc fuel) p k1 k2 i ms pos h =
    Returns-test (ltb (length p) (i + 2)) (λ _. returns tt)
      (λ f. Returns-then (be-Returns p 2 i 0 (ground arith)) (λ klen _.
        let j = i + 2 + klen in
        let key = take klen (drop (i + 2) p) in
        let is1 = bytes_eq key k1 in
        let is2 = bytes_eq key k2 in
        Returns-test (klen == 0)
          (λ _. Returns-then (object_end-Within p (i + 2)) (λ r _. returns tt))
          (λ _.
            Returns-test (ltb (length p) j || (is1 && ms.have1 || is2 && ms.have2))
              (λ _. returns tt)
              (λ g. Returns-then (amf_read_string-Returns p j) (λ t e.
                member_value-Returns p j (noted ms is1 is2) is1 is2 t
                  (λ k ms'. members fuel p k1 k2 k ms') e
                  (λ k ms' lo hi.
                    members-Returns fuel p k1 k2 k ms' (omega (arith, lo, hi, h))
                      (omega (arith, lo, hi, h))))))))

pub amf_object_strings-Returns :
    (p : List ℕ) (i : ℕ) (k1 v1 k2 : List ℕ) → Returns Anything (amf_object_strings p i k1 v1 k2)
unfolding amf_object_strings
amf_object_strings-Returns p i k1 v1 k2 =
    Returns-test (leb (length p) i) (λ _. returns tt)
      (λ f. Returns-then (get_elem?-Returns p i (ground arith)) (λ m _.
        Returns-test (m == 8)
          (λ _. members-Returns (length p + 1) p k1 k2 (i + 5) _ (omega arith) (omega arith))
          (λ _.
            Returns-test (m == 3)
              (λ _. members-Returns (length p + 1) p k1 k2 (i + 1) _ (omega arith) (omega arith))
              (λ _. Returns-then (amf_skip-Within amf_levels p i) (λ r _. returns tt)))))
