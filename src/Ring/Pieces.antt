-- ===== src/Ring/Pieces.antt =====
-- The two `memcpy` calls of `VideoRing::write` on their own: where each byte lands.
use support_proxy.Base.{
  ℕ, ◌+◌, ◌-◌, ◌%◌, ◌≤◌, ◌<◌, ◌≡◌, ◌∙◌, ap, inl, inr, List, arith, length, take, drop, get_elem?,
  memcpy, length-take, length-drop, length-memcpy, get_elem?-take, get_elem?-drop,
  get_elem?-memcpy_before, get_elem?-memcpy_inside, get_elem?-memcpy_after,
}
use support_proxy.Base.Modular.{mod-add_cases}
use native.Mathlib.Nat.{mod-lt}

module _ (buf : List ℕ) (w : ℕ) (src : List ℕ) where
  -- The copy in one piece, at an offset that is written and at one that is not.
  module _ (fits : w % length buf + length src ≤ length buf) where
    pub one_piece_new :
        (j : ℕ)
        → j < length src
        → get_elem? (memcpy buf (w % length buf) src) ((w + j) % length buf) ≡ get_elem? src j
    one_piece_new j h = elim (mod-add_cases w j (length buf) (omega arith)) [
      | inl (_, e) ↦ rw e (get_elem?-memcpy_inside buf (w % length buf) src fits j h)
      | inr (c, _) ↦ absurd (omega arith)
    ]

    pub one_piece_old :
        (i d : ℕ)
        → i + d ≡ w
        → 0 < d
        → d + length src ≤ length buf
        → d < length buf
        → get_elem? (memcpy buf (w % length buf) src) (i % length buf)
          ≡ get_elem? buf (i % length buf)
    one_piece_old i d e pos lap short = elim (mod-add_cases i d (length buf) short) [
      | inl (_, m) ↦
          get_elem?-memcpy_before buf (w % length buf) src fits (i % length buf)
            (omega (arith, ap (λ k. k % length buf) e))
      | inr (_, m) ↦
          get_elem?-memcpy_after buf (w % length buf) src fits (i % length buf)
            (omega (arith, ap (λ k. k % length buf) e))
    ]

  -- The copy in two pieces: to the end of the ring, and on from its start.
  module _ (over : length buf < w % length buf + length src) (short : length src ≤ length buf)
      (room : 0 < length buf) where
    unfoldable pub first : ℕ
    first = length buf - w % length buf

    unfoldable pub filled : List ℕ
    filled = memcpy buf (w % length buf) (take first src)

    len_first : length (take first src) ≡ first
    unfolding first
    len_first = omega (arith, length-take first src)

    len_rest : length (drop first src) ≡ length src - first
    len_rest = length-drop first src

    start_in : w % length buf < length buf
    start_in = mod-lt w room

    pub first_fits : w % length buf + length (take first src) ≤ length buf
    unfolding first
    first_fits = omega (arith, len_first, start_in)

    pub len_filled : length filled ≡ length buf
    unfolding filled
    len_filled = length-memcpy buf (w % length buf) (take first src) first_fits

    pub rest_fits : 0 + length (drop first src) ≤ length filled
    unfolding first
    rest_fits = omega (arith, len_rest, len_filled, start_in)

    pub two_piece_new :
        (j : ℕ)
        → j < length src
        → get_elem? (memcpy filled 0 (drop first src)) ((w + j) % length buf) ≡ get_elem? src j
    two_piece_new j h = elim (mod-add_cases w j (length buf) (omega arith)) [
      | inl (p, e) ↦
          let first_copy : get_elem? filled ((w + j) % length buf) ≡ get_elem? (take first src) j =
            unfold filled in
            rw e (
              get_elem?-memcpy_inside buf (w % length buf) (take first src) first_fits j
                (unfold first in omega (arith, len_first))) in
          get_elem?-memcpy_after filled 0 (drop first src) rest_fits ((w + j) % length buf)
            (unfold first in omega (arith, len_rest, start_in))
          ∙ first_copy
          ∙ get_elem?-take first src j (unfold first in omega arith)
      | inr (c, e) ↦
          let k : (w + j) % length buf ≡ 0 + (j - first) =
            unfold first in omega (arith, start_in) in
          rw k (
            get_elem?-memcpy_inside filled 0 (drop first src) rest_fits (j - first)
              (unfold first in omega (arith, len_rest, start_in)))
          ∙ get_elem?-drop first src (j - first)
          ∙ (let m : first + (j - first) ≡ j = unfold first in omega (arith, start_in) in rw m)
    ]

    pub two_piece_old :
        (i d : ℕ)
        → i + d ≡ w
        → 0 < d
        → d + length src ≤ length buf
        → d < length buf
        → get_elem? (memcpy filled 0 (drop first src)) (i % length buf)
          ≡ get_elem? buf (i % length buf)
    two_piece_old i d e pos lap small = elim (mod-add_cases i d (length buf) small) [
      | inl (_, m) ↦
          get_elem?-memcpy_after filled 0 (drop first src) rest_fits (i % length buf)
            (unfold first in omega (arith, len_rest, start_in, ap (λ k. k % length buf) e))
          ∙ (unfold filled in
              get_elem?-memcpy_before buf (w % length buf) (take first src) first_fits _
                (omega (arith, ap (λ k. k % length buf) e)))
      | inr (_, m) ↦ absurd (omega (arith, start_in, ap (λ k. k % length buf) e))
    ]
