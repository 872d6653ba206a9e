-- ===== src/Base/Memory.antt =====
-- Memory as a list of bytes: what `memcpy` leaves in the destination.
use Prim.Native.Nat.{ℕ, ◌+◌, ◌-◌, ◌≤◌, ◌<◌}
use mathlib.Core.Path.{◌≡◌, ◌∙◌}
use mathlib.Core.List.{List, ◌++◌}
use native.Mathlib.Omega.{arith}
use support_proxy.Base.Lists.{
  length, take, drop, get_elem?, length-take, length-drop, length-append, get_elem?-take,
  get_elem?-drop, get_elem?-append_left, get_elem?-append_right,
}

-- memcpy(dst + off, src, length src), for a copy that stays inside `dst`.
unfoldable pub memcpy {ℓ} : {A : Type ℓ} → List A → ℕ → List A → List A
memcpy dst off src = take off dst ++ (src ++ drop (off + length src) dst)

module _ {ℓ} {A : Type ℓ} (dst : List A) (off : ℕ) (src : List A) where
  module _ (fits : off + length src ≤ length dst) where
    pub length-memcpy : length (memcpy dst off src) ≡ length dst
    unfolding memcpy
    length-memcpy = omega (
      arith,
      length-append (take off dst) (src ++ drop (off + length src) dst),
      length-append src (drop (off + length src) dst),
      length-take off dst,
      length-drop (off + length src) dst,
    )

    len_front : length (take off dst) ≡ off
    len_front = omega (arith, length-take off dst)

    pub get_elem?-memcpy_before :
        (i : ℕ) → i < off → get_elem? (memcpy dst off src) i ≡ get_elem? dst i
    unfolding memcpy
    get_elem?-memcpy_before i h =
        get_elem?-append_left (take off dst) _ i (omega (arith, len_front))
        ∙ get_elem?-take off dst i h

    pub get_elem?-memcpy_inside :
        (i : ℕ) → i < length src → get_elem? (memcpy dst off src) (off + i) ≡ get_elem? src i
    unfolding memcpy
    get_elem?-memcpy_inside i h =
        get_elem?-append_right (take off dst) _ (off + i) (omega (arith, len_front))
        ∙ (let e : off + i - length (take off dst) ≡ i = omega (arith, len_front) in
            rw e (get_elem?-append_left src _ i h))

    pub get_elem?-memcpy_after :
        (i : ℕ) → off + length src ≤ i → get_elem? (memcpy dst off src) i ≡ get_elem? dst i
    unfolding memcpy
    get_elem?-memcpy_after i h =
        get_elem?-append_right (take off dst) _ i (omega (arith, len_front))
        ∙ get_elem?-append_right src _ (i - length (take off dst)) (omega (arith, len_front))
        ∙ get_elem?-drop (off + length src) dst (i - length (take off dst) - length src)
        ∙ (let e : off + length src + (i - length (take off dst) - length src) ≡ i =
              omega (arith, len_front) in
            rw e)
