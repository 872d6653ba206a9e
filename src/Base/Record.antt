-- ===== src/Base/Record.antt =====
-- On-disk records of a fixed layout: what a reader takes of a record of any size, what a writer
-- puts over one, and the fields, little-endian.
use Prim.Native.Nat.{ℕ, zero, suc, ◌+◌, ◌-◌, ◌*◌, ◌≤◌, ◌<◌}
use mathlib.Core.Path.{◌≡◌, refl, ◌∙◌}
use mathlib.Core.List.{List, [], ◌++◌, append-nil}
use mathlib.Core.Option.{Option, none, some}
use native.Mathlib.Omega.{arith}
use support_proxy.Base.Lists.{
  length, take, drop, replicate, get_elem?, length-take, length-append, length-replicate,
  get_elem?-append_right, take-append,
}

-- memset(&e, 0, size); memcpy(&e, d, min(dsize, size)).
unfoldable pub zero_extend : ℕ → List ℕ → List ℕ
zero_extend size d = take size d ++ replicate (size - length d) 0

-- The bytes behind `size`, which a writer of that many keeps.
unfoldable pub tail_of : ℕ → Option (List ℕ) → List ℕ
tail_of size none = []
tail_of size (some d) = drop size d

-- The number at `off`, of `n` bytes; bytes that are not there count as 0.
unfoldable pub field : ℕ → ℕ → List ℕ → ℕ
field off zero d = 0
field off (suc n) d =
    let rest = field (off + 1) n d in
    elim (get_elem? d off) [ none ↦ 256 * rest | some b ↦ b + 256 * rest ]

pub length-zero_extend : (size : ℕ) (d : List ℕ) → length (zero_extend size d) ≡ size
unfolding zero_extend
length-zero_extend size d = omega (
  arith,
  length-append (take size d) (replicate (size - length d) (let z : ℕ = 0 in z)),
  length-take size d,
  length-replicate (size - length d) (let z : ℕ = 0 in z),
)

-- An entry of the reader's size is read back, whatever stands behind it.
pub zero_extend-append : (e t : List ℕ) → zero_extend (length e) (e ++ t) ≡ e
unfolding zero_extend
zero_extend-append e t =
    let none_missing : length e - length (e ++ t) ≡ 0 = omega (arith, length-append e t) in
    rw (none_missing, take-append e t) (append-nil e)

pub get_elem?-zeros : (n i : ℕ) → i < n → get_elem? (replicate n (let z : ℕ = 0 in z)) i ≡ some 0
get_elem?-zeros zero i h = absurd (omega arith)
get_elem?-zeros (suc n) zero h = refl
get_elem?-zeros (suc n) (suc i) h = get_elem?-zeros n i (omega arith)

-- A byte behind the record that was read is 0.
zero_extend_zero :
    (size i : ℕ) (d : List ℕ) → length d ≤ i → i < size → get_elem? (zero_extend size d) i ≡ some 0
unfolding zero_extend
zero_extend_zero size i d past h =
    get_elem?-append_right (take size d) (replicate (size - length d) 0) i
      (omega (arith, length-take size d))
    ∙ get_elem?-zeros (size - length d) (i - length (take size d))
        (omega (arith, length-take size d))

-- So is a field behind it.
pub field-zero_extend :
    (size off n : ℕ) (d : List ℕ)
    → length d ≤ off
    → off + n ≤ size
    → field off n (zero_extend size d) ≡ 0
unfolding field
field-zero_extend size off zero d past h = refl
field-zero_extend size off (suc n) d past h =
    let rest = field-zero_extend size (off + 1) n d (omega arith) (omega arith) in
    rw (zero_extend_zero size off d past (omega arith), field) (omega (arith, rest))
