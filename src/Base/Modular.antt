-- ===== src/Base/Modular.antt =====
-- Remainders by a variable: where an index lands after a step of less than one lap.
use Prim.Native.Nat.{ℕ, ◌+◌, ◌-◌, ◌%◌, ◌≤◌, ◌<◌}
use mathlib.Core.Path.{◌≡◌, sym, ◌∙◌}
use mathlib.Core.Logic.{◌⊎◌, inl, inr}
use native.Mathlib.Omega.{arith}
use native.Mathlib.Decide.{dec_lt}
use native.Mathlib.Nat.{mod-add-mod, mod-eq_of_lt, mod-eq-sub-mod, mod-lt}

-- `w + j` stays on the lap of `w`, or falls on the next one.
pub mod-add_cases :
    (w j c : ℕ)
    → j < c
    → ((w % c + j < c) × ((w + j) % c ≡ w % c + j))
      ⊎ ((c ≤ w % c + j) × ((w + j) % c + c ≡ w % c + j))
mod-add_cases w j c h = elim (dec_lt (w % c + j) c) [
  | yes p ↦ inl (p, sym (mod-add-mod w c j) ∙ mod-eq_of_lt p)
  | no p ↦ inr (
    omega arith,
    omega (
      arith,
      mod-add-mod w c j,
      mod-eq-sub-mod {n = w % c + j} {m = c} (omega arith),
      mod-eq_of_lt {n = w % c + j - c} {m = c} (omega (arith, mod-lt w {m = c} (omega arith))),
    ),
  )
]
