-- ===== src/Base/Bits.antt =====
-- Masks on bytes as arithmetic, each checked at every byte by evaluation.
use Prim.Native.Nat.{ℕ, zero, suc, ◌+◌, ◌*◌, ◌/◌, ◌%◌, ◌<◌, ◌^◌, bit_and, bit_or, bit_xor}
use mathlib.Core.Path.{◌≡◌, refl}
use mathlib.Core.Bool.{Bool, true, false, ◌&&◌, ◌||◌}
use native.Mathlib.Omega.{arith}
use support_proxy.Base.Tests.{◌==◌, ltb, ltb→lt, ==_iff}
use support_proxy.Base.Bytes.{has_bits}

every_below : ℕ → (ℕ → Bool) → Bool
every_below zero p = true
every_below (suc n) p = p n && every_below n p

every_below_at : (n : ℕ) (p : ℕ → Bool) (x : ℕ) → every_below n p ≡ true → x < n → p x ≡ true
unfolding every_below
every_below_at zero p x h lt = absurd (omega arith)
every_below_at (suc n) p x h lt = ground (arith, every_below_at n p x)

-- Two functions that agree at every number below `n`, by evaluation.
same_below :
    (n : ℕ) (f g : ℕ → ℕ) → every_below n (λ x. f x == g x) ≡ true → (x : ℕ) → x < n → f x ≡ g x
same_below n f g h x lt = (==_iff (f x) (g x)).0 (every_below_at n (λ y. f y == g y) x h lt)

pub low_four : (b : ℕ) → b < 256 → bit_and b 0x0F ≡ b % 16
unfolding every_below
low_four = same_below 256 (λ b. bit_and b 0x0F) (λ b. b % 16) refl

pub low_five : (b : ℕ) → b < 256 → bit_and b 0x1F ≡ b % 32
unfolding every_below
low_five = same_below 256 (λ b. bit_and b 0x1F) (λ b. b % 32) refl

pub low_seven : (b : ℕ) → b < 256 → bit_and b 0x7F ≡ b % 128
unfolding every_below
low_seven = same_below 256 (λ b. bit_and b 0x7F) (λ b. b % 128) refl

pub top_bit : (b : ℕ) → b < 256 → bit_and b 0x80 ≡ b / 128 * 128
unfolding every_below
top_bit = same_below 256 (λ b. bit_and b 0x80) (λ b. b / 128 * 128) refl

pub bit_three : (b : ℕ) → b < 16 → bit_and b 0x8 ≡ b / 8 * 8
unfolding every_below
bit_three = same_below 16 (λ b. bit_and b 0x8) (λ b. b / 8 * 8) refl

pub set_top_bit : (b : ℕ) → b < 128 → bit_or 0x80 b ≡ 128 + b
unfolding every_below
set_top_bit = same_below 128 (λ b. bit_or 0x80 b) (λ b. 128 + b) refl

xor_table : every_below 256 (λ k. every_below 256 (λ b. bit_xor (bit_xor b k) k == b)) ≡ true
unfolding every_below
xor_table = refl

pub xor_twice : (b k : ℕ) → b < 256 → k < 256 → bit_xor (bit_xor b k) k ≡ b
xor_twice b k hb hk = (==_iff _ b).0 (
    every_below_at 256 (λ c. bit_xor (bit_xor c k) k == c) b
      (every_below_at 256 (λ l. every_below 256 (λ c. bit_xor (bit_xor c l) l == c)) k xor_table hk)
      hb)

same_bool : Bool → Bool → Bool
same_bool true b = b
same_bool false true = false
same_bool false false = true

same_bool_lem : (a b : Bool) → same_bool a b ≡ true → a ≡ b
unfolding same_bool
same_bool_lem true true h = refl
same_bool_lem true false h = cc
same_bool_lem false true h = cc
same_bool_lem false false h = refl

or_table :
    every_below 8 (λ k. every_below 8 (λ l.
      every_below 256
        (λ b. same_bool (has_bits (bit_or b (2 ^ k)) (2 ^ l)) (k == l || has_bits b (2 ^ l)))))
    ≡ true
unfolding every_below same_bool
or_table = refl

-- A bit that is set is set, and the others are as they were.
pub has_bits-bit_or :
    (b k l : ℕ)
    → b < 256
    → k < 8
    → l < 8
    → has_bits (bit_or b (2 ^ k)) (2 ^ l) ≡ (k == l || has_bits b (2 ^ l))
has_bits-bit_or b k l hb hk hl =
    same_bool_lem _ _
      (every_below_at 256 _ b (every_below_at 8 _ l (every_below_at 8 _ k or_table hk) hl) hb)

or_byte_table : every_below 8 (λ k. every_below 256 (λ b. ltb (bit_or b (2 ^ k)) 256)) ≡ true
unfolding every_below
or_byte_table = refl

pub bit_or-byte : (b k : ℕ) → b < 256 → k < 8 → bit_or b (2 ^ k) < 256
bit_or-byte b k hb hk =
    ltb→lt _ _ (every_below_at 256 _ b (every_below_at 8 _ k or_byte_table hk) hb)

zero_table : every_below 8 (λ k. same_bool (has_bits 0 (2 ^ k)) false) ≡ true
unfolding every_below same_bool
zero_table = refl

pub has_bits_zero : (k : ℕ) → k < 8 → has_bits 0 (2 ^ k) ≡ false
has_bits_zero k hk = same_bool_lem _ _ (every_below_at 8 _ k zero_table hk)
