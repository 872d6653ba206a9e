-- ===== src/Relay/Guard/Number.antt =====
-- The numbers that strtoull reads.
use support_proxy.Base.{
  ℕ, ◌+◌, ◌-◌, ◌*◌, ◌^◌, ◌%◌, ◌<◌, ◌≡◌, inl, inr, refl, ap, true, List, [], ◌∷◌, Option, none, some,
  ◌==◌, length, All, Bool-cases, arith,
}
use support_proxy.VideoAuth.Token.{is_digit, is_space, number, digits_only}
use support_proxy.Relay.Guard.{unsigned_number, in_range, negated}

-- The decimal value of digits, behind others of the value `acc`.
abbrev pub decimal : ℕ → List ℕ → ℕ
decimal acc [] = acc
decimal acc (c ∷ s) = decimal (10 * acc + (c - 48)) s

-- `m` is the number that the text writes: white space, perhaps a sign, and digits to the end, at
-- least one and of a value below 2^64; a minus takes the number from 2^64, as strtoull does.
pub data Writes : List ℕ → ℕ → Type 0 where
  digits :
      {s : List ℕ}
      → 0 < length s
      → All (λ c. is_digit c ≡ true) s
      → decimal 0 s < 2 ^ 64
      → Writes s (decimal 0 s)
  plus :
      {s : List ℕ}
      → 0 < length s
      → All (λ c. is_digit c ≡ true) s
      → decimal 0 s < 2 ^ 64
      → Writes (43 ∷ s) (decimal 0 s)
  minus :
      {s : List ℕ}
      → 0 < length s
      → All (λ c. is_digit c ≡ true) s
      → decimal 0 s < 2 ^ 64
      → Writes (45 ∷ s) ((2 ^ 64 - decimal 0 s) % 2 ^ 64)
  space : {c : ℕ} {s : List ℕ} {m : ℕ} → is_space c ≡ true → Writes s m → Writes (c ∷ s) m

number-Digits :
    (acc : ℕ) (s : List ℕ) (v : ℕ)
    → number acc s ≡ some v
    → All (λ c. is_digit c ≡ true) s × (v ≡ decimal acc s)
unfolding number
number-Digits acc [] v e = (tt, ground (arith, e))
number-Digits acc (c ∷ s) v e = elim (Bool-cases (is_digit c)) [
  | inl d ↦
      let (all, same) = number-Digits (10 * acc + (c - 48)) s v (rw d at e) in ((d, all), same)
  | inr d ↦ absurd (ground (arith, e, d))
]

digits_only-Digits :
    (s : List ℕ) (v : ℕ)
    → digits_only s ≡ some v
    → (0 < length s) × (All (λ c. is_digit c ≡ true) s) × (v ≡ decimal 0 s)
unfolding digits_only
digits_only-Digits [] v e = absurd (ground (arith, e))
digits_only-Digits (c ∷ s) v e =
    let (all, same) = number-Digits 0 (c ∷ s) v e in (omega arith, all, same)

in_range-Value : (o : Option ℕ) (v : ℕ) → in_range o ≡ some v → (o ≡ some v) × (v < 2 ^ 64)
in_range-Value none v e = absurd (ground (arith, e))
in_range-Value (some u) v e = (ap (λ (k : ℕ). some k) (ground (arith, e)), ground (arith, e))

negated-Value :
    (o : Option ℕ) (v : ℕ)
    → negated o ≡ some v
    → (u : ℕ) × (o ≡ some u) × (v ≡ (2 ^ 64 - u) % 2 ^ 64)
negated-Value none v e = absurd (ground (arith, e))
negated-Value (some u) v e = (u, refl, ground (arith, e))

in_range-Digits :
    (s : List ℕ) (v : ℕ)
    → in_range (digits_only s) ≡ some v
    → (0 < length s) × (All (λ c. is_digit c ≡ true) s) × (v ≡ decimal 0 s) × (decimal 0 s < 2 ^ 64)
in_range-Digits s v e =
    let (found, small) = in_range-Value (digits_only s) v e in
    let (some_len, all, same) = digits_only-Digits s v found in
    (some_len, all, same, rw same at small)

-- What unsigned_number reads is what the text writes.
pub unsigned_number-Writes : (s : List ℕ) (v : ℕ) → unsigned_number s ≡ some v → Writes s v
unfolding unsigned_number
unsigned_number-Writes [] v e = absurd (ground (arith, e))
unsigned_number-Writes (c ∷ s) v e = elim (Bool-cases (is_space c)) [
  | inl w ↦ space w (unsigned_number-Writes s v (rw w at e))
  | inr w ↦ elim (Bool-cases (c == 43)) [
    | inl p ↦
        let (len, all, same, small) = in_range-Digits s v (rw (w, p) at e) in
        let at : c ≡ 43 = ground (arith, p) in rw (at, same) (plus len all small)
    | inr p ↦ elim (Bool-cases (c == 45)) [
      | inl q ↦
          let (u, found, value) = negated-Value (in_range (digits_only s)) v (rw (w, p, q) at e) in
          let (len, all, same, small) = in_range-Digits s u found in
          let at : c ≡ 45 = ground (arith, q) in rw (at, value, same) (minus len all small)
      | inr q ↦
          let (len, all, same, small) = in_range-Digits (c ∷ s) v (rw (w, p, q) at e) in
          rw same (digits len all small)
    ]
  ]
]
