-- ===== src/Binlog/Seen/Laws.antt =====
-- The bitmap is the set of the marked numbers.
use support_proxy.Base.{
  ℕ, zero, suc, ◌+◌, ◌-◌, ◌*◌, ◌/◌, ◌%◌, ◌^◌, ◌<◌, ◌≡◌, ◌≢◌, refl, sym, ap, ◌∙◌, subst, Bool, true,
  false, ◌||◌, List, [], ◌∷◌, ◌++◌, some, arith, inl, inr, bit_or, has_bits, leb, ◌==◌,
  if◌then◌else◌, length, replicate, get_elem?, Bool-cases, length-append, length-replicate,
  get_elem?-append_left, get_elem?-append_right, get_elem?-none, get_elem?-some,
}
use native.Mathlib.Decide.{dec_lt, ℕ_discrete}
use support_proxy.Base.Bits.{has_bits-bit_or, bit_or-byte, has_bits_zero}
use support_proxy.Binlog.Seen.{bit_at, seqno_seen, or_at, grown, mark_seqno_seen}

-- Every entry is a byte.
pub Bytewise : List ℕ → Type 0
Bytewise bs = (i b : ℕ) → get_elem? bs i ≡ some b → b < 256

or_at_self :
    (bs : List ℕ) (i bit b : ℕ)
    → get_elem? bs i ≡ some b
    → get_elem? (or_at bs i bit) i ≡ some (bit_or b bit)
unfolding or_at
or_at_self [] i bit b e = cc
or_at_self (x ∷ bs) zero bit b e = cc e
or_at_self (x ∷ bs) (suc i) bit b e = or_at_self bs i bit b e

or_at_ne : (bs : List ℕ) (i j bit : ℕ) → i ≢ j → get_elem? (or_at bs i bit) j ≡ get_elem? bs j
unfolding or_at
or_at_ne [] i j bit ne = refl
or_at_ne (x ∷ bs) zero zero bit ne = absurd (ne refl)
or_at_ne (x ∷ bs) zero (suc j) bit ne = refl
or_at_ne (x ∷ bs) (suc i) zero bit ne = refl
or_at_ne (x ∷ bs) (suc i) (suc j) bit ne = or_at_ne bs i j bit (λ e. ne (ap (λ (k : ℕ). suc k) e))

length-grown : (bs : List ℕ) (byte : ℕ) → byte < length (grown bs byte)
unfolding grown
length-grown bs byte =
    let round = (byte + 1 + 65535) / 65536 * 65536 in
    let n = round - length bs in
    ground (
      arith,
      length-append bs (replicate n (let z : ℕ = 0 in z)),
      length-replicate n (let z : ℕ = 0 in z),
    )

zeros_read : (n i k : ℕ) → k < 8 → bit_at (get_elem? (replicate n (let z : ℕ = 0 in z)) i) k ≡ false
unfolding bit_at
zeros_read zero i k h = refl
zeros_read (suc n) zero k h = has_bits_zero k h
zeros_read (suc n) (suc i) k h = zeros_read n i k h

zeros_bytes : (n i b : ℕ) → get_elem? (replicate n (let z : ℕ = 0 in z)) i ≡ some b → b < 256
zeros_bytes zero i b e = cc
zeros_bytes (suc n) zero b e = let q : 0 ≡ b = cc e in omega arith
zeros_bytes (suc n) (suc i) b e = zeros_bytes n i b e

bit_at-grown :
    (bs : List ℕ) (byte i k : ℕ)
    → k < 8
    → bit_at (get_elem? (grown bs byte) i) k ≡ bit_at (get_elem? bs i) k
unfolding grown bit_at
bit_at-grown bs byte i k h =
    let n = (byte + 1 + 65535) / 65536 * 65536 - length bs in
    elim (Bool-cases (leb (length bs) byte)) [
      | inr e ↦ rw e refl
      | inl e ↦ rw e (elim (dec_lt i (length bs)) [
        | yes p ↦ ap (λ o. bit_at o k) (get_elem?-append_left bs (replicate n 0) i p)
        | no p ↦
            ap (λ o. bit_at o k) (get_elem?-append_right bs (replicate n 0) i (omega arith))
            ∙ zeros_read n (i - length bs) k h
            ∙ sym (ap (λ o. bit_at o k) (get_elem?-none bs i (omega arith)))
      ])
    ]

append_zeros-Bytewise : (bs : List ℕ) (n : ℕ) → Bytewise bs → Bytewise (bs ++ replicate n 0)
unfolding Bytewise
append_zeros-Bytewise [] n h i b e = zeros_bytes n i b e
append_zeros-Bytewise (x ∷ bs) n h zero b e = h zero b e
append_zeros-Bytewise (x ∷ bs) n h (suc i) b e =
    append_zeros-Bytewise bs n (λ k c q. h (suc k) c q) i b e

either_Bytewise :
    (t : Bool) (x y : List ℕ) → Bytewise x → Bytewise y → Bytewise (if t then x else y)
either_Bytewise true x y g h = g
either_Bytewise false x y g h = h

grown-Bytewise : (bs : List ℕ) (byte : ℕ) → Bytewise bs → Bytewise (grown bs byte)
unfolding grown
grown-Bytewise bs byte h =
    either_Bytewise (leb (length bs) byte) _ bs
      (append_zeros-Bytewise bs ((byte + 1 + 65535) / 65536 * 65536 - length bs) h) h

or_at-Bytewise : (bs : List ℕ) (i k : ℕ) → k < 8 → Bytewise bs → Bytewise (or_at bs i (2 ^ k))
unfolding or_at Bytewise
or_at-Bytewise [] i k hk h j b e = cc
or_at-Bytewise (x ∷ bs) zero k hk h zero b e =
    let q : bit_or x (2 ^ k) ≡ b = cc e in
    subst (λ (c : ℕ). c < 256) q (bit_or-byte x k (h zero x refl) hk)
or_at-Bytewise (x ∷ bs) zero k hk h (suc j) b e = h (suc j) b e
or_at-Bytewise (x ∷ bs) (suc i) k hk h zero b e = h zero b e
or_at-Bytewise (x ∷ bs) (suc i) k hk h (suc j) b e =
    or_at-Bytewise bs i k hk (λ l c q. h (suc l) c q) j b e

pub mark_seqno_seen-Bytewise : (bs : List ℕ) (s : ℕ) → Bytewise bs → Bytewise (mark_seqno_seen bs s)
unfolding mark_seqno_seen
mark_seqno_seen-Bytewise bs s h =
    or_at-Bytewise (grown bs (s / 8)) (s / 8) (s % 8) (omega arith) (grown-Bytewise bs (s / 8) h)

other_byte : (s t : ℕ) → s / 8 ≢ t / 8 → (s == t) ≡ false
other_byte s t ne = elim (ℕ_discrete s t) [
  | yes e ↦ absurd (ne (ap (λ (n : ℕ). n / 8) e))
  | no n ↦ ground arith
]

same_byte : (s t : ℕ) → s / 8 ≡ t / 8 → (s % 8 == t % 8) ≡ (s == t)
same_byte s t e = ground arith

-- Marking a block adds it to the blocks that were seen, and neither adds nor removes another,
-- whether the bitmap grows or not; for a bitmap of bytes.
pub seqno_seen-mark :
    (bs : List ℕ) (s t : ℕ)
    → Bytewise bs
    → seqno_seen (mark_seqno_seen bs s) t ≡ (s == t || seqno_seen bs t)
unfolding seqno_seen mark_seqno_seen bit_at Bytewise
seqno_seen-mark bs s t h =
    let g = grown bs (s / 8) in
    let was = bit_at-grown bs (s / 8) (t / 8) (t % 8) (omega arith) in
    elim (ℕ_discrete (s / 8) (t / 8)) [
      | no ne ↦
          rw (or_at_ne g (s / 8) (t / 8) (2 ^ (s % 8)) ne)
            (was ∙ sym (ap (λ c. c || seqno_seen bs t) (other_byte s t ne)))
      | yes e ↦
          let (b, eb) = get_elem?-some g (s / 8) (length-grown bs (s / 8)) in
          let set : get_elem? (or_at g (s / 8) (2 ^ (s % 8))) (t / 8)
              ≡ some (bit_or b (2 ^ (s % 8))) =
            ap (λ k. get_elem? (or_at g (s / 8) (2 ^ (s % 8))) k) (sym e)
            ∙ or_at_self g (s / 8) (2 ^ (s % 8)) b eb in
          let old : has_bits b (2 ^ (t % 8)) ≡ seqno_seen bs t =
            sym (ap (λ o. bit_at o (t % 8)) (ap (λ k. get_elem? g k) (sym e) ∙ eb)) ∙ was in
          ap (λ o. bit_at o (t % 8)) set
          ∙ has_bits-bit_or b (s % 8) (t % 8) (grown-Bytewise bs (s / 8) h (s / 8) b eb)
              (omega arith) (omega arith)
          ∙ ap (λ c. c || has_bits b (2 ^ (t % 8))) (same_byte s t e)
          ∙ ap (λ c. s == t || c) old
    ]

pub nil-Bytewise : Bytewise []
unfolding Bytewise
nil-Bytewise i b e = cc
