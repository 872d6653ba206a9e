-- ===== src/Relay/Guard/Head.antt =====
-- Where the header of a request ends.
use support_proxy.Base.{
  ℕ, suc, ◌+◌, ◌≤◌, ◌<◌, ◌≡◌, ◌⊎◌, inl, inr, refl, sym, ap, ◌∙◌, Bool, true, false, ◌&&◌, List, [],
  ◌∷◌, ◌++◌, ◌==◌, if◌then◌else◌, length, take, drop, starts_with, append_assoc, take-append-drop,
  length-take, subst, arith,
}
use support_proxy.Relay.Guard.{header_end}

-- A text that ends in LF LF or in CR LF CR LF.
pub data EndsBlank : List ℕ → Type 0 where
  lines_lf : EndsBlank (10 ∷ 10 ∷ [])
  lines_crlf : EndsBlank (13 ∷ 10 ∷ 13 ∷ 10 ∷ [])
  behind : {b : ℕ} {p : List ℕ} → EndsBlank p → EndsBlank (b ∷ p)

-- A text with a blank line at its end, and no other before it.
pub record IsHead (head : List ℕ) : Type 0 where
  pub blank : EndsBlank head
  pub first : (p q : List ℕ) → p ++ q ≡ head → EndsBlank p → length head ≤ length p

starts_lf : (p : List ℕ) → starts_with (10 ∷ []) p ≡ true → take 1 p ≡ 10 ∷ []
starts_lf [] h = absurd (ground (arith, h))
starts_lf (a ∷ p) h = ap (λ (c : ℕ). c ∷ []) (ground (arith, h))

starts_crlf : (p : List ℕ) → starts_with (10 ∷ 13 ∷ 10 ∷ []) p ≡ true → take 3 p ≡ 10 ∷ 13 ∷ 10 ∷ []
starts_crlf [] h = absurd (ground (arith, h))
starts_crlf (a ∷ []) h = absurd (ground (arith, h))
starts_crlf (a ∷ b ∷ []) h = absurd (ground (arith, h))
starts_crlf (a ∷ b ∷ c ∷ p) h =
    let x : a ≡ 10 = ground (arith, h) in
    let y : b ≡ 13 = ground (arith, h) in let z : c ≡ 10 = ground (arith, h) in rw (x, y, z) refl

-- Nothing is found, or `n` is the end of a blank line in `p`, which starts at `i`.
Found : ℕ → List ℕ → ℕ → Type 0
Found i p n = (n ≡ 0) ⊎ ((k : ℕ) × (n ≡ i + k) × EndsBlank (take k p))

Found-test :
    (t : Bool) (i : ℕ) (p : List ℕ) (x y : ℕ)
    → (t ≡ true → Found i p x)
    → (t ≡ false → Found i p y)
    → Found i p (if t then x else y)
Found-test true i p x y f g = f refl
Found-test false i p x y f g = g refl

Found-behind : (i b : ℕ) (p : List ℕ) (n : ℕ) → Found (i + 1) p n → Found i (b ∷ p) n
unfolding Found
Found-behind i b p n (inl e) = inl e
Found-behind i b p n (inr (k, e, h)) = inr (suc k, omega (arith, e), behind h)

header_end-Found : (i : ℕ) (p : List ℕ) → Found i p (header_end i p)
unfolding header_end Found
header_end-Found i [] = inl refl
header_end-Found i (b ∷ p) =
    Found-test (b == 10 && starts_with (10 ∷ []) p) i (b ∷ p) _ _
      (λ e.
        let x : b ≡ 10 = ground (arith, e) in
        let y = starts_lf p (ground (arith, e)) in inr (2, refl, rw (x, y) lines_lf))
      (λ e.
        Found-test (b == 13 && starts_with (10 ∷ 13 ∷ 10 ∷ []) p) i (b ∷ p) _ _
          (λ f.
            let x : b ≡ 13 = ground (arith, f) in
            let y = starts_crlf p (ground (arith, f)) in inr (4, refl, rw (x, y) lines_crlf))
          (λ f. Found-behind i b p _ (header_end-Found (i + 1) p)))

two_bytes : {p : List ℕ} → EndsBlank p → 2 ≤ length p
two_bytes lines_lf = omega arith
two_bytes lines_crlf = omega arith
two_bytes (behind h) = omega (arith, two_bytes h)

three_bytes :
    {p : List ℕ} (q : List ℕ)
    → EndsBlank p
    → starts_with (10 ∷ 13 ∷ 10 ∷ []) (p ++ q) ≡ true
    → 3 ≤ length p
three_bytes q lines_lf e = absurd (ground (arith, e))
three_bytes q lines_crlf e = omega arith
three_bytes q (behind h) e = omega (arith, two_bytes h)

-- Where a blank line ends, one is found, and not behind it.
Within : ℕ → ℕ → ℕ → Type 0
Within i k n = (0 < n) × (n ≤ i + k)

Within-test :
    (t : Bool) (i k x y : ℕ)
    → (t ≡ true → Within i k x)
    → (t ≡ false → Within i k y)
    → Within i k (if t then x else y)
Within-test true i k x y f g = f refl
Within-test false i k x y f g = g refl

header_end-Within :
    (i : ℕ) {p : List ℕ} (q : List ℕ) → EndsBlank p → Within i (length p) (header_end i (p ++ q))
unfolding header_end Within
header_end-Within i q lines_lf = (omega arith, omega arith)
header_end-Within i q lines_crlf = (omega arith, omega arith)
header_end-Within i q (behind {b} {p} h) =
    Within-test (b == 10 && starts_with (10 ∷ []) (p ++ q)) i (suc (length p)) _ _
      (λ e. (omega arith, omega (arith, two_bytes h)))
      (λ e.
        Within-test (b == 13 && starts_with (10 ∷ 13 ∷ 10 ∷ []) (p ++ q)) i (suc (length p)) _ _
          (λ f. (omega arith, omega (arith, three_bytes q h (ground (arith, f)))))
          (λ f. let (pos, le) = header_end-Within (i + 1) q h in (pos, omega (arith, le))))

found_blank : (buf : List ℕ) (n : ℕ) → (n == 0) ≡ false → Found 0 buf n → EndsBlank (take n buf)
unfolding Found
found_blank buf n e (inl z) = absurd (ground (arith, e, z))
found_blank buf n e (inr (k, same, h)) = let at : n ≡ k = omega (arith, same) in rw at h

-- What header_end finds is the text up to the first blank line.
pub header_end-IsHead :
    (buf : List ℕ) → (header_end 0 buf == 0) ≡ false → IsHead (take (header_end 0 buf) buf)
unfolding Within
header_end-IsHead buf e =
    let n = header_end 0 buf in
    record {
      blank = found_blank buf n e (header_end-Found 0 buf);
      first = λ p q same h.
          let whole : p ++ (q ++ drop n buf) ≡ buf =
            sym (append_assoc p q (drop n buf))
            ∙ ap (λ (l : List ℕ). l ++ drop n buf) same
            ∙ take-append-drop n buf in
          let near : header_end 0 buf ≤ 0 + length p =
            subst (λ (l : List ℕ). header_end 0 l ≤ 0 + length p) whole
              (header_end-Within 0 (q ++ drop n buf) h).1 in
          omega (arith, near, length-take n buf);
    }
