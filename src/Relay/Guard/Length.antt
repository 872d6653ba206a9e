-- ===== src/Relay/Guard/Length.antt =====
-- What the Content-Length of a request says.
use support_proxy.Base.{
  ℕ, zero, suc, ◌+◌, ◌≤◌, ◌≡◌, inl, inr, refl, sym, ap, ◌∙◌, true, false, ◌&&◌, ◌||◌, List, [], ◌∷◌,
  ◌++◌, Option, none, some, ◌>>=◌, ◌==◌, ltb, leb, if◌then◌else◌, drop, starts_with, All,
  Bool-cases, codes, arith, bytes_eq,
}
use support_proxy.Http.{cut, pieces}
use support_proxy.Http.Request.{
  HttpRequest, chomp, lower, trim_left, trim_right, is_empty, is_blank, header_in, header,
  field_name, has_field, count_in, header_count,
}
use support_proxy.VideoAuth.Token.Issue.{bytes_eq_self}
use support_proxy.Relay.Guard.Number.{Writes, unsigned_number-Writes}
use support_proxy.Relay.Guard.{until_nul, unsigned_number, rtsp_max_body, body_length, no_bytes}

abbrev pub length_name : List ℕ
length_name = codes "content-length"

-- A line of the header with this name, in any case.
abbrev pub IsLength : List ℕ → Type 0
IsLength line = has_field length_name (chomp line) ≡ true

-- Just one of the lines is a Content-Length, and `value` is what stands behind its colon, less the
-- blanks around it.
pub data OneLength (value : List ℕ) : List (List ℕ) → Type 0 where
  this :
      {line : List ℕ} {lines : List (List ℕ)}
      → IsLength line
      → starts_with (length_name ++ codes ":") (lower (chomp line)) ≡ true
      → value ≡ trim_right (trim_left (drop 15 (chomp line)))
      → All (λ l. ¬ IsLength l) lines
      → OneLength value (line ∷ lines)
  later :
      {line : List ℕ} {lines : List (List ℕ)}
      → ¬ IsLength line
      → OneLength value lines
      → OneLength value (line ∷ lines)

-- The body behind these header lines has `m` bytes: none without a Content-Length, else what the
-- only one writes, up to a NUL.
pub data Sized (lines : List (List ℕ)) : ℕ → Type 0 where
  undeclared : All (λ l. ¬ IsLength l) lines → Sized lines 0
  declared :
      {value : List ℕ} {m : ℕ}
      → OneLength value lines
      → Writes (until_nul value) m
      → m ≤ rtsp_max_body
      → Sized lines m

abbrev low : ℕ → ℕ
low c = if leb 65 c && leb c 90 then c + 32 else c

low_colon : (c : ℕ) → (58 == low c) ≡ true → c ≡ 58
low_colon c e = ground (arith, e)

low_other : (x c : ℕ) → (x == 58) ≡ false → (x == low c) ≡ true → (c == 58) ≡ false
low_other x c e f = ground (arith, e, f)

low_blank : (c : ℕ) → is_blank (low c) ≡ is_blank c
low_blank c = ground arith

prefixed_name :
    (w line : List ℕ)
    → All (λ c. (c == 58) ≡ false) w
    → starts_with (w ++ (58 ∷ [])) (lower line) ≡ true
    → (name : List ℕ) × (rest : List ℕ) × (cut 58 line ≡ some (name, rest)) × (lower name ≡ w)
unfolding lower cut
prefixed_name [] [] all e = absurd (ground (arith, e))
prefixed_name [] (c ∷ s) all e = let x = low_colon c (ground (arith, e)) in ([], s, rw x refl, refl)
prefixed_name (x ∷ w) [] all e = absurd (ground (arith, e))
prefixed_name (x ∷ w) (c ∷ s) (other, all) e =
    let (name, rest, found, same) = prefixed_name w s all (ground (arith, e)) in
    let at : x ≡ low c = ground (arith, e) in
    let pass = low_other x c other (ground (arith, e)) in
    (
      c ∷ name,
      rest,
      rw (pass, found) refl,
      ap (λ (l : List ℕ). low c ∷ l) same ∙ ap (λ (h : ℕ). h ∷ w) (sym at),
    )

trim_step :
    (c : ℕ) (t : List ℕ)
    → lower (if is_empty t && is_blank c then [] else c ∷ t)
      ≡ (if is_empty (lower t) && is_blank (low c) then [] else low c ∷ lower t)
unfolding lower
trim_step c [] = elim (Bool-cases (is_blank c)) [
  | inl e ↦ rw (low_blank c, e) refl
  | inr e ↦ rw (low_blank c, e) refl
]
trim_step c (a ∷ t) = refl

trim_right-lower : (s : List ℕ) → lower (trim_right s) ≡ trim_right (lower s)
unfolding lower trim_right
trim_right-lower [] = refl
trim_right-lower (c ∷ s) = rw (sym (trim_right-lower s)) (trim_step c (trim_right s))

field_name-lower :
    (name w : List ℕ) → lower name ≡ w → trim_right w ≡ w → lower (field_name name) ≡ w
unfolding field_name
field_name-lower name w e f = elim (Bool-cases (is_empty (trim_right name))) [
  | inl x ↦ rw x e
  | inr x ↦ rw x (trim_right-lower name ∙ ap (λ l. trim_right l) e ∙ f)
]

same_bytes : (p q : List ℕ) → p ≡ q → bytes_eq p q ≡ true
same_bytes p q e = rw e (bytes_eq_self q)

no_colon : All (λ c. (c == 58) ≡ false) length_name
no_colon = ground arith

cut-has_field :
    (name rest line : List ℕ)
    → cut 58 line ≡ some (name, rest)
    → lower name ≡ length_name
    → has_field length_name line ≡ true
unfolding has_field trim_right
cut-has_field name rest line found same =
    rw (has_field, found) (same_bytes _ _ (field_name-lower name length_name same refl))

-- A line that header takes is one that header_count counts.
begins-IsLength :
    (line : List ℕ)
    → starts_with (length_name ++ codes ":") (lower (chomp line)) ≡ true
    → IsLength line
begins-IsLength line e =
    let (name, rest, found, same) = prefixed_name length_name (chomp line) no_colon e in
    cut-has_field name rest (chomp line) found same

none_counted : (ls : List (List ℕ)) → count_in length_name ls ≡ 0 → All (λ l. ¬ IsLength l) ls
unfolding count_in
none_counted [] e = tt
none_counted (l ∷ ls) e = elim (Bool-cases (has_field length_name (chomp l))) [
  | inl h ↦ absurd (ground (arith, e, h))
  | inr h ↦ ((λ x. ground (arith, x, h)), none_counted ls (ground (arith, e, h)))
]

none_begins :
    (ls : List (List ℕ)) → All (λ l. ¬ IsLength l) ls → header_in (length_name ++ codes ":") ls ≡ []
unfolding header_in
none_begins [] a = refl
none_begins (l ∷ ls) (n, a) =
    elim (Bool-cases (starts_with (length_name ++ codes ":") (lower (chomp l)))) [
      | inl h ↦ absurd (n (begins-IsLength l h))
      | inr h ↦ rw (header_in, h) (none_begins ls a)
    ]

one_counted :
    (ls : List (List ℕ))
    → count_in length_name ls ≡ 1
    → no_bytes (header_in (length_name ++ codes ":") ls) ≡ false
    → OneLength (header_in (length_name ++ codes ":") ls) ls
unfolding count_in header_in
one_counted [] e f = absurd (ground (arith, e))
one_counted (l ∷ ls) e f =
    let begins = Bool-cases (starts_with (length_name ++ codes ":") (lower (chomp l))) in
    elim (Bool-cases (has_field length_name (chomp l))) [
      | inl h ↦
          let none = none_counted ls (ground (arith, e, h)) in
          elim begins [
            | inl b ↦ rw (header_in, b) (this h b refl none)
            | inr b ↦
                let empty = none_begins ls none in
                absurd (ground (arith, rw (header_in, b, empty) at f))
          ]
      | inr h ↦ elim begins [
        | inl b ↦ absurd (ground (arith, h, begins-IsLength l b))
        | inr b ↦
            let rest = one_counted ls (ground (arith, e, h)) (rw (header_in, b) at f) in
            rw (header_in, b) (later (λ x. ground (arith, x, h)) rest)
      ]
    ]

limit :
    (o : Option ℕ) (m : ℕ)
    → (o >>= λ body. if ltb rtsp_max_body body then none else some body) ≡ some m
    → (o ≡ some m) × (m ≤ rtsp_max_body)
limit none m e = absurd (ground (arith, e))
limit (some u) m e = (ap (λ (k : ℕ). some k) (ground (arith, e)), ground (arith, e))

counted_once :
    (ls : List (List ℕ)) (n : ℕ)
    → count_in length_name ls ≡ n
    → n ≤ 1
    → no_bytes (header_in (length_name ++ codes ":") ls) ≡ false
    → count_in length_name ls ≡ 1
counted_once ls zero c le there =
    absurd (ground (arith, rw (none_begins ls (none_counted ls c)) at there))
counted_once ls (suc n) c le there = omega (arith, c, le)

lines-Sized :
    (ls : List (List ℕ)) (n : ℕ) (value : List ℕ) (m : ℕ)
    → count_in length_name ls ≡ n
    → header_in (length_name ++ codes ":") ls ≡ value
    → (if ltb 1 n || n == 1 && no_bytes value then none else if no_bytes value then some 0 else (do
      body ← unsigned_number (until_nul value)
      if ltb rtsp_max_body body then none else some body))
      ≡ some m
    → Sized ls m
lines-Sized ls n value m c h e = elim (Bool-cases (ltb 1 n || n == 1 && no_bytes value)) [
  | inl t ↦ absurd (ground (arith, rw t at e))
  | inr t ↦ elim (Bool-cases (no_bytes value)) [
    | inl z ↦
        let zero_length : m ≡ 0 = ground (arith, rw (t, z) at e) in
        let none : count_in length_name ls ≡ 0 = ground (arith, c, t, z) in
        rw zero_length (undeclared (none_counted ls none))
    | inr z ↦
        let (written, small) = limit (unsigned_number (until_nul value)) m (rw (t, z) at e) in
        let there : no_bytes (header_in (length_name ++ codes ":") ls) ≡ false = rw h z in
        let one = one_counted ls (counted_once ls n c (ground (arith, t)) there) there in
        declared (rw h at one) (unsigned_number-Writes (until_nul value) m written) small
  ]
]

-- The body length that the guard answers is what the request says.
pub body_length-Sized :
    (req : HttpRequest) (m : ℕ) → body_length req ≡ some m → Sized (pieces 10 req.headers) m
unfolding body_length header header_count lower
body_length-Sized req m e = lines-Sized (pieces 10 req.headers) _ _ m refl refl e
