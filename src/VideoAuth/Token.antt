-- ===== src/VideoAuth/Token.antt =====
-- video_token_valid. HMAC with SHA256 is a parameter; a text has no NUL, as a C string.
pub mod Issue
use support_proxy.Base.{
  ℕ, zero, suc, ◌+◌, ◌-◌, ◌*◌, ◌/◌, ◌%◌, ◌^◌, Bool, true, false, not, ◌&&◌, ◌||◌, List, [], ◌∷◌,
  ◌++◌, Option, none, some, ltb, leb, ◌==◌, if◌then◌else◌, length, bytes_eq, codes,
}
use support_proxy.Http.{cut}
use support_proxy.Http.Query.{isxdigit, hex_value}

unfoldable pub is_digit : ℕ → Bool
is_digit c = leb 48 c && leb c 57

unfoldable pub is_space : ℕ → Bool
is_space c = c == 32 || (leb 9 c && leb c 13)

unfoldable pub number : ℕ → List ℕ → Option ℕ
number acc [] = some acc
number acc (c ∷ s) = let rest = number (10 * acc + (c - 48)) s in if is_digit c then rest else none

-- Digits to the end of the text, at least one.
unfoldable pub digits_only : List ℕ → Option ℕ
digits_only [] = none
digits_only (c ∷ s) = number 0 (c ∷ s)

-- A sign may stand in front; with a minus the number is not positive.
unfoldable pub signed_number : List ℕ → Option ℕ
signed_number [] = none
signed_number (c ∷ s) = if c == 43 then digits_only s else digits_only (c ∷ s)

unfoldable pub skip_spaces : List ℕ → Option ℕ
skip_spaces [] = none
skip_spaces (c ∷ s) = let rest = skip_spaces s in if is_space c then rest else signed_number (c ∷ s)

-- The expiry that strtoll reads to the base 10, if the whole text is a positive long long.
unfoldable pub expiry_of : List ℕ → Option ℕ
expiry_of text = elim (skip_spaces text) [
  | none ↦ none
  | some n ↦ if n == 0 || leb (2 ^ 63) n then none else some n
]

-- strtol of two characters to the base 16 as a byte, if it takes both.
unfoldable pub pair_value : ℕ → ℕ → Option ℕ
pair_value a b =
    if isxdigit a && isxdigit b
    then some (16 * hex_value a + hex_value b)
    else if isxdigit b && (is_space a || a == 43)
    then some (hex_value b)
    else if isxdigit b && a == 45
    then some ((256 - hex_value b) % 256)
    else none

unfoldable pub mac_bytes : List ℕ → Option (List ℕ)
mac_bytes [] = some []
mac_bytes (a ∷ []) = none
mac_bytes (a ∷ b ∷ s) = elim (pair_value a b) [
  | none ↦ none
  | some v ↦ elim (mac_bytes s) [ none ↦ none | some vs ↦ some (v ∷ vs) ]
]

-- printf of %d and %lld, for a number of at most `fuel` digits.
unfoldable pub decimal : ℕ → ℕ → List ℕ
decimal zero n = []
decimal (suc fuel) n =
    let front = decimal fuel (n / 10) in
    if ltb n 10 then (48 + n) ∷ [] else front ++ ((48 + n % 10) ∷ [])

unfoldable pub token_message : ℕ → ℕ → ℕ → List ℕ
token_message port2 slot expiry =
    codes "video-view|"
    ++ (decimal 20 port2 ++ (codes "|" ++ (decimal 20 slot ++ (codes "|" ++ decimal 20 expiry))))

unfoldable pub mac_matches : List ℕ → Option (List ℕ) → Bool
mac_matches want none = false
mac_matches want (some got) = bytes_eq want got

module _ (hmac : List ℕ → List ℕ → List ℕ) where
  unfoldable pub video_token_valid : List ℕ → ℕ → ℕ → List ℕ → ℕ → Bool
  video_token_valid secret port2 slot token now = elim (cut 46 token) [
    | none ↦ false
    | some p ↦ elim (expiry_of p.0) [
      | none ↦ false
      | some expiry ↦
          not (ltb expiry now)
          && (length p.1 == 64
              && (ltb (length (token_message port2 slot expiry)) 128
                  && mac_matches (hmac secret (token_message port2 slot expiry)) (mac_bytes p.1)))
    ]
  ]
