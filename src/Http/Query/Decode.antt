-- ===== src/Http/Query/Decode.antt =====
-- Percent-encoding and back.
use support_proxy.Base.{
  ℕ, ◌+◌, ◌*◌, ◌/◌, ◌%◌, ◌<◌, ◌≡◌, refl, true, List, [], ◌∷◌, arith, ltb, if◌then◌else◌, IsBytes,
  ap,
}
use support_proxy.Http.Query.{isxdigit, hex_value, http_url_decode}

-- A digit to the base 16.
abbrev pub digit : ℕ → ℕ
digit d = if ltb d 10 then 48 + d else 55 + d

-- The percent-encoding of every byte.
abbrev pub encoded : List ℕ → List ℕ
encoded [] = []
encoded (b ∷ bs) = 37 ∷ digit (b / 16) ∷ digit (b % 16) ∷ encoded bs

pub isxdigit-digit : (d : ℕ) → d < 16 → isxdigit (digit d) ≡ true
unfolding isxdigit
isxdigit-digit d h = ground arith

pub hex_value-digit : (d : ℕ) → d < 16 → hex_value (digit d) ≡ d
unfolding hex_value
hex_value-digit d h = ground arith

-- Any bytes, percent-encoded, are decoded to themselves.
pub http_url_decode-encoded : (bs : List ℕ) → IsBytes bs → http_url_decode (encoded bs) ≡ bs
unfolding http_url_decode
http_url_decode-encoded [] h = refl
http_url_decode-encoded (b ∷ bs) (small, h) =
    let high : b / 16 < 16 = omega arith in
    let low : b % 16 < 16 = omega arith in
    let whole : 16 * (b / 16) + b % 16 ≡ b = omega arith in
    rw
      (
        isxdigit-digit (b / 16) high,
        isxdigit-digit (b % 16) low,
        http_url_decode,
        hex_value-digit (b / 16) high,
        hex_value-digit (b % 16) low,
        whole,
      )
      (ap (λ l. b ∷ l) (http_url_decode-encoded bs h))
