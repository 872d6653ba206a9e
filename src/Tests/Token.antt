-- ===== src/Tests/Token.antt =====
-- A token that is made and shown.
use support_proxy.Base.{
  ℕ, zero, suc, ◌≡◌, refl, not, List, [], ◌∷◌, ◌++◌, some, codes, IsBytes, replicate, arith, ltb,
}
use support_proxy.VideoAuth.Token.{
  is_digit, is_space, number, digits_only, signed_number, skip_spaces, expiry_of, token_message,
  video_token_valid,
}
use support_proxy.VideoAuth.Token.Issue.{hex_of, video_token_valid-hex_of}

abbrev hmac : List ℕ → List ℕ → List ℕ
hmac secret msg = 1 ∷ 254 ∷ replicate 30 7

text_expiry : expiry_of (codes "17") ≡ some 17
unfolding expiry_of skip_spaces signed_number digits_only number is_digit is_space
text_expiry = refl

sevens : (n : ℕ) → IsBytes (replicate n 7)
sevens zero = tt
sevens (suc n) = (omega arith, sevens n)

video_token_valid-hex_of_example :
    video_token_valid hmac [] 5760 1
      (codes "17" ++ (46 ∷ hex_of (hmac [] (token_message 5760 1 17))))
      18
    ≡ not (ltb 17 18)
video_token_valid-hex_of_example =
    video_token_valid-hex_of hmac [] 5760 1 18 17 (codes "17") (refl, (refl, tt)) text_expiry refl
      (omega arith, (omega arith, sevens 30))
