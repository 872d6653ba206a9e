-- ===== src/VideoAuth/Token/Issue.antt =====
-- A token as it is made for a viewer.
use support_proxy.Base.{
  ℕ, zero, suc, ◌+◌, ◌*◌, ◌/◌, ◌%◌, ◌≤◌, ◌<◌, ◌≡◌, refl, true, not, List, [], ◌∷◌, ◌++◌, some,
  arith, inl, inr, ltb, ◌==◌, length, length-append, bytes_eq, codes, IsBytes, Bool-cases,
}
use support_proxy.Http.Query.Decode.{digit, isxdigit-digit, hex_value-digit}
use support_proxy.Http.Query.Params.{Lacks, cut_at}
use support_proxy.VideoAuth.Token.{
  expiry_of, pair_value, mac_bytes, decimal, token_message, mac_matches, video_token_valid,
}

-- The hexadecimal text of bytes.
abbrev pub hex_of : List ℕ → List ℕ
hex_of [] = []
hex_of (b ∷ bs) = digit (b / 16) ∷ digit (b % 16) ∷ hex_of bs

mac_bytes-hex_of : (bs : List ℕ) → IsBytes bs → mac_bytes (hex_of bs) ≡ some bs
unfolding mac_bytes pair_value
mac_bytes-hex_of [] h = refl
mac_bytes-hex_of (b ∷ bs) (small, h) =
    let high : b / 16 < 16 = omega arith in
    let low : b % 16 < 16 = omega arith in
    let whole : 16 * (b / 16) + b % 16 ≡ b = omega arith in
    rw
      (
        mac_bytes,
        isxdigit-digit (b / 16) high,
        isxdigit-digit (b % 16) low,
        mac_bytes-hex_of bs h,
        hex_value-digit (b / 16) high,
        hex_value-digit (b % 16) low,
        whole,
      )
      refl

length-hex_of : (bs : List ℕ) → length (hex_of bs) ≡ 2 * length bs
length-hex_of [] = omega arith
length-hex_of (b ∷ bs) = omega (arith, length-hex_of bs)

length-decimal : (fuel n : ℕ) → length (decimal fuel n) ≤ fuel
unfolding decimal
length-decimal zero n = omega arith
length-decimal (suc fuel) n =
    let front = decimal fuel (n / 10) in
    elim (Bool-cases (ltb n 10)) [
      | inl e ↦ rw e (omega arith)
      | inr e ↦
          rw e
            (omega (arith, length-append front ((48 + n % 10) ∷ []), length-decimal fuel (n / 10)))
    ]

length-token_message : (port2 slot expiry : ℕ) → length (token_message port2 slot expiry) < 128
unfolding token_message
length-token_message port2 slot expiry =
    let p = decimal 20 port2 in
    let s = decimal 20 slot in
    let x = decimal 20 expiry in
    omega (
      arith,
      length-append p (codes "|" ++ (s ++ (codes "|" ++ x))),
      length-append s (codes "|" ++ x),
      length-decimal 20 port2,
      length-decimal 20 slot,
      length-decimal 20 expiry,
    )

pub bytes_eq_self : (bs : List ℕ) → bytes_eq bs bs ≡ true
bytes_eq_self [] = refl
bytes_eq_self (b ∷ bs) = ground (arith, bytes_eq_self bs)

-- A token of an expiry and the HMAC of the port pair, the slot and that expiry, in hexadecimal, is valid
-- for that port pair and slot exactly until the expiry. The HMAC has 32 bytes, and the text of the
-- expiry has no dot.
pub video_token_valid-hex_of :
    (hmac : List ℕ → List ℕ → List ℕ) (secret : List ℕ) (port2 slot now expiry : ℕ) (text : List ℕ)
    → Lacks 46 text
    → expiry_of text ≡ some expiry
    → let mac = hmac secret (token_message port2 slot expiry) in
      length mac ≡ 32
      → IsBytes mac
      → video_token_valid hmac secret port2 slot (text ++ (46 ∷ hex_of mac)) now
        ≡ not (ltb expiry now)
unfolding video_token_valid mac_matches
video_token_valid-hex_of hmac secret port2 slot now expiry text l e size bytes =
    let msg = token_message port2 slot expiry in
    let mac = hmac secret msg in
    let long : (length (hex_of mac) == 64) ≡ true = ground (arith, length-hex_of mac, size) in
    let fits : ltb (length msg) 128 ≡ true =
      ground (arith, length-token_message port2 slot expiry) in
    rw
      (
        video_token_valid,
        cut_at 46 text (hex_of mac) l,
        e,
        long,
        fits,
        mac_bytes-hex_of mac bytes,
        bytes_eq_self mac,
      )
      (ground arith)
