-- ===== src/WebSocket/Detect/Prefixes.antt =====
-- What detect decides, told by prefixes.
use support_proxy.Base.{
  ℕ, ◌≡◌, ◌≢◌, refl, sym, ◌∙◌, ◌||◌, List, [], ◌∷◌, ◌++◌, arith, if◌then◌else◌, starts_with,
}
use support_proxy.WebSocket.Detect.{Detected, ws_no, ws_yes, ws_more, ws_prefix, wss_prefix, detect}

-- A handshake is there, it may still come, or it cannot.
pub classify : List ℕ → Detected
classify seen =
    if starts_with wss_prefix seen || starts_with ws_prefix seen
    then ws_yes
    else if starts_with seen wss_prefix || starts_with seen ws_prefix
    then ws_more
    else ws_no

-- detect says yes when the bytes start with a whole handshake prefix, "GET " or that of a TLS
-- hello, asks for more when they are a proper prefix of one (or none), and says no otherwise.
pub detect-classify : (seen : List ℕ) → detect seen ≡ classify seen
unfolding detect classify
detect-classify [] = refl
detect-classify (a ∷ []) = ground arith
detect-classify (a ∷ b ∷ []) = ground arith
detect-classify (a ∷ b ∷ c ∷ []) = ground arith
detect-classify (a ∷ b ∷ c ∷ d ∷ rest) = ground arith

classify_stable :
    (seen later : List ℕ) → classify seen ≢ ws_more → classify (seen ++ later) ≡ classify seen
unfolding classify
classify_stable [] later h = absurd (h refl)
classify_stable (a ∷ []) later h = ground arith
classify_stable (a ∷ b ∷ []) later h = ground arith
classify_stable (a ∷ b ∷ c ∷ []) later h = ground arith
classify_stable (a ∷ b ∷ c ∷ d ∷ rest) later h = ground arith

-- Bytes that come later never change a decision that was made.
pub detect_stable :
    (seen later : List ℕ) → detect seen ≢ ws_more → detect (seen ++ later) ≡ detect seen
detect_stable seen later h =
    detect-classify (seen ++ later)
    ∙ classify_stable seen later (λ e. h (detect-classify seen ∙ e))
    ∙ sym (detect-classify seen)
