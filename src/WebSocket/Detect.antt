-- ===== src/WebSocket/Detect.antt =====
-- WebSocket::detect: raw MAVLink, a handshake, or too few bytes to tell.
pub mod Prefixes
use support_proxy.Base.{
  ℕ, Bool, true, false, ◌==◌, List, [], ◌∷◌, ltb, leb, if◌then◌else◌, length, take, bytes_eq, codes,
}

pub data Detected : Type 0 where
  ws_no ws_yes ws_more : Detected

abbrev pub ws_prefix : List ℕ
ws_prefix = codes "GET "

abbrev pub wss_prefix : List ℕ
wss_prefix = 0x16 ∷ 0x03 ∷ 0x01 ∷ []

-- memcmp of the first bytes, as many as both have.
abbrev matches_so_far : List ℕ → List ℕ → Bool
matches_so_far prefix peeked =
    let n = length peeked in
    let cmp = if ltb n (length prefix) then n else length prefix in
    bytes_eq (take cmp prefix) (take cmp peeked)

-- `peeked` is what recv with MSG_PEEK finds, up to 8 bytes; none for an error or the end.
unfoldable pub detect : List ℕ → Detected
detect peeked =
    let n = length peeked in
    if n == 0
    then ws_more
    else if matches_so_far wss_prefix peeked
    then (if leb (length wss_prefix) n then ws_yes else ws_more)
    else if matches_so_far ws_prefix peeked
    then (if leb (length ws_prefix) n then ws_yes else ws_more)
    else ws_no
