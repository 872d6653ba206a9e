-- ===== src/Relay/Guard.antt =====
-- guard_rtsp_requests: the requests of an RTSP publisher on their way to ffmpeg. SHA256 is a
-- parameter. A read of a byte is an Option, and so is what fuel that runs out gives.
pub mod Head
pub mod Number
pub mod Length
pub mod Authorised
pub mod Passed
use support_proxy.Base.{
  ℕ, zero, suc, ◌+◌, ◌-◌, ◌*◌, ◌%◌, ◌^◌, min, Bool, true, false, not, ◌&&◌, ◌||◌, List, [], ◌∷◌,
  ◌++◌, Option, none, some, ◌>>=◌, ltb, leb, ◌==◌, if◌then◌else◌, length, take, drop, starts_with,
  codes,
}
use support_proxy.Http.Query.{http_query_value}
use support_proxy.Http.Request.{
  http_max_request, HttpRequest, Fed, more, complete, refused, feed, header, header_count,
}
use support_proxy.VideoAuth.{any_set, video_password_matches}
use support_proxy.VideoAuth.Token.{is_space, digits_only}

-- The guard of a slot, and the queue towards ffmpeg.
pub record Relay : Type 0 where
  pub buffered : List ℕ
  pub opaque_left : ℕ
  pub to_backend : List ℕ

-- The index behind the first blank line, or 0.
unfoldable pub header_end : ℕ → List ℕ → ℕ
header_end i [] = 0
header_end i (b ∷ p) =
    let later = header_end (i + 1) p in
    if b == 10 && starts_with (10 ∷ []) p
    then i + 2
    else if b == 13 && starts_with (10 ∷ 13 ∷ 10 ∷ []) p
    then i + 4
    else later

-- The length of interleaved data, from a header of four bytes.
unfoldable pub interleaved : List ℕ → Option ℕ
interleaved (b ∷ channel ∷ hi ∷ lo ∷ p) = some (hi * 256 + lo)
interleaved _ = none

-- pw.substr(0, pw.rfind('/'))
unfoldable pub before_slash : List ℕ → Option (List ℕ)
before_slash [] = none
before_slash (c ∷ s) = elim (before_slash s) [
  | none ↦ if c == 47 then some [] else none
  | some p ↦ some (c ∷ p)
]

-- A text up to a NUL, which ends it for strtoull.
unfoldable pub until_nul : List ℕ → List ℕ
until_nul [] = []
until_nul (c ∷ s) = let rest = until_nul s in if c == 0 then [] else c ∷ rest

abbrev pub in_range : Option ℕ → Option ℕ
in_range none = none
in_range (some v) = if ltb v (2 ^ 64) then some v else none

abbrev pub negated : Option ℕ → Option ℕ
negated none = none
negated (some v) = some ((2 ^ 64 - v) % 2 ^ 64)

-- What strtoull reads to the base 10, if it takes the whole text and is in range.
unfoldable pub unsigned_number : List ℕ → Option ℕ
unsigned_number [] = none
unsigned_number (c ∷ s) =
    let rest = unsigned_number s in
    if is_space c
    then rest
    else if c == 43
    then in_range (digits_only s)
    else if c == 45
    then negated (in_range (digits_only s))
    else in_range (digits_only (c ∷ s))

abbrev pub no_bytes : List ℕ → Bool
no_bytes s = length s == 0

abbrev pub rtsp_max_body : ℕ
rtsp_max_body = 16 * 1024 * 1024

-- The length of the body, or none where the request is refused for it.
unfoldable pub body_length : HttpRequest → Option ℕ
unfolding unsigned_number
body_length req =
    let n = header_count req (codes "Content-Length") in
    let value = header req (codes "Content-Length") in
    if ltb 1 n || n == 1 && no_bytes value then none else if no_bytes value then some 0 else (do
      body ← unsigned_number (until_nul value)
      if ltb rtsp_max_body body then none else some body)

abbrev pub empty_request : HttpRequest
empty_request = record {
  buf = [];
  leftover = [];
  headers = [];
  method = [];
  target = [];
  path = [];
  query = [];
}

module _ (sha256 : List ℕ → List ℕ) (key : List ℕ) where
  -- The password, or what stands before its last slash.
  unfoldable pub password_fits : List ℕ → Bool
  password_fits pw =
      video_password_matches sha256 key pw
      || elim (before_slash pw) [ none ↦ false | some p ↦ video_password_matches sha256 key p ]

  unfoldable pub credential_ok : HttpRequest → Bool
  unfolding password_fits
  credential_ok req = elim (http_query_value req.target (codes "pw")) [
    | none ↦ true
    | some pw ↦ not (any_set key && not (password_fits pw))
  ]

  unfoldable pub answered : Fed → HttpRequest → Option ℕ
  unfolding credential_ok
  answered complete req = if credential_ok req then body_length req else none
  answered more req = none
  answered refused req = none

  -- The length of the body behind a header that may pass.
  unfoldable pub checked_request : List ℕ → Option ℕ
  unfolding answered
  checked_request head = let r = feed empty_request head in answered r.0 r.1

  -- What a round answers, or none to go on.
  abbrev pub GuardRound : Type 0
  GuardRound = Option Bool × Relay

  unfoldable pub forward : Relay → ℕ → ℕ → Relay
  forward r n opaque = record {
    to_backend = r.to_backend ++ take n r.buffered;
    buffered = drop n r.buffered;
    opaque_left = opaque;
  }

  abbrev pub on_frame : Relay → Option ℕ → GuardRound
  on_frame r none = (some true, r)
  on_frame r (some len) = (none, forward r 4 len)

  abbrev pub on_request : Relay → ℕ → Option ℕ → GuardRound
  on_request r n none = (some false, r)
  on_request r n (some body) = (none, forward r n body)

  -- A round at the byte `b`, with more behind it.
  unfoldable pub round_at : Relay → ℕ → GuardRound
  unfolding checked_request
  round_at r b =
      let n = header_end 0 r.buffered in
      if ltb 0 r.opaque_left
      then (let taken = min r.opaque_left (length r.buffered) in
          (none, forward r taken (r.opaque_left - taken)))
      else if b == 36
      then on_frame r (interleaved r.buffered)
      else if n == 0
      then (some (leb (length r.buffered) http_max_request), r)
      else on_request r n (checked_request (take n r.buffered))

  unfoldable pub guard_round : Relay → List ℕ → GuardRound
  unfolding round_at
  guard_round r [] = (some true, r)
  guard_round r (b ∷ p) = round_at r b

  unfoldable pub guard_loop : ℕ → Relay → Option (Bool × Relay)
  unfolding guard_round
  guard_loop zero r = none
  guard_loop (suc fuel) r =
      let t = guard_round r r.buffered in
      let rest = guard_loop fuel t.1 in
      elim (t.0) [ none ↦ rest | some answer ↦ some (answer, t.1) ]

  abbrev pub received : Relay → List ℕ → Relay
  received r bytes = record r { buffered = r.buffered ++ bytes }

  unfoldable pub guard_rtsp_requests : Relay → List ℕ → Option (Bool × Relay)
  unfolding guard_loop
  guard_rtsp_requests r bytes = guard_loop (length r.buffered + length bytes + 1) (received r bytes)
