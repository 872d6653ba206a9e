-- ===== src/Relay/Guard/Passed.antt =====
-- What goes on to ffmpeg is the publisher's bytes in order, and each request of them was checked.
use support_proxy.Base.{
  ℕ, zero, suc, ◌+◌, ◌-◌, ◌*◌, ◌≤◌, ◌<◌, min, ◌≡◌, refl, sym, ap, ◌∙◌, Bool, true, false, ◌&&◌,
  List, [], ◌∷◌, ◌++◌, Option, none, some, ltb, leb, ◌==◌, if◌then◌else◌, length, take, starts_with,
  append-nil, append_assoc, length-append, length-take, length-drop, take-append-drop, subst, arith,
  leb→le,
}
use support_proxy.Base.Returns.{Returns, returns, Returns-weaken}
use support_proxy.Http.Request.{http_max_request}
use support_proxy.Relay.Guard.{
  Relay, header_end, interleaved, checked_request, GuardRound, forward, on_frame, on_request,
  round_at, guard_round, guard_loop, received, guard_rtsp_requests,
}
use support_proxy.Relay.Guard.Head.{IsHead, header_end-IsHead}
use support_proxy.Relay.Guard.Authorised.{IsAuthorised, checked_request-IsAuthorised}

and_right : (a b : Bool) → (a && b) ≡ true → b ≡ true
and_right true b h = h
and_right false b h = absurd (ground (arith, h))

le_if : (t : Bool) (x y m : ℕ) → (t ≡ true → x ≤ m) → y ≤ m → (if t then x else y) ≤ m
le_if true x y m f g = f refl
le_if false x y m f g = g

starts_with-length : (xs ys : List ℕ) → starts_with xs ys ≡ true → length xs ≤ length ys
starts_with-length [] ys h = omega arith
starts_with-length (x ∷ xs) [] h = absurd (ground (arith, h))
starts_with-length (x ∷ xs) (y ∷ ys) h =
    omega (arith, starts_with-length xs ys (and_right (x == y) (starts_with xs ys) h))

header_end-le : (i : ℕ) (p : List ℕ) → header_end i p ≤ i + length p
unfolding header_end
header_end-le i [] = omega arith
header_end-le i (b ∷ p) =
    le_if (b == 10 && starts_with (10 ∷ []) p) _ _ _
      (λ e. omega (arith, starts_with-length (10 ∷ []) p (and_right (b == 10) _ e)))
      (le_if (b == 13 && starts_with (10 ∷ 13 ∷ 10 ∷ []) p) _ _ _
        (λ e. omega (arith, starts_with-length (10 ∷ 13 ∷ 10 ∷ []) p (and_right (b == 13) _ e)))
        (omega (arith, header_end-le (i + 1) p)))

-- The header of interleaved data of `m` bytes.
abbrev pub IsFrame : List ℕ → ℕ → Type 0
IsFrame head m =
    (channel : ℕ) × (hi : ℕ) × (lo : ℕ) × (head ≡ 36 ∷ channel ∷ hi ∷ lo ∷ []) × (m ≡ hi * 256 + lo)

interleaved-IsFrame :
    (b : ℕ) (p : List ℕ) (len : ℕ)
    → b ≡ 36
    → interleaved (b ∷ p) ≡ some len
    → (4 ≤ length (b ∷ p)) × IsFrame (take 4 (b ∷ p)) len
unfolding interleaved
interleaved-IsFrame a [] len d h = absurd (ground (arith, h))
interleaved-IsFrame a (b ∷ []) len d h = absurd (ground (arith, h))
interleaved-IsFrame a (b ∷ c ∷ []) len d h = absurd (ground (arith, h))
interleaved-IsFrame a (b ∷ c ∷ e ∷ p) len d h =
    (omega arith, (b, c, e, ap (λ (x : ℕ). x ∷ b ∷ c ∷ e ∷ []) d, ground (arith, h)))

take-first : (n b c : ℕ) (p t : List ℕ) → take n (b ∷ p) ≡ c ∷ t → b ≡ c
take-first zero b c p t e = absurd (ground (arith, e))
take-first (suc n) b c p t e = ground (arith, e)

interleaved-none : (p : List ℕ) → interleaved p ≡ none → length p < 4
unfolding interleaved
interleaved-none [] h = omega arith
interleaved-none (a ∷ []) h = omega arith
interleaved-none (a ∷ b ∷ []) h = omega arith
interleaved-none (a ∷ b ∷ c ∷ []) h = omega arith
interleaved-none (a ∷ b ∷ c ∷ d ∷ p) h = absurd (ground (arith, h))

module _ (sha256 : List ℕ → List ℕ) (key : List ℕ) where
  -- What may go on where `o` bytes of a body are owed, with what is owed then: bytes of it; the header
  -- of interleaved data; or a request, from its first byte to its first blank line.
  pub data Piece : ℕ → List ℕ → ℕ → Type 0 where
    body : {o m : ℕ} {chunk : List ℕ} → length chunk + m ≡ o → Piece o chunk m
    frame : {o m : ℕ} {head : List ℕ} → o ≡ 0 → IsFrame head m → Piece o head m
    request :
        {o m : ℕ} {head : List ℕ}
        → o ≡ 0
        → ((t : List ℕ) → ¬ (head ≡ 36 ∷ t))
        → IsHead head
        → IsAuthorised sha256 key head m
        → Piece o head m

  pub data Passed : ℕ → List ℕ → ℕ → Type 0 where
    nothing : {o : ℕ} → Passed o [] o
    then_piece :
        {o m o' : ℕ} {head out : List ℕ}
        → Piece o head m
        → Passed m out o'
        → Passed o (head ++ out) o'

  -- A round ends, or forwards a piece that is not empty.
  data Advance (r : Relay) : GuardRound sha256 key → Type 0 where
    ended : (b : Bool) → (b ≡ true → length r.buffered ≤ http_max_request) → Advance r (some b, r)
    moved :
        (n m : ℕ)
        → 0 < n
        → n ≤ length r.buffered
        → Piece r.opaque_left (take n r.buffered) m
        → Advance r (none, forward sha256 key r n m)

  Advance-test :
      (r : Relay) (t : Bool) (x y : GuardRound sha256 key)
      → (t ≡ true → Advance r x)
      → (t ≡ false → Advance r y)
      → Advance r (if t then x else y)
  Advance-test r true x y f g = f refl
  Advance-test r false x y f g = g refl

  on_frame-Advance :
      (r : Relay) (b : ℕ) (p : List ℕ) (o : Option ℕ)
      → b ∷ p ≡ r.buffered
      → b ≡ 36
      → r.opaque_left ≡ 0
      → interleaved r.buffered ≡ o
      → Advance r (on_frame sha256 key r o)
  on_frame-Advance r b p none at d z e =
      ended true (λ _. omega (arith, interleaved-none r.buffered e))
  on_frame-Advance r b p (some len) at d z e =
      let (four, head) = interleaved-IsFrame b p len d (ap (λ l. interleaved l) at ∙ e) in
      moved 4 len (omega arith) (subst (λ (l : List ℕ). 4 ≤ length l) at four)
        (frame z (subst (λ (l : List ℕ). IsFrame (take 4 l) len) at head))

  on_request-Advance :
      (r : Relay) (b : ℕ) (p : List ℕ) (o : Option ℕ)
      → b ∷ p ≡ r.buffered
      → (b == 36) ≡ false
      → r.opaque_left ≡ 0
      → (header_end 0 r.buffered == 0) ≡ false
      → checked_request sha256 key (take (header_end 0 r.buffered) r.buffered) ≡ o
      → Advance r (on_request sha256 key r (header_end 0 r.buffered) o)
  on_request-Advance r b p none at d z f e = ended false (λ x. ground arith)
  on_request-Advance r b p (some m) at d z f e =
      let n = header_end 0 r.buffered in
      moved n m (ground (arith, f)) (omega (arith, header_end-le 0 r.buffered)) (
        request z
          (λ t s.
            let first : b ≡ 36 = take-first n b 36 p t (ap (λ (l : List ℕ). take n l) at ∙ s) in
            ground (arith, d, first))
          (header_end-IsHead r.buffered f)
          (checked_request-IsAuthorised sha256 key (take n r.buffered) m e))

  round_at-Advance :
      (r : Relay) (b : ℕ) (p : List ℕ) → b ∷ p ≡ r.buffered → Advance r (round_at sha256 key r b)
  unfolding round_at
  round_at-Advance r b p at =
      let n = header_end 0 r.buffered in
      let taken = min r.opaque_left (length r.buffered) in
      let some_len : 0 < length r.buffered = omega (arith, ap (λ (l : List ℕ). length l) at) in
      Advance-test r (ltb 0 r.opaque_left) _ _
        (λ e.
          moved taken (r.opaque_left - taken) (ground (arith, e, some_len)) (omega arith)
            (body (omega (arith, length-take taken r.buffered))))
        (λ e.
          Advance-test r (b == 36) _ _
            (λ d.
              on_frame-Advance r b p (interleaved r.buffered) at (ground (arith, d))
                (ground (arith, e)) refl)
            (λ d.
              Advance-test r (n == 0) _ _
                (λ _.
                  ended (leb (length r.buffered) http_max_request)
                    (leb→le (length r.buffered) http_max_request))
                (λ f.
                  on_request-Advance r b p (checked_request sha256 key (take n r.buffered)) at d
                    (ground (arith, e)) f refl)))

  guard_round-Advance :
      (r : Relay) (p : List ℕ) → p ≡ r.buffered → Advance r (guard_round sha256 key r p)
  unfolding guard_round
  guard_round-Advance r [] e = ended true (λ _. omega (arith, ap (λ (l : List ℕ). length l) e))
  guard_round-Advance r (b ∷ p) e = round_at-Advance r b p e

  -- What the loop forwards.
  pub record Relayed (r : Relay) (a : Bool × Relay) : Type 0 where
    pub out : List ℕ
    pub sent : (a.1).to_backend ≡ r.to_backend ++ out
    pub conserved : out ++ (a.1).buffered ≡ r.buffered
    pub passed : Passed r.opaque_left out (a.1).opaque_left
    pub bounded : a.0 ≡ true → length (a.1).buffered ≤ http_max_request

  moved-Relayed :
      (r : Relay) (n m : ℕ) (a : Bool × Relay)
      → Piece r.opaque_left (take n r.buffered) m
      → Relayed (forward sha256 key r n m) a
      → Relayed r a
  unfolding forward
  moved-Relayed r n m a p d = record {
    out = take n r.buffered ++ d.out;
    sent = d.sent ∙ append_assoc r.to_backend (take n r.buffered) d.out;
    conserved =
        append_assoc (take n r.buffered) d.out (a.1).buffered
        ∙ (ap (λ (l : List ℕ). take n r.buffered ++ l) d.conserved ∙ take-append-drop n r.buffered);
    passed = then_piece p d.passed;
    bounded = d.bounded;
  }

  after_round :
      (fuel : ℕ) (r : Relay) (t : GuardRound sha256 key)
      → ((r' : Relay)
          → length r'.buffered < fuel
          → Returns (Relayed r') (guard_loop sha256 key fuel r'))
      → length r.buffered < suc fuel
      → Advance r t
      → Returns {A = Bool × Relay}
          (Relayed r)
          (elim (t.0) [ none ↦ guard_loop sha256 key fuel t.1 | some answer ↦ some (answer, t.1) ])
  unfolding forward
  after_round fuel r _ ih h (ended b small) = returns (record {
    out = [];
    sent = sym (append-nil r.to_backend);
    conserved = refl;
    passed = nothing;
    bounded = small;
  })
  after_round fuel r _ ih h (moved n m pos le p) =
      Returns-weaken
        (ih (forward sha256 key r n m) (omega (arith, length-drop n r.buffered, pos, le, h)))
        (λ a d. moved-Relayed r n m a p d)

  guard_loop-Relayed :
      (fuel : ℕ) (r : Relay)
      → length r.buffered < fuel
      → Returns (Relayed r) (guard_loop sha256 key fuel r)
  unfolding guard_loop
  guard_loop-Relayed zero r h = absurd (omega (arith, h))
  guard_loop-Relayed (suc fuel) r h =
      after_round fuel r (guard_round sha256 key r r.buffered)
        (λ r' h'. guard_loop-Relayed fuel r' h') h (guard_round-Advance r r.buffered refl)

  -- On any bytes guard_rtsp_requests returns. What it adds to the queue towards ffmpeg, followed by
  -- what it keeps, is what it held and the bytes, in their order. What it adds is a chain of bytes of a
  -- body that is owed; of headers of interleaved data, `$`, a channel and the length of what is owed
  -- behind it; and of requests. Each request starts with another byte than `$`, where nothing is
  -- owed, and ends at its first blank line; the parser took it for a whole one; where a publish
  -- password is set, its credential is that password or has it before its last slash; and its body,
  -- which is owed behind it, is as long as its only Content-Length writes, which is at most 16 MiB, or
  -- empty if it has none. Where the answer is true, at most 8192 bytes are kept.
  pub guard_rtsp_requests-Relayed :
      (r : Relay) (bytes : List ℕ)
      → Returns (Relayed (received sha256 key r bytes)) (guard_rtsp_requests sha256 key r bytes)
  unfolding guard_rtsp_requests
  guard_rtsp_requests-Relayed r bytes =
      guard_loop-Relayed (length r.buffered + length bytes + 1) (received sha256 key r bytes)
        (omega (arith, length-append r.buffered bytes))
