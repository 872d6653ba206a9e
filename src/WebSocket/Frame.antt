-- ===== src/WebSocket/Frame.antt =====
-- The frames of RFC 6455 as WebSocket::decode_frames reads them and WebSocket::queue_frame writes
-- them. A read of the buffer is `none` out of its bounds.
pub mod Bounds
use support_proxy.Base.{
  ℕ, zero, suc, ◌+◌, ◌-◌, ◌*◌, ◌/◌, ◌%◌, ◌^◌, Bool, true, false, not, ◌&&◌, ◌||◌, List, [], ◌∷◌,
  ◌++◌, Option, none, some, bit_and, bit_or, bit_xor, ltb, leb, ◌==◌, if◌then◌else◌, length, take,
  drop, get_elem?, has_bits, ◌>>=◌,
}
use support_proxy.WebSocket.{u64_mod}

pub record Frame : Type 0 where
  pub fin : Bool
  pub opcode : ℕ
  pub payload : List ℕ

-- What the loop body makes of the bytes from `pos` on: break, return false, or a frame with the
-- bytes that it takes (`need`) and where its payload stands.
pub data Parsed : Type 0 where
  incomplete refused : Parsed
  frame : Frame → ℕ → Parsed

-- The eight bytes of the long form, `payload_len << 8 | f[2 + i]`.
be_length : ℕ → ℕ → List ℕ → Option ℕ
be_length zero acc f = some acc
be_length (suc k) acc f = do
  b ← get_elem? f (2 + (7 - k))
  be_length k ((acc * 256) % u64_mod + b) f

-- The payload's length and the header's, `none` inside for too few bytes.
payload_length : List ℕ → ℕ → Option (Option (ℕ × ℕ))
unfolding be_length
payload_length f len7 =
    if len7 == 126
    then (if ltb (length f) 4
        then some none
        else do hi ← get_elem? f 2; lo ← get_elem? f 3; some (some (hi * 256 + lo, 4)))
    else if len7 == 127
    then (if ltb (length f) 10 then some none else do n ← be_length 8 0 f; some (some (n, 10)))
    else some (some (len7, 2))

-- payload[i] ^= mask[i % 4], from index `i` on.
pub unmask : List ℕ → ℕ → List ℕ → Option (List ℕ)
unmask mask i [] = some []
unmask mask i (b ∷ bs) = do
  m ← get_elem? mask (i % 4)
  rest ← unmask mask (i + 1) bs
  some (bit_xor b m ∷ rest)

-- memcpy(dst, f + off, n), where all of it must be there.
slice : List ℕ → ℕ → ℕ → Option (List ℕ)
slice f off n = if leb (off + n) (length f) then some (take n (drop off f)) else none

-- The checks of the loop body up to the switch, for a frame whose lengths are known.
check_frame : ℕ → List ℕ → ℕ → ℕ → ℕ × ℕ → Option Parsed
unfolding slice unmask
check_frame max_message f b0 b1 (payload_len, hdr) =
    let fin = has_bits b0 0x80 in
    let opcode = bit_and b0 0x0F in
    let masked = has_bits b1 0x80 in
    let is_control = has_bits opcode 0x8 in
    let need = hdr + 4 + payload_len in
    if ltb max_message payload_len
    then some refused
    else if not masked
    then some refused
    else if is_control && (ltb 125 payload_len || not fin)
    then some refused
    else if ltb (length f) need
    then some incomplete
    else do
      mask ← slice f hdr 4
      coded ← slice f (hdr + 4) payload_len
      payload ← unmask mask 0 coded
      some (frame (record { fin = fin; opcode = opcode; payload = payload }) need)

unfoldable pub parse_frame : ℕ → List ℕ → Option Parsed
unfolding payload_length check_frame
parse_frame max_message f = if ltb (length f) 2 then some incomplete else do
  b0 ← get_elem? f 0
  b1 ← get_elem? f 1
  lengths ← payload_length f (bit_and b1 0x7F)
  elim lengths [ none ↦ some incomplete | some l ↦ check_frame max_message f b0 b1 l ]

-- The header that queue_frame puts before a payload of `n` bytes.
pub frame_header : ℕ → ℕ → List ℕ
frame_header opcode n =
    if leb n 125
    then bit_or 0x80 opcode % 256 ∷ n % 256 ∷ []
    else if leb n 65535
    then bit_or 0x80 opcode % 256 ∷ 126 ∷ n / 2 ^ 8 % 256 ∷ n % 256 ∷ []
    else bit_or 0x80 opcode % 256
      ∷ 127
      ∷ n / 2 ^ 56 % 256
      ∷ n / 2 ^ 48 % 256
      ∷ n / 2 ^ 40 % 256
      ∷ n / 2 ^ 32 % 256
      ∷ n / 2 ^ 24 % 256
      ∷ n / 2 ^ 16 % 256
      ∷ n / 2 ^ 8 % 256
      ∷ n % 256
      ∷ []
