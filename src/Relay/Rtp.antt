-- ===== src/Relay/Rtp.antt =====
-- rtp_payload_offset and rtp_codec_hint. A read of a byte is an Option.
pub mod Bounds
use support_proxy.Base.{
  ℕ, zero, suc, ◌+◌, ◌*◌, ◌/◌, ◌%◌, Bool, true, false, not, ◌&&◌, ◌||◌, List, [], ◌∷◌, Option, none,
  some, ◌>>=◌, ltb, leb, ◌==◌, if◌then◌else◌, length, get_elem?, bit_and, has_bits,
}

pub data RtpCodec : Type 0 where
  unknown h264 hevc : RtpCodec

-- The size of the extension header at `off`, if there is one.
unfoldable pub extended : List ℕ → ℕ → ℕ → Option (Option ℕ)
extended buf b0 off =
    if has_bits b0 0x10
    then (if ltb (length buf) (off + 4) then some none else (do
      hi ← get_elem? buf (off + 2)
      lo ← get_elem? buf (off + 3)
      some (some (off + 4 + 4 * (hi * 256 + lo)))))
    else some (some off)

unfoldable pub inside : List ℕ → Option ℕ → Option ℕ
inside buf none = none
inside buf (some off) = if ltb off (length buf) then some off else none

-- The inner `none` is the -1 of the source.
unfoldable pub rtp_payload_offset : List ℕ → Option (Option ℕ)
unfolding extended inside
rtp_payload_offset buf = if ltb (length buf) 13 then some none else (do
  b0 ← get_elem? buf 0
  b1 ← get_elem? buf 1
  if not (bit_and b0 0xC0 == 0x80) || (ltb (b1 % 128) 96 || ltb 127 (b1 % 128))
      then some none
      else (do o ← extended buf b0 (12 + 4 * bit_and b0 0x0F); some (inside buf o)))

unfoldable pub is_hevc_only : ℕ → Bool
is_hevc_only b = b == 0x40 || (b == 0x42 || (b == 0x44 || (b == 0x60 || b == 0x62)))

unfoldable pub nal_hint : ℕ → ℕ → RtpCodec
unfolding is_hevc_only
nal_hint b0 b1 =
    let t = bit_and b0 0x1F in
    if is_hevc_only b0
    then (if bit_and b1 0xF8 == 0 && not (bit_and b1 0x07 == 0) then hevc else unknown)
    else if t == 28 || t == 24
    then h264
    else if t == 5 || (t == 7 || t == 8)
    then (if bit_and b0 0x60 == 0x60 then h264 else unknown)
    else unknown

unfoldable pub rtp_codec_hint : List ℕ → Option RtpCodec
unfolding nal_hint
rtp_codec_hint p = if ltb (length p) 2 then some unknown else (do
  b0 ← get_elem? p 0
  b1 ← get_elem? p 1
  some (if has_bits b0 0x80 then unknown else nal_hint b0 b1))
