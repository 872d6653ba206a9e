-- ===== src/Rtmp/Out.antt =====
-- What the session writes: RTMP messages for the peer, and FLV tags.
use support_proxy.Base.{
  ℕ, zero, suc, ◌+◌, ◌-◌, ◌/◌, ◌%◌, ◌^◌, Bool, true, false, not, ◌&&◌, ◌||◌, List, [], ◌∷◌, ◌++◌,
  Option, none, some, ◌>>=◌, leb, ◌==◌, if◌then◌else◌, length, take, drop, get_elem?, bytes_eq,
  codes, bit_or,
}
use support_proxy.Rtmp.{VideoCodec, no_codec, h264, other_codec, RtmpSession, rtmp_out_chunk_size}
use support_proxy.Rtmp.Amf.{be_bytes}

-- The payload, with a one-byte header before each further chunk; `room` is left in this one.
unfoldable pub chunked : ℕ → ℕ → List ℕ → List ℕ
chunked csid room [] = []
chunked csid zero (b ∷ p) = bit_or 192 csid ∷ b ∷ chunked csid (rtmp_out_chunk_size - 1) p
chunked csid (suc room) (b ∷ p) = b ∷ chunked csid room p

abbrev pub le_bytes : ℕ → List ℕ
le_bytes v = (v % 256) ∷ (v / 256 % 256) ∷ (v / 65536 % 256) ∷ (v / 16777216 % 256) ∷ []

-- The timestamp is 0 in every call.
unfoldable pub message : ℕ → ℕ → ℕ → List ℕ → List ℕ
message csid kind sid p =
    (csid ∷ 0 ∷ 0 ∷ 0 ∷ [])
    ++ (be_bytes 3 (length p)
        ++ ((kind ∷ []) ++ (le_bytes sid ++ chunked csid rtmp_out_chunk_size p)))

unfoldable pub send_msg : RtmpSession → ℕ → ℕ → ℕ → List ℕ → RtmpSession
send_msg s csid kind sid p = record s { to_peer = s.to_peer ++ message csid kind sid p }

unfoldable pub send_amf : RtmpSession → ℕ → ℕ → List ℕ → RtmpSession
unfolding send_msg
send_amf s csid sid b = send_msg s csid 20 sid b

abbrev pub flv_header : List ℕ
flv_header = 70 ∷ 76 ∷ 86 ∷ 1 ∷ 5 ∷ 0 ∷ 0 ∷ 0 ∷ 9 ∷ 0 ∷ 0 ∷ 0 ∷ 0 ∷ []

unfoldable pub write_flv_header : RtmpSession → RtmpSession
write_flv_header s =
    if s.flv_header_written
    then s
    else record s { flv_header_written = true; to_flv = s.to_flv ++ flv_header }

unfoldable pub flv_tag : ℕ → ℕ → List ℕ → List ℕ
flv_tag kind ts p =
    (kind ∷ be_bytes 3 (length p))
    ++ (be_bytes 3 ts ++ ((ts / 16777216 % 256) ∷ 0 ∷ 0 ∷ 0 ∷ p ++ be_bytes 4 (11 + length p)))

unfoldable pub write_flv_tag : RtmpSession → ℕ → ℕ → List ℕ → RtmpSession
write_flv_tag s kind ts p = record s { to_flv = s.to_flv ++ flv_tag kind ts p }

-- `n` bytes at `i`, as memcmp reads them.
unfoldable pub bytes_at : List ℕ → ℕ → ℕ → Option (List ℕ)
bytes_at p i n = if leb (i + n) (length p) then some (take n (drop i p)) else none

unfoldable pub detect_codec : List ℕ → VideoCodec → Option VideoCodec
detect_codec p codec = do
  b ← get_elem? p 0
  if b / 128 % 2 == 0
      then some (if b % 16 == 7 then h264 else other_codec)
      else if leb 5 (length p)
      then (do f ← bytes_at p 1 4; some (if bytes_eq f (codes "avc1") then h264 else other_codec))
      else some codec

-- The codec behind a tag of the type `kind`.
unfoldable pub codec_of : ℕ → List ℕ → VideoCodec → Option VideoCodec
codec_of kind p no_codec = if kind == 9 then detect_codec p no_codec else some no_codec
codec_of kind p h264 = some h264
codec_of kind p other_codec = some other_codec

unfoldable pub is_set_data_frame : List ℕ → Option Bool
is_set_data_frame p = if leb (length p) 16 then some false else (do
  m ← get_elem? p 0
  hi ← get_elem? p 1
  lo ← get_elem? p 2
  t ← bytes_at p 3 13
  some (m == 2 && (hi == 0 && (lo == 13 && bytes_eq t (codes "@setDataFrame")))))

unfoldable pub unwrapped : ℕ → List ℕ → Option (List ℕ)
unwrapped kind p =
    if kind == 18 then (do w ← is_set_data_frame p; some (if w then drop 16 p else p)) else some p

unfoldable pub on_media : RtmpSession → ℕ → ℕ → List ℕ → Option RtmpSession
unfolding write_flv_tag
on_media s kind ts p = if not s.publishing || length p == 0 then some s else (do
  codec ← codec_of kind p s.vcodec
  media ← unwrapped kind p
  some (
      write_flv_tag
        (record s { vcodec = codec; media_bytes = (s.media_bytes + length media) % 2 ^ 64 }) kind ts
        media))
