-- ===== src/Rtmp.antt =====
-- videortmp.h and videortmp.cpp: a publisher's RTMP connection. A read of a byte is an Option, so
-- that one out of bounds would show. A double is its bit pattern, a text the list of its bytes.
pub mod Amf
pub mod Out
pub mod Command
pub mod Answer
pub mod Chunk
pub mod Message
pub mod Feed
pub mod Quiet
pub mod Handled
pub mod Media
pub mod Messages
pub mod Sound
pub mod Headers
pub mod Parsed
pub mod Steps
pub mod Loop
pub mod Reads
pub mod Reached
use support_proxy.Base.{
  ℕ, ◌+◌, ◌-◌, ◌*◌, ◌%◌, ◌^◌, Bool, true, false, List, [], ◌∷◌, ◌++◌, ltb, ◌==◌, if◌then◌else◌,
  length, drop, codes,
}

abbrev pub rtmp_out_chunk_size : ℕ
rtmp_out_chunk_size = 4096

abbrev pub rtmp_default_chunk_size : ℕ
rtmp_default_chunk_size = 128

abbrev pub rtmp_prepublish_max_bytes : ℕ
rtmp_prepublish_max_bytes = 256 * 1024

abbrev pub rtmp_prepublish_max_s : ℕ
rtmp_prepublish_max_s = 20

abbrev pub rtmp_max_message_bytes : ℕ
rtmp_max_message_bytes = 4 * 1024 * 1024

abbrev pub rtmp_max_chunk_size : ℕ
rtmp_max_chunk_size = 1024 * 1024

abbrev pub rtmp_max_chunk_stream : ℕ
rtmp_max_chunk_stream = 255

abbrev pub rtmp_max_assembly_bytes : ℕ
rtmp_max_assembly_bytes = 8 * 1024 * 1024

abbrev pub rtmp_max_out_bytes : ℕ
rtmp_max_out_bytes = 256 * 1024

pub data VideoCodec : Type 0 where
  no_codec h264 other_codec : VideoCodec

pub data RtmpState : Type 0 where
  want_c0c1 want_c2 chunks dead : RtmpState

pub record ChunkStream : Type 0 where
  pub ts : ℕ
  pub delta : ℕ
  pub len : ℕ
  pub kind : ℕ
  pub sid : ℕ
  pub ext_ts : Bool
  pub acc : List ℕ

abbrev pub fresh_stream : ChunkStream
fresh_stream = record { ts = 0; delta = 0; len = 0; kind = 0; sid = 0; ext_ts = false; acc = [] }

-- `streams` has a fresh stream from `stream_count`, the size of cs_, on.
pub record RtmpSession : Type 0 where
  pub state : RtmpState
  pub input : List ℕ
  pub in_pos : ℕ
  pub to_peer : List ℕ
  pub to_flv : List ℕ
  pub in_chunk : ℕ
  pub ack_window : ℕ
  pub bytes_in : ℕ
  pub acked : ℕ
  pub streams : ℕ → ChunkStream
  pub stream_count : ℕ
  pub app : List ℕ
  pub stream : List ℕ
  pub password : List ℕ
  pub password_present : Bool
  pub publish_txn : ℕ
  pub publish_sid : ℕ
  pub publishing : Bool
  pub publish_pending : Bool
  pub connected : Bool
  pub publishing_since : ℕ
  pub assembly_bytes : ℕ
  pub vcodec : VideoCodec
  pub flv_header_written : Bool
  pub started : ℕ
  pub now : ℕ
  pub total_in : ℕ
  pub media_bytes : ℕ
  pub error : List ℕ

unfoldable pub new_session : RtmpSession
new_session = record {
  state = want_c0c1;
  input = [];
  in_pos = 0;
  to_peer = [];
  to_flv = [];
  in_chunk = rtmp_default_chunk_size;
  ack_window = 0;
  bytes_in = 0;
  acked = 0;
  streams = λ k. fresh_stream;
  stream_count = 0;
  app = [];
  stream = [];
  password = [];
  password_present = false;
  publish_txn = 0;
  publish_sid = 1;
  publishing = false;
  publish_pending = false;
  connected = false;
  publishing_since = 0;
  assembly_bytes = 0;
  vcodec = no_codec;
  flv_header_written = false;
  started = 0;
  now = 0;
  total_in = 0;
  media_bytes = 0;
  error = [];
}

-- a - b on size_t, and on uint64_t.
abbrev pub size_sub : ℕ → ℕ → ℕ
size_sub a b = (a + 2 ^ 64 - b) % 2 ^ 64

abbrev pub fail : RtmpSession → List ℕ → RtmpSession
fail s why = record s { error = why; state = dead }

unfoldable pub compact : RtmpSession → RtmpSession
compact s =
    if s.in_pos == length s.input
    then record s { input = []; in_pos = 0 }
    else if ltb 65536 s.in_pos
    then record s { input = drop s.in_pos s.input; in_pos = 0 }
    else s

abbrev pub no_text : List ℕ → Bool
no_text [] = true
no_text (c ∷ s) = false

unfoldable pub path : RtmpSession → List ℕ
path s =
    if no_text s.app
    then s.stream
    else if no_text s.stream
    then s.app
    else s.app ++ (codes "/" ++ s.stream)
