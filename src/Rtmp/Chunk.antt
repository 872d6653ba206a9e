-- ===== src/Rtmp/Chunk.antt =====
-- Chunks: the headers of one, and the message that it ends.
use support_proxy.Base.{
  ℕ, zero, suc, ◌+◌, ◌*◌, ◌/◌, ◌%◌, ◌^◌, Bool, ◌&&◌, ◌||◌, List, Option, none, some, ◌>>=◌, ltb,
  leb, ◌==◌, if◌then◌else◌, length, get_elem?,
}
use support_proxy.Rtmp.{ChunkStream, RtmpSession, no_text}
use support_proxy.Rtmp.Amf.{be}

-- `none` inside: the bytes are not there yet.
pub record BasicHeader : Type 0 where
  pub fmt : ℕ
  pub csid : ℕ
  pub size : ℕ

unfoldable pub basic_header : List ℕ → ℕ → Option (Option BasicHeader)
basic_header p i = if leb (length p) i then some none else (do
  b0 ← get_elem? p i
  let fmt = b0 / 64 % 4
  if b0 % 64 == 0
      then (if ltb (length p) (i + 2) then some none else (do
        b1 ← get_elem? p (i + 1)
        some (some record { fmt = fmt; csid = 64 + b1; size = 2 })))
      else if b0 % 64 == 1
      then (if ltb (length p) (i + 3) then some none else (do
        b1 ← get_elem? p (i + 1)
        b2 ← get_elem? p (i + 2)
        some (some record { fmt = fmt; csid = 64 + b1 + 256 * b2; size = 3 })))
      else some (some record { fmt = fmt; csid = b0 % 64; size = 1 }))

-- The size of the message header.
unfoldable pub mh : ℕ → ℕ
mh zero = 11
mh (suc zero) = 7
mh (suc (suc zero)) = 3
mh (suc (suc (suc n))) = 0

unfoldable pub le : List ℕ → ℕ → ℕ → Option ℕ
le p zero i = some 0
le p (suc n) i = do b ← get_elem? p i; v ← le p n (i + 1); some (b + 256 * v)

-- The fields at `h`, those that the format has.
pub record Fields : Type 0 where
  pub ts_field : ℕ
  pub len : ℕ
  pub kind : ℕ
  pub sid : ℕ

unfoldable pub fields : List ℕ → ℕ → ℕ → ChunkStream → Option Fields
unfolding le
fields p h fmt c = do
  ts_field ← (if leb fmt 2 then be p 3 h 0 else some c.ts)
  len ← (if leb fmt 1 then be p 3 (h + 3) 0 else some c.len)
  kind ← (if leb fmt 1 then get_elem? p (h + 6) else some c.kind)
  sid ← (if fmt == 0 then le p 4 (h + 7) else some c.sid)
  some record { ts_field = ts_field; len = len; kind = kind; sid = sid }

abbrev pub saturated : ℕ
saturated = 0xffffff

unfoldable pub want_ext : ℕ → ChunkStream → Fields → Bool
want_ext fmt c f = leb fmt 2 && f.ts_field == saturated || fmt == 3 && c.ext_ts

-- The stream with its new times, the message's length, type and sid.
unfoldable pub with_fields : ChunkStream → ℕ → Fields → ℕ → ChunkStream
with_fields c fmt f ext =
    let t = if f.ts_field == saturated then ext else f.ts_field in
    let c1 : ChunkStream = record c { len = f.len; kind = f.kind; sid = f.sid } in
    if fmt == 0
    then record c1 { ts = t; delta = 0; ext_ts = f.ts_field == saturated }
    else if leb fmt 2
    then record c1 { ts = (c.ts + t) % 2 ^ 32; delta = t; ext_ts = f.ts_field == saturated }
    else if no_text c.acc
    then record c1 { ts = (c.ts + c.delta) % 2 ^ 32 }
    else c1

-- The stream behind a message header, and the index behind that.
unfoldable pub message_header : List ℕ → ℕ → ℕ → ChunkStream → Option (Option (ChunkStream × ℕ))
unfolding fields want_ext with_fields
message_header p h fmt c = if ltb (length p) (h + mh fmt) then some none else (do
  f ← fields p h fmt c
  let pos = h + mh fmt
  if want_ext fmt c f
      then (if ltb (length p) (pos + 4)
          then some none
          else (do ext ← be p 4 pos 0; some (some (with_fields c fmt f ext, pos + 4))))
      else some (some (with_fields c fmt f 0, pos)))

unfoldable pub set_stream : RtmpSession → ℕ → ChunkStream → RtmpSession
set_stream s k c = record s { streams = λ j. if j == k then c else s.streams j }

-- cs_.resize
unfoldable pub resized : RtmpSession → ℕ → RtmpSession
resized s csid = record s {
  stream_count = if leb s.stream_count csid then csid + 1 else s.stream_count;
}
