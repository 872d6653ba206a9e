-- ===== src/Rtmp/Message.antt =====
-- Messages by their type, and the chunk that may end one.
use support_proxy.Base.{
  ℕ, ◌+◌, ◌-◌, ◌%◌, ◌^◌, min, true, false, not, ◌&&◌, ◌||◌, List, [], ◌∷◌, ◌++◌, Option, none, some,
  ◌>>=◌, ltb, leb, ◌==◌, if◌then◌else◌, length, take, drop, get_elem?, codes,
}
use support_proxy.Rtmp.{
  ChunkStream, RtmpSession, no_text, size_sub, rtmp_max_message_bytes, rtmp_max_chunk_size,
  rtmp_max_chunk_stream, rtmp_max_assembly_bytes, rtmp_max_out_bytes,
}
use support_proxy.Rtmp.Amf.{be, be_bytes}
use support_proxy.Rtmp.Out.{send_msg, on_media}
use support_proxy.Rtmp.Command.{Step, done, failed, on_command}
use support_proxy.Rtmp.Chunk.{BasicHeader, basic_header, message_header, set_stream, resized}

unfoldable pub set_chunk_size : RtmpSession → List ℕ → Step
set_chunk_size s p = if ltb (length p) 4 then failed s (codes "short SetChunkSize") else (do
  n ← be p 4 0 0
  let v = n % 2 ^ 31
  if v == 0 || ltb rtmp_max_chunk_size v
      then failed s (codes "bad chunk size")
      else done (record s { in_chunk = v }))

unfoldable pub abort_message : RtmpSession → List ℕ → Step
unfolding set_stream
abort_message s p =
    if leb 4 (length p)
    then (do
      id ← be p 4 0 0
      if ltb id s.stream_count
          then done (
              set_stream
                (record s {
                  assembly_bytes = size_sub s.assembly_bytes (length (s.streams id).acc);
                })
                id (record (s.streams id) { acc = [] }))
          else done s)
    else done s

unfoldable pub set_ack_window : RtmpSession → List ℕ → Step
set_ack_window s p =
    if leb 4 (length p) then (do w ← be p 4 0 0; done (record s { ack_window = w })) else done s

unfoldable pub user_control : RtmpSession → List ℕ → Step
unfolding send_msg
user_control s p =
    if leb 2 (length p)
    then (do
      ev ← be p 2 0 0
      if ev == 6 && leb 6 (length p)
          then (do
            b2 ← get_elem? p 2
            b3 ← get_elem? p 3
            b4 ← get_elem? p 4
            b5 ← get_elem? p 5
            done (send_msg s 2 4 0 (0 ∷ 7 ∷ b2 ∷ b3 ∷ b4 ∷ b5 ∷ [])))
          else done s)
    else done s

unfoldable pub on_message : RtmpSession → ChunkStream → List ℕ → Step
unfolding set_chunk_size abort_message set_ack_window user_control
on_message s c p =
    if c.kind == 1
    then set_chunk_size s p
    else if c.kind == 2
    then abort_message s p
    else if c.kind == 5 || c.kind == 6
    then set_ack_window s p
    else if c.kind == 4
    then user_control s p
    else if c.kind == 8 || (c.kind == 9 || c.kind == 18)
    then (do s' ← on_media s c.kind c.ts p; done s')
    else if c.kind == 20
    then on_command s c p
    else done s

-- Counts `n` bytes, and acknowledges them once per window.
unfoldable pub acknowledge : RtmpSession → ℕ → RtmpSession
unfolding send_msg
acknowledge s n =
    let got = (s.bytes_in + n) % 2 ^ 64 in
    if not (s.ack_window == 0) && leb s.ack_window (size_sub got s.acked)
    then send_msg (record s { bytes_in = got; acked = got }) 2 3 0 (be_bytes 4 (got % 2 ^ 32))
    else record s { bytes_in = got }

-- The end of a chunk that was consumed.
unfoldable pub within_out : ℕ → RtmpSession → Step
within_out start s =
    if ltb rtmp_max_out_bytes (length s.to_peer)
    then failed s (codes "peer is not reading its responses")
    else some (ltb start s.in_pos, s)

-- Takes `n` bytes at `pos` into the stream, and hands on the message that they end.
unfoldable pub commit : RtmpSession → ℕ → ChunkStream → ℕ → ℕ → Step
unfolding set_stream on_message within_out acknowledge
commit s csid c pos n =
    let acc' = c.acc ++ take n (drop pos s.input) in
    let s1 = acknowledge s (pos - s.in_pos + n) in
    if leb c.len (length acc')
    then (do
      r ←
          on_message
            (set_stream
              (record s1 {
                assembly_bytes = size_sub (s.assembly_bytes + n) (length acc');
                in_pos = pos + n;
              })
              csid (record c { acc = [] }))
            c acc'
      elim (r.0) [ true ↦ within_out s.in_pos r.1 | false ↦ some r ])
    else within_out s.in_pos (
        set_stream (record s1 { assembly_bytes = s.assembly_bytes + n; in_pos = pos + n }) csid
          (record c { acc = acc' }))

-- The chunk behind its headers, of the stream `c`.
unfoldable pub chunk_body : RtmpSession → BasicHeader → ChunkStream → ℕ → Step
unfolding commit
chunk_body s b c pos =
    let remaining = size_sub c.len (length c.acc) in
    let n = min remaining s.in_chunk in
    if ltb rtmp_max_message_bytes c.len
    then failed s (codes "message too large")
    else if not (b.fmt == 3) && not (no_text c.acc)
    then failed s (codes "header restarts a message already in progress")
    else if ltb (length s.input) (pos + n)
    then some (false, s)
    else if ltb rtmp_max_assembly_bytes (s.assembly_bytes + n)
    then failed s (codes "too many partial messages")
    else commit s b.csid c pos n

unfoldable pub with_message_header : RtmpSession → BasicHeader → Option (ChunkStream × ℕ) → Step
unfolding chunk_body
with_message_header s b none = some (false, s)
with_message_header s b (some t) = chunk_body s b t.0 t.1

unfoldable pub with_basic_header : RtmpSession → Option BasicHeader → Step
unfolding resized with_message_header
with_basic_header s none = some (false, s)
with_basic_header s (some b) =
    if ltb rtmp_max_chunk_stream b.csid
    then failed s (codes "chunk stream id out of range")
    else let s1 = resized s b.csid in
      (do
        m ← message_header s.input (s.in_pos + b.size) b.fmt (s.streams b.csid)
        with_message_header s1 b m)

unfoldable pub parse_chunks : RtmpSession → Step
unfolding with_basic_header
parse_chunks s = do b ← basic_header s.input s.in_pos; with_basic_header s b
