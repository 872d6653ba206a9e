-- ===== src/Lib.antt =====
-- SupportProxy relays MAVLink between a vehicle and support engineers, and video from a vehicle's
-- cameras to viewers. These files model the parts of the C++ program with the most logic of their
-- own; each part is a module of functions on a state record, beside the theorems about it.
--
-- - Ring (videostream.cpp, videostream.h): the ring buffer of one video slot, `init`, `write`,
--   `oldest`, `resident`, `read_at`, `reset`. Positions are 64 bits wide, with the wrap-around
--   written out; the theorems ask for streams of fewer than 2 ^ 64 bytes.
-- - WebSocket (websocket.cpp, websocket.h): Detect is `detect`, Frame the header of `decode_frames`
--   and of `queue_frame`, Output `queue_frame`, `flush` and `send`, Handshake `send_handshake` and
--   `check_headers`, Input `fill_pending`, `decode_frames` and `recv`. What the socket or OpenSSL
--   answers is an argument, one answer a call. The Accept value, base64 of SHA1, is a parameter. A
--   read of a byte is an Option, so that a read out of bounds would show. `decode_frames` runs on
--   fuel of one more than the bytes in the buffer: a frame takes at least six of them.
-- - Tdb: what the databases need of libtdb, as a record of operations and laws; a table is a
--   parameter of both databases.
-- - KeyDb (keydb.cpp, keydb.h): the configuration of a port pair, the options of its video slots,
--   `db_load_key` and `db_save_key`.
-- - ConnDb (conntdb.cpp, conntdb.h): the rows of live connections, `conn_write`, `conn_delete`,
--   `conn_get_user`, `conn_drop_mask`, `conn_delete_for_port2` and `conn_delete_index_range`.
-- - VideoAuth (videoauth.cpp, videoauth.h): who may publish video. `admit` reads the configuration
--   of KeyDb and, through `conn_get_user`, the row that the session child keeps in ConnDb, which it
--   caches. Token is `video_token_valid`. SHA256 and HMAC are parameters.
-- - Ts (videots.cpp, videots.h): the scanner of an MPEG transport stream. Crc is `ts_crc32`, Psi
--   `PSIAssembler::feed`, Tables `parse_pat` and `parse_pmt`, Packet `packet`, Feed `feed`. Reads are
--   Options. The loop of `feed` has fuel of one more than the chunk's bytes, of which a round that
--   goes on takes 188; that of `parse_pmt` one more than the section's, of which a round takes five.
-- - Binlog (binlog.cpp, binlog.h): the capture of a vehicle's log. Seen is the bitmap of
--   `seqno_seen` and `mark_seqno_seen`, Gaps `queue_gap_nacks` and `drop_stale_nack_state`, Reboot
--   `observe` and `rotate_for_reboot`, Block `handle_block`, Tick `tick`, and Life any sequence of
--   them. A file is the byte at each offset; what the file system, the clock and the quota answer in
--   a call is an argument, and so is whether the link takes a message. Times are whole milliseconds.
-- - Mav (mavlink.cpp, mavlink.h): a link. Signing is the key and the timestamps over KeyDb, Receive
--   `receive_message`, Send `send_message`. MAVLink's parser is a parameter, with the report of a
--   bad signature as a named hypothesis, and so are its tables, its finalize, with what it is
--   documented to do as a named hypothesis, and its serializer; what the socket answers is an
--   argument. Timestamps are 64 bits wide, times whole milliseconds.
-- - Http (httpreq.cpp, httpreq.h): requests on a video port. Request is `feed`, `parse`, `header`,
--   `header_count` and `http_basic_password`, with base64 as a parameter; Query is
--   `http_url_decode`, `http_query_value` and `http_redact_target`. A text is a list of bytes.
-- - Cleanup (cleanup.cpp): which log files are deleted, `session_file_kind`, `enforce_quota`,
--   `retention_pass` and `cleanup_for_port2`. A directory is the list of its files, the answer of
--   unlink a parameter; times are whole seconds, and so is the retention.
-- - Rtmp (videortmp.cpp, videortmp.h): a publisher's RTMP session. Amf is the AMF0 reader and
--   `split_credential`, Out `send_msg` and the FLV writer, Command `on_command`, Answer
--   `accept_publish` and `reject_publish`, Chunk the headers and Message the rest of `parse_chunks`
--   with `on_message`, Feed `do_handshake`, `run_parser`, `feed` and `resume`. Reads are Options; an
--   AMF value is skipped to a depth of 8, on fuel of one more than the message's bytes for a list of
--   members, and the loop of `run_parser` on one more than the bytes that are not consumed.
-- - Relay (video.cpp): what the video child passes on for a publisher. Guard is
--   `guard_rtsp_requests`, on fuel of one more than its bytes, of which a round forwards one at least;
--   Queue is `SpliceQueue` and `splice_flush`, Rtp `rtp_payload_offset` and `rtp_codec_hint`.
-- - Viewer (videoview.cpp, videoview.h): who may watch a stream and where it starts (Join), and a turn
--   of `on_writable` over the ring of Ring (Push). What the socket or the WebSocket answers is an
--   argument, one answer a call.
-- - Base: shared names, lists and options over native numbers, memcpy, byte and bit tests, records
--   of a fixed layout. Tests: small runs, with a table of rows as an association list.
--
-- Not modelled: opening files, transactions, failing allocations, creating SSL contexts, printing,
-- and the parts that are socket or process I/O (supportproxy.cpp, util.cpp, videortsp.cpp, and the
-- rest of video.cpp); playback over RTSP, recording, the telemetry log and the names of sessions.
pub mod Base
pub mod Ring
pub mod WebSocket
pub mod Tdb
pub mod KeyDb
pub mod ConnDb
pub mod VideoAuth
pub mod Ts
pub mod Binlog
pub mod Mav
pub mod Http
pub mod Cleanup
pub mod Relay
pub mod Rtmp
pub mod Viewer
mod Tests
