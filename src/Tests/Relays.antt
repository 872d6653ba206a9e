-- ===== src/Tests/Relays.antt =====
-- RTSP requests, RTP datagrams, a queue and a viewer at concrete bytes.
use support_proxy.Base.{ℕ, ◌≡◌, refl, true, false, List, [], ◌∷◌, ◌++◌, codes, arith}
use support_proxy.Base.Returns.{Returns}
use support_proxy.Ring.{VideoRing, init, write}
use support_proxy.Ring.Holds.{Holds}
use support_proxy.Ring.Stream.{init-Holds, write-Holds}
use support_proxy.Relay.Rtp.{rtp_payload_offset}
use support_proxy.Relay.Rtp.Bounds.{InPayload, rtp_payload_offset-InPayload}
use support_proxy.Relay.Queue as Queue
use support_proxy.Relay.Queue.Conserve.{Conserves, splice_flush-Conserves}
use support_proxy.Relay.Guard.{Relay, received, guard_rtsp_requests}
use support_proxy.Relay.Guard.Passed.{Relayed, guard_rtsp_requests-Relayed}
use support_proxy.Viewer.{VideoViewer, streaming, http, room, again}
use support_proxy.Viewer.Push.{on_writable}
use support_proxy.Viewer.Push.Gapless.{on_writable-Conserves}
use support_proxy.Viewer.Push.Parts.{owed}

abbrev datagram : List ℕ
datagram = 0x80 ∷ 96 ∷ 0 ∷ 0 ∷ 0 ∷ 0 ∷ 0 ∷ 0 ∷ 0 ∷ 0 ∷ 0 ∷ 0 ∷ 0x67 ∷ 1 ∷ []

rtp_payload_offset-InPayload_example : Returns (InPayload datagram) (rtp_payload_offset datagram)
rtp_payload_offset-InPayload_example = rtp_payload_offset-InPayload datagram

abbrev half_sent : Queue.SpliceQueue
half_sent = record { buf = 1 ∷ 2 ∷ 3 ∷ 4 ∷ []; sent = 1; armed = true }

splice_flush-Conserves_example :
    Conserves half_sent (Queue.splice_flush half_sent (Queue.room 2 ∷ Queue.again ∷ []))
splice_flush-Conserves_example =
    splice_flush-Conserves half_sent (Queue.room 2 ∷ Queue.again ∷ []) (omega arith)

-- A request with a credential and a body of five bytes, behind a byte of a body.
abbrev publisher : Relay
publisher = record {
  buffered = 7 ∷ codes "ANNOUNCE rtsp://h/?pw=k RTSP/1.0" ++ (13 ∷ 10 ∷ codes "Content-Length: 5");
  opaque_left = 1;
  to_backend = [];
}

abbrev blank_line : List ℕ
blank_line = 13 ∷ 10 ∷ 13 ∷ 10 ∷ []

abbrev same_text : List ℕ → List ℕ
same_text s = s

guard_rtsp_requests-Relayed_example :
    Returns
      (Relayed same_text (codes "k") (received same_text (codes "k") publisher blank_line))
      (guard_rtsp_requests same_text (codes "k") publisher blank_line)
guard_rtsp_requests-Relayed_example =
    guard_rtsp_requests-Relayed same_text (codes "k") publisher blank_line

abbrev three_bytes : List ℕ
three_bytes = 1 ∷ 2 ∷ 3 ∷ []

abbrev small_ring : VideoRing
small_ring = write ((init record { buf = []; write_pos = 0 } 4096).0) three_bytes

small_ring-Holds : Holds small_ring three_bytes
small_ring-Holds =
    (write-Holds ((init record { buf = []; write_pos = 0 } 4096).0) [] three_bytes
      (init-Holds record { buf = []; write_pos = 0 } 4096) (omega arith)).0

-- A viewer that has its head, half of its setup, and a byte of the stream.
abbrev watcher : VideoViewer
watcher = record {
  state = streaming;
  kind = http;
  last_progress = 5;
  behind_since = 0;
  prefix = 8 ∷ 9 ∷ [];
  prefix_sent = 1;
  out = [];
  out_sent = 0;
  read_pos = 1;
  is_streaming = true;
  bytes_sent = 0;
  blocked = false;
  drop_reason = [];
}

on_writable-Conserves_example :
    (on_writable false small_ring 6 watcher (room 9 ∷ room 1 ∷ again ∷ [])).out
      ++ owed three_bytes
          (on_writable false small_ring 6 watcher (room 9 ∷ room 1 ∷ again ∷ [])).viewer
    ≡ owed three_bytes watcher
on_writable-Conserves_example =
    on_writable-Conserves false small_ring three_bytes 6 watcher (room 9 ∷ room 1 ∷ again ∷ [])
      small_ring-Holds (omega arith) (λ _. refl)
