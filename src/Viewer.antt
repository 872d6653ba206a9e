-- ===== src/Viewer.antt =====
-- videoview.h: a viewer of a slot's stream. `ws` tells a WebSocket viewer, whose sends queue.
pub mod Join
pub mod Push
use support_proxy.Base.{ℕ, ◌+◌, Bool, true, false, List, [], Option, none, ltb, ◌||◌, length}

abbrev pub video_viewer_write_chunk : ℕ
video_viewer_write_chunk = 65536

abbrev pub video_viewer_stuck_s : ℕ
video_viewer_stuck_s = 10

abbrev pub viewer_chunk : ℕ
viewer_chunk = 16384

pub data ViewerState : Type 0 where
  detect responding streaming closing : ViewerState

pub data ViewerKind : Type 0 where
  unknown http raw ws rtsp mkv rtmp rtsp_view : ViewerKind

pub record VideoViewer : Type 0 where
  pub state : ViewerState
  pub kind : ViewerKind
  pub last_progress : ℕ
  pub behind_since : ℕ
  pub prefix : List ℕ
  pub prefix_sent : ℕ
  pub out : List ℕ
  pub out_sent : ℕ
  pub read_pos : ℕ
  pub is_streaming : Bool
  pub bytes_sent : ℕ
  pub blocked : Bool
  pub drop_reason : List ℕ

-- What the viewers read of a slot's scanner.
pub record VideoScanner : Type 0 where
  pub join_offset : Option ℕ
  pub prefix : List ℕ
  pub matroska : Bool

-- What a send answers: `room` for that many bytes at most, EINTR, EAGAIN, or another error.
pub data SendAnswer : Type 0 where
  room : ℕ → SendAnswer
  interrupted again broken : SendAnswer

unfoldable pub wants_write : VideoViewer → Bool
wants_write v = v.blocked || ltb v.out_sent (length v.out)
