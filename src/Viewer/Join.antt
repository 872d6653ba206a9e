-- ===== src/Viewer/Join.antt =====
-- How a viewer starts: who may watch, and where in the stream it begins. SHA256 is a parameter.
use support_proxy.Base.{
  ℕ, Bool, true, false, not, ◌&&◌, ◌||◌, List, [], ◌∷◌, ◌++◌, Option, none, some, ◌==◌,
  if◌then◌else◌, length, codes, has_bits,
}
use support_proxy.KeyDb.{KeyEntry}
use support_proxy.KeyDb.Slots.{video_slot_opts_of}
use support_proxy.Http.Request.{HttpRequest, header, http_basic_password}
use support_proxy.Http.Query.{http_query_value}
use support_proxy.VideoAuth.{any_set, video_password_matches}
use support_proxy.VideoAuth.Token.{decimal, video_token_valid}
use support_proxy.Ring.{VideoRing, resident}
use support_proxy.Relay.Guard.{until_nul}
use support_proxy.Viewer.{
  VideoViewer, VideoScanner, ViewerKind, ViewerState, detect, responding, streaming, http, raw,
  unknown, ws, rtsp, mkv, rtmp, rtsp_view, closing,
}

abbrev pub line_end : List ℕ
line_end = 13 ∷ 10 ∷ []

-- The heads are shorter than the buffer for every code and reason that is passed.
unfoldable pub http_simple_response : ℕ → List ℕ → List ℕ → List ℕ → List ℕ
http_simple_response code reason content_type text =
    codes "HTTP/1.1 "
    ++ (decimal 10 code
        ++ (codes " "
            ++ (reason
                ++ (line_end
                    ++ (codes "Content-Type: "
                        ++ (content_type
                            ++ (line_end
                                ++ (codes "Content-Length: "
                                    ++ (decimal 20 (length text)
                                        ++ (line_end
                                            ++ (codes "Cache-Control: no-store"
                                                ++ (line_end
                                                    ++ (codes "Connection: close"
                                                        ++ (line_end
                                                            ++ (line_end ++ text)))))))))))))))

abbrev pub is_http : ViewerKind → Bool
is_http k = elim k [
  | http ↦ true
  | unknown ↦ false
  | raw ↦ false
  | ws ↦ false
  | rtsp ↦ false
  | mkv ↦ false
  | rtmp ↦ false
  | rtsp_view ↦ false
]

unfoldable pub fail : VideoViewer → ℕ → List ℕ → List ℕ → VideoViewer
unfolding http_simple_response
fail v code reason text = record v {
  out =
      if is_http v.kind
      then http_simple_response code reason (codes "text/plain") (text ++ (10 ∷ []))
      else v.out;
  drop_reason = reason;
  out_sent = 0;
  state = responding;
  is_streaming = false;
}

unfoldable pub stream_head : Bool → List ℕ
stream_head matroska =
    codes "HTTP/1.1 200 OK"
    ++ (line_end
        ++ (codes "Content-Type: "
            ++ ((if matroska then codes "video/x-matroska" else codes "video/mp2t")
                ++ (line_end
                    ++ (codes "Cache-Control: no-store"
                        ++ (line_end ++ (codes "Connection: close" ++ (line_end ++ line_end))))))))

-- A stream from the anchor on.
unfoldable pub anchored : VideoViewer → VideoScanner → Bool → ℕ → ℕ → VideoViewer
unfolding stream_head
anchored v sc over_http now at = record v {
  prefix = sc.prefix;
  prefix_sent = 0;
  read_pos = at;
  is_streaming = true;
  last_progress = now;
  behind_since = 0;
  out = if over_http then stream_head sc.matroska else [];
  out_sent = 0;
  state = if over_http then responding else streaming;
}

unfoldable pub begin_at : VideoViewer → VideoRing → VideoScanner → Bool → ℕ → Option ℕ → VideoViewer
unfolding fail anchored
begin_at v ring sc over_http now none = fail v 503 (codes "stream not ready") (
    codes
      "No decodable start point yet. The publisher has not sent a keyframe with program information.")
begin_at v ring sc over_http now (some at) =
    if not (resident ring at)
    then fail v 503 (codes "stream not ready") (codes "Join point is no longer buffered.")
    else anchored v sc over_http now at

-- It always answers true.
unfoldable pub begin_stream : VideoViewer → VideoRing → VideoScanner → Bool → ℕ → VideoViewer
unfolding begin_at
begin_stream v ring sc over_http now = begin_at v ring sc over_http now sc.join_offset

abbrev pub video_slot_raw_tcp : ℕ
video_slot_raw_tcp = 0x04

abbrev pub is_detecting : ViewerState → Bool
is_detecting st = elim st [
  | detect ↦ true
  | responding ↦ false
  | streaming ↦ false
  | closing ↦ false
]

unfoldable pub detect_timeout :
    VideoViewer → KeyEntry → ℕ → VideoRing → VideoScanner → ℕ → Bool × VideoViewer
unfolding begin_stream
detect_timeout v ke slot ring sc now =
    let as_raw : VideoViewer = record v { kind = raw } in
    if not (is_detecting v.state)
    then (true, v)
    else if not (has_bits (video_slot_opts_of ke slot) video_slot_raw_tcp)
    then (false, record as_raw { drop_reason = codes "raw-TCP viewers not enabled on this slot" })
    else if any_set ke.video_viewer_key
    then (false, record as_raw { drop_reason = codes "raw TCP cannot carry the viewer password" })
    else (true, begin_stream as_raw ring sc false now)

module _ (sha256 : List ℕ → List ℕ) where
  unfoldable pub video_viewer_authorised : KeyEntry → List ℕ → Bool
  video_viewer_authorised ke password =
      not (any_set ke.video_viewer_key)
      || video_password_matches sha256 ke.video_viewer_key password

-- The value of a parameter, or the empty text.
abbrev pub query_or_empty : HttpRequest → List ℕ → List ℕ
query_or_empty req name = elim (http_query_value req.target name) [ none ↦ [] | some v ↦ v ]

abbrev pub or_else : List ℕ → List ℕ → List ℕ
or_else s other = if length s == 0 then other else s

module _ (sha256 : List ℕ → List ℕ) (hmac : List ℕ → List ℕ → List ℕ)
    (base64 : List ℕ → Option (List ℕ)) where
  unfoldable pub ws_authorise : KeyEntry → ℕ → ℕ → HttpRequest → ℕ → Bool
  unfolding video_viewer_authorised
  ws_authorise ke port2 slot req now =
      let token = query_or_empty req (codes "t") in
      let pw =
        or_else (query_or_empty req (codes "pw"))
          (http_basic_password base64 (header req (codes "Authorization"))) in
      not (length token == 0)
        && video_token_valid hmac ke.secret_key port2 slot (until_nul token) now
      || video_viewer_authorised sha256 ke pw
