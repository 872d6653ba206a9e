-- ===== src/Rtmp/Media.antt =====
-- Media returns, and changes the FLV side of a session that publishes only.
use support_proxy.Base.{
  ℕ, ◌+◌, ◌%◌, ◌/◌, ◌≤◌, ◌<◌, refl, true, not, ◌||◌, List, leb, ◌==◌, length, arith,
}
use support_proxy.Base.Returns.{Returns, returns, Returns-then, Returns-test}
use support_proxy.Rtmp.{RtmpSession, VideoCodec, no_codec, h264, other_codec}
use support_proxy.Rtmp.Amf.Total.{Anything, get_elem?-Returns}
use support_proxy.Rtmp.Out.{
  bytes_at, detect_codec, codec_of, is_set_data_frame, unwrapped, on_media, write_flv_tag,
}
use support_proxy.Rtmp.Handled.{Handled, same_core-Handled}

bytes_at-Returns : (p : List ℕ) (i n : ℕ) → i + n ≤ length p → Returns Anything (bytes_at p i n)
unfolding bytes_at
bytes_at-Returns p i n h =
    Returns-test (leb (i + n) (length p)) (λ _. returns tt) (λ f. absurd (ground (arith, f, h)))

detect_codec-Returns :
    (p : List ℕ) (v : VideoCodec) → 0 < length p → Returns Anything (detect_codec p v)
unfolding detect_codec
detect_codec-Returns p v h = Returns-then (get_elem?-Returns p 0 h) λ b _.
    Returns-test (b / 128 % 2 == 0) (λ _. returns tt)
      (λ _.
        Returns-test (leb 5 (length p))
          (λ g. Returns-then (bytes_at-Returns p 1 4 (ground (arith, g))) (λ f _. returns tt))
          (λ _. returns tt))

codec_of-Returns :
    (kind : ℕ) (p : List ℕ) (v : VideoCodec) → 0 < length p → Returns Anything (codec_of kind p v)
unfolding codec_of
codec_of-Returns kind p no_codec h =
    Returns-test (kind == 9) (λ _. detect_codec-Returns p no_codec h) (λ _. returns tt)
codec_of-Returns kind p h264 h = returns tt
codec_of-Returns kind p other_codec h = returns tt

is_set_data_frame-Returns : (p : List ℕ) → Returns Anything (is_set_data_frame p)
unfolding is_set_data_frame
is_set_data_frame-Returns p =
    Returns-test (leb (length p) 16) (λ _. returns tt)
      (λ f. Returns-then (get_elem?-Returns p 0 (ground (arith, f))) (λ m _.
        Returns-then (get_elem?-Returns p 1 (ground (arith, f))) (λ hi _.
          Returns-then (get_elem?-Returns p 2 (ground (arith, f))) (λ lo _.
            Returns-then (bytes_at-Returns p 3 13 (ground (arith, f))) (λ t _. returns tt)))))

unwrapped-Returns : (kind : ℕ) (p : List ℕ) → Returns Anything (unwrapped kind p)
unfolding unwrapped
unwrapped-Returns kind p =
    Returns-test (kind == 18) (λ _. Returns-then (is_set_data_frame-Returns p) (λ w _. returns tt))
      (λ _. returns tt)

pub on_media-Handled :
    (s : RtmpSession) (kind ts : ℕ) (p : List ℕ)
    → Returns (λ s'. Handled s (true, s')) (on_media s kind ts p)
unfolding on_media write_flv_tag
on_media-Handled s kind ts p =
    Returns-test (not s.publishing || length p == 0)
      (λ _. returns (same_core-Handled s (true, s) refl (λ x. ground arith)))
      (λ f. Returns-then (codec_of-Returns kind p s.vcodec (ground (arith, f))) (λ codec _.
        Returns-then (unwrapped-Returns kind p) (λ media _. returns (record {
          input_kept = refl;
          in_pos_kept = refl;
          publishing_kept = refl;
          flv_kept = λ e. absurd (ground (arith, f, e));
          media_kept = λ e. absurd (ground (arith, f, e));
          total_kept = refl;
          stopped = λ x. ground arith;
          sound = λ v. record {
            position = v.position;
            some_chunk = v.some_chunk;
            chunk_bound = v.chunk_bound;
            slots = v.slots;
            fresh = v.fresh;
            partial = v.partial;
            counted = v.counted;
            capped = v.capped;
          };
        }))))
