-- ===== src/Tests/Ingest.antt =====
-- RTMP sessions at concrete bytes.
use support_proxy.Base.{
  ℕ, ◌≡◌, ◌≢◌, refl, sym, zero, suc, ◌≤◌, Bool, true, false, List, [], ◌∷◌, ◌++◌, Option, none,
  some, length, replicate, codes, arith, inl,
}
use support_proxy.Base.Returns.{Returns}
use support_proxy.Rtmp.{
  fresh_stream, RtmpSession, new_session, chunks, dead, rtmp_prepublish_max_bytes,
}
use support_proxy.Rtmp.Amf.{be, amf_num, amf_str, amf_null}
use support_proxy.Rtmp.Out.{bytes_at, on_media, codec_of, unwrapped}
use support_proxy.Rtmp.Chunk.{basic_header, message_header, mh}
use support_proxy.Rtmp.Command.{on_command}
use support_proxy.Rtmp.Message.{parse_chunks}
use support_proxy.Rtmp.Feed.{feed}
use support_proxy.Rtmp.Sound.{IsSound, held, stream_slots}
use support_proxy.Rtmp.Quiet.{on_command_keeps_credential}
use support_proxy.Rtmp.Steps.{parse_chunks_waits}
use support_proxy.Rtmp.Reads.{feed_retains}
use support_proxy.Rtmp.Reached.{Reached, begun, fed, Reached-feed, Reached-unheard, Reached-frugal}

-- The peer's half of the handshake.
abbrev hello : List ℕ
hello = 3 ∷ replicate 3072 7

abbrev session_of : Option (Bool × RtmpSession) → RtmpSession
session_of none = new_session
session_of (some r) = r.1

abbrev greeted : RtmpSession
greeted = session_of (feed new_session hello 100)

greeted_reached : feed new_session hello 100 ≡ some (true, greeted)
unfolding feed new_session bytes_at parse_chunks basic_header
greeted_reached = refl

greeted-Reached : Reached greeted
greeted-Reached = fed hello 100 begun (omega arith) greeted_reached

-- An empty command, in two pieces.
abbrev command : List ℕ
command = 3 ∷ 0 ∷ 0 ∷ 0 ∷ 0 ∷ 0 ∷ 1 ∷ 20 ∷ 0 ∷ 0 ∷ 0 ∷ 0 ∷ 5 ∷ []

Reached-feed_example : Returns (λ r. IsSound r.1) (feed greeted command 101)
Reached-feed_example = Reached-feed greeted command 101 greeted-Reached

greeted_silent : greeted.publishing ≡ false
unfolding feed new_session bytes_at parse_chunks basic_header
greeted_silent = refl

Reached-unheard_example : (greeted.to_flv ≡ []) × (greeted.media_bytes ≡ 0)
Reached-unheard_example = Reached-unheard greeted greeted-Reached greeted_silent

Reached-frugal_example : length greeted.input ≤ rtmp_prepublish_max_bytes
Reached-frugal_example = Reached-frugal greeted greeted-Reached greeted_silent

-- A session behind its handshake.
abbrev opened : Bool → List ℕ → RtmpSession
opened live bytes = record new_session { state = chunks; publishing = live; input = bytes }

held_nothing : (n : ℕ) (live : Bool) (bytes : List ℕ) → held n (opened live bytes).streams ≡ 0
unfolding held new_session
held_nothing zero live bytes = refl
held_nothing (suc n) live bytes = omega (arith, held_nothing n live bytes)

opened-IsSound : (live : Bool) (bytes : List ℕ) → IsSound (opened live bytes)
unfolding new_session
opened-IsSound live bytes = record {
  position = omega arith;
  some_chunk = omega arith;
  chunk_bound = omega arith;
  slots = omega arith;
  fresh = λ k h. refl;
  partial = λ k. inl refl;
  counted = sym (held_nothing stream_slots live bytes);
  capped = omega arith;
}

live_ne : chunks ≢ dead
live_ne e = ground (arith, e)

-- The first bytes of a header.
abbrev waiting : RtmpSession
waiting = session_of (parse_chunks (opened false (4 ∷ 0 ∷ 0 ∷ [])))

parse_chunks_waits_example :
    waiting ≡ record (opened false (4 ∷ 0 ∷ 0 ∷ [])) { stream_count = waiting.stream_count }
unfolding parse_chunks basic_header message_header new_session mh
parse_chunks_waits_example =
    parse_chunks_waits (opened false (4 ∷ 0 ∷ 0 ∷ [])) waiting
      (opened-IsSound false (4 ∷ 0 ∷ 0 ∷ [])) refl live_ne

-- A message of two bytes of audio.
abbrev audio : List ℕ
audio = 4 ∷ 0 ∷ 0 ∷ 0 ∷ 0 ∷ 0 ∷ 2 ∷ 8 ∷ 1 ∷ 0 ∷ 0 ∷ 0 ∷ 175 ∷ 1 ∷ []

abbrev heard : RtmpSession
heard = session_of (feed (opened true []) audio 7)

feed_retains_example : heard.input ≡ audio
unfolding feed parse_chunks basic_header new_session message_header mh be on_media codec_of
    unwrapped
feed_retains_example =
    feed_retains (opened true []) audio 7 true heard (opened-IsSound true []) refl live_ne refl refl

-- FCPublish with another credential.
abbrev offering : List ℕ
offering = amf_str (codes "FCPublish") ++ (amf_num 0 ++ (amf_null ++ amf_str (codes "cam?pw=b")))

abbrev holding : RtmpSession
holding = record new_session { connected = true; password_present = true; password = codes "a" }

on_command_keeps_credential_example :
    Returns
      (λ r. ((r.1).password_present ≡ true) × ((r.1).password ≡ codes "a"))
      (on_command holding fresh_stream offering)
on_command_keeps_credential_example =
    on_command_keeps_credential holding fresh_stream offering refl refl
