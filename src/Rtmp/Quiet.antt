-- ===== src/Rtmp/Quiet.antt =====
-- The part of a session that no command and no answer of the caller changes.
use support_proxy.Base.{
  ℕ, ◌≡◌, refl, ◌∙◌, Bool, true, false, not, ◌||◌, List, [], ◌++◌, Option, none, some,
  if◌then◌else◌, bytes_eq, codes, arith,
}
use support_proxy.Base.Returns.{Returns, returns, Returns-then, Returns-weaken, Returns-test}
use support_proxy.Rtmp.{ChunkStream, RtmpSession, dead, no_text}
use support_proxy.Rtmp.Amf.{amf_num, split_credential, amf_levels}
use support_proxy.Rtmp.Amf.Total.{
  Anything, amf_skip-Within, amf_read_string-Returns, amf_read_number-Returns,
  amf_object_strings-Returns,
}
use support_proxy.Rtmp.Out.{send_msg, send_amf}
use support_proxy.Rtmp.Command.{
  done, failed, answer_connect, with_credential, from_tc_url, from_app, connect_credential,
  on_connect, offer, name_argument, name_or_empty, on_fc_publish, named_publish, on_publish,
  result_null, double_of, dispatch, named_command, publish_start, or_publishing, on_command,
}

pub record Core : Type 0 where
  pub input : List ℕ
  pub in_pos : ℕ
  pub in_chunk : ℕ
  pub streams : ℕ → ChunkStream
  pub stream_count : ℕ
  pub assembly_bytes : ℕ
  pub publishing : Bool
  pub to_flv : List ℕ
  pub media_bytes : ℕ
  pub total_in : ℕ

abbrev pub core : RtmpSession → Core
core s = record {
  input = s.input;
  in_pos = s.in_pos;
  in_chunk = s.in_chunk;
  streams = s.streams;
  stream_count = s.stream_count;
  assembly_bytes = s.assembly_bytes;
  publishing = s.publishing;
  to_flv = s.to_flv;
  media_bytes = s.media_bytes;
  total_in = s.total_in;
}

-- A step ends a session that it answers false for; a credential that is held after a connect stays.
pub record Quiet (s : RtmpSession) (r : Bool × RtmpSession) : Type 0 where
  pub core_kept : core r.1 ≡ core s
  pub stopped : r.0 ≡ false → (r.1).state ≡ dead
  pub credential_kept :
      s.connected ≡ true
      → s.password_present ≡ true
      → ((r.1).password_present ≡ true) × ((r.1).password ≡ s.password)

refused : (s : RtmpSession) (why : List ℕ) → Returns (Quiet s) (failed s why)
refused s why =
    returns (record { core_kept = refl; stopped = λ _. refl; credential_kept = λ _ h. (h, refl) })

answered :
    (s s' : RtmpSession)
    → core s' ≡ core s
    → (s.password_present ≡ true → (s'.password_present ≡ true) × (s'.password ≡ s.password))
    → Returns (Quiet s) (done s')
answered s s' e h =
    returns (record { core_kept = e; stopped = λ x. ground arith; credential_kept = λ _. h })

pub quiet_if :
    (t : Bool) (s a b : RtmpSession)
    → core a ≡ core s
    → core b ≡ core s
    → core (if t then a else b) ≡ core s
quiet_if true s a b f g = f
quiet_if false s a b f g = g

with_credential-core : (s : RtmpSession) (o : Option (List ℕ)) → core (with_credential s o) ≡ core s
unfolding with_credential
with_credential-core s none = refl
with_credential-core s (some pw) = refl

from_tc_url-core : (s : RtmpSession) (url : List ℕ) → core (from_tc_url s url) ≡ core s
unfolding from_tc_url
from_tc_url-core s url =
    quiet_if (no_text url) s s _ refl (with_credential-core s ((split_credential url).1))

from_app-core :
    (s : RtmpSession) (url : List ℕ) (n : List ℕ × Option (List ℕ))
    → core (from_app s url n) ≡ core s
unfolding from_app
from_app-core s url (name, some pw) = refl
from_app-core s url (name, none) =
    from_tc_url-core (record s { app = name; password_present = false }) url

offer-core : (s : RtmpSession) (o : Option (List ℕ)) → core (offer s o) ≡ core s
unfolding offer
offer-core s none = refl
offer-core s (some pw) = quiet_if s.password_present s s _ refl refl

answer_connect-core : (s : RtmpSession) (txn : ℕ) → core (answer_connect s txn) ≡ core s
unfolding answer_connect send_msg send_amf
answer_connect-core s txn = refl

send_amf-core :
    (s : RtmpSession) (csid sid : ℕ) (b : List ℕ) → core (send_amf s csid sid b) ≡ core s
unfolding send_amf send_msg
send_amf-core s csid sid b = refl

connect_answered-core :
    (s : RtmpSession) (url : List ℕ) (txn : ℕ)
    → core (answer_connect (connect_credential s url) txn) ≡ core s
unfolding connect_credential
connect_answered-core s url txn =
    answer_connect-core (connect_credential s url) txn
    ∙ from_app-core s url (split_credential s.app)

offer-kept :
    (s : RtmpSession) (o : Option (List ℕ))
    → s.password_present ≡ true
    → ((offer s o).password_present ≡ true) × ((offer s o).password ≡ s.password)
unfolding offer
offer-kept s none h = (h, refl)
offer-kept s (some pw) h = (ground (arith, h), ground (arith, h))

sent : (s : RtmpSession) (b : List ℕ) → Returns (Quiet s) (done (send_amf s 3 0 b))
unfolding send_amf send_msg
sent s b = answered s _ refl (λ h. (h, refl))

offer_answered :
    (s : RtmpSession) (o : Option (List ℕ)) (b : List ℕ)
    → Returns (Quiet s) (done (send_amf (offer s o) 3 0 b))
unfolding send_amf send_msg
offer_answered s o b = answered s _ (offer-core s o) (offer-kept s o)

name_argument-Returns : (p : List ℕ) (i : ℕ) → Returns Anything (name_argument p i)
unfolding name_argument
name_argument-Returns p i =
    Returns-then (amf_skip-Within amf_levels p i)
      λ r _. Returns-weaken (amf_read_string-Returns p r.1) (λ t _. tt)

on_connect-Quiet :
    (s : RtmpSession) (p : List ℕ) (i txn : ℕ) → Returns (Quiet s) (on_connect s p i txn)
unfolding on_connect
on_connect-Quiet s p i txn =
    Returns-test s.connected (λ _. refused s (codes "repeated connect"))
      (λ new.
        Returns-then (amf_object_strings-Returns p i (codes "app") s.app (codes "tcUrl")) (λ r _.
          Returns-test r.0
            (λ _. returns (record {
              core_kept =
                  connect_answered-core (record s { connected = true; app = (r.1).v1 }) (r.1).v2
                    txn;
              stopped = λ x. ground arith;
              credential_kept = λ c. ground (arith, c, new);
            }))
            (λ _. returns (record {
              core_kept = refl;
              stopped = λ _. refl;
              credential_kept = λ c. ground (arith, c, new);
            }))))

on_fc_publish-Quiet :
    (s : RtmpSession) (p : List ℕ) (i : ℕ) → Returns (Quiet s) (on_fc_publish s p i)
unfolding on_fc_publish
on_fc_publish-Quiet s p i = Returns-then (name_argument-Returns p i) λ t _.
    let named = split_credential (name_or_empty t) in
    offer_answered s named.1 (publish_start (codes "onFCPublish") (or_publishing named.0) [])

named_publish-Quiet :
    (s : RtmpSession) (c : ChunkStream) (txn : ℕ) (t : Option (List ℕ × ℕ))
    → Returns (Quiet s) (named_publish s c txn t)
unfolding named_publish
named_publish-Quiet s c txn none = refused s (codes "publish without a stream name")
named_publish-Quiet s c txn (some t) =
    let named = split_credential t.0 in
    let s1 : RtmpSession = record s { stream = named.0 } in
    answered s _ (offer-core s1 named.1) (offer-kept s1 named.1)

on_publish-Quiet :
    (s : RtmpSession) (c : ChunkStream) (p : List ℕ) (i txn : ℕ)
    → Returns (Quiet s) (on_publish s c p i txn)
unfolding on_publish
on_publish-Quiet s c p i txn =
    Returns-test (s.publishing || s.publish_pending)
      (λ _. refused s (codes "second publish on one connection"))
      (λ _.
        Returns-test (not s.connected) (λ _. refused s (codes "publish before connect"))
          (λ _. Returns-then (name_argument-Returns p i) (λ t _. named_publish-Quiet s c txn t)))

dispatch-Quiet :
    (s : RtmpSession) (c : ChunkStream) (p cmd : List ℕ) (i txn : ℕ)
    → Returns (Quiet s) (dispatch s c p cmd i txn)
unfolding dispatch
dispatch-Quiet s c p cmd i txn =
    let ignored = answered s s refl (λ h. (h, refl)) in
    Returns-test (bytes_eq cmd (codes "connect")) (λ _. on_connect-Quiet s p i txn)
      (λ _.
        Returns-test (bytes_eq cmd (codes "releaseStream")) (λ _. sent s (result_null txn))
          (λ _.
            Returns-test (bytes_eq cmd (codes "FCUnpublish") || bytes_eq cmd (codes "deleteStream"))
              (λ _.
                Returns-test s.publishing (λ _. refused s (codes "publisher unpublished"))
                  (λ _. ignored))
              (λ _.
                Returns-test (bytes_eq cmd (codes "closeStream")) (λ _. ignored)
                  (λ _.
                    Returns-test (bytes_eq cmd (codes "FCPublish")) (λ _. on_fc_publish-Quiet s p i)
                      (λ _.
                        Returns-test (bytes_eq cmd (codes "createStream"))
                          (λ _. sent s (result_null txn ++ amf_num (double_of s.publish_sid)))
                          (λ _.
                            Returns-test (bytes_eq cmd (codes "publish"))
                              (λ _. on_publish-Quiet s c p i txn)
                              (λ _.
                                Returns-test
                                  (bytes_eq cmd (codes "play") || bytes_eq cmd (codes "play2"))
                                  (λ _. refused s (codes "this port accepts publishers only"))
                                  (λ _. ignored))))))))

named_command-Quiet :
    (s : RtmpSession) (c : ChunkStream) (p : List ℕ) (t : Option (List ℕ × ℕ))
    → Returns (Quiet s) (named_command s c p t)
unfolding named_command
named_command-Quiet s c p none = refused s (codes "unparseable command")
named_command-Quiet s c p (some t) =
    Returns-then (amf_read_number-Returns p t.1) λ n _. dispatch-Quiet s c p t.0 n.1 n.0

-- A command returns whatever its bytes are; it leaves the core of the session alone, and ends a
-- session that it answers false for. Behind a connect it leaves a credential that is held.
pub on_command-Quiet :
    (s : RtmpSession) (c : ChunkStream) (p : List ℕ) → Returns (Quiet s) (on_command s c p)
unfolding on_command
on_command-Quiet s c p =
    Returns-then (amf_read_string-Returns p 0) λ t _. named_command-Quiet s c p t

-- A command behind a connect returns whatever its bytes are, and leaves a credential that is held
-- already in place.
pub on_command_keeps_credential :
    (s : RtmpSession) (c : ChunkStream) (p : List ℕ)
    → s.connected ≡ true
    → s.password_present ≡ true
    → Returns
        (λ r. ((r.1).password_present ≡ true) × ((r.1).password ≡ s.password))
        (on_command s c p)
on_command_keeps_credential s c p joined held =
    Returns-weaken (on_command-Quiet s c p) (λ r q. q.credential_kept joined held)
