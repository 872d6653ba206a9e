-- ===== src/Rtmp/Command.antt =====
-- AMF commands: what each of them changes, and what is answered.
use support_proxy.Base.{
  ℕ, zero, suc, ◌+◌, ◌-◌, ◌*◌, ◌^◌, Bool, true, false, not, ◌||◌, List, [], ◌∷◌, ◌++◌, Option, none,
  some, ◌>>=◌, leb, ◌==◌, if◌then◌else◌, bytes_eq, codes,
}
use support_proxy.Rtmp.{ChunkStream, RtmpSession, no_text, fail, rtmp_out_chunk_size}
use support_proxy.Rtmp.Amf.{
  amf_num, amf_key, amf_str, amf_null, amf_obj_end, amf_skip, amf_levels, amf_read_string,
  amf_read_number, amf_object_strings, split_credential, be_bytes,
}
use support_proxy.Rtmp.Out.{send_msg, send_amf}

-- What a step answers, and the session; `none` where a byte out of bounds is read.
abbrev pub Step : Type 0
Step = Option (Bool × RtmpSession)

abbrev pub done : RtmpSession → Step
done s = some (true, s)

abbrev pub failed : RtmpSession → List ℕ → Step
failed s why = some (false, fail s why)

-- A natural number as the bits of a double, with `e` the largest exponent.
double_at : ℕ → ℕ → ℕ
double_at zero v = 1023 * 2 ^ 52
double_at (suc e) v =
    let rest = double_at e v in
    if leb (2 ^ suc e) v then (1024 + e) * 2 ^ 52 + (v - 2 ^ suc e) * 2 ^ (51 - e) else rest

unfoldable pub double_of : ℕ → ℕ
unfolding double_at
double_of v = if v == 0 then 0 else double_at 52 v

-- The text up to a NUL, as c_str() hands it on.
unfoldable pub c_str : List ℕ → List ℕ
c_str [] = []
c_str (c ∷ s) = let rest = c_str s in if c == 0 then [] else c ∷ rest

abbrev pub text : List ℕ → List ℕ → List ℕ
text k v = amf_key k ++ amf_str v

unfoldable pub status_object : List ℕ → List ℕ → List ℕ → List ℕ → List ℕ
status_object level code description more =
    (3 ∷ text (codes "level") level)
    ++ (text (codes "code") code
        ++ (text (codes "description") description ++ (more ++ amf_obj_end)))

unfoldable pub connect_result : ℕ → List ℕ
unfolding double_of status_object
connect_result txn =
    amf_str (codes "_result")
    ++ (amf_num txn
        ++ ((3 ∷ text (codes "fmsVer") (codes "FMS/3,0,1,123"))
            ++ (amf_key (codes "capabilities")
                ++ (amf_num (double_of 31)
                    ++ (amf_obj_end
                        ++ status_object (codes "status") (codes "NetConnection.Connect.Success")
                            (codes "Connection succeeded.")
                            (amf_key (codes "objectEncoding") ++ amf_num (double_of 0)))))))

unfoldable pub bandwidth_done : List ℕ
unfolding double_of
bandwidth_done =
    amf_str (codes "onBWDone") ++ (amf_num (double_of 0) ++ (amf_null ++ amf_num (double_of 8192)))

unfoldable pub answer_connect : RtmpSession → ℕ → RtmpSession
unfolding connect_result bandwidth_done send_msg send_amf
answer_connect s txn =
    let s1 = send_msg s 2 5 0 (0x00 ∷ 0x26 ∷ 0x25 ∷ 0xa0 ∷ []) in
    let s2 = send_msg s1 2 6 0 (0x00 ∷ 0x26 ∷ 0x25 ∷ 0xa0 ∷ 0x02 ∷ []) in
    let s3 = send_msg s2 2 4 0 (0 ∷ 0 ∷ 0 ∷ 0 ∷ 0 ∷ 0 ∷ []) in
    let s4 = send_msg s3 2 1 0 (be_bytes 4 rtmp_out_chunk_size) in
    let s5 = send_amf s4 3 0 (connect_result txn) in send_amf s5 3 0 bandwidth_done

unfoldable pub with_credential : RtmpSession → Option (List ℕ) → RtmpSession
with_credential s none = s
with_credential s (some pw) = record s { password = pw; password_present = true }

unfoldable pub from_tc_url : RtmpSession → List ℕ → RtmpSession
unfolding with_credential
from_tc_url s url = if no_text url then s else with_credential s ((split_credential url).1)

-- The credential of a connect, from the application's name, split, or else from the URL.
unfoldable pub from_app : RtmpSession → List ℕ → List ℕ × Option (List ℕ) → RtmpSession
unfolding from_tc_url
from_app s url (name, some pw) = record s { app = name; password = pw; password_present = true }
from_app s url (name, none) = from_tc_url (record s { app = name; password_present = false }) url

unfoldable pub connect_credential : RtmpSession → List ℕ → RtmpSession
unfolding from_app
connect_credential s url = from_app s url (split_credential s.app)

unfoldable pub on_connect : RtmpSession → List ℕ → ℕ → ℕ → Step
unfolding answer_connect connect_credential
on_connect s p i txn = if s.connected then failed s (codes "repeated connect") else (do
  r ← amf_object_strings p i (codes "app") s.app (codes "tcUrl")
  let s1 : RtmpSession = record s { connected = true; app = (r.1).v1 }
  if r.0
      then done (answer_connect (connect_credential s1 (r.1).v2) txn)
      else failed s1 (codes "malformed or duplicate connect property"))

-- Takes a credential where none is held.
unfoldable pub offer : RtmpSession → Option (List ℕ) → RtmpSession
offer s none = s
offer s (some pw) =
    if s.password_present then s else record s { password = pw; password_present = true }

unfoldable pub publish_start : List ℕ → List ℕ → List ℕ → List ℕ
unfolding double_of status_object
publish_start name description more =
    amf_str name
    ++ (amf_num (double_of 0)
        ++ (amf_null
            ++ status_object (codes "status") (codes "NetStream.Publish.Start") (c_str description)
                more))

-- The string behind the command object; the object's own result is not looked at.
unfoldable pub name_argument : List ℕ → ℕ → Option (Option (List ℕ × ℕ))
name_argument p i = do r ← amf_skip amf_levels p i; amf_read_string p r.1

abbrev pub or_publishing : List ℕ → List ℕ
or_publishing name = if no_text name then codes "Publishing." else name

-- The name that was read, or the empty one.
abbrev pub name_or_empty : Option (List ℕ × ℕ) → List ℕ
name_or_empty none = []
name_or_empty (some t) = t.0

unfoldable pub on_fc_publish : RtmpSession → List ℕ → ℕ → Step
unfolding offer publish_start name_argument send_amf
on_fc_publish s p i = do
  t ← name_argument p i
  let named = split_credential (name_or_empty t)
  done (
      send_amf (offer s named.1) 3 0
        (publish_start (codes "onFCPublish") (or_publishing named.0) []))

-- publish, once its stream name is read.
unfoldable pub named_publish : RtmpSession → ChunkStream → ℕ → Option (List ℕ × ℕ) → Step
unfolding offer
named_publish s c txn none = failed s (codes "publish without a stream name")
named_publish s c txn (some t) =
    let named = split_credential t.0 in
    done (record (offer (record s { stream = named.0 }) named.1) {
      publish_txn = txn;
      publish_sid = if c.sid == 0 then 1 else c.sid;
      publish_pending = true;
    })

unfoldable pub on_publish : RtmpSession → ChunkStream → List ℕ → ℕ → ℕ → Step
unfolding name_argument named_publish
on_publish s c p i txn =
    if s.publishing || s.publish_pending
    then failed s (codes "second publish on one connection")
    else if not s.connected
    then failed s (codes "publish before connect")
    else (do t ← name_argument p i; named_publish s c txn t)

abbrev pub result_null : ℕ → List ℕ
result_null txn = amf_str (codes "_result") ++ (amf_num txn ++ amf_null)

-- The branches by the name of the command.
unfoldable pub dispatch : RtmpSession → ChunkStream → List ℕ → List ℕ → ℕ → ℕ → Step
unfolding on_connect on_fc_publish on_publish send_amf double_of
dispatch s c p cmd i txn =
    if bytes_eq cmd (codes "connect")
    then on_connect s p i txn
    else if bytes_eq cmd (codes "releaseStream")
    then done (send_amf s 3 0 (result_null txn))
    else if bytes_eq cmd (codes "FCUnpublish") || bytes_eq cmd (codes "deleteStream")
    then (if s.publishing then failed s (codes "publisher unpublished") else done s)
    else if bytes_eq cmd (codes "closeStream")
    then done s
    else if bytes_eq cmd (codes "FCPublish")
    then on_fc_publish s p i
    else if bytes_eq cmd (codes "createStream")
    then done (send_amf s 3 0 (result_null txn ++ amf_num (double_of s.publish_sid)))
    else if bytes_eq cmd (codes "publish")
    then on_publish s c p i txn
    else if bytes_eq cmd (codes "play") || bytes_eq cmd (codes "play2")
    then failed s (codes "this port accepts publishers only")
    else done s

unfoldable pub named_command : RtmpSession → ChunkStream → List ℕ → Option (List ℕ × ℕ) → Step
unfolding dispatch
named_command s c p none = failed s (codes "unparseable command")
named_command s c p (some t) = do n ← amf_read_number p t.1; dispatch s c p t.0 n.1 n.0

unfoldable pub on_command : RtmpSession → ChunkStream → List ℕ → Step
unfolding named_command
on_command s c p = do t ← amf_read_string p 0; named_command s c p t
