-- ===== src/Rtmp/Answer.antt =====
-- The answers of the caller, once it has looked at a publish.
use support_proxy.Base.{ℕ, true, false, not, List, [], ◌∷◌, ◌++◌, ◌==◌, if◌then◌else◌, codes}
use support_proxy.Rtmp.{RtmpSession, dead, no_text}
use support_proxy.Rtmp.Amf.{amf_num, amf_key, amf_str, amf_null, be_bytes}
use support_proxy.Rtmp.Out.{send_msg, write_flv_header}
use support_proxy.Rtmp.Command.{c_str, double_of, publish_start, status_object}

unfoldable pub published : List ℕ → List ℕ
published name = if no_text name then codes "Publishing." else name ++ codes " is now published."

unfoldable pub accept_publish : RtmpSession → RtmpSession
unfolding published
accept_publish s =
    if not s.publish_pending
    then s
    else let s1 : RtmpSession = record s {
      publish_pending = false;
      publishing = true;
      publishing_since = if s.now == 0 then s.started else s.now;
    } in
      let s2 = send_msg s1 2 4 0 (0 ∷ 0 ∷ be_bytes 4 s.publish_sid) in
      let status =
        publish_start (codes "onStatus") (published s.stream)
          (amf_key (codes "clientid") ++ amf_num (double_of 1)) in
      write_flv_header (send_msg s2 5 20 s.publish_sid status)

unfoldable pub reject_publish : RtmpSession → List ℕ → List ℕ → RtmpSession
reject_publish s code description =
    let status =
      amf_str (codes "onStatus")
      ++ (amf_num s.publish_txn
          ++ (amf_null ++ status_object (codes "error") (c_str code) (c_str description) [])) in
    record (send_msg (record s { publish_pending = false }) 5 20 s.publish_sid status) {
      error = description;
      state = dead;
    }
