-- ===== src/Mav/Send.antt =====
-- MAVLink::send_message. What the MAVLink library does with a message is a parameter.
pub mod Gate
use support_proxy.Base.{
  ℕ, ◌+◌, Bool, true, false, not, ◌&&◌, List, Option, none, some, ltb, ◌==◌, is_none, length,
  if◌then◌else◌,
}
use support_proxy.Mav.{Message, MavLink}
use support_proxy.Mav.Signing.{update_signing_timestamp}

-- What mavlink_finalize_message_buffer is called with: the message, and of the channel's status
-- current_tx_seq, and the secret key and the timestamp of its signing, if it has one. `target` is
-- there in a call of mavlink_finalize_message_buffer_target.
pub record FinalizeCall : Type 0 where
  pub message : Message
  pub sysid : ℕ
  pub compid : ℕ
  pub tx_seq : ℕ
  pub signing : Option (List ℕ × ℕ)
  pub min_len : ℕ
  pub len : ℕ
  pub crc_extra : ℕ
  pub target : Option ℕ

-- Its answer, with the message and what it leaves in the status.
pub record Finalized : Type 0 where
  pub finalized_len : ℕ
  pub message : Message
  pub tx_seq : ℕ
  pub timestamp : ℕ

-- What send_message takes from the MAVLink library; the tables go by the id of the message.
pub record MavlinkLibrary : Type 0 where
  pub heartbeat : ℕ
  pub crc_extra : ℕ → ℕ
  pub min_len : ℕ → ℕ
  pub max_len : ℕ → ℕ
  pub finalize : FinalizeCall → Finalized
  pub to_send_buffer : Message → List ℕ

-- What else is answered: whether the socket is dead, the bytes it can take, whether the channel is
-- known, and what send_data gives.
pub record Wire : Type 0 where
  pub dead : Bool
  pub writable : ℕ
  pub has_status : Bool
  pub sent : Option ℕ

-- The answer, the link, the timestamps of the other channels, and the bytes that send_data gets.
pub record Outcome : Type 0 where
  pub ok : Bool
  pub link : MavLink
  pub others : List ℕ
  pub out : Option (List ℕ)

unfoldable pub quiet : Bool → MavLink → List ℕ → Outcome
quiet ok m others = record { ok = ok; link = m; others = others; out = none }

module _ (lib : MavlinkLibrary) where
  -- The call for `msg`, of which `msg2` is the copy.
  unfoldable pub finalize_call : MavLink → Message → Message → FinalizeCall
  finalize_call m msg msg2 = record {
    message = msg2;
    sysid = msg.sysid;
    compid = msg.compid;
    tx_seq = msg.seq;
    signing = if m.wired then some (m.secret, m.timestamp) else none;
    min_len = lib.min_len msg2.msgid;
    len = length msg.payload;
    crc_extra = lib.crc_extra msg2.msgid;
    target = if msg.target32 then some msg.target_sysid else none;
  }

  -- From mavlink_get_crc_extra on.
  unfoldable pub finalize_and_send : MavLink → List ℕ → Message → Message → Wire → Outcome
  finalize_and_send m others msg msg2 w =
      let f = lib.finalize (finalize_call m msg msg2) in
      let buf = lib.to_send_buffer f.message in
      let behind = record m {
        tx_seq = f.tx_seq;
        timestamp = if m.wired then f.timestamp else m.timestamp;
      } in
      if lib.min_len msg2.msgid == 0 && lib.max_len msg2.msgid == 0
      then quiet false m others
      else if not w.has_status
      then quiet false m others
      else if f.finalized_len == 0
      then quiet false behind others
      else if length buf == 0
      then quiet false behind others
      else (record {
        ok = elim w.sent [ none ↦ false | some n ↦ n == length buf ];
        link = behind;
        others = others;
        out = some buf;
      })

  -- With a key id: `msg2` and the link behind the block that adds signing.
  unfoldable pub sign_and_send : MavLink → List ℕ → ℕ → Message → Wire → Outcome
  sign_and_send m others now msg w =
      let is_heartbeat = msg.msgid == lib.heartbeat in
      let named =
        if is_heartbeat then record m { last_sysid = msg.sysid; last_compid = msg.compid } else m in
      let updated = update_signing_timestamp named others now in
      let signed = record msg { signed = true } in
      if not m.got_signed_packet && not is_heartbeat
      then quiet true m others
      else if m.key_loaded
      then finalize_and_send updated.0 updated.1 msg signed w
      else finalize_and_send named others msg signed w

  -- Behind the tests on a TCP socket.
  unfoldable pub send_on : MavLink → List ℕ → ℕ → Message → Wire → Outcome
  send_on m others now msg w =
      if is_none m.key_id
      then finalize_and_send m others msg (record msg { signed = false }) w
      else sign_and_send m others now msg w

  unfoldable pub send_message : MavLink → List ℕ → ℕ → Message → Wire → Outcome
  send_message m others now msg w =
      if m.is_tcp && w.dead
      then quiet false m others
      else if m.is_tcp && ltb w.writable 400
      then quiet true m others
      else send_on m others now msg w
