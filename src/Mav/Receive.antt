-- ===== src/Mav/Receive.antt =====
-- MAVLink::receive_message.
pub mod Gate
use support_proxy.Base.{
  ℕ, ◌+◌, ◌%◌, ◌^◌, Bool, true, false, not, ◌&&◌, ◌||◌, List, [], ◌∷◌, Option, none, some, ltb,
  ◌==◌, if◌then◌else◌,
}
use support_proxy.Tdb.{Tdb}
use support_proxy.Mav.{Message, MavLink}
use support_proxy.Mav.Signing.{handle_setup_signing}

-- signing.last_status
pub data SigningStatus : Type 0 where
  bad_signature replay old_timestamp no_streams too_many_streams any_other : SigningStatus

-- The texts of mav_printf.
pub data Warning : Type 0 where
  need_setup need_use bad_key replayed too_old without_streams bad_streams : Warning

-- What mavlink_parse_char does on a byte: whether accept_unsigned_callback was called, the status
-- and the timestamp in the channel's signing, and the message that ends there.
pub record Heard : Type 0 where
  pub unsigned : Bool
  pub status : SigningStatus
  pub timestamp : ℕ
  pub message : Option Message

-- What the loop gives: whether it took a message, its `msg`, the bytes that are left, the
-- warnings, the parser, and the link; `setup` is the SETUP_SIGNING that it hands on.
pub record Received (Lib : Type 0) : Type 0 where
  pub accepted : Bool
  pub msg : Option Message
  pub setup : Option Message
  pub rest : List ℕ
  pub warnings : List Warning
  pub lib : Lib
  pub link : MavLink

-- What the tests on a message decide.
pub record Verdict : Type 0 where
  pub passed : Bool
  pub is_setup : Bool
  pub texts : List Warning
  pub judged : MavLink

-- A warning that is due at most every two seconds, and the answer no.
unfoldable pub periodic_warning : MavLink → ℕ → Bool
periodic_warning m now = ltb (m.last_signing_warning + 2000) now

unfoldable pub refuse : MavLink → ℕ → Warning → Verdict
refuse m now w =
    if periodic_warning m now
    then (record {
      passed = false;
      is_setup = false;
      texts = w ∷ [];
      judged = record m { last_signing_warning = now };
    })
    else record { passed = false; is_setup = false; texts = []; judged = m }

unfoldable pub warning_of : SigningStatus → Warning
warning_of bad_signature = bad_key
warning_of any_other = bad_key
warning_of replay = replayed
warning_of old_timestamp = too_old
warning_of no_streams = without_streams
warning_of too_many_streams = bad_streams

-- Whether the first two errors of this status are dropped in silence.
unfoldable pub is_counted : SigningStatus → Bool
is_counted bad_signature = true
is_counted any_other = true
is_counted replay = true
is_counted old_timestamp = false
is_counted no_streams = false
is_counted too_many_streams = false

unfoldable pub on_bad_signature : MavLink → ℕ → SigningStatus → Verdict
on_bad_signature m now status =
    let errors = (m.bad_sig_count + 1) % 2 ^ 32 in
    let unsigned_link = record m { got_signed_packet = false } in
    let silent : Verdict = record {
      passed = false;
      is_setup = false;
      texts = [];
      judged = record m { last_signing_warning = now; bad_sig_count = errors };
    } in
    if not (is_counted status)
    then refuse unsigned_link now (warning_of status)
    else if not (periodic_warning m now)
    then record { passed = false; is_setup = false; texts = []; judged = unsigned_link }
    else if ltb errors 3
    then silent
    else refuse (record unsigned_link { bad_sig_count = errors }) now (warning_of status)

-- Behind the tests. `setup_signing` is MAVLink's number of that message.
unfoldable pub on_good_signature : ℕ → MavLink → Message → Verdict
on_good_signature setup_signing m msg =
    let is_setup = msg.msgid == setup_signing in
    record {
      passed = not is_setup;
      is_setup = is_setup;
      texts = [];
      judged = record m { bad_sig_count = 0; got_signed_packet = true };
    }

-- The tests on a message of a link with a key id.
unfoldable pub judge : ℕ → MavLink → ℕ → Message → SigningStatus → Verdict
judge setup_signing m now msg status =
    if not m.key_loaded
    then refuse m now need_setup
    else if not msg.signed
    then refuse (record m { got_signed_packet = false }) now need_use
    else if m.got_bad_signature
    then on_bad_signature m now status
    else on_good_signature setup_signing m msg

-- The link behind a byte: the callback marks the channel of the signing that is wired.
unfoldable pub after_byte : MavLink → Heard → MavLink
after_byte m h = record m {
  got_bad_signature = m.got_bad_signature || (h.unsigned && m.wired);
  timestamp = if m.wired then h.timestamp else m.timestamp;
}

-- A link without a key id takes every message.
unfoldable pub verdict : ℕ → MavLink → ℕ → Message → SigningStatus → Option ℕ → Verdict
verdict setup_signing m now msg status none = record {
  passed = true;
  is_setup = false;
  texts = [];
  judged = m;
}
verdict setup_signing m now msg status (some id) = judge setup_signing m now msg status

module _ {Lib : Type 0} (parse : Lib → MavLink → ℕ → Lib × Heard) (setup_signing : ℕ) where
  unfoldable pub on_message : Lib → MavLink → ℕ → List ℕ → Message → SigningStatus → Received Lib
  on_message lib m now rest msg status =
      let v = verdict setup_signing m now msg status m.key_id in
      record {
        accepted = v.passed;
        msg = some msg;
        setup = if v.is_setup then some msg else none;
        rest = rest;
        warnings = v.texts;
        lib = lib;
        link = v.judged;
      }

  -- Behind a byte: the message that ended there, if one did, or else what the next bytes give.
  unfoldable pub on_byte :
      Lib → MavLink → ℕ → List ℕ → SigningStatus → Option Message → Received Lib → Received Lib
  on_byte lib m now rest status none later = later
  on_byte lib m now rest status (some msg) later = on_message lib m now rest msg status

  unfoldable pub receive_loop : Lib → MavLink → ℕ → List ℕ → Received Lib
  receive_loop lib m now [] = record {
    accepted = false;
    msg = none;
    setup = none;
    rest = [];
    warnings = [];
    lib = lib;
    link = m;
  }
  receive_loop lib m now (c ∷ rest) =
      let p = parse lib m c in
      let h : Heard = p.1 in
      let later = receive_loop p.0 (after_byte m h) now rest in
      on_byte p.0 (after_byte m h) now rest h.status h.message later

  unfoldable pub parse_message : Lib → MavLink → ℕ → List ℕ → Received Lib
  parse_message lib m now buf = receive_loop lib (record m { got_bad_signature = false }) now buf

-- The database work of receive_message: `decode` is what MAVLink reads in a SETUP_SIGNING.
module _ {Lib : Type 0} (tdb : Tdb) (decode : Message → ℕ × List ℕ) where
  unfoldable pub with_setup :
      Received Lib
      → Option ℕ
      → Option Message
      → ℕ
      → Option tdb.Db
      → (tdb.Db → Option tdb.Db)
      → Option MavLink × Option tdb.Db
  with_setup r (some id) (some msg) now db reopen =
      handle_setup_signing tdb r.link id now (decode msg).0 (decode msg).1 db reopen
  with_setup r (some id) none now db reopen = (some r.link, db)
  with_setup r none s now db reopen = (some r.link, db)

  unfoldable pub receive_message :
      (Lib → MavLink → ℕ → Lib × Heard)
      → ℕ
      → Lib
      → MavLink
      → ℕ
      → List ℕ
      → Option tdb.Db
      → (tdb.Db → Option tdb.Db)
      → Received Lib × (Option MavLink × Option tdb.Db)
  receive_message parse setup_signing lib m now buf db reopen =
      let r = parse_message parse setup_signing lib m now buf in
      (r, with_setup r m.key_id (Received.setup r) now db reopen)
