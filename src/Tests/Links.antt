-- ===== src/Tests/Links.antt =====
-- Links on small inputs. A parser for the tests takes byte 1 for a whole signed message.
use support_proxy.Base.{
  ℕ, ◌+◌, ◌*◌, ◌≤◌, ◌<◌, ◌≡◌, refl, true, false, Option, none, some, List, [], ◌∷◌, ◌++◌, arith,
  replicate, length, All, append-nil, ◌^◌, ◌==◌,
}
use support_proxy.Base.Record.{tail_of, field}
use support_proxy.Tdb.{Tdb, int_bytes}
use support_proxy.KeyDb.{KeyEntry, keyentry_size, key_magic}
use support_proxy.KeyDb.Store.Compat.{db_load_key-db_save_key}
use support_proxy.KeyDb.Layout.{key_entry_of}
use support_proxy.KeyDb.Store.{db_load_key, db_save_key}
use support_proxy.Mav.{Message, MavLink, ticks_per_s}
use support_proxy.Mav.Signing.{
  all_zero, zero_bytes, with_timestamp, now_mavlink, load_signing_key, save_signing_timestamp,
  update_signing_timestamp,
}
use support_proxy.Mav.Signing.Reload.{save_signing_timestamp-load_signing_key}
use support_proxy.Mav.Receive.{
  Heard, Received, any_other, after_byte, verdict, judge, on_good_signature, on_message, on_byte,
  receive_loop, parse_message,
}
use support_proxy.Mav.Receive.Gate.{Trusted, parse_message-Trusted}
use support_proxy.Mav.Send.{
  FinalizeCall, Finalized, MavlinkLibrary, Wire, Outcome, finalize_call, finalize_and_send,
  sign_and_send, send_on, send_message,
}
use support_proxy.Mav.Send.Gate.{IsFinalized, Sends, send_message-Sends}
use support_proxy.Tests.Table.{table, fetch_row}

abbrev link : MavLink
link = record {
  key = [];
  key_id = some 7;
  is_tcp = false;
  key_loaded = true;
  got_signed_packet = false;
  got_bad_signature = false;
  wired = true;
  secret = replicate 32 9;
  timestamp = 5;
  last_signing_save = 0;
  last_signing_warning = 0;
  last_sysid = 0;
  last_compid = 0;
  bad_sig_count = 0;
  tx_seq = 0;
}

abbrev signed_message : Message
signed_message = record {
  sysid = 1;
  compid = 1;
  msgid = 30;
  seq = 0;
  signed = true;
  target32 = false;
  target_sysid = 0;
  payload = 1 ∷ 2 ∷ [];
}

abbrev hear : ℕ → MavLink → ℕ → ℕ × Heard
hear lib m c = (
  lib,
  record {
    unsigned = false;
    status = any_other;
    timestamp = 6;
    message = elim (c == 1) [ true ↦ some signed_message | false ↦ none ];
  },
)

abbrev SaysSigned : List ℕ → Message → Type 0
SaysSigned secret msg = msg ≡ signed_message

byte_one :
    (o : Option Message) (msg : Message)
    → o ≡ some signed_message
    → o ≡ some msg
    → msg ≡ signed_message
byte_one o msg e f = cc

hear_reports :
    (lib : ℕ) (m : MavLink) (c : ℕ) (msg : Message)
    → m.wired ≡ true
    → Heard.message (hear lib m c).1 ≡ some msg
    → Heard.unsigned (hear lib m c).1 ≡ false
    → SaysSigned m.secret msg
hear_reports lib m c msg w e u = ground (arith, e)

accepted_here : Received.accepted (parse_message hear 256 0 link 0 (2 ∷ 1 ∷ 5 ∷ [])) ≡ true
unfolding parse_message receive_loop on_byte on_message after_byte verdict judge on_good_signature
accepted_here = refl

parse_message-Trusted_example :
    Trusted hear 256 SaysSigned (replicate 32 9) (parse_message hear 256 0 link 0 (2 ∷ 1 ∷ 5 ∷ []))
parse_message-Trusted_example =
    parse_message-Trusted hear 256 SaysSigned hear_reports 0 link 0 (2 ∷ 1 ∷ 5 ∷ []) 7 refl
      (λ e. refl) accepted_here

abbrev wire : Wire
wire = record { dead = false; writable = 5000; has_status = true; sent = some 3 }

-- A finalize that cuts no zeros off, and a signature that is only the flag.
abbrev finalizer : FinalizeCall → Finalized
finalizer c = record {
  finalized_len = 3;
  message = record c.message {
    sysid = c.sysid;
    compid = c.compid;
    seq = c.tx_seq;
    signed = elim c.signing [ none ↦ false | some k ↦ true ];
    target_sysid = elim c.target [ none ↦ 0 | some t ↦ t ];
  };
  tx_seq = c.tx_seq + 1;
  timestamp = elim c.signing [ none ↦ 0 | some k ↦ k.1 + 1 ];
}

abbrev library : MavlinkLibrary
library = record {
  heartbeat = 0;
  crc_extra = λ id. id;
  min_len = λ id. 2;
  max_len = λ id. 2;
  finalize = finalizer;
  to_send_buffer = λ o. o.msgid ∷ o.payload;
}

abbrev HasFlag : List ℕ → Message → Type 0
HasFlag key o = o.signed ≡ true

finalizer_documented :
    (c : FinalizeCall)
    → 0 < (finalizer c).finalized_len
    → IsFinalized HasFlag c (finalizer c).message
finalizer_documented c h = record {
  same_id = refl;
  addressed = (refl, refl);
  numbered = refl;
  trimmed = λ e. (0, append-nil (c.message).payload);
  targeted = λ t e. rw e refl;
  plain = λ e. rw e refl;
  signs = λ key t e. (rw e refl, rw e refl);
}

abbrev heartbeat_message : Message
heartbeat_message = record signed_message { msgid = 0; signed = false }

heartbeat_signed :
    Outcome.out (send_message library link [] 0 heartbeat_message wire) ≡ some (0 ∷ 1 ∷ 2 ∷ [])
unfolding send_message send_on sign_and_send finalize_and_send finalize_call
    update_signing_timestamp
heartbeat_signed = refl

send_message-Sends_example :
    Sends library HasFlag link heartbeat_message wire
      (send_message library link [] 0 heartbeat_message wire)
send_message-Sends_example =
    send_message-Sends library HasFlag link heartbeat_message wire finalizer_documented [] 0

-- A record with the magic number, this timestamp's low byte, and a key of this byte.
abbrev stored_key : ℕ → ℕ → List ℕ
stored_key t k =
    0x1f ∷ 0xdd ∷ 0x2c ∷ 0xa7 ∷ 0x67 ∷ 0xe8 ∷ 0x73 ∷ 0x6b ∷ t ∷ []
    ++ (replicate 7 0 ++ (replicate 32 k ++ replicate 408 0))

abbrev keys : ℕ → ℕ → List (List ℕ × List ℕ)
keys t k = (int_bytes 7, stored_key t k) ∷ []

key_loads :
    (t k : ℕ) (other : List ℕ)
    → length (stored_key t k) ≡ keyentry_size
    → field 0 8 (stored_key t k) ≡ key_magic
    → db_load_key table (keys t k) 7 other ≡ (true, stored_key t k)
unfolding db_save_key tail_of fetch_row
key_loads t k other size magic =
    (db_load_key-db_save_key table [] 7 (stored_key t k) other (keys t k) size magic refl).0

key_there : (other : List ℕ) → db_load_key table (keys 3 4) 7 other ≡ (true, stored_key 3 4)
unfolding field
key_there other = key_loads 3 4 other refl refl

table_saves : (db : Tdb.Db table) (ke : List ℕ) → (db_save_key table db 7 ke).0 ≡ true
unfolding db_save_key
table_saves db ke = refl

key_nonzero :
    all_zero
      (KeyEntry.timestamp (key_entry_of (stored_key 3 4)))
      (KeyEntry.secret_key (key_entry_of (stored_key 3 4)))
    ≡ false
unfolding all_zero zero_bytes key_entry_of field
key_nonzero = refl

stamp_small : KeyEntry.timestamp (key_entry_of (stored_key 3 4)) + 15 * ticks_per_s < 2 ^ 64
unfolding key_entry_of field
stamp_small = omega arith

clock_small : now_mavlink 1700000000000 + 15 * ticks_per_s < 2 ^ 64
unfolding now_mavlink
clock_small = omega arith

save_signing_timestamp-load_signing_key_example :
    let saved = save_signing_timestamp table link 7 1700000000000 (6 ∷ 90 ∷ []) (keys 3 4) in
    (l : MavLink) × (load_signing_key table link 7 1700000009000 (some saved) ≡ some l)
    × (l.key_loaded ≡ true)
    × (KeyEntry.timestamp (key_entry_of (stored_key 3 4)) + 15 * ticks_per_s ≤ l.timestamp)
    × All (λ t. t ≤ now_mavlink 1700000000000 → t + 15 * ticks_per_s ≤ l.timestamp) (6 ∷ 90 ∷ [])
save_signing_timestamp-load_signing_key_example =
    save_signing_timestamp-load_signing_key table (keys 3 4) 7 link link 1700000000000 1700000009000
      (6 ∷ 90 ∷ []) (stored_key 3 4) (key_there []) key_nonzero
      (λ t. table_saves (keys 3 4) (with_timestamp (stored_key 3 4) t)) stamp_small clock_small
