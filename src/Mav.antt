-- ===== src/Mav.antt =====
-- mavlink.h and mavlink.cpp: a link that carries MAVLink, with the signing of a support engineer's
-- packets. Times are whole milliseconds. The MAVLink library is a parameter.
pub mod Signing
pub mod Receive
pub mod Send
use support_proxy.Base.{
  ℕ, ◌*◌, Bool, true, false, not, List, [], ◌∷◌, Option, none, some, replicate,
}

-- 2015-01-01, in seconds.
abbrev pub epoch_offset : ℕ
epoch_offset = 1420070400

-- Ticks of ten microseconds a second.
abbrev pub ticks_per_s : ℕ
ticks_per_s = 100 * 1000

-- What the program looks at in a mavlink_message_t; two bits of incompat_flags by themselves.
pub record Message : Type 0 where
  pub sysid : ℕ
  pub compid : ℕ
  pub msgid : ℕ
  pub seq : ℕ
  pub signed : Bool
  pub target32 : Bool
  pub target_sysid : ℕ
  pub payload : List ℕ

-- `key` is the bytes of the KeyEntry, `key_id` is `none` for -1. `wired` tells whether the signing
-- of the channel's status is this link's `signing`, of which `secret` and `timestamp` are parts,
-- and `tx_seq` is the current_tx_seq of that status;
-- `got_bad_signature` is the entry of its channel.
pub record MavLink : Type 0 where
  pub key : List ℕ
  pub key_id : Option ℕ
  pub is_tcp : Bool
  pub key_loaded : Bool
  pub got_signed_packet : Bool
  pub got_bad_signature : Bool
  pub wired : Bool
  pub secret : List ℕ
  pub timestamp : ℕ
  pub last_signing_save : ℕ
  pub last_signing_warning : ℕ
  pub last_sysid : ℕ
  pub last_compid : ℕ
  pub bad_sig_count : ℕ
  pub tx_seq : ℕ

-- MAVLink::init up to the load of the key.
unfoldable pub init : MavLink → Bool → Option ℕ → MavLink
init m is_tcp key_id = record m {
  key_id = key_id;
  is_tcp = is_tcp;
  key_loaded = false;
  got_signed_packet = false;
  got_bad_signature = false;
  secret = replicate 32 0;
  timestamp = 0;
  last_signing_save = 0;
  last_signing_warning = 0;
  last_sysid = 0;
  last_compid = 0;
  bad_sig_count = 0;
}
