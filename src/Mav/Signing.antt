-- ===== src/Mav/Signing.antt =====
-- load_signing_key, update_signing_timestamp, save_signing_timestamp and handle_setup_signing, over
-- the key database. `opened` is what db_open gives; a call that uses a null database does not return.
pub mod Timestamps
pub mod Reload
use support_proxy.Base.{
  ℕ, zero, suc, ◌+◌, ◌-◌, ◌*◌, ◌/◌, ◌%◌, ◌^◌, Bool, true, false, not, ◌&&◌, List, [], ◌∷◌, ◌++◌,
  Option, none, some, ltb, ◌==◌, if◌then◌else◌, take, drop,
}
use support_proxy.Tdb.{Tdb}
use support_proxy.KeyDb.{KeyEntry}
use support_proxy.KeyDb.Layout.{key_entry_of}
use support_proxy.KeyDb.Store.{db_load_key, db_save_key}
use support_proxy.Mav.{init, MavLink, epoch_offset, ticks_per_s}

-- The clock as a signing timestamp.
unfoldable pub now_mavlink : ℕ → ℕ
now_mavlink now =
    if ltb (epoch_offset * 1000) now
    then (now - epoch_offset * 1000) / 1000 * ticks_per_s % 2 ^ 64
    else 0

unfoldable pub zero_bytes : List ℕ → Bool
zero_bytes [] = true
zero_bytes (b ∷ bs) = b == 0 && zero_bytes bs

unfoldable pub all_zero : ℕ → List ℕ → Bool
all_zero timestamp secret = timestamp == 0 && zero_bytes secret

-- The first timestamp of a link whose key holds `saved`.
unfoldable pub start_timestamp : ℕ → ℕ → ℕ
start_timestamp saved now =
    let loaded = (saved + 15 * ticks_per_s) % 2 ^ 64 in
    if ltb loaded (now_mavlink now) then now_mavlink now else loaded

-- From the test for an all-zero key on.
unfoldable pub wire_signing : MavLink → ℕ → MavLink
wire_signing m now =
    let e = key_entry_of m.key in
    if all_zero e.timestamp e.secret_key then record m { wired = false } else (record m {
      key_loaded = true;
      wired = true;
      secret = e.secret_key;
      timestamp = start_timestamp e.timestamp now;
    })

-- The uint64_t of the clock, less the offset if it is behind it, in ticks.
unfoldable pub update_target : ℕ → ℕ
update_target now =
    let s = now / 1000 in
    (if ltb epoch_offset s then s - epoch_offset else s) * ticks_per_s % 2 ^ 64

unfoldable pub raised : ℕ → ℕ → ℕ
raised target t = if ltb t target then target else t

unfoldable pub raise_all : ℕ → List ℕ → List ℕ
raise_all target [] = []
raise_all target (t ∷ ts) = raised target t ∷ raise_all target ts

-- `others` are the timestamps of the other channels that have signing. The save is left to a child.
unfoldable pub update_signing_timestamp : MavLink → List ℕ → ℕ → MavLink × List ℕ
update_signing_timestamp m others now =
    if ltb now (m.last_signing_save + 10000) then (m, others) else (
      record m {
        last_signing_save = now;
        timestamp = if m.wired then raised (update_target now) m.timestamp else m.timestamp;
      },
      raise_all (update_target now) others,
    )

-- The loop over the channels: the key's timestamp, and need_save.
unfoldable pub advance : ℕ → List ℕ → ℕ × Bool → ℕ × Bool
advance now [] k = k
advance now (t ∷ ts) k =
    let v = if ltb now t then now else t in advance now ts (if ltb k.0 v then (v, true) else k)

unfoldable pub le_bytes : ℕ → ℕ → List ℕ
le_bytes zero t = []
le_bytes (suc n) t = t % 256 ∷ le_bytes n (t / 256)

-- key.timestamp = t
unfoldable pub with_timestamp : List ℕ → ℕ → List ℕ
with_timestamp key t = take 8 key ++ (le_bytes 8 t ++ drop 16 key)

-- memcpy(key.secret_key, secret, 32)
unfoldable pub with_secret : List ℕ → List ℕ → List ℕ
with_secret key secret = take 16 key ++ (secret ++ drop 48 key)

module _ (tdb : Tdb) where
  -- `none`: a null database is used.
  unfoldable pub load_signing_key : MavLink → ℕ → ℕ → Option tdb.Db → Option MavLink
  load_signing_key m id now none = none
  load_signing_key m id now (some db) =
      let r = db_load_key tdb db id m.key in
      let m' = record m { key = r.1 } in if r.0 then some (wire_signing m' now) else some m'

  -- MAVLink::init of a link that requires signing.
  unfoldable pub init_signed :
      MavLink → Bool → ℕ → ℕ → List ℕ → Option tdb.Db → Option (MavLink × List ℕ)
  init_signed m is_tcp id now others opened =
      elim (load_signing_key (init m is_tcp (some id)) id now opened) [
        | none ↦ none
        | some l ↦ some (update_signing_timestamp l others now)
      ]

  -- In the child: the database as it is committed. `signings` are the timestamps of all channels
  -- that have signing.
  unfoldable pub save_signing_timestamp : MavLink → ℕ → ℕ → List ℕ → tdb.Db → tdb.Db
  save_signing_timestamp m id now signings db =
      let r = db_load_key tdb db id m.key in
      let k = advance (now_mavlink now) signings (KeyEntry.timestamp (key_entry_of r.1), false) in
      if r.0 && k.1 then (db_save_key tdb db id (with_timestamp r.1 k.0)).1 else db

  -- The link, and the database as it is committed. `reopen` is what db_open gives behind that.
  unfoldable pub handle_setup_signing :
      MavLink
      → ℕ
      → ℕ
      → ℕ
      → List ℕ
      → Option tdb.Db
      → (tdb.Db → Option tdb.Db)
      → Option MavLink × Option tdb.Db
  handle_setup_signing m id now initial_timestamp secret none reopen = (some m, none)
  handle_setup_signing m id now initial_timestamp secret (some db) reopen =
      let r = db_load_key tdb db id m.key in
      let key = with_secret (with_timestamp r.1 initial_timestamp) secret in
      let saved = (db_save_key tdb db id key).1 in
      if all_zero initial_timestamp secret
      then (some m, some db)
      else if not r.0
      then (some (record m { key = r.1 }), some db)
      else (
        load_signing_key (record m { key = key; got_signed_packet = false }) id now (reopen saved),
        some saved,
      )
