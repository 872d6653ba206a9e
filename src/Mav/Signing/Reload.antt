-- ===== src/Mav/Signing/Reload.antt =====
-- What one link saves the next one loads.
use mathlib.Core.Bool.{true≢false}
use support_proxy.Base.{
  ℕ, ◌+◌, ◌-◌, ◌*◌, ◌^◌, ◌≤◌, ◌<◌, ◌≡◌, refl, sym, ◌∙◌, Bool, true, false, List, [], ◌∷◌, some,
  arith, inl, inr, ltb, if◌then◌else◌, ltb→lt, All, Bool-cases,
}
use support_proxy.Base.Record.{field}
use support_proxy.Tdb.{Tdb}
use support_proxy.KeyDb.{KeyEntry}
use support_proxy.KeyDb.Layout.{key_entry_of}
use support_proxy.KeyDb.Store.{db_load_key, db_save_key}
use support_proxy.KeyDb.Store.Compat.{db_load_key-db_save_key, db_load_key_whole}
use support_proxy.Mav.Signing.Timestamps.{
  advance_up, advance_down, advance_same, with_timestamp-Stamped,
}
use support_proxy.Mav.{MavLink, ticks_per_s}
use support_proxy.Mav.Signing.{
  now_mavlink, all_zero, start_timestamp, wire_signing, advance, with_timestamp, load_signing_key,
  save_signing_timestamp,
}

start_timestamp_up :
    (saved now : ℕ)
    → saved + 15 * ticks_per_s < 2 ^ 64
    → saved + 15 * ticks_per_s ≤ start_timestamp saved now
unfolding start_timestamp
start_timestamp_up saved now small = ground arith

advance_nonzero : (t : ℕ) (secret : List ℕ) → 0 < t → all_zero t secret ≡ false
unfolding all_zero
advance_nonzero t secret h = ground arith

advance_over :
    (now : ℕ) (ts : List ℕ) (k : ℕ × Bool)
    → k.1 ≡ false
    → (advance now ts k).1 ≡ true
    → k.0 < (advance now ts k).0
unfolding advance
advance_over now [] k f e = absurd (true≢false (sym e ∙ f))
advance_over now (t ∷ ts) k f e =
    let v = if ltb now t then now else t in
    let next = λ (c : Bool). advance now ts (if c then (v, true) else k) in
    (elim (ltb k.0 v) as (λ c. ltb k.0 v ≡ c → (next c).1 ≡ true → k.0 < (next c).0) [
      | true ↦ λ b g. let up = advance_up now ts (v, true) in omega (arith, up.0, ltb→lt k.0 v b)
      | false ↦ λ b g. advance_over now ts k f g
    ])
      refl e

later-All :
    (now saved started : ℕ) (ts : List ℕ)
    → All (λ t. t ≤ now → t ≤ saved) ts
    → saved + 15 * ticks_per_s ≤ started
    → All (λ t. t ≤ now → t + 15 * ticks_per_s ≤ started) ts
later-All now saved started [] all h = tt
later-All now saved started (t ∷ ts) (a, all) h =
    ((λ early. let b = a early in omega (arith, b, h)), later-All now saved started ts all h)

module _ (tdb : Tdb) (db : tdb.Db) (id : ℕ) where
  -- The key is in the database, and its timestamp is `t`.
  record Kept (now' : tdb.Db) (t : ℕ) : Type 0 where
    key : List ℕ
    loads : (other : List ℕ) → db_load_key tdb now' id other ≡ (true, key)
    stamp : KeyEntry.timestamp (key_entry_of key) ≡ t
    nonzero : all_zero t (KeyEntry.secret_key (key_entry_of key)) ≡ false

  load-Kept :
      (db' : tdb.Db) (t now : ℕ) (m : MavLink)
      → Kept db' t
      → t + 15 * ticks_per_s < 2 ^ 64
      → (l : MavLink) × (load_signing_key tdb m id now (some db') ≡ some l)
        × (l.key_loaded ≡ true)
        × (t + 15 * ticks_per_s ≤ l.timestamp)
  unfolding load_signing_key wire_signing
  load-Kept db' t now m k small =
      rw (k.loads m.key, k.stamp, k.nonzero) (_, refl, refl, start_timestamp_up t now small)

  save-Kept :
      (m : MavLink) (now : ℕ) (signings key : List ℕ)
      → db_load_key tdb db id m.key ≡ (true, key)
      → all_zero (KeyEntry.timestamp (key_entry_of key)) (KeyEntry.secret_key (key_entry_of key))
        ≡ false
      → ((t : ℕ) → (db_save_key tdb db id (with_timestamp key t)).0 ≡ true)
      → let t =
          (advance (now_mavlink now) signings (KeyEntry.timestamp (key_entry_of key), false)).0 in
        t < 2 ^ 64 → Kept (save_signing_timestamp tdb m id now signings db) t
  unfolding save_signing_timestamp key_entry_of
  save-Kept m now signings key e nz works small =
      let k = advance (now_mavlink now) signings (field 8 8 key, false) in
      let (again, size, magic) = db_load_key_whole tdb db id m.key [] key e in
      let s = with_timestamp-Stamped key k.0 size small in
      let new = with_timestamp key k.0 in
      let saved = save_signing_timestamp tdb m id now signings db in
      elim (Bool-cases k.1) [
        | inl b ↦
            let put : saved ≡ (db_save_key tdb db id new).1 = rw (e, b) refl in
            let pair : db_save_key tdb db id new ≡ (true, saved) = λ i. (works k.0 i, sym put i) in
            record {
              key = new;
              loads = λ other.
                  (db_load_key-db_save_key tdb db id new other saved s.whole (s.magic ∙ magic)
                    pair).0;
              stamp = s.stamp;
              nonzero = advance_nonzero k.0 _ (
                  omega
                    (arith, advance_over (now_mavlink now) signings (field 8 8 key, false) refl b));
            }
        | inr b ↦
            let same = advance_same (now_mavlink now) signings (field 8 8 key, false) b in
            let kept : saved ≡ db = rw (e, b) refl in
            record {
              key = key;
              loads = λ other. rw kept (db_load_key_whole tdb db id m.key other key e).0;
              stamp = sym same;
              nonzero = rw same nz;
            }
      ]

  -- What a child saves and the next link loads: whatever signing timestamp a channel had, up to the
  -- clock, the next link starts at least 15 seconds later. The key is in the database and not all zero,
  -- the save works, and the key's timestamp and the clock are 15 seconds away from 2 ^ 64.
  pub save_signing_timestamp-load_signing_key :
      (m next : MavLink) (now later : ℕ) (signings key : List ℕ)
      → db_load_key tdb db id m.key ≡ (true, key)
      → all_zero (KeyEntry.timestamp (key_entry_of key)) (KeyEntry.secret_key (key_entry_of key))
        ≡ false
      → ((t : ℕ) → (db_save_key tdb db id (with_timestamp key t)).0 ≡ true)
      → KeyEntry.timestamp (key_entry_of key) + 15 * ticks_per_s < 2 ^ 64
      → now_mavlink now + 15 * ticks_per_s < 2 ^ 64
      → (l : MavLink) × (load_signing_key tdb next id later
            (some (save_signing_timestamp tdb m id now signings db))
          ≡ some l)
        × (l.key_loaded ≡ true)
        × (KeyEntry.timestamp (key_entry_of key) + 15 * ticks_per_s ≤ l.timestamp)
        × All (λ t. t ≤ now_mavlink now → t + 15 * ticks_per_s ≤ l.timestamp) signings
  save_signing_timestamp-load_signing_key m next now later signings key e nz works small early =
      let old = KeyEntry.timestamp (key_entry_of key) in
      let k = advance (now_mavlink now) signings (old, false) in
      let (up, all) = advance_up (now_mavlink now) signings (old, false) in
      let top = 2 ^ 64 - 15 * ticks_per_s - 1 in
      let down =
        advance_down (now_mavlink now) signings (old, false) top (omega arith) (omega arith) in
      let kept = save-Kept m now signings key e nz works (omega (arith, down)) in
      let (l, loaded, counts, late) = load-Kept _ k.0 later next kept (omega (arith, down)) in
      (
        l,
        loaded,
        counts,
        omega (arith, late, up),
        later-All (now_mavlink now) k.0 l.timestamp signings all late,
      )
