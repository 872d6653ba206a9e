-- ===== src/KeyDb/Store.antt =====
-- db_load_key and db_save_key.
pub mod Compat
use support_proxy.Base.{
  ℕ, Bool, true, false, List, [], ◌∷◌, ◌++◌, Option, none, some, ltb, ◌==◌, if◌then◌else◌, length,
}
use support_proxy.Base.Record.{zero_extend, tail_of, field}
use support_proxy.Tdb.{Tdb, int_bytes}
use support_proxy.KeyDb.{key_magic, keyentry_min_size, keyentry_size}

module _ (tdb : Tdb) where
  -- The answer, and the caller's KeyEntry as the call leaves it.
  unfoldable load_record : Option (List ℕ) → List ℕ → Bool × List ℕ
  load_record none key = (false, key)
  load_record (some d) key =
      let loaded = zero_extend keyentry_size d in
      if ltb (length d) keyentry_min_size
      then (false, key)
      else (field 0 8 loaded == key_magic, loaded)

  unfoldable pub db_load_key : tdb.Db → ℕ → List ℕ → Bool × List ℕ
  unfolding load_record
  db_load_key db port2 key = load_record (tdb.fetch db (int_bytes port2)) key

  -- `ke` is the writer's whole struct; the bytes behind it on disk stay.
  unfoldable pub db_save_key : tdb.Db → ℕ → List ℕ → Bool × tdb.Db
  db_save_key db port2 ke =
      let tail = tail_of (length ke) (tdb.fetch db (int_bytes port2)) in
      elim (tdb.store db (int_bytes port2) (ke ++ tail)) [
        | none ↦ (false, db)
        | some db' ↦ (true, db')
      ]
