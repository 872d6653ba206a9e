-- ===== src/ConnDb/Rows.antt =====
-- Single rows: conn_write, conn_delete and conn_get_user. `ce` is the writer's struct as bytes.
use support_proxy.Base.{
  ℕ, Bool, true, false, not, ◌&&◌, List, ◌++◌, Option, none, some, ltb, ◌==◌, if◌then◌else◌, length,
}
pub mod Compat
use support_proxy.Base.Record.{zero_extend, tail_of}
use support_proxy.Tdb.{Tdb}
use support_proxy.ConnDb.{ConnEntry, conn_magic, connentry_min_size, connentry_size, make_key}
use support_proxy.ConnDb.Layout.{conn_entry_of}

module _ (tdb : Tdb) where
  unfoldable pub conn_write : tdb.Db → List ℕ → Bool × tdb.Db
  conn_write db ce =
      let key =
        make_key (ConnEntry.port2 (conn_entry_of ce)) (ConnEntry.conn_index (conn_entry_of ce)) in
      elim (tdb.store db key (ce ++ tail_of (length ce) (tdb.fetch db key))) [
        | none ↦ (false, db)
        | some db' ↦ (true, db')
      ]

  unfoldable pub conn_delete : tdb.Db → ℕ → ℕ → Bool × tdb.Db
  conn_delete db port2 conn_index = elim (tdb.remove db (make_key port2 conn_index)) [
    | none ↦ (false, db)
    | some db' ↦ (true, db')
  ]

  -- The answer, and the caller's ConnEntry as the call leaves it.
  unfoldable pub user_row : Option (List ℕ) → ConnEntry → Bool × ConnEntry
  user_row none out = (false, out)
  user_row (some d) out =
      let e = conn_entry_of (zero_extend connentry_size d) in
      if ltb (length d) connentry_min_size
      then (false, out)
      else (ConnEntry.magic e == conn_magic && not (ConnEntry.is_user e == 0), e)

  unfoldable pub conn_get_user : tdb.Db → ℕ → ConnEntry → Bool × ConnEntry
  unfolding user_row
  conn_get_user db port2 out = user_row (tdb.fetch db (make_key port2 0)) out
