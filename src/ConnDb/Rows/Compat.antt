-- ===== src/ConnDb/Rows/Compat.antt =====
-- conn_write and conn_get_user on one file, and rows that older programs wrote.
use support_proxy.Base.{
  ℕ, ◌≤◌, ◌≡◌, ◌≢◌, refl, subst, true, false, not, ◌&&◌, List, ◌++◌, some, arith, inl, inr, ltb,
  ◌==◌, length, length-append, Option-cases, Bool-cases, ge→ltb,
}
use support_proxy.Base.Record.{zero_extend, tail_of, field, zero_extend-append, field-zero_extend}
use support_proxy.Tdb.{Tdb}
use support_proxy.ConnDb.{ConnEntry, conn_magic, connentry_min_size, connentry_size, make_key}
use support_proxy.ConnDb.Layout.{conn_entry_of}
use support_proxy.ConnDb.Rows.{conn_write, user_row, conn_get_user}

is_row : (m n magic : ℕ) → m ≡ magic → n ≢ 0 → (m == magic && not (n == 0)) ≡ true
is_row m n magic e h = ground arith

module _ (tdb : Tdb) (db : tdb.Db) where
  whole :
      (ce t : List ℕ) (out : ConnEntry)
      → length ce ≡ connentry_size
      → ConnEntry.magic (conn_entry_of ce) ≡ conn_magic
      → ConnEntry.is_user (conn_entry_of ce) ≢ 0
      → user_row tdb (some (ce ++ t)) out ≡ (true, conn_entry_of ce)
  unfolding user_row
  whole ce t out size magic user =
      let z : zero_extend connentry_size (ce ++ t) ≡ ce =
        subst (λ n. zero_extend n (ce ++ t) ≡ ce) size (zero_extend-append ce t) in
      let long : ltb (length (ce ++ t)) connentry_min_size ≡ false =
        ge→ltb (length (ce ++ t)) connentry_min_size (omega (arith, length-append ce t)) in
      let e = conn_entry_of ce in
      let ok = is_row (ConnEntry.magic e) (ConnEntry.is_user e) conn_magic magic user in
      rw (long, z, ok) refl

  -- The user's row that conn_write stores is the one conn_get_user finds, whatever a newer program
  -- keeps behind the struct.
  pub conn_get_user-conn_write :
      (ce : List ℕ) (out : ConnEntry) (db' : tdb.Db)
      → length ce ≡ connentry_size
      → ConnEntry.magic (conn_entry_of ce) ≡ conn_magic
      → ConnEntry.is_user (conn_entry_of ce) ≢ 0
      → ConnEntry.conn_index (conn_entry_of ce) ≡ 0
      → conn_write tdb db ce ≡ (true, db')
      → conn_get_user tdb db' (ConnEntry.port2 (conn_entry_of ce)) out ≡ (true, conn_entry_of ce)
  unfolding conn_get_user conn_write
  conn_get_user-conn_write ce out db' size magic user index e =
      let port2 = ConnEntry.port2 (conn_entry_of ce) in
      let key = make_key port2 (ConnEntry.conn_index (conn_entry_of ce)) in
      let t = tail_of (length ce) (tdb.fetch db key) in
      let f : tdb.fetch db' key ≡ some (ce ++ t) =
        elim (Option-cases (tdb.store db key (ce ++ t))) [
          | inl x ↦ cc (x, e)
          | inr (db'', x) ↦ tdb.fetch-store db db' key (ce ++ t) (cc (x, e))
        ] in
      let g : tdb.fetch db' (make_key port2 0) ≡ some (ce ++ t) =
        subst (λ i. tdb.fetch db' (make_key port2 i) ≡ some (ce ++ t)) index f in
      rw g (whole ce t out size magic user)

  -- A row without the byte of `authenticated` never reads as validated.
  pub conn_get_user_closed :
      (d : List ℕ) (port2 : ℕ) (out : ConnEntry)
      → tdb.fetch db (make_key port2 0) ≡ some d
      → length d ≤ 67
      → ConnEntry.authenticated out ≡ 0
      → ConnEntry.authenticated (conn_get_user tdb db port2 out).1 ≡ 0
  unfolding conn_get_user user_row conn_entry_of field
  conn_get_user_closed d port2 out e short zero =
      rw e (elim (Bool-cases (ltb (length d) connentry_min_size)) [
        | inl x ↦ rw x zero
        | inr x ↦ rw x (field-zero_extend connentry_size 67 1 d short (omega arith))
      ])
