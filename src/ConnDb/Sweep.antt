-- ===== src/ConnDb/Sweep.antt =====
-- The operations of conntdb.cpp that walk the whole table. A ConnKey is its eight bytes.
pub mod Range
use support_proxy.Base.{
  ℕ, ◌+◌, ◌*◌, ◌%◌, ◌^◌, Bool, true, false, not, ◌&&◌, ◌||◌, List, [], ◌∷◌, Option, none, some, ltb,
  ◌==◌, if◌then◌else◌, length, has_bits, bit_or,
}
use support_proxy.Base.Record.{zero_extend, field}
use support_proxy.Tdb.{Tdb}
use support_proxy.ConnDb.{
  ConnEntry, conn_magic, connentry_min_size, connentry_size, conn_flag_drop_requested,
}
use support_proxy.ConnDb.Layout.{conn_entry_of}

abbrev pub key_port2 : List ℕ → ℕ
key_port2 k = field 0 4 k

abbrev pub key_index : List ℕ → ℕ
key_index k = field 4 4 k

-- a < b between `int`s, given as the unsigned numbers of the same bits.
abbrev pub int_lt : ℕ → ℕ → Bool
int_lt a b = ltb ((a + 2 ^ 31) % 2 ^ 32) ((b + 2 ^ 31) % 2 ^ 32)

-- What collect_port2 leaves in `matches` after a traverse.
unfoldable pub collect_port2 : ℕ → List (List ℕ × List ℕ) → List (List ℕ)
collect_port2 port2 [] = []
collect_port2 port2 ((key, value) ∷ rows) =
    let rest = collect_port2 port2 rows in
    if length key == 8 && key_port2 key == port2 then key ∷ rest else rest

-- One call of collect_drop_mask.
unfoldable pub collect_drop_mask : ℕ → List ℕ → List ℕ → ℕ → ℕ
collect_drop_mask port2 key value mask =
    let e = conn_entry_of (zero_extend connentry_size value) in
    if not (length key == 8) || ltb (length value) connentry_min_size
    then mask
    else if not (key_port2 key == port2)
        || int_lt (key_index key) 0
        || not (int_lt (key_index key) 32)
    then mask
    else if ConnEntry.magic e == conn_magic && has_bits (ConnEntry.flags e) conn_flag_drop_requested
    then bit_or mask (2 ^ key_index key)
    else mask

unfoldable pub drop_mask_over : ℕ → List (List ℕ × List ℕ) → ℕ → ℕ
drop_mask_over port2 [] mask = mask
drop_mask_over port2 ((key, value) ∷ rows) mask =
    drop_mask_over port2 rows (collect_drop_mask port2 key value mask)

module _ (tdb : Tdb) where
  unfoldable pub conn_drop_mask : tdb.Db → ℕ → ℕ
  conn_drop_mask db port2 = drop_mask_over port2 (tdb.traverse db) 0

  -- tdb_delete: whether it worked, and the table after it.
  unfoldable pub removed : tdb.Db → List ℕ → Bool × tdb.Db
  removed db key = elim (tdb.remove db key) [ none ↦ (false, db) | some db' ↦ (true, db') ]

  -- for (auto &k : f.matches): `skip` is the test before `continue`.
  unfoldable pub delete_matches : (List ℕ → Bool) → List (List ℕ) → tdb.Db → ℕ → ℕ × tdb.Db
  delete_matches skip [] db n = (n, db)
  delete_matches skip (k ∷ ks) db n =
      let go = delete_matches skip ks in
      if skip k then go db n else go (removed db k).1 (if (removed db k).0 then n + 1 else n)

  unfoldable pub conn_delete_for_port2 : tdb.Db → ℕ → ℕ × tdb.Db
  conn_delete_for_port2 db port2 =
      delete_matches (λ k. false) (collect_port2 port2 (tdb.traverse db)) db 0

  unfoldable pub out_of_range : ℕ → ℕ → List ℕ → Bool
  out_of_range lo hi k = int_lt (key_index k) lo || int_lt hi (key_index k)

  unfoldable pub conn_delete_index_range : tdb.Db → ℕ → ℕ → ℕ → ℕ × tdb.Db
  conn_delete_index_range db port2 lo hi =
      delete_matches (out_of_range lo hi) (collect_port2 port2 (tdb.traverse db)) db 0
