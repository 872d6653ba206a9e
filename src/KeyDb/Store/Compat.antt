-- ===== src/KeyDb/Store/Compat.antt =====
-- Old and new programs on one file.
use mathlib.Core.Bool.{Bool, true≢false}
use support_proxy.Base.{
  ℕ, ◌≤◌, ◌≡◌, refl, sym, ap, ◌∙◌, subst, true, false, List, [], ◌∷◌, ◌++◌, Option, none, some,
  arith, inl, inr, ltb, ◌==◌, if◌then◌else◌, length, drop, drop-append, length-append, Option-cases,
  ge→ltb,
}
use support_proxy.Base.Record.{
  zero_extend, tail_of, field, length-zero_extend, zero_extend-append, field-zero_extend,
}
use support_proxy.Tdb.{Tdb, int_bytes}
use support_proxy.KeyDb.{KeyEntry, key_magic, keyentry_min_size, keyentry_size}
use support_proxy.KeyDb.Layout.{key_entry_of}
use support_proxy.KeyDb.Store.{load_record, db_load_key, db_save_key}

same_magic : (a b : ℕ) → a ≡ b → (a == b) ≡ true
same_magic a b e = ground arith

module _ (tdb : Tdb) (db : tdb.Db) (port2 : ℕ) where
  saved :
      (ke : List ℕ) (db' : tdb.Db)
      → db_save_key tdb db port2 ke ≡ (true, db')
      → tdb.store db (int_bytes port2) (ke ++ tail_of (length ke) (tdb.fetch db (int_bytes port2)))
        ≡ some db'
  unfolding db_save_key
  saved ke db' e =
      elim (Option-cases (
        tdb.store db (int_bytes port2)
          (ke ++ tail_of (length ke) (tdb.fetch db (int_bytes port2))))) [
            | inl x ↦ cc (x, e)
            | inr (db'', x) ↦ cc (x, e)
          ]

  whole :
      (ke t key : List ℕ)
      → length ke ≡ keyentry_size
      → field 0 8 ke ≡ key_magic
      → load_record tdb (some (ke ++ t)) key ≡ (true, ke)
  unfolding load_record
  whole ke t key size magic =
      let z : zero_extend keyentry_size (ke ++ t) ≡ ke =
        subst (λ n. zero_extend n (ke ++ t) ≡ ke) size (zero_extend-append ke t) in
      let long : ltb (length (ke ++ t)) keyentry_min_size ≡ false =
        ge→ltb (length (ke ++ t)) keyentry_min_size (omega (arith, length-append ke t)) in
      let same : (field 0 8 ke == key_magic) ≡ true = same_magic (field 0 8 ke) key_magic magic in
      rw (long, z, same) refl

  kept : (ke t : List ℕ) → length ke ≡ keyentry_size → tail_of keyentry_size (some (ke ++ t)) ≡ t
  unfolding tail_of
  kept ke t size = subst (λ n. drop n (ke ++ t) ≡ t) size (drop-append ke t)

  record_loads :
      (o : Option (List ℕ)) (key other k : List ℕ)
      → load_record tdb o key ≡ (true, k)
      → (load_record tdb o other ≡ (true, k))
        × (length k ≡ keyentry_size)
        × (field 0 8 k ≡ key_magic)
  unfolding load_record
  record_loads none key other k e = absurd (true≢false (sym (ap (λ p. p.0) e)))
  record_loads (some d) key other k e =
      let loaded = zero_extend keyentry_size d in
      let whole : Bool × List ℕ = (field 0 8 loaded == key_magic, loaded) in
      (elim (ltb (length d) keyentry_min_size)
          as (λ (c : Bool).
            (if c then (false, key) else whole) ≡ (true, k)
            → ((if c then (false, other) else whole) ≡ (true, k))
              × (length k ≡ keyentry_size)
              × (field 0 8 k ≡ key_magic)) [
                | true ↦ λ f. absurd (true≢false (sym (ap (λ p. p.0) f)))
                | false ↦ λ f.
                    let same = ap (λ p. p.1) f in
                    (
                      f,
                      subst (λ b. length b ≡ keyentry_size) same
                          (length-zero_extend keyentry_size d),
                      subst (λ b. field 0 8 b ≡ key_magic) same (ground (arith, ap (λ p. p.0) f)),
                    )
              ])
        e

  -- What a load that succeeds gives is a whole struct with the magic number, whatever the caller had.
  pub db_load_key_whole :
      (key other k : List ℕ)
      → db_load_key tdb db port2 key ≡ (true, k)
      → (db_load_key tdb db port2 other ≡ (true, k))
        × (length k ≡ keyentry_size)
        × (field 0 8 k ≡ key_magic)
  unfolding db_load_key
  db_load_key_whole key other k e = record_loads (tdb.fetch db (int_bytes port2)) key other k e

  -- A save that succeeds is read back by the next load, byte for byte, and the bytes that a newer
  -- program keeps behind the struct are still there.
  pub db_load_key-db_save_key :
      (ke key : List ℕ) (db' : tdb.Db)
      → length ke ≡ keyentry_size
      → field 0 8 ke ≡ key_magic
      → db_save_key tdb db port2 ke ≡ (true, db')
      → (db_load_key tdb db' port2 key ≡ (true, ke))
        × (tail_of keyentry_size (tdb.fetch db' (int_bytes port2))
            ≡ tail_of keyentry_size (tdb.fetch db (int_bytes port2)))
  unfolding db_load_key load_record
  db_load_key-db_save_key ke key db' size magic e =
      let t = tail_of (length ke) (tdb.fetch db (int_bytes port2)) in
      let f = tdb.fetch-store db db' (int_bytes port2) (ke ++ t) (saved ke db' e) in
      rw f (
        whole ke t key size magic,
        kept ke t size ∙ ap (λ n. tail_of n (tdb.fetch db (int_bytes port2))) size,
      )

  -- A record that was written before the slots 3 and 4 were added loads as its bytes with zeros
  -- behind them, and leaves those slots unused.
  pub old_record_loads :
      (d key : List ℕ)
      → tdb.fetch db (int_bytes port2) ≡ some d
      → keyentry_min_size ≤ length d
      → length d ≤ 344
      → field 0 8 (zero_extend keyentry_size d) ≡ key_magic
      → (db_load_key tdb db port2 key ≡ (true, zero_extend keyentry_size d))
        × (KeyEntry.video_ports_hi (key_entry_of (db_load_key tdb db port2 key).1) ≡ 0 ∷ 0 ∷ [])
        × (KeyEntry.video_flags_hi (key_entry_of (db_load_key tdb db port2 key).1) ≡ 0)
  unfolding db_load_key load_record key_entry_of
  old_record_loads d key e long old magic =
      let l : ltb (length d) keyentry_min_size ≡ false = ge→ltb (length d) keyentry_min_size long in
      let m = same_magic (field 0 8 (zero_extend keyentry_size d)) key_magic magic in
      let p3 = field-zero_extend keyentry_size 344 4 d old (omega arith) in
      let p4 = field-zero_extend keyentry_size 348 4 d (omega arith) (omega arith) in
      let f = field-zero_extend keyentry_size 352 4 d (omega arith) (omega arith) in
      rw (e, l, m) (refl, cc (p3, p4), f)
