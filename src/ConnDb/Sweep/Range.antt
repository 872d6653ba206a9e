-- ===== src/ConnDb/Sweep/Range.antt =====
-- What a sweep removes and what it leaves.
use support_proxy.Base.{
  ℕ, ◌≡◌, ◌≢◌, refl, sym, ap, ◌∙◌, subst, Bool, true, false, ◌&&◌, List, [], ◌∷◌, none, some, arith,
  ◌⊎◌, inl, inr, ◌==◌, length, Option-cases, Bool-cases,
}
use mathlib.Core.Bool.{true≢false}
use mathlib.Core.List.{List-discrete}
use native.Mathlib.Decide.{ℕ_discrete}
use support_proxy.Tdb.{Tdb}
use support_proxy.ConnDb.Sweep.{
  key_port2, collect_port2, removed, delete_matches, out_of_range, conn_delete_index_range,
}

module _ (tdb : Tdb) (other : List ℕ) where
  removed_ne :
      (db : tdb.Db) (k : List ℕ)
      → other ≢ k
      → tdb.fetch (removed tdb db k).1 other ≡ tdb.fetch db other
  unfolding removed
  removed_ne db k ne = elim (Option-cases (tdb.remove db k)) [
    | inl e ↦ rw (e, removed) refl
    | inr (db', e) ↦ rw (e, removed) (tdb.fetch-remove_ne db db' k other e ne)
  ]

  -- No key on which the loop deletes is this one.
  unfoldable pub Spared : (List ℕ → Bool) → List (List ℕ) → Type 0
  Spared skip [] = ℕ
  Spared skip (k ∷ ks) = ((skip k ≡ true) ⊎ (other ≢ k)) × Spared skip ks

  delete_matches_ne :
      (skip : List ℕ → Bool) (ks : List (List ℕ)) (db : tdb.Db) (n : ℕ)
      → Spared skip ks
      → tdb.fetch (delete_matches tdb skip ks db n).1 other ≡ tdb.fetch db other
  unfolding delete_matches Spared
  delete_matches_ne skip [] db n s = refl
  delete_matches_ne skip (k ∷ ks) db n (inl e, s) = rw e (delete_matches_ne skip ks db n s)
  delete_matches_ne skip (k ∷ ks) db n (inr ne, s) = elim (Bool-cases (skip k)) [
    | inl e ↦ rw e (delete_matches_ne skip ks db n s)
    | inr e ↦ rw e (delete_matches_ne skip ks (removed tdb db k).1 _ s ∙ removed_ne db k ne)
  ]

  matched : (n p port2 : ℕ) → (n == 8 && p == port2) ≡ true → p ≡ port2
  matched n p port2 e = ground arith

  apart :
      (skip : List ℕ → Bool) (port2 : ℕ) (key : List ℕ)
      → key_port2 key ≡ port2
      → (key_port2 other ≢ port2) ⊎ (skip other ≡ true)
      → (skip key ≡ true) ⊎ (other ≢ key)
  apart skip port2 key p (inl ne) = inr (λ q. ne (ap (λ k. key_port2 k) q ∙ p))
  apart skip port2 key p (inr s) = elim (Bool-cases (skip key)) [
    | inl e ↦ inl e
    | inr e ↦ inr (λ q. true≢false (sym s ∙ ap skip q ∙ e))
  ]

  -- A key of another port pair, or one that the test skips, is Spared.
  foreign :
      (skip : List ℕ → Bool) (port2 : ℕ) (rows : List (List ℕ × List ℕ))
      → (key_port2 other ≢ port2) ⊎ (skip other ≡ true)
      → Spared skip (collect_port2 port2 rows)
  unfolding Spared collect_port2
  foreign skip port2 [] h = 0
  foreign skip port2 ((key, value) ∷ rows) h =
      let rest = foreign skip port2 rows h in
      elim (Bool-cases (length key == 8 && key_port2 key == port2)) [
        | inl e ↦ rw e (apart skip port2 key (matched (length key) (key_port2 key) port2 e) h, rest)
        | inr e ↦ rw e rest
      ]

  -- A sweep over a range of indices leaves every row of another port pair and every row outside
  -- the range as it was.
  pub conn_delete_index_range_keeps :
      (db : tdb.Db) (port2 lo hi : ℕ)
      → (key_port2 other ≢ port2) ⊎ (out_of_range tdb lo hi other ≡ true)
      → tdb.fetch (conn_delete_index_range tdb db port2 lo hi).1 other ≡ tdb.fetch db other
  unfolding conn_delete_index_range
  conn_delete_index_range_keeps db port2 lo hi h =
      delete_matches_ne (out_of_range tdb lo hi) (collect_port2 port2 (tdb.traverse db)) db 0
        (foreign (out_of_range tdb lo hi) port2 (tdb.traverse db) h)

same_bytes : (a b : List ℕ) → Dec (a ≡ b)
same_bytes = List-discrete ℕ_discrete

both : {a b c d : ℕ} → a ≡ b → c ≡ d → (a == b && c == d) ≡ true
both e f = ground arith

unfoldable Among : List ℕ → List (List ℕ) → Type 0
Among x [] = ⊥
Among x (k ∷ ks) = (x ≡ k) ⊎ Among x ks

-- A traverse that visits this key.
unfoldable pub Visited : List ℕ → List (List ℕ × List ℕ) → Type 0
Visited x [] = ⊥
Visited x ((key, value) ∷ rows) = (x ≡ key) ⊎ Visited x rows

-- A deletion that can work on a row that is there.
unfoldable pub Deletes : (tdb : Tdb) → List ℕ → Type 0
Deletes tdb key = (db : tdb.Db) → tdb.remove db key ≡ none → tdb.fetch db key ≡ none

module _ (tdb : Tdb) (other : List ℕ) where
  removed_gone : (db : tdb.Db) → Deletes tdb other → tdb.fetch (removed tdb db other).1 other ≡ none
  unfolding removed Deletes
  removed_gone db works = elim (Option-cases (tdb.remove db other)) [
    | inl e ↦ rw (e, removed) (works db e)
    | inr (db', e) ↦ rw (e, removed) (tdb.fetch-remove db db' other e)
  ]

  removed_stays :
      (db : tdb.Db) (k : List ℕ)
      → Deletes tdb other
      → tdb.fetch db other ≡ none
      → tdb.fetch (removed tdb db k).1 other ≡ none
  removed_stays db k works gone = elim (same_bytes other k) [
    | yes e ↦ subst (λ x. tdb.fetch (removed tdb db x).1 other ≡ none) e (removed_gone db works)
    | no ne ↦ removed_ne tdb other db k ne ∙ gone
  ]

  delete_matches_stays :
      (skip : List ℕ → Bool) (ks : List (List ℕ)) (db : tdb.Db) (n : ℕ)
      → Deletes tdb other
      → tdb.fetch db other ≡ none
      → tdb.fetch (delete_matches tdb skip ks db n).1 other ≡ none
  unfolding delete_matches
  delete_matches_stays skip [] db n works gone = gone
  delete_matches_stays skip (k ∷ ks) db n works gone = elim (Bool-cases (skip k)) [
    | inl e ↦ rw e (delete_matches_stays skip ks db n works gone)
    | inr e ↦
        rw e (
          delete_matches_stays skip ks (removed tdb db k).1 _ works (removed_stays db k works gone))
  ]

  delete_matches_gone :
      (skip : List ℕ → Bool) (ks : List (List ℕ)) (db : tdb.Db) (n : ℕ)
      → Deletes tdb other
      → skip other ≡ false
      → Among other ks
      → tdb.fetch (delete_matches tdb skip ks db n).1 other ≡ none
  unfolding delete_matches Among
  delete_matches_gone skip [] db n works s m = absurd m
  delete_matches_gone skip (k ∷ ks) db n works s (inl e) =
      let here : skip k ≡ false = sym (ap skip e) ∙ s in
      let first : tdb.fetch (removed tdb db k).1 other ≡ none =
        subst (λ x. tdb.fetch (removed tdb db x).1 other ≡ none) e (removed_gone db works) in
      rw here (delete_matches_stays skip ks (removed tdb db k).1 _ works first)
  delete_matches_gone skip (k ∷ ks) db n works s (inr m) = elim (Bool-cases (skip k)) [
    | inl e ↦ rw e (delete_matches_gone skip ks db n works s m)
    | inr e ↦ rw e (delete_matches_gone skip ks (removed tdb db k).1 _ works s m)
  ]

  collected :
      (port2 : ℕ) (rows : List (List ℕ × List ℕ))
      → length other ≡ 8
      → key_port2 other ≡ port2
      → Visited other rows
      → Among other (collect_port2 port2 rows)
  unfolding Among Visited collect_port2
  collected port2 [] size p v = v
  collected port2 ((key, value) ∷ rows) size p (inl e) =
      let t : (length key == 8 && key_port2 key == port2) ≡ true =
        subst (λ k. (length k == 8 && key_port2 k == port2) ≡ true) e (both size p) in
      rw t (inl e)
  collected port2 ((key, value) ∷ rows) size p (inr v) =
      let rest = collected port2 rows size p v in
      elim (Bool-cases (length key == 8 && key_port2 key == port2)) [
        | inl e ↦ rw e (inr rest)
        | inr e ↦ rw e rest
      ]

  -- A sweep leaves no row of the port pair with an index in the range, when the traverse visits
  -- every row and the deletions of rows that are there work.
  pub conn_delete_index_range_clears :
      (db : tdb.Db) (port2 lo hi : ℕ)
      → length other ≡ 8
      → key_port2 other ≡ port2
      → out_of_range tdb lo hi other ≡ false
      → ((value : List ℕ) → tdb.fetch db other ≡ some value → Visited other (tdb.traverse db))
      → Deletes tdb other
      → tdb.fetch (conn_delete_index_range tdb db port2 lo hi).1 other ≡ none
  unfolding conn_delete_index_range
  conn_delete_index_range_clears db port2 lo hi size p range visits works =
      let ks = collect_port2 port2 (tdb.traverse db) in
      elim (Option-cases (tdb.fetch db other)) [
        | inl e ↦ delete_matches_stays (out_of_range tdb lo hi) ks db 0 works e
        | inr (value, e) ↦
            delete_matches_gone (out_of_range tdb lo hi) ks db 0 works range
              (collected port2 (tdb.traverse db) size p (visits value e))
      ]
