-- ===== src/VideoAuth/Admit/Cache.antt =====
-- How often the table is read.
use support_proxy.Base.{
  ℕ, ◌-◌, ◌<◌, ◌≡◌, refl, sym, ap, ◌∙◌, Bool, true, false, not, ◌&&◌, ◌||◌, List, Option, none,
  some, arith, ltb, leb, ◌==◌, if◌then◌else◌,
}
use support_proxy.Tdb.{Tdb}
use support_proxy.KeyDb.{KeyEntry}
use support_proxy.ConnDb.{ConnEntry}
use support_proxy.VideoAuth.{Auth, Admission, any_set, check_session, video_auth_cache_s}
use support_proxy.VideoAuth.Admit.{
  is_ok, first_refresh, second_refresh, path_b, without_credential, admit,
}

-- Two outcomes that are one, with the state as it was.
abbrev Same : Auth → Admission × Auth → Admission × Auth → Type 0
Same a p q = (p ≡ q) × (p.1 ≡ a)

branch :
    (a : Auth) (b : Bool) (x y x' y' : Admission × Auth)
    → Same a x x'
    → Same a y y'
    → Same a (if b then x else y) (if b then x' else y')
branch a true x y x' y' m n = m
branch a false x y x' y' m n = n

module _ (tdb : Tdb) (sha256 : List ℕ → List ℕ) (blank : ConnEntry) where
  fresh_enough :
      (f now : ℕ) → f ≡ now → 0 < now → (f == 0 || leb video_auth_cache_s (now - f)) ≡ false
  fresh_enough f now e h = ground arith

  not_before : (b : Bool) (f now : ℕ) → f ≡ now → (not b && ltb f now) ≡ false
  not_before b f now e = ground arith

  first_refresh_kept :
      (db : Option tdb.Db) (now : ℕ) (a : Auth)
      → Auth.fetched_at a ≡ now
      → 0 < now
      → first_refresh tdb sha256 blank db now a ≡ a
  unfolding first_refresh
  first_refresh_kept db now a e h = simp (fresh_enough (Auth.fetched_at a) now e h)

  second_refresh_kept :
      (db : Option tdb.Db) (ke : KeyEntry) (peer now : ℕ) (r : Admission) (a : Auth)
      → Auth.fetched_at a ≡ now
      → second_refresh tdb sha256 blank db ke peer now r a ≡ (r, a)
  unfolding second_refresh
  second_refresh_kept db ke peer now r a e = simp (not_before (is_ok r) (Auth.fetched_at a) now e)

  path_b_kept :
      (db1 db2 : Option tdb.Db) (ke : KeyEntry) (peer now : ℕ) (a : Auth)
      → Auth.fetched_at a ≡ now
      → 0 < now
      → path_b tdb sha256 blank db1 db2 ke peer now a ≡ (check_session ke peer now a, a)
  unfolding path_b
  path_b_kept db1 db2 ke peer now a e h =
      ap (λ a1. second_refresh tdb sha256 blank db2 ke peer now (check_session ke peer now a1) a1)
        (first_refresh_kept db1 now a e h)
      ∙ second_refresh_kept db2 ke peer now (check_session ke peer now a) a e

  -- In the second of the last look, `admit` reads no table: whatever tables there are, its answer
  -- and its state are those without one, and the state is unchanged.
  pub admit_reads_once :
      (db1 db2 : Option tdb.Db) (ke : KeyEntry) (peer : ℕ) (pw : Option (List ℕ))
      (credential_capable session_ok open_publish : Bool) (now : ℕ) (a : Auth)
      → Auth.fetched_at a ≡ now
      → 0 < now
      → (admit tdb sha256 blank db1 db2 ke peer pw credential_capable session_ok open_publish now a
          ≡ admit tdb sha256 blank none none ke peer pw credential_capable session_ok open_publish
              now a)
        × ((admit tdb sha256 blank db1 db2 ke peer pw credential_capable session_ok open_publish now
              a).1
            ≡ a)
  unfolding admit without_credential
  admit_reads_once db1 db2 ke peer none capable so op now a e h =
      let looked = path_b_kept db1 db2 ke peer now a e h in
      let blind = path_b_kept none none ke peer now a e h in
      branch a (any_set (KeyEntry.video_publish_key ke) && not so && not op) _ _ _ _ (refl, refl)
        (branch a op _ _ _ _ (refl, refl) (looked ∙ sym blind, ap (λ r. r.1) looked))
  admit_reads_once db1 db2 ke peer (some p) capable so op now a e h =
      let looked = path_b_kept db1 db2 ke peer now a e h in
      let blind = path_b_kept none none ke peer now a e h in
      branch a (any_set (KeyEntry.video_publish_key ke)) _ _ _ _ (refl, refl)
        (branch a op _ _ _ _ (refl, refl) (looked ∙ sym blind, ap (λ r. r.1) looked))
