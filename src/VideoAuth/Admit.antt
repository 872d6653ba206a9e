-- ===== src/VideoAuth/Admit.antt =====
-- VideoAuth::admit. The two databases are what conn_db_open gives at its first and second refresh.
pub mod Sound
pub mod Grace
pub mod Closed
pub mod Cache
use support_proxy.Base.{
  ℕ, ◌-◌, Bool, true, false, not, ◌&&◌, ◌||◌, List, Option, none, some, ltb, leb, ◌==◌,
  if◌then◌else◌,
}
use support_proxy.Tdb.{Tdb}
use support_proxy.KeyDb.{KeyEntry}
use support_proxy.ConnDb.{ConnEntry}
use support_proxy.VideoAuth.{
  Admission, admit_ok, admit_bad_password, admit_no_credential, admit_missing_password, Auth,
  any_set, video_password_matches, refresh, check_session, video_auth_cache_s,
}

unfoldable pub is_ok : Admission → Bool
is_ok admit_ok = true
is_ok _ = false

module _ (tdb : Tdb) (sha256 : List ℕ → List ℕ) (blank : ConnEntry) where
  -- The first look at the table, when the cached copy is too old.
  unfoldable pub first_refresh : Option tdb.Db → ℕ → Auth → Auth
  first_refresh db now a =
      if Auth.fetched_at a == 0 || leb video_auth_cache_s (now - Auth.fetched_at a)
      then (refresh tdb blank db now a).1
      else a

  unfoldable pub recheck : KeyEntry → ℕ → ℕ → Admission → Bool × Auth → Admission × Auth
  recheck ke peer now r (true, a) = (check_session ke peer now a, a)
  recheck ke peer now r (false, a) = (r, a)

  -- The second look, before a rejection.
  unfoldable pub second_refresh :
      Option tdb.Db → KeyEntry → ℕ → ℕ → Admission → Auth → Admission × Auth
  second_refresh db ke peer now r a =
      if not (is_ok r) && ltb (Auth.fetched_at a) now
      then recheck ke peer now r (refresh tdb blank db now a)
      else (r, a)

  unfoldable pub path_b : Option tdb.Db → Option tdb.Db → KeyEntry → ℕ → ℕ → Auth → Admission × Auth
  path_b db1 db2 ke peer now a =
      let a1 = first_refresh db1 now a in
      second_refresh db2 ke peer now (check_session ke peer now a1) a1

  unfoldable pub without_credential :
      Option tdb.Db
      → Option tdb.Db
      → KeyEntry
      → ℕ
      → Bool
      → Bool
      → Bool
      → ℕ
      → Auth
      → Admission × Auth
  without_credential db1 db2 ke peer credential_capable session_ok open_publish now a =
      if any_set (KeyEntry.video_publish_key ke) && not session_ok && not open_publish
      then (if credential_capable then admit_missing_password else admit_no_credential, a)
      else if open_publish
      then (admit_ok, a)
      else path_b db1 db2 ke peer now a

  unfoldable pub admit :
      Option tdb.Db
      → Option tdb.Db
      → KeyEntry
      → ℕ
      → Option (List ℕ)
      → Bool
      → Bool
      → Bool
      → ℕ
      → Auth
      → Admission × Auth
  admit db1 db2 ke peer none credential_capable session_ok open_publish now a =
      without_credential db1 db2 ke peer credential_capable session_ok open_publish now a
  admit db1 db2 ke peer (some password) credential_capable session_ok open_publish now a =
      if any_set (KeyEntry.video_publish_key ke)
      then (
        if video_password_matches sha256 (KeyEntry.video_publish_key ke) password
            then admit_ok
            else admit_bad_password,
        a,
      )
      else if open_publish
      then (admit_ok, a)
      else path_b db1 db2 ke peer now a
