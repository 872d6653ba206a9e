-- ===== src/VideoAuth/Admit/Sound.antt =====
-- What an admission rests on.
use support_proxy.Base.{
  ℕ, ◌+◌, ◌≤◌, ◌≡◌, refl, Bool, true, false, not, ◌&&◌, List, Option, none, some, arith, ◌⊎◌, inl,
  inr, ltb, if◌then◌else◌, has_bits,
}
use support_proxy.Tdb.{Tdb}
use support_proxy.KeyDb.{KeyEntry, key_flag_bidi_sign}
use support_proxy.ConnDb.{ConnEntry}
use support_proxy.VideoAuth.{
  Admission, admit_ok, admit_bad_password, admit_no_credential, admit_missing_password, Auth,
  any_set, video_password_matches, grace_of, refresh, check_session,
}
use support_proxy.VideoAuth.Admit.{
  is_ok, first_refresh, recheck, second_refresh, path_b, without_credential, admit,
}

-- A session that lets `peer` publish at `now`.
pub record Session (ke : KeyEntry) (peer now : ℕ) (a : Auth) : Type 0 where
  pub session_seen : Auth.have a ≡ true
  pub same_address : Auth.peer_ip_be a ≡ peer
  pub in_grace : now ≤ Auth.seen_at a + grace_of ke
  pub validated :
      (has_bits (KeyEntry.flags ke) key_flag_bidi_sign && not (Auth.authenticated a)) ≡ false

pub check_session-Session :
    (ke : KeyEntry) (peer now : ℕ) (a : Auth)
    → check_session ke peer now a ≡ admit_ok
    → Session ke peer now a
unfolding check_session
check_session-Session ke peer now a e = ground arith

pub Session-check_session :
    (ke : KeyEntry) (peer now : ℕ) (a : Auth)
    → Session ke peer now a
    → check_session ke peer now a ≡ admit_ok
unfolding check_session
Session-check_session ke peer now a s = ground arith

ok-is_ok : (r : Admission) → is_ok r ≡ true → r ≡ admit_ok
unfolding is_ok
ok-is_ok r e = ground arith

module _ (tdb : Tdb) (sha256 : List ℕ → List ℕ) (blank : ConnEntry) where
  recheck-Session :
      (ke : KeyEntry) (peer now : ℕ) (r : Admission) (p : Bool × Auth)
      → is_ok r ≡ false
      → (recheck tdb sha256 blank ke peer now r p).0 ≡ admit_ok
      → Session ke peer now (recheck tdb sha256 blank ke peer now r p).1
  unfolding recheck is_ok
  recheck-Session ke peer now r (true, a) bad e = check_session-Session ke peer now a e
  recheck-Session ke peer now r (false, a) bad e = ground (arith, e, bad)

  -- The branches of the second look, with what is tested and the second copy taken apart.
  looked_again :
      (ke : KeyEntry) (peer now : ℕ) (a : Auth) (p : Bool × Auth) (ok old : Bool)
      → is_ok (check_session ke peer now a) ≡ ok
      → (if not ok && old
          then recheck tdb sha256 blank ke peer now (check_session ke peer now a) p
          else (check_session ke peer now a, a)).0
        ≡ admit_ok
      → Session ke peer now
          (if not ok && old
            then recheck tdb sha256 blank ke peer now (check_session ke peer now a) p
            else (check_session ke peer now a, a)).1
  looked_again ke peer now a p true old t e = check_session-Session ke peer now a e
  looked_again ke peer now a p false true t e =
      recheck-Session ke peer now (check_session ke peer now a) p t e
  looked_again ke peer now a p false false t e = check_session-Session ke peer now a e

  pub path_b-Session :
      (db1 db2 : Option tdb.Db) (ke : KeyEntry) (peer now : ℕ) (a : Auth)
      → (path_b tdb sha256 blank db1 db2 ke peer now a).0 ≡ admit_ok
      → Session ke peer now (path_b tdb sha256 blank db1 db2 ke peer now a).1
  unfolding path_b second_refresh
  path_b-Session db1 db2 ke peer now a e =
      let a1 = first_refresh tdb sha256 blank db1 now a in
      looked_again ke peer now a1 (refresh tdb blank db2 now a1)
        (is_ok (check_session ke peer now a1)) (ltb (Auth.fetched_at a1) now) refl e

  -- The ground an admission stands on: the publish password; an open slot with no credential to
  -- judge; or a session of that address, when no credential was offered that could be judged and
  -- the slot does not insist on one.
  pub data Ground (ke : KeyEntry) (peer : ℕ) (pw : Option (List ℕ)) (session_ok open_publish : Bool)
      (now : ℕ) (a : Auth) : Type 0 where
    by_password :
        (p : List ℕ)
        → pw ≡ some p
        → any_set (KeyEntry.video_publish_key ke) ≡ true
        → video_password_matches sha256 (KeyEntry.video_publish_key ke) p ≡ true
        → Ground ke peer pw session_ok open_publish now a
    by_open_slot :
        open_publish ≡ true
        → (pw ≡ none) ⊎ (any_set (KeyEntry.video_publish_key ke) ≡ false)
        → Ground ke peer pw session_ok open_publish now a
    by_session :
        (pw ≡ none) × (session_ok ≡ true) ⊎ (any_set (KeyEntry.video_publish_key ke) ≡ false)
        → Session ke peer now a
        → Ground ke peer pw session_ok open_publish now a

  no_credential :
      (ke : KeyEntry) (peer now : ℕ) (a : Auth) (pb : Admission × Auth) (capable so op key : Bool)
      → (pb.0 ≡ admit_ok → Session ke peer now pb.1)
      → any_set (KeyEntry.video_publish_key ke) ≡ key
      → (if key && not so && not op
          then (if capable then admit_missing_password else admit_no_credential, a)
          else if op
          then (admit_ok, a)
          else pb).0
        ≡ admit_ok
      → Ground ke peer none so op now
          (if key && not so && not op
            then (if capable then admit_missing_password else admit_no_credential, a)
            else if op
            then (admit_ok, a)
            else pb).1
  no_credential ke peer now a pb capable false false false s k e = by_session (inr k) (s e)
  no_credential ke peer now a pb capable false true false s k e = by_open_slot refl (inl refl)
  no_credential ke peer now a pb capable false true true s k e = by_open_slot refl (inl refl)
  no_credential ke peer now a pb capable false false true s k e = absurd (ground (arith, e))
  no_credential ke peer now a pb capable true false true s k e = by_session (inl (refl, refl)) (s e)
  no_credential ke peer now a pb capable true false false s k e =
      by_session (inl (refl, refl)) (s e)
  no_credential ke peer now a pb capable true true false s k e = by_open_slot refl (inl refl)
  no_credential ke peer now a pb capable true true true s k e = by_open_slot refl (inl refl)

  credential :
      (ke : KeyEntry) (peer now : ℕ) (a : Auth) (pb : Admission × Auth) (p : List ℕ)
      (so op key match : Bool)
      → (pb.0 ≡ admit_ok → Session ke peer now pb.1)
      → any_set (KeyEntry.video_publish_key ke) ≡ key
      → video_password_matches sha256 (KeyEntry.video_publish_key ke) p ≡ match
      → (if key
          then (if match then admit_ok else admit_bad_password, a)
          else if op
          then (admit_ok, a)
          else pb).0
        ≡ admit_ok
      → Ground ke peer
          (some p)
          so
          op
          now
          (if key
            then (if match then admit_ok else admit_bad_password, a)
            else if op
            then (admit_ok, a)
            else pb).1
  credential ke peer now a pb p so op true true s k m e = by_password p refl k m
  credential ke peer now a pb p so op true false s k m e = absurd (ground (arith, e))
  credential ke peer now a pb p so true false match s k m e = by_open_slot refl (inr k)
  credential ke peer now a pb p so false false match s k m e = by_session (inr k) (s e)

  -- `admit` says ok only on a ground: the offered password is the publish password that is set;
  -- the slot is open and no credential was offered that could be judged; or the copy holds a
  -- session of this address within its grace window, validated where the entry asks for signing,
  -- and there is no publish password to give or the slot does not insist on it.
  pub admit-Ground :
      (db1 db2 : Option tdb.Db) (ke : KeyEntry) (peer : ℕ) (pw : Option (List ℕ))
      (credential_capable session_ok open_publish : Bool) (now : ℕ) (a : Auth)
      → (admit tdb sha256 blank db1 db2 ke peer pw credential_capable session_ok open_publish now
          a).0
        ≡ admit_ok
      → Ground ke peer pw session_ok open_publish now
          (admit tdb sha256 blank db1 db2 ke peer pw credential_capable session_ok open_publish now
            a).1
  unfolding admit without_credential
  admit-Ground db1 db2 ke peer none capable so op now a e =
      no_credential ke peer now a (path_b tdb sha256 blank db1 db2 ke peer now a) capable so op
        (any_set (KeyEntry.video_publish_key ke)) (path_b-Session db1 db2 ke peer now a) refl e
  admit-Ground db1 db2 ke peer (some p) capable so op now a e =
      credential ke peer now a (path_b tdb sha256 blank db1 db2 ke peer now a) p so op
        (any_set (KeyEntry.video_publish_key ke))
        (video_password_matches sha256 (KeyEntry.video_publish_key ke) p)
        (path_b-Session db1 db2 ke peer now a) refl refl e
