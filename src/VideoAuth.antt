-- ===== src/VideoAuth.antt =====
-- videoauth.h and videoauth.cpp: who may publish video. SHA256 is a parameter; a text is the list
-- of its bytes; CRYPTO_memcmp is equality of bytes; times are unix seconds.
pub mod Admit
pub mod Token
use support_proxy.Base.{
  ℕ, ◌+◌, ◌-◌, Bool, true, false, not, ◌&&◌, ◌||◌, List, [], ◌∷◌, Option, none, some, ltb, ◌==◌,
  if◌then◌else◌, length, bytes_eq, has_bits,
}
use support_proxy.Tdb.{Tdb}
use support_proxy.KeyDb.{KeyEntry, key_flag_bidi_sign, video_mav_grace_default_s}
use support_proxy.ConnDb.{ConnEntry}
use support_proxy.ConnDb.Rows.{conn_get_user}

abbrev pub video_auth_cache_s : ℕ
video_auth_cache_s = 2

pub data Admission : Type 0 where
  admit_ok : Admission
  admit_no_session : Admission
  admit_stale_session : Admission
  admit_wrong_ip : Admission
  admit_unauth : Admission
  admit_bad_password : Admission
  admit_no_credential : Admission
  admit_missing_password : Admission

-- The state of a VideoAuth.
pub record Auth : Type 0 where
  pub port2 : ℕ
  pub have : Bool
  pub peer_ip_be : ℕ
  pub authenticated : Bool
  pub seen_at : ℕ
  pub fetched_at : ℕ

-- Some byte is not 0: the key is set.
unfoldable pub any_set : List ℕ → Bool
any_set [] = false
any_set (b ∷ bs) = not (b == 0) || any_set bs

unfoldable pub has_nul : List ℕ → Bool
has_nul [] = false
has_nul (b ∷ bs) = b == 0 || has_nul bs

unfoldable pub video_password_matches : (List ℕ → List ℕ) → List ℕ → List ℕ → Bool
video_password_matches sha256 stored candidate =
    if not (any_set stored) || length candidate == 0 || has_nul candidate
    then false
    else bytes_eq (sha256 candidate) stored

unfoldable pub seen : Auth → ℕ → Bool × ConnEntry → Auth
seen a now (false, e) = a
seen a now (true, e) = record a {
  have = true;
  peer_ip_be = ConnEntry.peer_ip_be e;
  authenticated = not (ConnEntry.authenticated e == 0);
  seen_at = now;
}

-- `db` is what conn_db_open gives, and none where it fails; `e` is the zeroed struct.
unfoldable pub refresh : (tdb : Tdb) → ConnEntry → Option tdb.Db → ℕ → Auth → Bool × Auth
refresh tdb e none now a = (false, record a { fetched_at = now })
refresh tdb e (some db) now a =
    (true, record (seen a now (conn_get_user tdb db (Auth.port2 a) e)) { fetched_at = now })

unfoldable pub grace_of : KeyEntry → ℕ
grace_of ke =
    if KeyEntry.video_mav_grace_s ke == 0
    then video_mav_grace_default_s
    else KeyEntry.video_mav_grace_s ke

unfoldable pub check_session : KeyEntry → ℕ → ℕ → Auth → Admission
check_session ke peer now a =
    if not (Auth.have a)
    then admit_no_session
    else if not (Auth.peer_ip_be a == peer)
    then admit_wrong_ip
    else if ltb (Auth.seen_at a + grace_of ke) now
    then admit_stale_session
    else if has_bits (KeyEntry.flags ke) key_flag_bidi_sign && not (Auth.authenticated a)
    then admit_unauth
    else admit_ok
