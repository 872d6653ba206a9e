-- ===== src/VideoAuth/Admit/Closed.antt =====
-- Rows of older session programs, which had no `authenticated` byte.
use mathlib.Core.Bool.{true≢false}
use support_proxy.Base.{
  ℕ, ◌≤◌, ◌≡◌, ◌≢◌, sym, ◌∙◌, Bool, true, false, List, some, arith, length, has_bits,
}
use support_proxy.Tdb.{Tdb}
use support_proxy.KeyDb.{KeyEntry, key_flag_bidi_sign}
use support_proxy.ConnDb.{ConnEntry, make_key}
use support_proxy.ConnDb.Rows.{conn_get_user}
use support_proxy.ConnDb.Rows.Compat.{conn_get_user_closed}
use support_proxy.VideoAuth.{admit_ok, Auth, seen, refresh, check_session}
use support_proxy.VideoAuth.Admit.Sound.{Session, check_session-Session}

module _ (ke : KeyEntry) (peer now later : ℕ) (a : Auth) where
  no-Session_yet :
      (p : Bool × ConnEntry)
      → Auth.have a ≡ false
      → ConnEntry.authenticated p.1 ≡ 0
      → has_bits (KeyEntry.flags ke) key_flag_bidi_sign ≡ true
      → ¬ (Session ke peer later (record (seen a now p) { fetched_at = now }))
  unfolding seen
  no-Session_yet (true, row) have zero bidi s = ground (arith, s.validated, zero, bidi)
  no-Session_yet (false, row) have zero bidi s = true≢false (sym s.session_seen ∙ have)

-- On a bidirectionally signed entry, a row that is too short to hold `authenticated` does not admit
-- the first publisher.
pub old_row_refused :
    (tdb : Tdb) (db : tdb.Db) (blank : ConnEntry) (ke : KeyEntry) (peer now later : ℕ) (a : Auth)
    (d : List ℕ)
    → tdb.fetch db (make_key (Auth.port2 a) 0) ≡ some d
    → length d ≤ 67
    → ConnEntry.authenticated blank ≡ 0
    → Auth.have a ≡ false
    → has_bits (KeyEntry.flags ke) key_flag_bidi_sign ≡ true
    → check_session ke peer later (refresh tdb blank (some db) now a).1 ≢ admit_ok
unfolding refresh
old_row_refused tdb db blank ke peer now later a d e short zero have bidi ok =
    no-Session_yet ke peer now later a (conn_get_user tdb db (Auth.port2 a) blank) have
      (conn_get_user_closed tdb db d (Auth.port2 a) blank e short zero) bidi
      (check_session-Session ke peer later (refresh tdb blank (some db) now a).1 ok)
