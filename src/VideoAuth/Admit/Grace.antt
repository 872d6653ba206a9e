-- ===== src/VideoAuth/Admit/Grace.antt =====
-- The grace window: what the cached copy of a session is worth once its row is gone.
use support_proxy.Base.{
  ℕ, ◌+◌, ◌-◌, ◌≤◌, ◌≡◌, refl, sym, ap, ◌∙◌, Bool, true, false, not, ◌&&◌, ◌||◌, List, [], ◌∷◌,
  Option, none, some, arith, leb, ltb, ◌↔◌, ◌==◌, if◌then◌else◌, has_bits,
}
use support_proxy.Tdb.{Tdb}
use support_proxy.KeyDb.{KeyEntry, key_flag_bidi_sign}
use support_proxy.ConnDb.{ConnEntry}
use support_proxy.ConnDb.Rows.{conn_get_user}
use support_proxy.VideoAuth.{
  Admission, admit_ok, Auth, any_set, seen, grace_of, refresh, check_session, video_auth_cache_s,
}
use support_proxy.VideoAuth.Admit.{
  is_ok, first_refresh, recheck, second_refresh, path_b, without_credential, admit,
}
use support_proxy.VideoAuth.Admit.Sound.{Session, check_session-Session, Session-check_session}

module _ (tdb : Tdb) (blank : ConnEntry) where
  -- A table in which the port pair has no usable row, or which cannot be opened.
  unfoldable pub no_row : Option tdb.Db → ℕ → Bool
  no_row none port2 = true
  no_row (some db) port2 = not (conn_get_user tdb db port2 blank).0

  -- Looks at the table, one after another.
  unfoldable pub observe_all : List (Option tdb.Db × ℕ) → Auth → Auth
  observe_all [] a = a
  observe_all ((db, now) ∷ rest) a = observe_all rest (refresh tdb blank db now a).1

  -- The copy keeps what it saw.
  pub record Remembers (a b : Auth) : Type 0 where
    pub same_have : Auth.have b ≡ Auth.have a
    pub same_peer : Auth.peer_ip_be b ≡ Auth.peer_ip_be a
    pub same_authenticated : Auth.authenticated b ≡ Auth.authenticated a
    pub same_seen : Auth.seen_at b ≡ Auth.seen_at a
    pub same_port2 : Auth.port2 b ≡ Auth.port2 a

  validated_lem : (b : Bool) → (b && not true) ≡ false
  validated_lem b = ground arith

  both_left : (p q : Bool) → (p && q) ≡ true → p ≡ true
  both_left p q e = ground arith

  both_right : (p q : Bool) → (p && q) ≡ true → q ≡ true
  both_right p q e = ground arith

  seen-Remembers :
      (now : ℕ) (a : Auth) (p : Bool × ConnEntry)
      → not p.0 ≡ true
      → Remembers a (record (seen a now p) { fetched_at = now })
  unfolding seen
  seen-Remembers now a (true, row) e = absurd (ground (arith, e))
  seen-Remembers now a (false, row) e = record {
    same_have = refl;
    same_peer = refl;
    same_authenticated = refl;
    same_seen = refl;
    same_port2 = refl;
  }

  refresh-Remembers :
      (db : Option tdb.Db) (now : ℕ) (a : Auth)
      → no_row db (Auth.port2 a) ≡ true
      → Remembers a (refresh tdb blank db now a).1
  unfolding refresh no_row
  refresh-Remembers none now a e = record {
    same_have = refl;
    same_peer = refl;
    same_authenticated = refl;
    same_seen = refl;
    same_port2 = refl;
  }
  refresh-Remembers (some db) now a e =
      seen-Remembers now a (conn_get_user tdb db (Auth.port2 a) blank) e

  Remembers-refl : (a : Auth) → Remembers a a
  Remembers-refl a = record {
    same_have = refl;
    same_peer = refl;
    same_authenticated = refl;
    same_seen = refl;
    same_port2 = refl;
  }

  Remembers-trans : (a b c : Auth) → Remembers a b → Remembers b c → Remembers a c
  Remembers-trans a b c p q = record {
    same_have = q.same_have ∙ p.same_have;
    same_peer = q.same_peer ∙ p.same_peer;
    same_authenticated = q.same_authenticated ∙ p.same_authenticated;
    same_seen = q.same_seen ∙ p.same_seen;
    same_port2 = q.same_port2 ∙ p.same_port2;
  }

  -- No look of the list finds a row.
  unfoldable pub none_found : List (Option tdb.Db × ℕ) → ℕ → Bool
  none_found [] port2 = true
  none_found ((db, now) ∷ rest) port2 = no_row db port2 && none_found rest port2

  observe_all-Remembers :
      (looks : List (Option tdb.Db × ℕ)) (a : Auth)
      → none_found looks (Auth.port2 a) ≡ true
      → Remembers a (observe_all looks a)
  unfolding observe_all none_found
  observe_all-Remembers [] a e = Remembers-refl a
  observe_all-Remembers ((db, now) ∷ rest) a e =
      let b = (refresh tdb blank db now a).1 in
      let first =
        refresh-Remembers db now a
          (both_left (no_row db (Auth.port2 a)) (none_found rest (Auth.port2 a)) e) in
      Remembers-trans a b (observe_all rest b) first (
        observe_all-Remembers rest b (
          ap (none_found rest) first.same_port2
          ∙ both_right (no_row db (Auth.port2 a)) (none_found rest (Auth.port2 a)) e))

  module _ (sha256 : List ℕ → List ℕ) where
    first_refresh-Remembers :
        (db : Option tdb.Db) (now : ℕ) (a : Auth)
        → no_row db (Auth.port2 a) ≡ true
        → Remembers a (first_refresh tdb sha256 blank db now a)
    unfolding first_refresh
    first_refresh-Remembers db now a e =
        elim (Auth.fetched_at a == 0 || leb video_auth_cache_s (now - Auth.fetched_at a))
          as (λ b. Remembers a (if b then (refresh tdb blank db now a).1 else a)) [
            | true ↦ refresh-Remembers db now a e
            | false ↦ Remembers-refl a
          ]

    either_way :
        (b : Bool) (p q : Admission × Auth) (r : Admission)
        → p.0 ≡ r
        → q.0 ≡ r
        → (if b then p else q).0 ≡ r
    either_way true p q r e f = e
    either_way false p q r e f = f

    recheck_ok :
        (ke : KeyEntry) (peer now : ℕ) (r : Admission) (p : Bool × Auth)
        → check_session ke peer now p.1 ≡ r
        → (recheck tdb sha256 blank ke peer now r p).0 ≡ r
    unfolding recheck
    recheck_ok ke peer now r (true, b) e = e
    recheck_ok ke peer now r (false, b) e = refl

    check_session-Remembers :
        (ke : KeyEntry) (peer now : ℕ) (a b : Auth)
        → Remembers a b
        → check_session ke peer now b ≡ check_session ke peer now a
    unfolding check_session
    check_session-Remembers ke peer now a b m =
        rw (m.same_have, m.same_peer, m.same_authenticated, m.same_seen) refl

    -- Without a row, path B decides on what the copy holds, whenever it looks.
    path_b-no_row :
        (db1 db2 : Option tdb.Db) (ke : KeyEntry) (peer now : ℕ) (a : Auth)
        → no_row db1 (Auth.port2 a) ≡ true
        → no_row db2 (Auth.port2 a) ≡ true
        → (path_b tdb sha256 blank db1 db2 ke peer now a).0 ≡ check_session ke peer now a
    unfolding path_b second_refresh
    path_b-no_row db1 db2 ke peer now a e1 e2 =
        let a1 = first_refresh tdb sha256 blank db1 now a in
        let m1 = first_refresh-Remembers db1 now a e1 in
        let c1 = check_session-Remembers ke peer now a a1 m1 in
        let m2 = refresh-Remembers db2 now a1 (ap (no_row db2) m1.same_port2 ∙ e2) in
        let c2 = check_session-Remembers ke peer now a1 (refresh tdb blank db2 now a1).1 m2 in
        let r = check_session ke peer now a1 in
        let again = refresh tdb blank db2 now a1 in
        either_way (not (is_ok r) && ltb (Auth.fetched_at a1) now)
          (recheck tdb sha256 blank ke peer now r again) (r, a1) r
          (recheck_ok ke peer now r again c2) refl
        ∙ c1

    unset_falls_through :
        (db1 db2 : Option tdb.Db) (ke : KeyEntry) (peer : ℕ) (capable session_ok : Bool) (now : ℕ)
        (a : Auth)
        → any_set (KeyEntry.video_publish_key ke) ≡ false
        → admit tdb sha256 blank db1 db2 ke peer none capable session_ok false now a
          ≡ path_b tdb sha256 blank db1 db2 ke peer now a
    unfolding admit without_credential
    unset_falls_through db1 db2 ke peer capable session_ok now a unset = rw unset refl

    -- Where the entry has no publish password, the slot is not an open one (open_publish is false) and
    -- the publisher offers no credential: once a validated session from its address was seen, and
    -- however often the table is then looked at without a row to be found or without opening, the
    -- address is admitted exactly until the grace window after the last sighting is over.
    pub grace_window :
        (looks : List (Option tdb.Db × ℕ)) (db1 db2 : Option tdb.Db) (ke : KeyEntry)
        (capable session_ok : Bool) (now : ℕ) (a : Auth)
        → any_set (KeyEntry.video_publish_key ke) ≡ false
        → Auth.have a ≡ true
        → Auth.authenticated a ≡ true
        → none_found looks (Auth.port2 a) ≡ true
        → no_row db1 (Auth.port2 a) ≡ true
        → no_row db2 (Auth.port2 a) ≡ true
        → ((admit tdb sha256 blank db1 db2 ke
              (Auth.peer_ip_be a)
              none
              capable
              session_ok
              false
              now
              (observe_all looks a)).0
            ≡ admit_ok)
          ↔ (now ≤ Auth.seen_at a + grace_of ke)
    grace_window looks db1 db2 ke capable session_ok now a unset have valid gone e1 e2 =
        let b = observe_all looks a in
        let m = observe_all-Remembers looks a gone in
        let peer = Auth.peer_ip_be a in
        let decided : (admit tdb sha256 blank db1 db2 ke peer none capable session_ok false now b).0
            ≡ check_session ke peer now a =
          ap (λ p. p.0) (unset_falls_through db1 db2 ke peer capable session_ok now b unset)
          ∙ path_b-no_row db1 db2 ke peer now b (ap (no_row db1) m.same_port2 ∙ e1)
              (ap (no_row db2) m.same_port2 ∙ e2)
          ∙ check_session-Remembers ke peer now a b m in
        (
          (λ ok. Session.in_grace (check_session-Session ke peer now a (sym decided ∙ ok))),
          (λ h.
              decided
              ∙ Session-check_session ke peer now a (record {
                session_seen = have;
                same_address = refl;
                in_grace = h;
                validated =
                    rw valid (validated_lem (has_bits (KeyEntry.flags ke) key_flag_bidi_sign));
              })),
        )
