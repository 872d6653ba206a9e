-- ===== src/Tests/Access.antt =====
-- The databases and the admission of publishers on small inputs.
use support_proxy.Base.{
  ℕ, ◌+◌, ◌≤◌, ◌≡◌, ◌≢◌, refl, true, false, some, none, List, [], ◌∷◌, ◌++◌, arith, inl, inr,
  Option-cases, ◌↔◌, replicate,
}
use support_proxy.Base.Record.{tail_of, field}
use support_proxy.Tdb.{int_bytes}
use support_proxy.KeyDb.{KeyEntry, keyentry_size}
use support_proxy.KeyDb.Store.{db_load_key, db_save_key}
use support_proxy.KeyDb.Store.Compat.{db_load_key-db_save_key}
use support_proxy.ConnDb.{ConnEntry, make_key}
use support_proxy.ConnDb.Layout.{conn_entry_of}
use support_proxy.ConnDb.Rows.{conn_get_user, user_row}
use support_proxy.ConnDb.Sweep.{conn_delete_index_range, out_of_range}
use support_proxy.ConnDb.Sweep.Range.{
  Deletes, Visited, conn_delete_index_range_keeps, conn_delete_index_range_clears,
}
use support_proxy.VideoAuth.{Auth, admit_ok, any_set, grace_of, check_session}
use support_proxy.VideoAuth.Admit.{
  admit, without_credential, path_b, first_refresh, second_refresh, is_ok,
}
use support_proxy.VideoAuth.Admit.Sound.{Ground, admit-Ground}
use support_proxy.VideoAuth.Admit.Grace.{observe_all, none_found, no_row, grace_window}
use support_proxy.Tests.Table.{table, fetch_row, remove_row}

-- An entry of `n` bytes with the magic and zeros.
abbrev key_bytes : ℕ → List ℕ
key_bytes n = (0x1f ∷ 0xdd ∷ 0x2c ∷ 0xa7 ∷ 0x67 ∷ 0xe8 ∷ 0x73 ∷ 0x6b ∷ []) ++ replicate n 0

abbrev key_table : List ℕ → List (List ℕ × List ℕ)
key_table d = (int_bytes 5760, d) ∷ []

db_load_key-db_save_key_example :
    (db_load_key table (key_table (key_bytes 448)) 5760 [] ≡ (true, key_bytes 448))
    × (tail_of keyentry_size (fetch_row (key_table (key_bytes 448)) (int_bytes 5760))
        ≡ tail_of keyentry_size (fetch_row [] (int_bytes 5760)))
unfolding fetch_row int_bytes db_save_key tail_of field
db_load_key-db_save_key_example =
    db_load_key-db_save_key table [] 5760 (key_bytes 448) [] (key_table (key_bytes 448)) refl refl
      refl

-- The row of the user of port pair 5760, at 10.0.0.1, with the bytes behind offset 52 given.
abbrev row_bytes : List ℕ → List ℕ
row_bytes rest =
    (0x53 ∷ 0x45 ∷ 0x42 ∷ 0x45 ∷ 0x6e ∷ 0x6e ∷ 0x6f ∷ 0x43 ∷ [])
    ++ (replicate 16 0
        ++ ((0x80 ∷ 0x16 ∷ 0 ∷ 0 ∷ [])
            ++ (replicate 16 0 ++ ((10 ∷ 0 ∷ 0 ∷ 1 ∷ []) ++ ((0 ∷ 0 ∷ 0 ∷ 1 ∷ []) ++ rest)))))

abbrev conn_table : List ℕ → List (List ℕ × List ℕ)
conn_table d = (make_key 5760 0, d) ∷ []

abbrev blank : ConnEntry
blank = record {
  magic = 0;
  connected_at = 0;
  last_update = 0;
  port2 = 0;
  conn_index = 0;
  pid = 0;
  rx_msgs = 0;
  tx_msgs = 0;
  peer_ip_be = 0;
  peer_port_be = 0;
  transport = 0;
  is_user = 0;
  flags = 0;
  role = 0;
  stream_idx = 0;
  app_proto = 0;
  authenticated = 0;
}

is_a_user : ConnEntry.is_user (conn_entry_of (row_bytes (replicate 20 0))) ≢ 0
unfolding conn_entry_of field
is_a_user e = omega (arith, e)

-- The user's row of port pair 5760 and a video row.
abbrev two_rows : List (List ℕ × List ℕ)
two_rows = (make_key 5760 0, 1 ∷ []) ∷ (make_key 5760 1000, 2 ∷ []) ∷ []

conn_delete_index_range_keeps_example :
    fetch_row (conn_delete_index_range table two_rows 5760 1000 0x7fffffff).1 (make_key 5760 0)
    ≡ fetch_row two_rows (make_key 5760 0)
unfolding make_key int_bytes field out_of_range
conn_delete_index_range_keeps_example =
    conn_delete_index_range_keeps table (make_key 5760 0) two_rows 5760 1000 0x7fffffff (inr refl)

deletes : Deletes table (make_key 5760 1000)
unfolding Deletes remove_row
deletes db e = elim (Option-cases (fetch_row db (make_key 5760 1000))) [
  | inl x ↦ x
  | inr (v, x) ↦ absurd (ground (arith, x, e))
]

visited :
    (value : List ℕ)
    → fetch_row two_rows (make_key 5760 1000) ≡ some value
    → Visited (make_key 5760 1000) two_rows
unfolding Visited
visited value e = inr (inl refl)

conn_delete_index_range_clears_example :
    fetch_row (conn_delete_index_range table two_rows 5760 1000 0x7fffffff).1 (make_key 5760 1000)
    ≡ none
unfolding make_key int_bytes field out_of_range
conn_delete_index_range_clears_example =
    conn_delete_index_range_clears table (make_key 5760 1000) two_rows 5760 1000 0x7fffffff refl
      refl refl visited deletes

abbrev entry : KeyEntry
entry = record {
  magic = 0;
  timestamp = 0;
  secret_key = [];
  port1 = 0;
  connections = 0;
  count1 = 0;
  count2 = 0;
  name = [];
  flags = 2;
  log_retention_days = 0;
  fc_sysid = 0;
  tz_offset_hours = 0;
  video_ports = 0 ∷ 0 ∷ 0 ∷ [];
  video_flags = 0;
  video_viewer_key = replicate 32 0;
  video_publish_key = replicate 32 0;
  video_quota_mb = 0;
  video_mav_grace_s = 0;
  video_rtmp_path = [];
  video_ports_hi = 0 ∷ 0 ∷ [];
  video_flags_hi = 0;
  video_rtmp_path_hi = [];
}

-- A copy of a validated session from `ip`, seen and read at second 100.
abbrev session_at : ℕ → Auth
session_at ip = record {
  port2 = 5760;
  have = true;
  peer_ip_be = ip;
  authenticated = true;
  seen_at = 100;
  fetched_at = 100;
}

admitted :
    (admit table (λ t. t) blank none none entry 7 none true false false 101 (session_at 7)).0
    ≡ admit_ok
unfolding admit without_credential path_b first_refresh second_refresh check_session grace_of is_ok
    any_set
admitted = refl

unset : any_set (KeyEntry.video_publish_key entry) ≡ false
unfolding any_set
unset = refl

nothing_found : none_found table blank ((none, 110) ∷ (some [], 120) ∷ []) 5760 ≡ true
unfolding none_found no_row conn_get_user user_row fetch_row
nothing_found = refl

admit-Ground_example :
    Ground table
      (λ t. t)
      blank
      entry
      7
      none
      false
      false
      101
      (admit table (λ t. t) blank none none entry 7 none true false false 101 (session_at 7)).1
admit-Ground_example =
    admit-Ground table (λ t. t) blank none none entry 7 none true false false 101 (session_at 7)
      admitted

grace_window_example :
    ((admit table
        (λ t. t)
        blank
        none
        none
        entry
        7
        none
        true
        false
        false
        160
        (observe_all table blank ((none, 110) ∷ (some [], 120) ∷ []) (session_at 7))).0
      ≡ admit_ok)
    ↔ (160 ≤ 100 + grace_of entry)
unfolding no_row
grace_window_example =
    grace_window table blank (λ t. t) ((none, 110) ∷ (some [], 120) ∷ []) none none entry true false
      160 (session_at 7) unset refl refl nothing_found refl refl
