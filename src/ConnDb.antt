-- ===== src/ConnDb.antt =====
-- conntdb.h and conntdb.cpp: the rows of live connections, keyed by the port pair and the index of
-- the connection. Opening the file, transactions and a failing malloc are not modelled.
pub mod Layout
pub mod Rows
pub mod Sweep
use support_proxy.Base.{ℕ, ◌^◌, List, ◌++◌}
use support_proxy.Tdb.{int_bytes}

abbrev pub conn_magic : ℕ
conn_magic = 0x436f6e6e45424553

abbrev pub connentry_min_size : ℕ
connentry_min_size = 64

abbrev pub connentry_size : ℕ
connentry_size = 72

abbrev pub conn_flag_drop_requested : ℕ
conn_flag_drop_requested = 2 ^ 0

abbrev pub video_conn_index_base : ℕ
video_conn_index_base = 1000

-- The padding, which is zero, is left out.
pub record ConnEntry : Type 0 where
  pub magic : ℕ
  pub connected_at : ℕ
  pub last_update : ℕ
  pub port2 : ℕ
  pub conn_index : ℕ
  pub pid : ℕ
  pub rx_msgs : ℕ
  pub tx_msgs : ℕ
  pub peer_ip_be : ℕ
  pub peer_port_be : ℕ
  pub transport : ℕ
  pub is_user : ℕ
  pub flags : ℕ
  pub role : ℕ
  pub stream_idx : ℕ
  pub app_proto : ℕ
  pub authenticated : ℕ

-- make_key: the two ints of a ConnKey.
unfoldable pub make_key : ℕ → ℕ → List ℕ
make_key port2 conn_index = int_bytes port2 ++ int_bytes conn_index
