-- ===== src/ConnDb/Layout.antt =====
-- The bytes of struct ConnEntry: the offsets that conntdb.h asserts.
use support_proxy.Base.{ℕ, List}
use support_proxy.Base.Record.{field}
use support_proxy.ConnDb.{ConnEntry}

unfoldable pub conn_entry_of : List ℕ → ConnEntry
conn_entry_of d = record {
  magic = field 0 8 d;
  connected_at = field 8 8 d;
  last_update = field 16 8 d;
  port2 = field 24 4 d;
  conn_index = field 28 4 d;
  pid = field 32 4 d;
  rx_msgs = field 36 4 d;
  tx_msgs = field 40 4 d;
  peer_ip_be = field 44 4 d;
  peer_port_be = field 48 2 d;
  transport = field 50 1 d;
  is_user = field 51 1 d;
  flags = field 52 4 d;
  role = field 64 1 d;
  stream_idx = field 65 1 d;
  app_proto = field 66 1 d;
  authenticated = field 67 1 d;
}
