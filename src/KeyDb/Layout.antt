-- ===== src/KeyDb/Layout.antt =====
-- The bytes of struct KeyEntry: the offsets that keydb.h asserts.
use support_proxy.Base.{ℕ, List, [], ◌∷◌, take, drop}
use support_proxy.Base.Record.{field}
use support_proxy.KeyDb.{KeyEntry}

abbrev bytes_at : ℕ → ℕ → List ℕ → List ℕ
bytes_at off n d = take n (drop off d)

-- What a memcpy into a KeyEntry makes of its bytes.
unfoldable pub key_entry_of : List ℕ → KeyEntry
key_entry_of d = record {
  magic = field 0 8 d;
  timestamp = field 8 8 d;
  secret_key = bytes_at 16 32 d;
  port1 = field 48 4 d;
  connections = field 52 4 d;
  count1 = field 56 4 d;
  count2 = field 60 4 d;
  name = bytes_at 64 32 d;
  flags = field 96 4 d;
  log_retention_days = field 100 4 d;
  fc_sysid = field 104 4 d;
  tz_offset_hours = field 108 4 d;
  video_ports = field 112 4 d ∷ field 116 4 d ∷ field 120 4 d ∷ [];
  video_flags = field 124 4 d;
  video_viewer_key = bytes_at 128 32 d;
  video_publish_key = bytes_at 160 32 d;
  video_quota_mb = field 192 4 d;
  video_mav_grace_s = field 196 4 d;
  video_rtmp_path = bytes_at 200 32 d ∷ bytes_at 232 32 d ∷ bytes_at 264 32 d ∷ [];
  video_ports_hi = field 344 4 d ∷ field 348 4 d ∷ [];
  video_flags_hi = field 352 4 d;
  video_rtmp_path_hi = bytes_at 356 32 d ∷ bytes_at 388 32 d ∷ [];
}
