-- ===== src/KeyDb.antt =====
-- keydb.h and keydb.cpp: the configuration record of a port pair, its layout on disk, and how it
-- is loaded and saved by programs of different ages. A failing malloc is not modelled.
pub mod Slots
pub mod Layout
pub mod Store
use support_proxy.Base.{ℕ, ◌^◌, List}

abbrev pub key_magic : ℕ
key_magic = 0x6b73e867a72cdd1f

abbrev pub keyentry_min_size : ℕ
keyentry_min_size = 96

abbrev pub keyentry_size : ℕ
keyentry_size = 456

abbrev pub key_max_video_ports : ℕ
key_max_video_ports = 5

abbrev pub key_video_ports_inline : ℕ
key_video_ports_inline = 3

abbrev pub key_flag_bidi_sign : ℕ
key_flag_bidi_sign = 2 ^ 1

abbrev pub video_mav_grace_default_s : ℕ
video_mav_grace_default_s = 60

-- A `float` is its bit pattern; the `reserved` words, which nothing reads, are left out.
pub record KeyEntry : Type 0 where
  pub magic : ℕ
  pub timestamp : ℕ
  pub secret_key : List ℕ
  pub port1 : ℕ
  pub connections : ℕ
  pub count1 : ℕ
  pub count2 : ℕ
  pub name : List ℕ
  pub flags : ℕ
  pub log_retention_days : ℕ
  pub fc_sysid : ℕ
  pub tz_offset_hours : ℕ
  pub video_ports : List ℕ
  pub video_flags : ℕ
  pub video_viewer_key : List ℕ
  pub video_publish_key : List ℕ
  pub video_quota_mb : ℕ
  pub video_mav_grace_s : ℕ
  pub video_rtmp_path : List (List ℕ)
  pub video_ports_hi : List ℕ
  pub video_flags_hi : ℕ
  pub video_rtmp_path_hi : List (List ℕ)
