-- ===== src/Ts.antt =====
-- videots.h and videots.cpp: the scanner of an MPEG transport stream. The self-test and the fuzzer
-- of videots.cpp are not modelled.
pub mod Crc
pub mod Psi
pub mod Tables
pub mod Packet
pub mod Steps
pub mod Feed
use support_proxy.Base.{ℕ, Bool, true, false, ◌||◌, List, [], Option, none, some, ◌==◌}

abbrev pub ts_packet_size : ℕ
ts_packet_size = 188

abbrev pub ts_sync_byte : ℕ
ts_sync_byte = 0x47

abbrev pub ts_max_section : ℕ
ts_max_section = 1027

abbrev pub ts_stream_mpeg2_video : ℕ
ts_stream_mpeg2_video = 0x02

abbrev pub ts_stream_aac_adts : ℕ
ts_stream_aac_adts = 0x0F

abbrev pub ts_stream_aac_latm : ℕ
ts_stream_aac_latm = 0x11

abbrev pub ts_stream_h264 : ℕ
ts_stream_h264 = 0x1B

abbrev pub ts_stream_hevc : ℕ
ts_stream_hevc = 0x24

-- Counters of 64 bits, which are taken not to wrap.
pub record TsStats : Type 0 where
  pub bytes : ℕ
  pub packets : ℕ
  pub bad_sync : ℕ
  pub resyncs : ℕ
  pub cc_errors : ℕ
  pub pat_seen : ℕ
  pub pmt_seen : ℕ
  pub rai_seen : ℕ
  pub crc_errors : ℕ

-- `buf` is the first `len_` bytes of the array: what lies behind them is never read.
pub record PsiAssembler : Type 0 where
  pub buf : List ℕ
  pub want : ℕ
  pub active : Bool

-- PSIAssembler::reset.
abbrev pub empty_assembler : PsiAssembler
empty_assembler = record { buf = []; want = 0; active = false }

-- `cc` is the last continuity counter of a PID, none where cc_seen_ is false. An offset that has no
-- have_ flag set is none. `partial` is the first partial_len_ bytes of the array.
pub record TsScanner : Type 0 where
  pub stats : TsStats
  pub pat_asm : PsiAssembler
  pub pmt_asm : PsiAssembler
  pub pmt_pid : ℕ
  pub have_pat : Bool
  pub have_pmt : Bool
  pub pat_version : ℕ
  pub pmt_version : ℕ
  pub video_pid : ℕ
  pub video_stream_type : ℕ
  pub last_pat_off : Option ℕ
  pub last_pmt_off : Option ℕ
  pub anchor : Option ℕ
  pub cc : ℕ → Option ℕ
  pub partial : List ℕ
  pub partial_off : ℕ
  pub synced : Bool

-- TSScanner::reset, which is also how a scanner starts.
unfoldable pub fresh_scanner : TsScanner
fresh_scanner = record {
  stats = record {
    bytes = 0;
    packets = 0;
    bad_sync = 0;
    resyncs = 0;
    cc_errors = 0;
    pat_seen = 0;
    pmt_seen = 0;
    rai_seen = 0;
    crc_errors = 0;
  };
  pat_asm = empty_assembler;
  pmt_asm = empty_assembler;
  pmt_pid = 0;
  have_pat = false;
  have_pmt = false;
  pat_version = 0xFF;
  pmt_version = 0xFF;
  video_pid = 0;
  video_stream_type = 0;
  last_pat_off = none;
  last_pmt_off = none;
  anchor = none;
  cc = λ pid. none;
  partial = [];
  partial_off = 0;
  synced = false;
}

unfoldable pub stream_type_playable : ℕ → Bool
stream_type_playable st =
    st == ts_stream_h264 || st == ts_stream_aac_adts || st == ts_stream_aac_latm

unfoldable pub join_offset : TsScanner → Option ℕ
join_offset s = elim s.have_pmt [ true ↦ s.anchor | false ↦ none ]
