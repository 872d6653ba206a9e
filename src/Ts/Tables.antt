-- ===== src/Ts/Tables.antt =====
-- TSScanner::parse_pat and parse_pmt, on a section that PSIAssembler::feed returned.
use support_proxy.Base.{
  ℕ, zero, suc, ◌+◌, ◌-◌, ◌*◌, ◌/◌, Bool, true, false, not, ◌&&◌, ◌||◌, List, ◌∷◌, Option, none,
  some, ◌>>=◌, ltb, ◌==◌, if◌then◌else◌, length, take, drop, get_elem?, bit_and, has_bits,
}
use support_proxy.Ts.{
  TsScanner, empty_assembler, ts_stream_h264, ts_stream_hevc, ts_stream_mpeg2_video,
}

-- The loop over the programs: the PID of the first that is not program 0.
unfoldable pub first_program : List ℕ → Option ℕ
first_program (a ∷ b ∷ c ∷ d ∷ rest) =
    let later = first_program rest in
    if a * 256 + b == 0 then later else some (bit_and c 0x1F * 256 + d)
first_program _ = none

unfoldable pub with_program : TsScanner → Option ℕ → TsScanner
with_program s none = s
with_program s (some pid) = if s.pmt_pid == pid then record s { have_pat = true } else record s {
  have_pmt = false;
  pmt_version = 0xFF;
  pmt_asm = empty_assembler;
  pmt_pid = pid;
  have_pat = true;
}

-- From the version and the flag of byte 5 on.
unfoldable pub pat_body : TsScanner → List ℕ → ℕ → ℕ → ℕ → TsScanner
pat_body s sec off b0 b5 =
    let version = bit_and (b5 / 2) 0x1F in
    let stats = s.stats in
    let seen = record s {
      stats = record stats { pat_seen = stats.pat_seen + 1 };
      last_pat_off = some off;
    } in
    if not (b0 == 0x00)
    then s
    else if not (has_bits b5 1)
    then s
    else if s.have_pat && version == s.pat_version
    then seen
    else with_program (record seen { pat_version = version })
        (first_program (drop 8 (take (length sec - 4) sec)))

unfoldable pub parse_pat : TsScanner → List ℕ → ℕ → Option TsScanner
parse_pat s sec off =
    if ltb (length sec) 12
    then some s
    else do b0 ← get_elem? sec 0; b5 ← get_elem? sec 5; some (pat_body s sec off b0 b5)

unfoldable pub is_video : ℕ → Bool
is_video st = st == ts_stream_h264 || st == ts_stream_hevc || st == ts_stream_mpeg2_video

-- The loop over the streams, with vpid and vst; a round takes at least five bytes.
unfoldable pub streams : ℕ → List ℕ → ℕ × ℕ → Option (ℕ × ℕ)
streams zero rest found = none
streams (suc fuel) (st ∷ p1 ∷ p2 ∷ e1 ∷ e2 ∷ rest) (vpid, vst) =
    let pid = bit_and p1 0x1F * 256 + p2 in
    let es_len = bit_and e1 0x0F * 256 + e2 in
    streams fuel (drop es_len rest) (if vpid == 0 && is_video st then (pid, st) else (vpid, vst))
streams (suc fuel) _ found = some found

unfoldable pub with_streams : TsScanner → ℕ × ℕ → TsScanner
with_streams s (vpid, vst) =
    if vpid == 0 then s else record s { video_pid = vpid; video_stream_type = vst; have_pmt = true }

unfoldable pub pmt_changed : TsScanner → List ℕ → ℕ → ℕ → Option TsScanner
pmt_changed s sec b10 b11 = do
  let prog_info_len = bit_and b10 0x0F * 256 + b11
  found ← streams (suc (length sec)) (drop (12 + prog_info_len) (take (length sec - 4) sec)) (0, 0)
  some (with_streams s found)

unfoldable pub pmt_body : TsScanner → List ℕ → ℕ → ℕ → ℕ → Option TsScanner
pmt_body s sec off b0 b5 =
    let version = bit_and (b5 / 2) 0x1F in
    let stats = s.stats in
    let seen = record s {
      stats = record stats { pmt_seen = stats.pmt_seen + 1 };
      last_pmt_off = some off;
    } in
    if not (b0 == 0x02)
    then some s
    else if not (has_bits b5 1)
    then some s
    else if s.have_pmt && version == s.pmt_version
    then some seen
    else do
      b10 ← get_elem? sec 10
      b11 ← get_elem? sec 11
      pmt_changed (record seen { pmt_version = version }) sec b10 b11

unfoldable pub parse_pmt : TsScanner → List ℕ → ℕ → Option TsScanner
parse_pmt s sec off =
    if ltb (length sec) 16
    then some s
    else do b0 ← get_elem? sec 0; b5 ← get_elem? sec 5; pmt_body s sec off b0 b5
