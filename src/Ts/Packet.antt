-- ===== src/Ts/Packet.antt =====
-- ts_payload_is_random_access and TSScanner::packet, on the 188 bytes of one packet.
use support_proxy.Base.{
  ℕ, ◌+◌, ◌*◌, ◌/◌, ◌%◌, Bool, true, false, not, ◌&&◌, ◌||◌, List, [], ◌∷◌, Option, none, some,
  ◌>>=◌, ltb, leb, ◌==◌, if◌then◌else◌, drop, get_elem?, bit_and, has_bits,
}
use support_proxy.Ts.{TsScanner, ts_packet_size, ts_sync_byte, ts_stream_h264, ts_stream_hevc}
use support_proxy.Ts.Psi.{Fed, psi_feed}
use support_proxy.Ts.Tables.{parse_pat, parse_pmt}

-- The header of a unit that a decoder can start at.
unfoldable pub starts_access : ℕ → ℕ → Bool
starts_access stream_type b =
    let nal = if stream_type == ts_stream_h264 then bit_and b 0x1F else bit_and (b / 2) 0x3F in
    if stream_type == ts_stream_h264
    then nal == 9 || nal == 7 || nal == 8 || nal == 5
    else nal == 35 || leb 32 nal && leb nal 34 || leb 16 nal && leb nal 21

-- The loop over the start codes: a round looks at four bytes that one more follows.
unfoldable pub any_access : ℕ → List ℕ → Bool
any_access stream_type [] = false
any_access stream_type (a ∷ rest) =
    let later = any_access stream_type rest in
    elim rest [
      | b ∷ c ∷ d ∷ e ∷ _ ↦ (a == 0 && b == 0 && c == 1 && starts_access stream_type d) || later
      | _ ↦ later
    ]

unfoldable pub ts_payload_is_random_access : List ℕ → ℕ → Bool
ts_payload_is_random_access p stream_type =
    if not (stream_type == ts_stream_h264) && not (stream_type == ts_stream_hevc)
    then true
    else any_access stream_type p

unfoldable pub jumps : Option ℕ → ℕ → Bool
jumps none counter = false
jumps (some last) counter = not (counter == (last + 1) % 16)

-- The check of the continuity counter, where there is a payload.
unfoldable pub continuity : TsScanner → ℕ → ℕ → ℕ → TsScanner
continuity s pid afc counter =
    let stats = s.stats in
    let errors = if jumps (s.cc pid) counter then stats.cc_errors + 1 else stats.cc_errors in
    if afc == 0 || afc == 2 then s else record s {
      stats = record stats { cc_errors = errors };
      cc = λ q. if q == pid then some counter else s.cc q;
    }

unfoldable pub flags_of : List ℕ → ℕ → Option (ℕ × Bool)
flags_of p af_len =
    if ltb 0 af_len && leb (5 + af_len) ts_packet_size
    then (do b ← get_elem? p 5; some (5 + af_len, has_bits b 0x40))
    else some (5 + af_len, false)

-- Where the payload starts, and the random access indicator.
unfoldable pub adaptation : List ℕ → ℕ → Option (ℕ × Bool)
adaptation p afc =
    if afc == 2 || afc == 3 then (do af_len ← get_elem? p 4; flags_of p af_len) else some (4, false)

unfoldable pub count_errors : TsScanner → ℕ → TsScanner
count_errors s n =
    let stats = s.stats in record s { stats = record stats { crc_errors = stats.crc_errors + n } }

unfoldable pub on_pat : TsScanner → ℕ → Fed → Option TsScanner
on_pat s off fed =
    let s' = count_errors (record s { pat_asm = fed.asm }) fed.errors in
    elim fed.section [ none ↦ some s' | some sec ↦ parse_pat s' sec off ]

unfoldable pub on_pmt : TsScanner → ℕ → Fed → Option TsScanner
on_pmt s off fed =
    let s' = count_errors (record s { pmt_asm = fed.asm }) fed.errors in
    elim fed.section [ none ↦ some s' | some sec ↦ parse_pmt s' sec off ]

-- The earlier of the last PAT and PMT, where both were seen and neither lies ahead.
unfoldable pub new_anchor : Option ℕ → Option ℕ → ℕ → Option ℕ → Option ℕ
new_anchor (some pat) (some pmt) off old =
    if leb pat off && leb pmt off then some (if ltb pat pmt then pat else pmt) else old
new_anchor _ _ off old = old

unfoldable pub on_video : TsScanner → ℕ → List ℕ → Bool → TsScanner
on_video s off payload pusi =
    let stats = s.stats in
    if not pusi || ts_payload_is_random_access payload s.video_stream_type
    then record s {
      stats = record stats { rai_seen = stats.rai_seen + 1 };
      anchor = new_anchor s.last_pat_off s.last_pmt_off off s.anchor;
    }
    else s

-- Dispatch on the PID.
unfoldable pub on_payload : TsScanner → ℕ → List ℕ → Bool → ℕ → Bool → Option TsScanner
on_payload s off payload pusi pid rai =
    if pid == 0
    then (do fed ← psi_feed s.pat_asm payload pusi; on_pat s off fed)
    else if s.have_pat && pid == s.pmt_pid
    then (do fed ← psi_feed s.pmt_asm payload pusi; on_pmt s off fed)
    else if s.have_pmt && (pid == s.video_pid && rai)
    then some (on_video s off payload pusi)
    else some s

unfoldable pub with_payload : TsScanner → List ℕ → ℕ → Bool → ℕ → ℕ → ℕ × Bool → Option TsScanner
with_payload s p off pusi pid afc (off_in, rai) =
    if afc == 0 || afc == 2 || leb ts_packet_size off_in
    then some s
    else on_payload s off (drop off_in p) pusi pid rai

-- A packet that starts with the sync byte.
unfoldable pub in_sync : TsScanner → List ℕ → ℕ → Option TsScanner
in_sync s p off = do
  b1 ← get_elem? p 1
  b2 ← get_elem? p 2
  b3 ← get_elem? p 3
  let afc = bit_and (b3 / 16) 0x03
  let pid = bit_and b1 0x1F * 256 + b2
  where_payload ← adaptation p afc
  with_payload (continuity s pid afc (bit_and b3 0x0F)) p off (has_bits b1 0x40) pid afc
      where_payload

unfoldable pub on_first : TsScanner → List ℕ → ℕ → ℕ → Option TsScanner
on_first s p off b0 =
    let stats = s.stats in
    let counted = record s { stats = record stats { packets = stats.packets + 1 } } in
    let bad = record s {
      stats = record stats { packets = stats.packets + 1; bad_sync = stats.bad_sync + 1 };
      synced = false;
    } in
    if b0 == ts_sync_byte then in_sync counted p off else some bad

unfoldable pub packet : TsScanner → List ℕ → ℕ → Option TsScanner
packet s p off = do b0 ← get_elem? p 0; on_first s p off b0
