-- ===== src/Ts/Feed/Total.antt =====
-- The scanner returns on any bytes, and reads none out of bounds.
use support_proxy.Base.{
  ℕ, zero, suc, ◌+◌, ◌-◌, ◌/◌, ◌≤◌, ◌<◌, ◌≡◌, refl, sym, subst, Bool, true, false, not, ◌&&◌, ◌||◌,
  List, [], ◌++◌, Option, none, some, arith, tests, inl, inr, ltb, leb, ◌==◌, if◌then◌else◌, length,
  take, drop, min, Bool-cases, get_elem?-some, length-append, length-take, length-drop, bit_and,
  has_bits,
}
use support_proxy.Ts.{TsScanner, ts_packet_size, ts_sync_byte}
use support_proxy.Ts.Psi.{Fed}
use support_proxy.Ts.Tables.{parse_pat, parse_pmt}
use support_proxy.Ts.Packet.{
  continuity, flags_of, adaptation, count_errors, on_pat, on_pmt, on_video, on_payload,
  with_payload, in_sync, on_first, packet, ts_payload_is_random_access,
}
use support_proxy.Ts.Feed.{
  hunt, keep_partial, resynced, one_packet, after_hunt, feed_round, feed_loop, after_partial, feed,
}
use support_proxy.Ts.Steps.{
  Fits, psi_feed-Fits, Keeps, Steps, one_of, step_of, stays, parse_pat-Steps, parse_pmt-Steps,
}

-- What a scanner holds fits its arrays.
pub record Held (s : TsScanner) : Type 0 where
  pub pat_held : Fits s.pat_asm
  pub pmt_held : Fits s.pmt_asm
  pub partial_held : length s.partial ≤ 187

module _ (t : TsScanner) where
  on_pat-Steps :
      (s : TsScanner) (off : ℕ) (fed : Fed) → Keeps t s → Fits fed.asm → Steps t (on_pat s off fed)
  unfolding on_pat count_errors
  on_pat-Steps s off fed k h =
      let k' : Keeps t (count_errors (record s { pat_asm = fed.asm }) fed.errors) = record {
        pat_fits = h;
        pmt_fits = k.pmt_fits;
        same_partial = k.same_partial;
      } in
      elim fed.section
        as (λ o. Steps t (elim o [
          | none ↦ some (count_errors (record s { pat_asm = fed.asm }) fed.errors)
          | some sec ↦ parse_pat (count_errors (record s { pat_asm = fed.asm }) fed.errors) sec off
        ])) [ none ↦ stays t _ k' | some sec ↦ parse_pat-Steps _ t sec off k' ]

  on_pmt-Steps :
      (s : TsScanner) (off : ℕ) (fed : Fed) → Keeps t s → Fits fed.asm → Steps t (on_pmt s off fed)
  unfolding on_pmt count_errors
  on_pmt-Steps s off fed k h =
      let k' : Keeps t (count_errors (record s { pmt_asm = fed.asm }) fed.errors) = record {
        pat_fits = k.pat_fits;
        pmt_fits = h;
        same_partial = k.same_partial;
      } in
      elim fed.section
        as (λ o. Steps t (elim o [
          | none ↦ some (count_errors (record s { pmt_asm = fed.asm }) fed.errors)
          | some sec ↦ parse_pmt (count_errors (record s { pmt_asm = fed.asm }) fed.errors) sec off
        ])) [ none ↦ stays t _ k' | some sec ↦ parse_pmt-Steps _ t sec off k' ]

  on_video-Keeps :
      (s : TsScanner) (off : ℕ) (payload : List ℕ) (pusi : Bool)
      → Keeps t s
      → Keeps t (on_video s off payload pusi)
  unfolding on_video
  on_video-Keeps s off payload pusi k =
      one_of (not pusi || ts_payload_is_random_access payload s.video_stream_type) t _ _
        (record { pat_fits = k.pat_fits; pmt_fits = k.pmt_fits; same_partial = k.same_partial }) k

  on_payload-Steps :
      (s : TsScanner) (off : ℕ) (payload : List ℕ) (pusi : Bool) (pid : ℕ) (rai : Bool)
      → Keeps t s
      → Steps t (on_payload s off payload pusi pid rai)
  unfolding on_payload
  on_payload-Steps s off payload pusi pid rai k =
      let (fed, e, h) = psi_feed-Fits s.pat_asm payload pusi k.pat_fits in
      let (fed', e', h') = psi_feed-Fits s.pmt_asm payload pusi k.pmt_fits in
      step_of (pid == 0) t _ _ (rw e (on_pat-Steps s off fed k h)) (λ n1.
        step_of (s.have_pat && pid == s.pmt_pid) t _ _ (rw e' (on_pmt-Steps s off fed' k h')) (λ n2.
          step_of (s.have_pmt && (pid == s.video_pid && rai)) t _ _
            (stays t _ (on_video-Keeps s off payload pusi k)) (λ n3. stays t s k)))

  with_payload-Steps :
      (s : TsScanner) (p : List ℕ) (off : ℕ) (pusi : Bool) (pid afc : ℕ) (w : ℕ × Bool)
      → Keeps t s
      → Steps t (with_payload s p off pusi pid afc w)
  unfolding with_payload
  with_payload-Steps s p off pusi pid afc (off_in, rai) k =
      step_of (afc == 0 || afc == 2 || leb ts_packet_size off_in) t _ _ (stays t s k)
        (λ e. on_payload-Steps s off (drop off_in p) pusi pid rai k)

  continuity-Keeps :
      (s : TsScanner) (pid afc counter : ℕ) → Keeps t s → Keeps t (continuity s pid afc counter)
  unfolding continuity
  continuity-Keeps s pid afc counter k =
      one_of (afc == 0 || afc == 2) t _ _ k
        (record { pat_fits = k.pat_fits; pmt_fits = k.pmt_fits; same_partial = k.same_partial })

flags_of_lem :
    (p : List ℕ) (af_len : ℕ) → length p ≡ 188 → (w : ℕ × Bool) × (flags_of p af_len ≡ some w)
unfolding flags_of
flags_of_lem p af_len size =
    let (b, e) = get_elem?-some p 5 (omega arith) in
    elim (Bool-cases (ltb 0 af_len && leb (5 + af_len) ts_packet_size)) [
      | inl c ↦ rw (c, e) ((5 + af_len, has_bits b 0x40), refl)
      | inr c ↦ rw c ((5 + af_len, false), refl)
    ]

adaptation_lem :
    (p : List ℕ) (afc : ℕ) → length p ≡ 188 → (w : ℕ × Bool) × (adaptation p afc ≡ some w)
unfolding adaptation
adaptation_lem p afc size =
    let (b, e) = get_elem?-some p 4 (omega arith) in
    elim (Bool-cases (afc == 2 || afc == 3)) [
      | inl c ↦ rw (c, e) (flags_of_lem p b size)
      | inr c ↦ rw c ((4, false), refl)
    ]

-- Scanning a packet returns, whatever its 188 bytes.
pub packet-Steps :
    (s t : TsScanner) (p : List ℕ) (off : ℕ) → length p ≡ 188 → Keeps t s → Steps t (packet s p off)
unfolding packet on_first in_sync
packet-Steps s t p off size k =
    let (b0, e0) = get_elem?-some p 0 (omega arith) in
    let (b1, e1) = get_elem?-some p 1 (omega arith) in
    let (b2, e2) = get_elem?-some p 2 (omega arith) in
    let (b3, e3) = get_elem?-some p 3 (omega arith) in
    let (w, e) = adaptation_lem p (bit_and (b3 / 16) 0x03) size in
    rw (e0, e1, e2, e3, e)
      (step_of (b0 == ts_sync_byte) t _ _
        (with_payload-Steps t _ p off _ _ _ w (
          continuity-Keeps t _ _ _ _ (record {
            pat_fits = k.pat_fits;
            pmt_fits = k.pmt_fits;
            same_partial = k.same_partial;
          })))
        (λ n.
          stays t _ (record {
            pat_fits = k.pat_fits;
            pmt_fits = k.pmt_fits;
            same_partial = k.same_partial;
          })))

abbrev Done : Option TsScanner → Type 0
Done o = (s' : TsScanner) × (o ≡ some s') × Held s'

-- A loop that returns on fewer than `n` bytes.
abbrev Returns : ℕ → (TsScanner → List ℕ → ℕ → Option TsScanner) → Type 0
Returns n next =
    (s : TsScanner) (rest : List ℕ) (off : ℕ) → length rest < n → Held s → Done (next s rest off)

itself : (s : TsScanner) → Held s → Keeps s s
itself s h = record { pat_fits = h.pat_held; pmt_fits = h.pmt_held; same_partial = refl }

one_packet-Done :
    (n : ℕ) (next : TsScanner → List ℕ → ℕ → Option TsScanner) (s : TsScanner) (rest : List ℕ)
    (off : ℕ)
    → Returns n next
    → length rest ≤ n
    → Held s
    → Done (one_packet next s rest off)
unfolding one_packet keep_partial
one_packet-Done n next s rest off r size h = elim (Bool-cases (ltb (length rest) ts_packet_size)) [
  | inl e ↦ rw e (
    keep_partial s rest off,
    refl,
    record { pat_held = h.pat_held; pmt_held = h.pmt_held; partial_held = omega tests },
  )
  | inr e ↦
      let (s', runs, k) =
        packet-Steps s s (take ts_packet_size rest) off
          (omega (tests, length-take ts_packet_size rest)) (itself s h) in
      rw (e, runs)
        (r s' (drop ts_packet_size rest) (off + ts_packet_size)
          (omega (tests, length-drop ts_packet_size rest))
          (record {
            pat_held = k.pat_fits;
            pmt_held = k.pmt_fits;
            partial_held =
                subst (λ (l : List ℕ). length l ≤ 187) (sym k.same_partial) h.partial_held;
          }))
]

after_hunt-Done :
    (n : ℕ) (next : TsScanner → List ℕ → ℕ → Option TsScanner) (s : TsScanner) (rest : List ℕ)
    (off : ℕ) (found : Option ℕ)
    → Returns n next
    → length rest ≤ n
    → Held s
    → Done (after_hunt next s rest off found)
unfolding after_hunt resynced
after_hunt-Done n next s rest off none r size h = (s, refl, h)
after_hunt-Done n next s rest off (some j) r size h =
    one_packet-Done n next (resynced s j) (drop j rest) (off + j) r
      (omega (arith, length-drop j rest))
      (record { pat_held = h.pat_held; pmt_held = h.pmt_held; partial_held = h.partial_held })

choose : (b : Bool) (x y : Option TsScanner) → Done x → Done y → Done (if b then x else y)
choose true x y p q = p
choose false x y p q = q

feed_loop-Returns : (fuel : ℕ) → Returns fuel (feed_loop fuel)
unfolding feed_loop feed_round
feed_loop-Returns zero s rest off size h = absurd (omega arith)
feed_loop-Returns (suc fuel) s rest off size h =
    choose (length rest == 0) _ _ (s, refl, h)
      (choose s.synced _ _
        (one_packet-Done fuel (feed_loop fuel) s rest off (feed_loop-Returns fuel) (omega arith) h)
        (after_hunt-Done fuel (feed_loop fuel) s rest off (hunt rest) (feed_loop-Returns fuel)
          (omega arith) h))

-- On any chunk of bytes, however it cuts the packets, the scanner returns: its loops end, no read
-- leaves a packet or a section, and the sections and the part of a packet that it keeps for later
-- fit their arrays.
pub feed_total :
    (s : TsScanner) (buf : List ℕ) (base : ℕ)
    → Held s
    → (s' : TsScanner) × (feed s buf base ≡ some s') × Held s'
unfolding feed after_partial
feed_total s buf base h =
    let stats = s.stats in
    let s0 : TsScanner = record s { stats = record stats { bytes = stats.bytes + length buf } } in
    let h0 : Held s0 = record {
      pat_held = h.pat_held;
      pmt_held = h.pmt_held;
      partial_held = h.partial_held;
    } in
    let taken = min (length buf) (ts_packet_size - length s.partial) in
    let whole = s.partial ++ take taken buf in
    elim (Bool-cases (length s.partial == 0)) [
      | inl e ↦ rw e (feed_loop-Returns (suc (length buf)) s0 buf base (omega arith) h0)
      | inr e ↦ elim (Bool-cases (ltb (length whole) ts_packet_size)) [
        | inl short ↦
            rw (e, short)
              (
                record s0 { partial = whole },
                refl,
                record { pat_held = h.pat_held; pmt_held = h.pmt_held; partial_held = omega tests },
              )
        | inr long ↦
            let sp : TsScanner = record s0 { partial = whole } in
            let kept : Keeps sp sp = record {
              pat_fits = h.pat_held;
              pmt_fits = h.pmt_held;
              same_partial = refl;
            } in
            let (s1, runs, k) =
              packet-Steps sp sp whole s.partial_off
                (omega (tests, length-append s.partial (take taken buf), length-take taken buf))
                kept in
            rw (e, long, runs)
              (feed_loop-Returns (suc (length (drop taken buf))) (record s1 { partial = [] })
                (drop taken buf) (base + taken) (omega arith)
                (record {
                  pat_held = k.pat_fits;
                  pmt_held = k.pmt_fits;
                  partial_held = omega arith;
                }))
      ]
    ]
