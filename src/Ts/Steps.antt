-- ===== src/Ts/Steps.antt =====
-- Sections and tables: they are read within bounds, and what is assembled fits.
use support_proxy.Base.{
  ℕ, zero, suc, ◌+◌, ◌-◌, ◌*◌, ◌/◌, ◌≤◌, ◌<◌, ◌≡◌, refl, Bool, true, false, not, ◌&&◌, List, [],
  ◌∷◌, Option, none, some, arith, tests, inl, inr, ltb, ◌==◌, if◌then◌else◌, length, take, drop,
  Bool-cases, get_elem?-some, length-append, length-take, length-drop, bit_and, has_bits,
}
use support_proxy.Ts.{TsScanner, PsiAssembler, empty_assembler, ts_max_section}
use support_proxy.Ts.Psi.{
  Fed, waits, finish, with_length, filled, read_length, append_payload, after_pointer, psi_feed,
}
use support_proxy.Ts.Tables.{
  parse_pat, pat_body, with_program, parse_pmt, pmt_body, pmt_changed, streams, with_streams,
}

-- What is assembled fits the array.
abbrev pub Fits : PsiAssembler → Type 0
Fits a = length a.buf ≤ 1027

abbrev FedOk : Option Fed → Type 0
FedOk o = (fed : Fed) × (o ≡ some fed) × Fits fed.asm

finish-Fits : (a : PsiAssembler) → Fits a → Fits (finish a).asm
unfolding finish
finish-Fits a h = ground arith

with_length-Fits : (a : PsiAssembler) (b1 b2 : ℕ) → Fits a → Fits (with_length a b1 b2).asm
unfolding with_length
with_length-Fits a b1 b2 h =
    let want = bit_and b1 0x0F * 256 + b2 + 3 in
    ground (arith, finish-Fits (record a { want = want }) h)

filled-Fits : (a : PsiAssembler) (payload : List ℕ) → Fits a → Fits (filled a payload)
unfolding filled
filled-Fits a payload h = omega (
  arith,
  length-append a.buf (take (ts_max_section - length a.buf) payload),
  length-take (ts_max_section - length a.buf) payload,
)

read_length-Fits : (a : PsiAssembler) → Fits a → FedOk (read_length a)
unfolding read_length
read_length-Fits a h = elim (Bool-cases (ltb (length a.buf) 3)) [
  | inl e ↦ rw e (waits a, refl, h)
  | inr e ↦
      let (b1, e1) = get_elem?-some a.buf 1 (omega tests) in
      let (b2, e2) = get_elem?-some a.buf 2 (omega tests) in
      rw (e, e1, e2) (with_length a b1 b2, refl, with_length-Fits a b1 b2 h)
]

append_payload-Fits :
    (a : PsiAssembler) (payload : List ℕ) → Fits a → FedOk (append_payload a payload)
unfolding append_payload
append_payload-Fits a payload h = elim (Bool-cases (length payload == 0)) [
  | inl e ↦ rw e (waits a, refl, h)
  | inr e ↦ elim (Bool-cases (a.want == 0)) [
    | inl e' ↦ rw (e, e') (read_length-Fits (filled a payload) (filled-Fits a payload h))
    | inr e' ↦
        rw (e, e')
          (
            finish (filled a payload),
            refl,
            finish-Fits (filled a payload) (filled-Fits a payload h),
          )
  ]
]

after_pointer-Fits : (payload : List ℕ) (ptr : ℕ) → FedOk (after_pointer payload ptr)
unfolding after_pointer
after_pointer-Fits payload ptr = elim (Bool-cases (ltb (length payload) (ptr + 1))) [
  | inl e ↦ rw e (waits empty_assembler, refl, omega arith)
  | inr e ↦ rw e (
      append_payload-Fits (record { buf = []; want = 0; active = true }) (drop (1 + ptr) payload)
        (omega arith))
]

continues :
    (b : Bool) (a : PsiAssembler) (payload : List ℕ)
    → Fits a
    → FedOk (if b then append_payload a payload else some (waits a))
continues true a payload h = append_payload-Fits a payload h
continues false a payload h = (waits a, refl, h)

-- Assembling a section returns on any payload, and what is assembled fits the array.
pub psi_feed-Fits :
    (a : PsiAssembler) (payload : List ℕ) (pusi : Bool)
    → Fits a
    → (fed : Fed) × (psi_feed a payload pusi ≡ some fed) × Fits fed.asm
unfolding psi_feed
psi_feed-Fits a payload pusi h = elim (Bool-cases (length payload == 0)) [
  | inl e ↦ rw e (waits a, refl, h)
  | inr e ↦
      let (ptr, e') = get_elem?-some payload 0 (ground (arith, e)) in
      elim (Bool-cases pusi) [
        | inl p ↦ rw (e, p, e') (after_pointer-Fits payload ptr)
        | inr p ↦ rw (e, p) (continues a.active a payload h)
      ]
]

-- The assemblers fit, and the part of a packet that is kept is the same.
pub record Keeps (s s' : TsScanner) : Type 0 where
  pub pat_fits : Fits s'.pat_asm
  pub pmt_fits : Fits s'.pmt_asm
  pub same_partial : s'.partial ≡ s.partial

-- A step that returns.
abbrev pub Steps : TsScanner → Option TsScanner → Type 0
Steps s o = (s' : TsScanner) × (o ≡ some s') × Keeps s s'

pub one_of : (b : Bool) (t x y : TsScanner) → Keeps t x → Keeps t y → Keeps t (if b then x else y)
one_of true t x y k l = k
one_of false t x y k l = l

pub step_of :
    (b : Bool) (t : TsScanner) (x y : Option TsScanner)
    → Steps t x
    → (b ≡ false → Steps t y)
    → Steps t (if b then x else y)
step_of true t x y k l = k
step_of false t x y k l = l refl

pub stays : (t s : TsScanner) → Keeps t s → Steps t (some s)
stays t s k = (s, refl, k)

with_program-Keeps : (s t : TsScanner) (p : Option ℕ) → Keeps t s → Keeps t (with_program s p)
unfolding with_program
with_program-Keeps s t none k = k
with_program-Keeps s t (some pid) k =
    one_of (s.pmt_pid == pid) t _ _
      (record { pat_fits = k.pat_fits; pmt_fits = k.pmt_fits; same_partial = k.same_partial })
      (record { pat_fits = k.pat_fits; pmt_fits = omega arith; same_partial = k.same_partial })

pat_body-Keeps :
    (s t : TsScanner) (sec : List ℕ) (off b0 b5 : ℕ)
    → Keeps t s
    → Keeps t (pat_body s sec off b0 b5)
unfolding pat_body
pat_body-Keeps s t sec off b0 b5 k = one_of (not (b0 == 0x00)) t _ _ k (
    one_of (not (has_bits b5 1)) t _ _ k (
      one_of (s.have_pat && bit_and (b5 / 2) 0x1F == s.pat_version) t _ _
        (record { pat_fits = k.pat_fits; pmt_fits = k.pmt_fits; same_partial = k.same_partial })
        (with_program-Keeps _ t _ (record {
          pat_fits = k.pat_fits;
          pmt_fits = k.pmt_fits;
          same_partial = k.same_partial;
        }))))

pub parse_pat-Steps :
    (s t : TsScanner) (sec : List ℕ) (off : ℕ) → Keeps t s → Steps t (parse_pat s sec off)
unfolding parse_pat
parse_pat-Steps s t sec off k = step_of (ltb (length sec) 12) t _ _ (stays t s k) (λ e.
    let (b0, e0) = get_elem?-some sec 0 (omega tests) in
    let (b5, e5) = get_elem?-some sec 5 (omega tests) in
    rw (e0, e5) (stays t _ (pat_body-Keeps s t sec off b0 b5 k)))

streams_total :
    (fuel : ℕ) (rest : List ℕ) (found : ℕ × ℕ)
    → length rest < fuel
    → (r : ℕ × ℕ) × (streams fuel rest found ≡ some r)
unfolding streams
streams_total zero rest found h = absurd (omega arith)
streams_total (suc fuel) [] found h = (found, refl)
streams_total (suc fuel) (a ∷ []) found h = (found, refl)
streams_total (suc fuel) (a ∷ b ∷ []) found h = (found, refl)
streams_total (suc fuel) (a ∷ b ∷ c ∷ []) found h = (found, refl)
streams_total (suc fuel) (a ∷ b ∷ c ∷ d ∷ []) found h = (found, refl)
streams_total (suc fuel) (st ∷ p1 ∷ p2 ∷ e1 ∷ e2 ∷ rest) (vpid, vst) h =
    streams_total fuel (drop (bit_and e1 0x0F * 256 + e2) rest) _
      (omega (arith, length-drop (bit_and e1 0x0F * 256 + e2) rest))

with_streams-Keeps : (s t : TsScanner) (r : ℕ × ℕ) → Keeps t s → Keeps t (with_streams s r)
unfolding with_streams
with_streams-Keeps s t (vpid, vst) k =
    one_of (vpid == 0) t _ _ k
      (record { pat_fits = k.pat_fits; pmt_fits = k.pmt_fits; same_partial = k.same_partial })

pmt_changed-Steps :
    (s t : TsScanner) (sec : List ℕ) (b10 b11 : ℕ) → Keeps t s → Steps t (pmt_changed s sec b10 b11)
unfolding pmt_changed
pmt_changed-Steps s t sec b10 b11 k =
    let from = 12 + (bit_and b10 0x0F * 256 + b11) in
    let entries = drop from (take (length sec - 4) sec) in
    let (r, e) =
      streams_total (suc (length sec)) entries (0, 0)
        (omega (
          arith,
          length-drop from (take (length sec - 4) sec),
          length-take (length sec - 4) sec,
        )) in
    rw e (stays t _ (with_streams-Keeps s t r k))

pmt_body-Steps :
    (s t : TsScanner) (sec : List ℕ) (off b0 b5 : ℕ)
    → 12 ≤ length sec
    → Keeps t s
    → Steps t (pmt_body s sec off b0 b5)
unfolding pmt_body
pmt_body-Steps s t sec off b0 b5 long k = step_of (not (b0 == 0x02)) t _ _ (stays t s k) (λ e1.
    step_of (not (has_bits b5 1)) t _ _ (stays t s k) (λ e2.
      step_of (s.have_pmt && bit_and (b5 / 2) 0x1F == s.pmt_version) t _ _
        (stays t _
          (record { pat_fits = k.pat_fits; pmt_fits = k.pmt_fits; same_partial = k.same_partial }))
        (λ e3.
          let (b10, e10) = get_elem?-some sec 10 (omega arith) in
          let (b11, e11) = get_elem?-some sec 11 (omega arith) in
          rw (e10, e11)
            (pmt_changed-Steps _ t sec b10 b11 (record {
              pat_fits = k.pat_fits;
              pmt_fits = k.pmt_fits;
              same_partial = k.same_partial;
            })))))

pub parse_pmt-Steps :
    (s t : TsScanner) (sec : List ℕ) (off : ℕ) → Keeps t s → Steps t (parse_pmt s sec off)
unfolding parse_pmt
parse_pmt-Steps s t sec off k = step_of (ltb (length sec) 16) t _ _ (stays t s k) (λ e.
    let (b0, e0) = get_elem?-some sec 0 (omega tests) in
    let (b5, e5) = get_elem?-some sec 5 (omega tests) in
    rw (e0, e5) (pmt_body-Steps s t sec off b0 b5 (omega tests) k))
