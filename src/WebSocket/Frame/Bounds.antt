-- ===== src/WebSocket/Frame/Bounds.antt =====
-- The bytes that a frame parse reads are there, and what it returns fits in them.
use support_proxy.Base.{
  ℕ, zero, suc, ◌+◌, ◌-◌, ◌*◌, ◌%◌, ◌≤◌, ◌≡◌, refl, subst, ap, Bool, not, ◌&&◌, ◌||◌, List, [], ◌∷◌,
  Option, none, some, inl, inr, arith, bit_and, bit_xor, ltb, length, take, drop, get_elem?-some,
  ltb→ge, length-take, length-drop, Bool-cases, has_bits, le→leb, tests, ◌>>=◌, ◌≢◌,
}
use support_proxy.WebSocket.{u64_mod}
use support_proxy.WebSocket.Frame.{
  Frame, Parsed, incomplete, refused, frame, be_length, payload_length, unmask, slice, check_frame,
  parse_frame,
}

-- A computation of the model that ends in a value.
abbrev pub Total : {A : Type 0} → Option A → Type 0
Total {A} o = (a : A) × (o ≡ some a)

be_length-Total : (k acc : ℕ) (f : List ℕ) → 10 ≤ length f → Total (be_length k acc f)
unfolding be_length
be_length-Total zero acc f h = (acc, refl)
be_length-Total (suc k) acc f h =
    let (b, e) = get_elem?-some f (2 + (7 - k)) (omega arith) in
    let (n, e') = be_length-Total k ((acc * 256) % u64_mod + b) f h in (n, rw e e')

Total-of : {A : Type 0} (o : Option A) → o ≢ none → Total o
Total-of none h = absurd (h refl)
Total-of (some a) h = (a, refl)

payload_length-Total : (f : List ℕ) (len7 : ℕ) → Total (payload_length f len7)
payload_length-Total f len7 = Total-of (payload_length f len7) (
    unfold payload_length in
    λ e. ground (arith, get_elem?-some f 2, get_elem?-some f 3, be_length-Total 8 0 f))

pub unmask_total :
    (mask : List ℕ) (i : ℕ) (bs : List ℕ)
    → length mask ≡ 4
    → (out : List ℕ) × (unmask mask i bs ≡ some out) × (length out ≡ length bs)
unfolding unmask
unmask_total mask i [] four = ([], refl, refl)
unmask_total mask i (b ∷ bs) four =
    let (m, e) = get_elem?-some mask (i % 4) (omega arith) in
    let (rest, e', size) = unmask_total mask (i + 1) bs four in
    (bit_xor b m ∷ rest, rw (e, e'), ap suc size)

slice_total :
    (f : List ℕ) (off n : ℕ)
    → off + n ≤ length f
    → (out : List ℕ) × (slice f off n ≡ some out) × (length out ≡ n)
unfolding slice
slice_total f off n h = (
  take n (drop off f),
  rw (le→leb (off + n) (length f) h),
  omega (arith, length-take n (drop off f), length-drop off f),
)

-- What a parse of `f` may return: a frame takes at least six bytes of `f`, and its payload is
-- within the limit and within them.
abbrev pub Fits : ℕ → List ℕ → Parsed → Type 0
Fits max_message f incomplete = Unit {0}
Fits max_message f refused = Unit {0}
Fits max_message f (frame fr need) =
    (need ≤ length f)
    × (6 ≤ need)
    × (length fr.payload + 6 ≤ need)
    × (length fr.payload ≤ max_message)

abbrev FitsTotal : ℕ → List ℕ → Option Parsed → Type 0
FitsTotal max_message f o = (r : Parsed) × (o ≡ some r) × Fits max_message f r

unmasked_Fits :
    (max_message : ℕ) (f : List ℕ) (fin : Bool) (opcode hdr n : ℕ)
    → hdr + 4 + n ≤ length f
    → 2 ≤ hdr
    → n ≤ max_message
    → FitsTotal max_message f (
        slice f hdr 4 >>= λ mask. slice f (hdr + 4) n >>= λ coded.
        unmask mask 0 coded >>= λ payload.
        some (frame (record { fin = fin; opcode = opcode; payload = payload }) (hdr + 4 + n)))
unmasked_Fits max_message f fin opcode hdr n room low small =
    let (mask, e, four) = slice_total f hdr 4 (omega arith) in
    let (coded, e', size) = slice_total f (hdr + 4) n (omega arith) in
    let (payload, e'', size') = unmask_total mask 0 coded four in
    (
      frame (record { fin = fin; opcode = opcode; payload = payload }) (hdr + 4 + n),
      rw (e, e', e''),
      (room, omega arith, omega arith, omega arith),
    )

check_frame_Fits :
    (max_message : ℕ) (f : List ℕ) (b0 b1 n hdr : ℕ)
    → 2 ≤ hdr
    → FitsTotal max_message f (check_frame max_message f b0 b1 (n, hdr))
unfolding check_frame
check_frame_Fits max_message f b0 b1 n hdr low = elim (Bool-cases (ltb max_message n)) [
  | inl e ↦ rw e (refused, refl, tt)
  | inr small ↦ rw small (elim (Bool-cases (not (has_bits b1 0x80))) [
    | inl e ↦ rw e (refused, refl, tt)
    | inr e ↦
        rw e
          (elim (Bool-cases
            (has_bits (bit_and b0 0x0F) 0x8 && (ltb 125 n || not (has_bits b0 0x80)))) [
              | inl e ↦ rw e (refused, refl, tt)
              | inr e ↦ rw e (elim (Bool-cases (ltb (length f) (hdr + 4 + n))) [
                | inl e ↦ rw e (incomplete, refl, tt)
                | inr room ↦ rw room (
                    unmasked_Fits max_message f _ _ hdr n (ltb→ge (length f) (hdr + 4 + n) room) low
                      (ltb→ge max_message n small))
              ])
            ])
  ])
]

header_size : (f : List ℕ) (len7 n hdr : ℕ) → payload_length f len7 ≡ some (some (n, hdr)) → 2 ≤ hdr
unfolding payload_length
header_size f len7 n hdr e =
    ground (arith, get_elem?-some f 2, get_elem?-some f 3, be_length-Total 8 0 f)

lengths_Fits :
    (max_message : ℕ) (f : List ℕ) (b0 b1 : ℕ) (lengths : Option (ℕ × ℕ))
    → payload_length f (bit_and b1 0x7F) ≡ some lengths
    → FitsTotal max_message f
        (elim lengths [ none ↦ some incomplete | some l ↦ check_frame max_message f b0 b1 l ])
lengths_Fits max_message f b0 b1 none e = (incomplete, refl, tt)
lengths_Fits max_message f b0 b1 (some (n, hdr)) e =
    check_frame_Fits max_message f b0 b1 n hdr (header_size f (bit_and b1 0x7F) n hdr e)

-- A parse reads no byte out of bounds, whatever the peer sent, and what it returns fits the buffer
-- and the limit.
pub parse_frame-Fits :
    (max_message : ℕ) (f : List ℕ)
    → (r : Parsed) × (parse_frame max_message f ≡ some r) × Fits max_message f r
unfolding parse_frame
parse_frame-Fits max_message f = elim (Bool-cases (ltb (length f) 2)) [
  | inl e ↦ rw e (incomplete, refl, tt)
  | inr two ↦
      let (b0, e0) = get_elem?-some f 0 (omega tests) in
      let (b1, e1) = get_elem?-some f 1 (omega tests) in
      let (lengths, e) = payload_length-Total f (bit_and b1 0x7F) in
      rw (two, e0, e1, e) (lengths_Fits max_message f b0 b1 lengths e)
]

-- A frame that a parse returned.
pub Fits-frame :
    (max_message : ℕ) (f : List ℕ) (fr : Frame) (need : ℕ)
    → parse_frame max_message f ≡ some (frame fr need)
    → Fits max_message f (frame fr need)
Fits-frame max_message f fr need e =
    let (r, e', fits) = parse_frame-Fits max_message f in
    let same : r ≡ frame fr need = cc (e', e) in subst (Fits max_message f) same fits
