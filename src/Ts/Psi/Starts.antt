-- ===== src/Ts/Psi/Starts.antt =====
-- What PSIAssembler::feed returns, and what it does where a unit starts.
use support_proxy.Base.{
  ℕ, ◌+◌, ◌*◌, ◌<◌, ◌≡◌, refl, subst, Bool, true, false, ◌||◌, List, [], ◌∷◌, Option, none, some,
  ◌>>=◌, arith, ltb, ◌==◌, if◌then◌else◌, length, take, drop, get_elem?, bit_and,
}
use support_proxy.Ts.{PsiAssembler, empty_assembler, ts_max_section}
use support_proxy.Ts.Crc.{ts_crc32}
use support_proxy.Ts.Psi.{
  Fed, waits, finish, with_length, filled, read_length, append_payload, after_pointer, psi_feed,
}

-- At a unit start the bytes that complete the section before are not used: whatever was
-- assembled, the outcome is that of an assembler which holds nothing.
pub psi_feed_restarts :
    (a : PsiAssembler) (payload : List ℕ)
    → 0 < length payload
    → psi_feed a payload true ≡ psi_feed empty_assembler payload true
unfolding psi_feed
psi_feed_restarts a [] h = absurd (omega arith)
psi_feed_restarts a (ptr ∷ rest) h = ground arith

abbrev Good : Fed → Type 0
Good fed = (sec : List ℕ) → fed.section ≡ some sec → ts_crc32 sec ≡ 0

Checked : Option Fed → Type 0
Checked none = Unit {0}
Checked (some fed) = Good fed

either_Good : (b : Bool) (x y : Fed) → (b ≡ true → Good x) → Good y → Good (if b then x else y)
either_Good true x y g h = g refl
either_Good false x y g h = h

either_Checked :
    (b : Bool) (x y : Option Fed) → Checked x → Checked y → Checked (if b then x else y)
either_Checked true x y g h = g
either_Checked false x y g h = h

bound_Checked :
    (o : Option ℕ) (next : ℕ → Option Fed) → ((n : ℕ) → Checked (next n)) → Checked (o >>= next)
unfolding Checked
bound_Checked none next g = tt
bound_Checked (some n) next g = g n

waits-Good : (a : PsiAssembler) → Good (waits a)
waits-Good a sec e = absurd (ground (arith, e))

same_sum :
    (x y : List ℕ)
    → Path (Option (List ℕ)) (some x) (some y)
    → ts_crc32 x == 0 ≡ true
    → ts_crc32 y ≡ 0
same_sum x y e z = let q : x ≡ y = cc e in subst (λ l. ts_crc32 l ≡ 0) q (ground (arith, z))

finish-Good : (a : PsiAssembler) → Good (finish a)
unfolding finish
finish-Good a =
    either_Good (ltb (length a.buf) a.want) _ _ (λ t. waits-Good a)
      (either_Good (ts_crc32 (take a.want a.buf) == 0) _ _
        (λ z sec e. same_sum (take a.want a.buf) sec e z) (λ sec e. absurd (ground (arith, e))))

with_length-Good : (a : PsiAssembler) (b1 b2 : ℕ) → Good (with_length a b1 b2)
unfolding with_length
with_length-Good a b1 b2 =
    let want = bit_and b1 0x0F * 256 + b2 + 3 in
    either_Good (ltb ts_max_section want || ltb want 4) _ _ (λ t. waits-Good empty_assembler)
      (finish-Good (record a { want = want }))

read_length-Checked : (a : PsiAssembler) → Checked (read_length a)
unfolding read_length Checked
read_length-Checked a = either_Checked (ltb (length a.buf) 3) _ _ (waits-Good a) (
    bound_Checked (get_elem? a.buf 1) _
      (λ b1. bound_Checked (get_elem? a.buf 2) _ (λ b2. with_length-Good a b1 b2)))

append_payload-Checked : (a : PsiAssembler) (payload : List ℕ) → Checked (append_payload a payload)
unfolding append_payload Checked
append_payload-Checked a payload = either_Checked (length payload == 0) _ _ (waits-Good a) (
    either_Checked (a.want == 0) _ _ (read_length-Checked (filled a payload))
      (finish-Good (filled a payload)))

after_pointer-Checked : (payload : List ℕ) (ptr : ℕ) → Checked (after_pointer payload ptr)
unfolding after_pointer Checked
after_pointer-Checked payload ptr =
    either_Checked (ltb (length payload) (ptr + 1)) _ _ (waits-Good empty_assembler) (
      append_payload-Checked (record { buf = []; want = 0; active = true })
        (drop (1 + ptr) payload))

psi_feed-Checked :
    (a : PsiAssembler) (payload : List ℕ) (pusi : Bool) → Checked (psi_feed a payload pusi)
unfolding psi_feed Checked
psi_feed-Checked a payload pusi = either_Checked (length payload == 0) _ _ (waits-Good a) (
    either_Checked pusi _ _
      (bound_Checked (get_elem? payload 0) _ (λ ptr. after_pointer-Checked payload ptr))
      (either_Checked a.active _ _ (append_payload-Checked a payload) (waits-Good a)))

-- A section that is handed on to the table parsers passes the checksum.
pub psi_feed_checked :
    (a : PsiAssembler) (payload : List ℕ) (pusi : Bool) (fed : Fed) (sec : List ℕ)
    → psi_feed a payload pusi ≡ some fed
    → fed.section ≡ some sec
    → ts_crc32 sec ≡ 0
unfolding Checked
psi_feed_checked a payload pusi fed sec runs e =
    subst Checked runs (psi_feed-Checked a payload pusi) sec e
