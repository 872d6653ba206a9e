-- ===== src/Ts/Psi.antt =====
-- PSIAssembler::feed. A read is `none` out of bounds.
pub mod Starts
use support_proxy.Base.{
  ℕ, ◌+◌, ◌-◌, ◌*◌, Bool, true, false, not, ◌||◌, List, [], ◌∷◌, ◌++◌, Option, none, some, ◌>>=◌,
  ltb, ◌==◌, if◌then◌else◌, length, take, drop, get_elem?, bit_and, min,
}
use support_proxy.Ts.{PsiAssembler, empty_assembler, ts_max_section}
use support_proxy.Ts.Crc.{ts_crc32}

-- The state, the section that is returned, and how much crc_errors grows.
pub record Fed : Type 0 where
  pub asm : PsiAssembler
  pub section : Option (List ℕ)
  pub errors : ℕ

abbrev pub waits : PsiAssembler → Fed
waits a = record { asm = a; section = none; errors = 0 }

-- From the test of len_ against want_ on.
unfoldable pub finish : PsiAssembler → Fed
finish a =
    let sec = take a.want a.buf in
    if ltb (length a.buf) a.want
    then waits a
    else if ts_crc32 sec == 0
    then record { asm = empty_assembler; section = some sec; errors = 0 }
    else record { asm = empty_assembler; section = none; errors = 1 }

-- want_ from the two bytes of the length.
unfoldable pub with_length : PsiAssembler → ℕ → ℕ → Fed
with_length a b1 b2 =
    let want = bit_and b1 0x0F * 256 + b2 + 3 in
    if ltb ts_max_section want || ltb want 4
    then waits empty_assembler
    else finish (record a { want = want })

unfoldable pub filled : PsiAssembler → List ℕ → PsiAssembler
filled a payload = record a { buf = a.buf ++ take (ts_max_section - length a.buf) payload }

unfoldable pub read_length : PsiAssembler → Option Fed
read_length a =
    if ltb (length a.buf) 3
    then some (waits a)
    else do b1 ← get_elem? a.buf 1; b2 ← get_elem? a.buf 2; some (with_length a b1 b2)

unfoldable pub append_payload : PsiAssembler → List ℕ → Option Fed
append_payload a payload =
    let a' = filled a payload in
    if length payload == 0
    then some (waits a)
    else if a.want == 0
    then read_length a'
    else some (finish a')

unfoldable pub after_pointer : List ℕ → ℕ → Option Fed
after_pointer payload ptr =
    if ltb (length payload) (ptr + 1)
    then some (waits empty_assembler)
    else append_payload (record { buf = []; want = 0; active = true }) (drop (1 + ptr) payload)

unfoldable pub psi_feed : PsiAssembler → List ℕ → Bool → Option Fed
psi_feed a payload pusi =
    if length payload == 0
    then some (waits a)
    else if pusi
    then (do ptr ← get_elem? payload 0; after_pointer payload ptr)
    else if a.active
    then append_payload a payload
    else some (waits a)
