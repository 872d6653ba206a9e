-- ===== src/Rtmp/Amf.antt =====
-- AMF0. `p` is the message; a result is `none` where a read leaves it.
pub mod Total
use support_proxy.Base.{
  ℕ, zero, suc, ◌+◌, ◌*◌, ◌/◌, ◌%◌, ◌^◌, Bool, true, false, not, ◌&&◌, ◌||◌, List, [], ◌∷◌, ◌++◌,
  Option, none, some, ◌>>=◌, ltb, leb, ◌==◌, if◌then◌else◌, length, take, drop, get_elem?, bytes_eq,
  codes,
}
use support_proxy.Http.{cut, pieces}
use support_proxy.Http.Query.{http_url_decode}

-- `n` bytes at `i` behind `acc`, big-endian.
unfoldable pub be : List ℕ → ℕ → ℕ → ℕ → Option ℕ
be p zero i acc = some acc
be p (suc n) i acc = do b ← get_elem? p i; be p n (i + 1) (acc * 256 + b)

unfoldable pub be_bytes : ℕ → ℕ → List ℕ
be_bytes zero v = []
be_bytes (suc n) v = (v / 256 ^ n % 256) ∷ be_bytes n v

unfoldable pub amf_num : ℕ → List ℕ
amf_num d = 0 ∷ be_bytes 8 d

unfoldable pub amf_key : List ℕ → List ℕ
amf_key s = be_bytes 2 (length s) ++ s

unfoldable pub amf_str : List ℕ → List ℕ
amf_str s = 2 ∷ amf_key s

abbrev pub amf_null : List ℕ
amf_null = 5 ∷ []

abbrev pub amf_obj_end : List ℕ
amf_obj_end = 0 ∷ 0 ∷ 9 ∷ []

-- What a skip answers, and where it stops.
abbrev pub Skip : Type 0
Skip = Bool × ℕ

unfoldable pub object_end : List ℕ → ℕ → Option Skip
object_end p i =
    if leb (length p) i
    then some (false, i)
    else (do m ← get_elem? p i; if m == 9 then some (true, i + 1) else some (false, i))

-- Goes on behind a value that was skipped.
abbrev pub then_from : Skip → (ℕ → Option Skip) → Option Skip
then_from r next = elim (r.0) [ true ↦ next r.1 | false ↦ some r ]

unfoldable pub amf_skip_object_body : (ℕ → Option Skip) → ℕ → List ℕ → ℕ → Option Skip
amf_skip_object_body skip zero p i = none
amf_skip_object_body skip (suc fuel) p i = if ltb (length p) (i + 2) then some (false, i) else (do
  klen ← be p 2 i 0
  if klen == 0
      then object_end p (i + 2)
      else if ltb (length p) (i + 2 + klen)
      then some (false, i + 2)
      else (do r ← skip (i + 2 + klen); then_from r (λ j. amf_skip_object_body skip fuel p j)))

unfoldable pub skip_elements : (ℕ → Option Skip) → ℕ → ℕ → Option Skip
skip_elements skip zero i = some (true, i)
skip_elements skip (suc k) i = do r ← skip i; then_from r (λ j. skip_elements skip k j)

unfoldable pub skip_strict_array : (ℕ → Option Skip) → List ℕ → ℕ → Option Skip
skip_strict_array skip p i = if ltb (length p) (i + 4) then some (false, i) else (do
  cnt ← be p 4 i 0
  if ltb (length p) cnt then some (false, i + 4) else skip_elements skip cnt (i + 4))

-- A string whose length has `w` bytes.
unfoldable pub skip_text : List ℕ → ℕ → ℕ → Option Skip
skip_text p w i =
    if ltb (length p) (i + w)
    then some (false, i)
    else (do len ← be p w i 0; some (leb (i + w + len) (length p), i + w + len))

abbrev pub skip_to : List ℕ → ℕ → Option Skip
skip_to p i = some (leb i (length p), i)

-- The value behind the marker `m`.
unfoldable pub skip_value : (ℕ → Option Skip) → List ℕ → ℕ → ℕ → Option Skip
skip_value skip p m i =
    if m == 0
    then skip_to p (i + 8)
    else if m == 1
    then skip_to p (i + 1)
    else if m == 2
    then skip_text p 2 i
    else if m == 12
    then skip_text p 4 i
    else if m == 5 || m == 6
    then some (true, i)
    else if m == 7
    then skip_to p (i + 2)
    else if m == 11
    then skip_to p (i + 10)
    else if m == 3
    then amf_skip_object_body skip (length p + 1) p i
    else if m == 8
    then (if ltb (length p) (i + 4)
        then some (false, i + 4)
        else amf_skip_object_body skip (length p + 1) p (i + 4))
    else if m == 10
    then skip_strict_array skip p i
    else some (m == 9, i)

-- `levels` is 9 less the depth.
unfoldable pub amf_skip : ℕ → List ℕ → ℕ → Option Skip
amf_skip zero p i = some (false, i)
amf_skip (suc levels) p i =
    if leb (length p) i
    then some (false, i)
    else (do m ← get_elem? p i; skip_value (λ j. amf_skip levels p j) p m (i + 1))

abbrev pub amf_levels : ℕ
amf_levels = 9

-- The text, and the index behind it.
unfoldable pub amf_read_string : List ℕ → ℕ → Option (Option (List ℕ × ℕ))
amf_read_string p i = if leb (length p) i then some none else (do
  m ← get_elem? p i
  if not (m == 2) || ltb (length p) (i + 3) then some none else (do
    len ← be p 2 (i + 1) 0
    if ltb (length p) (i + 3 + len)
        then some none
        else some (some (take len (drop (i + 3) p), i + 3 + len))))

-- The number, or 0 where there is none, and the index.
unfoldable pub amf_read_number : List ℕ → ℕ → Option (ℕ × ℕ)
amf_read_number p i = if leb (length p) i then some (0, i) else (do
  m ← get_elem? p i
  if not (m == 0) || ltb (length p) (i + 9)
      then some (0, i)
      else (do d ← be p 8 (i + 1) 0; some (d, i + 9)))

-- The two members that are looked for.
pub record Members : Type 0 where
  pub v1 : List ℕ
  pub v2 : List ℕ
  pub have1 : Bool
  pub have2 : Bool

-- The flags behind a key.
unfoldable pub noted : Members → Bool → Bool → Members
noted ms is1 is2 = record ms { have1 = ms.have1 || is1; have2 = ms.have2 || is2 }

unfoldable pub with_string : Members → Bool → Bool → List ℕ → Members
with_string ms is1 is2 sv =
    if is1 then record ms { v1 = sv } else if is2 then record ms { v2 = sv } else ms

-- The value at `i`, of a key that was noted; then `next`.
unfoldable pub member_value :
    List ℕ
    → ℕ
    → Members
    → Bool
    → Bool
    → Option (List ℕ × ℕ)
    → (ℕ → Members → Option (Bool × Members))
    → Option (Bool × Members)
member_value p i ms is1 is2 (some t) next = next t.1 (with_string ms is1 is2 t.0)
member_value p i ms is1 is2 none next = do
  r ← amf_skip amf_levels p i
  elim (r.0) [ true ↦ next r.1 ms | false ↦ some (false, ms) ]

unfoldable pub members : ℕ → List ℕ → List ℕ → List ℕ → ℕ → Members → Option (Bool × Members)
members zero p k1 k2 i ms = none
members (suc fuel) p k1 k2 i ms = if ltb (length p) (i + 2) then some (false, ms) else (do
  klen ← be p 2 i 0
  let j = i + 2 + klen
  let key = take klen (drop (i + 2) p)
  let is1 = bytes_eq key k1
  let is2 = bytes_eq key k2
  if klen == 0
      then (do r ← object_end p (i + 2); some (r.0, ms))
      else if ltb (length p) j || (is1 && ms.have1 || is2 && ms.have2)
      then some (false, ms)
      else (do
        t ← amf_read_string p j
        member_value p j (noted ms is1 is2) is1 is2 t (λ k ms'. members fuel p k1 k2 k ms')))

unfoldable pub amf_object_strings : List ℕ → ℕ → List ℕ → List ℕ → List ℕ → Option (Bool × Members)
amf_object_strings p i k1 v1 k2 =
    let ms : Members = record { v1 = v1; v2 = []; have1 = false; have2 = false } in
    if leb (length p) i then some (false, ms) else (do
      m ← get_elem? p i
      if m == 8
          then members (length p + 1) p k1 k2 (i + 5) ms
          else if m == 3
          then members (length p + 1) p k1 k2 (i + 1) ms
          else (do r ← amf_skip amf_levels p i; some (r.0, ms)))

-- name.substr(0, q) and name.substr(q + 1), at the first `?` or `&`.
unfoldable pub cut_query : List ℕ → Option (List ℕ × List ℕ)
cut_query [] = none
cut_query (c ∷ s) =
    let rest = cut_query s in
    if c == 63 || c == 38
    then some ([], s)
    else elim rest [ none ↦ none | some p ↦ some (c ∷ p.0, p.1) ]

unfoldable pub credential : List ℕ → Option (List ℕ)
credential kv = elim (cut 61 kv) [
  | none ↦ none
  | some p ↦
      if bytes_eq p.0 (codes "pw")
        || (bytes_eq p.0 (codes "password") || bytes_eq p.0 (codes "key"))
      then some (http_url_decode p.1)
      else none
]

unfoldable pub first_credential : List (List ℕ) → Option (List ℕ)
first_credential [] = none
first_credential (kv ∷ kvs) =
    let rest = first_credential kvs in elim (credential kv) [ none ↦ rest | some pw ↦ some pw ]

-- The bare name, and the credential if there is one.
unfoldable pub split_credential : List ℕ → List ℕ × Option (List ℕ)
split_credential name = elim (cut_query name) [
  | none ↦ (name, none)
  | some p ↦ (p.0, first_credential (pieces 38 p.1))
]
