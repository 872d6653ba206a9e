-- ===== src/Http/Query.antt =====
-- http_url_decode, http_query_value and http_redact_target.
pub mod Decode
pub mod Params
use support_proxy.Base.{
  ℕ, ◌+◌, ◌-◌, ◌*◌, Bool, true, false, not, ◌&&◌, ◌||◌, List, [], ◌∷◌, ◌++◌, Option, none, some,
  leb, ◌==◌, if◌then◌else◌, codes, bytes_eq,
}
use support_proxy.Http.{cut, pieces}

-- isxdigit
unfoldable pub isxdigit : ℕ → Bool
isxdigit c = (leb 48 c && leb c 57) || ((leb 65 c && leb c 70) || (leb 97 c && leb c 102))

-- strtol of one digit to the base 16.
unfoldable pub hex_value : ℕ → ℕ
hex_value c = if leb c 57 then c - 48 else if leb c 70 then c - 55 else c - 87

-- One byte that is not `%` with two digits behind it.
unfoldable pub plain : ℕ → ℕ
plain c = if c == 43 then 32 else c

unfoldable pub http_url_decode : List ℕ → List ℕ
http_url_decode [] = []
http_url_decode (c ∷ []) = plain c ∷ []
http_url_decode (c ∷ a ∷ []) = plain c ∷ http_url_decode (a ∷ [])
http_url_decode (c ∷ a ∷ b ∷ s) = elim (c == 37 && (isxdigit a && isxdigit b)) [
  | true ↦ (16 * hex_value a + hex_value b) ∷ http_url_decode s
  | false ↦ plain c ∷ http_url_decode (a ∷ b ∷ s)
]

-- The value in `kv`, if its key is `want`.
unfoldable pub match_key : List ℕ → List ℕ → Option (List ℕ)
match_key want kv = elim (cut 61 kv) [
  | none ↦ none
  | some p ↦ if bytes_eq p.0 want then some (http_url_decode p.1) else none
]

-- The loop over the parameters: the first value wins.
unfoldable pub first_value : List ℕ → List (List ℕ) → Option (List ℕ)
first_value want [] = none
first_value want (kv ∷ kvs) =
    let rest = first_value want kvs in elim (match_key want kv) [ none ↦ rest | some v ↦ some v ]

-- `none` where the function answers false; `value` is empty then.
unfoldable pub http_query_value : List ℕ → List ℕ → Option (List ℕ)
http_query_value target name = elim (cut 63 target) [
  | none ↦ none
  | some p ↦ first_value name (pieces 38 p.1)
]

-- secret_keys
unfoldable pub is_secret : List ℕ → Bool
is_secret k =
    bytes_eq k (codes "pw")
    || (bytes_eq k (codes "password") || (bytes_eq k (codes "t") || bytes_eq k (codes "key")))

unfoldable pub redact_kv : List ℕ → List ℕ
redact_kv kv = elim (cut 61 kv) [
  | none ↦ kv
  | some p ↦ p.0 ++ (61 ∷ (if is_secret p.0 then codes "<redacted>" else p.1))
]

unfoldable pub redact_all : Bool → List (List ℕ) → List ℕ
redact_all first [] = []
redact_all first (kv ∷ kvs) =
    (if first then [] else 38 ∷ []) ++ (redact_kv kv ++ redact_all false kvs)

unfoldable pub http_redact_target : List ℕ → List ℕ
http_redact_target target = elim (cut 63 target) [
  | none ↦ target
  | some p ↦ p.0 ++ (63 ∷ redact_all true (pieces 38 p.1))
]
