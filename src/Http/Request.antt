-- ===== src/Http/Request.antt =====
-- HttpRequest.
pub mod Chunks
use support_proxy.Base.{
  ℕ, ◌+◌, ◌-◌, Bool, true, false, not, ◌&&◌, ◌||◌, List, [], ◌∷◌, ◌++◌, Option, none, some, ltb,
  leb, ◌==◌, is_none, if◌then◌else◌, length, take, drop, find, starts_with, bytes_eq, codes,
}
use support_proxy.Http.{cut, pieces}

abbrev pub http_max_request : ℕ
http_max_request = 8192

pub record HttpRequest : Type 0 where
  pub buf : List ℕ
  pub leftover : List ℕ
  pub headers : List ℕ
  pub method : List ℕ
  pub target : List ℕ
  pub path : List ℕ
  pub query : List ℕ

-- What feed returns: 0, 1 or -1.
pub data Fed : Type 0 where
  more complete refused : Fed

-- if (!line.empty() && line.back() == '\r') line.pop_back()
unfoldable pub chomp : List ℕ → List ℕ
chomp [] = []
chomp (c ∷ []) = if c == 13 then [] else c ∷ []
chomp (c ∷ d ∷ s) = c ∷ chomp (d ∷ s)

abbrev pub crlf_crlf : List ℕ
crlf_crlf = 13 ∷ 10 ∷ 13 ∷ 10 ∷ []

abbrev pub lf_lf : List ℕ
lf_lf = 10 ∷ 10 ∷ []

-- The path and the query of the target.
unfoldable pub with_target : HttpRequest → List ℕ → HttpRequest
with_target r target = elim (cut 63 target) [
  | none ↦ record r { target = target; path = target; query = [] }
  | some p ↦ record r { target = target; path = p.0; query = p.1 }
]

abbrev pub is_empty : List ℕ → Bool
is_empty [] = true
is_empty (c ∷ s) = false

-- The request line.
unfoldable pub parse_line : HttpRequest → List ℕ → Bool × HttpRequest
parse_line r line = elim (cut 32 line) [
  | none ↦ (false, r)
  | some p ↦ elim (cut 32 p.1) [
    | none ↦ (false, r)
    | some q ↦
        let r' = with_target (record r { method = p.0 }) q.0 in
        (not (is_empty r'.method) && not (is_empty r'.path), r')
  ]
]

-- The head is the first `hdr_end` bytes, and the separator has `sep` of them.
unfoldable pub parse_head : HttpRequest → ℕ → ℕ → Bool × HttpRequest
parse_head r hdr_end sep =
    let r' = record r { leftover = drop (hdr_end + sep) r.buf } in
    elim (cut 10 (take hdr_end r.buf)) [
      | none ↦ (false, r')
      | some p ↦ parse_line (record r' { headers = p.1 }) (chomp p.0)
    ]

unfoldable pub parse : HttpRequest → Bool × HttpRequest
parse r = elim (find crlf_crlf r.buf) [
  | some hdr_end ↦ parse_head r hdr_end 4
  | none ↦ elim (find lf_lf r.buf) [ some hdr_end ↦ parse_head r hdr_end 2 | none ↦ (false, r) ]
]

unfoldable pub has_end : List ℕ → Bool
has_end buf = not (is_none (find crlf_crlf buf)) || not (is_none (find lf_lf buf))

-- The answer, where `next` has the bytes of the call and `large` tells that they are too many.
unfoldable pub settled : HttpRequest → HttpRequest → Bool → Fed × HttpRequest
settled r next large =
    let p = parse next in
    if large
    then (refused, r)
    else if not (has_end next.buf)
    then (more, next)
    else (if p.0 then complete else refused, p.1)

unfoldable pub feed : HttpRequest → List ℕ → Fed × HttpRequest
feed r bytes =
    settled r (record r { buf = r.buf ++ bytes })
      (ltb http_max_request (length r.buf + length bytes))

-- tolower in the C locale.
unfoldable pub lower : List ℕ → List ℕ
lower [] = []
lower (c ∷ s) = (if leb 65 c && leb c 90 then c + 32 else c) ∷ lower s

abbrev pub is_blank : ℕ → Bool
is_blank c = c == 32 || c == 9

-- From find_first_not_of on; a text of blanks only gives the empty one.
unfoldable pub trim_left : List ℕ → List ℕ
trim_left [] = []
trim_left (c ∷ s) = let rest = trim_left s in if is_blank c then rest else c ∷ s

-- Up to find_last_not_of.
unfoldable pub trim_right : List ℕ → List ℕ
trim_right [] = []
trim_right (c ∷ s) = let rest = trim_right s in if is_empty rest && is_blank c then [] else c ∷ rest

-- The loop over the lines; an empty last line has neither a name nor a colon.
unfoldable pub header_in : List ℕ → List (List ℕ) → List ℕ
header_in want [] = []
header_in want (l ∷ ls) =
    let rest = header_in want ls in
    let line = chomp l in
    if starts_with want (lower line) then trim_right (trim_left (drop (length want) line)) else rest

unfoldable pub header : HttpRequest → List ℕ → List ℕ
header r name = header_in (lower name ++ codes ":") (pieces 10 r.headers)

-- A field without its blanks at the end, unless it has nothing else.
unfoldable pub field_name : List ℕ → List ℕ
field_name f = if is_empty (trim_right f) then f else trim_right f

unfoldable pub has_field : List ℕ → List ℕ → Bool
has_field want line = elim (cut 58 line) [
  | none ↦ false
  | some p ↦ bytes_eq (lower (field_name p.0)) want
]

unfoldable pub count_in : List ℕ → List (List ℕ) → ℕ
count_in want [] = 0
count_in want (l ∷ ls) =
    let rest = count_in want ls in if has_field want (chomp l) then rest + 1 else rest

unfoldable pub header_count : HttpRequest → List ℕ → ℕ
header_count r name = count_in (lower name) (pieces 10 r.headers)

-- `base64` is what BIO_read gives of its filter; `none` where it gives nothing.
unfoldable pub http_basic_password : (List ℕ → Option (List ℕ)) → List ℕ → List ℕ
http_basic_password base64 authorization =
    let prefix = codes "Basic " in
    if leb (length authorization) (length prefix)
      || not (starts_with (lower prefix) (lower authorization))
    then []
    else elim (base64 (drop (length prefix) authorization)) [
      | none ↦ []
      | some out ↦ elim (cut 58 out) [ none ↦ [] | some p ↦ p.1 ]
    ]
