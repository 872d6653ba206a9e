-- ===== src/Http/Query/Params.antt =====
-- A target as a path and a list of parameters.
use support_proxy.Base.{
  ℕ, ◌≡◌, refl, sym, ap, ◌∙◌, Bool, true, false, List, [], ◌∷◌, ◌++◌, Option, none, some, arith,
  inl, inr, ◌==◌, if◌then◌else◌, All, Bool-cases, bytes_eq, codes,
}
use support_proxy.Http.{cut, onto_head, pieces}
use support_proxy.Http.Query.{
  http_url_decode, match_key, first_value, http_query_value, is_secret, redact_kv, redact_all,
  http_redact_target,
}

-- A text without the byte.
abbrev pub Lacks : ℕ → List ℕ → Type 0
Lacks ch = All (λ c. (c == ch) ≡ false)

-- The texts with the byte between them.
abbrev pub joined : ℕ → List ℕ → List (List ℕ) → List ℕ
joined ch p [] = p
joined ch p (q ∷ ps) = p ++ (ch ∷ joined ch q ps)

pub cut_at : (ch : ℕ) (p s : List ℕ) → Lacks ch p → cut ch (p ++ (ch ∷ s)) ≡ some (p, s)
unfolding cut
cut_at ch [] s l = let e : (ch == ch) ≡ true = ground arith in rw e refl
cut_at ch (c ∷ p) s (h, l) = rw (h, cut, cut_at ch p s l) refl

pieces_one : (ch : ℕ) (p : List ℕ) → Lacks ch p → pieces ch p ≡ p ∷ []
unfolding pieces onto_head
pieces_one ch [] l = refl
pieces_one ch (c ∷ p) (h, l) = rw (h, pieces, pieces_one ch p l) refl

pieces_first : (ch : ℕ) (p s : List ℕ) → Lacks ch p → pieces ch (p ++ (ch ∷ s)) ≡ p ∷ pieces ch s
unfolding pieces onto_head
pieces_first ch [] s l = let e : (ch == ch) ≡ true = ground arith in rw e refl
pieces_first ch (c ∷ p) s (h, l) = rw (h, pieces, pieces_first ch p s l) refl

-- Texts that were joined come apart again.
pieces-joined :
    (ch : ℕ) (p : List ℕ) (ps : List (List ℕ))
    → Lacks ch p
    → All (Lacks ch) ps
    → pieces ch (joined ch p ps) ≡ p ∷ ps
pieces-joined ch p [] l ls = pieces_one ch p l
pieces-joined ch p (q ∷ ps) l (lq, ls) =
    pieces_first ch p (joined ch q ps) l ∙ ap (λ r. p ∷ r) (pieces-joined ch q ps lq ls)

-- A parameter with two values that may stand behind its key.
pub record Param : Type 0 where
  pub key : List ℕ
  pub value : List ℕ
  pub instead : List ℕ

abbrev pub with_value : Param → List ℕ
with_value p = p.key ++ (61 ∷ p.value)

abbrev pub with_instead : Param → List ℕ
with_instead p = p.key ++ (61 ∷ p.instead)

-- No `=` in the key, no `&` anywhere.
pub record Clean (p : Param) : Type 0 where
  pub key_end : Lacks 61 p.key
  pub whole : Lacks 38 (with_value p)
  pub whole_instead : Lacks 38 (with_instead p)

-- The values may differ only where the key is secret.
abbrev pub Guarded : Param → Type 0
Guarded p = is_secret p.key ≡ false → p.value ≡ p.instead

abbrev each : (Param → List ℕ) → List Param → List (List ℕ)
each f [] = []
each f (p ∷ ps) = f p ∷ each f ps

abbrev pub target_with : (Param → List ℕ) → List ℕ → Param → List Param → List ℕ
target_with f path p ps = path ++ (63 ∷ joined 38 (f p) (each f ps))

each_value : (ps : List Param) → All Clean ps → All (Lacks 38) (each with_value ps)
each_value [] c = tt
each_value (p ∷ ps) (c, cs) = (Clean.whole c, each_value ps cs)

each_instead : (ps : List Param) → All Clean ps → All (Lacks 38) (each with_instead ps)
each_instead [] c = tt
each_instead (p ∷ ps) (c, cs) = (Clean.whole_instead c, each_instead ps cs)

redact_kv-Param :
    (k v : List ℕ)
    → Lacks 61 k
    → redact_kv (k ++ (61 ∷ v)) ≡ k ++ (61 ∷ (if is_secret k then codes "<redacted>" else v))
unfolding redact_kv
redact_kv-Param k v l = rw (redact_kv, cut_at 61 k v l) refl

same_hidden :
    (t : Bool) (k v w text : List ℕ)
    → (t ≡ false → v ≡ w)
    → k ++ (61 ∷ (if t then text else v)) ≡ k ++ (61 ∷ (if t then text else w))
same_hidden true k v w text g = refl
same_hidden false k v w text g = ap (λ u. k ++ (61 ∷ u)) (g refl)

redact_kv_hides :
    (p : Param) → Clean p → Guarded p → redact_kv (with_value p) ≡ redact_kv (with_instead p)
redact_kv_hides p c g =
    redact_kv-Param p.key p.value c.key_end
    ∙ same_hidden (is_secret p.key) p.key p.value p.instead (codes "<redacted>") g
    ∙ sym (redact_kv-Param p.key p.instead c.key_end)

redact_all_hides :
    (first : Bool) (ps : List Param)
    → All Clean ps
    → All Guarded ps
    → redact_all first (each with_value ps) ≡ redact_all first (each with_instead ps)
unfolding redact_all
redact_all_hides first [] c g = refl
redact_all_hides first (p ∷ ps) (c, cs) (g, gs) =
    rw (redact_kv_hides p c g, redact_all_hides false ps cs gs) refl

http_redact_target_pieces :
    (path q : List ℕ) (qs : List (List ℕ))
    → Lacks 63 path
    → Lacks 38 q
    → All (Lacks 38) qs
    → http_redact_target (path ++ (63 ∷ joined 38 q qs)) ≡ path ++ (63 ∷ redact_all true (q ∷ qs))
unfolding http_redact_target
http_redact_target_pieces path q qs l c cs =
    rw (http_redact_target, cut_at 63 path (joined 38 q qs) l, pieces-joined 38 q qs c cs) refl

-- The redacted target does not depend on the values of the secret parameters: two targets that
-- differ in nothing else are redacted to the same text. The path has no `?`, the keys no `=`, and
-- keys and values no `&`.
pub http_redact_target_hides :
    (path : List ℕ) (p : Param) (ps : List Param)
    → Lacks 63 path
    → All Clean (p ∷ ps)
    → All Guarded (p ∷ ps)
    → http_redact_target (target_with with_value path p ps)
      ≡ http_redact_target (target_with with_instead path p ps)
http_redact_target_hides path p ps l (c, cs) g =
    http_redact_target_pieces path (with_value p) (each with_value ps) l c.whole (each_value ps cs)
    ∙ ap (λ t. path ++ (63 ∷ t)) (redact_all_hides true (p ∷ ps) (c, cs) g)
    ∙ sym (
        http_redact_target_pieces path (with_instead p) (each with_instead ps) l c.whole_instead
          (each_instead ps cs))

-- The value of the first parameter with this key.
abbrev pub value_of : List ℕ → List Param → Option (List ℕ)
value_of name [] = none
value_of name (p ∷ ps) =
    let rest = value_of name ps in
    if bytes_eq p.key name then some (http_url_decode p.value) else rest

match_key-Param :
    (name : List ℕ) (p : Param)
    → Clean p
    → match_key name (with_value p)
      ≡ (if bytes_eq p.key name then some (http_url_decode p.value) else none)
unfolding match_key
match_key-Param name p c = rw (match_key, cut_at 61 p.key p.value c.key_end) refl

first_value-Param :
    (name : List ℕ) (ps : List Param)
    → All Clean ps
    → first_value name (each with_value ps) ≡ value_of name ps
unfolding first_value
first_value-Param name [] c = refl
first_value-Param name (p ∷ ps) (c, cs) = elim (Bool-cases (bytes_eq p.key name)) [
  | inl e ↦ rw (first_value, match_key-Param name p c, e) refl
  | inr e ↦ rw (first_value, match_key-Param name p c, e) (first_value-Param name ps cs)
]

-- A query gives the decoded value of the first parameter with the key that is asked for, and none if
-- no parameter has it. The path has no `?`, the keys no `=`, and keys and values no `&`.
pub http_query_value-Param :
    (path name : List ℕ) (p : Param) (ps : List Param)
    → Lacks 63 path
    → All Clean (p ∷ ps)
    → http_query_value (target_with with_value path p ps) name ≡ value_of name (p ∷ ps)
unfolding http_query_value
http_query_value-Param path name p ps l (c, cs) =
    rw
      (
        http_query_value,
        cut_at 63 path (joined 38 (with_value p) (each with_value ps)) l,
        pieces-joined 38 (with_value p) (each with_value ps) c.whole (each_value ps cs),
      )
      (first_value-Param name (p ∷ ps) (c, cs))
