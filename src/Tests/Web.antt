-- ===== src/Tests/Web.antt =====
-- Requests on small inputs.
use support_proxy.Base.{
  ℕ, ◌≡◌, refl, Bool, true, List, [], ◌∷◌, ◌++◌, codes, All, IsBytes, arith, find, not, ◌&&◌, ◌==◌,
}
use support_proxy.Http.Query.{http_query_value, is_secret, http_redact_target}
use support_proxy.Http.Query.Params.{
  Lacks, Param, with_value, with_instead, Clean, Guarded, target_with, http_redact_target_hides,
  value_of, http_query_value-Param,
}
use support_proxy.Http.Request.{HttpRequest, more, has_end, settled, feed}
use support_proxy.Http.Request.Chunks.{Agrees, feed-append}

abbrev password : Param
password = record { key = codes "pw"; value = codes "abc"; instead = codes "xyz" }

abbrev slot : Param
slot = record { key = codes "slot"; value = codes "1+2"; instead = codes "1+2" }

abbrev has_none : ℕ → List ℕ → Bool
has_none ch [] = true
has_none ch (c ∷ s) = not (c == ch) && has_none ch s

lacks : (ch : ℕ) (s : List ℕ) → has_none ch s ≡ true → Lacks ch s
lacks ch [] e = tt
lacks ch (c ∷ s) e = (ground (arith, e), lacks ch s (ground (arith, e)))

path_clean : Lacks 63 (codes "/v")
path_clean = (refl, (refl, tt))

password-Clean : Clean password
password-Clean = record {
  key_end = lacks 61 (Param.key password) refl;
  whole = lacks 38 (with_value password) refl;
  whole_instead = lacks 38 (with_instead password) refl;
}

slot-Clean : Clean slot
slot-Clean = record {
  key_end = lacks 61 (Param.key slot) refl;
  whole = lacks 38 (with_value slot) refl;
  whole_instead = lacks 38 (with_instead slot) refl;
}

guarded : All Guarded (password ∷ slot ∷ [])
unfolding is_secret
guarded = ((λ e. cc), ((λ e. refl), tt))

http_redact_target_hides_example :
    http_redact_target (target_with with_value (codes "/v") password (slot ∷ []))
    ≡ http_redact_target (target_with with_instead (codes "/v") password (slot ∷ []))
http_redact_target_hides_example =
    http_redact_target_hides (codes "/v") password (slot ∷ []) path_clean
      (password-Clean, (slot-Clean, tt)) guarded

http_query_value-Param_example :
    http_query_value (target_with with_value (codes "/v") password (slot ∷ [])) (codes "slot")
    ≡ value_of (codes "slot") (password ∷ slot ∷ [])
http_query_value-Param_example =
    http_query_value-Param (codes "/v") (codes "slot") password (slot ∷ []) path_clean
      (password-Clean, (slot-Clean, tt))

some-IsBytes : IsBytes (0 ∷ 37 ∷ 255 ∷ [])
some-IsBytes = (omega arith, (omega arith, (omega arith, tt)))

abbrev empty_request : HttpRequest
empty_request = record {
  buf = [];
  leftover = [];
  headers = [];
  method = [];
  target = [];
  path = [];
  query = [];
}

first_chunk :
    feed empty_request (codes "GET /") ≡ (more, record empty_request { buf = codes "GET /" })
unfolding feed settled has_end find
first_chunk = refl

feed-append_example :
    Agrees
      (feed (record empty_request { buf = codes "GET /" }) (codes "v HTTP"))
      (feed empty_request (codes "GET /" ++ codes "v HTTP"))
feed-append_example =
    feed-append empty_request (record empty_request { buf = codes "GET /" }) (codes "GET /")
      (codes "v HTTP") first_chunk
