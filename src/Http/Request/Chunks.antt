-- ===== src/Http/Request/Chunks.antt =====
-- A request that comes in pieces.
use mathlib.Core.Bool.{true≢false}
use support_proxy.Base.{
  ℕ, ◌+◌, ◌≡◌, ◌⊎◌, inl, inr, refl, sym, ap, ◌∙◌, subst, Bool, true, false, not, List, ◌++◌,
  append_assoc, arith, ltb, if◌then◌else◌, length, length-append,
}
use support_proxy.Http.Request.{
  http_max_request, HttpRequest, Fed, more, complete, refused, parse, has_end, settled, feed,
}

abbrev is_more : Fed → Bool
is_more more = true
is_more complete = false
is_more refused = false

pick_more :
    (large open_ : Bool) (x y z : Fed × HttpRequest) (next : HttpRequest)
    → is_more x.0 ≡ false
    → is_more z.0 ≡ false
    → (if large then x else if open_ then y else z) ≡ (more, next)
    → next ≡ y.1
pick_more true open_ x y z next hx hz e = absurd (true≢false (sym (ap (λ p. is_more p.0) e) ∙ hx))
pick_more false true x y z next hx hz e = sym (ap (λ p. p.1) e)
pick_more false false x y z next hx hz e = absurd (true≢false (sym (ap (λ p. is_more p.0) e) ∙ hz))

answered : (good : Bool) → is_more (if good then complete else refused) ≡ false
answered true = refl
answered false = refl

feed_more :
    (r next : HttpRequest) (a : List ℕ)
    → feed r a ≡ (more, next)
    → next ≡ record r { buf = r.buf ++ a }
unfolding feed settled
feed_more r next a e =
    let r' : HttpRequest = record r { buf = r.buf ++ a } in
    pick_more (ltb http_max_request (length r.buf + length a)) (not (has_end r'.buf)) _ _ _ next
      refl (answered (parse r').0) e

-- Two answers that agree, and two requests that agree unless both were refused.
abbrev pub Agrees : Fed × HttpRequest → Fed × HttpRequest → Type 0
Agrees x y = (x ≡ y) ⊎ ((x.0 ≡ refused) × (y.0 ≡ refused))

settled-Agrees :
    (r s next : HttpRequest) (large large' : Bool)
    → large ≡ large'
    → Agrees (settled r next large) (settled s next large')
unfolding settled
settled-Agrees r s next true true l = inr (refl, refl)
settled-Agrees r s next true false l = cc
settled-Agrees r s next false true l = cc
settled-Agrees r s next false false l = inl refl

-- Chunks that arrive while the head has no end may be cut anywhere: what the next call answers, and
-- the request it parses, are what one call on both chunks gives, and if one refuses so does the other.
pub feed-append :
    (r next : HttpRequest) (a b : List ℕ)
    → feed r a ≡ (more, next)
    → Agrees (feed next b) (feed r (a ++ b))
unfolding feed
feed-append r next a b e =
    let first : HttpRequest = record r { buf = r.buf ++ a } in
    let size : ltb http_max_request (length (r.buf ++ a) + length b)
        ≡ ltb http_max_request (length r.buf + length (a ++ b)) =
      ap (ltb http_max_request) (omega (arith, length-append r.buf a, length-append a b)) in
    let both = settled-Agrees first r (record r { buf = r.buf ++ (a ++ b) }) _ _ size in
    subst (λ n. Agrees (feed n b) (feed r (a ++ b))) (sym (feed_more r next a e))
      (subst
        (λ bytes.
          Agrees
            (settled first (record r { buf = bytes })
              (ltb http_max_request (length (r.buf ++ a) + length b)))
            (feed r (a ++ b)))
        (sym (append_assoc r.buf a b)) both)
