-- ===== src/Relay/Guard/Authorised.antt =====
-- A request that passes the guard is whole, carries no wrong credential, and says how long its body is.
use support_proxy.Base.{
  ℕ, ◌≡◌, refl, sym, ap, ◌∙◌, Bool, true, false, not, ◌&&◌, ◌||◌, List, Option, none, some, inl,
  inr, ◌⊎◌, codes, if◌then◌else◌, arith,
}
use support_proxy.Http.{pieces}
use support_proxy.Http.Query.{http_query_value}
use support_proxy.VideoAuth.{any_set, video_password_matches}
use support_proxy.Http.Request.{HttpRequest, Fed, more, complete, refused, feed}
use support_proxy.Relay.Guard.Length.{Sized, body_length-Sized}
use support_proxy.Relay.Guard.{
  before_slash, body_length, empty_request, password_fits, credential_ok, answered, checked_request,
}

or_right : (a b : Bool) → a ≡ false → (a || b) ≡ true → b ≡ true
or_right true b f h = absurd (ground (arith, f))
or_right false b f h = h

both_true : (a b : Bool) → a ≡ true → not (a && not b) ≡ true → b ≡ true
both_true true true f h = refl
both_true true false f h = absurd (ground (arith, h))
both_true false b f h = absurd (ground (arith, f))

allowed :
    (t : Bool) (o : Option ℕ) (m : ℕ) → (if t then o else none) ≡ some m → (t ≡ true) × (o ≡ some m)
allowed true o m e = (refl, e)
allowed false o m e = absurd (ground (arith, e))

module _ (sha256 : List ℕ → List ℕ) (key : List ℕ) where
  -- The publish password, or that with a slash and more behind it.
  abbrev pub Opens : List ℕ → Type 0
  Opens pw =
      (video_password_matches sha256 key pw ≡ true)
      ⊎ ((p : List ℕ) × (before_slash pw ≡ some p) × (video_password_matches sha256 key p ≡ true))

  -- A whole request that carries no wrong credential and has a body of `m` bytes.
  pub record IsAuthorised (head : List ℕ) (m : ℕ) : Type 0 where
    pub sized : Sized (pieces 10 ((feed empty_request head).1).headers) m
    pub whole : (feed empty_request head).0 ≡ complete
    pub opens :
        (pw : List ℕ)
        → any_set key ≡ true
        → http_query_value ((feed empty_request head).1).target (codes "pw") ≡ some pw
        → Opens pw

  prefix-Opens :
      (pw : List ℕ) (o : Option (List ℕ))
      → before_slash pw ≡ o
      → elim o [ none ↦ false | some p ↦ video_password_matches sha256 key p ] ≡ true
      → Opens pw
  prefix-Opens pw none e h = absurd (ground (arith, h))
  prefix-Opens pw (some p) e h = inr (p, e, h)

  password_fits-Opens :
      (pw : List ℕ) (b : Bool)
      → video_password_matches sha256 key pw ≡ b
      → password_fits sha256 key pw ≡ true
      → Opens pw
  unfolding password_fits
  password_fits-Opens pw true e h = inl e
  password_fits-Opens pw false e h = prefix-Opens pw (before_slash pw) refl (or_right _ _ e h)

  credential-Opens :
      (req : HttpRequest) (pw : List ℕ)
      → credential_ok sha256 key req ≡ true
      → any_set key ≡ true
      → http_query_value req.target (codes "pw") ≡ some pw
      → Opens pw
  unfolding credential_ok
  credential-Opens req pw ok set e =
      let found : not (any_set key && not (password_fits sha256 key pw)) ≡ true =
        sym (
          ap
            (λ (o : Option (List ℕ)). elim o [
              | none ↦ true
              | some p ↦ not (any_set key && not (password_fits sha256 key p))
            ])
            e)
        ∙ ok in
      password_fits-Opens pw (video_password_matches sha256 key pw) refl
        (both_true (any_set key) (password_fits sha256 key pw) set found)

  answered-Allowed :
      (f : Fed) (req : HttpRequest) (m : ℕ)
      → answered sha256 key f req ≡ some m
      → (f ≡ complete) × (credential_ok sha256 key req ≡ true) × (body_length req ≡ some m)
  unfolding answered
  answered-Allowed complete req m e =
      let (ok, len) = allowed (credential_ok sha256 key req) (body_length req) m e in
      (refl, ok, len)
  answered-Allowed more req m e = absurd (ground (arith, e))
  answered-Allowed refused req m e = absurd (ground (arith, e))

  pub checked_request-IsAuthorised :
      (head : List ℕ) (m : ℕ) → checked_request sha256 key head ≡ some m → IsAuthorised head m
  unfolding checked_request
  checked_request-IsAuthorised head m e =
      let r = feed empty_request head in
      let (whole, ok, len) = answered-Allowed r.0 r.1 m e in
      record {
        sized = body_length-Sized r.1 m len;
        whole = whole;
        opens = λ pw set q. credential-Opens r.1 pw ok set q;
      }
