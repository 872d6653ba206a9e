-- ===== src/Http.antt =====
-- httpreq.h and httpreq.cpp: requests on a video port. A text is the list of its bytes.
pub mod Query
pub mod Request
use support_proxy.Base.{
  ℕ, ◌+◌, Bool, true, false, List, [], ◌∷◌, ◌++◌, Option, none, some, ◌==◌, if◌then◌else◌,
}

-- s.substr(0, i) and s.substr(i + 1), where i is s.find(ch).
unfoldable pub cut : ℕ → List ℕ → Option (List ℕ × List ℕ)
cut ch [] = none
cut ch (c ∷ s) =
    let rest = cut ch s in
    if c == ch then some ([], s) else elim rest [ none ↦ none | some p ↦ some (c ∷ p.0, p.1) ]

unfoldable onto_head : ℕ → List (List ℕ) → List (List ℕ)
onto_head c [] = (c ∷ []) ∷ []
onto_head c (p ∷ ps) = (c ∷ p) ∷ ps

-- The texts between the occurrences of ch, in order.
unfoldable pub pieces : ℕ → List ℕ → List (List ℕ)
unfolding onto_head
pieces ch [] = [] ∷ []
pieces ch (c ∷ s) = let rest = pieces ch s in if c == ch then [] ∷ rest else onto_head c rest
