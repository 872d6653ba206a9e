-- ===== src/Tests/Table.antt =====
-- A table of records for the tests: an association list, the newest record first.
use mathlib.Core.List.{List-discrete}
use native.Mathlib.Decide.{ℕ_discrete}
use support_proxy.Base.{
  ℕ, ◌≡◌, ◌≢◌, refl, sym, ap, ◌∙◌, List, [], ◌∷◌, Option, none, some, inl, inr, Option-cases, arith,
}
use support_proxy.Tdb.{Tdb}

abbrev pub same : (a b : List ℕ) → Dec (a ≡ b)
same = List-discrete ℕ_discrete

abbrev Rows : Type 0
Rows = List (List ℕ × List ℕ)

fetch_if : {a b : List ℕ} → Dec (a ≡ b) → List ℕ → Option (List ℕ) → Option (List ℕ)
fetch_if (yes e) value rest = some value
fetch_if (no ne) value rest = rest

unfoldable pub fetch_row : Rows → List ℕ → Option (List ℕ)
unfolding fetch_if
fetch_row [] key = none
fetch_row ((k, value) ∷ rows) key = fetch_if (same k key) value (fetch_row rows key)

without_if : {a b : List ℕ} → Dec (a ≡ b) → List ℕ × List ℕ → Rows → Rows
without_if (yes e) row rest = rest
without_if (no ne) row rest = row ∷ rest

unfoldable pub without : Rows → List ℕ → Rows
unfolding without_if
without [] key = []
without ((k, value) ∷ rows) key = without_if (same k key) (k, value) (without rows key)

unfoldable pub remove_row : Rows → List ℕ → Option Rows
remove_row rows key = elim (fetch_row rows key) [
  | none ↦ none
  | some value ↦ some (without rows key)
]

pub head_eq :
    (k key value : List ℕ) (rows : Rows) → k ≡ key → fetch_row ((k, value) ∷ rows) key ≡ some value
unfolding fetch_row fetch_if
head_eq k key value rows e =
    elim (same k key) as (λ d. fetch_if d value (fetch_row rows key) ≡ some value) [
      | yes _ ↦ refl
      | no ne ↦ absurd (ne e)
    ]

pub head_ne :
    (k key value : List ℕ) (rows : Rows)
    → k ≢ key
    → fetch_row ((k, value) ∷ rows) key ≡ fetch_row rows key
unfolding fetch_row fetch_if
head_ne k key value rows ne =
    elim (same k key) as (λ d. fetch_if d value (fetch_row rows key) ≡ fetch_row rows key) [
      | yes e ↦ absurd (ne e)
      | no _ ↦ refl
    ]

pub without_gone : (rows : Rows) (key : List ℕ) → fetch_row (without rows key) key ≡ none
unfolding fetch_row without without_if
without_gone [] key = refl
without_gone ((k, value) ∷ rows) key =
    elim (same k key) as (λ d. fetch_row (without_if d (k, value) (without rows key)) key ≡ none) [
      | yes e ↦ without_gone rows key
      | no ne ↦ head_ne k key value (without rows key) ne ∙ without_gone rows key
    ]

pub without_ne :
    (rows : Rows) (key other : List ℕ)
    → other ≢ key
    → fetch_row (without rows key) other ≡ fetch_row rows other
unfolding fetch_row without without_if
without_ne [] key other h = refl
without_ne ((k, value) ∷ rows) key other h =
    elim (same k key)
      as (λ d.
        fetch_row (without_if d (k, value) (without rows key)) other
        ≡ fetch_row ((k, value) ∷ rows) other) [
          | yes e ↦
              without_ne rows key other h ∙ sym (head_ne k other value rows (λ q. h (sym q ∙ e)))
          | no ne ↦ elim (same k other) [
            | yes e ↦
                head_eq k other value (without rows key) e ∙ sym (head_eq k other value rows e)
            | no n ↦
                head_ne k other value (without rows key) n
                ∙ without_ne rows key other h
                ∙ sym (head_ne k other value rows n)
          ]
        ]

pub some_inj : {a b : Rows} → Path (Option Rows) (some a) (some b) → a ≡ b
some_inj e = cc e

pub removed_is :
    (rows rows' : Rows) (key : List ℕ) → remove_row rows key ≡ some rows' → rows' ≡ without rows key
unfolding remove_row
removed_is rows rows' key e = elim (Option-cases (fetch_row rows key)) [
  | inl x ↦ absurd (ground (arith, x, e))
  | inr (v, x) ↦ cc (x, e)
]

abbrev pub table : Tdb
table = record {
  Db = Rows;
  fetch = fetch_row;
  store = λ rows key value. some ((key, value) ∷ rows);
  remove = remove_row;
  traverse = λ rows. rows;
  fetch-store = λ rows rows' key value e.
      ap (λ r. fetch_row r key) (sym (some_inj e)) ∙ head_eq key key value rows refl;
  fetch-store_ne = λ rows rows' key other value e ne.
      ap (λ r. fetch_row r other) (sym (some_inj e))
      ∙ head_ne key other value rows (λ q. ne (sym q));
  fetch-remove = λ rows rows' key e.
      ap (λ r. fetch_row r key) (removed_is rows rows' key e) ∙ without_gone rows key;
  fetch-remove_ne = λ rows rows' key other e ne.
      ap (λ r. fetch_row r other) (removed_is rows rows' key e) ∙ without_ne rows key other ne;
}
