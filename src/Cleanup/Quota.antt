-- ===== src/Cleanup/Quota.antt =====
-- What the quota pass deletes.
use mathlib.Core.List.{Perm}
use mathlib.Core.List.Perm
use support_proxy.Base.{
  ℕ, ◌+◌, ◌-◌, ◌/◌, ◌≤◌, ◌≡◌, ◌⊎◌, inl, inr, Bool, true, not, ◌&&◌, List, [], ◌∷◌, ◌++◌, arith, leb,
  All, Bool-cases,
}
use support_proxy.Cleanup.{
  SessionKind, same_kind, session_file_kind, LogFile, total_of, is_live, items_of, insert, sort,
  evict, enforce_quota,
}

-- A file of the kind that has been left alone for the grace.
pub record Evictable (kind : SessionKind) (now grace : ℕ) (f : LogFile) : Type 0 where
  pub of_kind : same_kind (session_file_kind (LogFile.name f)) kind ≡ true
  pub idle : LogFile.mtime f + grace ≤ now

items_of-Evictable :
    (kind : SessionKind) (now grace : ℕ) (fs : List LogFile)
    → All (Evictable kind now grace) (items_of kind now grace fs)
unfolding items_of is_live
items_of-Evictable kind now grace [] = tt
items_of-Evictable kind now grace (f ∷ fs) =
    let rest = items_of-Evictable kind now grace fs in
    elim (Bool-cases
      (same_kind (session_file_kind (LogFile.name f)) kind && not (is_live now grace f))) [
        | inl e ↦ rw (items_of, e) (ground (arith, e), rest)
        | inr e ↦ rw (items_of, e) rest
      ]

module _ (P : LogFile → Type 0) where
  insert-All : (f : LogFile) (gs : List LogFile) → P f → All P gs → All P (insert f gs)
  unfolding insert
  insert-All f [] p ps = (p, tt)
  insert-All f (g ∷ gs) p (q, qs) = elim (Bool-cases (leb (LogFile.mtime f) (LogFile.mtime g))) [
    | inl e ↦ rw (insert, e) (p, (q, qs))
    | inr e ↦ rw (insert, e) (q, insert-All f gs p qs)
  ]

  sort-All : (fs : List LogFile) → All P fs → All P (sort fs)
  unfolding sort
  sort-All [] ps = tt
  sort-All (f ∷ fs) (p, ps) = insert-All f (sort fs) p (sort-All fs ps)

  evict-All :
      (unlink : LogFile → Bool) (target need total : ℕ) (fs : List LogFile)
      → All P fs
      → All P (evict unlink target need total fs)
  unfolding evict
  evict-All unlink target need total [] ps = tt
  evict-All unlink target need total (f ∷ fs) (p, ps) =
      let gone = evict-All unlink target need (total - LogFile.alloc f) fs ps in
      let kept = evict-All unlink target need total fs ps in
      elim (Bool-cases (leb (total + need) target)) [
        | inl e ↦ rw (evict, e) tt
        | inr e ↦ elim (Bool-cases (unlink f)) [
          | inl u ↦ rw (evict, e, u) (p, gone)
          | inr u ↦ rw (evict, e, u) kept
        ]
      ]

-- The quota pass deletes only files of its own kind that have been left alone for the grace, whatever
-- unlink answers: video never evicts telemetry, and a live file stays.
pub enforce_quota-Evictable :
    (unlink : LogFile → Bool) (kind : SessionKind) (quota need now grace : ℕ) (files : List LogFile)
    → All (Evictable kind now grace) (enforce_quota unlink kind quota need now grace files)
unfolding enforce_quota
enforce_quota-Evictable unlink kind quota need now grace files =
    let sorted =
      sort-All (Evictable kind now grace) (items_of kind now grace files)
        (items_of-Evictable kind now grace files) in
    let all =
      evict-All (Evictable kind now grace) unlink (quota - quota / 5) need (total_of kind files) _
        sorted in
    elim (Bool-cases (leb (total_of kind files + need) quota)) [
      | inl e ↦ rw e tt
      | inr e ↦ rw e all
    ]

-- The oldest file first.
abbrev pub OldestFirst : List LogFile → Type 0
OldestFirst [] = Unit {0}
OldestFirst (f ∷ fs) = All (λ g. LogFile.mtime f ≤ LogFile.mtime g) fs × OldestFirst fs

-- The bytes that are left of `total` behind the files.
abbrev pub left_of : ℕ → List LogFile → ℕ
left_of total [] = total
left_of total (f ∷ fs) = left_of (total - LogFile.alloc f) fs

-- `gone` is the head of `fs`, and the rest is empty or not in the way of the target.
abbrev pub Enough : ℕ → ℕ → ℕ → List LogFile → List LogFile → Type 0
Enough target need total fs gone =
    (rest : List LogFile) × (gone ++ rest ≡ fs)
    × ((rest ≡ []) ⊎ (left_of total gone + need ≤ target))

abbrev unlinks : LogFile → Bool
unlinks f = true

-- The second list is the elements of the first with P, in their order, each as often.
pub data Sifted (P : LogFile → Type 0) : List LogFile → List LogFile → Type 0 where
  sifted : Sifted P [] []
  with_it : {f : LogFile} {fs gs : List LogFile} → P f → Sifted P fs gs → Sifted P (f ∷ fs) (f ∷ gs)
  without_it : {f : LogFile} {fs gs : List LogFile} → ¬ P f → Sifted P fs gs → Sifted P (f ∷ fs) gs

-- What a pass over `files` that is short of room deletes: `oldest` is the files that may go, sorted
-- by age, and `gone` is its head, as far as the target asks for it.
pub record Evicted (kind : SessionKind) (now grace target need : ℕ) (files gone : List LogFile)
    : Type 0 where
  pub may_go : List LogFile
  pub oldest : List LogFile
  pub exactly : Sifted (Evictable kind now grace) files may_go
  pub same_files : Perm oldest may_go
  pub by_age : OldestFirst oldest
  pub enough : Enough target need (total_of kind files) oldest gone
