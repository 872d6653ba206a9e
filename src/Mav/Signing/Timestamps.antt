-- ===== src/Mav/Signing/Timestamps.antt =====
-- A signing timestamp that is saved and loaded again does not fall behind.
use mathlib.Core.Bool.{true≢false}
use support_proxy.Base.{
  ℕ, zero, suc, ◌+◌, ◌/◌, ◌%◌, ◌^◌, ◌≤◌, ◌<◌, ◌≡◌, refl, sym, ap, ◌∙◌, subst, Bool, true, false,
  List, [], ◌∷◌, ◌++◌, append_assoc, some, arith, ltb, if◌then◌else◌, length, take, drop, All,
  get_elem?, length-append, length-take, length-drop, take-append-drop, get_elem?-append_right,
  get_elem?-append_left, get_elem?-some,
}
use support_proxy.Base.Record.{field}
use support_proxy.KeyDb.{keyentry_size}
use support_proxy.Mav.Signing.{advance, le_bytes, with_timestamp}

-- The number has at most `n` bytes.
abbrev Fits : ℕ → ℕ → Type 0
Fits zero t = t ≡ 0
Fits (suc n) t = Fits n (t / 256)

-- A number that is written little-endian is read back.
field-le_bytes :
    (n t : ℕ) (pre post : List ℕ)
    → Fits n t
    → field (length pre) n (pre ++ (le_bytes n t ++ post)) ≡ t
unfolding field le_bytes
field-le_bytes zero t pre post f = sym f
field-le_bytes (suc n) t pre post f =
    let low = pre ++ (t % 256 ∷ []) in
    let rest = le_bytes n (t / 256) ++ post in
    let here : get_elem? (pre ++ (t % 256 ∷ rest)) (length pre) ≡ some (t % 256) =
      get_elem?-append_right pre (t % 256 ∷ rest) (length pre) (omega arith)
      ∙ ap (get_elem? (t % 256 ∷ rest)) {y = 0} (omega arith) in
    let ih : field (length low) n (low ++ rest) ≡ t / 256 = field-le_bytes n (t / 256) low post f in
    let split : low ++ rest ≡ pre ++ (t % 256 ∷ rest) = append_assoc pre (t % 256 ∷ []) rest in
    let behind : length low ≡ length pre + 1 = omega (arith, length-append pre (t % 256 ∷ [])) in
    let ih' : field (length pre + 1) n (pre ++ (t % 256 ∷ rest)) ≡ t / 256 =
      subst (λ d. field (length pre + 1) n d ≡ t / 256) split
        (subst (λ off. field off n (low ++ rest) ≡ t / 256) behind ih) in
    rw (here, field, ih') (omega arith)

-- A field that lies in front is as it was.
field_front :
    (off n : ℕ) (pre a b : List ℕ)
    → off + n ≤ length pre
    → field off n (pre ++ a) ≡ field off n (pre ++ b)
unfolding field
field_front off zero pre a b h = refl
field_front off (suc n) pre a b h =
    let (v, there) = get_elem?-some pre off (omega arith) in
    let e = get_elem?-append_left pre a off (omega arith) ∙ there in
    let e' = get_elem?-append_left pre b off (omega arith) ∙ there in
    rw (e, field, e', field, field_front (off + 1) n pre a b (omega arith)) refl

-- The loop gives at least each timestamp up to the clock, and at least the key's own.
pub advance_up :
    (now : ℕ) (ts : List ℕ) (k : ℕ × Bool)
    → (k.0 ≤ (advance now ts k).0) × All (λ t. t ≤ now → t ≤ (advance now ts k).0) ts
unfolding advance
advance_up now [] k = (omega arith, tt)
advance_up now (t ∷ ts) k =
    let v = if ltb now t then now else t in
    let (up, all) = advance_up now ts (if ltb k.0 v then (v, true) else k) in
    (ground (arith, up), ((λ h. ground (arith, up, h)), all))

-- It never leaves both the key's timestamp and the clock behind.
pub advance_down :
    (now : ℕ) (ts : List ℕ) (k : ℕ × Bool) (top : ℕ)
    → k.0 ≤ top
    → now ≤ top
    → (advance now ts k).0 ≤ top
unfolding advance
advance_down now [] k top a b = a
advance_down now (t ∷ ts) k top a b =
    let v = if ltb now t then now else t in
    advance_down now ts (if ltb k.0 v then (v, true) else k) top (ground (arith, a, b)) b

advance_needs : (now : ℕ) (ts : List ℕ) (v : ℕ) → (advance now ts (v, true)).1 ≡ true
unfolding advance
advance_needs now [] v = refl
advance_needs now (t ∷ ts) v =
    let u = if ltb now t then now else t in
    elim (ltb v u) as (λ c. (advance now ts (if c then (u, true) else (v, true))).1 ≡ true) [
      | true ↦ advance_needs now ts u
      | false ↦ advance_needs now ts v
    ]

-- Nothing to save: the key's timestamp stays.
pub advance_same :
    (now : ℕ) (ts : List ℕ) (k : ℕ × Bool)
    → (advance now ts k).1 ≡ false
    → (advance now ts k).0 ≡ k.0
unfolding advance
advance_same now [] k e = refl
advance_same now (t ∷ ts) k e =
    let v = if ltb now t then now else t in
    let next = λ (c : Bool). advance now ts (if c then (v, true) else k) in
    (elim (ltb k.0 v) as (λ c. (next c).1 ≡ false → (next c).0 ≡ k.0) [
      | true ↦ λ f. absurd (true≢false (sym (advance_needs now ts v) ∙ f))
      | false ↦ λ f. advance_same now ts k f
    ])
      e

length-le_bytes : (n t : ℕ) → length (le_bytes n t) ≡ n
unfolding le_bytes
length-le_bytes zero t = refl
length-le_bytes (suc n) t = omega (arith, length-le_bytes n (t / 256))

-- A key of the struct's size with another timestamp: its size, its magic number, its timestamp.
pub record Stamped (key : List ℕ) (t : ℕ) (new : List ℕ) : Type 0 where
  pub whole : length new ≡ keyentry_size
  pub magic : field 0 8 new ≡ field 0 8 key
  pub stamp : field 8 8 new ≡ t

pub with_timestamp-Stamped :
    (key : List ℕ) (t : ℕ)
    → length key ≡ keyentry_size
    → t < 2 ^ 64
    → Stamped key t (with_timestamp key t)
unfolding with_timestamp
with_timestamp-Stamped key t size small =
    let pre = take 8 key in
    let post = drop 16 key in
    let l : length pre ≡ 8 = omega (arith, length-take 8 key, size) in
    record {
      whole = omega (
        arith,
        length-append pre (le_bytes 8 t ++ post),
        length-append (le_bytes 8 t) post,
        length-le_bytes 8 t,
        length-drop 16 key,
        l,
        size,
      );
      magic =
          field_front 0 8 pre (le_bytes 8 t ++ post) (drop 8 key) (omega (arith, l))
          ∙ ap (field 0 8) (take-append-drop 8 key);
      stamp =
          subst (λ off. field off 8 (pre ++ (le_bytes 8 t ++ post)) ≡ t) l
            (field-le_bytes 8 t pre post (omega arith));
    }
