-- ===== src/Ring/Stream.antt =====
-- A write puts its bytes behind the stream that the ring holds.
use support_proxy.Base.{
  ℕ, suc, ◌+◌, ◌-◌, ◌%◌, ◌≤◌, ◌<◌, ◌≡◌, refl, sym, ◌∙◌, ap, subst, List, [], ◌∷◌, ◌++◌, arith,
  length, take, drop, get_elem?, length-append, length-take, length-drop, get_elem?-append_left,
  get_elem?-append_right, length-replicate, append-nil, append_assoc, take-append-drop,
}
use support_proxy.Ring.{VideoRing, write_pieces, write, init, u64_mod}
use support_proxy.Ring.Holds.{Holds, length-pieces, pieces_new, pieces_old, write_pos-pieces}
use native.Mathlib.Decide.{dec_lt, dec_le}

-- A copy of a part of a lap, behind a stream that the ring holds.
pieces-Holds :
    (r : VideoRing) (h src : List ℕ)
    → Holds r h
    → 0 < length src
    → length src ≤ length r.buf
    → length h + length src < u64_mod
    → Holds (write_pieces r src) (h ++ src)
pieces-Holds r h src v pos short wide = record {
  room = rw (length-pieces r src v.room short) v.room;
  at_end = omega (arith, write_pos-pieces r src v.room (omega arith), length-append h src);
  kept = λ i before lap. rw (length-pieces r src v.room short) (elim (dec_lt i (length h)) [
    | yes old ↦
        pieces_old r src v.room i (length h - i) (omega arith) (omega arith) pos
          (omega (arith, length-append h src, length-pieces r src v.room short))
        ∙ v.kept i old (omega (arith, length-append h src, length-pieces r src v.room short))
        ∙ sym (get_elem?-append_left h src i old)
    | no fresh ↦
        (let e : i ≡ r.write_pos + (i - length h) = omega arith in
          ap (λ k. get_elem? (write_pieces r src).buf (k % length r.buf)) e)
        ∙ pieces_new r src v.room (i - length h) short (omega (arith, length-append h src))
        ∙ sym (get_elem?-append_right h src i (omega arith))
  ]);
}

-- A copy of a whole lap, whatever the ring held.
lap-Holds :
    (r : VideoRing) (h src : List ℕ)
    → 0 < length r.buf
    → r.write_pos ≡ length h
    → length src ≡ length r.buf
    → length h + length src < u64_mod
    → Holds (write_pieces r src) (h ++ src)
lap-Holds r h src room at_end whole wide = record {
  room = rw (length-pieces r src room (omega arith)) room;
  at_end = omega (arith, write_pos-pieces r src room (omega arith), length-append h src);
  kept = λ i before lap. rw (length-pieces r src room (omega arith)) (
      (let e : i ≡ r.write_pos + (i - length h) =
          omega (arith, length-append h src, length-pieces r src room (omega arith)) in
        ap (λ k. get_elem? (write_pieces r src).buf (k % length r.buf)) e)
      ∙ pieces_new r src room (i - length h) (omega arith) (omega (arith, length-append h src))
      ∙ sym (
          get_elem?-append_right h src i
            (omega (arith, length-append h src, length-pieces r src room (omega arith)))));
}

-- How `write` reaches the copies.
write_lap :
    (r : VideoRing) (src : List ℕ)
    → 0 < length r.buf
    → length r.buf ≤ length src
    → write r src
      ≡ write_pieces
          (record r { write_pos = (r.write_pos + (length src - length r.buf)) % u64_mod })
          (drop (length src - length r.buf) src)
unfolding write
write_lap r src room long = ground arith

write_part :
    (r : VideoRing) (src : List ℕ)
    → 0 < length src
    → length src < length r.buf
    → write r src ≡ write_pieces r src
unfolding write
write_part r src pos short = ground arith

write_empty : (r : VideoRing) → write r [] ≡ r
unfolding write
write_empty r = ground arith

-- A write of a lap or more.
long-Holds :
    (r : VideoRing) (h src : List ℕ)
    → Holds r h
    → length r.buf ≤ length src
    → length h + length src < u64_mod
    → Holds (write r src) (h ++ src) × (length (write r src).buf ≡ length r.buf)
long-Holds r h src v long wide = rw (write_lap r src v.room long) (
  subst (Holds _) whole (
      lap-Holds _ (h ++ take skip src) (drop skip src) v.room (omega (arith, len_seen))
        (omega (arith, length-drop skip src)) (omega (arith, len_seen, length-drop skip src))),
  length-pieces _ (drop skip src) v.room (omega (arith, length-drop skip src)),
)
  where
    skip : ℕ
    skip = length src - length r.buf

    len_seen : length (h ++ take skip src) ≡ length h + skip
    len_seen = omega (arith, length-append h (take skip src), length-take skip src)

    whole : (h ++ take skip src) ++ drop skip src ≡ h ++ src
    whole =
        append_assoc h (take skip src) (drop skip src)
        ∙ ap (λ t. h ++ t) (take-append-drop skip src)

-- Writing `src` to a ring that holds the stream `h` leaves one that holds `h ++ src`, of the same
-- size, whether `src` fits, wraps round or is longer than the ring; fewer than 2 ^ 64 bytes in all.
pub write-Holds :
    (r : VideoRing) (h src : List ℕ)
    → Holds r h
    → length h + length src < u64_mod
    → Holds (write r src) (h ++ src) × (length (write r src).buf ≡ length r.buf)
write-Holds r h [] v wide = rw (write_empty r, append-nil h) (v, refl)
write-Holds r h (x ∷ xs) v wide = elim (dec_le (length r.buf) (suc (length xs))) [
  | no short ↦ rw (write_part r (x ∷ xs) (omega arith) (omega arith)) (
    pieces-Holds r h (x ∷ xs) v (omega arith) (omega arith) wide,
    length-pieces r (x ∷ xs) v.room (omega arith),
  )
  | yes long ↦ long-Holds r h (x ∷ xs) v long wide
]

-- A fresh ring holds the empty stream.
pub init-Holds : (r : VideoRing) (bytes : ℕ) → Holds (init r bytes).0 []
unfolding init
init-Holds r bytes = record {
  room = ground (
    arith,
    length-replicate 4096 (let z : ℕ = 0 in z),
    length-replicate bytes (let z : ℕ = 0 in z),
  );
  at_end = refl;
  kept = λ i before lap. absurd (omega arith);
}
