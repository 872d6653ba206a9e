-- ===== src/Ring/Window.antt =====
-- What a read gives: the bytes of the last lap of the stream.
use support_proxy.Base.{
  ℕ, ◌+◌, ◌-◌, ◌%◌, ◌≤◌, ◌<◌, ◌≡◌, refl, sym, ◌∙◌, ap, subst, list_ext_below, inl, inr, List, [],
  ◌∷◌, ◌++◌, arith, ltb, leb, length, take, drop, get_elem?, length-append, length-take,
  length-drop, Bool-cases, get_elem?-append_left, get_elem?-append_right, get_elem?-drop,
  get_elem?-take, append-nil, append_assoc, lt→ltb, ge→ltb, take_all, if◌then◌else◌, tests, ◌&&◌,
  true, false,
}
use support_proxy.Ring.{VideoRing, write, init, u64_mod, oldest, resident, read_at, read_pieces}
use support_proxy.Ring.Holds.{Holds}
use support_proxy.Base.Modular.{mod-add_cases}
use native.Mathlib.Nat.{mod-lt}
use native.Mathlib.Decide.{dec_lt}
use support_proxy.Ring.Stream.{write-Holds, init-Holds}

-- The last lap of a stream: `n` bytes of it from `pos`, or nothing where it is not kept.
abbrev pub window : List ℕ → ℕ → ℕ → ℕ → List ℕ
window h cap pos n =
    if leb (length h) (pos + cap) && leb pos (length h) then take n (drop pos h) else []

-- One piece of a read.
piece :
    (r : VideoRing) (h : List ℕ) (pos j : ℕ)
    → Holds r h
    → length h ≤ pos + length r.buf
    → pos + j < length h
    → get_elem? r.buf ((pos + j) % length r.buf) ≡ get_elem? (drop pos h) j
piece r h pos j v lap before = v.kept (pos + j) before (omega arith) ∙ sym (get_elem?-drop pos h j)

module _ (r : VideoRing) (h : List ℕ) (v : Holds r h) (pos avail : ℕ)
    (lap : length h ≤ pos + length r.buf) (inside : pos + avail ≤ length h) where
  start : ℕ
  start = pos % length r.buf

  len_want : length (take avail (drop pos h)) ≡ avail
  len_want = omega (arith, length-take avail (drop pos h), length-drop pos h)

  start_in : start < length r.buf
  unfolding start
  start_in = mod-lt pos v.room

  want :
      (j : ℕ)
      → j < avail
      → get_elem? r.buf ((pos + j) % length r.buf) ≡ get_elem? (take avail (drop pos h)) j
  want j p = piece r h pos j v lap (omega arith) ∙ sym (get_elem?-take avail (drop pos h) j p)

  read_one : start + avail ≤ length r.buf → take avail (drop start r.buf) ≡ take avail (drop pos h)
  read_one fits =
      list_ext_below avail _ _
        (omega (arith, length-take avail (drop start r.buf), length-drop start r.buf)) len_want
        λ j p.
          get_elem?-take avail (drop start r.buf) j p
          ∙ get_elem?-drop start r.buf j
          ∙ (unfold start in
              elim (mod-add_cases pos j (length r.buf) (omega arith)) [
                | inl (_, e) ↦ rw (← e) (want j p)
                | inr (c, _) ↦ absurd (omega arith)
              ])

  read_two :
      (first : ℕ)
      → first + start ≡ length r.buf
      → first < avail
      → take first (drop start r.buf) ++ take (avail - first) r.buf ≡ take avail (drop pos h)
  read_two first seam over =
      list_ext_below avail _ _
        (omega (
          arith,
          length-append (take first (drop start r.buf)) (take (avail - first) r.buf),
          len_head,
          length-take (avail - first) r.buf,
        ))
        len_want
        λ j p. elim (dec_lt j first) [
          | yes here ↦
              get_elem?-append_left (take first (drop start r.buf)) _ j (omega (arith, len_head))
              ∙ get_elem?-take first (drop start r.buf) j here
              ∙ get_elem?-drop start r.buf j
              ∙ (unfold start in
                  elim (mod-add_cases pos j (length r.buf) (omega arith)) [
                    | inl (_, e) ↦ rw (← e) (want j p)
                    | inr (c, _) ↦ absurd (omega arith)
                  ])
          | no there ↦
              get_elem?-append_right (take first (drop start r.buf)) _ j (omega (arith, len_head))
              ∙ get_elem?-take (avail - first) r.buf _ (omega (arith, len_head))
              ∙ (unfold start in
                  elim (mod-add_cases pos j (length r.buf) (omega arith)) [
                    | inl (c, _) ↦ absurd (omega arith)
                    | inr (_, e) ↦
                        let k : j - length (take first (drop (pos % length r.buf) r.buf))
                            ≡ (pos + j) % length r.buf =
                          omega (arith, len_head) in
                        rw k (want j p)
                  ])
        ]
    where
      len_head : length (take first (drop start r.buf)) ≡ first
      len_head = omega (arith, length-take first (drop start r.buf), length-drop start r.buf)

  read_pieces_lem : read_pieces r pos avail ≡ (avail, take avail (drop pos h))
  unfolding read_pieces start
  read_pieces_lem = elim (dec_lt (length r.buf - start) avail) [
    | yes over ↦
        rw (lt→ltb _ _ over, lt→ltb _ _ over)
          (ap (λ bs. (avail, bs)) (read_two (length r.buf - start) (omega (arith, start_in)) over))
    | no fits ↦
        rw (ge→ltb (length r.buf - start) avail (omega arith), ge→ltb avail avail (omega arith))
          (ap (λ bs. (avail, bs)) (read_one (omega (arith, start_in))))
  ]

-- Where the bytes asked for end: at the count or at the end of the stream.
avail_of : ℕ → ℕ → List ℕ → ℕ
avail_of n pos h = if ltb n (length h - pos) then n else length h - pos

take-avail :
    (n pos : ℕ) (h : List ℕ)
    → pos ≤ length h
    → (take n (drop pos h) ≡ take (avail_of n pos h) (drop pos h))
      × (length (take n (drop pos h)) ≡ avail_of n pos h)
unfolding avail_of
take-avail n pos h inside = elim (Bool-cases (ltb n (length h - pos))) [
  | inl e ↦ rw e (refl, omega (tests, length-take n (drop pos h), length-drop pos h))
  | inr e ↦
      let all : length (drop pos h) ≤ n = omega (tests, length-drop pos h) in
      rw e (
        take_all n (drop pos h) all
            ∙ sym (take_all (length h - pos) (drop pos h) (omega (arith, length-drop pos h))),
        omega (tests, length-take n (drop pos h), length-drop pos h),
      )
]

-- `resident` says whether the ring still has the byte at `pos`, or `pos` is the end of the stream.
pub resident_lem :
    (r : VideoRing) (h : List ℕ) (pos : ℕ)
    → Holds r h
    → resident r pos ≡ (leb (length h) (pos + length r.buf) && leb pos (length h))
unfolding resident oldest
resident_lem r h pos v = ground arith

read_at_refused : (r : VideoRing) (pos n : ℕ) → resident r pos ≡ false → read_at r pos n ≡ (0, [])
unfolding read_at
read_at_refused r pos n e = ground arith

read_at_served :
    (r : VideoRing) (h : List ℕ) (pos n avail : ℕ)
    → Holds r h
    → resident r pos ≡ true
    → length h ≤ pos + length r.buf
    → pos ≤ length h
    → avail ≡ avail_of n pos h
    → read_at r pos n ≡ (avail, take avail (drop pos h))
unfolding read_at avail_of
read_at_served r h pos n avail v e lap inside a =
    let a' : avail ≡ (if ltb n (r.write_pos - pos) then n else r.write_pos - pos) = rw v.at_end a in
    ground (arith, read_pieces_lem r h v pos avail lap (ground arith))

-- A read from a ring that holds the stream `h` gives the asked bytes of its last lap, and their
-- number; nothing where `pos` is overwritten or in the future.
pub read_at-window :
    (r : VideoRing) (h : List ℕ) (pos n : ℕ)
    → Holds r h
    → let w = window h (length r.buf) pos n in read_at r pos n ≡ (length w, w)
read_at-window r h pos n v = elim (Bool-cases (resident r pos)) [
  | inl e ↦
      let facts : leb (length h) (pos + length r.buf) && leb pos (length h) ≡ true =
        sym (resident_lem r h pos v) ∙ e in
      let (bytes, count) = take-avail n pos h (ground arith) in
      rw (read_at_served r h pos n (avail_of n pos h) v e (ground arith) (ground arith) refl, facts)
        (rw (count, bytes))
  | inr e ↦
      let facts : leb (length h) (pos + length r.buf) && leb pos (length h) ≡ false =
        sym (resident_lem r h pos v) ∙ e in
      rw (read_at_refused r pos n e, facts)
]

-- The chunks that a publisher sends, one `write` each.
pub write_all : VideoRing → List (List ℕ) → VideoRing
write_all r [] = r
write_all r (c ∷ cs) = write_all (write r c) cs

abbrev pub joined : List (List ℕ) → List ℕ
joined [] = []
joined (c ∷ cs) = c ++ joined cs

write_all-Holds :
    (cs : List (List ℕ)) (r : VideoRing) (h : List ℕ)
    → Holds r h
    → length h + length (joined cs) < u64_mod
    → Holds (write_all r cs) (h ++ joined cs) × (length (write_all r cs).buf ≡ length r.buf)
unfolding write_all
write_all-Holds [] r h v wide = rw (append-nil h) (v, refl)
write_all-Holds (c ∷ cs) r h v wide =
    let (v', size) = write-Holds r h c v (omega (arith, length-append c (joined cs))) in
    let (v'', size') =
      write_all-Holds cs (write r c) (h ++ c) v'
        (omega (arith, length-append c (joined cs), length-append h c)) in
    (subst (Holds (write_all (write r c) cs)) (append_assoc h c (joined cs)) v'', size' ∙ size)

-- Whatever chunks went into a fresh ring, fewer than 2 ^ 64 bytes in all, a read gives the bytes
-- of their concatenation from `pos` on, and their number, if the last lap has them, else nothing.
pub read_at-write_all :
    (r : VideoRing) (bytes : ℕ) (cs : List (List ℕ)) (pos n : ℕ)
    → length (joined cs) < u64_mod
    → let fresh = (init r bytes).0 in
      let w = window (joined cs) (length fresh.buf) pos n in
      read_at (write_all fresh cs) pos n ≡ (length w, w)
read_at-write_all r bytes cs pos n wide =
    let (v, size) = write_all-Holds cs (init r bytes).0 [] (init-Holds r bytes) (omega arith) in
    rw (← size) (read_at-window (write_all (init r bytes).0 cs) (joined cs) pos n v)
