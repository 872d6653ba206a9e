-- ===== src/Ring/Holds.antt =====
-- The ring against the stream that went through it: every byte of the last lap is in its place.
use support_proxy.Base.{
  ℕ, ◌+◌, ◌-◌, ◌%◌, ◌≤◌, ◌<◌, ◌≡◌, ◌∙◌, List, arith, length, drop, get_elem?, memcpy, length-memcpy,
  lt→ltb, ge→ltb, take_all,
}
use support_proxy.Ring.{VideoRing, write_pieces, u64_mod}
use support_proxy.Ring.Pieces.{
  one_piece_new, one_piece_old, two_piece_new, two_piece_old, first, filled, rest_fits, len_filled,
}
use native.Mathlib.Nat.{mod-lt}
use native.Mathlib.Decide.{dec_lt}

-- `h` is all that was written since the offsets started.
pub record Holds (r : VideoRing) (h : List ℕ) : Type 0 where
  pub room : 0 < length r.buf
  pub at_end : r.write_pos ≡ length h
  pub kept :
      (i : ℕ)
      → i < length h
      → length h ≤ i + length r.buf
      → get_elem? r.buf (i % length r.buf) ≡ get_elem? h i

module _ (r : VideoRing) (src : List ℕ) (room : 0 < length r.buf) where
  start_in : r.write_pos % length r.buf < length r.buf
  start_in = mod-lt r.write_pos room

  pieces_one :
      r.write_pos % length r.buf + length src ≤ length r.buf
      → (write_pieces r src).buf ≡ memcpy r.buf (r.write_pos % length r.buf) src
  unfolding write_pieces
  pieces_one h = rw (
    ge→ltb (length r.buf - r.write_pos % length r.buf) (length src) (omega (arith, start_in)),
    ge→ltb (length src) (length src) (omega arith),
    take_all (length src) src (omega arith),
  )

  pieces_two :
      (over : length r.buf < r.write_pos % length r.buf + length src)
      (short : length src ≤ length r.buf)
      → (write_pieces r src).buf
        ≡ memcpy
            (filled r.buf r.write_pos src over short room)
            0
            (drop (first r.buf r.write_pos src over short room) src)
  unfolding write_pieces filled first
  pieces_two over short = rw (
    lt→ltb (length r.buf - r.write_pos % length r.buf) (length src) (omega (arith, start_in)),
    lt→ltb (length r.buf - r.write_pos % length r.buf) (length src) (omega (arith, start_in)),
  )

  pub length-pieces : length src ≤ length r.buf → length (write_pieces r src).buf ≡ length r.buf
  length-pieces short = elim (dec_lt (length r.buf) (r.write_pos % length r.buf + length src)) [
    | yes over ↦ rw (pieces_two over short) (
        length-memcpy _ 0 _ (rest_fits r.buf r.write_pos src over short room)
        ∙ len_filled r.buf r.write_pos src over short room)
    | no fits ↦ rw (pieces_one (omega arith)) (length-memcpy r.buf _ src (omega arith))
  ]

  pub pieces_new :
      (j : ℕ)
      → length src ≤ length r.buf
      → j < length src
      → get_elem? (write_pieces r src).buf ((r.write_pos + j) % length r.buf) ≡ get_elem? src j
  pieces_new j short h = elim (dec_lt (length r.buf) (r.write_pos % length r.buf + length src)) [
    | yes over ↦
        rw (pieces_two over short) (two_piece_new r.buf r.write_pos src over short room j h)
    | no fits ↦
        rw (pieces_one (omega arith)) (one_piece_new r.buf r.write_pos src (omega arith) j h)
  ]

  pub pieces_old :
      (i d : ℕ)
      → i + d ≡ r.write_pos
      → 0 < d
      → 0 < length src
      → d + length src ≤ length r.buf
      → get_elem? (write_pieces r src).buf (i % length r.buf) ≡ get_elem? r.buf (i % length r.buf)
  pieces_old i d e pos some_src lap =
      elim (dec_lt (length r.buf) (r.write_pos % length r.buf + length src)) [
        | yes over ↦ rw (pieces_two over (omega arith)) (
            two_piece_old r.buf r.write_pos src over (omega arith) room i d e pos lap (omega arith))
        | no fits ↦
            rw (pieces_one (omega arith))
              (one_piece_old r.buf r.write_pos src (omega arith) i d e pos lap (omega arith))
      ]

  pub write_pos-pieces :
      r.write_pos + length src < u64_mod → (write_pieces r src).write_pos ≡ r.write_pos + length src
  unfolding write_pieces
  write_pos-pieces h = omega arith
