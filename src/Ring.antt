-- ===== src/Ring.antt =====
-- videostream.cpp, videostream.h: the ring that buffers one slot's stream. Offsets are the
-- absolute ones of the stream, 64 bits wide.
pub mod Pieces
pub mod Holds
pub mod Stream
pub mod Window
use support_proxy.Base.{
  ℕ, ◌+◌, ◌-◌, ◌%◌, ◌*◌, ◌^◌, ◌≡◌, refl, Bool, true, ◌&&◌, ◌||◌, not, List, [], ◌∷◌, ◌++◌, ltb, leb,
  ◌==◌, if◌then◌else◌, length, take, drop, replicate, memcpy,
}

abbrev pub u64_mod : ℕ
u64_mod = 2 ^ 64

pub record VideoRing : Type 0 where
  pub buf : List ℕ
  pub write_pos : ℕ

pub init : VideoRing → ℕ → VideoRing × Bool
init r bytes =
    let size = if ltb bytes 4096 then 4096 else bytes in
    (record { buf = replicate size 0; write_pos = 0 }, true)

-- The copy proper, of at most a ring's worth of bytes, in one piece or in two.
pub write_pieces : VideoRing → List ℕ → VideoRing
write_pieces r src =
    let cap = length r.buf in
    let n = length src in
    let start = r.write_pos % cap in
    let first = if ltb (cap - start) n then cap - start else n in
    let filled = memcpy r.buf start (take first src) in
    record {
      buf = if ltb first n then memcpy filled 0 (drop first src) else filled;
      write_pos = (r.write_pos + n) % u64_mod;
    }

pub write : VideoRing → List ℕ → VideoRing
write r src =
    let cap = length r.buf in
    let n = length src in
    if cap == 0 || n == 0
    then r
    else if leb cap n
    then write_pieces (record r { write_pos = (r.write_pos + (n - cap)) % u64_mod })
        (drop (n - cap) src)
    else write_pieces r src

pub oldest : VideoRing → ℕ
oldest r = let cap = length r.buf in if ltb cap r.write_pos then r.write_pos - cap else 0

pub resident : VideoRing → ℕ → Bool
unfolding oldest
resident r pos = leb (oldest r) pos && leb pos r.write_pos

-- The copy to `out` of `avail` bytes that are there, in one piece or in two.
pub read_pieces : VideoRing → ℕ → ℕ → ℕ × List ℕ
read_pieces r pos avail =
    let cap = length r.buf in
    let start = pos % cap in
    let first = if ltb (cap - start) avail then cap - start else avail in
    let head = take first (drop start r.buf) in
    if ltb first avail then (avail, head ++ take (avail - first) r.buf) else (avail, head)

-- The count that the call returns, with the bytes that it leaves in `out`.
pub read_at : VideoRing → ℕ → ℕ → ℕ × List ℕ
read_at r pos n =
    let cap = length r.buf in
    let avail64 = r.write_pos - pos in
    let avail = if ltb n avail64 then n else avail64 in
    if cap == 0 || not (resident r pos)
    then (0, [])
    else if avail == 0
    then (0, [])
    else read_pieces r pos avail

-- Keeps the bytes and restarts the offsets.
pub reset : VideoRing → VideoRing
reset r = record r { write_pos = 0 }
