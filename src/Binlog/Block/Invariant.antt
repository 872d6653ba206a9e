-- ===== src/Binlog/Block/Invariant.antt =====
-- The books of the writer: what is acknowledged was seen, what is asked for again is missing.
use support_proxy.Base.{
  ℕ, ◌+◌, ◌-◌, ◌*◌, ◌%◌, ◌≤◌, ◌≡◌, refl, sym, ap, ◌∙◌, subst, Bool, true, false, not, List, [], ◌∷◌,
  ◌++◌, Option, none, some, arith, inl, inr, ltb, leb, ◌==◌, if◌then◌else◌, take, All, Bool-cases,
}
use support_proxy.Binlog.{BinlogWriter, new_writer, u32_mod, block_bytes, max_forward_jump_bytes}
use support_proxy.Binlog.Seen.{bit_at, seqno_seen, mark_seqno_seen}
use support_proxy.Binlog.Seen.Laws.{
  Bytewise, nil-Bytewise, mark_seqno_seen-Bytewise, seqno_seen-mark,
}
use support_proxy.Binlog.Gaps.{erase_nack}
use support_proxy.Binlog.Gaps.Walk.{Missing, erase_nack-Missing, queue_gap_nacks-Missing}
use support_proxy.Binlog.Reboot.{rotate_for_reboot}
use support_proxy.Binlog.Block.{
  Block, System, opened, started, gated, prospective_size, needed, make_room, latched, counted,
  jumps_ahead, with_gaps, recorded, written, write_block, store_block, restarts, gate, handle_block,
}

abbrev pub Seen : List ℕ → ℕ → Type 0
Seen bitmap s = seqno_seen bitmap s ≡ true

pub record Books (b : BinlogWriter) : Type 0 where
  pub bitmap_bytes : Bytewise b.seen_bitmap
  pub acks_seen : All (Seen b.seen_bitmap) b.pending_acks
  pub nacks_missing : All (Missing b.seen_bitmap b.highest_seen) b.nack_state
  pub seen_below : (s : ℕ) → seqno_seen b.seen_bitmap s ≡ true → s ≤ b.highest_seen

-- A writer whose books are those of another.
pub record SameBooks (a b : BinlogWriter) : Type 0 where
  pub same_bitmap : b.seen_bitmap ≡ a.seen_bitmap
  pub same_acks : b.pending_acks ≡ a.pending_acks
  pub same_nacks : b.nack_state ≡ a.nack_state
  pub same_highest : b.highest_seen ≡ a.highest_seen

pub SameBooks-Books : (a b : BinlogWriter) → SameBooks a b → Books a → Books b
SameBooks-Books a b s k = record {
  bitmap_bytes = subst Bytewise (sym s.same_bitmap) k.bitmap_bytes;
  acks_seen = rw (s.same_bitmap, s.same_acks) k.acks_seen;
  nacks_missing = rw (s.same_bitmap, s.same_nacks, s.same_highest) k.nacks_missing;
  seen_below =
      λ q e. rw s.same_highest (k.seen_below q (ap (λ m. seqno_seen m q) (sym s.same_bitmap) ∙ e));
}

acks_grow :
    (bitmap : List ℕ) (q : ℕ) (acks : List ℕ)
    → Bytewise bitmap
    → All (Seen bitmap) acks
    → All (Seen (mark_seqno_seen bitmap q)) (acks ++ (q ∷ []))
acks_grow bitmap q [] bytes a = (ground (arith, seqno_seen-mark bitmap q q bytes), tt)
acks_grow bitmap q (s ∷ acks) bytes (h, a) =
    (ground (arith, seqno_seen-mark bitmap q s bytes, h), acks_grow bitmap q acks bytes a)

with_gaps-Missing :
    (b : BinlogWriter) (q now : ℕ)
    → Books b
    → let high = if leb b.highest_seen q then q else b.highest_seen in
      All (Missing (mark_seqno_seen b.seen_bitmap q) high) (with_gaps b q now)
unfolding with_gaps jumps_ahead
with_gaps-Missing b q now k =
    let high = if leb b.highest_seen q then q else b.highest_seen in
    let marked = mark_seqno_seen b.seen_bitmap q in
    let from = (b.highest_seen + 1) % u32_mod in
    let erased =
      erase_nack-Missing b.seen_bitmap q b.highest_seen high b.nack_state k.bitmap_bytes
        (ground arith) k.nacks_missing in
    elim (Bool-cases (jumps_ahead b q)) [
      | inl e ↦ rw e (
          queue_gap_nacks-Missing marked now from (q - from) high (erase_nack b.nack_state q)
            (ground (arith, e)) erased)
      | inr e ↦ rw e erased
    ]

recorded-Books : (b : BinlogWriter) (q now : ℕ) → Books b → Books (recorded b q now)
unfolding recorded
recorded-Books b q now k = record {
  bitmap_bytes = mark_seqno_seen-Bytewise b.seen_bitmap q k.bitmap_bytes;
  acks_seen = acks_grow b.seen_bitmap q b.pending_acks k.bitmap_bytes k.acks_seen;
  nacks_missing = with_gaps-Missing b q now k;
  seen_below =
      λ s e. ground (arith, e, seqno_seen-mark b.seen_bitmap q s k.bitmap_bytes, k.seen_below s);
}

either_Books : (t : Bool) (x y : BinlogWriter) → Books x → Books y → Books (if t then x else y)
either_Books true x y k l = k
either_Books false x y k l = l

make_room-SameBooks : (b : BinlogWriter) (sys : System) → SameBooks b (make_room b sys)
unfolding make_room
make_room-SameBooks b sys = ground arith

latched-SameBooks : (b : BinlogWriter) (m : Block) → SameBooks b (latched b m)
unfolding latched
latched-SameBooks b m = ground arith

counted-SameBooks : (b : BinlogWriter) (sys : System) → SameBooks b (counted b sys)
unfolding counted
counted-SameBooks b sys = ground arith

gated-SameBooks : (b : BinlogWriter) (m : Block) → SameBooks b (gated b m)
unfolding gated
gated-SameBooks b m = ground arith

refiled-Books :
    (b : BinlogWriter) (f : Option (ℕ → ℕ)) (size : ℕ)
    → Books b
    → Books (record b { fp = f; current_file_size = size })
refiled-Books b f size k =
    SameBooks-Books b _
      (record { same_bitmap = refl; same_acks = refl; same_nacks = refl; same_highest = refl }) k

write_block-Books :
    (b : BinlogWriter) (sys : System) (m : Block) (file : ℕ → ℕ)
    → Books b
    → Books (write_block b sys m file)
unfolding write_block
write_block-Books b sys m file k =
    let file' = written file (m.seqno * block_bytes) (take sys.wrote m.bytes) in
    let sized : BinlogWriter = record b {
      fp = some file';
      current_file_size = prospective_size b m.seqno;
    } in
    either_Books (not sys.seeks) _ _ k (
      either_Books (not (sys.wrote == block_bytes)) _ _
        (refiled-Books b (some file') b.current_file_size k)
        (recorded-Books (counted sized sys) m.seqno sys.now (
          SameBooks-Books sized _ (counted-SameBooks sized sys)
            (refiled-Books b (some file') (prospective_size b m.seqno) k))))

store_block-Books :
    (b : BinlogWriter) (sys : System) (m : Block) (file : ℕ → ℕ)
    → Books b
    → Books (store_block b sys m file)
unfolding store_block
store_block-Books b sys m file k =
    let roomy = SameBooks-Books b (make_room b sys) (make_room-SameBooks b sys) k in
    either_Books (ltb max_forward_jump_bytes (prospective_size b m.seqno - b.current_file_size)) _ _
      k
      (either_Books (ltb sys.quota (needed (make_room b sys) sys)) _ _ roomy (
        write_block-Books (latched (make_room b sys) m) sys m file
          (SameBooks-Books (make_room b sys) _ (latched-SameBooks (make_room b sys) m) roomy)))

gate-Books :
    (b : BinlogWriter) (sys : System) (m : Block) (f : Option (ℕ → ℕ))
    → Books b
    → Books (gate b sys m f)
unfolding gate started opened
gate-Books b sys m (some file) k = store_block-Books b sys m file k
gate-Books b sys m none k =
    either_Books (not (m.seqno == 0)) _ _ (SameBooks-Books b _ (gated-SameBooks b m) k) (
      either_Books sys.opens _ _
        (store_block-Books (started b sys) sys m (λ i. 0)
          (SameBooks-Books b _
            (record {
              same_bitmap = refl;
              same_acks = refl;
              same_nacks = refl;
              same_highest = refl;
            })
            k))
        k)

pub rotate_for_reboot-Books : (b : BinlogWriter) → Books (rotate_for_reboot b)
unfolding rotate_for_reboot seqno_seen bit_at
rotate_for_reboot-Books b = record {
  bitmap_bytes = nil-Bytewise;
  acks_seen = tt;
  nacks_missing = tt;
  seen_below = λ s e. cc;
}

-- Handling a block, on every path, keeps the books: what waits for an acknowledgement was seen, and
-- what is asked for again was not seen and lies below the highest block.
pub handle_block-Books :
    (b : BinlogWriter) (sys : System) (m : Block) → Books b → Books (handle_block b sys m)
unfolding handle_block
handle_block-Books b sys m k =
    let b' = if restarts b m then rotate_for_reboot b else b in
    gate-Books b' sys m b'.fp (either_Books (restarts b m) _ _ (rotate_for_reboot-Books b) k)

pub new_writer-Books : (sysid : ℕ) → Books (new_writer sysid)
unfolding new_writer seqno_seen bit_at
new_writer-Books sysid = record {
  bitmap_bytes = nil-Bytewise;
  acks_seen = tt;
  nacks_missing = tt;
  seen_below = λ s e. cc;
}
