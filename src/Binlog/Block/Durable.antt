-- ===== src/Binlog/Block/Durable.antt =====
-- What is on the disk behind an acknowledgement.
use support_proxy.Base.{
  ℕ, ◌+◌, ◌-◌, ◌*◌, ◌≤◌, ◌<◌, ◌⊎◌, ◌≡◌, refl, ap, ◌∙◌, Bool, true, false, not, List, [], ◌∷◌, ◌++◌,
  Option, none, some, arith, inl, inr, ltb, leb, ◌==◌, if◌then◌else◌, length, take, take_all,
  get_elem?, get_elem?-none,
}
use support_proxy.Binlog.{BinlogWriter, block_bytes, max_forward_jump_bytes}
use support_proxy.Binlog.Reboot.{rotate_for_reboot}
use support_proxy.Binlog.Block.{
  Block, System, opened, started, gated, byte_or, written, prospective_size, needed, make_room,
  latched, counted, recorded, write_block, store_block, restarts, gate, handle_block,
}

-- The writer behind the test for a reboot.
abbrev pub rebased : BinlogWriter → Block → BinlogWriter
rebased b m = if restarts b m then rotate_for_reboot b else b

-- A file with nothing written has only zeros.
abbrev pub contents : Option (ℕ → ℕ) → ℕ → ℕ
contents none = λ i. 0
contents (some file) = file

-- The block has its place in the file that is open, everything else is as it was, and the ACK waits
-- behind the others.
pub record Stored (old : ℕ → ℕ) (m : Block) (acks : List ℕ) (c : BinlogWriter) : Type 0 where
  pub file : ℕ → ℕ
  pub is_open : c.fp ≡ some file
  pub acked : c.pending_acks ≡ acks ++ (m.seqno ∷ [])
  pub holds : (i v : ℕ) → get_elem? m.bytes i ≡ some v → file (m.seqno * block_bytes + i) ≡ v
  pub before : (j : ℕ) → j < m.seqno * block_bytes → file j ≡ old j
  pub behind : (j : ℕ) → m.seqno * block_bytes + block_bytes ≤ j → file j ≡ old j

abbrev pub Durable : (ℕ → ℕ) → Block → List ℕ → BinlogWriter → Type 0
Durable old m acks c = Stored old m acks c ⊎ (c.pending_acks ≡ acks)

written_at :
    (file : ℕ → ℕ) (offset : ℕ) (bytes : List ℕ) (i v : ℕ)
    → get_elem? bytes i ≡ some v
    → written file offset bytes (offset + i) ≡ v
unfolding written byte_or
written_at file offset bytes i v e =
    let k : offset + i - offset ≡ i = omega arith in
    let inside : leb offset (offset + i) ≡ true = ground arith in rw (inside, byte_or, k, e) refl

written_before :
    (file : ℕ → ℕ) (offset : ℕ) (bytes : List ℕ) (j : ℕ)
    → j < offset
    → written file offset bytes j ≡ file j
unfolding written
written_before file offset bytes j h =
    let outside : leb offset j ≡ false = ground arith in rw outside refl

written_behind :
    (file : ℕ → ℕ) (offset : ℕ) (bytes : List ℕ) (j : ℕ)
    → offset + length bytes ≤ j
    → written file offset bytes j ≡ file j
unfolding written byte_or
written_behind file offset bytes j h =
    let inside : leb offset j ≡ true = ground arith in
    rw (inside, byte_or, get_elem?-none bytes (j - offset) (omega arith)) refl

counted_frame : (b : BinlogWriter) (sys : System) → (counted b sys).fp ≡ b.fp
unfolding counted
counted_frame b sys = ground arith

counted_acks : (b : BinlogWriter) (sys : System) → (counted b sys).pending_acks ≡ b.pending_acks
unfolding counted
counted_acks b sys = ground arith

recorded-Stored :
    (b : BinlogWriter) (m : Block) (now : ℕ) (old : ℕ → ℕ) (acks : List ℕ)
    → b.pending_acks ≡ acks
    → length m.bytes ≡ block_bytes
    → b.fp ≡ some (written old (m.seqno * block_bytes) m.bytes)
    → Stored old m acks (recorded b m.seqno now)
unfolding recorded
recorded-Stored b m now old acks a full f = record {
  file = written old (m.seqno * block_bytes) m.bytes;
  is_open = f;
  acked = ap (λ l. l ++ (m.seqno ∷ [])) a;
  holds = written_at old (m.seqno * block_bytes) m.bytes;
  before = written_before old (m.seqno * block_bytes) m.bytes;
  behind = λ j h. written_behind old (m.seqno * block_bytes) m.bytes j (omega (arith, full, h));
}

either_Durable :
    (t : Bool) (old : ℕ → ℕ) (m : Block) (acks : List ℕ) (x y : BinlogWriter)
    → Durable old m acks x
    → (t ≡ false → Durable old m acks y)
    → Durable old m acks (if t then x else y)
either_Durable true old m acks x y k l = k
either_Durable false old m acks x y k l = l refl

write_block-Durable :
    (b : BinlogWriter) (sys : System) (m : Block) (file : ℕ → ℕ)
    → (acks : List ℕ) → b.pending_acks ≡ acks
    → length m.bytes ≡ block_bytes
    → Durable file m acks (write_block b sys m file)
unfolding write_block
write_block-Durable b sys m file acks a full =
    let size = prospective_size b m.seqno in
    let taken = take sys.wrote m.bytes in
    let sized : BinlogWriter = record b {
      fp = some (written file (m.seqno * block_bytes) taken);
      current_file_size = size;
    } in
    either_Durable (not sys.seeks) file m acks _ _ (inr a) (λ seeks.
      either_Durable (not (sys.wrote == block_bytes)) file m acks _ _ (inr a) (λ wrote.
        let all : sys.wrote ≡ 200 = ground (arith, wrote) in
        let same : taken ≡ m.bytes = rw all (take_all 200 m.bytes (omega (arith, full))) in
        let f =
          counted_frame sized sys
          ∙ ap (λ bytes. some (written file (m.seqno * block_bytes) bytes)) same in
        inl (
          recorded-Stored (counted sized sys) m sys.now file acks (counted_acks sized sys ∙ a) full
            f)))

make_room_frame :
    (b : BinlogWriter) (sys : System) → (make_room b sys).pending_acks ≡ b.pending_acks
unfolding make_room
make_room_frame b sys = ground arith

latched_frame : (b : BinlogWriter) (m : Block) → (latched b m).pending_acks ≡ b.pending_acks
unfolding latched
latched_frame b m = ground arith

store_block-Durable :
    (b : BinlogWriter) (sys : System) (m : Block) (file : ℕ → ℕ)
    → length m.bytes ≡ block_bytes
    → Durable file m b.pending_acks (store_block b sys m file)
unfolding store_block
store_block-Durable b sys m file full =
    let roomy = make_room b sys in
    let acks : (latched roomy m).pending_acks ≡ b.pending_acks =
      latched_frame roomy m ∙ make_room_frame b sys in
    either_Durable (ltb max_forward_jump_bytes (prospective_size b m.seqno - b.current_file_size))
      file m _ _ _ (inr refl)
      (λ near.
        either_Durable (ltb sys.quota (needed roomy sys)) file m _ _ _ (inr (make_room_frame b sys))
          (λ paid. write_block-Durable (latched roomy m) sys m file b.pending_acks acks full))

gated_frame : (b : BinlogWriter) (m : Block) → (gated b m).pending_acks ≡ b.pending_acks
unfolding gated
gated_frame b m = ground arith

gate-Durable :
    (b : BinlogWriter) (sys : System) (m : Block) (f : Option (ℕ → ℕ))
    → length m.bytes ≡ block_bytes
    → Durable (contents f) m b.pending_acks (gate b sys m f)
unfolding gate started opened
gate-Durable b sys m (some file) full = store_block-Durable b sys m file full
gate-Durable b sys m none full =
    either_Durable (not (m.seqno == 0)) (λ i. 0) m _ _ _ (inr (gated_frame b m))
      (λ first.
        either_Durable sys.opens (λ i. 0) m _ _ _
          (store_block-Durable (started b sys) sys m (λ i. 0) full) (λ shut. inr refl))

-- A full block either leaves the ACKs that wait as they are, or its ACK is put behind them; then it
-- stands at its place in the file that is open, and no other byte of the file has changed. The file
-- and the ACKs are those behind the test for a reboot, which drops both.
pub handle_block-Durable :
    (b : BinlogWriter) (sys : System) (m : Block)
    → length m.bytes ≡ block_bytes
    → let base = rebased b m in
      Durable (contents base.fp) m base.pending_acks (handle_block b sys m)
unfolding handle_block
handle_block-Durable b sys m full = gate-Durable (rebased b m) sys m (rebased b m).fp full
