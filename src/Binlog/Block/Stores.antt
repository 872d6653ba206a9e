-- ===== src/Binlog/Block/Stores.antt =====
-- The way through handle_block on which a block is stored.
use support_proxy.Base.{ℕ, ◌+◌, ◌≤◌, ◌≡◌, true, false, [], ◌∷◌, ◌++◌, Option, none, some, arith}
use support_proxy.Binlog.{BinlogWriter, block_bytes, max_forward_jump_bytes}
use support_proxy.Binlog.Block.{
  Block, System, prospective_size, needed, make_room, latched, counted, recorded, write_block,
  store_block, restarts, gate, handle_block,
}

-- The system lets a block be stored in the file that is open.
pub record Allows (b : BinlogWriter) (sys : System) (m : Block) : Type 0 where
  pub near : prospective_size b m.seqno ≤ b.current_file_size + max_forward_jump_bytes
  pub within_quota : needed (make_room b sys) sys ≤ sys.quota
  pub seek : sys.seeks ≡ true
  pub whole : sys.wrote ≡ block_bytes

write_block_acks :
    (b : BinlogWriter) (sys : System) (m : Block) (file : ℕ → ℕ)
    → sys.seeks ≡ true
    → sys.wrote ≡ block_bytes
    → (write_block b sys m file).pending_acks ≡ b.pending_acks ++ (m.seqno ∷ [])
unfolding write_block recorded counted
write_block_acks b sys m file s w = ground (arith, s, w)

store_block_acks :
    (b : BinlogWriter) (sys : System) (m : Block) (file : ℕ → ℕ)
    → Allows b sys m
    → (store_block b sys m file).pending_acks ≡ b.pending_acks ++ (m.seqno ∷ [])
unfolding store_block latched make_room
store_block_acks b sys m file a =
    let w = write_block_acks (latched (make_room b sys) m) sys m file a.seek a.whole in
    ground (arith, w, a.near, a.within_quota)

gate_acks :
    (b : BinlogWriter) (sys : System) (m : Block) (f : Option (ℕ → ℕ)) (file : ℕ → ℕ)
    → f ≡ some file
    → Allows b sys m
    → (gate b sys m f).pending_acks ≡ b.pending_acks ++ (m.seqno ∷ [])
unfolding gate
gate_acks b sys m none file e a = cc
gate_acks b sys m (some g) file e a = store_block_acks b sys m g a

-- A block for a file that is open, and that is not the block 0 of a reboot, is put behind the ACKs
-- that wait if its place is at most 100 MiB behind the end of the file, the quota has room for
-- it after the cleanup, the seek works and all 200 bytes are written.
pub handle_block_acks :
    (b : BinlogWriter) (sys : System) (m : Block) (file : ℕ → ℕ)
    → b.fp ≡ some file
    → restarts b m ≡ false
    → Allows b sys m
    → (handle_block b sys m).pending_acks ≡ b.pending_acks ++ (m.seqno ∷ [])
unfolding handle_block
handle_block_acks b sys m file f r a = rw r (gate_acks b sys m b.fp file f a)
