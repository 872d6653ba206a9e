-- ===== src/KeyDb/Slots/Options.antt =====
-- The options of a slot are a byte of their own.
use support_proxy.Base.{ℕ, zero, suc, ◌-◌, ◌%◌, ◌^◌, ◌<◌, ◌≡◌, arith, if◌then◌else◌, ltb, ◌==◌}
use support_proxy.KeyDb.Slots.{
  slot_shift, byte_at, video_slot_opts_split, video_slot_opts_set, video_entry_opts,
}

-- The bytes of a word after one of them is set.
set_byte :
    (word i j opts : ℕ)
    → word < 2 ^ 32
    → i < 4
    → j < 4
    → byte_at (video_slot_opts_set word i opts) (slot_shift j)
      ≡ (if i == j then opts % 256 else byte_at word (slot_shift j))
unfolding video_slot_opts_set
set_byte word zero zero opts w hi hj = omega arith
set_byte word zero (suc zero) opts w hi hj = omega arith
set_byte word zero (suc (suc zero)) opts w hi hj = omega arith
set_byte word zero (suc (suc (suc zero))) opts w hi hj = omega arith
set_byte word zero (suc (suc (suc (suc j)))) opts w hi hj = absurd (omega arith)
set_byte word (suc zero) zero opts w hi hj = omega arith
set_byte word (suc zero) (suc zero) opts w hi hj = omega arith
set_byte word (suc zero) (suc (suc zero)) opts w hi hj = omega arith
set_byte word (suc zero) (suc (suc (suc zero))) opts w hi hj = omega arith
set_byte word (suc zero) (suc (suc (suc (suc j)))) opts w hi hj = absurd (omega arith)
set_byte word (suc (suc zero)) zero opts w hi hj = omega arith
set_byte word (suc (suc zero)) (suc zero) opts w hi hj = omega arith
set_byte word (suc (suc zero)) (suc (suc zero)) opts w hi hj = omega arith
set_byte word (suc (suc zero)) (suc (suc (suc zero))) opts w hi hj = omega arith
set_byte word (suc (suc zero)) (suc (suc (suc (suc j)))) opts w hi hj = absurd (omega arith)
set_byte word (suc (suc (suc zero))) zero opts w hi hj = omega arith
set_byte word (suc (suc (suc zero))) (suc zero) opts w hi hj = omega arith
set_byte word (suc (suc (suc zero))) (suc (suc zero)) opts w hi hj = omega arith
set_byte word (suc (suc (suc zero))) (suc (suc (suc zero))) opts w hi hj = omega arith
set_byte word (suc (suc (suc zero))) (suc (suc (suc (suc j)))) opts w hi hj = absurd (omega arith)
set_byte word (suc (suc (suc (suc i)))) j opts w hi hj = absurd (omega arith)

-- The two words after a slot of the entry is given new options.
abbrev pub with_slot_opts : ℕ → ℕ → ℕ → ℕ → ℕ × ℕ
with_slot_opts lo hi slot opts =
    if ltb slot 3
    then (video_slot_opts_set lo slot opts, hi)
    else (lo, video_slot_opts_set hi (slot - 3) opts)

-- Giving a slot new options, in the word and byte that hold it, makes its options the low byte of
-- `opts`, and leaves those of the other four slots and the entry-wide options as they were.
pub set_slot_opts :
    (lo hi slot other opts : ℕ)
    → lo < 2 ^ 32
    → hi < 2 ^ 32
    → slot < 5
    → other < 5
    → let words = with_slot_opts lo hi slot opts in
      (video_slot_opts_split words.0 words.1 other
        ≡ (if slot == other then opts % 256 else video_slot_opts_split lo hi other))
      × (video_entry_opts words.0 ≡ video_entry_opts lo)
unfolding video_slot_opts_split video_entry_opts
set_slot_opts lo hi slot other opts wl wh hs ho = (
  ground (arith, set_byte lo slot other opts wl, set_byte hi (slot - 3) (other - 3) opts wh),
  ground (arith, set_byte lo slot 3 opts wl),
)
