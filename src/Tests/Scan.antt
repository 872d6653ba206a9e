-- ===== src/Tests/Scan.antt =====
-- The transport stream scanner on small inputs.
use support_proxy.Base.{ℕ, ◌≡◌, refl, true, some, List, [], ◌∷◌, arith}
use support_proxy.Ts.{PsiAssembler, TsScanner, empty_assembler, fresh_scanner}
use support_proxy.Ts.Crc.{table_rounds, crc_table, crc_over, ts_crc32}
use support_proxy.Ts.Psi.{
  psi_feed, after_pointer, append_payload, filled, read_length, with_length, finish,
}
use support_proxy.Ts.Psi.Starts.{psi_feed_checked}
use support_proxy.Ts.Feed.{feed}
use support_proxy.Ts.Feed.Total.{Held, feed_total}

abbrev half_a_section : PsiAssembler
half_a_section = record { buf = 0 ∷ 0xb0 ∷ 0x0d ∷ 0 ∷ []; want = 16; active = true }

-- A program association table: program 1 at PID 0x1000.
abbrev pat : List ℕ
pat =
    0x00 ∷ 0xb0 ∷ 0x0d ∷ 0x00 ∷ 0x01 ∷ 0xc1 ∷ 0x00 ∷ 0x00 ∷ 0x00 ∷ 0x01 ∷ 0xf0 ∷ 0x00 ∷ 0x2a ∷ 0xb1
    ∷ 0x04 ∷ 0xb2 ∷ []

psi_feed_checked_example : ts_crc32 pat ≡ 0
unfolding psi_feed after_pointer append_payload filled read_length with_length finish ts_crc32
    crc_over crc_table table_rounds
psi_feed_checked_example =
    psi_feed_checked empty_assembler (0 ∷ pat) true
      (record { asm = empty_assembler; section = some pat; errors = 0 }) pat refl refl

fresh_scanner-Held : Held fresh_scanner
unfolding fresh_scanner
fresh_scanner-Held = record {
  pat_held = omega arith;
  pmt_held = omega arith;
  partial_held = omega arith;
}

feed_total_example :
    (s' : TsScanner) × (feed fresh_scanner (1 ∷ 0x47 ∷ 2 ∷ []) 0 ≡ some s') × Held s'
feed_total_example = feed_total fresh_scanner (1 ∷ 0x47 ∷ 2 ∷ []) 0 fresh_scanner-Held
