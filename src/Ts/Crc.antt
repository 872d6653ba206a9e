-- ===== src/Ts/Crc.antt =====
-- ts_crc32, with the entries of the table computed where they are used.
use support_proxy.Base.{
  ℕ, zero, suc, ◌*◌, ◌/◌, ◌%◌, ◌^◌, List, [], ◌∷◌, bit_and, bit_xor, has_bits, if◌then◌else◌,
}

-- `k` rounds of the inner loop of build_crc_table.
unfoldable pub table_rounds : ℕ → ℕ → ℕ
table_rounds zero c = c
table_rounds (suc k) c =
    table_rounds k
      (if has_bits c (2 ^ 31) then bit_xor (c * 2 % 2 ^ 32) 0x04C11DB7 else c * 2 % 2 ^ 32)

unfoldable pub crc_table : ℕ → ℕ
crc_table i = table_rounds 8 (i * 2 ^ 24)

unfoldable pub crc_over : ℕ → List ℕ → ℕ
crc_over crc [] = crc
crc_over crc (b ∷ bs) =
    crc_over (bit_xor (crc * 2 ^ 8 % 2 ^ 32) (crc_table (bit_and (bit_xor (crc / 2 ^ 24) b) 0xFF)))
      bs

unfoldable pub ts_crc32 : List ℕ → ℕ
ts_crc32 bytes = crc_over 0xFFFFFFFF bytes
