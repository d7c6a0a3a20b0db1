-- ===== src/Crc/Tests.antt =====
-- Runs of the checksum, and its theorems at concrete messages.
use fdsstick.Base.{ℕ, ◌+◌, ◌*◌, ◌≡◌, ◌≢◌, ◌↔◌, refl, arith, [], ◌∷◌}
use fdsstick.Crc.{calc_crc, crc_bytes, crc_byte, crc_shifts, crc_shift}
use fdsstick.Crc.Check.{calc_crc-append_iff, calc_crc-ne}

amount_crc : calc_crc (2 ∷ 1 ∷ 0 ∷ 0 ∷ []) ≡ 0x2ed5
unfolding calc_crc crc_bytes crc_byte crc_shifts crc_shift
amount_crc = refl

calc_crc-append_iff_example :
    (calc_crc (2 ∷ 1 ∷ 0xd5 ∷ 0x2e ∷ []) ≡ 0) ↔ (0xd5 + 0x2e * 256 ≡ calc_crc (2 ∷ 1 ∷ 0 ∷ 0 ∷ []))
calc_crc-append_iff_example =
    calc_crc-append_iff (2 ∷ 1 ∷ []) 0xd5 0x2e (omega arith) (omega arith) (omega arith)

two-ne-three : ◌≢◌ {A = ℕ} 2 3
two-ne-three = omega arith

calc_crc-ne_example : calc_crc (1 ∷ 2 ∷ 9 ∷ []) ≢ calc_crc (1 ∷ 3 ∷ 9 ∷ [])
calc_crc-ne_example =
    calc_crc-ne (1 ∷ []) 2 3 (9 ∷ []) (omega arith) (omega arith) (omega arith) (omega arith)
      two-ne-three
