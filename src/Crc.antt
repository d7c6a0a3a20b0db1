-- ===== src/Crc.antt =====
-- The checksum of a disk block: `calc_crc` of fds.cpp.
pub mod Linear
pub mod Check
mod Tests
use fdsstick.Base.{ℕ, ◌*◌, ◌/◌, ◌%◌, ◌^◌, bit_and, bit_or, bit_xor, List, [], ◌∷◌, zero, suc}
use fdsstick.Base.{if◌then◌else◌, ◌==◌, u16, ◌+◌}

-- One round of the inner loop: `if (crc & 1) crc ^= 0x10810; crc >>= 1;`
pub crc_shift : ℕ → ℕ
crc_shift crc = (if bit_and crc 1 == 1 then bit_xor crc 0x10810 else crc) / 2

pub crc_shifts : ℕ → ℕ → ℕ
crc_shifts zero crc = crc
crc_shifts (suc n) crc = crc_shifts n (crc_shift crc)

-- One round of the outer loop. The shift is done in `int` on a byte, so it loses nothing.
pub crc_byte : ℕ → ℕ → ℕ
crc_byte crc byte = crc_shifts 8 (bit_or crc (byte * 2 ^ 16))

pub crc_bytes : ℕ → List ℕ → ℕ
crc_bytes crc [] = crc
crc_bytes crc (b ∷ buf) = crc_bytes (crc_byte crc b) buf

-- The list is the `size` bytes from `buf` on; the result is cut to a `uint16_t`.
pub calc_crc : List ℕ → ℕ
calc_crc buf = u16 (crc_bytes 0x8000 buf)
