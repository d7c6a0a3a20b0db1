-- ===== src/Bin.antt =====
-- The disk image with gaps and checksums, as fds.cpp builds it from an .FDS or a Game Doctor file:
-- `copy_block`, `fds_to_bin` and `gameDoctor_to_bin`.
pub mod Layout
pub mod Block
pub mod Files
pub mod Convert
pub mod Copy
pub mod Disk
pub mod Safety
pub mod Bounds
mod Tests
use fdsstick.Base.{ℕ, zero, suc, ◌+◌, ◌*◌, ◌/◌, ◌^◌, bit_or, List, [], ◌∷◌, Bool, true, false}
use fdsstick.Base.{Run, ok, stuck, ◌>>=◌, read, write, read_range, write_range, replicate}
use fdsstick.Base.{if◌then◌else◌, ltb, ◌==◌, u8, length}
use fdsstick.Crc.{calc_crc}

-- `GAP=976/8-1`
abbrev pub gap_bytes : ℕ
gap_bytes = 121

-- `copy_block(dst+o, src+i, size)`. The checksum runs over two bytes more than were copied.
pub copy_block : List ℕ → ℕ → List ℕ → ℕ → ℕ → Run (List ℕ)
copy_block dst o src i size = do
  marked ← write dst o 0x80
  bytes ← read_range src i size
  copied ← write_range marked (o + 1) bytes
  covered ← read_range copied (o + 1) (size + 2)
  let crc = calc_crc covered
  low ← write copied (o + size + 1) (u8 crc)
  write low (o + size + 2) (u8 (crc / 2 ^ 8))

-- The tests of `src[i]` against a value, joined by `||` over `!=`: they stop at the first that fails.
pub check_bytes : List ℕ → List (ℕ × ℕ) → Run Bool
check_bytes src [] = ok true
check_bytes src ((i, v) ∷ more) = do
  b ← read src i
  elim (b == v) [ true ↦ check_bytes src more | false ↦ ok false ]

-- The loop over the blocks 3 and 4, with the `skip` bytes that follow each block in the file: none
-- in an .FDS file, two in a Game Doctor file. The pair is the value returned and the buffer.
pub copy_files : ℕ → ℕ → ℕ → List ℕ → ℕ → List ℕ → ℕ → Run (ℕ × List ℕ)
copy_files zero skip dst_size dst o src i = stuck
copy_files (suc fuel) skip dst_size dst o src i = do
  kind ← read src i
  elim (kind == 3) [
    | false ↦ ok (o, dst)
    | true ↦ do
      lo ← read src (i + 13)
      hi ← read src (i + 14)
      let size = bit_or lo (hi * 2 ^ 8) + 1
      elim (ltb dst_size (o + 16 + 3 + gap_bytes + size + 3)) [
        | true ↦ ok (0, dst)
        | false ↦ do
          headed ← copy_block dst o src i 16
          filled ← copy_block headed (o + 16 + 3 + gap_bytes) src (i + 16 + skip) size
          copy_files fuel skip dst_size filled (o + 16 + 3 + gap_bytes + size + 3 + gap_bytes) src
              (i + 16 + skip + size + skip)
      ]
  ]

-- What both conversions do once the header is accepted, from the block 1 at `src[i]` on.
pub copy_disk : ℕ → ℕ → ℕ → List ℕ → List ℕ → ℕ → Run (ℕ × List ℕ)
copy_disk fuel skip dst_size dst src i = do
  cleared ← write_range dst 0 (replicate dst_size 0)
  first ← copy_block cleared 0 src i 0x38
  second ← copy_block first (0x38 + 3 + gap_bytes) src (i + 0x38 + skip) 2
  copy_files fuel skip dst_size second (0x38 + 3 + gap_bytes + 2 + 3 + gap_bytes) src
      (i + 0x38 + skip + 2 + skip)

-- The fuel is the length of the file, since each round of the loop moves on in it.
pub fds_to_bin : List ℕ → List ℕ → ℕ → Run (ℕ × List ℕ)
fds_to_bin dst src dst_size = do
  is_fds ← check_bytes src ((0, 0x01) ∷ (1, 0x2a) ∷ (2, 0x4e) ∷ [])
  elim is_fds [ false ↦ ok (0, dst) | true ↦ copy_disk (length src) 0 dst_size dst src 0 ]

pub game_doctor_to_bin : List ℕ → List ℕ → ℕ → Run (ℕ × List ℕ)
game_doctor_to_bin dst src dst_size = do
  is_gd ← check_bytes src ((3, 0x01) ∷ (4, 0x2a) ∷ (5, 0x4e) ∷ (0x3d, 0x02) ∷ [])
  elim is_gd [ false ↦ ok (0, dst) | true ↦ copy_disk (length src) 2 dst_size dst src 3 ]
