-- ===== src/Bin/Safety.antt =====
-- The conversions on any input at all, well formed or not.
use native.Mathlib.Nat.{le_refl}
use fdsstick.Base.{ltb→le}
use fdsstick.Base.{ℕ, zero, suc, ◌+◌, ◌*◌, ◌/◌, ◌^◌, ◌≤◌, ◌<◌, ◌≡◌, arith}
use fdsstick.Base.{List, [], ◌∷◌, length, replicate, true, false, bit_or, u8, refl}
use fdsstick.Base.{>>=-Ensures, Ensures, Ensures-mono, ◌==◌, ltb, Bool-cases, inl, inr}
use fdsstick.Base.{read, write, read_range, write_range}
use fdsstick.Base.Access.{read-Ensures, write-Ensures, read_range-Ensures, write_range-Ensures}
use fdsstick.Crc.{calc_crc}
use fdsstick.Bin.{copy_block, copy_files, copy_disk, check_bytes, gap_bytes, fds_to_bin}

-- A block that could be copied lies inside both buffers.
pub copy_block-Ensures :
    (dst : List ℕ) (o : ℕ) (src : List ℕ) (i size : ℕ)
    → Ensures
        (λ out. (length out ≡ length dst) × (o + size + 3 ≤ length dst) × (i + size ≤ length src))
        (copy_block dst o src i size)
unfolding copy_block
copy_block-Ensures dst o src i size =
    >>=-Ensures _ _ (write dst o 0x80) _ (write-Ensures dst o 0x80) λ marked h1.
      >>=-Ensures _ _ (read_range src i size) _ (read_range-Ensures src i size) λ bytes h2.
        >>=-Ensures _ _ (write_range marked (o + 1) bytes) _
          (write_range-Ensures marked (o + 1) bytes)
          λ copied h3.
            >>=-Ensures _ _ (read_range copied (o + 1) (size + 2)) _
              (read_range-Ensures copied (o + 1) (size + 2))
              λ covered h4.
                >>=-Ensures _ _ (write copied (o + size + 1) (u8 (calc_crc covered))) _
                  (write-Ensures copied (o + size + 1) (u8 (calc_crc covered)))
                  λ low h5.
                    Ensures-mono _ _ (write low (o + size + 2) (u8 (calc_crc covered / 2 ^ 8)))
                      (write-Ensures low (o + size + 2) (u8 (calc_crc covered / 2 ^ 8)))
                      λ out h6. omega arith

module _ (skip n : ℕ) (src : List ℕ) where
  -- The fuel suffices for any file: each round moves on in it, and a read behind its end faults.
  pub copy_files-Ensures :
      (fuel o i : ℕ) (dst : List ℕ)
      → i ≤ length src + skip
      → length src + skip < i + fuel
      → o ≤ n + gap_bytes
      → Ensures
          (λ r. (r.0 ≤ n + gap_bytes) × (length r.1 ≡ length dst))
          (copy_files fuel skip n dst o src i)
  unfolding copy_files
  copy_files-Ensures zero o i dst hi hf ho = absurd (omega arith)
  copy_files-Ensures (suc fuel) o i dst hi hf ho =
      >>=-Ensures _ _ (read src i) _ (read-Ensures src i) λ kind h. elim (Bool-cases (kind == 3)) [
        | inr other ↦ rw other (ho, refl)
        | inl three ↦ rw three (
            >>=-Ensures _ _ (read src (i + 13)) _ (read-Ensures src (i + 13)) λ lo h1.
              >>=-Ensures _ _ (read src (i + 14)) _ (read-Ensures src (i + 14)) λ hi_byte h2.
                let size = bit_or lo (hi_byte * 2 ^ 8) + 1 in
                elim (Bool-cases (ltb n (o + 16 + 3 + gap_bytes + size + 3))) [
                  | inl full ↦ rw full (omega arith)
                  | inr room ↦ rw room (
                      >>=-Ensures _ _ (copy_block dst o src i 16) _
                        (copy_block-Ensures dst o src i 16)
                        λ headed h3.
                          >>=-Ensures _ _
                            (copy_block headed (o + 16 + 3 + gap_bytes) src (i + 16 + skip) size) _
                            (copy_block-Ensures headed (o + 16 + 3 + gap_bytes) src (i + 16 + skip)
                              size)
                            λ filled h4.
                              Ensures-mono _ _
                                (copy_files fuel skip n filled
                                  (o + 16 + 3 + gap_bytes + size + 3 + gap_bytes) src
                                  (i + 16 + skip + size + skip))
                                (copy_files-Ensures fuel
                                  (o + 16 + 3 + gap_bytes + size + 3 + gap_bytes)
                                  (i + 16 + skip + size + skip) filled (omega arith) (omega arith)
                                  (omega (arith, ltb→le n _ room)))
                                λ r h5. omega arith)
                ])
      ]

  pub copy_disk-Ensures :
      (fuel i : ℕ) (dst : List ℕ)
      → length src ≤ fuel
      → length dst ≡ n
      → Ensures (λ r. (r.0 ≤ n + gap_bytes) × (length r.1 ≡ n)) (copy_disk fuel skip n dst src i)
  unfolding copy_disk
  copy_disk-Ensures fuel i dst hf hd =
      >>=-Ensures _ _ (write_range dst 0 (replicate n 0)) _
        (write_range-Ensures dst 0 (replicate n 0))
        λ cleared h1.
          >>=-Ensures _ _ (copy_block cleared 0 src i 0x38) _
            (copy_block-Ensures cleared 0 src i 0x38)
            λ first h2.
              >>=-Ensures _ _ (copy_block first (0x38 + 3 + gap_bytes) src (i + 0x38 + skip) 2) _
                (copy_block-Ensures first (0x38 + 3 + gap_bytes) src (i + 0x38 + skip) 2)
                λ second h3.
                  Ensures-mono _ _
                    (copy_files fuel skip n second (0x38 + 3 + gap_bytes + 2 + 3 + gap_bytes) src
                      (i + 0x38 + skip + 2 + skip))
                    (copy_files-Ensures fuel (0x38 + 3 + gap_bytes + 2 + 3 + gap_bytes)
                      (i + 0x38 + skip + 2 + skip) second (omega arith) (omega arith) (omega arith))
                    λ r h4. omega arith

check_bytes-Ensures :
    (src : List ℕ) (tests : List (ℕ × ℕ)) → Ensures (λ b. Unit {0}) (check_bytes src tests)
unfolding check_bytes
check_bytes-Ensures src [] = tt
check_bytes-Ensures src ((i, v) ∷ more) = >>=-Ensures _ _ (read src i) _ (read-Ensures src i) λ b h.
    elim (Bool-cases (b == v)) [
      | inl same ↦ rw same (check_bytes-Ensures src more)
      | inr other ↦ rw other tt
    ]

-- On any input, well formed or not, `fds_to_bin` ends. If it makes no access outside its buffers,
-- the value returned exceeds the size of the output by one gap at most, and the output keeps its
-- size.
pub fds_to_bin-Ensures :
    (dst src : List ℕ) (n : ℕ)
    → length dst ≡ n
    → Ensures (λ r. (r.0 ≤ n + gap_bytes) × (length r.1 ≡ n)) (fds_to_bin dst src n)
unfolding fds_to_bin
fds_to_bin-Ensures dst src n hd =
    >>=-Ensures _ _ (check_bytes src ((0, 0x01) ∷ (1, 0x2a) ∷ (2, 0x4e) ∷ [])) _
      (check_bytes-Ensures src ((0, 0x01) ∷ (1, 0x2a) ∷ (2, 0x4e) ∷ []))
      (elim [
        | false ↦ λ h. omega arith
        | true ↦ λ h. copy_disk-Ensures 0 n src (length src) 0 dst (le_refl _) hd
      ])
