-- ===== src/Bin/Bounds.antt =====
-- The space check of the conversions keeps every access inside the buffers.
use fdsstick.Base.{ltb→le}
use fdsstick.Base.{ℕ, zero, suc, ◌+◌, ◌*◌, ◌/◌, ◌^◌, ◌≤◌, ◌<◌, ◌≡◌, arith}
use fdsstick.Base.{List, [], ◌∷◌, length, replicate, length-replicate, true, false, bit_or, u8}
use fdsstick.Base.{All, >>=-Returns, Returns, Returns-mono, ◌==◌, ltb}
use fdsstick.Base.{read, write, read_range, write_range}
use fdsstick.Base.Inside.{
  read-Returns, write-Returns, read_range-Returns, write_range-Returns, branch-Returns,
}
use fdsstick.Crc.{calc_crc}
use fdsstick.Bin.Copy.{head_room}
use fdsstick.Bin.{copy_block, copy_files, copy_disk, check_bytes, gap_bytes, fds_to_bin}
use fdsstick.Bin.{game_doctor_to_bin}

-- A block that lies inside both buffers is copied.
copy_block-Returns :
    (dst : List ℕ) (o : ℕ) (src : List ℕ) (i size : ℕ)
    → o + size + 3 ≤ length dst
    → i + size ≤ length src
    → Returns (copy_block dst o src i size) (λ out. length out ≡ length dst)
unfolding copy_block
copy_block-Returns dst o src i size ho hi =
    >>=-Returns _ _ (write dst o 0x80) _ (write-Returns dst o 0x80 (omega arith)) λ marked h1.
      >>=-Returns _ _ (read_range src i size) _ (read_range-Returns src i size hi) λ bytes h2.
        >>=-Returns _ _ (write_range marked (o + 1) bytes) _
          (write_range-Returns marked (o + 1) bytes (omega (arith, h1, h2)))
          λ copied h3.
            >>=-Returns _ _ (read_range copied (o + 1) (size + 2)) _
              (read_range-Returns copied (o + 1) (size + 2) (omega (arith, h1, h3)))
              λ covered h4.
                >>=-Returns _ _ (write copied (o + size + 1) (u8 (calc_crc covered))) _
                  (write-Returns copied (o + size + 1) _ (omega (arith, h1, h3)))
                  λ low h5.
                    Returns-mono _ _ (write low (o + size + 2) (u8 (calc_crc covered / 2 ^ 8)))
                      (write-Returns low (o + size + 2) _ (omega (arith, h1, h3, h5)))
                      λ out h6. omega (arith, h1, h3, h5, h6)

module _ (skip n : ℕ) (src : List ℕ) (few : skip ≤ 2) (long : n ≤ length src) where
  abbrev Fits : ℕ × List ℕ → Type 0
  Fits r = (r.0 ≤ n + gap_bytes) × (length r.1 ≡ n)

  -- The output is ahead of the input, so the check on it keeps the reads inside too.
  copy_files-Returns :
      (fuel o i : ℕ) (dst : List ℕ)
      → length dst ≡ n
      → o ≤ n + gap_bytes
      → i + 241 ≤ o
      → n + gap_bytes < o + fuel
      → Returns (copy_files fuel skip n dst o src i) Fits
  unfolding copy_files
  copy_files-Returns zero o i dst hd ho hi hf = absurd (omega arith)
  copy_files-Returns (suc fuel) o i dst hd ho hi hf =
      >>=-Returns _ Fits (read src i) _ (read-Returns src i (omega arith)) λ kind t.
        branch-Returns Fits (kind == 3) _ _
          (λ e.
            >>=-Returns _ Fits (read src (i + 13)) _ (read-Returns src (i + 13) (omega arith))
              λ lo u.
                >>=-Returns _ Fits (read src (i + 14)) _ (read-Returns src (i + 14) (omega arith))
                  λ hi_byte v.
                    let size = bit_or lo (hi_byte * 2 ^ 8) + 1 in
                    branch-Returns Fits (ltb n (o + 16 + 3 + gap_bytes + size + 3)) _ _
                      (λ full. (omega arith, hd))
                      λ room.
                        let inside = ltb→le n (o + 16 + 3 + gap_bytes + size + 3) room in
                        >>=-Returns (λ out. length out ≡ n) Fits (copy_block dst o src i 16) _
                          (copied dst o i 16 hd (omega (arith, inside)) (omega (arith, inside)))
                          λ headed h1.
                            >>=-Returns (λ out. length out ≡ n) Fits
                              (copy_block headed (o + 16 + 3 + gap_bytes) src (i + 16 + skip) size)
                              _
                              (copied headed (o + 16 + 3 + gap_bytes) (i + 16 + skip) size h1 inside
                                (omega (arith, inside)))
                              λ filled h2.
                                copy_files-Returns fuel
                                  (o + 16 + 3 + gap_bytes + size + 3 + gap_bytes)
                                  (i + 16 + skip + size + skip) filled h2 (omega (arith, inside))
                                  (omega arith) (omega arith))
          (λ e. (ho, hd))
    where
      copied :
          (dst : List ℕ) (o i size : ℕ)
          → length dst ≡ n
          → o + size + 3 ≤ n
          → i + size ≤ n
          → Returns (copy_block dst o src i size) (λ out. length out ≡ n)
      copied dst o i size hd ho hi =
          Returns-mono _ _ (copy_block dst o src i size)
            (copy_block-Returns dst o src i size (omega (arith, hd)) (omega arith))
            λ out h. omega (arith, h, hd)

  copy_disk-Returns :
      (fuel i : ℕ) (dst : List ℕ)
      → length dst ≡ n
      → head_room ≤ n
      → i ≤ 3
      → n ≤ fuel
      → Returns (copy_disk fuel skip n dst src i) Fits
  unfolding copy_disk
  copy_disk-Returns fuel i dst hd hr hi hf =
      >>=-Returns _ Fits (write_range dst 0 (replicate n 0)) _
        (write_range-Returns dst 0 (replicate n 0)
          (omega (arith, hd, length-replicate {A = ℕ} n 0)))
        λ cleared h1.
          >>=-Returns _ Fits (copy_block cleared 0 src i 0x38) _
            (copy_block-Returns cleared 0 src i 0x38 (omega (arith, h1, hd)) (omega arith))
            λ first h2.
              >>=-Returns _ Fits (copy_block first (0x38 + 3 + gap_bytes) src (i + 0x38 + skip) 2) _
                (copy_block-Returns first (0x38 + 3 + gap_bytes) src (i + 0x38 + skip) 2
                  (omega (arith, h1, h2, hd)) (omega arith))
                λ second h3.
                  copy_files-Returns fuel (0x38 + 3 + gap_bytes + 2 + 3 + gap_bytes)
                    (i + 0x38 + skip + 2 + skip) second (omega (arith, h1, h2, h3, hd))
                    (omega arith) (omega arith) (omega arith)

-- The tests of bytes inside the input return.
check_bytes-Returns :
    (src : List ℕ) (n : ℕ)
    → n ≤ length src
    → (tests : List (ℕ × ℕ)) → All (λ t. t.0 < n) tests
    → Returns (check_bytes src tests) (λ b. Unit {0})
unfolding check_bytes
check_bytes-Returns src n long [] h = tt
check_bytes-Returns src n long ((i, v) ∷ more) h =
    >>=-Returns _ (λ b. Unit {0}) (read src i) _ (read-Returns src i (omega (arith, h.0)))
      λ b t.
        branch-Returns (λ b. Unit {0}) (b == v) _ _ (λ e. check_bytes-Returns src n long more (h.1))
          (λ e. tt)

-- For any input that is at least as long as the output, well formed or not, and an output with
-- room for the blocks 1 and 2, `fds_to_bin` returns: the space check keeps every access inside
-- both buffers, whatever sizes the file headers hold. The value returned exceeds the size of the
-- output by one gap at most, and the output keeps its size.
pub fds_to_bin-Returns :
    (dst src : List ℕ) (n : ℕ)
    → length dst ≡ n
    → head_room ≤ n
    → n ≤ length src
    → Returns (fds_to_bin dst src n) (λ r. (r.0 ≤ n + gap_bytes) × (length r.1 ≡ n))
unfolding fds_to_bin
fds_to_bin-Returns dst src n hd hr long =
    >>=-Returns (λ b. Unit {0}) _ (check_bytes src ((0, 0x01) ∷ (1, 0x2a) ∷ (2, 0x4e) ∷ [])) _
      (check_bytes-Returns src n long ((0, 0x01) ∷ (1, 0x2a) ∷ (2, 0x4e) ∷ [])
        (omega arith, (omega arith, (omega arith, tt))))
      (elim [
        | false ↦ λ h. (omega arith, hd)
        | true ↦ λ h.
            copy_disk-Returns 0 n src (omega arith) long (length src) 0 dst hd hr (omega arith) long
      ])

-- For any input that is at least as long as the output, well formed or not, and an output with
-- room for the blocks 1 and 2, `game_doctor_to_bin` returns: the space check keeps every access
-- inside both buffers, whatever sizes the file headers hold. The value returned exceeds the size
-- of the output by one gap at most, and the output keeps its size.
pub game_doctor_to_bin-Returns :
    (dst src : List ℕ) (n : ℕ)
    → length dst ≡ n
    → head_room ≤ n
    → n ≤ length src
    → Returns (game_doctor_to_bin dst src n) (λ r. (r.0 ≤ n + gap_bytes) × (length r.1 ≡ n))
unfolding game_doctor_to_bin
game_doctor_to_bin-Returns dst src n hd hr long =
    >>=-Returns (λ b. Unit {0}) _
      (check_bytes src ((3, 0x01) ∷ (4, 0x2a) ∷ (5, 0x4e) ∷ (0x3d, 0x02) ∷ [])) _
      (check_bytes-Returns src n long ((3, 0x01) ∷ (4, 0x2a) ∷ (5, 0x4e) ∷ (0x3d, 0x02) ∷ [])
        (omega arith, (omega arith, (omega arith, (omega arith, tt)))))
      (elim [
        | false ↦ λ h. (omega arith, hd)
        | true ↦ λ h.
            copy_disk-Returns 2 n src (omega arith) long (length src) 3 dst hd hr (omega arith) long
      ])
