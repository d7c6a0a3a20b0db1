-- ===== src/Raw/Recover.antt =====
-- `raw03_to_fds` recovers the side that a disk holds.
use fdsstick.Base.{ℕ, suc, ◌+◌, ◌-◌, ◌≤◌, ◌<◌, ◌≡◌, refl, sym, ap, ◌∙◌, arith, true}
use fdsstick.Base.{List, [], ◌∷◌, ◌++◌, length, le→ltb, replicate, replicate-add, some}
use fdsstick.Base.{
  append_assoc, append-nil, length-append, length-replicate, ok, >>=-ok, write_range,
  write_range_at,
}
use fdsstick.Bin.{gap_bytes}
use fdsstick.Bin.Block.{zeros, crc_of}
use fdsstick.Bin.Layout.{Disk, stored_disk, laid_block, laid_disk, gap}
use fdsstick.Raw.Pulses.{bits_of, fresh, begun, pulses}
use fdsstick.Raw.AtGap.{AtGap, clear}
use fdsstick.Raw.Bits.{bits_of-zeros}
use fdsstick.Raw.Stream.{
  after_bits, file_blocks, laid_all, bits_of-laid_block_more, after_bits-laid_all, pulses-lead,
}
use fdsstick.Raw.First.{find_first_block-clear}
use fdsstick.Raw.Side.{
  IsReadableDisk, side, decode_side_lem, stored_files-flat, laid_files-laid_all,
}
use fdsstick.Raw.{fds_size, min_gap_size, first_block, find_first_block, decode_side, raw03_to_fds}

-- The bits of a gap but the first.
abbrev gap_rest : ℕ
gap_rest = 967

bits_of-gap : bits_of gap ≡ zeros (suc gap_rest)
unfolding gap
bits_of-gap = bits_of-zeros gap_bytes

-- The pulses of `*NINT` are the pattern that is searched for.
signature_pulses :
    (more bits rest : List ℕ)
    → (end : List ℕ) × (1
          ∷ (pulses fresh (bits_of (0x01 ∷ 0x2a ∷ 0x4e ∷ 0x49 ∷ 0x4e ∷ 0x54 ∷ more) ++ bits)
              ++ rest)
        ≡ first_block ++ end)
unfolding pulses bits_of
signature_pulses more bits rest =
    (pulses (begun 0) (1 ∷ 0 ∷ 1 ∷ 0 ∷ 1 ∷ 0 ∷ (bits_of more ++ bits)) ++ rest, refl)

write_clear :
    (m e : ℕ) (old : List ℕ)
    → length old ≡ m
    → write_range (old ++ zeros e) 0 (replicate m 0) ≡ ok (zeros (m + e))
write_clear m e old h =
    write_range_at [] old (zeros m) (zeros e) 0 refl (h ∙ sym (length-replicate m 0))
    ∙ ap ok (replicate-add m e (m + e) 0 refl)

module _ (d : Disk) (good : IsReadableDisk d) (u r : ℕ) where
  abbrev blocks : List (List ℕ)
  blocks = d.amount ∷ file_blocks d.files

  -- The bits behind the start bit of the block 1.
  abbrev pub bits_behind : List ℕ
  bits_behind = bits_of (d.info ++ crc_of d.info) ++ (0 ∷ after_bits gap_rest u blocks)

  pub laid_bits : bits_of (laid_disk d) ++ zeros u ≡ zeros 7 ++ (1 ∷ bits_behind)
  unfolding laid_disk
  laid_bits =
      ap (λ t. bits_of (laid_block d.info ++ (laid_block d.amount ++ t)) ++ zeros u)
        (laid_files-laid_all d.files)
      ∙ bits_of-laid_block_more gap_rest bits_of-gap d.info (laid_all blocks) (zeros u)
      ∙ ap (λ t. zeros 7 ++ (1 ∷ (bits_of (d.info ++ crc_of d.info) ++ t)))
          (after_bits-laid_all gap_rest bits_of-gap u blocks)

  abbrev pub cells : List ℕ
  cells = 1 ∷ (pulses fresh bits_behind ++ replicate r 3)

  pub pattern : (end : List ℕ) × (cells ≡ first_block ++ end)
  pattern =
      let begins =
        signature_pulses (good.info_rest ++ crc_of d.info) (0 ∷ after_bits gap_rest u blocks)
          (replicate r 3) in
      (
        begins.0,
        ap
              (λ t.
                1
                ∷ (pulses fresh (bits_of (t ++ crc_of d.info) ++ (0 ∷ after_bits gap_rest u blocks))
                    ++ replicate r 3))
              good.signature
            ∙ begins.1,
      )

  module _ (e k : ℕ) (old head raw : List ℕ) (er : raw ≡ head ++ (zeros k ++ cells))
      (lead : min_gap_size ≤ k) (found : find_first_block raw ≡ ok (some (length head + k)))
      (hold : length old ≡ fds_size) (room : length (side d) ≤ fds_size)
      (spare : length (side d) + 3 ≤ fds_size + e) where
    at_gap : AtGap raw (length head + k - min_gap_size) (pulses fresh bits_behind ++ replicate r 3)
    at_gap =
        clear min_gap_size (head ++ zeros (k - min_gap_size))
          (er
            ∙ ap (λ t. head ++ (t ++ cells))
                (sym (replicate-add (k - min_gap_size) min_gap_size k 0 (omega (arith, lead))))
            ∙ simp append_assoc)
          (omega (
            arith,
            lead,
            length-append {0} head (zeros (k - min_gap_size)),
            length-replicate {A = ℕ} (k - min_gap_size) 0,
          ))
          (omega arith)

    decoded :
        decode_side (zeros (fds_size + e)) raw (length raw) (length head + k - min_gap_size)
        ≡ ok (true, stored_disk 0 d [] ++ zeros (fds_size + e - length (stored_disk 0 d [])))
    decoded =
        decode_side_lem d good gap_rest u r (fds_size + e - length (side d) - 3) raw (omega arith)
          room (length head + k - min_gap_size) (zeros (fds_size + e)) (ap zeros clear_count) at_gap
        ∙ ap (λ (t : ℕ). ok (true, side d ++ zeros t)) end_count
        ∙ ap (λ t. ok (true, t ++ zeros (fds_size + e - length t))) same_side
      where
        clear_count : fds_size + e ≡ length (side d) + 3 + (fds_size + e - length (side d) - 3)
        clear_count = omega (arith, spare)

        end_count : 3 + (fds_size + e - length (side d) - 3) ≡ fds_size + e - length (side d)
        end_count = omega (arith, spare)

        same_side : side d ≡ stored_disk 0 d []
        same_side = ap (λ t. d.info ++ (d.amount ++ t)) (sym (stored_files-flat d.files))

    -- From the pulses in which the search finds the block 1, the side is decoded.
    pub recovered :
        raw03_to_fds raw (old ++ zeros e) (length raw)
        ≡ ok (true, stored_disk 0 d [] ++ zeros (fds_size + e - length (stored_disk 0 d [])))
    unfolding raw03_to_fds
    recovered = >>=-ok _ _ (write_clear fds_size e old hold) (
        >>=-ok _ _ found (rw (le→ltb (length head + k) min_gap_size (omega (arith, lead))) decoded))

module _ (d : Disk) (good : IsReadableDisk d) (n r e : ℕ) (old : List ℕ)
    (lead : min_gap_size ≤ n + 7) (near : n + 38 < 0x1_0000) (hold : length old ≡ fds_size)
    (room : length (side d) ≤ fds_size) (spare : length (side d) + 3 ≤ fds_size + e) where
  abbrev raw : List ℕ
  raw = zeros n ++ (pulses (begun 0) (bits_of (laid_disk d)) ++ replicate r 3)

  raw_cells : raw ≡ zeros (n + 7) ++ cells d good 0 r
  raw_cells =
      ap (λ t. zeros n ++ (pulses (begun 0) t ++ replicate r 3))
        (sym (append-nil (bits_of (laid_disk d))) ∙ laid_bits d good 0 r)
      ∙ ap (λ t. zeros n ++ t) (pulses-lead 7 (bits_behind d good 0 r) (replicate r 3))
      ∙ sym (append_assoc (zeros n) (zeros 7) (cells d good 0 r))
      ∙ ap (λ t. t ++ cells d good 0 r) (replicate-add n 7 (n + 7) 0 refl)

  found : find_first_block raw ≡ ok (some (0 + (n + 7)))
  found =
      ap find_first_block (raw_cells ∙ ap (λ t. zeros (n + 7) ++ t) ((pattern d good 0 r).1))
      ∙ find_first_block-clear (n + 7) ((pattern d good 0 r).0) (omega (arith, near))
      ∙ ap (λ (t : ℕ). ok (some t)) (omega arith)

  -- The decoder recovers a side from its pulses. For a side of bytes, of the standard structure,
  -- that begins with `*NINT`, whose blocks have their codes and whose size is at most FDSSIZE:
  -- when the pulses are those of its layout with gaps and checksums, behind a lead-in of `n`
  -- clear pulses (`n + 7` at least MIN_GAP_SIZE, `n + 38` less than 0x10000) and before any
  -- number of undefined pulses, and the output is FDSSIZE bytes of any content and `e` clear
  -- bytes, with three bytes or more to spare behind the side, then `raw03_to_fds` returns true
  -- and leaves exactly the bytes of the side and clear bytes behind them.
  pub raw03_to_fds-lay :
      raw03_to_fds raw (old ++ zeros e) (length raw)
      ≡ ok (true, stored_disk 0 d [] ++ zeros (fds_size + e - length (stored_disk 0 d [])))
  raw03_to_fds-lay = recovered d good 0 r e (n + 7) old [] raw raw_cells lead found hold room spare
