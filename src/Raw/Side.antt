-- ===== src/Raw/Side.antt =====
-- `raw03_to_fds` on the pulses of a whole disk.
use fdsstick.Base.{
  All-append, ℕ, zero, suc, ◌+◌, ◌*◌, ◌≤◌, ◌<◌, ◌≡◌, refl, sym, ap, ◌∙◌, arith, true, false,
}
use fdsstick.Base.{List, [], ◌∷◌, ◌++◌, length, length-append, replicate, Bool}
use fdsstick.Base.{append_assoc, All, Run, ok, ◌>>=◌, >>=-ok}
use fdsstick.Crc.Check.{IsByte}
use fdsstick.Bin.Block.{zeros, crc_of}
use fdsstick.Bin.Layout.{FileBlocks, Disk, IsDisk, stored_files, laid_files, laid_block, gap}
use fdsstick.Raw.Pulses.{bits_of, Pending, fresh, begun, pulses}
use fdsstick.Raw.States.{Left, even, run, spare}
use fdsstick.Raw.AtGap.{AtGap}
use fdsstick.Raw.Decode.{Kept}
use fdsstick.Raw.Stream.{after_bits, file_blocks, laid_all}
use fdsstick.Raw.Files.{IsReadable, flat, Returns-bind, decode_next, next_gap}
use fdsstick.Raw.Rounds.{files_loop_lem}
use fdsstick.Raw.{Block, fds_size, min_gap_size, files_loop, decode_side}

-- A side that the search recognises: the block 1 begins with `*NINT`.
pub record IsReadableDisk (d : Disk) : Type 0 where
  pub disk : IsDisk d
  pub info_rest : List ℕ
  pub amount_rest : List ℕ
  pub signature : d.info ≡ 0x01 ∷ 0x2a ∷ 0x4e ∷ 0x49 ∷ 0x4e ∷ 0x54 ∷ info_rest
  pub amount_kind : d.amount ≡ 2 ∷ amount_rest
  pub info_bytes : All IsByte d.info
  pub amount_bytes : All IsByte d.amount
  pub files : All IsReadable d.files

abbrev slack : Pending → ℕ
slack fresh = 1
slack (begun v) = 0

-- Every pulse stands for two bits at most.
length-pulses : (p : Pending) (bs : List ℕ) → length bs ≤ 2 * length (pulses p bs) + slack p
unfolding pulses
length-pulses fresh [] = omega arith
length-pulses (begun v) [] = omega arith
length-pulses fresh (zero ∷ bs) = omega (arith, length-pulses (begun 1) bs)
length-pulses fresh (suc b ∷ bs) = omega (arith, length-pulses fresh bs)
length-pulses (begun v) (zero ∷ bs) = omega (arith, length-pulses (begun 0) bs)
length-pulses (begun v) (suc b ∷ bs) = omega (arith, length-pulses fresh bs)

length-middle :
    (front cells rest src : List ℕ) → src ≡ front ++ (cells ++ rest) → length cells ≤ length src
length-middle front cells rest src e =
    omega
      (arith, ap length e, length-append {0} front (cells ++ rest), length-append {0} cells rest)

Left-length : (p : ℕ) (src rest tail : List ℕ) → Left src rest tail p → length tail ≤ 2 * length src
Left-length p src rest tail (even front e hp) = omega (
  arith,
  length-middle front (pulses fresh (0 ∷ tail)) rest src e,
  length-pulses fresh (0 ∷ tail),
)
Left-length p src rest tail (run front e hp) = omega (
  arith,
  length-middle front (pulses (begun 0) (0 ∷ tail)) rest src e,
  length-pulses (begun 0) (0 ∷ tail),
)
Left-length p src rest tail (spare front e hp) =
    omega
      (arith, length-middle front (pulses (begun 0) tail) rest src e, length-pulses (begun 0) tail)

-- The files are fewer than the pulses.
files-after_bits :
    (g u : ℕ) (fs : List FileBlocks) → 2 * length fs ≤ length (after_bits g u (file_blocks fs))
unfolding after_bits
files-after_bits g u [] = omega arith
files-after_bits g u (f ∷ fs) = omega (
  arith,
  length-append {0} (zeros (g + 7)) (
      1
      ∷ (bits_of (f.header ++ crc_of f.header)
          ++ (0 ∷ after_bits g u (f.contents ∷ file_blocks fs)))),
  length-append {0} (bits_of (f.header ++ crc_of f.header))
      (0 ∷ after_bits g u (f.contents ∷ file_blocks fs)),
  length-append {0} (zeros (g + 7))
      (1 ∷ (bits_of (f.contents ++ crc_of f.contents) ++ (0 ∷ after_bits g u (file_blocks fs)))),
  length-append {0} (bits_of (f.contents ++ crc_of f.contents))
      (0 ∷ after_bits g u (file_blocks fs)),
  files-after_bits g u fs,
)

abbrev pub side : Disk → List ℕ
side d = d.info ++ (d.amount ++ flat d.files)

pub stored_files-flat : (fs : List FileBlocks) → stored_files 0 fs [] ≡ flat fs
stored_files-flat [] = refl
stored_files-flat (f ∷ fs) = ap (λ t. f.header ++ (f.contents ++ t)) (stored_files-flat fs)

pub laid_files-laid_all : (fs : List FileBlocks) → laid_files fs ≡ laid_all (file_blocks fs)
laid_files-laid_all [] = refl
laid_files-laid_all (f ∷ fs) =
    ap (λ t. laid_block f.header ++ (laid_block f.contents ++ t)) (laid_files-laid_all fs)

module _ (d : Disk) (good : IsReadableDisk d) (g u r j : ℕ) (src : List ℕ) (hg : min_gap_size < g)
    (room : length (side d) ≤ fds_size) where
  sizes : length (side d) ≡ 0x38 + 2 + length (flat d.files)
  sizes = omega (
    arith,
    good.disk.info_length,
    good.disk.amount_length,
    length-append {0} d.info (d.amount ++ flat d.files),
    length-append {0} d.amount (flat d.files),
  )

  abbrev result : Run (Bool × List ℕ)
  result = ok (true, side d ++ zeros (3 + j))

  -- Behind the block 2.
  files_behind :
      (b : Block)
      → Kept d.info d.amount
          (3 + (length (flat d.files) + j))
          src
          (replicate r 3)
          (after_bits g u (file_blocks d.files))
          b
      → elim b.found [
        | false ↦ ok (false, b.dst)
        | true ↦
            (files_loop (length src + 1) b.dst src (length src) b.in_pos b.out_pos >>= λ out.
            ok (true, out))
      ]
        ≡ result
  files_behind b k = rw (k.found) (
      >>=-ok _ _
        (files_loop_lem g u r src hg d.files (length src + 1) b.in_pos b.out_pos j
          (d.info ++ d.amount) b.dst good.files
          (All-append IsByte d.info d.amount good.info_bytes good.amount_bytes)
          (omega (
            arith,
            files-after_bits g u d.files,
            Left-length b.in_pos src (replicate r 3) (after_bits g u (file_blocks d.files)) k.left,
          ))
          (k.dst ∙ ap (λ (t : ℕ). (d.info ++ d.amount) ++ zeros t) count) k.out_pos
          (omega (
            arith,
            k.out_pos,
            room,
            sizes,
            good.disk.info_length,
            good.disk.amount_length,
            length-append {0} d.info d.amount,
          ))
          k.left)
        (ap (λ t. ok (true, t ++ zeros (3 + j))) (append_assoc d.info d.amount (flat d.files))))
    where
      count : 3 + (length (flat d.files) + j) ≡ length (flat d.files) + 3 + j
      count = omega arith

  -- The side is decoded from the gap before the block 1 on.
  pub decode_side_lem :
      (in_pos : ℕ) (dst : List ℕ)
      → dst ≡ zeros (length (side d) + 3 + j)
      → AtGap src in_pos (
          pulses fresh (
            bits_of (d.info ++ crc_of d.info)
            ++ (0 ∷ after_bits g u (d.amount ∷ file_blocks d.files)))
          ++ replicate r 3)
      → decode_side dst src (length src) in_pos ≡ result
  unfolding decode_side
  decode_side_lem in_pos dst ed gap =
      Returns-bind
        (Kept [] d.info (3 + (2 + (length (flat d.files) + j))) src (replicate r 3)
          (after_bits g u (d.amount ∷ file_blocks d.files)))
        _ _ _
        (decode_next [] d.info _ dst src (replicate r 3) (d.amount ∷ file_blocks d.files) 1 g u
          in_pos 0 (fds_size + 2) 0x38 (2 + (length (flat d.files) + j)) good.signature tt
          good.info_bytes (ed ∙ ap zeros first_count) refl (sym good.disk.info_length) (omega arith)
          gap)
        λ b k. rw (k.found) (
          Returns-bind
            (Kept d.info d.amount (3 + (length (flat d.files) + j)) src (replicate r 3)
              (after_bits g u (file_blocks d.files)))
            _ _ _
            (decode_next d.info d.amount good.amount_rest b.dst src (replicate r 3)
              (file_blocks d.files) 2 g u b.in_pos b.out_pos (fds_size + 2) 2
              (length (flat d.files) + j) good.amount_kind good.info_bytes good.amount_bytes
              (k.dst ∙ ap (λ (t : ℕ). d.info ++ zeros t) second_count) k.out_pos
              (sym good.disk.amount_length) (omega (arith, k.out_pos, good.disk.info_length))
              (next_gap g u b.in_pos src (replicate r 3) d.amount (file_blocks d.files) hg k.left))
            files_behind)
    where
      first_count : length (side d) + 3 + j ≡ 0x38 + 3 + (2 + (length (flat d.files) + j))
      first_count = omega (arith, sizes)

      second_count : 3 + (2 + (length (flat d.files) + j)) ≡ 2 + 3 + (length (flat d.files) + j)
      second_count = omega arith
