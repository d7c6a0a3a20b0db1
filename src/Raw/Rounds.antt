-- ===== src/Raw/Rounds.antt =====
-- What the loop of `raw03_to_fds` over the files writes.
use fdsstick.Base.{
  All-append, ℕ, zero, suc, ◌+◌, ◌≤◌, ◌<◌, ◌≡◌, refl, sym, ap, ◌∙◌, arith, true, false,
}
use fdsstick.Base.{List, [], ◌∷◌, ◌++◌, length, length-append, ltb, lt→ltb, replicate}
use fdsstick.Base.{append_assoc, append-nil, length-replicate, All, Run, ok, ◌>>=◌, >>=-ok}
use fdsstick.Crc.Check.{IsByte}
use fdsstick.Bin.Block.{zeros, crc_of}
use fdsstick.Bin.Layout.{FileBlocks}
use fdsstick.Raw.Pulses.{bits_of, fresh, begun, pulses}
use fdsstick.Raw.States.{Left, even, run, spare}
use fdsstick.Raw.Bits.{some_pulse}
use fdsstick.Raw.Decode.{Kept}
use fdsstick.Raw.Stream.{after_bits, file_blocks, Left-none}
use fdsstick.Raw.Files.{IsReadable, flat, Returns-bind, block_decode-none, decode_next, next_gap}
use fdsstick.Raw.Files.{contents_size_lem, header_kind}
use fdsstick.Raw.{Block, fds_size, min_gap_size, block_decode, contents_size, files_loop}

behind_clear : (b : ℕ) (bs : List ℕ) → 0 < length (pulses (begun 0) (b ∷ bs))
unfolding pulses
behind_clear zero bs = omega arith
behind_clear (suc b) bs = omega arith

-- A decoder that left bits has pulses before it.
Left-inside :
    (p : ℕ) (src rest tail : List ℕ) → 0 < length tail → Left src rest tail p → p < length src
Left-inside p src rest [] ht h = absurd (omega arith)
Left-inside p src rest (b ∷ bs) ht (even front e hp) = omega (
  arith,
  hp,
  ap length e,
  length-append {0} front (pulses fresh (0 ∷ b ∷ bs) ++ rest),
  length-append {0} (pulses fresh (0 ∷ b ∷ bs)) rest,
  some_pulse 0 b bs,
)
Left-inside p src rest (b ∷ bs) ht (run front e hp) = omega (
  arith,
  hp,
  ap length e,
  length-append {0} front (pulses (begun 0) (0 ∷ b ∷ bs) ++ rest),
  length-append {0} (pulses (begun 0) (0 ∷ b ∷ bs)) rest,
  behind_clear 0 (b ∷ bs),
)
Left-inside p src rest (b ∷ bs) ht (spare front e hp) = omega (
  arith,
  hp,
  ap length e,
  length-append {0} front (pulses (begun 0) (b ∷ bs) ++ rest),
  length-append {0} (pulses (begun 0) (b ∷ bs)) rest,
  behind_clear b bs,
)

length-after_bits : (g u : ℕ) (bs : List (List ℕ)) → g ≤ length (after_bits g u bs)
unfolding after_bits
length-after_bits g u [] = omega (arith, length-replicate {A = ℕ} (g + u) 0)
length-after_bits g u (b ∷ bs) = omega (
  arith,
  length-replicate {A = ℕ} (g + 7) 0,
  length-append {0} (zeros (g + 7)) (1 ∷ (bits_of (b ++ crc_of b) ++ (0 ∷ after_bits g u bs))),
)

module _ (g u r : ℕ) (src : List ℕ) (hg : min_gap_size < g) where
  module _ (f : FileBlocks) (fs : List FileBlocks) (good : IsReadable f) (fuel j : ℕ) (pre : List ℕ)
      (hp : All IsByte pre) (res : Run (List ℕ)) where
    abbrev Next : Type 0
    Next =
        (in_pos out : ℕ) (dst : List ℕ)
        → dst ≡ ((pre ++ f.header) ++ f.contents) ++ zeros (length (flat fs) + 3 + j)
        → out ≡ length ((pre ++ f.header) ++ f.contents)
        → Left src (replicate r 3) (after_bits g u (file_blocks fs)) in_pos
        → files_loop fuel dst src (length src) in_pos out ≡ res

    -- Behind the contents.
    go_on :
        (b : Block)
        → Kept
            (pre ++ f.header)
            f.contents
            (3 + (length (flat fs) + j))
            src
            (replicate r 3)
            (after_bits g u (file_blocks fs))
            b
        → Next
        → elim b.found [
          | false ↦ ok b.dst
          | true ↦ elim (ltb b.in_pos (length src)) [
            | false ↦ ok b.dst
            | true ↦ files_loop fuel b.dst src (length src) b.in_pos b.out_pos
          ]
        ]
          ≡ res
    go_on b k next =
        rw (k.found, lt→ltb b.in_pos (length src) inside)
          (next b.in_pos b.out_pos b.dst
            (k.dst ∙ ap (λ (t : ℕ). ((pre ++ f.header) ++ f.contents) ++ zeros t) count) k.out_pos
            k.left)
      where
        count : 3 + (length (flat fs) + j) ≡ length (flat fs) + 3 + j
        count = omega arith

        inside : b.in_pos < length src
        inside =
            Left-inside b.in_pos src (replicate r 3) (after_bits g u (file_blocks fs))
              (omega (arith, hg, length-after_bits g u (file_blocks fs))) k.left

    -- Behind the header.
    contents :
        (b : Block)
        → Kept pre f.header
            (3 + (length f.contents + (length (flat fs) + j)))
            src
            (replicate r 3)
            (after_bits g u (f.contents ∷ file_blocks fs))
            b
        → length pre + length (flat (f ∷ fs)) ≤ fds_size
        → Next
        → elim b.found [
          | false ↦ ok b.dst
          | true ↦
              (contents_size b.dst b.out_pos >>= λ size.
              block_decode b.dst src b.in_pos b.out_pos (length src) (fds_size + 2) size 4
              >>= λ contents. elim contents.found [
                | false ↦ ok contents.dst
                | true ↦ elim (ltb contents.in_pos (length src)) [
                  | false ↦ ok contents.dst
                  | true ↦
                      files_loop fuel contents.dst src (length src) contents.in_pos contents.out_pos
                ]
              ])
        ]
          ≡ res
    contents b k room next = rw (k.found) (
        >>=-ok _ _ (contents_size_lem pre _ b.dst f b.out_pos good.file k.dst k.out_pos) (
          Returns-bind
            (Kept (pre ++ f.header) f.contents (3 + (length (flat fs) + j)) src (replicate r 3)
              (after_bits g u (file_blocks fs)))
            _ _ _
            (decode_next (pre ++ f.header) f.contents good.rest b.dst src (replicate r 3)
              (file_blocks fs) 4 g u b.in_pos b.out_pos (fds_size + 2) (length f.contents)
              (length (flat fs) + j) good.contents_kind
              (All-append IsByte pre f.header hp good.header_bytes) good.contents_bytes
              (k.dst ∙ ap (λ (t : ℕ). (pre ++ f.header) ++ zeros t) count) k.out_pos refl
              (omega (
                arith,
                k.out_pos,
                room,
                length-append {0} pre f.header,
                length-append {0} f.header (f.contents ++ flat fs),
                length-append {0} f.contents (flat fs),
              ))
              (next_gap g u b.in_pos src (replicate r 3) f.contents (file_blocks fs) hg k.left))
            λ c h. go_on c h next))
      where
        count :
            3 + (length f.contents + (length (flat fs) + j))
            ≡ length f.contents + 3 + (length (flat fs) + j)
        count = omega arith

    -- A round, from what stands behind it.
    one_file :
        (in_pos out : ℕ) (dst : List ℕ)
        → dst ≡ pre ++ zeros (length (flat (f ∷ fs)) + 3 + j)
        → out ≡ length pre
        → out + length (flat (f ∷ fs)) ≤ fds_size
        → Left src (replicate r 3) (after_bits g u (file_blocks (f ∷ fs))) in_pos
        → Next
        → files_loop (suc fuel) dst src (length src) in_pos out ≡ res
    unfolding files_loop
    one_file in_pos out dst ed ho room left next =
        Returns-bind
          (Kept pre f.header (3 + (length f.contents + (length (flat fs) + j))) src (replicate r 3)
            (after_bits g u (f.contents ∷ file_blocks fs)))
          _ _ _
          (decode_next pre f.header (kind.0) dst src (replicate r 3) (f.contents ∷ file_blocks fs) 3
            g u in_pos out (fds_size + 2) 16 (length f.contents + (length (flat fs) + j)) (kind.1)
            hp good.header_bytes (ed ∙ ap (λ (t : ℕ). pre ++ zeros t) count) ho
            (sym good.file.header_length) (omega (arith, room, sizes))
            (next_gap g u in_pos src (replicate r 3) f.header (f.contents ∷ file_blocks fs) hg
              left))
          λ b k. contents b k (omega (arith, room, ho)) next
      where
        kind : (more : List ℕ) × (f.header ≡ 3 ∷ more)
        kind = header_kind f.header good.file.header_length good.file.kind

        sizes : length (flat (f ∷ fs)) ≡ 16 + length f.contents + length (flat fs)
        sizes = omega (
          arith,
          good.file.header_length,
          length-append {0} f.header (f.contents ++ flat fs),
          length-append {0} f.contents (flat fs),
        )

        count :
            length (flat (f ∷ fs)) + 3 + j ≡ 16 + 3 + (length f.contents + (length (flat fs) + j))
        count = omega (arith, sizes)

  -- The loop writes the blocks of the files behind `pre`, and stops behind the last of them.
  pub files_loop_lem :
      (fs : List FileBlocks) (fuel in_pos out j : ℕ) (pre dst : List ℕ)
      → All IsReadable fs
      → All IsByte pre
      → length fs < fuel
      → dst ≡ pre ++ zeros (length (flat fs) + 3 + j)
      → out ≡ length pre
      → out + length (flat fs) ≤ fds_size
      → Left src (replicate r 3) (after_bits g u (file_blocks fs)) in_pos
      → files_loop fuel dst src (length src) in_pos out ≡ ok ((pre ++ flat fs) ++ zeros (3 + j))
  unfolding files_loop after_bits
  files_loop_lem fs zero in_pos out j pre dst good hp hf ed ho room left = absurd (omega arith)
  files_loop_lem [] (suc fuel) in_pos out j pre dst good hp hf ed ho room left =
      >>=-ok _ _
        (block_decode-none dst src in_pos out (fds_size + 2) 16 3
          (Left-none (g + u) r in_pos src (omega (arith, hg)) left))
        (ap ok (ed ∙ ap (λ t. t ++ zeros (3 + j)) (sym (append-nil pre))))
  files_loop_lem (f ∷ fs) (suc fuel) in_pos out j pre dst good hp hf ed ho room left =
      one_file f fs (good.0) fuel j pre hp (ok ((pre ++ flat (f ∷ fs)) ++ zeros (3 + j))) in_pos out
        dst ed ho room left
        λ in' out' dst' ed' ho' left'.
          files_loop_lem fs fuel in' out' j ((pre ++ f.header) ++ f.contents) dst' (good.1)
            (All-append IsByte (pre ++ f.header) f.contents
              (All-append IsByte pre f.header hp good.0.header_bytes) good.0.contents_bytes)
            (omega arith) ed' ho'
            (omega (
              arith,
              ho',
              ho,
              room,
              length-append {0} (pre ++ f.header) f.contents,
              length-append {0} pre f.header,
              length-append {0} f.header (f.contents ++ flat fs),
              length-append {0} f.contents (flat fs),
            ))
            left'
          ∙ ap ok (simp append_assoc)
