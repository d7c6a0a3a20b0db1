-- ===== src/Bin/Files.antt =====
-- The loop over the files of a disk: what it writes, and when it gives up.
use fdsstick.Base.{ℕ, suc, ◌+◌, ◌-◌, ◌*◌, ◌^◌, ◌≤◌, ◌<◌, ◌≡◌, refl, sym, ap, ◌∙◌, arith}
use fdsstick.Base.{List, ◌++◌, length, get_or, length-append, length-replicate}
use fdsstick.Base.{append_assoc, bit_or, lt→ltb, le→ltb}
use fdsstick.Base.{ok, >>=-ok}
use fdsstick.Base.{read, read_inside}
use fdsstick.Base.Bits.{bit_or_high}
use fdsstick.Bin.{copy_block, copy_files, gap_bytes}
use fdsstick.Bin.Block.{block_image, length-block_image, copy_block_lem, zeros}
use fdsstick.Bin.Layout.{FileBlocks, IsFile, laid_block, gap, length-gap}
use fdsstick.Bin.Layout.{on_buffer, on_buffer-gap, on_buffer-room}

-- `copy_block` at a buffer and a file that are known by equations.
pub copy_block_at :
    (dst w src front bytes rest : List ℕ) (m o i size : ℕ)
    → dst ≡ w ++ zeros (size + 3 + m)
    → src ≡ front ++ (bytes ++ rest)
    → o ≡ length w
    → i ≡ length front
    → size ≡ length bytes
    → copy_block dst o src i size ≡ ok (w ++ (block_image bytes ++ zeros m))
copy_block_at dst w src front bytes rest m o i size ed es ho hi hs =
    rw (ed, es) (copy_block_lem w front bytes rest m o i size ho hi hs)

pub length-laid_block : (bytes : List ℕ) → length (laid_block bytes) ≡ length bytes + 3 + gap_bytes
length-laid_block bytes =
    omega (arith, length-append {0} (block_image bytes) gap, length-gap, length-block_image bytes)

-- Space for one more block and its gap, where the buffer has room for the block.
pub copy_laid :
    (n o size i : ℕ) (w src front bytes rest : List ℕ)
    → o + size + 3 ≤ n
    → src ≡ front ++ (bytes ++ rest)
    → o ≡ length w
    → i ≡ length front
    → size ≡ length bytes
    → copy_block (on_buffer n w) o src i size ≡ ok (on_buffer n (w ++ laid_block bytes))
copy_laid n o size i w src front bytes rest h es ho hi hs =
    copy_block_at (on_buffer n w) w src front bytes rest (n - (o + size + 3)) o i size
      (on_buffer-room w n (size + 3 + (n - (o + size + 3))) (omega arith)) es ho hi hs
    ∙ ap ok (
        sym (append_assoc w (block_image bytes) (zeros (n - (o + size + 3))))
        ∙ sym (
            on_buffer-gap (w ++ block_image bytes) n (n - (o + size + 3))
              (omega (arith, length-append {0} w (block_image bytes), length-block_image bytes)))
        ∙ ap (on_buffer n) (append_assoc w (block_image bytes) gap))

module _ (f : FileBlocks) (good : IsFile f) (skip n o i : ℕ) (w src front rest : List ℕ)
    (es : src ≡ front ++ (f.header ++ (zeros skip ++ (f.contents ++ rest)))) (ho : o ≡ length w)
    (hi : i ≡ length front) where
  abbrev lo : ℕ
  lo = get_or f.header 13 0

  abbrev hi_byte : ℕ
  hi_byte = get_or f.header 14 0

  abbrev next : ℕ
  next = o + 16 + 3 + gap_bytes + length f.contents + 3

  read_header : (j k : ℕ) → k ≡ i + j → j < 16 → read src k ≡ ok (get_or f.header j 0)
  read_header j k e h = rw es (
      read_inside front f.header (zeros skip ++ (f.contents ++ rest)) k j (omega arith)
        (omega (arith, good.header_length)))

  abbrev raw_size : ℕ
  raw_size = bit_or lo (hi_byte * 2 ^ 8) + 1

  sized : raw_size ≡ length f.contents
  sized = omega (arith, bit_or_high 8 lo hi_byte good.low, good.size)

  read_kind : read src i ≡ ok 3
  read_kind = read_header 0 i (omega arith) (omega arith) ∙ ap ok good.kind

  -- With room for both blocks, a round lays them out and goes on behind them.
  pub copy_files-room :
      (fuel : ℕ)
      → next ≤ n
      → copy_files (suc fuel) skip n (on_buffer n w) o src i
        ≡ copy_files fuel skip n
            (on_buffer n (w ++ (laid_block f.header ++ laid_block f.contents)))
            (next + gap_bytes)
            src
            (i + 16 + skip + length f.contents + skip)
  unfolding copy_files
  copy_files-room fuel h = >>=-ok _ _ read_kind (
      >>=-ok _ _ (read_header 13 (i + 13) refl (omega arith)) (
        >>=-ok _ _ (read_header 14 (i + 14) refl (omega arith)) (
          rw (le→ltb n (o + 16 + 3 + gap_bytes + raw_size + 3) (omega (arith, sized, h))) (
            >>=-ok _ _
              (copy_laid n o 16 i w src front f.header (zeros skip ++ (f.contents ++ rest))
                (omega arith) es ho hi (sym good.header_length))
              (>>=-ok _ _ second
                (rw (sized, append_assoc w (laid_block f.header) (laid_block f.contents)) refl))))))
    where
      src_contents : src ≡ (front ++ (f.header ++ zeros skip)) ++ (f.contents ++ rest)
      src_contents = es ∙ simp append_assoc

      second :
          copy_block
            (on_buffer n (w ++ laid_block f.header))
            (o + 16 + 3 + gap_bytes)
            src
            (i + 16 + skip)
            raw_size
          ≡ ok (on_buffer n ((w ++ laid_block f.header) ++ laid_block f.contents))
      second =
          copy_laid n (o + 16 + 3 + gap_bytes) raw_size (i + 16 + skip) (w ++ laid_block f.header)
            src (front ++ (f.header ++ zeros skip)) f.contents rest (omega (arith, sized, h))
            src_contents
            (omega (
              arith,
              length-append {0} w (laid_block f.header),
              length-laid_block f.header,
              good.header_length,
            ))
            (omega (
              arith,
              length-append {0} front (f.header ++ zeros skip),
              length-append {0} f.header (zeros skip),
              length-replicate {A = ℕ} skip 0,
              good.header_length,
            ))
            sized

  -- Without it, the loop gives up with 0 and leaves the buffer as it is.
  pub copy_files-full :
      (fuel : ℕ)
      → n < next
      → copy_files (suc fuel) skip n (on_buffer n w) o src i ≡ ok (0, on_buffer n w)
  unfolding copy_files
  copy_files-full fuel h = >>=-ok _ _ read_kind (
      >>=-ok _ _ (read_header 13 (i + 13) refl (omega arith)) (
        >>=-ok _ _ (read_header 14 (i + 14) refl (omega arith))
          (rw (lt→ltb n (o + 16 + 3 + gap_bytes + raw_size + 3) (omega (arith, sized, h))) refl)))
