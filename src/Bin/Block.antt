-- ===== src/Bin/Block.antt =====
-- What `copy_block` writes.
use mathlib.Core.List.{append_assoc}
use fdsstick.Base.{ℕ, suc, ◌+◌, ◌/◌, ◌^◌, ◌≡◌, sym, ap, ◌∙◌, arith}
use fdsstick.Base.{List, [], ◌∷◌, ◌++◌, length, length-append, replicate, length-replicate}
use fdsstick.Base.{replicate-add, ok, >>=-ok, u8}
use fdsstick.Base.{write, read_range, write_range}
use fdsstick.Base.{write_at, read_range_at, write_range_at}
use fdsstick.Crc.{calc_crc}
use fdsstick.Bin.{copy_block}

abbrev pub zeros : ℕ → List ℕ
zeros n = replicate n 0

-- The checksum of a block, low byte first.
abbrev pub crc_of : List ℕ → List ℕ
crc_of bytes = let crc = calc_crc (bytes ++ (0 ∷ 0 ∷ [])) in u8 crc ∷ u8 (crc / 2 ^ 8) ∷ []

-- A block on the disk: the gap end, the bytes, their checksum.
unfoldable pub block_image : List ℕ → List ℕ
block_image bytes = 0x80 ∷ (bytes ++ crc_of bytes)

pub length-block_image : (bytes : List ℕ) → length (block_image bytes) ≡ length bytes + 3
unfolding block_image
length-block_image bytes = omega (arith, length-append {0} bytes (crc_of bytes))

module _ (w front bytes rest : List ℕ) (m o i size : ℕ) (ho : o ≡ length w) (hi : i ≡ length front)
    (hs : size ≡ length bytes) where
  abbrev crc : ℕ
  crc = calc_crc (bytes ++ (0 ∷ 0 ∷ []))

  abbrev marked : List ℕ
  marked = w ++ (0x80 ∷ [])

  three_more : zeros (size + 3 + m) ≡ 0 ∷ (zeros size ++ (0 ∷ 0 ∷ zeros m))
  three_more = sym (replicate-add (suc size) (suc (suc m)) (size + 3 + m) 0 (omega arith))

  step_mark :
      write (w ++ zeros (size + 3 + m)) o 0x80 ≡ ok (marked ++ (zeros size ++ (0 ∷ 0 ∷ zeros m)))
  step_mark = rw three_more (
      write_at w 0 (zeros size ++ (0 ∷ 0 ∷ zeros m)) 0x80 o ho
      ∙ ap ok (sym (append_assoc w (0x80 ∷ []) (zeros size ++ (0 ∷ 0 ∷ zeros m)))))

  length-marked : length marked ≡ o + 1
  length-marked = omega (arith, length-append {0} w (0x80 ∷ []))

  step_copy :
      write_range (marked ++ (zeros size ++ (0 ∷ 0 ∷ zeros m))) (o + 1) bytes
      ≡ ok (marked ++ (bytes ++ (0 ∷ 0 ∷ zeros m)))
  step_copy =
      write_range_at marked (zeros size) bytes (0 ∷ 0 ∷ zeros m) (o + 1) (sym length-marked)
        (length-replicate size 0 ∙ hs)

  step_cover :
      read_range (marked ++ (bytes ++ (0 ∷ 0 ∷ zeros m))) (o + 1) (size + 2)
      ≡ ok (bytes ++ (0 ∷ 0 ∷ []))
  step_cover = rw (sym (append_assoc bytes (0 ∷ 0 ∷ []) (zeros m))) (
      read_range_at marked (bytes ++ (0 ∷ 0 ∷ [])) (zeros m) (o + 1) (size + 2) (sym length-marked)
        (omega (arith, length-append {0} bytes (0 ∷ 0 ∷ []))))

  step_low :
      write (marked ++ (bytes ++ (0 ∷ 0 ∷ zeros m))) (o + size + 1) (u8 crc)
      ≡ ok ((marked ++ bytes) ++ (u8 crc ∷ 0 ∷ zeros m))
  step_low = rw (sym (append_assoc marked bytes (0 ∷ 0 ∷ zeros m))) (
      write_at (marked ++ bytes) 0 (0 ∷ zeros m) (u8 crc) (o + size + 1)
        (omega (arith, length-append {0} marked bytes, length-marked)))

  step_high :
      write ((marked ++ bytes) ++ (u8 crc ∷ 0 ∷ zeros m)) (o + size + 2) (u8 (crc / 2 ^ 8))
      ≡ ok (w ++ (block_image bytes ++ zeros m))
  unfolding block_image
  step_high = rw (sym (append_assoc (marked ++ bytes) (u8 crc ∷ []) (0 ∷ zeros m))) (
      write_at ((marked ++ bytes) ++ (u8 crc ∷ [])) 0 (zeros m) (u8 (crc / 2 ^ 8)) (o + size + 2) (
        omega (
          arith,
          length-append {0} marked bytes,
          length-append {0} (marked ++ bytes) (u8 crc ∷ []),
          length-marked,
        ))
      ∙ ap ok (simp append_assoc))

  -- At a position of the output behind which at least `size + 3` bytes are clear, `copy_block` of
  -- `size` bytes of the input writes the gap end, those bytes and their checksum, low byte first,
  -- and changes nothing else.
  pub copy_block_lem :
      copy_block (w ++ zeros (size + 3 + m)) o (front ++ (bytes ++ rest)) i size
      ≡ ok (w ++ (block_image bytes ++ zeros m))
  unfolding copy_block
  copy_block_lem = >>=-ok _ _ step_mark (
      >>=-ok _ _ (read_range_at front bytes rest i size hi hs)
        (>>=-ok _ _ step_copy (>>=-ok _ _ step_cover (>>=-ok _ _ step_low step_high))))
