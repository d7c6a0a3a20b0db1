-- ===== src/Raw/Decode.antt =====
-- `block_decode` on the pulses of a block that stands behind a gap.
use fdsstick.Base.{
  All-append, ℕ, suc, ◌+◌, ◌*◌, ◌/◌, ◌%◌, ◌≤◌, ◌<◌, ◌≡◌, refl, sym, ap, ◌∙◌, arith, true,
}
use fdsstick.Base.{List, [], ◌∷◌, ◌++◌, length, length-append, le→ltb, some, replicate-add}
use fdsstick.Base.{
  append_assoc, append-nil, length-replicate, All, Returns, >>=-Returns, ok-Returns,
}
use fdsstick.Crc.Check.{IsByte}
use fdsstick.Bin.Block.{zeros}
use fdsstick.Raw.Pulses.{bits_of, fresh, pulses}
use fdsstick.Raw.Image.{length-bits_of, bits_of-append, bits_of-injective}
use fdsstick.Raw.Step.{Stands}
use fdsstick.Raw.States.{after_one, Left, Done}
use fdsstick.Raw.Loop.{decode_loop-pulses}
use fdsstick.Raw.Finish.{finish_block_lem}
use fdsstick.Raw.{Block, Decoded, gap_scan, cursor_at, decode_loop, finish_block, block_decode}
use fdsstick.Raw.Bits.{bits_of-zeros, bits_of-digits, zeros-IsByte, some_pulse}
use fdsstick.Raw.AtGap.{AtGap, gap_scan-AtGap}

-- What decoding a block leaves: the block behind `pre`, clear bytes, and the pulses of `tail` to come.
pub record Kept (pre bytes : List ℕ) (m : ℕ) (src rest tail : List ℕ) (b : Block) : Type 0 where
  pub found : b.found ≡ true
  pub dst : b.dst ≡ (pre ++ bytes) ++ zeros m
  pub out_pos : b.out_pos ≡ length (pre ++ bytes)
  pub left : Left src rest tail b.in_pos

module _ (pre bytes more_bytes src tail rest : List ℕ) (x y kind in_pos out_pos size j : ℕ)
    (hb : bytes ≡ kind ∷ more_bytes) (all_pre : All IsByte pre) (all_bytes : All IsByte bytes)
    (hx : IsByte x) (hy : IsByte y) (ho : out_pos ≡ length pre) (hs : size ≡ length bytes) where
  abbrev stored : List ℕ
  stored = bytes ++ (x ∷ y ∷ [])

  abbrev stream : List ℕ
  stream = pulses fresh (bits_of stored ++ (0 ∷ tail)) ++ rest

  stream-ne : 0 < length stream
  unfolding bits_of
  stream-ne =
      omega (arith, length-append {0} (pulses fresh (bits_of stored ++ (0 ∷ tail))) rest, front)
    where
      front : 0 < length (pulses fresh (bits_of stored ++ (0 ∷ tail)))
      front = rw hb (some_pulse (kind % 2) (kind / 2 % 2) _)

  start-Stands :
      Stands
        (out_pos + (size + 3 + j))
        (bits_of pre)
        (8 * (size + 3 + j))
        1
        (cursor_at (pre ++ zeros (size + 3 + j)) out_pos)
  start-Stands = record {
    image =
        bits_of-append pre (zeros (size + 3 + j))
        ∙ ap (λ t. bits_of pre ++ t) (bits_of-zeros (size + 3 + j));
    out = omega (arith, length-bits_of pre);
    bitval = refl;
    same_size = omega (
      arith,
      length-append {0} pre (zeros (size + 3 + j)),
      length-replicate {A = ℕ} (size + 3 + j) 0,
    );
    bytes = All-append IsByte pre (zeros (size + 3 + j)) all_pre (zeros-IsByte (size + 3 + j));
  }

  -- The loop on the bits of the block.
  looped :
      (p : ℕ) (front : List ℕ)
      → src ≡ front ++ stream
      → p + 1 ≡ length front
      → Returns
          (decode_loop
            (length src + 1)
            src
            (length src)
            ((out_pos + size + 2) * 8)
            (p + 1)
            (cursor_at (pre ++ zeros (size + 3 + j)) out_pos))
          (Done
            (out_pos + (size + 3 + j))
            ((bits_of pre ++ []) ++ bits_of stored)
            (suc (8 * j + 7))
            src
            rest
            tail)
  looped p front es hp =
      decode_loop-pulses (out_pos + (size + 3 + j)) src rest tail ((out_pos + size + 2) * 8)
        (bits_of stored) after_one (length src + 1) (8 * j + 7) (bits_of pre)
        (bits_of-digits stored) (p + 1) (8 * (size + 3 + j)) front
        (cursor_at (pre ++ zeros (size + 3 + j)) out_pos) start-Stands es hp (omega arith)
        (omega
          (arith, length-bits_of pre, length-bits_of stored, length-append {0} bytes (x ∷ y ∷ [])))
        (omega (arith, length-bits_of pre))
        (omega (arith, length-bits_of stored, length-append {0} bytes (x ∷ y ∷ [])))

  -- The buffer that the loop leaves, as bytes.
  decoded-image :
      (d : Decoded)
      → Done
          (out_pos + (size + 3 + j))
          ((bits_of pre ++ []) ++ bits_of stored)
          (suc (8 * j + 7))
          src
          rest
          tail
          d
      → d.cursor.dst ≡ (pre ++ bytes) ++ (x ∷ y ∷ 0 ∷ zeros j)
  decoded-image d h =
      bits_of-injective d.cursor.dst ((pre ++ bytes) ++ (x ∷ y ∷ 0 ∷ zeros j)) h.bytes
        (All-append IsByte (pre ++ bytes) (x ∷ y ∷ 0 ∷ zeros j)
          (All-append IsByte pre bytes all_pre all_bytes) (hx, (hy, (omega arith, zeros-IsByte j))))
        (h.image ∙ same)
    where
      count : suc (8 * j + 7) ≡ 8 * suc j
      count = omega arith

      same :
          ((bits_of pre ++ []) ++ bits_of stored) ++ zeros (suc (8 * j + 7))
          ≡ bits_of ((pre ++ bytes) ++ (x ∷ y ∷ 0 ∷ zeros j))
      same =
          ap (λ t. (t ++ bits_of stored) ++ zeros (suc (8 * j + 7))) (append-nil (bits_of pre))
          ∙ ap (λ t. t ++ zeros (suc (8 * j + 7))) (sym (bits_of-append pre stored))
          ∙ ap (λ (t : ℕ). bits_of (pre ++ stored) ++ zeros t) count
          ∙ ap (λ t. bits_of (pre ++ stored) ++ t) (sym (bits_of-zeros (suc j)))
          ∙ sym (bits_of-append (pre ++ stored) (zeros (suc j)))
          ∙ ap bits_of (simp append_assoc)

  finished :
      (d : Decoded)
      → Done
          (out_pos + (size + 3 + j))
          ((bits_of pre ++ []) ++ bits_of stored)
          (suc (8 * j + 7))
          src
          rest
          tail
          d
      → Returns
          (finish_block d.cursor.dst d.in_pos in_pos out_pos size kind d.cursor.out)
          (Kept pre bytes (3 + j) src rest tail)
  finished d h = rw (decoded-image d h) (
      ok-Returns (Kept pre bytes (3 + j) src rest tail) _ _
        (finish_block_lem pre bytes out_pos size ho hs more_bytes (zeros j) x y 0 kind d.in_pos
          in_pos d.cursor.out hb ends)
        (record {
          found = refl;
          dst = ap (λ t. (pre ++ bytes) ++ t) (replicate-add 3 j (3 + j) 0 refl);
          out_pos = omega (arith, length-append {0} pre bytes);
          left = h.left;
        }))
    where
      total : length ((bits_of pre ++ []) ++ bits_of stored) ≡ 8 * (out_pos + size + 2)
      total = omega (
        arith,
        length-append {0} (bits_of pre ++ []) (bits_of stored),
        length-append {0} (bits_of pre) [],
        length-bits_of pre,
        length-bits_of stored,
        length-append {0} bytes (x ∷ y ∷ []),
      )

      ends : d.cursor.out / 8 ≡ out_pos + size + 2
      ends = omega (arith, total, h.low, h.high)

  -- Decoding a block of bytes of the expected kind and size that stands behind a gap of at least
  -- MIN_GAP_SIZE clear pulses, with any two checksum bytes, right or wrong, and a clear bit
  -- behind it: when the output has the decoded bytes `pre` and then clear bytes with room for
  -- three more than the block, `block_decode` succeeds, adds exactly the bytes of the block,
  -- leaves clear bytes in the place of the checksum, moves the output position behind the block,
  -- and stops at a pulse of the bits that follow.
  pub block_decode_lem :
      (dst_size : ℕ)
      → out_pos + size + 2 ≤ dst_size
      → AtGap src in_pos stream
      → Returns
          (block_decode
            (pre ++ zeros (size + 3 + j))
            src
            in_pos
            out_pos
            (length src)
            dst_size
            size
            kind)
          (Kept pre bytes (3 + j) src rest tail)
  unfolding block_decode
  block_decode_lem dst_size room gap =
      let stop = gap_scan-AtGap src in_pos stream gap stream-ne in
      rw (le→ltb dst_size (out_pos + size + 2) room, block_decode, Returns)
        (>>=-Returns (λ t. t ≡ some (stop.0)) (Kept pre bytes (3 + j) src rest tail)
          (gap_scan (length src + 1) src (length src) in_pos 0) _
          (ok-Returns (λ t. t ≡ some (stop.0)) (gap_scan (length src + 1) src (length src) in_pos 0)
            (some (stop.0)) (stop.2) refl)
          λ t e. rw e (
            >>=-Returns
              (Done (out_pos + (size + 3 + j)) ((bits_of pre ++ []) ++ bits_of stored)
                (suc (8 * j + 7)) src rest tail)
              (Kept pre bytes (3 + j) src rest tail) _ _
              (looped (stop.0) (stop.1) (stop.3) (stop.4)) λ d h. rw (h.ended) (finished d h)))
