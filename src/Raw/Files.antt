-- ===== src/Raw/Files.antt =====
-- The loop of `raw03_to_fds` over the files of a side.
use fdsstick.Base.{ℕ, ◌+◌, ◌-◌, ◌≤◌, ◌<◌, ◌≡◌, refl, ap, ◌∙◌, arith, true, false}
use fdsstick.Base.{List, [], ◌∷◌, ◌++◌, length, length-append, get_or, ltb, none, Bool}
use fdsstick.Base.{
  append_assoc, All, Run, ok, fault, stuck, ◌>>=◌, >>=-ok, Returns, read, read_inside,
}
use fdsstick.Base.Bits.{bit_or_high}
use fdsstick.Crc.Check.{IsByte}
use fdsstick.Bin.Block.{zeros, crc_of}
use fdsstick.Bin.Layout.{FileBlocks, IsFile}
use fdsstick.Raw.Pulses.{bits_of, fresh, pulses}
use fdsstick.Raw.States.{Left}
use fdsstick.Raw.AtGap.{AtGap}
use fdsstick.Raw.Decode.{Kept, block_decode_lem}
use fdsstick.Raw.Stream.{after_bits, Left-AtGap}
use fdsstick.Raw.{not_found, min_gap_size, gap_scan, block_decode, contents_size}

-- A file whose two blocks have their codes.
pub record IsReadable (f : FileBlocks) : Type 0 where
  pub file : IsFile f
  pub rest : List ℕ
  pub contents_kind : f.contents ≡ 4 ∷ rest
  pub header_bytes : All IsByte f.header
  pub contents_bytes : All IsByte f.contents

-- The blocks of the files as an .FDS file has them.
abbrev pub flat : List FileBlocks → List ℕ
flat [] = []
flat (f ∷ fs) = f.header ++ (f.contents ++ flat fs)

pub Returns-bind :
    {A : Type 0} {B : Type 0} (P : A → Type 0) (m : Run A) (f : A → Run B) (r : Run B)
    → Returns m P
    → ((a : A) → P a → f a ≡ r)
    → (m >>= f) ≡ r
Returns-bind P (ok a) f r h k = k a h
Returns-bind P fault f r h k = absurd h
Returns-bind P stuck f r h k = absurd h

either_way : {A : Type 0} (b : Bool) (r x : Run A) → r ≡ x → elim b [ true ↦ x | false ↦ r ] ≡ x
either_way true r x h = refl
either_way false r x h = h

-- Without a gap end, no block is found.
pub block_decode-none :
    (dst src : List ℕ) (in_pos out_pos dst_size size kind : ℕ)
    → gap_scan (length src + 1) src (length src) in_pos 0 ≡ ok none
    → block_decode dst src in_pos out_pos (length src) dst_size size kind
      ≡ ok (not_found dst in_pos out_pos)
unfolding block_decode
block_decode-none dst src in_pos out_pos dst_size size kind e =
    either_way (ltb dst_size (out_pos + size + 2)) _ (ok (not_found dst in_pos out_pos))
      (>>=-ok _ _ e refl)

-- The block decoded behind `pre` into a buffer that is clear there, with its kind first.
pub decode_next :
    (pre bytes more dst src rest : List ℕ) (block_list : List (List ℕ))
    (kind g u in_pos out_pos dst_size size j : ℕ)
    → bytes ≡ kind ∷ more
    → All IsByte pre
    → All IsByte bytes
    → dst ≡ pre ++ zeros (size + 3 + j)
    → out_pos ≡ length pre
    → size ≡ length bytes
    → out_pos + size + 2 ≤ dst_size
    → AtGap src in_pos
        (pulses fresh (bits_of (bytes ++ crc_of bytes) ++ (0 ∷ after_bits g u block_list)) ++ rest)
    → Returns
        (block_decode dst src in_pos out_pos (length src) dst_size size kind)
        (Kept pre bytes (3 + j) src rest (after_bits g u block_list))
decode_next pre bytes more dst src rest block_list kind g u in_pos out_pos dst_size size j hb hp hx
      ed ho hs room gap =
    rw ed (
      block_decode_lem pre bytes more src (after_bits g u block_list) rest _ _ kind in_pos out_pos
        size j hb hp hx (omega arith) (omega arith) ho hs dst_size room gap)

-- The gap before the next block, where one is left.
pub next_gap :
    (g u in_pos : ℕ) (src rest b : List ℕ) (bs : List (List ℕ))
    → min_gap_size < g
    → Left src rest (after_bits g u (b ∷ bs)) in_pos
    → AtGap src in_pos (pulses fresh (bits_of (b ++ crc_of b) ++ (0 ∷ after_bits g u bs)) ++ rest)
unfolding after_bits
next_gap g u in_pos src rest b bs hg h =
    Left-AtGap (g + 7) in_pos src rest (bits_of (b ++ crc_of b) ++ (0 ∷ after_bits g u bs))
      (omega arith) h

-- The size of the contents, read from the header just decoded.
pub contents_size_lem :
    (pre zs dst : List ℕ) (f : FileBlocks) (out : ℕ)
    → IsFile f
    → dst ≡ (pre ++ f.header) ++ zs
    → out ≡ length (pre ++ f.header)
    → contents_size dst out ≡ ok (length f.contents)
unfolding contents_size
contents_size_lem pre zs dst f out good ed ho = >>=-ok _ _ (at 13 (omega arith)) (
    >>=-ok _ _ (at 14 (omega arith)) (
      ap ok (
        omega (
          arith,
          bit_or_high 8 (get_or f.header 13 0) (get_or f.header 14 0) good.low,
          good.size,
        ))))
  where
    at : (k : ℕ) → k < 16 → read dst (out - 16 + k) ≡ ok (get_or f.header k 0)
    at k h =
        ap (λ t. read t (out - 16 + k)) (ed ∙ append_assoc pre f.header zs)
        ∙ read_inside pre f.header zs (out - 16 + k) k
            (omega (arith, ho, length-append {0} pre f.header, good.header_length))
            (omega (arith, good.header_length))

pub header_kind :
    (xs : List ℕ) → length xs ≡ 16 → get_or xs 0 0 ≡ 3 → (more : List ℕ) × (xs ≡ 3 ∷ more)
header_kind [] h e = absurd (omega arith)
header_kind (x ∷ xs) h e = (xs, ap (λ (t : ℕ). t ∷ xs) e)
