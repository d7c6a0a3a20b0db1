-- ===== src/Raw/Stream.antt =====
-- The bits of blocks with gaps of `g + 1` bits between them, and the pulses at such a gap.
use fdsstick.Base.{ℕ, zero, suc, ◌+◌, ◌<◌, ◌≡◌, refl, sym, ap, ◌∙◌, arith}
use fdsstick.Base.{List, [], ◌∷◌, ◌++◌, length, length-append, replicate, replicate-add}
use fdsstick.Base.{append_assoc, length-replicate, ok, none}
use fdsstick.Bin.Block.{zeros, crc_of, block_image}
use fdsstick.Bin.Layout.{FileBlocks, gap, laid_block}
use fdsstick.Raw.Pulses.{bits_of, fresh, begun, pulses}
use fdsstick.Raw.Image.{bits_of-append}
use fdsstick.Raw.States.{Left, even, run, spare}
use fdsstick.Raw.Gap.{gap_scan-none, one_step}
use fdsstick.Raw.AtGap.{AtGap, clear, behind_one}
use fdsstick.Raw.{min_gap_size, gap_scan}

-- What stands behind the first bit of the gap before the blocks, when each gap has `g` more and
-- `u` clear bits follow the last gap.
unfoldable pub after_bits : ℕ → ℕ → List (List ℕ) → List ℕ
after_bits g u [] = zeros (g + u)
after_bits g u (b ∷ bs) =
    zeros (g + 7) ++ (1 ∷ (bits_of (b ++ crc_of b) ++ (0 ∷ after_bits g u bs)))

abbrev pub laid_all : List (List ℕ) → List ℕ
laid_all [] = []
laid_all (b ∷ bs) = laid_block b ++ laid_all bs

abbrev pub file_blocks : List FileBlocks → List (List ℕ)
file_blocks [] = []
file_blocks (f ∷ fs) = f.header ∷ f.contents ∷ file_blocks fs

-- The bits of a block on the disk.
pub bits_of-block_image :
    (b : List ℕ) → bits_of (block_image b) ≡ zeros 7 ++ (1 ∷ bits_of (b ++ crc_of b))
unfolding bits_of block_image
bits_of-block_image b = refl

module _ (g : ℕ) (hg : bits_of gap ≡ zeros (suc g)) where
  pub bits_of-laid_block :
      (b w : List ℕ)
      → bits_of (laid_block b ++ w)
        ≡ zeros 7 ++ (1 ∷ (bits_of (b ++ crc_of b) ++ (zeros (suc g) ++ bits_of w)))
  bits_of-laid_block b w =
      bits_of-append (laid_block b) w
      ∙ ap (λ t. t ++ bits_of w) (bits_of-append (block_image b) gap)
      ∙ ap (λ t. (t ++ bits_of gap) ++ bits_of w) (bits_of-block_image b)
      ∙ ap (λ t. ((zeros 7 ++ (1 ∷ bits_of (b ++ crc_of b))) ++ t) ++ bits_of w) hg
      ∙ append_assoc (zeros 7 ++ (1 ∷ bits_of (b ++ crc_of b))) (zeros (suc g)) (bits_of w)

  -- The same with more bits behind it.
  pub bits_of-laid_block_more :
      (b w more : List ℕ)
      → bits_of (laid_block b ++ w) ++ more
        ≡ zeros 7 ++ (1 ∷ (bits_of (b ++ crc_of b) ++ (zeros (suc g) ++ (bits_of w ++ more))))
  bits_of-laid_block_more b w more =
      ap (λ t. t ++ more) (bits_of-laid_block b w)
      ∙ ap (λ t. zeros 7 ++ (1 ∷ t))
          (append_assoc (bits_of (b ++ crc_of b)) (zeros (suc g) ++ bits_of w) more
            ∙ ap (λ t. bits_of (b ++ crc_of b) ++ t)
                (append_assoc (zeros (suc g)) (bits_of w) more))

  pub after_bits-laid_all :
      (u : ℕ) (bs : List (List ℕ))
      → zeros (suc g) ++ (bits_of (laid_all bs) ++ zeros u) ≡ 0 ∷ after_bits g u bs
  unfolding after_bits bits_of
  after_bits-laid_all u [] = ap (λ t. 0 ∷ t) (replicate-add g u (g + u) 0 refl)
  after_bits-laid_all u (b ∷ bs) =
      ap (λ t. zeros (suc g) ++ t)
        (bits_of-laid_block_more b (laid_all bs) (zeros u)
          ∙ ap (λ t. zeros 7 ++ (1 ∷ (bits_of (b ++ crc_of b) ++ t))) (after_bits-laid_all u bs))
      ∙ sym (
          append_assoc (zeros (suc g)) (zeros 7)
            (1 ∷ (bits_of (b ++ crc_of b) ++ (0 ∷ after_bits g u bs))))
      ∙ ap (λ t. t ++ (1 ∷ (bits_of (b ++ crc_of b) ++ (0 ∷ after_bits g u bs))))
          (replicate-add (suc g) 7 (suc (g + 7)) 0 (omega arith))

pulses-clear :
    (k : ℕ) (bs : List ℕ)
    → pulses (begun 0) (zeros k ++ (1 ∷ bs)) ≡ zeros k ++ (1 ∷ pulses fresh bs)
unfolding pulses
pulses-clear zero bs = refl
pulses-clear (suc k) bs = ap (λ t. 0 ∷ t) (pulses-clear k bs)

pub pulses-lead :
    (k : ℕ) (bs rest : List ℕ)
    → pulses (begun 0) (zeros k ++ (1 ∷ bs)) ++ rest ≡ zeros k ++ (1 ∷ (pulses fresh bs ++ rest))
pulses-lead k bs rest =
    ap (λ t. t ++ rest) (pulses-clear k bs) ∙ append_assoc (zeros k) (1 ∷ pulses fresh bs) rest

pub pulses-lead_one :
    (k : ℕ) (bs rest : List ℕ)
    → pulses fresh (0 ∷ 0 ∷ (zeros k ++ (1 ∷ bs))) ++ rest
      ≡ 1 ∷ (zeros k ++ (1 ∷ (pulses fresh bs ++ rest)))
unfolding pulses
pulses-lead_one k bs rest = ap (λ t. 1 ∷ t) (pulses-lead k bs rest)

-- Whatever the decoder left, a gap follows.
pub Left-AtGap :
    (k p : ℕ) (src rest bs : List ℕ)
    → min_gap_size < k
    → Left src rest (zeros k ++ (1 ∷ bs)) p
    → AtGap src p (pulses fresh bs ++ rest)
Left-AtGap zero p src rest bs hk h = absurd (omega arith)
Left-AtGap (suc k) p src rest bs hk (even front e hp) =
    behind_one k front (e ∙ ap (λ t. front ++ t) (pulses-lead_one k bs rest)) hp (omega arith)
Left-AtGap (suc k) p src rest bs hk (run front e hp) =
    clear (suc (suc k)) front (e ∙ ap (λ t. front ++ t) (pulses-lead (suc (suc k)) bs rest)) hp
      (omega arith)
Left-AtGap (suc k) p src rest bs hk (spare front e hp) =
    clear (suc k) front (e ∙ ap (λ t. front ++ t) (pulses-lead (suc k) bs rest)) hp (omega arith)

pulses-all_clear : (k : ℕ) → pulses (begun 0) (zeros k) ≡ zeros k
unfolding pulses
pulses-all_clear zero = refl
pulses-all_clear (suc k) = ap (λ t. 0 ∷ t) (pulses-all_clear k)

pulses-all_clear_one : (k : ℕ) → pulses fresh (zeros (suc (suc k))) ≡ 1 ∷ zeros k
unfolding pulses
pulses-all_clear_one k = ap (λ t. 1 ∷ t) (pulses-all_clear k)

sizes :
    (front cells threes src : List ℕ)
    → src ≡ front ++ (cells ++ threes)
    → length src ≡ length front + length cells + length threes
sizes front cells threes src e =
    omega (
      arith,
      ap length e,
      length-append {0} front (cells ++ threes),
      length-append {0} cells threes,
    )

-- Clear pulses up to the undefined ones.
clear_end :
    (k r p : ℕ) (front src : List ℕ)
    → 1 < k
    → src ≡ front ++ (zeros k ++ replicate r 3)
    → p ≡ length front
    → gap_scan (length src + 1) src (length src) p 0 ≡ ok none
clear_end k r p front src hk e hp =
    gap_scan-none k r (length src + 1) p 0 front src e hp (omega arith) (
      omega (
        arith,
        sizes front (zeros k) (replicate r 3) src e,
        length-replicate {A = ℕ} k 0,
        length-replicate {A = ℕ} r 3,
      ))

-- Behind the last block no gap end is found.
pub Left-none :
    (g r p : ℕ) (src : List ℕ)
    → 3 < g
    → Left src (replicate r 3) (zeros g) p
    → gap_scan (length src + 1) src (length src) p 0 ≡ ok none
Left-none zero r p src hg h = absurd (omega arith)
Left-none (suc g) r p src hg (even front e hp) =
    ap (λ (t : ℕ). gap_scan t src (length src) p 0) fuel
    ∙ one_step (length src) p 0 front (zeros g ++ replicate r 3) src one hp
        (omega (arith, length-append {0} (zeros g) (replicate r 3), length-replicate {A = ℕ} g 0))
        (omega arith)
    ∙ gap_scan-none g r (length src) (p + 1) 0 (front ++ (1 ∷ [])) src
        (one ∙ sym (append_assoc front (1 ∷ []) (zeros g ++ replicate r 3)))
        (omega (arith, hp, length-append {0} front (1 ∷ []))) (omega arith)
        (omega (
          arith,
          sizes front (1 ∷ zeros g) (replicate r 3) src one,
          length-replicate {A = ℕ} g 0,
          length-replicate {A = ℕ} r 3,
        ))
  where
    fuel : length src + 1 ≡ suc (length src)
    fuel = omega arith

    one : src ≡ front ++ (1 ∷ (zeros g ++ replicate r 3))
    one = e ∙ ap (λ t. front ++ (t ++ replicate r 3)) (pulses-all_clear_one g)
Left-none (suc g) r p src hg (run front e hp) =
    clear_end (suc (suc g)) r p front src (omega arith)
      (e ∙ ap (λ t. front ++ (t ++ replicate r 3)) (pulses-all_clear (suc (suc g)))) hp
Left-none (suc g) r p src hg (spare front e hp) =
    clear_end (suc g) r p front src (omega arith)
      (e ∙ ap (λ t. front ++ (t ++ replicate r 3)) (pulses-all_clear (suc g))) hp
