-- ===== src/Raw/AtGap.antt =====
-- A gap before a block, and the scan of `block_decode` to its end.
use fdsstick.Base.{ℕ, suc, ◌+◌, ◌≤◌, ◌<◌, ◌≡◌, ap, ◌∙◌, arith}
use fdsstick.Base.{List, [], ◌∷◌, ◌++◌, length, length-append, some}
use fdsstick.Base.{append_assoc, length-replicate, ok}
use fdsstick.Bin.Block.{zeros}
use fdsstick.Raw.Gap.{gap_scan-zeros, gap_scan-one}
use fdsstick.Raw.{min_gap_size, gap_scan}

-- A gap that is long enough, its end, and `more` behind it.
pub data AtGap (src : List ℕ) (in_pos : ℕ) (more : List ℕ) : Type 0 where
  clear :
      (k : ℕ) (front : List ℕ)
      → src ≡ front ++ (zeros k ++ (1 ∷ more))
      → in_pos ≡ length front
      → min_gap_size ≤ k
      → AtGap src in_pos more
  behind_one :
      (k : ℕ) (front : List ℕ)
      → src ≡ front ++ (1 ∷ (zeros k ++ (1 ∷ more)))
      → in_pos ≡ length front
      → min_gap_size ≤ k
      → AtGap src in_pos more

-- The scan stops at the pulse before `more`.
abbrev Stops : List ℕ → ℕ → List ℕ → Type 0
Stops src in_pos more =
    (p : ℕ) × (front : List ℕ) × (gap_scan (length src + 1) src (length src) in_pos 0 ≡ ok (some p))
    × (src ≡ front ++ more)
    × (p + 1 ≡ length front)

pub gap_scan-AtGap :
    (src : List ℕ) (in_pos : ℕ) (more : List ℕ)
    → AtGap src in_pos more
    → 0 < length more
    → Stops src in_pos more
gap_scan-AtGap src in_pos more (clear k front e hi hk) hm = (
  in_pos + k,
  (front ++ zeros k) ++ (1 ∷ []),
  gap_scan-zeros k (length src + 1) in_pos 0 front more src e hi (omega arith) hm
      (omega (arith, sizes)),
  e ∙ simp append_assoc,
  omega (
    arith,
    hi,
    length-append {0} (front ++ zeros k) (1 ∷ []),
    length-append {0} front (zeros k),
    length-replicate {A = ℕ} k 0,
  ),
)
  where
    sizes : length src ≡ length front + (k + suc (length more))
    sizes = omega (
      arith,
      ap length e,
      length-append {0} front (zeros k ++ (1 ∷ more)),
      length-append {0} (zeros k) (1 ∷ more),
      length-replicate {A = ℕ} k 0,
    )
gap_scan-AtGap src in_pos more (behind_one k front e hi hk) hm = (
  in_pos + 1 + k,
  (front ++ (1 ∷ zeros k)) ++ (1 ∷ []),
  gap_scan-one k (length src + 1) in_pos front more src e hi hk hm (omega (arith, sizes)),
  e ∙ simp append_assoc,
  omega (
    arith,
    hi,
    length-append {0} (front ++ (1 ∷ zeros k)) (1 ∷ []),
    length-append {0} front (1 ∷ zeros k),
    length-replicate {A = ℕ} k 0,
  ),
)
  where
    sizes : length src ≡ length front + suc (k + suc (length more))
    sizes = omega (
      arith,
      ap length e,
      length-append {0} front (1 ∷ (zeros k ++ (1 ∷ more))),
      length-append {0} (zeros k) (1 ∷ more),
      length-replicate {A = ℕ} k 0,
    )
