-- ===== src/Raw/Gap.antt =====
-- The scan of `block_decode` for the end of a gap.
use fdsstick.Base.{leb→lt}
use fdsstick.Base.{lt→leb}
use fdsstick.Base.{ℕ, zero, suc, ◌+◌, ◌≤◌, ◌<◌, ◌≡◌, refl, sym, ap, ◌∙◌, arith, true, false}
use fdsstick.Base.{List, [], ◌∷◌, ◌++◌, length, length-append, leb, Bool}
use fdsstick.Base.{
  append_assoc, length-replicate, Run, ok, >>=-ok, read, read_at, some, none, Option, replicate,
}
use fdsstick.Bin.Block.{zeros}
use fdsstick.Raw.{gap_scan, min_gap_size}

within : (a b : ℕ) → a ≤ b → leb a b ≡ true
within a b h = ground arith

-- A clear pulse is counted.
zero_step :
    (fuel in_pos run : ℕ) (front more src : List ℕ)
    → src ≡ front ++ (0 ∷ more)
    → in_pos ≡ length front
    → 1 < length more
    → gap_scan (suc fuel) src (length src) in_pos run
      ≡ gap_scan fuel src (length src) (in_pos + 1) (run + 1)
unfolding gap_scan
zero_step fuel in_pos run front more src e hi hm = >>=-ok (read src in_pos) _ found (rw inside refl)
  where
    found : read src in_pos ≡ ok 0
    found = rw e (read_at front 0 more in_pos hi)

    inside : leb (length src) (in_pos + 2) ≡ false
    inside =
        lt→leb (length src) (in_pos + 2)
          (omega (arith, ap length e, length-append {0} front (0 ∷ more)))

-- A pulse of 1 starts the count again when too few clear pulses stand before it.
pub one_step :
    (fuel in_pos run : ℕ) (front more src : List ℕ)
    → src ≡ front ++ (1 ∷ more)
    → in_pos ≡ length front
    → 1 < length more
    → run < min_gap_size
    → gap_scan (suc fuel) src (length src) in_pos run
      ≡ gap_scan fuel src (length src) (in_pos + 1) 0
unfolding gap_scan
one_step fuel in_pos run front more src e hi hm hr =
    >>=-ok (read src in_pos) _ found (rw (short, inside) refl)
  where
    found : read src in_pos ≡ ok 1
    found = rw e (read_at front 1 more in_pos hi)

    short : leb min_gap_size run ≡ false
    short = lt→leb min_gap_size run hr

    inside : leb (length src) (in_pos + 2) ≡ false
    inside =
        lt→leb (length src) (in_pos + 2)
          (omega (arith, ap length e, length-append {0} front (1 ∷ more)))

-- The gap end is found behind `k` clear pulses, if they are enough with those counted before.
pub gap_scan-zeros :
    (k fuel in_pos run : ℕ) (front more src : List ℕ)
    → src ≡ front ++ (zeros k ++ (1 ∷ more))
    → in_pos ≡ length front
    → min_gap_size ≤ run + k
    → 0 < length more
    → k < fuel
    → gap_scan fuel src (length src) in_pos run ≡ ok (some (in_pos + k))
unfolding gap_scan
gap_scan-zeros k zero in_pos run front more src e hi hr hm hf = absurd (omega arith)
gap_scan-zeros zero (suc fuel) in_pos run front more src e hi hr hm hf =
    >>=-ok (read src in_pos) _ found (rw enough (ap (λ (t : ℕ). ok (some t)) (omega arith)))
  where
    found : read src in_pos ≡ ok 1
    found = rw e (read_at front 1 more in_pos hi)

    enough : leb min_gap_size run ≡ true
    enough = within min_gap_size run (omega arith)
gap_scan-zeros (suc k) (suc fuel) in_pos run front more src e hi hr hm hf =
    zero_step fuel in_pos run front (zeros k ++ (1 ∷ more)) src e hi
      (omega (arith, length-append {0} (zeros k) (1 ∷ more)))
    ∙ gap_scan-zeros k fuel (in_pos + 1) (run + 1) (front ++ (0 ∷ [])) more src
        (e ∙ sym (append_assoc front (0 ∷ []) (zeros k ++ (1 ∷ more))))
        (omega (arith, hi, length-append {0} front (0 ∷ []))) (omega arith) hm (omega arith)
    ∙ ap (λ (t : ℕ). ok (some t)) (omega arith)

-- The same behind the pulse of 1 with which the clear bits begin after a set one.
pub gap_scan-one :
    (k fuel in_pos : ℕ) (front more src : List ℕ)
    → src ≡ front ++ (1 ∷ (zeros k ++ (1 ∷ more)))
    → in_pos ≡ length front
    → min_gap_size ≤ k
    → 0 < length more
    → k + 1 < fuel
    → gap_scan fuel src (length src) in_pos 0 ≡ ok (some (in_pos + 1 + k))
gap_scan-one k zero in_pos front more src e hi hk hm hf = absurd (omega arith)
gap_scan-one k (suc fuel) in_pos front more src e hi hk hm hf =
    one_step fuel in_pos 0 front (zeros k ++ (1 ∷ more)) src e hi
      (omega (arith, length-append {0} (zeros k) (1 ∷ more))) (omega arith)
    ∙ gap_scan-zeros k fuel (in_pos + 1) 0 (front ++ (1 ∷ [])) more src
        (e ∙ sym (append_assoc front (1 ∷ []) (zeros k ++ (1 ∷ more))))
        (omega (arith, hi, length-append {0} front (1 ∷ []))) (omega arith) hm (omega arith)

stop_or_go :
    (b : Bool) (r : Run (Option ℕ))
    → (b ≡ false → r ≡ ok none)
    → elim b [ true ↦ ok none | false ↦ r ] ≡ ok none
stop_or_go true r h = refl
stop_or_go false r h = h refl

-- Where only clear pulses and then undefined ones are left, two or more in all, and the fuel
-- exceeds their number, the scan of `block_decode` ends without a gap end.
pub gap_scan-none :
    (k r fuel in_pos run : ℕ) (front src : List ℕ)
    → src ≡ front ++ (zeros k ++ replicate r 3)
    → in_pos ≡ length front
    → 1 < k + r
    → k + r < fuel
    → gap_scan fuel src (length src) in_pos run ≡ ok none
unfolding gap_scan
gap_scan-none k r zero in_pos run front src e hi hm hf = absurd (omega arith)
gap_scan-none zero zero (suc fuel) in_pos run front src e hi hm hf = absurd (omega arith)
gap_scan-none zero (suc r) (suc fuel) in_pos run front src e hi hm hf =
    >>=-ok (read src in_pos) _ found (
      stop_or_go (leb (length src) (in_pos + 2)) (gap_scan fuel src (length src) (in_pos + 1) 0)
        λ h.
          gap_scan-none zero r fuel (in_pos + 1) 0 (front ++ (3 ∷ [])) src
            (e ∙ sym (append_assoc front (3 ∷ []) (replicate r 3)))
            (omega (arith, hi, length-append {0} front (3 ∷ []))) (two_left h) (omega arith))
  where
    found : read src in_pos ≡ ok 3
    found = rw e (read_at front 3 (replicate r 3) in_pos hi)

    sizes : length src ≡ length front + suc r
    sizes = omega (
      arith,
      ap length e,
      length-append {0} front (replicate (suc r) 3),
      length-replicate {A = ℕ} (suc r) 3,
    )

    two_left : leb (length src) (in_pos + 2) ≡ false → 1 < zero + r
    two_left h = omega (arith, sizes, hi, leb→lt (length src) (in_pos + 2) h)
gap_scan-none (suc k) r (suc fuel) in_pos run front src e hi hm hf =
    >>=-ok (read src in_pos) _ found (
      stop_or_go (leb (length src) (in_pos + 2))
        (gap_scan fuel src (length src) (in_pos + 1) (run + 1))
        λ h.
          gap_scan-none k r fuel (in_pos + 1) (run + 1) (front ++ (0 ∷ [])) src
            (e ∙ sym (append_assoc front (0 ∷ []) (zeros k ++ replicate r 3)))
            (omega (arith, hi, length-append {0} front (0 ∷ []))) (two_left h) (omega arith))
  where
    found : read src in_pos ≡ ok 0
    found = rw e (read_at front 0 (zeros k ++ replicate r 3) in_pos hi)

    sizes : length src ≡ length front + suc (k + r)
    sizes = omega (
      arith,
      ap length e,
      length-append {0} front (zeros (suc k) ++ replicate r 3),
      length-append {0} (zeros (suc k)) (replicate r 3),
      length-replicate {A = ℕ} (suc k) 0,
      length-replicate {A = ℕ} r 3,
    )

    two_left : leb (length src) (in_pos + 2) ≡ false → 1 < k + r
    two_left h = omega (arith, sizes, hi, leb→lt (length src) (in_pos + 2) h)
