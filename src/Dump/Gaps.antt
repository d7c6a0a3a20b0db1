-- ===== src/Dump/Gaps.antt =====
-- What `nextGapEnd` and `mark_gap_start` do with a gap.
use fdsstick.Base.{ne→==}
use fdsstick.Base.{
  ℕ, zero, suc, ◌+◌, ◌≤◌, ◌<◌, ◌≡◌, ◌≢◌, refl, sym, ap, ◌∙◌, arith, true, false, List, [], ◌∷◌,
  ◌++◌, length, length-append, length-replicate, append_assoc, ok, >>=-ok, read, read_at, write,
  write_at, ltb, lt→ltb, le→ltb, ◌==◌, when_false,
}
use mathlib.Core.Path.{subst}
use fdsstick.Bin.Block.{zeros}
use fdsstick.Dump.{gap_start, mark_gap_start, gap_end_loop, next_gap_end, min_gap}

-- The scan ends behind the pulse of 1 that `k` clear ones precede.
gap_end_loop-zeros :
    (k fuel : ℕ) (front more raw : List ℕ) (in_pos raw_size clear : ℕ)
    → raw ≡ front ++ (zeros k ++ (1 ∷ more))
    → in_pos ≡ length front
    → in_pos + k ≤ raw_size
    → min_gap ≤ clear + k
    → k < fuel
    → gap_end_loop fuel raw in_pos raw_size clear ≡ ok (in_pos + k + 1)
unfolding gap_end_loop
gap_end_loop-zeros k zero front more raw in_pos raw_size clear e hi hs hm hf = absurd (omega arith)
gap_end_loop-zeros zero (suc fuel) front more raw in_pos raw_size clear e hi hs hm hf =
    >>=-ok (read raw in_pos) _ found (
      when_false (ltb clear min_gap) _ _ (le→ltb clear min_gap (omega arith))
      ∙ ap (λ (t : ℕ). ok t) (omega arith))
  where
    found : read raw in_pos ≡ ok 1
    found = rw e (read_at front 1 more in_pos hi)
gap_end_loop-zeros (suc k) (suc fuel) front more raw in_pos raw_size clear e hi hs hm hf =
    >>=-ok (read raw in_pos) _ found (
      ap
        (λ b. elim b [
          | false ↦ ok (in_pos + 1)
          | true ↦ gap_end_loop fuel raw (in_pos + 1) raw_size (clear + 1)
        ])
        (lt→ltb in_pos raw_size (omega arith))
      ∙ gap_end_loop-zeros k fuel (front ++ (0 ∷ [])) more raw (in_pos + 1) raw_size (clear + 1)
          (e ∙ sym (append_assoc front (0 ∷ []) (zeros k ++ (1 ∷ more))))
          (omega (arith, length-append {0} front (0 ∷ []))) (omega arith) (omega arith)
          (omega arith)
      ∙ ap (λ (t : ℕ). ok t) (omega arith))
  where
    found : read raw in_pos ≡ ok 0
    found = rw e (read_at front 0 (zeros k ++ (1 ∷ more)) in_pos hi)

-- From the start of a gap of MIN_GAP clear pulses or more that ends in a pulse of 1 inside the
-- pulses or right behind them, `nextGapEnd` returns the position behind that pulse.
pub next_gap_end_lem :
    (k : ℕ) (front more : List ℕ) (raw_size : ℕ)
    → min_gap ≤ k
    → length front + k ≤ raw_size
    → next_gap_end (front ++ (zeros k ++ (1 ∷ more))) (length front) raw_size
      ≡ ok (length front + k + 1)
unfolding next_gap_end
next_gap_end_lem k front more raw_size hk hs =
    gap_end_loop-zeros k (raw_size + 2) front more _ (length front) raw_size 0 refl refl hs
      (omega arith) (omega arith)

-- The scan back ends behind the last pulse that is not clear.
gap_start-zeros :
    (k : ℕ) (front more raw : List ℕ) (v end : ℕ)
    → v ≢ 0
    → raw ≡ front ++ (v ∷ (zeros k ++ more))
    → end ≡ length front + 1 + k
    → gap_start raw end ≡ ok (length front + 1)
unfolding gap_start
gap_start-zeros k front more raw v zero hv e he = absurd (omega arith)
gap_start-zeros zero front more raw v (suc i) hv e he =
    >>=-ok (read raw i) _ found
      (when_false (v == 0) _ _ (ne→== v 0 hv) ∙ ap (λ (t : ℕ). ok t) (omega arith))
  where
    found : read raw i ≡ ok v
    found = rw e (read_at front v more i (omega arith))
gap_start-zeros (suc k) front more raw v (suc i) hv e he =
    >>=-ok (read raw i) _ found
      (gap_start-zeros k front (0 ∷ more) raw v i hv (e ∙ regroup) (omega arith))
  where
    last_zero : (n : ℕ) → zeros (suc n) ++ more ≡ zeros n ++ (0 ∷ more)
    last_zero zero = refl
    last_zero (suc n) = ap (λ t. 0 ∷ t) (last_zero n)

    regroup : front ++ (v ∷ (zeros (suc k) ++ more)) ≡ front ++ (v ∷ (zeros k ++ (0 ∷ more)))
    regroup = ap (λ t. front ++ (v ∷ t)) (last_zero k)

    found : read raw i ≡ ok 0
    found =
        subst (λ t. read t i ≡ ok 0)
          (append_assoc front (v ∷ zeros k) (0 ∷ more) ∙ sym (e ∙ regroup))
          (read_at (front ++ (v ∷ zeros k)) 0 more i (
            omega (arith, length-append {0} front (v ∷ zeros k), length-replicate {0} {A = ℕ} k 0)))

-- From the end of one or more clear pulses, `mark_gap_start` marks the first of them, the one
-- behind the last pulse that is not clear, with a 3, and changes nothing else.
pub mark_gap_start_lem :
    (k : ℕ) (front more : List ℕ) (v : ℕ)
    → v ≢ 0
    → mark_gap_start (front ++ (v ∷ (zeros (suc k) ++ more))) (length front + 1 + suc k)
      ≡ ok (front ++ (v ∷ 3 ∷ (zeros k ++ more)))
unfolding mark_gap_start
mark_gap_start_lem k front more v hv =
    >>=-ok _ _ (gap_start-zeros (suc k) front more _ v (length front + 1 + suc k) hv refl refl) (
      subst (λ t. write t (length front + 1) 3 ≡ ok (front ++ (v ∷ 3 ∷ (zeros k ++ more))))
        (append_assoc front (v ∷ []) (0 ∷ (zeros k ++ more)))
        (write_at (front ++ (v ∷ [])) 0 (zeros k ++ more) 3 (length front + 1)
            (omega (arith, length-append {0} front (v ∷ [])))
          ∙ ap ok (append_assoc front (v ∷ []) (3 ∷ (zeros k ++ more)))))
