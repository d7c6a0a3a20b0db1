-- ===== src/Raw/Loop.antt =====
-- The decoding loop on the pulses of a list of bits.
use fdsstick.Base.{ℕ, zero, suc, ◌+◌, ◌≤◌, ◌<◌, ◌≡◌, refl, sym, ap, ◌∙◌, arith}
use fdsstick.Base.{List, [], ◌∷◌, ◌++◌, length, length-append, le→ltb}
use fdsstick.Base.{append_assoc, append-nil, All, Returns}
use fdsstick.Base.{◌≢◌}
use fdsstick.Bin.Block.{zeros}
use fdsstick.Raw.Pulses.{begun, pulses}
use fdsstick.Raw.Step.{Stands, zero_behind_zero, one_behind_zero, zero_behind_one, one_behind_one}
use fdsstick.Raw.Step.{two_behind_one}
use fdsstick.Raw.{Cursor, decode_pulse, decode_loop}
use fdsstick.Raw.States.{State, after_one, one_zero, more_zeros, pending, last, lag, spare, Done}
use fdsstick.Raw.Turn.{round, go_on, after_pulse}

module _ (size : ℕ) (src rest tail : List ℕ) (out_end : ℕ) where
  snoc_cells :
      (front cells : List ℕ) (x : ℕ)
      → front ++ ((x ∷ cells) ++ rest) ≡ (front ++ (x ∷ [])) ++ (cells ++ rest)
  snoc_cells front cells x = sym (append_assoc front (x ∷ []) (cells ++ rest))

  length-snoc : (xs : List ℕ) (x : ℕ) → length xs + 1 ≡ length (xs ++ (x ∷ []))
  length-snoc xs x = omega (arith, length-append {0} xs (x ∷ []))

  pos_of_ne : (bs : List ℕ) → bs ≢ [] → 0 < length bs
  pos_of_ne [] ne = absurd (ne refl)
  pos_of_ne (b ∷ bs) ne = omega arith

  -- What the loop does with the bits `bs` from a state, behind the bits `xs`.
  abbrev Decodes : List ℕ → State → ℕ → ℕ → List ℕ → Type 0
  Decodes bs st fuel n xs =
      (in_pos m : ℕ) (front : List ℕ) (c : Cursor)
      → Stands size xs m (last st) c
      → src ≡ front ++ (pulses (pending st) (bs ++ (0 ∷ tail)) ++ rest)
      → in_pos ≡ length front
      → length src < in_pos + fuel
      → length xs + length (lag st) + length bs ≡ out_end
      → length xs < out_end
      → m ≡ length (lag st) + length bs + suc n
      → Returns (decode_loop fuel src (length src) out_end in_pos c)
          (Done size ((xs ++ lag st) ++ bs) (suc n) src rest tail)

  -- A pulse behind which nothing is due, then the rest of the bits.
  emit :
      (bs : List ℕ) (st : State) (fuel n : ℕ) (xs : List ℕ) (pulse in_pos : ℕ) (front : List ℕ)
      (c : Cursor)
      → lag st ≡ []
      → src ≡ front ++ ((pulse ∷ pulses (pending st) (bs ++ (0 ∷ tail))) ++ rest)
      → in_pos ≡ length front
      → length src < in_pos + suc fuel
      → length xs + length bs ≡ out_end
      → Returns (decode_pulse pulse c) (Stands size xs (length bs + suc n) (last st))
      → Decodes bs st fuel n xs
      → Returns
          (decode_loop (suc fuel) src (length src) out_end in_pos c)
          (Done size (xs ++ bs) (suc n) src rest tail)
  emit bs st fuel n xs pulse in_pos front c none es hi hf he hp more =
      round size src rest tail out_end fuel in_pos pulse front
        (pulses (pending st) (bs ++ (0 ∷ tail)) ++ rest) c
        (Stands size xs (length bs + suc n) (last st)) (Done size (xs ++ bs) (suc n) src rest tail)
        es hi hp
        λ c' h.
          go_on size src rest tail out_end fuel in_pos (length bs + suc n) (suc n) xs
            (front ++ (pulse ∷ [])) st bs c' none h behind after he refl
            λ ne.
              rw (none, append-nil xs) at
                (more (in_pos + 1) (length bs + suc n) (front ++ (pulse ∷ [])) c' h behind after
                  (omega arith) (omega (arith, nothing)) (omega (arith, pos_of_ne bs ne))
                  (omega (arith, nothing)))
    where
      nothing : length (lag st) ≡ 0
      nothing = ap length none

      behind : src ≡ (front ++ (pulse ∷ [])) ++ (pulses (pending st) (bs ++ (0 ∷ tail)) ++ rest)
      behind = es ∙ snoc_cells front (pulses (pending st) (bs ++ (0 ∷ tail))) pulse

      after : in_pos + 1 ≡ length (front ++ (pulse ∷ []))
      after = omega (arith, hi, length-snoc front pulse)

  -- The bit 0 that is due when the bits end, written with the one behind them.
  finish :
      (fuel in_pos n : ℕ) (xs front : List ℕ) (c : Cursor)
      → src ≡ front ++ ((1 ∷ pulses (begun 0) tail) ++ rest)
      → in_pos ≡ length front
      → length xs + 1 ≡ out_end
      → Stands size xs (suc (suc n)) 1 c
      → Returns
          (decode_loop (suc fuel) src (length src) out_end in_pos c)
          (Done size (xs ++ (0 ∷ [])) (suc n) src rest tail)
  unfolding after_pulse
  finish fuel in_pos n xs front c es hi he h =
      round size src rest tail out_end fuel in_pos 1 front (pulses (begun 0) tail ++ rest) c
        (Stands size ((xs ++ (0 ∷ [])) ++ (0 ∷ [])) n 0)
        (Done size (xs ++ (0 ∷ [])) (suc n) src rest tail) es hi (one_behind_one size n xs c h)
        λ c' h'.
          let past : out_end ≤ c'.out =
            omega (arith, h'.out, length-snoc xs 0, length-snoc (xs ++ (0 ∷ [])) 0, he) in
          rw (le→ltb c'.out out_end past, after_pulse)
            (record {
              ended = refl;
              left =
                  spare (front ++ (1 ∷ [])) (es ∙ snoc_cells front (pulses (begun 0) tail) 1)
                    (omega (arith, hi, length-snoc front 1));
              image = h'.image ∙ append_assoc (xs ++ (0 ∷ [])) (0 ∷ []) (zeros n);
              low = omega (arith, h'.out, length-snoc (xs ++ (0 ∷ [])) 0);
              high = omega (arith, h'.out, length-snoc (xs ++ (0 ∷ [])) 0);
              same_size = h'.same_size;
              bytes = h'.bytes;
            })

  -- From any state, the loop writes the bit that is due and then the bits `bs`.
  pub decode_loop-pulses :
      (bs : List ℕ) (st : State) (fuel n : ℕ) (xs : List ℕ)
      → All (λ b. b < 2) bs
      → Decodes bs st fuel n xs
  unfolding pulses
  decode_loop-pulses bs st zero n xs hb in_pos m front c h es hi hf he hx em = absurd (
      omega (
        arith,
        ap length es,
        length-append {0} front (pulses (pending st) (bs ++ (0 ∷ tail)) ++ rest),
        hi,
        hf,
      ))
  decode_loop-pulses [] after_one (suc fuel) n xs hb in_pos m front c h es hi hf he hx em =
      absurd (omega arith)
  decode_loop-pulses [] more_zeros (suc fuel) n xs hb in_pos m front c h es hi hf he hx em =
      absurd (omega arith)
  decode_loop-pulses [] one_zero (suc fuel) n xs hb in_pos m front c h es hi hf he hx em =
      let two : m ≡ suc (suc n) = omega arith in
      rw (append-nil (xs ++ (0 ∷ [])))
        (finish fuel in_pos n xs front c es hi (omega arith) (rw two at h))
  decode_loop-pulses (zero ∷ bs) after_one (suc fuel) n xs hb in_pos m front c h es hi hf he hx em =
      rw (append-nil xs, ← append_assoc xs (0 ∷ []) bs)
        (decode_loop-pulses bs one_zero (suc fuel) n xs hb.1 in_pos m front c h es hi hf
          (omega arith) hx (omega arith))
  decode_loop-pulses (suc zero ∷ bs) after_one (suc fuel) n xs hb in_pos m front c h es hi hf he hx
        em =
      let due : m ≡ suc (length bs + suc n) = omega arith in
      rw (append-nil xs, ← append_assoc xs (1 ∷ []) bs)
        (emit bs after_one fuel n (xs ++ (1 ∷ [])) 0 in_pos front c refl es hi hf
          (omega (arith, length-snoc xs 1))
          (zero_behind_one size (length bs + suc n) xs c (rw due at h))
          (decode_loop-pulses bs after_one fuel n (xs ++ (1 ∷ [])) hb.1))
  decode_loop-pulses (zero ∷ bs) one_zero (suc fuel) n xs hb in_pos m front c h es hi hf he hx em =
      let due : m ≡ suc (suc (length bs + suc n)) = omega arith in
      rw (← append_assoc (xs ++ (0 ∷ [])) (0 ∷ []) bs) (
        emit bs more_zeros fuel n ((xs ++ (0 ∷ [])) ++ (0 ∷ [])) 1 in_pos front c refl es hi hf
          (omega (arith, length-snoc xs 0, length-snoc (xs ++ (0 ∷ [])) 0))
          (one_behind_one size (length bs + suc n) xs c (rw due at h))
          (decode_loop-pulses bs more_zeros fuel n ((xs ++ (0 ∷ [])) ++ (0 ∷ [])) hb.1))
  decode_loop-pulses (suc zero ∷ bs) one_zero (suc fuel) n xs hb in_pos m front c h es hi hf he hx
        em =
      let due : m ≡ suc (suc (length bs + suc n)) = omega arith in
      rw (← append_assoc (xs ++ (0 ∷ [])) (1 ∷ []) bs) (
        emit bs after_one fuel n ((xs ++ (0 ∷ [])) ++ (1 ∷ [])) 2 in_pos front c refl es hi hf
          (omega (arith, length-snoc xs 0, length-snoc (xs ++ (0 ∷ [])) 1))
          (two_behind_one size (length bs + suc n) xs c (rw due at h))
          (decode_loop-pulses bs after_one fuel n ((xs ++ (0 ∷ [])) ++ (1 ∷ [])) hb.1))
  decode_loop-pulses (zero ∷ bs) more_zeros (suc fuel) n xs hb in_pos m front c h es hi hf he hx
        em =
      let due : m ≡ suc (length bs + suc n) = omega arith in
      rw (append-nil xs, ← append_assoc xs (0 ∷ []) bs)
        (emit bs more_zeros fuel n (xs ++ (0 ∷ [])) 0 in_pos front c refl es hi hf
          (omega (arith, length-snoc xs 0))
          (zero_behind_zero size (length bs + suc n) xs c (rw due at h))
          (decode_loop-pulses bs more_zeros fuel n (xs ++ (0 ∷ [])) hb.1))
  decode_loop-pulses (suc zero ∷ bs) more_zeros (suc fuel) n xs hb in_pos m front c h es hi hf he hx
        em =
      let due : m ≡ suc (length bs + suc n) = omega arith in
      rw (append-nil xs, ← append_assoc xs (1 ∷ []) bs)
        (emit bs after_one fuel n (xs ++ (1 ∷ [])) 1 in_pos front c refl es hi hf
          (omega (arith, length-snoc xs 1))
          (one_behind_zero size (length bs + suc n) xs c (rw due at h))
          (decode_loop-pulses bs after_one fuel n (xs ++ (1 ∷ [])) hb.1))
  decode_loop-pulses (suc (suc b) ∷ bs) st (suc fuel) n xs hb in_pos m front c h es hi hf he hx em =
      absurd (omega (arith, hb.0))
