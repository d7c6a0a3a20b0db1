-- ===== src/Raw/Turn.antt =====
-- One turn of the decoding loop: its test, its pulse, and whether it goes on.
use fdsstick.Base.{lt→leb}
use fdsstick.Base.{ℕ, suc, ◌+◌, ◌≡◌, refl, sym, ap, ◌∙◌, arith, true, false}
use fdsstick.Base.{List, [], ◌∷◌, ◌++◌, length, length-append, ltb, leb, lt→ltb, le→ltb}
use fdsstick.Base.{append-nil, Run, ok, ◌>>=◌, Returns, >>=-Returns, read, read_at}
use mathlib.Core.Bool.{false≢true}
use fdsstick.Base.{Bool, ok-Returns, ◌≢◌}
use fdsstick.Bin.Block.{zeros}
use fdsstick.Raw.Pulses.{pulses}
use fdsstick.Raw.Step.{Stands}
use fdsstick.Raw.{Cursor, Decoded, decode_pulse, decode_loop}
use fdsstick.Raw.States.{
  State, after_one, one_zero, more_zeros, pending, last, lag, even, run, Done,
}

unfoldable pub after_pulse : ℕ → List ℕ → ℕ → ℕ → ℕ → Cursor → Run Decoded
after_pulse fuel src src_size out_end in_pos c = elim (ltb c.out out_end) [
  | true ↦ decode_loop fuel src src_size out_end (in_pos + 1) c
  | false ↦ ok (record { ended = true; in_pos = in_pos + 1; cursor = c })
]

module _ (size : ℕ) (src rest tail : List ℕ) (out_end : ℕ) where
  -- One round, at a pulse that is there.
  pub round :
      (fuel in_pos pulse : ℕ) (front cells : List ℕ) (c : Cursor) (P : Cursor → Type 0)
      (Q : Decoded → Type 0)
      → src ≡ front ++ (pulse ∷ cells)
      → in_pos ≡ length front
      → Returns (decode_pulse pulse c) P
      → ((c' : Cursor) → P c' → Returns (after_pulse fuel src (length src) out_end in_pos c') Q)
      → Returns (decode_loop (suc fuel) src (length src) out_end in_pos c) Q
  unfolding decode_loop after_pulse
  round fuel in_pos pulse front cells c P Q es hi hp hq = opened (leb (length src) in_pos) more
    where
      more : leb (length src) in_pos ≡ false
      more =
          lt→leb (length src) in_pos
            (omega (arith, ap length es, length-append {0} front (pulse ∷ cells), hi))

      found : read src in_pos ≡ ok pulse
      found = rw es (read_at front pulse cells in_pos hi)

      opened :
          (b : Bool)
          → b ≡ false
          → Returns
              (elim b [
                | true ↦ ok (record { ended = false; in_pos = in_pos; cursor = c })
                | false ↦
                    (read src in_pos >>= λ pulse. decode_pulse pulse c >>= λ c'.
                    after_pulse fuel src (length src) out_end in_pos c')
              ])
              Q
      opened true e = absurd (false≢true (sym e))
      opened false e =
          >>=-Returns (λ r. r ≡ pulse) Q (read src in_pos) _
            (ok-Returns (λ (r : ℕ). r ≡ pulse) (read src in_pos) pulse found refl)
            λ r same. rw same (>>=-Returns P Q (decode_pulse pulse c) _ hp hq)

  module _ (fuel in_pos m n : ℕ) (xs front : List ℕ) where
    -- Behind a pulse that leaves nothing to be written: the end, or more bits.
    pub go_on :
        (st : State) (bs : List ℕ) (c : Cursor)
        → lag st ≡ []
        → Stands size xs m (last st) c
        → src ≡ front ++ (pulses (pending st) (bs ++ (0 ∷ tail)) ++ rest)
        → in_pos + 1 ≡ length front
        → length xs + length bs ≡ out_end
        → m ≡ length bs + n
        → (bs ≢ []
            → Returns
                (decode_loop fuel src (length src) out_end (in_pos + 1) c)
                (Done size (xs ++ bs) n src rest tail))
        → Returns
            (after_pulse fuel src (length src) out_end in_pos c)
            (Done size (xs ++ bs) n src rest tail)
    unfolding after_pulse
    go_on st (b ∷ bs) c none h es hi he em more =
        rw (lt→ltb c.out out_end (omega (arith, h.out)), after_pulse) (more (λ e. cc))
    go_on after_one [] c none h es hi he em more =
        rw (le→ltb c.out out_end (omega (arith, h.out)), after_pulse, append-nil)
          (record {
            ended = refl;
            left = even front es hi;
            image = h.image ∙ ap (λ (t : ℕ). xs ++ zeros t) (omega arith);
            low = omega (arith, h.out);
            high = omega (arith, h.out);
            same_size = h.same_size;
            bytes = h.bytes;
          })
    go_on more_zeros [] c none h es hi he em more =
        rw (le→ltb c.out out_end (omega (arith, h.out)), after_pulse, append-nil)
          (record {
            ended = refl;
            left = run front es hi;
            image = h.image ∙ ap (λ (t : ℕ). xs ++ zeros t) (omega arith);
            low = omega (arith, h.out);
            high = omega (arith, h.out);
            same_size = h.same_size;
            bytes = h.bytes;
          })
    go_on one_zero [] c none h es hi he em more = cc
