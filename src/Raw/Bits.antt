-- ===== src/Raw/Bits.antt =====
-- The bits of clear bytes, and what is known of any bits.
use fdsstick.Base.{All-append, ℕ, zero, suc, ◌*◌, ◌/◌, ◌<◌, ◌≡◌, refl, ap, ◌∙◌, arith}
use fdsstick.Base.{List, [], ◌∷◌, ◌++◌, length, replicate-add}
use fdsstick.Base.{All}
use fdsstick.Crc.Check.{IsByte}
use fdsstick.Bin.Block.{zeros}
use fdsstick.Raw.Pulses.{bits_from, byte_bits, bits_of, fresh, pulses}
use fdsstick.Raw.{}

pub bits_of-zeros : (j : ℕ) → bits_of (zeros j) ≡ zeros (8 * j)
unfolding bits_of
bits_of-zeros zero = refl
bits_of-zeros (suc j) =
    ap (λ t. byte_bits 0 ++ t) (bits_of-zeros j)
    ∙ replicate-add 8 (8 * j) (8 * suc j) 0 (omega arith)

bits_from-digits : (n b : ℕ) → All (λ d. d < 2) (bits_from n b)
bits_from-digits zero b = tt
bits_from-digits (suc n) b = (omega arith, bits_from-digits n (b / 2))

pub bits_of-digits : (bs : List ℕ) → All (λ d. d < 2) (bits_of bs)
unfolding bits_of
bits_of-digits [] = tt
bits_of-digits (b ∷ bs) =
    All-append (λ d. d < 2) (byte_bits b) (bits_of bs) (bits_from-digits 8 b) (bits_of-digits bs)

pub zeros-IsByte : (j : ℕ) → All IsByte (zeros j)
zeros-IsByte zero = tt
zeros-IsByte (suc j) = (omega arith, zeros-IsByte j)

pub some_pulse : (b c : ℕ) (bs : List ℕ) → 0 < length (pulses fresh (b ∷ c ∷ bs))
unfolding pulses
some_pulse zero zero bs = omega arith
some_pulse zero (suc c) bs = omega arith
some_pulse (suc b) c bs = omega arith
