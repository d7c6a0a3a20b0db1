-- ===== src/Transfer/Mfm.antt =====
-- The expansion of `writeDisk`, bit by bit.
use fdsstick.Base.{ℕ, zero, suc, ◌-◌, ◌*◌, ◌/◌, ◌%◌, ◌^◌, ◌<◌, ◌≡◌, refl, ap, ◌∙◌, arith, bit_and}
use fdsstick.Base.{List, [], ◌∷◌, ◌++◌, length, Run, ok, fault, stuck, push, read, Returns}
use mathlib.Core.Path.{subst}
use fdsstick.Base.{>>=-Returns}
use fdsstick.Base.Bits.{bit_and_digit, bit_and-one}
use fdsstick.Raw.Pulses.{byte_bits, bits_of}
use fdsstick.Transfer.{expand, expand_bytes}

-- A bit becomes two: the bit, then its complement.
abbrev pub doubled : List ℕ → List ℕ
doubled [] = []
doubled (b ∷ bs) = b ∷ (1 - b) ∷ doubled bs

doubled-append : (xs ys : List ℕ) → doubled (xs ++ ys) ≡ doubled xs ++ doubled ys
doubled-append [] ys = refl
doubled-append (x ∷ xs) ys = ap (λ t. x ∷ (1 - x) ∷ t) (doubled-append xs ys)

abbrev four_bits : ℕ → List ℕ
four_bits n = n % 2 ∷ n / 2 % 2 ∷ n / 2 / 2 % 2 ∷ n / 2 / 2 / 2 % 2 ∷ []

-- The entries of the table.
table : (n : ℕ) → n < 16 → Returns (read expand n) (λ e. byte_bits e ≡ doubled (four_bits n))
table zero h = refl
table (suc zero) h = refl
table (suc (suc zero)) h = refl
table (suc (suc (suc zero))) h = refl
table (suc (suc (suc (suc zero)))) h = refl
table (suc (suc (suc (suc (suc zero))))) h = refl
table (suc (suc (suc (suc (suc (suc zero)))))) h = refl
table (suc (suc (suc (suc (suc (suc (suc zero))))))) h = refl
table (suc (suc (suc (suc (suc (suc (suc (suc zero)))))))) h = refl
table (suc (suc (suc (suc (suc (suc (suc (suc (suc zero))))))))) h = refl
table (suc (suc (suc (suc (suc (suc (suc (suc (suc (suc zero)))))))))) h = refl
table (suc (suc (suc (suc (suc (suc (suc (suc (suc (suc (suc zero))))))))))) h = refl
table (suc (suc (suc (suc (suc (suc (suc (suc (suc (suc (suc (suc zero)))))))))))) h = refl
table (suc (suc (suc (suc (suc (suc (suc (suc (suc (suc (suc (suc (suc zero))))))))))))) h = refl
table (suc (suc (suc (suc (suc (suc (suc (suc (suc (suc (suc (suc (suc (suc zero)))))))))))))) h =
    refl
table (suc (suc (suc (suc (suc (suc (suc (suc (suc (suc (suc (suc (suc (suc (suc zero)))))))))))))))
      h =
    refl
table
      (suc
        (suc (suc (suc (suc (suc (suc (suc (suc (suc (suc (suc (suc (suc (suc (suc n))))))))))))))))
      h =
    absurd (omega arith)

fifteen : (b : ℕ) → bit_and b 0x0f ≡ b % 16
fifteen b = omega (
  arith,
  bit_and_digit b 15,
  bit_and_digit (b / 2) 7,
  bit_and_digit (b / 2 / 2) 3,
  bit_and-one (b / 2 / 2 / 2),
)

digits : (b : ℕ) → four_bits (b % 16) ≡ four_bits b
digits b = ground arith

half : (b : ℕ) → Returns (read expand (bit_and b 0x0f)) (λ e. byte_bits e ≡ doubled (four_bits b))
half b = rw (fifteen b) (
    subst (λ (t : List ℕ). Returns (read expand (b % 16)) (λ e. byte_bits e ≡ doubled t)) (digits b)
      (table (b % 16) (omega arith)))

sixteen : (b : ℕ) → b / 2 ^ 4 ≡ b / 2 / 2 / 2 / 2
sixteen b = omega arith

high_half :
    (b : ℕ)
    → Returns
        (read expand (bit_and (b / 2 ^ 4) 0x0f))
        (λ e. byte_bits e ≡ doubled (four_bits (b / 2 / 2 / 2 / 2)))
high_half b = rw (sixteen b) (half (b / 2 / 2 / 2 / 2))

-- The expansion of `writeDisk` for the first `n` bytes of a buffer that holds them returns twice
-- as many bytes, whose bits, in the order of the disk, are the bits of the buffer, each followed
-- by its complement.
pub expand_bytes-doubled :
    (bin behind : List ℕ) (n : ℕ)
    → n ≡ length bin
    → Returns
        (expand_bytes (bin ++ behind) n)
        (λ mfm. (bits_of mfm ≡ doubled (bits_of bin)) × (length mfm ≡ 2 * n))
unfolding expand_bytes bits_of
expand_bytes-doubled [] behind zero e = (refl, omega arith)
expand_bytes-doubled [] behind (suc n) e = absurd (omega arith)
expand_bytes-doubled (b ∷ bin) behind zero e = absurd (omega arith)
expand_bytes-doubled (b ∷ bin) behind (suc n) e =
    >>=-Returns (λ e. byte_bits e ≡ doubled (four_bits b)) Q (read expand (bit_and b 0x0f)) _
      (half b)
      λ low hl.
        >>=-Returns (λ e. byte_bits e ≡ doubled (four_bits (b / 2 / 2 / 2 / 2))) Q
          (read expand (bit_and (b / 2 ^ 4) 0x0f)) _ (high_half b)
          λ high hh.
            pushed low high hl hh (expand_bytes (bin ++ behind) n)
              (expand_bytes-doubled bin behind n (omega arith))
  where
    Q : List ℕ → Type 0
    Q mfm = (bits_of mfm ≡ doubled (bits_of (b ∷ bin))) × (length mfm ≡ 2 * suc n)

    pushed :
        (low high : ℕ)
        → byte_bits low ≡ doubled (four_bits b)
        → byte_bits high ≡ doubled (four_bits (b / 2 / 2 / 2 / 2))
        → (r : Run (List ℕ))
        → Returns r (λ mfm. (bits_of mfm ≡ doubled (bits_of bin)) × (length mfm ≡ 2 * n))
        → Returns (push low (push high r)) Q
    pushed low high hl hh (ok mfm) h = (
      ap (λ t. t ++ (byte_bits high ++ bits_of mfm)) hl
          ∙ ap (λ t. doubled (four_bits b) ++ (t ++ bits_of mfm)) hh
          ∙ ap (λ t. doubled (four_bits b) ++ (doubled (four_bits (b / 2 / 2 / 2 / 2)) ++ t)) (h.0),
      omega (arith, h.1),
    )
    pushed low high hl hh fault h = absurd h
    pushed low high hl hh stuck h = absurd h
