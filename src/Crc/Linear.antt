-- ===== src/Crc/Linear.antt =====
-- The shift register is linear over exclusive or, and no two 16-bit registers shift to the same.
use fdsstick.Base.{ℕ, zero, suc, ◌+◌, ◌*◌, ◌/◌, ◌%◌, ◌^◌, ◌<◌, bit_xor, ◌≡◌, refl, sym, ap}
use fdsstick.Base.{◌∙◌, arith, ◌⊎◌, inl, inr}
use fdsstick.Base.Bits.{bit_and-one, bit_xor-half, bit_xor-parity, bit_xor-zero}
use fdsstick.Base.Bits.{bit_xor_swap, bit_xor_self, bit_xor-eq-zero, bit_xor-lt}
use native.Mathlib.Nat.{pow-suc}
use fdsstick.Crc.{crc_shift, crc_shifts}

parity_cases : (a : ℕ) → (a % 2 ≡ 0) ⊎ (a % 2 ≡ 1)
parity_cases a = omega arith

-- The register's feedback in closed form: 0x8408 is 0x10810 shifted.
pub crc_shift_lem : (a : ℕ) → crc_shift a ≡ bit_xor (a / 2) (a % 2 * 0x8408)
unfolding crc_shift
crc_shift_lem a = elim (parity_cases a) [
  | inl even ↦ rw (bit_and-one, even) (sym (bit_xor-zero (a / 2)))
  | inr odd ↦ rw (bit_and-one, odd) (bit_xor-half a 0x10810)
]

feedback : (x y : ℕ) → x < 2 → y < 2 → (x + y) % 2 * 0x8408 ≡ bit_xor (x * 0x8408) (y * 0x8408)
feedback zero zero p q = refl
feedback zero (suc zero) p q = refl
feedback (suc zero) zero p q = refl
feedback (suc zero) (suc zero) p q = refl
feedback zero (suc (suc y)) p q = absurd (omega arith)
feedback (suc zero) (suc (suc y)) p q = absurd (omega arith)
feedback (suc (suc x)) y p q = absurd (omega arith)

pub crc_shift-bit_xor : (a b : ℕ) → crc_shift (bit_xor a b) ≡ bit_xor (crc_shift a) (crc_shift b)
crc_shift-bit_xor a b =
    simp
      (
        crc_shift_lem,
        bit_xor-half,
        bit_xor-parity,
        feedback (a % 2) (b % 2) (omega arith) (omega arith),
      )
      (bit_xor_swap (a / 2) (b / 2) (a % 2 * 0x8408) (b % 2 * 0x8408))

pub crc_shifts-bit_xor :
    (n a b : ℕ) → crc_shifts n (bit_xor a b) ≡ bit_xor (crc_shifts n a) (crc_shifts n b)
unfolding crc_shifts
crc_shifts-bit_xor zero a b = refl
crc_shifts-bit_xor (suc n) a b =
    rw (crc_shift-bit_xor a b) (crc_shifts-bit_xor n (crc_shift a) (crc_shift b))

-- An even register is only halved.
crc_shift-double : (a b : ℕ) → a ≡ 2 * b → crc_shift a ≡ b
crc_shift-double a b e =
    let even : a % 2 ≡ 0 = omega arith in
    let half : a / 2 ≡ b = omega arith in rw (crc_shift_lem, even, half) (bit_xor-zero b)

pub crc_shifts-pow : (n q : ℕ) → crc_shifts n (q * 2 ^ n) ≡ q
unfolding crc_shifts
crc_shifts-pow zero q = omega arith
crc_shifts-pow (suc n) q =
    rw
      (crc_shift-double (q * 2 ^ suc n) (q * 2 ^ n)
        (omega (arith, ap (λ (t : ℕ). q * t) (pow-suc 2 n))))
      (crc_shifts-pow n q)

pub crc_shift-lt : (a : ℕ) → a < 2 ^ 17 → crc_shift a < 2 ^ 16
crc_shift-lt a h =
    rw crc_shift_lem (bit_xor-lt 16 (a / 2) (a % 2 * 0x8408) (omega arith) (omega arith))

pub crc_shifts-lt : (n a : ℕ) → a < 2 ^ 16 → crc_shifts n a < 2 ^ 16
unfolding crc_shifts
crc_shifts-lt zero a h = h
crc_shifts-lt (suc n) a h = crc_shifts-lt n (crc_shift a) (crc_shift-lt a (omega arith))

-- A 16-bit register that shifts to 0 is 0: the feedback of an odd one sets bit 15.
crc_shift-eq-zero : (a : ℕ) → a < 2 ^ 16 → crc_shift a ≡ 0 → a ≡ 0
crc_shift-eq-zero a h e = elim (parity_cases a) [
  | inl even ↦ omega (arith, halves, even)
  | inr odd ↦ absurd (omega (arith, halves, odd))
]
  where
    halves : a / 2 ≡ a % 2 * 0x8408
    halves = bit_xor-eq-zero (a / 2) (a % 2 * 0x8408) (sym (crc_shift_lem a) ∙ e)

pub crc_shift-injective : (a b : ℕ) → a < 2 ^ 16 → b < 2 ^ 16 → crc_shift a ≡ crc_shift b → a ≡ b
crc_shift-injective a b ha hb e = bit_xor-eq-zero a b (
    crc_shift-eq-zero (bit_xor a b) (bit_xor-lt 16 a b ha hb)
      (crc_shift-bit_xor a b ∙ rw e (bit_xor_self (crc_shift b))))

pub crc_shifts-injective :
    (n a b : ℕ) → a < 2 ^ 16 → b < 2 ^ 16 → crc_shifts n a ≡ crc_shifts n b → a ≡ b
unfolding crc_shifts
crc_shifts-injective zero a b ha hb e = e
crc_shifts-injective (suc n) a b ha hb e = crc_shift-injective a b ha hb (
    crc_shifts-injective n (crc_shift a) (crc_shift b) (crc_shift-lt a (omega arith))
      (crc_shift-lt b (omega arith)) e)
