-- ===== src/Raw/Image.antt =====
-- A buffer as its bits: what `dst[out/8] |= 1<<(out&7)` does, and that the bits determine the bytes.
use fdsstick.Base.{
  ℕ, zero, suc, ◌+◌, ◌*◌, ◌/◌, ◌%◌, ◌^◌, ◌<◌, ◌≡◌, refl, sym, ap, ◌∙◌, arith, bit_or,
}
use fdsstick.Base.{
  List, [], ◌∷◌, ◌++◌, length, length-append, set, set-append_left, set-append_right,
}
use mathlib.Core.Path.{ap₂}
use fdsstick.Base.{take, drop}
use fdsstick.Base.{append_assoc, All, u8, Run, ok, fault, stuck, ◌>>=◌, read, write, push, Returns}
use fdsstick.Base.{Ensures, >>=-Ensures, Ensures-mono}
use fdsstick.Base.Access.{read-Ensures, write-Ensures}
use native.Mathlib.Nat.{pow-suc}
use fdsstick.Base.Bits.{bit_or_digit, bit_or-zero, bit_and_seven}
use fdsstick.Crc.Check.{IsByte}
use fdsstick.Raw.Pulses.{bits_from, byte_bits, bits_of}
use fdsstick.Raw.{set_bit}

pub length-bits_from : (n b : ℕ) → length (bits_from n b) ≡ n
length-bits_from zero b = refl
length-bits_from (suc n) b = ap suc (length-bits_from n (b / 2))

pub length-bits_of : (bs : List ℕ) → length (bits_of bs) ≡ 8 * length bs
unfolding bits_of
length-bits_of [] = refl
length-bits_of (b ∷ bs) =
    omega (arith, length-append {0} (byte_bits b) (bits_of bs), length-bits_of bs)

pub bits_of-append : (xs ys : List ℕ) → bits_of (xs ++ ys) ≡ bits_of xs ++ bits_of ys
unfolding bits_of
bits_of-append [] ys = refl
bits_of-append (x ∷ xs) ys =
    ap (λ t. byte_bits x ++ t) (bits_of-append xs ys)
    ∙ sym (append_assoc (byte_bits x) (bits_of xs) (bits_of ys))

bits_from-or : (n v k : ℕ) → k < n → bits_from n (bit_or v (2 ^ k)) ≡ set (bits_from n v) k 1
bits_from-or zero v k h = absurd (omega arith)
bits_from-or (suc n) v zero h = rw (low, half) refl
  where
    low : bit_or v (2 ^ 0) % 2 ≡ 1
    low = omega (arith, bit_or_digit v 1)

    half : bit_or v (2 ^ 0) / 2 ≡ v / 2
    half = omega (arith, bit_or_digit v 1, bit_or-zero (v / 2))
bits_from-or (suc n) v (suc k) h =
    rw (low, half) (ap (λ t. v % 2 ∷ t) (bits_from-or n (v / 2) k (omega arith)))
  where
    two : 2 ^ suc k ≡ 2 * 2 ^ k
    two = omega (arith, pow-suc 2 k)

    low : bit_or v (2 ^ suc k) % 2 ≡ v % 2
    low = omega (arith, bit_or_digit v (2 ^ suc k), two)

    half : bit_or v (2 ^ suc k) / 2 ≡ bit_or (v / 2) (2 ^ k)
    half = omega (arith, bit_or_digit v (2 ^ suc k), two, ap (λ t. bit_or (v / 2) t) halved)
      where
        halved : 2 ^ suc k / 2 ≡ 2 ^ k
        halved = omega (arith, two)

byte_bits-u8 : (x : ℕ) → byte_bits (u8 x) ≡ byte_bits x
byte_bits-u8 x = ground arith

pub byte_bits-injective : (x y : ℕ) → IsByte x → IsByte y → byte_bits x ≡ byte_bits y → x ≡ y
byte_bits-injective x y hx hy e = ground arith

-- What a set bit leaves.
pub record HasBits (bits : List ℕ) (size : ℕ) (dst : List ℕ) : Type 0 where
  pub image : bits_of dst ≡ bits
  pub same_size : length dst ≡ size
  pub bytes : All IsByte dst

-- The bit `k` of the byte `q`.
store_bit :
    (dst : List ℕ) (q k i : ℕ)
    → q < length dst
    → k < 8
    → i ≡ 8 * q + k
    → All IsByte dst
    → Returns
        (read dst q >>= λ v. write dst q (u8 (bit_or v (2 ^ k))))
        (HasBits (set (bits_of dst) i 1) (length dst))
unfolding bits_of
store_bit [] q k i hq hk e hb = absurd (omega arith)
store_bit (d ∷ ds) zero k i hq hk e hb =
    let same : i ≡ k = omega arith in
    record {
      image =
          ap (λ t. t ++ bits_of ds) (byte_bits-u8 (bit_or d (2 ^ k)) ∙ bits_from-or 8 d k hk)
          ∙ sym
              (set-append_left (byte_bits d) (bits_of ds) k 1 (omega (arith, length-bits_from 8 d)))
          ∙ ap (λ (t : ℕ). set (byte_bits d ++ bits_of ds) t 1) (sym same);
      same_size = refl;
      bytes = (omega arith, hb.1);
    }
store_bit (d ∷ ds) (suc q) k i hq hk e hb =
    behind (read ds q) (λ v. write ds q (u8 (bit_or v (2 ^ k))))
      (store_bit ds q k (8 * q + k) (omega arith) hk refl hb.1)
  where
    moved : byte_bits d ++ set (bits_of ds) (8 * q + k) 1 ≡ set (byte_bits d ++ bits_of ds) i 1
    moved = sym (set-append_right (byte_bits d) (bits_of ds) i (8 * q + k) 1 (omega arith))

    pushed :
        (r : Run (List ℕ))
        → Returns r (HasBits (set (bits_of ds) (8 * q + k) 1) (length ds))
        → Returns (push d r) (HasBits (set (byte_bits d ++ bits_of ds) i 1) (suc (length ds)))
    pushed (ok ys) h = record {
      image = ap (λ t. byte_bits d ++ t) h.image ∙ moved;
      same_size = ap suc h.same_size;
      bytes = (hb.0, h.bytes);
    }
    pushed fault h = absurd h
    pushed stuck h = absurd h

    behind :
        (r : Run ℕ) (f : ℕ → Run (List ℕ))
        → Returns (r >>= f) (HasBits (set (bits_of ds) (8 * q + k) 1) (length ds))
        → Returns
            (r >>= λ v. push d (f v))
            (HasBits (set (byte_bits d ++ bits_of ds) i 1) (suc (length ds)))
    behind (ok v) f h = pushed (f v) h
    behind fault f h = absurd h
    behind stuck f h = absurd h

-- On a buffer of bytes, `dst[out/8] |= 1<<(out&7)` at a position inside sets the bit `out` of the
-- buffer, changes no other bit and keeps the size.
pub set_bit_lem :
    (dst : List ℕ) (out : ℕ)
    → out < 8 * length dst
    → All IsByte dst
    → Returns (set_bit dst out) (HasBits (set (bits_of dst) out 1) (length dst))
unfolding set_bit
set_bit_lem dst out h hb =
    rw (bit_and_seven out)
      (store_bit dst (out / 8) (out % 8) out (omega arith) (omega arith) (omega arith) hb)

-- Buffers of bytes with the same bits are the same.
pub bits_of-injective :
    (xs ys : List ℕ) → All IsByte xs → All IsByte ys → bits_of xs ≡ bits_of ys → xs ≡ ys
unfolding bits_of
bits_of-injective [] [] hx hy e = refl
bits_of-injective [] (y ∷ ys) hx hy e = absurd (omega (arith, ap length e))
bits_of-injective (x ∷ xs) [] hx hy e = absurd (omega (arith, ap length e))
bits_of-injective (x ∷ xs) (y ∷ ys) hx hy e =
    ap₂ ◌∷◌ (byte_bits-injective x y hx.0 hy.0 (ap (take 8) e))
      (bits_of-injective xs ys hx.1 hy.1 (ap (drop 8) e))

pub set_bit-Ensures :
    (dst : List ℕ) (out : ℕ) → Ensures (λ ys. length ys ≡ length dst) (set_bit dst out)
unfolding set_bit
set_bit-Ensures dst out =
    >>=-Ensures _ (λ ys. length ys ≡ length dst) (read dst (out / 8)) _ (read-Ensures dst (out / 8))
      λ v h.
        Ensures-mono _ (λ ys. length ys ≡ length dst) _ (write-Ensures dst (out / 8) _) λ ys k. k.0
