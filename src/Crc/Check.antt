-- ===== src/Crc/Check.antt =====
-- What the checksum of fds.cpp promises: a stored checksum is recognised, and it is the only one.
use native.Mathlib.Nat.{mod-eq_of_lt}
use fdsstick.Base.{ℕ, ◌+◌, ◌*◌, ◌^◌, ◌<◌, bit_or, bit_xor, ◌≡◌, refl, sym, ap}
use fdsstick.Base.{◌∙◌, arith, List, [], ◌∷◌, ◌++◌, ◌↔◌, ◌≢◌, ◌≡⟨◌⟩◌, ◌∎, All, u16}
use fdsstick.Base.Bits.{bit_xor-zero, bit_xor_self, bit_xor-eq-zero, bit_xor-lt}
use fdsstick.Base.Bits.{bit_or_high, bit_xor_high, bit_xor_comm, bit_xor_assoc, bit_xor_swap}
use fdsstick.Crc.{calc_crc, crc_shifts, crc_byte, crc_bytes}
use fdsstick.Crc.Linear.{crc_shifts-bit_xor, crc_shifts-pow, crc_shifts-lt, crc_shifts-injective}

abbrev pub IsByte : ℕ → Type 0
IsByte b = b < 256

-- A byte enters the register at bit 16 and has come down to bit 8 when it is used up.
crc_byte_lem : (crc b : ℕ) → crc < 2 ^ 16 → crc_byte crc b ≡ bit_xor (crc_shifts 8 crc) (b * 2 ^ 8)
unfolding crc_byte
crc_byte_lem crc b h =
    crc_shifts 8 (bit_or crc (b * 2 ^ 16))
    ≡⟨ ap (crc_shifts 8) (bit_or_high 16 crc b h ∙ sym (bit_xor_high 16 crc b h)) ⟩
      crc_shifts 8 (bit_xor crc (b * 2 ^ 16))
    ≡⟨ crc_shifts-bit_xor 8 crc (b * 2 ^ 16) ⟩
      bit_xor (crc_shifts 8 crc) (crc_shifts 8 (b * 2 ^ 16))
    ≡⟨ ap (λ t. bit_xor (crc_shifts 8 crc) (crc_shifts 8 t)) (omega arith) ⟩
      bit_xor (crc_shifts 8 crc) (crc_shifts 8 (b * 2 ^ 8 * 2 ^ 8))
    ≡⟨ ap (λ t. bit_xor (crc_shifts 8 crc) t) (crc_shifts-pow 8 (b * 2 ^ 8)) ⟩
      bit_xor (crc_shifts 8 crc) (b * 2 ^ 8) ∎

pub crc_byte-lt : (crc b : ℕ) → crc < 2 ^ 16 → IsByte b → crc_byte crc b < 2 ^ 16
crc_byte-lt crc b h hb =
    rw (crc_byte_lem crc b h)
      (bit_xor-lt 16 (crc_shifts 8 crc) (b * 2 ^ 8) (crc_shifts-lt 8 crc h) (omega arith))

pub crc_bytes-lt :
    (crc : ℕ) (buf : List ℕ) → crc < 2 ^ 16 → All IsByte buf → crc_bytes crc buf < 2 ^ 16
unfolding crc_bytes
crc_bytes-lt crc [] h hb = h
crc_bytes-lt crc (b ∷ buf) h hb = crc_bytes-lt (crc_byte crc b) buf (crc_byte-lt crc b h hb.0) hb.1

pub crc_bytes-append :
    (crc : ℕ) (xs ys : List ℕ) → crc_bytes crc (xs ++ ys) ≡ crc_bytes (crc_bytes crc xs) ys
unfolding crc_bytes
crc_bytes-append crc [] ys = refl
crc_bytes-append crc (x ∷ xs) ys = crc_bytes-append (crc_byte crc x) xs ys

-- The register after two more bytes, over the register after two zero bytes.
two_bytes :
    (s lo hi : ℕ)
    → s < 2 ^ 16
    → IsByte lo
    → IsByte hi
    → crc_bytes s (lo ∷ hi ∷ []) ≡ bit_xor (crc_bytes s (0 ∷ 0 ∷ [])) (lo + hi * 256)
unfolding crc_bytes
two_bytes s lo hi h hl hh =
    crc_byte (crc_byte s lo) hi
    ≡⟨ crc_byte_lem (crc_byte s lo) hi (crc_byte-lt s lo h hl) ⟩
      bit_xor (crc_shifts 8 (crc_byte s lo)) (hi * 2 ^ 8)
    ≡⟨ ap (λ t. bit_xor (crc_shifts 8 t) (hi * 2 ^ 8)) (crc_byte_lem s lo h) ⟩
      bit_xor (crc_shifts 8 (bit_xor (crc_shifts 8 s) (lo * 2 ^ 8))) (hi * 2 ^ 8)
    ≡⟨ ap (λ t. bit_xor t (hi * 2 ^ 8)) (crc_shifts-bit_xor 8 (crc_shifts 8 s) (lo * 2 ^ 8)) ⟩
      bit_xor (bit_xor (crc_shifts 8 (crc_shifts 8 s)) (crc_shifts 8 (lo * 2 ^ 8))) (hi * 2 ^ 8)
    ≡⟨ ap (λ t. bit_xor (bit_xor (crc_shifts 8 (crc_shifts 8 s)) t) (hi * 2 ^ 8))
        (crc_shifts-pow 8 lo) ⟩
      bit_xor (bit_xor (crc_shifts 8 (crc_shifts 8 s)) lo) (hi * 2 ^ 8)
    ≡⟨ bit_xor_assoc (crc_shifts 8 (crc_shifts 8 s)) lo (hi * 2 ^ 8) ⟩
      bit_xor (crc_shifts 8 (crc_shifts 8 s)) (bit_xor lo (hi * 2 ^ 8))
    ≡⟨ ap (λ t. bit_xor (crc_shifts 8 (crc_shifts 8 s)) t) (bit_xor_high 8 lo hi hl) ⟩
      bit_xor (crc_shifts 8 (crc_shifts 8 s)) (lo + hi * 256)
    ≡⟨ ap (λ t. bit_xor t (lo + hi * 256)) (sym (zeros s h)) ⟩
      bit_xor (crc_byte (crc_byte s 0) 0) (lo + hi * 256) ∎
  where
    zero_byte : (s : ℕ) → s < 2 ^ 16 → crc_byte s 0 ≡ crc_shifts 8 s
    zero_byte s h = crc_byte_lem s 0 h ∙ bit_xor-zero (crc_shifts 8 s)

    zeros : (s : ℕ) → s < 2 ^ 16 → crc_byte (crc_byte s 0) 0 ≡ crc_shifts 8 (crc_shifts 8 s)
    zeros s h =
        zero_byte (crc_byte s 0) (crc_byte-lt s 0 h (omega arith))
        ∙ ap (crc_shifts 8) (zero_byte s h)

calc_crc-append :
    (xs ys : List ℕ)
    → All IsByte xs
    → All IsByte ys
    → calc_crc (xs ++ ys) ≡ crc_bytes (crc_bytes 0x8000 xs) ys
unfolding calc_crc
calc_crc-append xs ys hx hy =
    ap u16 (crc_bytes-append 0x8000 xs ys)
    ∙ mod-eq_of_lt
        (crc_bytes-lt (crc_bytes 0x8000 xs) ys (crc_bytes-lt 0x8000 xs (omega arith) hx) hy)

-- For bytes, the checksum of a message followed by two bytes vanishes exactly when those two
-- bytes, low byte first, are the checksum of the message followed by two zero bytes.
pub calc_crc-append_iff :
    (buf : List ℕ) (lo hi : ℕ)
    → All IsByte buf
    → IsByte lo
    → IsByte hi
    → (calc_crc (buf ++ (lo ∷ hi ∷ [])) ≡ 0) ↔ (lo + hi * 256 ≡ calc_crc (buf ++ (0 ∷ 0 ∷ [])))
calc_crc-append_iff buf lo hi hb hl hh =
    (λ e. sym (bit_xor-eq-zero _ _ (sym stored ∙ e)), λ e. stored ∙ rw e (bit_xor_self _))
  where
    stored :
        calc_crc (buf ++ (lo ∷ hi ∷ [])) ≡ bit_xor (calc_crc (buf ++ (0 ∷ 0 ∷ []))) (lo + hi * 256)
    stored =
        calc_crc-append buf (lo ∷ hi ∷ []) hb (omega arith)
        ∙ two_bytes (crc_bytes 0x8000 buf) lo hi (crc_bytes-lt 0x8000 buf (omega arith) hb) hl hh
        ∙ ap (λ t. bit_xor t (lo + hi * 256))
            (sym (calc_crc-append buf (0 ∷ 0 ∷ []) hb (omega arith)))

pub calc_crc-lt : (buf : List ℕ) → calc_crc buf < 2 ^ 16
unfolding calc_crc
calc_crc-lt buf = omega arith

cancel : (x y z : ℕ) → bit_xor x z ≡ bit_xor y z → x ≡ y
cancel x y z h = bit_xor-eq-zero x y (
    bit_xor x y
    ≡⟨ sym (bit_xor-zero _) ⟩ bit_xor (bit_xor x y) 0
    ≡⟨ ap (bit_xor (bit_xor x y)) (sym (bit_xor_self z)) ⟩ bit_xor (bit_xor x y) (bit_xor z z)
    ≡⟨ bit_xor_swap x y z z ⟩ bit_xor (bit_xor x z) (bit_xor y z)
    ≡⟨ ap (λ t. bit_xor t (bit_xor y z)) h ⟩ bit_xor (bit_xor y z) (bit_xor y z)
    ≡⟨ bit_xor_self _ ⟩ 0 ∎)

-- Registers that differ stay different, whatever bytes follow.
crc_byte-injective : (s t b : ℕ) → s < 2 ^ 16 → t < 2 ^ 16 → crc_byte s b ≡ crc_byte t b → s ≡ t
crc_byte-injective s t b hs ht e = crc_shifts-injective 8 s t hs ht (
    cancel (crc_shifts 8 s) (crc_shifts 8 t) (b * 2 ^ 8)
      (sym (crc_byte_lem s b hs) ∙ e ∙ crc_byte_lem t b ht))

crc_bytes-injective :
    (s t : ℕ) (buf : List ℕ)
    → s < 2 ^ 16
    → t < 2 ^ 16
    → All IsByte buf
    → crc_bytes s buf ≡ crc_bytes t buf
    → s ≡ t
unfolding crc_bytes
crc_bytes-injective s t [] hs ht hb e = e
crc_bytes-injective s t (b ∷ buf) hs ht hb e = crc_byte-injective s t b hs ht (
    crc_bytes-injective (crc_byte s b) (crc_byte t b) buf (crc_byte-lt s b hs hb.0)
      (crc_byte-lt t b ht hb.0) hb.1 e)

crc_byte-injective_byte : (s b c : ℕ) → s < 2 ^ 16 → crc_byte s b ≡ crc_byte s c → b ≡ c
crc_byte-injective_byte s b c h e = omega (arith, shifted)
  where
    shifted : b * 2 ^ 8 ≡ c * 2 ^ 8
    shifted = cancel (b * 2 ^ 8) (c * 2 ^ 8) (crc_shifts 8 s) (
        bit_xor_comm (b * 2 ^ 8) (crc_shifts 8 s)
        ∙ sym (crc_byte_lem s b h)
        ∙ e
        ∙ crc_byte_lem s c h
        ∙ bit_xor_comm (crc_shifts 8 s) (c * 2 ^ 8))

-- A change of one byte, anywhere in a message of bytes, changes the checksum.
pub calc_crc-ne :
    (front : List ℕ) (b c : ℕ) (back : List ℕ)
    → All IsByte front
    → IsByte b
    → IsByte c
    → All IsByte back
    → b ≢ c
    → calc_crc (front ++ (b ∷ back)) ≢ calc_crc (front ++ (c ∷ back))
unfolding crc_bytes
calc_crc-ne front b c back hf hb hc hk ne e =
    let s = crc_bytes 0x8000 front in
    let hs = crc_bytes-lt 0x8000 front (omega arith) hf in
    ne (
      crc_byte-injective_byte s b c hs (
        crc_bytes-injective (crc_byte s b) (crc_byte s c) back (crc_byte-lt s b hs hb)
          (crc_byte-lt s c hs hc) hk
          (sym (calc_crc-append front (b ∷ back) hf (hb, hk))
            ∙ e
            ∙ calc_crc-append front (c ∷ back) hf (hc, hk))))
