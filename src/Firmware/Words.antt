-- ===== src/Firmware/Words.antt =====
-- Buffers as 32-bit words, and the sum of words.
use fdsstick.Base.{
  ℕ, zero, suc, ◌+◌, ◌*◌, ◌^◌, ◌≤◌, ◌<◌, ◌≡◌, refl, ap, ◌∙◌, arith, bit_xor, List, [], ◌∷◌, ◌++◌,
  length, All,
}
use fdsstick.Base.Bits.{bit_xor-lt, bit_xor_self}
use fdsstick.Crc.Check.{IsByte}
use fdsstick.Firmware.{words, word_bytes, xor_words}

-- The first part ends at a word.
pub words-append :
    (n : ℕ) (xs ys : List ℕ) → length xs ≡ 4 * n → words (xs ++ ys) ≡ words xs ++ words ys
unfolding words
words-append zero [] ys h = refl
words-append zero (a ∷ xs) ys h = absurd (omega arith)
words-append (suc n) [] ys h = absurd (omega arith)
words-append (suc n) (a ∷ []) ys h = absurd (omega arith)
words-append (suc n) (a ∷ b ∷ []) ys h = absurd (omega arith)
words-append (suc n) (a ∷ b ∷ c ∷ []) ys h = absurd (omega arith)
words-append (suc n) (a ∷ b ∷ c ∷ d ∷ xs) ys h =
    ap (λ t. (a + b * 2 ^ 8 + c * 2 ^ 16 + d * 2 ^ 24) ∷ t) (words-append n xs ys (omega arith))

-- A word is read back from its bytes.
pub words-word_bytes : (v : ℕ) → v < 2 ^ 32 → words (word_bytes v) ≡ v ∷ []
unfolding words
words-word_bytes v h = ap (λ (t : ℕ). t ∷ []) (omega arith)

pub xor_words-append :
    (c : ℕ) (xs ys : List ℕ) → xor_words c (xs ++ ys) ≡ xor_words (xor_words c xs) ys
unfolding xor_words
xor_words-append c [] ys = refl
xor_words-append c (w ∷ xs) ys = xor_words-append (bit_xor c w) xs ys

-- The words of bytes, and their sum, are 32-bit words.
abbrev pub IsWord : ℕ → Type 0
IsWord w = w < 2 ^ 32

words-All : (n : ℕ) (xs : List ℕ) → length xs ≤ 4 * n → All IsByte xs → All IsWord (words xs)
unfolding words
words-All n [] hl h = tt
words-All n (a ∷ []) hl h = tt
words-All n (a ∷ b ∷ []) hl h = tt
words-All n (a ∷ b ∷ c ∷ []) hl h = tt
words-All zero (a ∷ b ∷ c ∷ d ∷ xs) hl h = absurd (omega arith)
words-All (suc n) (a ∷ b ∷ c ∷ d ∷ xs) hl h =
    (omega (arith, h.0, h.1.0, h.1.1.0, h.1.1.1.0), words-All n xs (omega arith) (h.1.1.1.1))

xor_words-IsWord : (c : ℕ) (ws : List ℕ) → IsWord c → All IsWord ws → IsWord (xor_words c ws)
unfolding xor_words
xor_words-IsWord c [] hc h = hc
xor_words-IsWord c (w ∷ ws) hc h =
    xor_words-IsWord (bit_xor c w) ws (bit_xor-lt 32 c w hc (h.0)) (h.1)

-- Behind whole words of bytes, the word that is their sum makes the sum 0.
pub xor_words-closed :
    (n : ℕ) (xs : List ℕ)
    → length xs ≡ 4 * n
    → All IsByte xs
    → xor_words 0 (words (xs ++ word_bytes (xor_words 0 (words xs)))) ≡ 0
unfolding xor_words
xor_words-closed n xs hl h =
    ap (xor_words 0) (words-append n xs (word_bytes total) hl ∙ ap (λ t. words xs ++ t) stored)
    ∙ xor_words-append 0 (words xs) (total ∷ [])
    ∙ bit_xor_self total
  where
    total : ℕ
    total = xor_words 0 (words xs)

    stored : words (word_bytes total) ≡ total ∷ []
    stored =
        words-word_bytes total
          (xor_words-IsWord 0 (words xs) (omega arith) (words-All n xs (omega (arith, hl)) h))
