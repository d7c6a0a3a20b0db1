-- ===== src/Firmware/Checksum.antt =====
-- The image that `FW_writeFlash` sends.
use fdsstick.Base.{
  ℕ, ◌-◌, ◌*◌, ◌≤◌, ◌≡◌, ap, ◌∙◌, arith, List, ◌++◌, length, length-append, length-replicate,
  replicate, take, take-length_append, append_assoc, All, All-append, All-replicate,
}
use fdsstick.Crc.Check.{IsByte}
use fdsstick.Firmware.{words, word_bytes, xor_words, firmware_image}
use fdsstick.Firmware.Words.{xor_words-closed}

word_bytes-All : (v : ℕ) → All IsByte (word_bytes v)
word_bytes-All v = (omega arith, (omega arith, (omega arith, (omega arith, tt))))

-- What the sum runs over.
summed : List ℕ → List ℕ
summed file = file ++ (replicate (0x8000 - 8 - length file) 0 ++ word_bytes 0xdead_beef)

length-summed : (file : List ℕ) → length file ≤ 0x8000 - 8 → length (summed file) ≡ 4 * 0x1fff
unfolding summed
length-summed file h = omega (
  arith,
  length-append {0} file (replicate (0x8000 - 8 - length file) 0 ++ word_bytes 0xdead_beef),
  length-append {0} (replicate (0x8000 - 8 - length file) 0) (word_bytes 0xdead_beef),
  length-replicate {0} {A = ℕ} (0x8000 - 8 - length file) 0,
)

-- For a firmware of bytes that leaves room for the two words, the image has 0x8000 bytes, begins
-- with the firmware, and the sum of all its words is 0.
pub firmware_image-closed :
    (file : List ℕ)
    → length file ≤ 0x8000 - 8
    → All IsByte file
    → (length (firmware_image file) ≡ 0x8000)
      × (take (length file) (firmware_image file) ≡ file)
      × (xor_words 0 (words (firmware_image file)) ≡ 0)
unfolding firmware_image summed
firmware_image-closed file h hb = (
  omega (
    arith,
    length-summed file h,
    length-append {0} (summed file) (word_bytes (xor_words 0 (words (summed file)))),
  ),
  ap (take (length file)) (append_assoc file _ _) ∙ take-length_append {0} file _,
  xor_words-closed 0x1fff (summed file) (length-summed file h) (
      All-append IsByte file _ hb (
        All-append IsByte _ _ (All-replicate IsByte (0x8000 - 8 - length file) 0 (omega arith))
          (word_bytes-All 0xdead_beef))),
)
