-- ===== src/Firmware/Tests.antt =====
-- Runs of the firmware commands, and their theorems at small files.
use fdsstick.Base.{
  ℕ, ◌≡◌, ◌≢◌, refl, arith, true, false, List, [], ◌∷◌, ◌++◌, none, some, length, take, replicate,
  length-replicate, ok, Returns, All-replicate,
}
use fdsstick.Disks.{load_file}
use fdsstick.Sample.{os_with, chip, bus, unopened, opened}
use fdsstick.Firmware.{
  words, xor_words, firmware_image, loader_id, detect_loader, write_loader, fw_write_flash,
  firmware_update,
}
use fdsstick.Firmware.Checksum.{firmware_image-closed}
use fdsstick.Firmware.Loader.{NoMark, detect_loader-none, detect_loader-found}

words_run : words (1 ∷ 2 ∷ 0 ∷ 1 ∷ 9 ∷ []) ≡ 0x100_0201 ∷ []
unfolding words
words_run = refl

xor_words_run : xor_words 1 (2 ∷ 3 ∷ 8 ∷ []) ≡ 8
unfolding xor_words
xor_words_run = refl

-- A file that is missing.
write_loader_run : Returns (write_loader (os_with none) chip 1 (1 ∷ []) opened) (λ r. r.0 ≡ false)
unfolding write_loader load_file
write_loader_run = refl

-- A file that is too large.
fw_write_flash_run :
    Returns
      (fw_write_flash (os_with (some (replicate 0x7ff9 0))) chip 1 bus (1 ∷ []) unopened)
      (λ r. r.0 ≡ false)
unfolding fw_write_flash
fw_write_flash_run = refl

-- A table that is not newer.
firmware_update_run :
    Returns (firmware_update (os_with none) chip 1 bus (replicate 6 0) unopened) (λ r. r.0 ≡ true)
unfolding firmware_update
firmware_update_run = refl

abbrev program : List ℕ
program = 0x12 ∷ 0x34 ∷ 0xff ∷ 0x80 ∷ 7 ∷ []

firmware_image-closed_example :
    (length (firmware_image program) ≡ 0x8000)
    × (take (length program) (firmware_image program) ≡ program)
    × (xor_words 0 (words (firmware_image program)) ≡ 0)
firmware_image-closed_example = firmware_image-closed program (omega arith) (ground arith)

detect_loader-found_example :
    detect_loader ((1 ∷ 2 ∷ []) ++ (loader_id ++ (0 ∷ 104 ∷ 5 ∷ []))) ≡ ok (some 104)
detect_loader-found_example =
    detect_loader-found (1 ∷ 2 ∷ []) (5 ∷ []) 0 104 (ground arith) (omega arith)

nothing-NoMark : NoMark (replicate 65500 0)
nothing-NoMark = All-replicate (λ b. b ≢ 0x5d) 65500 0 (omega arith)

detect_loader-none_example : detect_loader (replicate 65500 0 ++ (0x5d ∷ [])) ≡ ok none
detect_loader-none_example =
    detect_loader-none (replicate 65500 0) (0x5d ∷ []) nothing-NoMark
      (length-replicate {0} {A = ℕ} 65500 0)
