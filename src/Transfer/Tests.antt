-- ===== src/Transfer/Tests.antt =====
-- Runs of the transfers with concrete adapters, and the theorems on them at small inputs.
use fdsstick.Transfer.Reading.{read_packets-joined}
use fdsstick.Spi.Chunks.{joined}
use fdsstick.Base.{none, Option, drop, ◌+◌, arith}
use fdsstick.Base.{
  ℕ, ◌*◌, ◌≡◌, refl, true, false, ◌+◌, arith, Option, drop, List, [], ◌∷◌, ◌++◌, length, replicate,
  some, Returns,
}
use fdsstick.Spi.{write_sram, send_chunks}
use fdsstick.Device.{sram_write, send_report, fill_report}
use fdsstick.Device.{Hid, Device, short_report, read_start, read_disk, write_start, write_disk}
use fdsstick.Raw.Pulses.{bits_of}
use fdsstick.Transfer.Mfm.{doubled, expand_bytes-doubled}
use fdsstick.Transfer.{
  expand_bytes, send_packets, write_image, write_image2, read_packets, read_disk_image,
}

-- Takes every report but the packets of a disk, and has two bytes of a disk to read.
abbrev drive : Hid (List (List ℕ))
drive = record {
  send_feature_report = λ r w. (true, r ∷ w);
  get_feature_report = λ id n w. (some (id ∷ 1 ∷ 7 ∷ 8 ∷ []), w);
  hid_write = λ r w. (false, w);
}

abbrev clock : List (List ℕ) → ℕ × List (List ℕ)
clock w = (0, w)

abbrev opened : Device (List (List ℕ))
opened = record { hidbuf = replicate 256 0; read_sequence = 0; world = [] }

write_image_run : Returns (write_image drive clock (1 ∷ 2 ∷ []) 2 opened) (λ r. r.0 ≡ false)
unfolding write_image write_start short_report write_disk expand_bytes send_packets
write_image_run = refl

read_image_run :
    Returns
      (read_disk_image drive clock (0 ∷ 0 ∷ 0 ∷ []) opened)
      (λ r. (r.0 ≡ some 2) × (r.1 ≡ 7 ∷ 8 ∷ 0 ∷ []))
unfolding read_disk_image read_start short_report read_disk read_packets
read_image_run = (refl, refl)

write_image2_run :
    Returns
      (write_image2 drive clock (1 ∷ 2 ∷ []) 2 opened)
      (λ r. (r.0 ≡ true) × (length r.1.world ≡ 3))
unfolding write_image2 write_sram send_chunks sram_write send_report fill_report write_start
    short_report
write_image2_run = (refl, refl)

expand_bytes-doubled_example :
    Returns
      (expand_bytes ((0x80 ∷ 1 ∷ []) ++ []) 2)
      (λ mfm. (bits_of mfm ≡ doubled (bits_of (0x80 ∷ 1 ∷ []))) × (length mfm ≡ 2 * 2))
expand_bytes-doubled_example = expand_bytes-doubled (0x80 ∷ 1 ∷ []) [] 2 refl

-- An adapter that answers with the packets of a list.
abbrev serve : List (List ℕ) → Option (List ℕ) × List (List ℕ)
serve [] = (none, [])
serve (p ∷ ps) = (some p, ps)

abbrev reader : Hid (List (List ℕ))
reader = record {
  send_feature_report = λ r w. (true, w);
  get_feature_report = λ id n w. serve w;
  hid_write = λ r w. (true, w);
}

abbrev full : List ℕ
full = replicate 254 5

abbrev waiting : Device (List (List ℕ))
waiting = record {
  hidbuf = replicate 256 0;
  read_sequence = 255;
  world = (0x12 ∷ 255 ∷ full) ∷ (0x12 ∷ 0 ∷ 7 ∷ 8 ∷ []) ∷ [];
}

abbrev room : List ℕ
room = replicate 300 0

read_packets-joined_example : Returns (read_packets reader clock 2 ([] ++ room) 0 waiting) (λ r.
    (r.0 ≡ some (0 + length (joined (full ∷ []) (7 ∷ 8 ∷ []))))
    × (r.1
        ≡ []
          ++ (joined (full ∷ []) (7 ∷ 8 ∷ [])
              ++ drop (length (joined (full ∷ []) (7 ∷ 8 ∷ []))) room)))
read_packets-joined_example =
    read_packets-joined reader clock (full ∷ []) (7 ∷ 8 ∷ []) 2 0 [] room waiting (refl, tt)
      (omega arith) (omega arith) ((0x12 ∷ 0 ∷ 7 ∷ 8 ∷ []) ∷ [], refl, ([], refl, tt)) refl refl
      (omega arith) (omega arith) (omega arith)
