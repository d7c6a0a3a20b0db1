-- ===== src/Slots/Tests.antt =====
-- Runs of the slot commands, and their theorems at small games.
use fdsstick.Base.{
  ℕ, ◌+◌, ◌≡◌, refl, arith, true, false, List, [], ◌∷◌, ◌++◌, Option, none, some, take, replicate,
  length-replicate, ok, Returns, Ensures,
}
use fdsstick.Device.{Hid, Device, spi_read, spi_write, send_report, fill_report}
use fdsstick.Spi.{read_flash, read_chunks}
use fdsstick.Os.{Os}
use fdsstick.Disks.{load_file, first_side, whole_sides, has_side}
use fdsstick.Disks.Each.{is_loaded}
use fdsstick.Sample.{os_with, os_with-Allocates, chip, chip-Clock, chip-Outlasts, opened}
use fdsstick.Slots.Path.{short_name_lem}
use fdsstick.Slots.{
  xor_bytes, chksum_calc, short_name, slot_image, list_slot, list_slots, write_sides,
  fds_write_flash, write_file, empty, unknown, named, next_side,
}
use fdsstick.Slots.Header.{list_slot-slot_image}
use fdsstick.Slots.Listing.{Holds, Lists, laters, side_entries, list_slots-game}
use fdsstick.Slots.Writing.{fds_write_flash-Ensures}

chksum_run : chksum_calc (1 ∷ 2 ∷ 4 ∷ 8 ∷ 16 ∷ 32 ∷ 64 ∷ 128 ∷ []) 8 ≡ ok 3
unfolding chksum_calc xor_bytes
chksum_run = refl

short_name_lem_example :
    (short_name (0x62 ∷ 0x63 ∷ []) ≡ 0x62 ∷ 0x63 ∷ [])
    × (short_name ((0x61 ∷ 47 ∷ 0x2e ∷ []) ++ (47 ∷ 0x62 ∷ 0x63 ∷ [])) ≡ 0x62 ∷ 0x63 ∷ [])
short_name_lem_example = short_name_lem (0x61 ∷ 47 ∷ 0x2e ∷ []) (0x62 ∷ 0x63 ∷ []) (ground arith)

short_name_run : short_name (0x61 ∷ 47 ∷ 0x62 ∷ 47 ∷ 0x63 ∷ []) ≡ 0x63 ∷ []
unfolding short_name
short_name_run = refl

empty_run : list_slot 3 (0xff ∷ []) 2 ≡ ok (empty 3, 0)
unfolding list_slot
empty_run = refl

unknown_run : list_slot 3 (0 ∷ []) 0 ≡ ok (unknown 3, 0)
unfolding list_slot
unknown_run = refl

-- A file that does not begin with a side is loaded, and nothing is written.
write_flash_run :
    Returns
      (fds_write_flash (os_with (some (9 ∷ 9 ∷ []))) chip 1 (1 ∷ []) 1 opened)
      (λ r. r.0 ≡ true)
unfolding fds_write_flash load_file first_side whole_sides write_sides has_side
write_flash_run = refl

write_file_run : Returns (write_file (os_with none) chip 1 (1 ∷ []) 0 8 opened) (λ r. r.0 ≡ false)
unfolding write_file
write_file_run = refl

abbrev body : List ℕ
body = replicate 0xff00 0

abbrev filename : List ℕ
filename = 0x61 ∷ 47 ∷ 0x62 ∷ 0x63 ∷ []

short : short_name filename ≡ 0x62 ∷ 0x63 ∷ []
unfolding short_name
short = refl

list_slot-slot_image_example :
    Returns
      (slot_image filename 0 body)
      (λ image. list_slot 4 (take 256 image) 0 ≡ ok (named 4 (0x62 ∷ 0x63 ∷ []), 1))
    × Returns
        (slot_image filename 1 body)
        (λ image. list_slot 4 (take 256 image) 1 ≡ ok (next_side 4 (1 + 1), 1 + 1))
list_slot-slot_image_example =
    list_slot-slot_image filename 1 4 0 1 0x62 (0x63 ∷ []) body
      (length-replicate {0} {A = ℕ} 0xff00 0) short (ground arith) (omega arith) (omega arith)
      (omega arith) (omega arith)

fds_write_flash-Ensures_example :
    Ensures
      (λ r. r.0 ≡ is_loaded ((load_file (os_with (some (9 ∷ []))) (1 ∷ []) opened).0))
      (fds_write_flash (os_with (some (9 ∷ []))) chip 8005 (1 ∷ []) 1 opened)
fds_write_flash-Ensures_example =
    fds_write_flash-Ensures (os_with (some (9 ∷ []))) chip 8005 (chip-Clock (some (9 ∷ [])))
      (chip-Outlasts (some (9 ∷ []))) (1 ∷ []) 1 opened (os_with-Allocates (some (9 ∷ [])))

-- An adapter that answers with the reports it holds, in their order.
abbrev next_report : ℕ → List (List ℕ) → Option (List ℕ) × List (List ℕ)
next_report id [] = (none, [])
next_report id (r ∷ rs) = (some (id ∷ r), rs)

abbrev reader : Hid (List (List ℕ))
reader = record {
  send_feature_report = λ r w. (true, w);
  get_feature_report = λ id n w. next_report id w;
  hid_write = λ r w. (true, w);
}

abbrev quiet : Os (List (List ℕ))
quiet = record {
  load = λ name w. (none, w);
  create = λ name w. (false, w);
  save = λ name bytes w. w;
  get_ticks = λ w. (0, w);
  read_kb = λ w. (0, w);
  sleep_ms = λ n w. w;
  malloc = λ n w. replicate n 0;
}

abbrev blank : List ℕ
blank = replicate 63 0

-- Two slots of a game, each read in five reports.
abbrev loaded : Device (List (List ℕ))
loaded = record {
  hidbuf = replicate 256 0;
  read_sequence = 1;
  world =
      (0x62 ∷ 0x63 ∷ replicate 61 0)
      ∷ blank
      ∷ blank
      ∷ blank
      ∷ blank
      ∷ blank
      ∷ blank
      ∷ blank
      ∷ blank
      ∷ blank
      ∷ [];
}

pages-Holds :
    Holds quiet reader 1 3
      (((0x62 ∷ 0x63 ∷ []) ++ (0 ∷ replicate 253 0)) ∷ laters (replicate 255 0 ∷ []))
      (replicate 256 0)
      loaded
unfolding read_flash read_chunks spi_read spi_write send_report fill_report
pages-Holds = (_, refl, (_, refl, tt))

list_slots-game_example : Returns (list_slots quiet reader 1 2 3 0 (replicate 256 0) loaded) (
    Lists quiet reader 1
      (named 3 (0x62 ∷ 0x63 ∷ []) ∷ side_entries (3 + 1) 2 (replicate 255 0 ∷ [])))
list_slots-game_example =
    list_slots-game quiet reader 1 0x62 (0x63 ∷ []) (replicate 253 0) (replicate 255 0 ∷ []) 2 3 0
      (replicate 256 0) loaded (ground arith) (omega arith) refl pages-Holds
