-- ===== src/Device/Tests.antt =====
-- Runs of the reports with a concrete adapter, and the theorems on them at it.
use fdsstick.Base.{
  ℕ, ◌+◌, ◌≡◌, refl, arith, true, false, List, [], ◌∷◌, ◌++◌, replicate, drop, some, none,
}
use fdsstick.Base.{ok, Returns, u8, ◌==◌, if◌then◌else◌}
use fdsstick.Device.{
  Hid, Device, fill_report, send_report, short_report, spi_write, fw_write, spi_read, read_start,
  write_start,
}
use fdsstick.Device.{reset, update_firmware, self_test, read_disk, write_disk, id_spi_write}
use fdsstick.Device.Reports.{report_of, Sent, spi_write-Sent}
use fdsstick.Device.Packets.{read_disk-taken}

-- An adapter that keeps the reports and answers with one packet.
abbrev keeper : Hid (List (List ℕ))
keeper = record {
  send_feature_report = λ r w. (true, r ∷ w);
  get_feature_report = λ id n w. (some (id ∷ 1 ∷ 7 ∷ 8 ∷ []), w);
  hid_write = λ r w. (true, r ∷ w);
}

abbrev opened : Device (List (List ℕ))
opened = record { hidbuf = replicate 256 0; read_sequence = 1; world = [] }

fw_write_run :
    Returns
      (fw_write keeper (5 ∷ 6 ∷ []) 2 true false opened)
      (λ r. r.1.world ≡ (0x41 ∷ 2 ∷ 1 ∷ 0 ∷ 5 ∷ 6 ∷ []) ∷ [])
unfolding fw_write send_report fill_report
fw_write_run = refl

spi_read_run : Returns (spi_read keeper 2 true opened) (λ r. r.0 ≡ some (1 ∷ 7 ∷ []))
unfolding spi_read
spi_read_run = refl

spi_read_big : Returns (spi_read keeper 64 true opened) (λ r. r.0 ≡ none)
unfolding spi_read
spi_read_big = refl

start_run : Returns (read_start keeper opened) (λ r. r.1.world ≡ (0x11 ∷ 0 ∷ []) ∷ [])
unfolding read_start short_report
start_run = refl

reset_run : Returns (reset keeper opened) (λ r. r.1.world ≡ (0xf0 ∷ 0 ∷ []) ∷ [])
unfolding reset short_report
reset_run = refl

update_firmware_run :
    Returns (update_firmware keeper opened) (λ r. r.1.world ≡ (0xf1 ∷ 0 ∷ []) ∷ [])
unfolding update_firmware short_report
update_firmware_run = refl

self_test_run : Returns (self_test keeper opened) (λ r. r.world ≡ (0xf2 ∷ 0 ∷ []) ∷ [])
unfolding self_test short_report
self_test_run = refl

write_start_run : Returns (write_start keeper opened) (λ r. r.1.world ≡ (0x13 ∷ 0 ∷ []) ∷ [])
unfolding write_start short_report
write_start_run = refl

write_disk_run :
    Returns
      (write_disk keeper (replicate 255 9) 255 opened)
      (λ r. r.1.world ≡ (0x14 ∷ replicate 255 9) ∷ [])
unfolding write_disk
write_disk_run = refl

write_disk_short : Returns (write_disk keeper (replicate 255 9) 254 opened) (λ r. r.0 ≡ false)
unfolding write_disk
write_disk_short = refl

spi_write-Sent_example :
    Returns
      (spi_write keeper ((0x9f ∷ []) ++ []) 1 true true opened)
      (Sent (keeper.send_feature_report (report_of id_spi_write (0x9f ∷ []) true true) []) 1)
spi_write-Sent_example =
    spi_write-Sent keeper (0x9f ∷ []) [] 1 true true opened refl (omega arith) refl

read_disk-taken_example :
    read_disk keeper opened
    ≡ ok (
      if 1 == 1 then some (7 ∷ 8 ∷ []) else none,
      record {
        hidbuf = (0x12 ∷ 1 ∷ 7 ∷ 8 ∷ []) ++ drop 4 (replicate 256 0);
        read_sequence = u8 (1 + 1);
        world = [];
      },
    )
read_disk-taken_example = read_disk-taken keeper 0x12 1 7 (8 ∷ []) [] opened (omega arith) refl
