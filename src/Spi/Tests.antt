-- ===== src/Spi/Tests.antt =====
-- Runs of the flash commands with a concrete adapter, and the theorems on them at it.
use fdsstick.Base.{ℕ, ◌≡◌, refl, arith, true, false, List, [], ◌∷◌, ◌++◌, length, replicate, some}
use fdsstick.Base.{Returns}
use fdsstick.Device.{Hid, Device, id_sram_write, spi_write, spi_read, send_report, fill_report}
use fdsstick.Device.Reports.{Sent}
use fdsstick.Spi.Chunks.{reports, send_all}
use fdsstick.Spi.Pages.{write_all, write_flash-write_all}
use fdsstick.Spi.Sram.{sram_command, write_sram-send_all}
use fdsstick.Spi.{
  read_id, read_flash_size, read_flash, read_chunks, write_enable, write_wait, wait_loop,
}
use fdsstick.Spi.{
  un_write_protect, page_write, page_command, page_program, send_chunks, erase_command, block_erase,
}
use fdsstick.Spi.{
  block_erase32, sector_erase, program_pages, write_flash, write_flash2, erase_page, write_sram,
  ◌and_then◌,
}

-- An adapter that keeps the reports and always answers with the id of a chip, whose first byte is
-- even: not busy.
abbrev chip : Hid (List (List ℕ))
chip = record {
  send_feature_report = λ r w. (true, r ∷ w);
  get_feature_report = λ id n w. (some (id ∷ 0x20 ∷ 0x80 ∷ 0x13 ∷ []), w);
  hid_write = λ r w. (true, r ∷ w);
}

abbrev clock : List (List ℕ) → ℕ × List (List ℕ)
clock w = (0, w)

abbrev opened : Device (List (List ℕ))
opened = record { hidbuf = replicate 256 0; read_sequence = 1; world = [] }

size_run : Returns (read_flash_size chip clock opened) (λ r. r.0 ≡ 0x8_0000)
unfolding read_flash_size read_id spi_write spi_read send_report fill_report
size_run = refl

read_flash_run :
    Returns
      (read_flash chip clock 0x1234 (5 ∷ 5 ∷ 5 ∷ []) 2 opened)
      (λ r. r.1 ≡ 0x20 ∷ 0x80 ∷ 5 ∷ [])
unfolding read_flash read_chunks spi_write spi_read send_report fill_report
read_flash_run = refl

-- Write enable, the command, the status and the release of CS.
sector_erase_run : Returns (sector_erase chip clock 1 0x1_2345 opened) (λ r. length r.1.world ≡ 4)
unfolding sector_erase erase_command write_enable write_wait wait_loop spi_write spi_read
    send_report fill_report
sector_erase_run = refl

block_erase_run : Returns (block_erase chip clock 1 0x1_2345 opened) (λ r. length r.1.world ≡ 4)
unfolding block_erase erase_command write_enable write_wait wait_loop spi_write spi_read send_report
    fill_report
block_erase_run = refl

block_erase32_run : Returns (block_erase32 chip clock 1 0x1_2345 opened) (λ r. length r.1.world ≡ 4)
unfolding block_erase32 erase_command write_enable write_wait wait_loop spi_write spi_read
    send_report fill_report
block_erase32_run = refl

erase_page_run : Returns (erase_page chip clock 1 0x1_2345 opened) (λ r. length r.1.world ≡ 8)
unfolding erase_page un_write_protect write_enable write_wait wait_loop spi_write spi_read
    send_report fill_report
erase_page_run = refl

page_write_run :
    Returns
      (page_write chip clock 1 0xfe (1 ∷ 2 ∷ []) 2 opened)
      (λ r. (r.0 ≡ true) × (length r.1.world ≡ 4))
unfolding page_write page_command send_chunks write_enable write_wait wait_loop spi_write spi_read
    send_report fill_report
page_write_run = (refl, refl)

-- A page that would overflow is refused, and nothing is sent.
page_overflow :
    Returns
      (page_program chip clock 1 0xfe (1 ∷ 2 ∷ 3 ∷ []) 3 opened)
      (λ r. (r.0 ≡ false) × (r.1.world ≡ []))
unfolding page_program page_command spi_write spi_read send_report fill_report
page_overflow = (refl, refl)

write_flash2_run : Returns (write_flash2 chip clock 1 (1 ∷ 2 ∷ []) 0x100 2 opened) (λ r. r.0 ≡ true)
unfolding write_flash2 block_erase32 erase_command program_pages page_program page_command
    send_chunks write_enable write_wait wait_loop spi_write spi_read send_report fill_report
write_flash2_run = refl

write_flash-write_all_example : write_flash chip clock 1 ((1 ∷ 2 ∷ []) ++ []) 0x1_0000 2 opened ≡ (
    block_erase chip clock 1 0x1_0000 opened and_then λ erased.
    write_all (page_program chip clock 1) 0x1_0000 [] (1 ∷ 2 ∷ []) erased)
write_flash-write_all_example =
    write_flash-write_all chip clock 1 [] (1 ∷ 2 ∷ []) [] 0x1_0000 2 opened refl (omega arith) tt
      (omega arith) (omega arith) refl

write_sram-send_all_example :
    Returns (write_sram chip clock ((replicate 60 7 ++ (9 ∷ [])) ++ []) 0x100 61 opened) (
      Sent
        (send_all chip
          (sram_command 0x100 ∷ reports id_sram_write false (replicate 60 7 ∷ []) (9 ∷ []))
          [])
        1)
write_sram-send_all_example =
    write_sram-send_all chip clock (replicate 60 7 ∷ []) (9 ∷ []) [] 0x100 61 opened (refl, tt)
      (omega arith) (omega arith) refl refl
