-- ===== src/Transfer.antt =====
-- Whole disks to and from the drive: `writeDisk`, `writeDisk2` and the reading loop of `FDS_readDisk`.
pub mod Mfm
pub mod Reading
pub mod Ends
mod Tests
use fdsstick.Base.{ℕ, zero, suc, ◌+◌, ◌-◌, ◌*◌, ◌/◌, ◌^◌, bit_and, Bool, true, false, ◌&&◌, not}
use fdsstick.Base.{List, [], ◌∷◌, ◌++◌, Option, none, some, drop, length, replicate}
use fdsstick.Base.{Run, ok, fault, stuck, ◌>>=◌, read, push, write_range, ltb, ◌==◌}
use fdsstick.Device.{
  Hid, Device, read_start, read_disk, write_start, write_disk, disk_read_max, disk_write_max,
}
use fdsstick.Spi.{write_sram}

-- `expand` of `writeDisk`
abbrev pub expand : List ℕ
expand =
    0xaa ∷ 0xa9 ∷ 0xa6 ∷ 0xa5 ∷ 0x9a ∷ 0x99 ∷ 0x96 ∷ 0x95 ∷ 0x6a ∷ 0x69 ∷ 0x66 ∷ 0x65 ∷ 0x5a ∷ 0x59
    ∷ 0x56 ∷ 0x55 ∷ []

-- The first `bin_size` bytes, two for each.
pub expand_bytes : List ℕ → ℕ → Run (List ℕ)
expand_bytes bin zero = ok []
expand_bytes [] (suc n) = fault
expand_bytes (b ∷ bin) (suc n) = do
  low ← read expand (bit_and b 0x0f)
  high ← read expand (bit_and (b / 2 ^ 4) 0x0f)
  push low (push high (expand_bytes bin n))

module _ {σ : Type 0} (hid : Hid σ) (get_ticks : σ → ℕ × σ) where
  -- The packets from `bytes_out` on; false after a failure.
  pub send_packets : ℕ → List ℕ → ℕ → ℕ → Device σ → Run (Bool × Device σ)
  send_packets zero mfm bytes_out total dev = stuck
  send_packets (suc fuel) mfm bytes_out total dev = elim (ltb bytes_out total) [
    | false ↦ ok (true, dev)
    | true ↦ do
      r ← write_disk hid (drop bytes_out mfm) disk_write_max dev
      elim r.0 [
        | false ↦ ok (false, r.1)
        | true ↦ send_packets fuel mfm (bytes_out + disk_write_max) total r.1
      ]
  ]

  -- The packet of empty space, until one fails or 0x20000 bytes are sent.
  pub send_empty : ℕ → List ℕ → ℕ → Device σ → Run (Device σ)
  send_empty zero mfm bytes_out dev = stuck
  send_empty (suc fuel) mfm bytes_out dev = elim (ltb bytes_out 0x2_0000) [
    | false ↦ ok dev
    | true ↦ do
      r ← write_disk hid mfm disk_write_max dev
      elim r.0 [ false ↦ ok r.1 | true ↦ send_empty fuel mfm (bytes_out + disk_write_max) r.1 ]
  ]

  -- `writeDisk`; the fuels are one more than the bytes that the loops go over.
  pub write_image : List ℕ → ℕ → Device σ → Run (Bool × Device σ)
  unfolding expand_bytes send_packets send_empty
  write_image bin bin_size dev = do
    started ← write_start hid dev
    elim started.0 [
      | false ↦ ok (false, started.1)
      | true ↦ do
        expanded ← expand_bytes bin bin_size
        let mfm = expanded ++ replicate disk_write_max 0xaa
        sent ← send_packets (bin_size * 2 + 1) mfm 0 (bin_size * 2) started.1
        elim sent.0 [
          | false ↦ ok (false, sent.1)
          | true ↦ do
            cleared ← write_range mfm 0 (replicate disk_write_max 0xaa)
            filled ← send_empty 0x2_0001 cleared 0 sent.1
            ok (true, filled)
        ]
    ]

  -- `writeDisk2`: the result of `spi_writeSram` is not looked at.
  pub write_image2 : List ℕ → ℕ → Device σ → Run (Bool × Device σ)
  write_image2 bin bin_size dev = do
    sent ← write_sram hid get_ticks bin 0 bin_size dev
    write_start hid sent.1

  -- The reading loop of `FDS_readDisk`, on the buffer of READBUFSIZE bytes; `none` is a read error.
  pub read_packets : ℕ → List ℕ → ℕ → Device σ → Run (Option ℕ × List ℕ × Device σ)
  read_packets zero buf bytes_in dev = stuck
  read_packets (suc fuel) buf bytes_in dev = do
    r ← read_disk hid dev
    elim r.0 [
      | none ↦ ok (none, buf, r.1)
      | some bytes ↦ do
        filled ← write_range buf bytes_in bytes
        let next = bytes_in + length bytes
        elim (length bytes == disk_read_max && ltb next (0x9_0000 - disk_read_max)) [
          | true ↦ read_packets fuel filled next r.1
          | false ↦ ok (some next, filled, r.1)
        ]
    ]

  -- `FDS_readDisk` up to the files: the number of bytes read, and the buffer.
  pub read_disk_image : List ℕ → Device σ → Run (Option ℕ × List ℕ × Device σ)
  unfolding read_packets
  read_disk_image buf dev = do
    started ← read_start hid dev
    elim started.0 [
      | false ↦ ok (none, buf, started.1)
      | true ↦ read_packets 0x9_0001 buf 0 started.1
    ]
