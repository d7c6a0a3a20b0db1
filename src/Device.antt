-- ===== src/Device.antt =====
-- The adapter: the reports of device.cpp. The calls of hidapi are an interface.
pub mod Reports
pub mod Packets
pub mod Ends
mod Tests
use fdsstick.Base.{
  ℕ, zero, suc, ◌+◌, ◌-◌, ◌%◌, ◌^◌, Bool, true, false, List, [], ◌∷◌, Option, none, some,
}
use fdsstick.Base.{Run, ok, ◌>>=◌, read, write, read_range, write_range, ltb, ◌==◌, u8, length}
use fdsstick.Base.{if◌then◌else◌}

-- `hid_send_feature_report` and `hid_write` (whether the result is at least 0), and
-- `hid_get_feature_report` with a report id and a size (the bytes that it puts into the buffer, or
-- `none` for a result below 0). `σ` is whatever they read and change.
pub record Hid (σ : Type 0) : Type 0 where
  pub send_feature_report : List ℕ → σ → Bool × σ
  pub get_feature_report : ℕ → ℕ → σ → Option (List ℕ) × σ
  pub hid_write : List ℕ → σ → Bool × σ

-- The static variables, and the world behind hidapi.
pub record Device (σ : Type 0) : Type 0 where
  pub hidbuf : List ℕ
  pub read_sequence : ℕ
  pub world : σ

abbrev pub spi_write_max : ℕ
spi_write_max = 60

abbrev pub spi_read_max : ℕ
spi_read_max = 63

abbrev pub disk_read_max : ℕ
disk_read_max = 254

abbrev pub disk_write_max : ℕ
disk_write_max = 255

-- The report ids in use.
abbrev pub id_reset : ℕ
id_reset = 0xf0

abbrev pub id_update_firmware : ℕ
id_update_firmware = 0xf1

abbrev pub id_self_test : ℕ
id_self_test = 0xf2

abbrev pub id_spi_read : ℕ
id_spi_read = 1

abbrev pub id_spi_read_stop : ℕ
id_spi_read_stop = 2

abbrev pub id_spi_write : ℕ
id_spi_write = 3

abbrev pub id_sram_write : ℕ
id_sram_write = 7

abbrev pub id_disk_read_start : ℕ
id_disk_read_start = 0x11

abbrev pub id_disk_read : ℕ
id_disk_read = 0x12

abbrev pub id_disk_write_start : ℕ
id_disk_write_start = 0x13

abbrev pub id_disk_write : ℕ
id_disk_write = 0x14

abbrev pub id_firmware_write : ℕ
id_firmware_write = 0x41

-- A `bool` in a byte
abbrev pub flag : Bool → ℕ
flag true = 1
flag false = 0

-- The bytes 0 to 3 of the buffer, then the data from the front of `buf`.
unfoldable pub fill_report : List ℕ → ℕ → List ℕ → ℕ → Bool → Bool → Run (List ℕ)
fill_report hidbuf id buf size init_cs hold_cs = do
  id_set ← write hidbuf 0 id
  size_set ← write id_set 1 (u8 size)
  init_set ← write size_set 2 (flag init_cs)
  hold_set ← write init_set 3 (flag hold_cs)
  bytes ← read_range buf 0 size
  write_range hold_set 4 bytes

module _ {σ : Type 0} (hid : Hid σ) where
  -- What `dev_spiWrite`, `dev_sramWrite` and `dev_fwWrite` share.
  unfoldable pub send_report : ℕ → List ℕ → ℕ → Bool → Bool → Device σ → Run (Bool × Device σ)
  unfolding fill_report
  send_report id buf size init_cs hold_cs dev = do
    filled ← fill_report dev.hidbuf id buf size init_cs hold_cs
    report ← read_range filled 0 (4 + size)
    let sent = hid.send_feature_report report dev.world
    ok (sent.0, record dev { hidbuf = filled; world = sent.1 })

  unfoldable pub spi_write : List ℕ → ℕ → Bool → Bool → Device σ → Run (Bool × Device σ)
  unfolding send_report
  spi_write buf size init_cs hold_cs dev = elim (ltb spi_write_max size) [
    | true ↦ ok (false, dev)
    | false ↦ send_report id_spi_write buf size init_cs hold_cs dev
  ]

  unfoldable pub sram_write : List ℕ → ℕ → Bool → Bool → Device σ → Run (Bool × Device σ)
  unfolding send_report
  sram_write buf size init_cs hold_cs dev = elim (ltb spi_write_max size) [
    | true ↦ ok (false, dev)
    | false ↦ send_report id_sram_write buf size init_cs hold_cs dev
  ]

  -- This one has no test of the size.
  pub fw_write : List ℕ → ℕ → Bool → Bool → Device σ → Run (Bool × Device σ)
  unfolding send_report
  fw_write buf size init_cs hold_cs dev = send_report id_firmware_write buf size init_cs hold_cs dev

  -- `none` is `return false`; the bytes are those copied to `buf`.
  unfoldable pub spi_read : ℕ → Bool → Device σ → Run (Option (List ℕ) × Device σ)
  spi_read size hold_cs dev = elim (ltb spi_read_max size) [
    | true ↦ ok (none, dev)
    | false ↦ do
      let id = if hold_cs then id_spi_read else id_spi_read_stop
      id_set ← write dev.hidbuf 0 id
      let got = hid.get_feature_report id 64 dev.world
      elim got.0 [
        | none ↦ ok (none, record dev { hidbuf = id_set; world = got.1 })
        | some report ↦ do
          filled ← write_range id_set 0 report
          bytes ← read_range filled 1 size
          ok (some bytes, record dev { hidbuf = filled; world = got.1 })
      ]
  ]

  -- The two bytes from `hidbuf` on, the second as it is.
  unfoldable pub short_report : ℕ → Device σ → Run (Bool × Device σ)
  short_report id dev = do
    id_set ← write dev.hidbuf 0 id
    report ← read_range id_set 0 2
    let sent = hid.send_feature_report report dev.world
    ok (sent.0, record dev { hidbuf = id_set; world = sent.1 })

  unfoldable pub read_start : Device σ → Run (Bool × Device σ)
  unfolding short_report
  read_start dev = short_report id_disk_read_start (record dev { read_sequence = 1 })

  -- These three do not look at the result.
  pub reset : Device σ → Run (Bool × Device σ)
  unfolding short_report
  reset dev = do r ← short_report id_reset dev; ok (true, r.1)

  pub update_firmware : Device σ → Run (Bool × Device σ)
  unfolding short_report
  update_firmware dev = do r ← short_report id_update_firmware dev; ok (true, r.1)

  pub self_test : Device σ → Run (Device σ)
  unfolding short_report
  self_test dev = do r ← short_report id_self_test dev; ok r.1

  unfoldable pub write_start : Device σ → Run (Bool × Device σ)
  unfolding short_report
  write_start dev = short_report id_disk_write_start dev

  -- `none` is a result below 0. The code copies the bytes before it looks at the sequence number.
  unfoldable pub read_disk : Device σ → Run (Option (List ℕ) × Device σ)
  read_disk dev = do
    id_set ← write dev.hidbuf 0 id_disk_read
    let got = hid.get_feature_report id_disk_read (disk_read_max + 2) dev.world
    elim got.0 [
      | none ↦ ok (none, record dev { hidbuf = id_set; world = got.1 })
      | some report ↦ do
        filled ← write_range id_set 0 report
        let quiet = record dev { hidbuf = filled; world = got.1 }
        elim (ltb (length report) 2) [
          | true ↦ ok (none, quiet)
          | false ↦ elim (length report == 2) [
            | true ↦ ok (some [], quiet)
            | false ↦ do
              bytes ← read_range filled 2 (length report - 2)
              sequence ← read filled 1
              let next = record quiet { read_sequence = u8 (dev.read_sequence + 1) }
              elim (sequence == dev.read_sequence) [
                | true ↦ ok (some bytes, next)
                | false ↦ ok (none, next)
              ]
          ]
        ]
    ]

  unfoldable pub write_disk : List ℕ → ℕ → Device σ → Run (Bool × Device σ)
  write_disk buf size dev = elim (size == disk_write_max) [
    | false ↦ ok (false, dev)
    | true ↦ do
      id_set ← write dev.hidbuf 0 id_disk_write
      bytes ← read_range buf 0 size
      filled ← write_range id_set 1 bytes
      report ← read_range filled 0 (disk_write_max + 1)
      let sent = hid.hid_write report dev.world
      ok (sent.0, record dev { hidbuf = filled; world = sent.1 })
  ]
