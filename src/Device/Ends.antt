-- ===== src/Device/Ends.antt =====
-- The calls of the adapter end, whatever hidapi answers: there is no loop in them.
use fdsstick.Base.{ℕ, ◌+◌, Bool, true, false, List, Option, none, some, Run, ok, ◌>>=◌, ltb, u8}
use fdsstick.Base.{read_range, write_range, if◌then◌else◌}
use fdsstick.Base.Ends.{Ends, bind-Ends, read-Ends, write-Ends, read_range-Ends, write_range-Ends}
use fdsstick.Base.{◌-◌, ◌==◌, length}
use fdsstick.Base.Access.{option-Ensures}
use fdsstick.Device.{
  sram_write, short_report, read_start, write_start, self_test, update_firmware, id_update_firmware,
  read_disk, id_sram_write, id_disk_read_start, id_disk_write_start, id_self_test, id_disk_read,
  disk_read_max,
}
use fdsstick.Device.{
  Hid, Device, flag, fill_report, send_report, spi_write, spi_read, spi_write_max, spi_read_max,
  id_spi_write, id_spi_read, id_spi_read_stop,
}

fill_report-Ends :
    (hidbuf : List ℕ) (id : ℕ) (buf : List ℕ) (size : ℕ) (init_cs hold_cs : Bool)
    → Ends (fill_report hidbuf id buf size init_cs hold_cs)
unfolding fill_report
fill_report-Ends hidbuf id buf size init_cs hold_cs = bind-Ends _ _ (write-Ends hidbuf 0 id) λ a.
    bind-Ends _ _ (write-Ends a 1 (u8 size)) λ b. bind-Ends _ _ (write-Ends b 2 (flag init_cs)) λ c.
      bind-Ends _ _ (write-Ends c 3 (flag hold_cs))
        λ d. bind-Ends _ _ (read_range-Ends buf 0 size) λ bytes. write_range-Ends d 4 bytes

module _ {σ : Type 0} (hid : Hid σ) where
  either :
      {A : Type 0} (b : Bool) (x y : Run A)
      → Ends x
      → Ends y
      → Ends (elim b [ true ↦ x | false ↦ y ])
  either true x y hx hy = hx
  either false x y hx hy = hy

  pub spi_write-Ends :
      (buf : List ℕ) (size : ℕ) (init_cs hold_cs : Bool) (dev : Device σ)
      → Ends (spi_write hid buf size init_cs hold_cs dev)
  unfolding spi_write send_report
  spi_write-Ends buf size init_cs hold_cs dev = either (ltb spi_write_max size) _ _ tt (
      bind-Ends _ _ (fill_report-Ends dev.hidbuf id_spi_write buf size init_cs hold_cs)
        λ filled. bind-Ends _ _ (read_range-Ends filled 0 (4 + size)) λ report. tt)

  answered :
      (id_set : List ℕ) (size : ℕ) (got : Option (List ℕ)) (dev : Device σ) (w : σ)
      → Ends {A = Option (List ℕ) × Device σ} (elim got [
        | none ↦ ok (none, record dev { hidbuf = id_set; world = w })
        | some report ↦
            (write_range id_set 0 report >>= λ filled. read_range filled 1 size >>= λ bytes.
            ok (some bytes, record dev { hidbuf = filled; world = w }))
      ])
  answered id_set size none dev w = tt
  answered id_set size (some report) dev w =
      bind-Ends _ _ (write_range-Ends id_set 0 report)
        λ filled. bind-Ends _ _ (read_range-Ends filled 1 size) λ bytes. tt

  pub spi_read-Ends :
      (size : ℕ) (hold_cs : Bool) (dev : Device σ) → Ends (spi_read hid size hold_cs dev)
  unfolding spi_read
  spi_read-Ends size hold_cs dev = either (ltb spi_read_max size) _ _ tt (
      bind-Ends _ _ (write-Ends dev.hidbuf 0 (if hold_cs then id_spi_read else id_spi_read_stop))
        λ id_set. answered id_set size _ dev _)

  pub sram_write-Ends :
      (buf : List ℕ) (size : ℕ) (init_cs hold_cs : Bool) (dev : Device σ)
      → Ends (sram_write hid buf size init_cs hold_cs dev)
  unfolding sram_write send_report
  sram_write-Ends buf size init_cs hold_cs dev = either (ltb spi_write_max size) _ _ tt (
      bind-Ends _ _ (fill_report-Ends dev.hidbuf id_sram_write buf size init_cs hold_cs)
        λ filled. bind-Ends _ _ (read_range-Ends filled 0 (4 + size)) λ report. tt)

  short_report-Ends : (id : ℕ) (dev : Device σ) → Ends (short_report hid id dev)
  unfolding short_report
  short_report-Ends id dev =
      bind-Ends _ _ (write-Ends dev.hidbuf 0 id)
        λ id_set. bind-Ends _ _ (read_range-Ends id_set 0 2) λ report. tt

  pub read_start-Ends : (dev : Device σ) → Ends (read_start hid dev)
  unfolding read_start
  read_start-Ends dev = short_report-Ends id_disk_read_start (record dev { read_sequence = 1 })

  pub write_start-Ends : (dev : Device σ) → Ends (write_start hid dev)
  unfolding write_start
  write_start-Ends dev = short_report-Ends id_disk_write_start dev

  pub self_test-Ends : (dev : Device σ) → Ends (self_test hid dev)
  unfolding self_test
  self_test-Ends dev = bind-Ends _ _ (short_report-Ends id_self_test dev) λ r. tt

  pub update_firmware-Ends : (dev : Device σ) → Ends (update_firmware hid dev)
  unfolding update_firmware
  update_firmware-Ends dev = bind-Ends _ _ (short_report-Ends id_update_firmware dev) λ r. tt

  pub read_disk-Ends : (dev : Device σ) → Ends (read_disk hid dev)
  unfolding read_disk
  read_disk-Ends dev =
      let got = hid.get_feature_report id_disk_read (disk_read_max + 2) dev.world in
      bind-Ends _ _ (write-Ends dev.hidbuf 0 id_disk_read) λ id_set.
        option-Ensures _ (got.0) _ _ (λ e. tt)
          λ report e. bind-Ends _ _ (write_range-Ends id_set 0 report) λ filled.
            either (ltb (length report) 2) _ _ tt (
              either (length report == 2) _ _ tt (
                bind-Ends _ _ (read_range-Ends filled 2 (length report - 2)) λ bytes.
                  bind-Ends _ _ (read-Ends filled 1)
                    λ sequence. either (sequence == dev.read_sequence) _ _ tt tt))
