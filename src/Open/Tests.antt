-- ===== src/Open/Tests.antt =====
-- Opening with a bus that has one adapter, and with an empty one.
use fdsstick.Base.{ℕ, ◌≡◌, refl, true, false, List, [], ◌∷◌, Ensures, Returns, some, replicate}
use fdsstick.Device.{Hid, spi_write, spi_read, send_report, fill_report}
use fdsstick.Spi.{read_flash_size, read_id}
use fdsstick.Open.{
  DeviceInfo, Bus, Adapter, find_adapter, dev_close, measure, dev_open, Opens, dev_open-Opens,
}

abbrev chip : Hid ℕ
chip = record {
  send_feature_report = λ r w. (true, w);
  get_feature_report = λ id n w. (some (id ∷ 0x20 ∷ 0x80 ∷ 0x13 ∷ []), w);
  hid_write = λ r w. (true, w);
}

abbrev clock : ℕ → ℕ × ℕ
clock w = (0, w)

abbrev stick : DeviceInfo
stick = record { path = 1 ∷ []; vendor_id = 0x0416; product_id = 0xbeef; release_number = 7 }

abbrev bus_of : List DeviceInfo → Bus ℕ
bus_of ds = record { enumerate = λ v p w. (ds, w); open_path = λ p w. (true, w); close = λ w. w }

abbrev start : Adapter ℕ
start = record {
  handle = false;
  flash_size = 0;
  slots = 0;
  fw_version = 0;
  device = record { hidbuf = replicate 256 0; read_sequence = 0; world = 0 };
}

open_run :
    Returns
      (dev_open (bus_of (stick ∷ [])) chip clock start)
      (λ r. (r.0 ≡ true) × (r.1.slots ≡ 8) × (r.1.fw_version ≡ 7))
unfolding dev_open dev_close find_adapter measure read_flash_size read_id spi_write spi_read
    send_report fill_report
open_run = (refl, refl, refl)

open_empty : Returns (dev_open (bus_of []) chip clock start) (λ r. r.0 ≡ false)
unfolding dev_open dev_close find_adapter
open_empty = refl

dev_open-Opens_example :
    Ensures
      (Opens (bus_of (stick ∷ [])) chip clock)
      (dev_open (bus_of (stick ∷ [])) chip clock start)
dev_open-Opens_example = dev_open-Opens (bus_of (stick ∷ [])) chip clock start
