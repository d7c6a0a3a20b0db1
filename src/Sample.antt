-- ===== src/Sample.antt =====
-- A machine for the examples: a clock whose readings take a quarter of a millisecond each, so that
-- most are equal to the one before, what is saved, one file, and an adapter whose chip is never busy.
use fdsstick.Base.{
  ℕ, ◌+◌, ◌*◌, ◌/◌, ◌%◌, ◌^◌, refl, arith, true, false, List, [], ◌∷◌, Option, some,
}
use fdsstick.Base.{replicate, length-replicate}
use fdsstick.Device.{Hid, Device}
use fdsstick.Spi.Clock.{Clock, Outlasts}
use fdsstick.Open.{Bus, Adapter, DeviceInfo}
use fdsstick.Os.{Os, Allocates}

pub record Machine : Type 0 where
  pub time : ℕ
  pub saved : List (List ℕ)

abbrev pub machine : Machine
machine = record { time = 0; saved = [] }

-- Every name is the one of this file, if there is one.
abbrev pub os_with : Option (List ℕ) → Os Machine
os_with file = record {
  load = λ name m. (file, m);
  create = λ name m. (true, m);
  save = λ name bytes m. record m { saved = bytes ∷ m.saved };
  get_ticks = λ m. (m.time / 4 % 2 ^ 32, record m { time = m.time + 1 });
  read_kb = λ m. (0x0d, m);
  sleep_ms = λ n m. record m { time = m.time + 4 * n };
  malloc = λ n m. replicate n 0;
}

pub os_with-Allocates : (file : Option (List ℕ)) → Allocates (os_with file)
os_with-Allocates file n m = length-replicate {0} {A = ℕ} n 0

-- The answer to every request; its first byte behind the number is even, and the three of them are
-- the id of a chip of eight slots.
abbrev pub chip : Hid Machine
chip = record {
  send_feature_report = λ r m. (true, m);
  get_feature_report = λ id n m. (some (id ∷ 0x20 ∷ 0x80 ∷ 0x13 ∷ []), m);
  hid_write = λ r m. (true, m);
}

pub chip-Clock : (file : Option (List ℕ)) → Clock chip (os_with file).get_ticks
chip-Clock file = record {
  count = λ m. m.time / 4;
  time = λ m. m.time;
  grain = 4;
  lag = 1;
  reading = λ m. refl;
  steady = λ m. omega arith;
  slow = λ m. omega arith;
  takes_time = λ m. omega arith;
  report_steady = λ id n m. omega arith;
  report_slow = λ id n m. omega arith;
  report_on = λ id n m. omega arith;
  follows = λ m. omega arith;
  keeps_up = λ m. omega arith;
}

abbrev pub opened : Device Machine
opened = record { hidbuf = replicate 256 0; read_sequence = 1; world = machine }

abbrev pub stick : DeviceInfo
stick = record { path = 1 ∷ []; vendor_id = 0x0416; product_id = 0xbeef; release_number = 7 }

abbrev pub bus : Bus Machine
bus = record { enumerate = λ v p m. (stick ∷ [], m); open_path = λ p m. (true, m); close = λ m. m }

abbrev pub unopened : Adapter Machine
unopened = record { handle = false; flash_size = 0; slots = 0; fw_version = 0; device = opened }

pub chip-Outlasts : (file : Option (List ℕ)) → Outlasts (chip-Clock file) 8005
unfolding chip-Clock
chip-Outlasts file = omega arith
