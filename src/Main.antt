-- ===== src/Main.antt =====
-- The command line: `main` of main.cpp. Strings are the lists of their characters, without the 0 at
-- the end; `scan_int` is `sscanf` with `%i`, which gives the word of an `int` or leaves the variable.
pub mod Exits
mod Tests
use fdsstick.Base.{ℕ, zero, suc, ◌+◌, ◌*◌, ◌/◌, ◌^◌, Bool, true, false, ◌&&◌, ◌||◌}
use fdsstick.Base.{List, [], ◌∷◌, ◌++◌, Option, none, some, length}
use fdsstick.Base.{Run, ok, fault, stuck, ◌>>=◌, read, ltb, ◌==◌, u32, if◌then◌else◌}
use fdsstick.Device.{Hid, Device, self_test}
use fdsstick.Spi.{Action, erase_page}
use fdsstick.Open.{Bus, Adapter, dev_open, dev_close, slot_size}
use fdsstick.Os.{Os}
use fdsstick.Disks.{
  pointer, fds_bin_to_fds, fds_convert_disk, fds_convert_disk_raw03, fds_write_disk, fds_read_disk,
}
use fdsstick.Slots.{fds_write_flash, fds_list, fds_read_flash_to_fds, dump_flash, write_file}
use fdsstick.Firmware.{write_loader, fw_write_flash}

-- `s[i]` of a string.
abbrev pub char_at : List ℕ → ℕ → Run ℕ
char_at s i = read (s ++ (0 ∷ [])) i

-- `!strcmp(s, t)`
pub same_string : List ℕ → List ℕ → Bool
same_string [] [] = true
same_string (c ∷ s) (d ∷ t) = c == d && same_string s t
same_string s t = false

-- `argv[n]`, a pointer that is NULL behind the last argument.
pub arg : List (List ℕ) → ℕ → Option (List ℕ)
arg [] n = none
arg (a ∷ argv) zero = some a
arg (a ∷ argv) (suc n) = arg argv n

-- The commands of the `switch`.
pub data Command : Type 0 where
  convert_bin convert_fds convert_raw : Command
  put_game put_loader put_firmware get_game put_disk show_slots get_disk get_raw erase_flash
        get_dump put_file check_device :
      Command

-- The cases; `none` is `default`.
pub command_of : ℕ → Option Command
command_of c =
    if c == 0x46
    then some convert_bin
    else if c == 0x63
    then some convert_fds
    else if c == 0x43
    then some convert_raw
    else if c == 0x66
    then some put_game
    else if c == 0x4c
    then some put_loader
    else if c == 0x55
    then some put_firmware
    else if c == 0x73
    then some get_game
    else if c == 0x77
    then some put_disk
    else if c == 0x6c
    then some show_slots
    else if c == 0x72
    then some get_disk
    else if c == 0x52
    then some get_raw
    else if c == 0x65
    then some erase_flash
    else if c == 0x44
    then some get_dump
    else if c == 0x57
    then some put_file
    else if c == 0x54
    then some check_device
    else none

-- The cases with `if (argc<3) help();`.
pub needs_argument : Command → Bool
needs_argument convert_bin = false
needs_argument convert_fds = false
needs_argument convert_raw = false
needs_argument show_slots = false
needs_argument check_device = false
needs_argument c = true

module _ {σ : Type 0} (os : Os σ) (hid : Hid σ) (rounds : ℕ) (bus : Bus σ)
    (scan_int : List ℕ → Option ℕ) where
  -- A number from an argument, if there is one that is read.
  pub number : Option (List ℕ) → ℕ → ℕ
  number none n = n
  number (some a) n = elim (scan_int a) [ none ↦ n | some m ↦ m ]

  -- The loop of `-e all`: every block is erased, whatever the result of the others.
  pub erase_all : ℕ → ℕ → ℕ → Bool → Action σ
  erase_all zero addr flash_size success dev = stuck
  erase_all (suc fuel) addr flash_size success dev = elim (ltb addr flash_size) [
    | false ↦ ok (success, dev)
    | true ↦ do
      r ← erase_page hid os.get_ticks rounds addr dev
      erase_all fuel (addr + slot_size) flash_size (success && r.0) r.1
  ]

  -- Slots 1 and up, as an `int`; 0 is the loader.
  pub erase_slot : ℕ → Action σ
  erase_slot slot dev =
      if ltb 0 slot && ltb slot (2 ^ 31)
      then erase_page hid os.get_ticks rounds (u32 (slot_size * slot)) dev
      else ok (false, dev)

  -- An action on the device of the adapter.
  pub on_device : Action σ → Adapter σ → Run (Bool × Adapter σ)
  on_device action a = do r ← action a.device; ok (r.0, record a { device = r.1 })

  -- What a command does with the arguments, and `success` behind it.
  pub run_command : Command → List (List ℕ) → Adapter σ → Run (Bool × Adapter σ)
  unfolding arg number erase_all erase_slot on_device same_string
  run_command convert_bin argv a =
      pointer (arg argv 2) >>= λ file. on_device (fds_bin_to_fds os file (arg argv 3)) a
  run_command convert_fds argv a =
      pointer (arg argv 2) >>= λ file. on_device (fds_convert_disk os file (arg argv 3)) a
  run_command convert_raw argv a =
      pointer (arg argv 2) >>= λ file. on_device (fds_convert_disk_raw03 os file (arg argv 3)) a
  run_command put_game argv a = pointer (arg argv 2) >>= λ file.
      on_device (fds_write_flash os hid rounds file (number (arg argv 3) 1)) a
  run_command put_loader argv a =
      pointer (arg argv 2) >>= λ file. on_device (write_loader os hid rounds file) a
  run_command put_firmware argv a =
      pointer (arg argv 2) >>= λ file. fw_write_flash os hid rounds bus file a
  run_command get_game argv a = pointer (arg argv 2) >>= λ file.
      on_device (fds_read_flash_to_fds os hid rounds file (number (arg argv 3) 1) a.slots) a
  run_command put_disk argv a =
      pointer (arg argv 2) >>= λ file. on_device (fds_write_disk os hid file) a
  run_command show_slots argv a = do
    r ← fds_list os hid rounds a.slots a.device
    ok (r.0, record a { device = r.2 })
  run_command get_disk argv a = on_device (fds_read_disk os hid none none (arg argv 2)) a
  run_command get_raw argv a = on_device (fds_read_disk os hid (arg argv 2) (arg argv 3) none) a
  run_command erase_flash argv a = pointer (arg argv 2) >>= λ which.
      on_device
        (if same_string which (0x61 ∷ 0x6c ∷ 0x6c ∷ [])
          then erase_all (a.flash_size + 1) 0 a.flash_size true
          else erase_slot (number (some which) 1))
        a
  run_command get_dump argv a = pointer (arg argv 2) >>= λ file.
      on_device
        (dump_flash os hid rounds file (number (arg argv 3) 0) (number (arg argv 4) a.flash_size)) a
  run_command put_file argv a = pointer (arg argv 2) >>= λ file.
      on_device (write_file os hid rounds file (number (arg argv 3) 0) a.flash_size) a
  run_command check_device argv a = do
    device ← self_test hid a.device
    ok (true, record a { device = device })

  -- `app_exit`: the code and what is left of the adapter.
  pub app_exit : ℕ → Adapter σ → ℕ × Adapter σ
  app_exit exitcode a = (exitcode, dev_close bus hid os.get_ticks a)

  pub help : Adapter σ → ℕ × Adapter σ
  unfolding app_exit
  help a = app_exit 1 a

  -- The `switch` and what follows it.
  pub dispatch : ℕ → List (List ℕ) → Adapter σ → Run (ℕ × Adapter σ)
  unfolding command_of needs_argument run_command help app_exit
  dispatch c argv a = elim (command_of c) [
    | none ↦ ok (help a)
    | some command ↦ elim (needs_argument command && ltb (length argv) 3) [
      | true ↦ ok (help a)
      | false ↦ do r ← run_command command argv a; ok (app_exit (if r.0 then 0 else 1) r.1)
    ]
  ]

  -- `argv` with the name of the program first.
  pub main : List (List ℕ) → Adapter σ → Run (ℕ × Adapter σ)
  unfolding dispatch
  main argv a = do
    opened ← dev_open bus hid os.get_ticks a
    elim (opened.0 && ltb 1 (length argv)) [
      | false ↦ ok (help opened.1)
      | true ↦ do
        option ← pointer (arg argv 1)
        dash ← char_at option 0
        elim (dash == 0x2d) [
          | false ↦ ok (help opened.1)
          | true ↦ char_at option 1 >>= λ c. dispatch c argv opened.1
        ]
    ]
