-- ===== src/Main/Exits.antt =====
-- How the program ends.
use fdsstick.Base.{ltb→lt}
use fdsstick.Base.{
  ℕ, zero, suc, ◌+◌, ◌-◌, ◌/◌, ◌^◌, ◌≤◌, ◌<◌, ◌≡◌, arith, Bool, true, false, ◌&&◌, List, [], ◌∷◌,
  Option, none, some, length, ltb, ◌==◌, if◌then◌else◌, Ensures, >>=-Ensures, Ensures-both,
}
use fdsstick.Base.Access.{branch-Ensures, if-Ensures, option-Ensures}
use fdsstick.Base.Ends.{Ends, bind-Ends, read-Ends, ensured}
use fdsstick.Device.{Hid, Device}
use fdsstick.Device.Ends.{self_test-Ends}
use fdsstick.Spi.{Action}
use fdsstick.Spi.Clock.{Clock, Outlasts}
use fdsstick.Spi.Waiting.{erase_page-Ends}
use fdsstick.Open.{
  Bus, Adapter, dev_open, dev_close, slot_size, Opens, Opens-slots, dev_open-Opens, dev_close_lem,
}
use fdsstick.Open.Size.{dev_open-Ensures}
use fdsstick.Os.{Os, Allocates}
use fdsstick.Disks.{
  pointer, fds_bin_to_fds, fds_convert_disk, fds_convert_disk_raw03, fds_write_disk, fds_read_disk,
}
use fdsstick.Slots.Writing.{fds_write_flash-Ensures, write_file-Ends}
use fdsstick.Firmware.{write_loader}
use fdsstick.Firmware.Ends.{write_loader-Ends, fw_write_flash-Ends}
use fdsstick.Slots.{fds_write_flash, write_file, fds_read_flash_to_fds, dump_flash}
use fdsstick.Disks.Each.{pointer-Ends}
use fdsstick.Disks.Ends.{
  fds_bin_to_fds-Ends, fds_convert_disk-Ensures, fds_convert_disk_raw03-Ensures,
  fds_write_disk-Ensures, fds_read_disk-Ends,
}
use fdsstick.Slots.Ends.{fds_list-Ends, fds_read_flash_to_fds-Ends, dump_flash-Ends}
use fdsstick.Main.{
  char_at, arg, Command, command_of, needs_argument, number, same_string, erase_all, erase_slot,
  on_device, run_command, app_exit, help, dispatch, main,
}
use fdsstick.Main.{
  convert_bin, convert_fds, convert_raw, put_game, put_loader, put_firmware, get_game, put_disk,
  show_slots, get_disk, get_raw, erase_flash, get_dump, put_file, check_device,
}

-- The program is over: its code is 0 or 1, and no adapter is held.
pub Exited : {σ : Type 0} → ℕ × Adapter σ → Type 0
Exited r = (r.0 ≤ 1) × (r.1.handle ≡ false) × (r.1.flash_size ≡ 0)

module _ {σ : Type 0} (os : Os σ) (hid : Hid σ) (rounds : ℕ) (bus : Bus σ)
    (scan_int : List ℕ → Option ℕ) (clock : Clock hid os.get_ticks)
    (many : Outlasts clock rounds) where
  on_device-Ends :
      (action : Action σ) (a : Adapter σ)
      → Ends (action a.device)
      → Ends (on_device os hid rounds bus scan_int action a)
  unfolding on_device
  on_device-Ends action a h = bind-Ends _ _ h λ r. tt

  erase_all-Ends :
      (fuel addr flash_size : ℕ) (success : Bool) (dev : Device σ)
      → 0 < fuel
      → flash_size < addr + fuel
      → Ends (erase_all os hid rounds bus scan_int fuel addr flash_size success dev)
  unfolding erase_all
  erase_all-Ends zero addr flash_size success dev h0 hf = absurd (omega arith)
  erase_all-Ends (suc fuel) addr flash_size success dev h0 hf =
      branch-Ensures _ (ltb addr flash_size) _ _
        (λ e.
          let low = ltb→lt addr flash_size e in
          bind-Ends _ _ (erase_page-Ends hid os.get_ticks clock rounds many addr dev) λ r.
            erase_all-Ends fuel (addr + slot_size) flash_size _ (r.1) (omega arith) (omega arith))
        (λ e. tt)

  erase-Ends :
      (all : Bool) (slot flash_size : ℕ) (dev : Device σ)
      → Ends (
          (if all
              then erase_all os hid rounds bus scan_int (flash_size + 1) 0 flash_size true
              else erase_slot os hid rounds bus scan_int slot)
            dev)
  unfolding erase_slot
  erase-Ends true slot flash_size dev =
      erase_all-Ends (flash_size + 1) 0 flash_size true dev (omega arith) (omega arith)
  erase-Ends false slot flash_size dev =
      if-Ensures _ (ltb 0 slot && ltb slot (2 ^ 31)) _ _
        (λ e. erase_page-Ends hid os.get_ticks clock rounds many _ dev) (λ e. tt)

  run_command-Ends :
      (k : Command) (argv : List (List ℕ)) (a : Adapter σ)
      → Allocates os
      → a.slots < 2 ^ 31 - 1
      → Ends (run_command os hid rounds bus scan_int k argv a)
  unfolding run_command
  run_command-Ends convert_bin argv a alloc hs = bind-Ends _ _ (pointer-Ends (arg argv 2)) λ file.
      on_device-Ends (fds_bin_to_fds os file (arg argv 3)) a
        (fds_bin_to_fds-Ends os file (arg argv 3) a.device)
  run_command-Ends convert_fds argv a alloc hs = bind-Ends _ _ (pointer-Ends (arg argv 2)) λ file.
      on_device-Ends (fds_convert_disk os file (arg argv 3)) a
        (ensured _ _ (fds_convert_disk-Ensures os file (arg argv 3) a.device alloc))
  run_command-Ends convert_raw argv a alloc hs = bind-Ends _ _ (pointer-Ends (arg argv 2)) λ file.
      on_device-Ends (fds_convert_disk_raw03 os file (arg argv 3)) a
        (ensured _ _ (fds_convert_disk_raw03-Ensures os file (arg argv 3) a.device alloc))
  run_command-Ends put_game argv a alloc hs = bind-Ends _ _ (pointer-Ends (arg argv 2)) λ file.
      on_device-Ends
        (fds_write_flash os hid rounds file (number os hid rounds bus scan_int (arg argv 3) 1)) a
        (ensured _ _ (fds_write_flash-Ensures os hid rounds clock many file _ a.device alloc))
  run_command-Ends put_loader argv a alloc hs = bind-Ends _ _ (pointer-Ends (arg argv 2)) λ file.
      on_device-Ends (write_loader os hid rounds file) a
        (write_loader-Ends os hid rounds clock many file a.device alloc)
  run_command-Ends put_firmware argv a alloc hs =
      bind-Ends _ _ (pointer-Ends (arg argv 2))
        λ file. fw_write_flash-Ends os hid rounds clock many bus file a
  run_command-Ends get_game argv a alloc hs = bind-Ends _ _ (pointer-Ends (arg argv 2)) λ file.
      on_device-Ends
        (fds_read_flash_to_fds os hid rounds file (number os hid rounds bus scan_int (arg argv 3) 1)
          a.slots)
        a (fds_read_flash_to_fds-Ends os hid rounds file _ a.slots a.device hs)
  run_command-Ends put_disk argv a alloc hs = bind-Ends _ _ (pointer-Ends (arg argv 2)) λ file.
      on_device-Ends (fds_write_disk os hid file) a
        (ensured _ _ (fds_write_disk-Ensures os hid file a.device alloc))
  run_command-Ends show_slots argv a alloc hs =
      bind-Ends _ _ (fds_list-Ends os hid rounds a.slots a.device) λ r. tt
  run_command-Ends get_disk argv a alloc hs =
      on_device-Ends (fds_read_disk os hid none none (arg argv 2)) a
        (fds_read_disk-Ends os hid none none (arg argv 2) a.device alloc)
  run_command-Ends get_raw argv a alloc hs =
      on_device-Ends (fds_read_disk os hid (arg argv 2) (arg argv 3) none) a
        (fds_read_disk-Ends os hid (arg argv 2) (arg argv 3) none a.device alloc)
  run_command-Ends erase_flash argv a alloc hs = bind-Ends _ _ (pointer-Ends (arg argv 2)) λ which.
      on_device-Ends
        (if same_string which (0x61 ∷ 0x6c ∷ 0x6c ∷ [])
          then erase_all os hid rounds bus scan_int (a.flash_size + 1) 0 a.flash_size true
          else erase_slot os hid rounds bus scan_int
              (number os hid rounds bus scan_int (some which) 1))
        a
        (erase-Ends (same_string which (0x61 ∷ 0x6c ∷ 0x6c ∷ []))
          (number os hid rounds bus scan_int (some which) 1) a.flash_size a.device)
  run_command-Ends get_dump argv a alloc hs = bind-Ends _ _ (pointer-Ends (arg argv 2)) λ file.
      on_device-Ends
        (dump_flash os hid rounds file (number os hid rounds bus scan_int (arg argv 3) 0)
          (number os hid rounds bus scan_int (arg argv 4) a.flash_size))
        a (dump_flash-Ends os hid rounds file _ _ a.device)
  run_command-Ends put_file argv a alloc hs = bind-Ends _ _ (pointer-Ends (arg argv 2)) λ file.
      on_device-Ends
        (write_file os hid rounds file (number os hid rounds bus scan_int (arg argv 3) 0)
          a.flash_size)
        a (write_file-Ends os hid rounds clock many file _ a.flash_size a.device)
  run_command-Ends check_device argv a alloc hs =
      bind-Ends _ _ (self_test-Ends hid a.device) λ device. tt

  app_exit-Exited :
      (code : ℕ) (a : Adapter σ) → code ≤ 1 → Exited (app_exit os hid rounds bus scan_int code a)
  unfolding Exited app_exit
  app_exit-Exited code a h = (h, closed.0, closed.1)
    where
      closed :
          ((dev_close bus hid os.get_ticks a).handle ≡ false)
          × ((dev_close bus hid os.get_ticks a).flash_size ≡ 0)
      closed = dev_close_lem bus hid os.get_ticks a

  help-Exited : (a : Adapter σ) → Exited (help os hid rounds bus scan_int a)
  unfolding help
  help-Exited a = app_exit-Exited 1 a (omega arith)

  exit_code : (b : Bool) → (if b then 0 else 1) ≤ 1
  exit_code true = omega arith
  exit_code false = omega arith

  dispatch-Exited :
      (c : ℕ) (argv : List (List ℕ)) (a : Adapter σ)
      → Allocates os
      → a.slots < 2 ^ 31 - 1
      → Ensures Exited (dispatch os hid rounds bus scan_int c argv a)
  unfolding dispatch
  dispatch-Exited c argv a alloc hs =
      option-Ensures Exited (command_of c) _ _ (λ e. help-Exited a)
        λ k e.
          branch-Ensures Exited (needs_argument k && ltb (length argv) 3) _ _ (λ f. help-Exited a)
            λ f.
              >>=-Ensures (λ r. Unit {0}) Exited (run_command os hid rounds bus scan_int k argv a) _
                (run_command-Ends k argv a alloc hs)
                λ r t. app_exit-Exited _ (r.1) (exit_code (r.0))

  few_slots :
      (flash_size slots : ℕ)
      → flash_size ≤ 0x80_0000
      → slots ≡ flash_size / slot_size
      → slots < 2 ^ 31 - 1
  few_slots flash_size slots h e = omega arith

  -- The program ends, for any arguments, files, keys, contents of fresh memory and answers of
  -- hidapi: if it makes no access outside its buffers, it exits with the code 0 or 1, and has
  -- closed the adapter. The conditions are that memory is given as asked for and, for the waits
  -- for the flash chip, that: the counter of milliseconds that `getTicks` reads modulo 2^32 is
  -- not set back while the program runs, though readings one behind the other may be equal; it is
  -- never ahead of a time of which each call of `getTicks` takes one of `grain` parts of a
  -- millisecond or more and no read of a report takes any back, and it stays less than `lag`
  -- milliseconds behind that time; no call of `getTicks` and no read of a report moves it on by
  -- more than 2^30; and the rounds of a wait are more than grain * (2000 + lag).
  pub main-Exited :
      (argv : List (List ℕ)) (a : Adapter σ)
      → Allocates os
      → Ensures Exited (main os hid rounds bus scan_int argv a)
  unfolding main
  main-Exited argv a alloc =
      >>=-Ensures _ Exited (dev_open bus hid os.get_ticks a) _
        (Ensures-both _ _ _ (dev_open-Opens bus hid os.get_ticks a)
          (dev_open-Ensures bus hid os.get_ticks a))
        λ opened ho.
          branch-Ensures Exited (opened.0 && ltb 1 (length argv)) _ _
            (λ e.
              >>=-Ensures (λ o. Unit {0}) Exited (pointer (arg argv 1)) _
                (pointer-Ends (arg argv 1))
                λ option eo.
                  >>=-Ensures (λ d. Unit {0}) Exited (char_at option 0) _ (read-Ends _ 0)
                    λ dash t.
                      branch-Ensures Exited (dash == 0x2d) _ _
                        (λ f.
                          >>=-Ensures (λ d. Unit {0}) Exited (char_at option 1) _ (read-Ends _ 1)
                            λ c u. dispatch-Exited c argv (opened.1) alloc (slots opened ho))
                        (λ f. help-Exited (opened.1)))
            (λ e. help-Exited (opened.1))
    where
      slots :
          (opened : Bool × Adapter σ)
          → Opens bus hid os.get_ticks opened × (opened.1.flash_size ≤ 0x80_0000)
          → opened.1.slots < 2 ^ 31 - 1
      slots opened h =
          few_slots opened.1.flash_size opened.1.slots (h.1)
            (Opens-slots bus hid os.get_ticks opened (h.0))
