-- ===== src/Firmware/Ends.antt =====
-- The commands for firmware and loader end, under the conditions on the clock.
use fdsstick.Base.{ℕ, zero, suc, ◌+◌, ◌-◌, List, [], ◌∷◌, length, ltb, ◌==◌}
use fdsstick.Base.Access.{branch-Ensures, option-Ensures}
use fdsstick.Base.Ends.{Ends, bind-Ends, read-Ends, ensured}
use fdsstick.Device.{Hid, Device}
use fdsstick.Device.Ends.{update_firmware-Ends}
use fdsstick.Spi.Clock.{Clock, Outlasts}
use fdsstick.Spi.Waiting.{write_flash-Ends, write_flash2-Ends}
use fdsstick.Open.{Bus, Adapter}
use fdsstick.Open.Size.{dev_open-Ensures}
use fdsstick.Os.{Os, Allocates}
use fdsstick.Disks.{load_file}
use fdsstick.Slots.Writing.{fds_write_flash-Ensures}
use fdsstick.Firmware.{
  match_loader, detect_from, detect_loader, loader_id, write_loader, restart, fw_write_flash,
  firmware_update, firmware_image,
}

match_loader-Ends : (id buf : List ℕ) (byte at : ℕ) → Ends (match_loader id buf byte at)
unfolding match_loader
match_loader-Ends [] buf byte at = tt
match_loader-Ends (c ∷ id) buf byte at =
    branch-Ensures _ (byte == c) _ _
      (λ e. bind-Ends _ _ (read-Ends buf at) λ next. match_loader-Ends id buf next (at + 1))
      (λ e. tt)

detect_from-Ends : (left : ℕ) (buf : List ℕ) (pos : ℕ) → Ends (detect_from left buf pos)
unfolding detect_from
detect_from-Ends zero buf pos = tt
detect_from-Ends (suc left) buf pos = bind-Ends _ _ (read-Ends buf pos) λ byte.
    branch-Ensures _ (byte == 0x5d) _ _
      (λ e. bind-Ends _ _ (match_loader-Ends loader_id buf byte (pos + 1)) λ matched.
        branch-Ensures _ matched _ _
          (λ f. bind-Ends _ _ (read-Ends buf (pos + 1 + length loader_id)) λ version. tt)
          (λ f. detect_from-Ends left buf (pos + 1)))
      (λ e. detect_from-Ends left buf (pos + 1))

detect_loader-Ends : (buf : List ℕ) → Ends (detect_loader buf)
unfolding detect_loader
detect_loader-Ends buf = detect_from-Ends 65500 buf 0

module _ {σ : Type 0} (os : Os σ) (hid : Hid σ) (rounds : ℕ) (clock : Clock hid os.get_ticks)
    (many : Outlasts clock rounds) where
  pub write_loader-Ends :
      (fn : List ℕ) (dev : Device σ) → Allocates os → Ends (write_loader os hid rounds fn dev)
  unfolding write_loader
  write_loader-Ends fn dev alloc =
      option-Ensures _ ((load_file os fn dev).0) _ _ (λ e. tt)
        λ buf e. bind-Ends _ _ (detect_loader-Ends buf) λ found.
          option-Ensures _ found _ _ (λ f. tt)
            λ version f. ensured _ _ (
              fds_write_flash-Ensures os hid rounds clock many fn 0 ((load_file os fn dev).1) alloc)

  module _ (bus : Bus σ) where
    restart-Ends : (wait : ℕ) (a : Adapter σ) → Ends (restart os hid rounds bus wait a)
    unfolding restart
    restart-Ends wait a =
        bind-Ends _ _ (update_firmware-Ends hid a.device)
          λ started. ensured _ _ (dev_open-Ensures bus hid os.get_ticks _)

    pub fw_write_flash-Ends :
        (filename : List ℕ) (a : Adapter σ) → Ends (fw_write_flash os hid rounds bus filename a)
    unfolding fw_write_flash
    fw_write_flash-Ends filename a =
        option-Ensures _ ((os.load filename a.device.world).0) _ _ (λ e. tt)
          λ file e.
            branch-Ensures _ (ltb (0x8000 - 8) (length file)) _ _ (λ f. tt)
              λ f.
                bind-Ends _ _
                  (write_flash2-Ends hid os.get_ticks clock rounds many (firmware_image file) 0x8000
                    0x8000 _)
                  λ written.
                    branch-Ensures _ (written.0) _ _
                      (λ g. restart-Ends 5000 (record a { device = written.1 })) (λ g. tt)

    -- `firmware_update` ends, for any table and any version in the adapter.
    pub firmware_update-Ends :
        (firmware : List ℕ) (a : Adapter σ) → Ends (firmware_update os hid rounds bus firmware a)
    unfolding firmware_update
    firmware_update-Ends firmware a = bind-Ends _ _ (read-Ends firmware 5) λ version.
        branch-Ensures _ (ltb a.fw_version version) _ _
          (λ e.
            bind-Ends _ _
              (write_flash-Ends hid os.get_ticks clock rounds many firmware 0xff_0000
                (length firmware) a.device)
              λ written.
                branch-Ensures _ (written.0) _ _
                  (λ f.
                    bind-Ends _ _ (restart-Ends 2000 (record a { device = written.1 }))
                      λ opened. branch-Ensures _ (opened.0) _ _ (λ g. tt) (λ g. tt))
                  (λ f. tt))
          (λ e. tt)
