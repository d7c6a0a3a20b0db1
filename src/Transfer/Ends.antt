-- ===== src/Transfer/Ends.antt =====
-- Whole disks to and from the drive end, whatever hidapi answers.
use fdsstick.Base.{ℕ, zero, suc, ◌+◌, ◌-◌, ◌<◌, ◌≡◌, arith, Bool, true, false, ◌&&◌, List}
use fdsstick.Base.{length, ltb, ◌==◌}
use fdsstick.Base.Access.{branch-Ensures, option-Ensures}
use fdsstick.Base.Ends.{Ends, bind-Ends, write_range-Ends}
use fdsstick.Device.{Hid, Device, disk_read_max}
use fdsstick.Device.Ends.{read_start-Ends, write_start-Ends, read_disk-Ends}
use fdsstick.Spi.Ends.{write_sram-Ends}
use fdsstick.Transfer.{write_image2, read_packets, read_disk_image}

full_packet : (m n : ℕ) (b : Bool) → (m == n && b) ≡ true → m ≡ n
full_packet m n b h = ground arith

below_limit : (a : Bool) (m n : ℕ) → (a && ltb m n) ≡ true → m < n
below_limit true m n h = ground arith
below_limit false m n h = absurd (ground arith)

module _ {σ : Type 0} (hid : Hid σ) (get_ticks : σ → ℕ × σ) where
  read_packets-Ends :
      (fuel : ℕ) (buf : List ℕ) (bytes_in : ℕ) (dev : Device σ)
      → 0 < fuel
      → 0x9_0000 < bytes_in + fuel
      → Ends (read_packets hid get_ticks fuel buf bytes_in dev)
  unfolding read_packets
  read_packets-Ends zero buf bytes_in dev h0 hf = absurd (omega arith)
  read_packets-Ends (suc fuel) buf bytes_in dev h0 hf = bind-Ends _ _ (read_disk-Ends hid dev) λ r.
      option-Ensures _ (r.0) _ _ (λ e. tt)
        λ bytes e. bind-Ends _ _ (write_range-Ends buf bytes_in bytes) λ filled.
          let next = bytes_in + length bytes in
          branch-Ensures _ (length bytes == disk_read_max && ltb next (0x9_0000 - disk_read_max)) _
            _
            (λ f.
              let whole = full_packet (length bytes) disk_read_max _ f in
              let low = below_limit (length bytes == disk_read_max) next _ f in
              read_packets-Ends fuel filled next (r.1) (omega arith) (omega arith))
            (λ f. tt)

  pub read_disk_image-Ends :
      (buf : List ℕ) (dev : Device σ) → Ends (read_disk_image hid get_ticks buf dev)
  unfolding read_disk_image
  read_disk_image-Ends buf dev = bind-Ends _ _ (read_start-Ends hid dev) λ started.
      branch-Ensures _ (started.0) _ _
        (λ e. read_packets-Ends 0x9_0001 buf 0 (started.1) (omega arith) (omega arith)) (λ e. tt)

  pub write_image2-Ends :
      (bin : List ℕ) (size : ℕ) (dev : Device σ) → Ends (write_image2 hid get_ticks bin size dev)
  unfolding write_image2
  write_image2-Ends bin size dev =
      bind-Ends _ _ (write_sram-Ends hid get_ticks bin 0 size dev)
        λ sent. write_start-Ends hid (sent.1)
