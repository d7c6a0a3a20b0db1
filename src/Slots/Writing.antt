-- ===== src/Slots/Writing.antt =====
-- Writing games into the flash chip ends, and what `FDS_writeFlash` returns.
use fdsstick.Base.{
  ℕ, zero, suc, ◌+◌, ◌-◌, ◌<◌, ◌≡◌, refl, arith, Bool, true, false, List, Option, none, some, take,
  drop, length, length-append, length-take, length-drop, ok, ◌>>=◌, ◌==◌, Ensures, >>=-Ensures,
}
use fdsstick.Base.Access.{branch-Ensures, option-Ensures}
use fdsstick.Base.Ends.{Ends, bind-Ends}
use fdsstick.Bin.{fds_to_bin}
use fdsstick.Bin.Safety.{fds_to_bin-Ensures}
use fdsstick.Raw.{fds_size}
use fdsstick.Device.{Hid, Device}
use fdsstick.Spi.Clock.{Clock, Outlasts}
use fdsstick.Spi.Waiting.{write_flash-Ends}
use fdsstick.Open.{slot_size}
use fdsstick.Os.{Os, Allocates}
use fdsstick.Disks.{load_file, first_side, whole_sides, has_side}
use fdsstick.Disks.Each.{is_loaded, has_side-Ensures, first_side-Ends}
use fdsstick.Slots.Header.{slot_image-Ensures}
use fdsstick.Slots.{
  slot_image, slot_address, write_sides, fds_write_flash, write_file, flash_header_size,
}

module _ {σ : Type 0} (os : Os σ) (hid : Hid σ) (rounds : ℕ) (clock : Clock hid os.get_ticks)
    (many : Outlasts clock rounds) where
  write_sides-Ends :
      (fuel : ℕ) (filename inbuf : List ℕ) (filesize slot : ℕ) (outbuf : List ℕ) (pos side : ℕ)
      (dev : Device σ)
      → 0 < fuel
      → length inbuf < pos + fuel
      → length outbuf ≡ slot_size
      → Ends (write_sides os hid rounds fuel filename inbuf filesize slot outbuf pos side dev)
  unfolding write_sides
  write_sides-Ends zero filename inbuf filesize slot outbuf pos side dev h0 hf ho =
      absurd (omega arith)
  write_sides-Ends (suc fuel) filename inbuf filesize slot outbuf pos side dev h0 hf ho =
      >>=-Ensures (λ b. b ≡ true → pos < length inbuf) (λ d. Unit {0}) (has_side inbuf filesize pos)
        _ (has_side-Ensures inbuf filesize pos)
        λ more hm.
          branch-Ensures _ more _ _
            (λ e.
              let inside = hm e in
              >>=-Ensures _ (λ d. Unit {0})
                (fds_to_bin (drop flash_header_size outbuf) (drop pos inbuf)
                  (slot_size - flash_header_size))
                _
                (fds_to_bin-Ensures (drop flash_header_size outbuf) (drop pos inbuf)
                  (slot_size - flash_header_size)
                  (omega (arith, ho, length-drop flash_header_size outbuf)))
                λ converted hc.
                  branch-Ensures _ (converted.0 == 0) _ _
                    (λ f.
                      write_sides-Ends fuel filename inbuf filesize slot _ (pos + fds_size)
                        (side + 1) dev (omega arith) (omega arith)
                        (omega (
                          arith,
                          ho,
                          hc.1,
                          length-append {0} (take flash_header_size outbuf) (converted.1),
                          length-take flash_header_size outbuf,
                        )))
                    (λ f.
                      >>=-Ensures (λ image. length image ≡ slot_size) (λ d. Unit {0})
                        (slot_image filename side (converted.1)) _
                        (slot_image-Ensures filename side (converted.1) (omega (arith, hc.1)))
                        λ image hi.
                          bind-Ends _ _
                            (write_flash-Ends hid os.get_ticks clock rounds many image
                              (slot_address slot side) slot_size dev)
                            λ written.
                              write_sides-Ends fuel filename inbuf filesize slot image
                                (pos + fds_size) (side + 1) (written.1) (omega arith) (omega arith)
                                hi))
            (λ e. tt)

  -- `FDS_writeFlash` ends, for any file and whatever the chip answers. If it makes no access
  -- outside its buffers, it returns whether the file was loaded: a side that cannot be converted
  -- and a chip that cannot be written do not change that. The conditions are that memory is given
  -- as asked for and, for the waits for the flash chip, that: the counter of milliseconds that
  -- `getTicks` reads modulo 2^32 is not set back while the program runs, though readings one
  -- behind the other may be equal; it is never ahead of a time of which each call of `getTicks`
  -- takes one of `grain` parts of a millisecond or more and no read of a report takes any back,
  -- and it stays less than `lag` milliseconds behind that time; no call of `getTicks` and no read
  -- of a report moves it on by more than 2^30; and the rounds of a wait are more than grain *
  -- (2000 + lag).
  pub fds_write_flash-Ensures :
      (filename : List ℕ) (slot : ℕ) (dev : Device σ)
      → Allocates os
      → Ensures
          (λ r. r.0 ≡ is_loaded ((load_file os filename dev).0))
          (fds_write_flash os hid rounds filename slot dev)
  unfolding fds_write_flash
  fds_write_flash-Ensures filename slot dev alloc = split (load_file os filename dev)
    where
      split :
          (loaded : Option (List ℕ) × Device σ)
          → Ensures {A = Bool × Device σ}
              (λ r. r.0 ≡ is_loaded (loaded.0))
              (elim loaded.0 [
                | none ↦ ok (false, loaded.1)
                | some inbuf ↦
                    (first_side inbuf >>= λ pos.
                    write_sides os hid rounds
                      (length inbuf + 1)
                      filename
                      inbuf
                      (whole_sides (length inbuf) pos)
                      slot
                      (os.malloc slot_size loaded.1.world)
                      pos
                      0
                      loaded.1
                    >>= λ written. ok (true, written))
              ])
      split (none, d) = refl
      split (some inbuf, d) =
          >>=-Ensures (λ n. Unit {0}) (λ r. r.0 ≡ true) (first_side inbuf) _ (first_side-Ends inbuf)
            λ pos t.
              >>=-Ensures (λ n. Unit {0}) (λ r. r.0 ≡ true)
                (write_sides os hid rounds (length inbuf + 1) filename inbuf
                  (whole_sides (length inbuf) pos) slot (os.malloc slot_size d.world) pos 0 d)
                _
                (write_sides-Ends (length inbuf + 1) filename inbuf _ slot _ pos 0 d (omega arith)
                  (omega arith) (alloc slot_size d.world))
                λ written u. refl

  pub write_file-Ends :
      (filename : List ℕ) (addr flash_size : ℕ) (dev : Device σ)
      → Ends (write_file os hid rounds filename addr flash_size dev)
  unfolding write_file
  write_file-Ends filename addr flash_size dev =
      option-Ensures _ ((os.load filename dev.world).0) _ _ (λ e. tt)
        λ bytes e. write_flash-Ends hid os.get_ticks clock rounds many _ addr _ _
