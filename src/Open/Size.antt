-- ===== src/Open/Size.antt =====
-- The size of the flash that `dev_open` finds is bounded.
use fdsstick.Base.{ℕ, ◌≤◌, arith, Bool, Ensures, >>=-Ensures, ◌==◌}
use fdsstick.Base.Access.{branch-Ensures, option-Ensures}
use fdsstick.Device.{Hid}
use fdsstick.Spi.Ends.{read_flash_size-Ensures}
use fdsstick.Open.{Bus, Adapter, dev_open, dev_close, measure, find_adapter, vid, pid}

module _ {σ : Type 0} (bus : Bus σ) (hid : Hid σ) (get_ticks : σ → ℕ × σ) where
  abbrev pub IsSmall : Bool × Adapter σ → Type 0
  IsSmall r = r.1.flash_size ≤ 0x80_0000

  measure-Ensures :
      (release : ℕ) (a : Adapter σ) → Ensures IsSmall (measure bus hid get_ticks release a)
  unfolding measure dev_close
  measure-Ensures release a =
      >>=-Ensures (λ r. r.0 ≤ 0x80_0000) IsSmall _ _
        (read_flash_size-Ensures hid get_ticks a.device)
        λ size h. branch-Ensures IsSmall (size.0 == 0) _ _ (λ e. omega arith) (λ e. h)

  pub dev_open-Ensures : (a : Adapter σ) → Ensures IsSmall (dev_open bus hid get_ticks a)
  unfolding dev_open dev_close
  dev_open-Ensures a =
      let closed = dev_close bus hid get_ticks a in
      let listed = bus.enumerate vid pid closed.device.world in
      let seen = record closed { device = record closed.device { world = listed.1 } } in
      option-Ensures IsSmall (find_adapter (listed.0)) _ _ (λ e. omega arith)
        λ info e.
          let tried = bus.open_path info.path (listed.1) in
          branch-Ensures IsSmall (tried.0) _ _
            (λ f.
              measure-Ensures info.release_number
                (record seen { handle = tried.0; device = record seen.device { world = tried.1 } }))
            (λ f. omega arith)
