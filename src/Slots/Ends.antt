-- ===== src/Slots/Ends.antt =====
-- Reading games from the flash chip ends, whatever it holds.
use fdsstick.Base.{
  ℕ, zero, suc, ◌+◌, ◌-◌, ◌*◌, ◌%◌, ◌^◌, ◌≤◌, ◌<◌, ◌≡◌, arith, true, ◌&&◌, ◌||◌, not, List, [], ◌∷◌,
  ltb, leb, ◌==◌, replicate, if◌then◌else◌,
}
use fdsstick.Base.Access.{branch-Ensures}
use fdsstick.Base.Ends.{
  Ends, bind-Ends, push-Ends, read-Ends, read_range-Ends, write_range-Ends, ensured,
}
use fdsstick.Raw.{fds_size}
use fdsstick.Raw.Ends.{raw03_to_fds-Ends}
use fdsstick.Raw.Encode.Ends.{bin_to_raw03-Ensures}
use fdsstick.Device.{Hid, Device}
use fdsstick.Spi.Ends.{read_flash-Ends}
use fdsstick.Open.{slot_size}
use fdsstick.Os.{Os, moved}
use fdsstick.Disks.{raw_size}
use fdsstick.Slots.{
  string_at, list_slot, list_slots, fds_list, signed_leb, slot_address, read_sides,
  fds_read_flash_to_fds, dump_flash, flash_header_size,
}

string_at-Ends : (buf : List ℕ) → Ends (string_at buf)
unfolding string_at
string_at-Ends [] = tt
string_at-Ends (c ∷ buf) =
    branch-Ensures _ (c == 0) _ _ (λ e. tt) λ e. push-Ends c (string_at buf) (string_at-Ends buf)

list_slot-Ends : (slot : ℕ) (buf : List ℕ) (side : ℕ) → Ends (list_slot slot buf side)
unfolding list_slot
list_slot-Ends slot buf side = bind-Ends _ _ (read-Ends buf 0) λ c.
    branch-Ensures _ (c == 0xff) _ _ (λ e. tt)
      λ e.
        branch-Ensures _ (c == 0) _ _ (λ f. tt) λ f. bind-Ends _ _ (string_at-Ends buf) λ name. tt

-- The word of a side that is in range, shifted to make the order unsigned, is below its bound.
in_range :
    (side slot n : ℕ)
    → n < 2 ^ 31 - 1
    → signed_leb (side + slot) n ≡ true
    → (side + slot + 2 ^ 31) % 2 ^ 32 ≤ n + 2 ^ 31
in_range side slot n h e = omega (arith, at_most _ _ e)
  where
    at_most : (a b : ℕ) → leb a b ≡ true → a ≤ b
    at_most a b k = ground arith

module _ {σ : Type 0} (os : Os σ) (hid : Hid σ) (rounds : ℕ) where
  list_slots-Ends :
      (left slot side : ℕ) (buf : List ℕ) (dev : Device σ)
      → Ends (list_slots os hid rounds left slot side buf dev)
  unfolding list_slots
  list_slots-Ends zero slot side buf dev = tt
  list_slots-Ends (suc left) slot side buf dev =
      bind-Ends _ _ (read_flash-Ends hid os.get_ticks (slot * slot_size) buf 256 dev) λ r.
        branch-Ensures _ (r.0) _ _
          (λ e. bind-Ends _ _ (list_slot-Ends slot (r.1) side) λ listed.
            bind-Ends _ _ (list_slots-Ends left (slot + 1) (listed.1) (r.1) (r.2)) λ more. tt)
          (λ e. tt)

  pub fds_list-Ends : (dev_slots : ℕ) (dev : Device σ) → Ends (fds_list os hid rounds dev_slots dev)
  unfolding fds_list
  fds_list-Ends dev_slots dev = list_slots-Ends (dev_slots - 1) 1 0 (os.malloc 256 dev.world) dev

  -- Each round takes the next slot, and the signed test holds for finitely many.
  read_sides-Ends :
      (fuel slot dev_slots side : ℕ) (bin raw fds : List ℕ) (d : Device σ)
      → dev_slots < 2 ^ 31 - 1
      → 0 < fuel
      → dev_slots + 2 ^ 31 + 2 ≤ (side + slot + 2 ^ 31) % 2 ^ 32 + fuel
      → Ends (read_sides os hid rounds fuel slot dev_slots side bin raw fds d)
  unfolding read_sides
  read_sides-Ends zero slot dev_slots side bin raw fds d hs h0 hf = absurd (omega arith)
  read_sides-Ends (suc fuel) slot dev_slots side bin raw fds d hs h0 hf =
      branch-Ensures _ (signed_leb (side + slot) dev_slots) _ _
        (λ low.
          let small = in_range side slot dev_slots hs low in
          bind-Ends _ _ (read_flash-Ends hid os.get_ticks (slot_address slot side) bin slot_size d)
            λ r.
              branch-Ensures _ (r.0) _ _
                (λ e. bind-Ends _ _ (read-Ends (r.1) 0) λ c.
                  branch-Ensures _ (c == 0xff || (not (c == 0) && not (side == 0))) _ _ (λ f. tt)
                    λ f.
                      bind-Ends _ _ (write_range-Ends (r.1) 0 (replicate flash_header_size 0))
                        λ cleared.
                          bind-Ends _ _
                            (ensured _ _ (bin_to_raw03-Ensures cleared raw slot_size raw_size))
                            λ pulses.
                              bind-Ends _ _ (raw03_to_fds-Ends pulses fds raw_size) λ decoded.
                                branch-Ensures _ (decoded.0) _ _
                                  (λ g.
                                    bind-Ends _ _ (read_range-Ends (decoded.1) 0 fds_size) λ bytes.
                                      bind-Ends _ _
                                        (read_sides-Ends fuel slot dev_slots (side + 1) cleared
                                          pulses (decoded.1) (r.2) hs (omega arith) (omega arith))
                                        λ more. tt)
                                  (λ g. tt))
                (λ e. tt))
        (λ over. tt)

  -- `FDS_readFlashToFDS` ends, whatever the chip answers, for every `int` as the slot, when the
  -- number of slots is below the largest `int`.
  pub fds_read_flash_to_fds-Ends :
      (filename : List ℕ) (slot dev_slots : ℕ) (dev : Device σ)
      → dev_slots < 2 ^ 31 - 1
      → Ends (fds_read_flash_to_fds os hid rounds filename slot dev_slots dev)
  unfolding fds_read_flash_to_fds
  fds_read_flash_to_fds-Ends filename slot dev_slots dev hs =
      let created = os.create filename dev.world in
      branch-Ensures _ (created.0) _ _
        (λ e.
          bind-Ends _ _
            (read_sides-Ends (2 ^ 32) slot dev_slots 0 (os.malloc slot_size created.1)
              (os.malloc raw_size created.1) (os.malloc fds_size created.1) (moved dev created.1) hs
              (omega arith) (omega arith))
            λ s. tt)
        (λ e. tt)

  pub dump_flash-Ends :
      (filename : List ℕ) (addr size : ℕ) (dev : Device σ)
      → Ends (dump_flash os hid rounds filename addr size dev)
  unfolding dump_flash
  dump_flash-Ends filename addr size dev =
      let created = os.create filename dev.world in
      branch-Ensures _ (created.0) _ _
        (λ e.
          bind-Ends _ _
            (read_flash-Ends hid os.get_ticks addr (os.malloc size created.1)
              (if ltb size (2 ^ 31) then size else 0) (moved dev created.1))
            λ r.
              branch-Ensures _ (r.0) _ _
                (λ f.
                  branch-Ensures _ (ltb size (2 ^ 31)) _ _
                    (λ g. bind-Ends _ _ (read_range-Ends (r.1) 0 size) λ bytes. tt) (λ g. tt))
                (λ f. tt))
        (λ e. tt)
