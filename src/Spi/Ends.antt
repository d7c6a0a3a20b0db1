-- ===== src/Spi/Ends.antt =====
-- The commands that do not wait for the flash chip end: reading its size, reading it, and writing the
-- SRAM.
use fdsstick.Base.{ℕ, ◌+◌, ◌*◌, ◌^◌, Bool, true, false, List, [], ◌∷◌, Option, none, some, Run, ok}
use fdsstick.Device.{Hid, Device, sram_write, spi_write_max, spi_read_max}
use fdsstick.Base.{
  zero, suc, ◌-◌, ◌≤◌, ◌<◌, ◌≡◌, arith, Ensures, >>=-Ensures, ◌==◌, drop, ltb, if◌then◌else◌,
}
use fdsstick.Base.Access.{branch-Ensures, option-Ensures}
use fdsstick.Base.Ends.{Ends, bind-Ends, write_range-Ends}
use fdsstick.Device.Ends.{spi_write-Ends, spi_read-Ends, sram_write-Ends}
use fdsstick.Spi.{
  cmd_read_id, read_id, read_flash_size, Action, command, cmd_read_data, read_chunks, read_flash,
  send_chunks, write_sram,
}

if_le : (b : Bool) {x y m : ℕ} → x ≤ m → y ≤ m → (if b then x else y) ≤ m
if_le true h k = h
if_le false h k = k

some_left : (n : ℕ) → ltb 0 n ≡ true → 0 < n
some_left n h = ground arith

module _ {σ : Type 0} (hid : Hid σ) (get_ticks : σ → ℕ × σ) where
  identified :
      (answer : Option (List ℕ)) (dev : Device σ)
      → Ends {A = ℕ × Device σ} (elim answer [
        | some (a ∷ b ∷ c ∷ []) ↦ ok (a + b * 2 ^ 8 + c * 2 ^ 16, dev)
        | _ ↦ ok (0, dev)
      ])
  identified none dev = tt
  identified (some []) dev = tt
  identified (some (a ∷ [])) dev = tt
  identified (some (a ∷ b ∷ [])) dev = tt
  identified (some (a ∷ b ∷ c ∷ [])) dev = tt
  identified (some (a ∷ b ∷ c ∷ d ∷ more)) dev = tt

  asked :
      (b : Bool) (dev : Device σ) (go : Run (ℕ × Device σ))
      → Ends go
      → Ends {A = ℕ × Device σ} (elim b [ false ↦ ok (0, dev) | true ↦ go ])
  asked false dev go h = tt
  asked true dev go h = h

  read_id-Ends : (dev : Device σ) → Ends (read_id hid get_ticks dev)
  unfolding read_id
  read_id-Ends dev = bind-Ends _ _ (spi_write-Ends hid (cmd_read_id ∷ []) 1 true true dev) λ r.
      asked (r.0) (r.1) _
        (bind-Ends _ _ (spi_read-Ends hid 3 false (r.1)) λ answer. identified (answer.0) (answer.1))

  pub read_flash_size-Ends : (dev : Device σ) → Ends (read_flash_size hid get_ticks dev)
  unfolding read_flash_size
  read_flash_size-Ends dev = bind-Ends _ _ (read_id-Ends dev) λ id. tt

  -- The largest chip that is known has 0x800000 bytes.
  pub read_flash_size-Ensures :
      (dev : Device σ) → Ensures (λ r. r.0 ≤ 0x80_0000) (read_flash_size hid get_ticks dev)
  unfolding read_flash_size
  read_flash_size-Ensures dev =
      >>=-Ensures (λ r. Unit {0}) (λ r. r.0 ≤ 0x80_0000) _ _ (read_id-Ends dev)
        λ id t. if_le (id.0 == 0x138020) (omega arith) (
          if_le (id.0 == 0x158020) (omega arith) (
            if_le (id.0 == 0x1440ef) (omega arith) (
              if_le (id.0 == 0x1640ef) (omega arith) (
                if_le (id.0 == 0x1740ef) (omega arith)
                  (if_le (id.0 == 0x174001) (omega arith) (omega arith))))))

  read_chunks-Ends :
      (fuel : ℕ) (buf : List ℕ) (at size : ℕ) (dev : Device σ)
      → size < fuel
      → Ends (read_chunks hid get_ticks fuel buf at size dev)
  unfolding read_chunks
  read_chunks-Ends zero buf at size dev h = absurd (omega arith)
  read_chunks-Ends (suc fuel) buf at size dev h =
      branch-Ensures _ (ltb 0 size) _ _
        (λ e.
          let more = some_left size e in
          bind-Ends _ _ (spi_read-Ends hid _ _ dev) λ r.
            option-Ensures _ (r.0) _ _ (λ f. tt)
              λ bytes f. bind-Ends _ _ (write_range-Ends buf at bytes) λ buf'.
                read_chunks-Ends fuel buf' (at + spi_read_max) (size - spi_read_max) (r.1)
                  (omega arith))
        (λ e. tt)

  pub read_flash-Ends :
      (addr : ℕ) (buf : List ℕ) (size : ℕ) (dev : Device σ)
      → Ends (read_flash hid get_ticks addr buf size dev)
  unfolding read_flash
  read_flash-Ends addr buf size dev =
      bind-Ends _ _ (spi_write-Ends hid (command cmd_read_data addr) 4 true true dev) λ asked.
        branch-Ensures _ (asked.0) _ _
          (λ e. read_chunks-Ends (size + 1) buf 0 size (asked.1) (omega arith)) (λ e. tt)

  pub send_chunks-Ends :
      (fuel : ℕ) (send : List ℕ → ℕ → Bool → Bool → Action σ) (first : Bool) (p : List ℕ) (size : ℕ)
      (dev : Device σ)
      → ((q : List ℕ) (n : ℕ) (a b : Bool) (d : Device σ) → Ends (send q n a b d))
      → size < fuel
      → Ends (send_chunks fuel send first p size dev)
  unfolding send_chunks
  send_chunks-Ends zero send first p size dev hs h = absurd (omega arith)
  send_chunks-Ends (suc fuel) send first p size dev hs h =
      branch-Ensures _ (ltb 0 size) _ _
        (λ e.
          let more = some_left size e in
          bind-Ends _ _ (hs p _ first _ dev) λ r.
            branch-Ensures _ (r.0) _ _
              (λ f.
                send_chunks-Ends fuel send false (drop spi_write_max p) (size - spi_write_max) (r.1)
                  hs (omega arith))
              (λ f. tt))
        (λ e. tt)

  pub write_sram-Ends :
      (buf : List ℕ) (addr size : ℕ) (dev : Device σ)
      → Ends (write_sram hid get_ticks buf addr size dev)
  unfolding write_sram
  write_sram-Ends buf addr size dev = bind-Ends _ _ (sram_write-Ends hid _ 3 true true dev) λ sent.
      branch-Ensures _ (sent.0) _ _
        (λ e.
          send_chunks-Ends (size + 1) (sram_write hid) false buf size (sent.1)
            (λ q n a b d. sram_write-Ends hid q n a b d) (omega arith))
        (λ e. tt)
