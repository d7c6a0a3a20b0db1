-- ===== src/Spi/Waiting.antt =====
-- The commands that wait for the flash chip end, under the conditions on the clock.
use native.Mathlib.Nat.{mul-le-mul_left, mul-add}
use fdsstick.Base.{ltb→lt, ◌*◌, ◌≡◌, refl, ap}
use fdsstick.Base.{
  ℕ, zero, suc, ◌+◌, ◌-◌, ◌≤◌, ◌<◌, arith, bit_and, Bool, true, false, List, [], ◌∷◌, ◌++◌, Run,
  ltb, if◌then◌else◌,
}
use mathlib.Core.Path.{subst, sym}
use fdsstick.Base.Access.{branch-Ensures, option-Ensures}
use fdsstick.Base.Ends.{Ends, bind-Ends, read_range-Ends}
use fdsstick.Base.Bits.{bit_and-le}
use fdsstick.Device.{Hid, Device, spi_write}
use fdsstick.Device.Ends.{spi_write-Ends}
use fdsstick.Spi.{
  page_size, ◌and_then◌, cmd_read_status, cmd_write_enable, cmd_write_status, cmd_page_program,
  command, wait_loop, write_wait, write_enable, un_write_protect, page_command, page_program,
  program_pages, erase_command, block_erase, block_erase32, write_flash, write_flash2, erase_page,
}
use fdsstick.Spi.Ends.{send_chunks-Ends}
use fdsstick.Spi.Clock.{Clock, Outlasts, wait_loop-Ends}

module _ {σ : Type 0} (hid : Hid σ) (get_ticks : σ → ℕ × σ) (clock : Clock hid get_ticks) where
  module _ (rounds : ℕ) (many : Outlasts clock rounds) where
    -- `if(!f()) return false;` before the rest.
    and_then-Ends :
        (m : Run (Bool × Device σ)) (f : Device σ → Run (Bool × Device σ))
        → Ends m
        → ((d : Device σ) → Ends (f d))
        → Ends (m and_then f)
    and_then-Ends m f h k = bind-Ends m _ h λ r. branch-Ensures _ (r.0) _ _ (λ e. k (r.1)) (λ e. tt)

    outlasted :
        (begin timeout : ℕ) (w : σ)
        → timeout ≤ 2000
        → begin ≡ clock.count w
        → clock.grain * (begin + timeout + clock.lag) < clock.time (get_ticks w).1 + rounds
    outlasted begin timeout w ht e = omega (
      arith,
      many,
      clock.takes_time w,
      clock.follows w,
      ap (λ (t : ℕ). clock.grain * t) e,
      mul-le-mul_left clock.grain most,
      mul-add clock.grain begin (2000 + clock.lag),
    )
      where
        most : begin + timeout + clock.lag ≤ begin + (2000 + clock.lag)
        most = omega (arith, ht)

    write_wait-Ends :
        (timeout : ℕ) (dev : Device σ)
        → timeout ≤ 2000
        → Ends (write_wait hid get_ticks rounds timeout dev)
    unfolding write_wait
    write_wait-Ends timeout dev ht =
        and_then-Ends _ _ (spi_write-Ends hid (cmd_read_status ∷ []) 1 true true dev) λ asked.
          let w = asked.world in
          let steady = clock.steady w in
          let slow = clock.slow w in
          let started = record asked { world = (get_ticks w).1 } in
          bind-Ends _ _
            (subst (λ (start : ℕ). Ends (wait_loop hid get_ticks rounds start timeout started))
              (sym (clock.reading w))
              (wait_loop-Ends hid get_ticks clock rounds (clock.count w) timeout started
                (omega arith) (omega (arith, steady)) (omega (arith, slow)) (omega (arith, many))
                (outlasted (clock.count w) timeout w ht refl)))
            λ r.
              option-Ensures _ (r.0) _ _ (λ e. tt)
                λ status e.
                  and_then-Ends _ _ (spi_write-Ends hid [] 0 false false (r.1)) λ released. tt

    write_enable-Ends : (dev : Device σ) → Ends (write_enable hid get_ticks dev)
    unfolding write_enable
    write_enable-Ends dev = spi_write-Ends hid (cmd_write_enable ∷ []) 1 true false dev

    un_write_protect-Ends : (dev : Device σ) → Ends (un_write_protect hid get_ticks rounds dev)
    unfolding un_write_protect
    un_write_protect-Ends dev = and_then-Ends _ _ (write_enable-Ends dev) λ enabled.
        and_then-Ends _ _ (spi_write-Ends hid (cmd_write_status ∷ 0 ∷ []) 2 true false enabled)
          λ sent. write_wait-Ends 50 sent (omega arith)

    page_program-Ends :
        (addr : ℕ) (buf : List ℕ) (size : ℕ) (dev : Device σ)
        → Ends (page_program hid get_ticks rounds addr buf size dev)
    unfolding page_program page_command
    page_program-Ends addr buf size dev =
        branch-Ensures _ (ltb page_size (bit_and addr 255 + size)) _ _ (λ e. tt)
          λ e. and_then-Ends _ _ (write_enable-Ends dev) λ enabled.
            bind-Ends _ _ (read_range-Ends buf 0 size) λ bytes.
              and_then-Ends _ _
                (send_chunks-Ends hid get_ticks (size + 5) (spi_write hid) true
                  (command cmd_page_program addr ++ bytes) (size + 4) enabled
                  (λ q n a b d. spi_write-Ends hid q n a b d) (omega arith))
                λ sent. write_wait-Ends 50 sent (omega arith)

    erase_command-Ends :
        (cmd : List ℕ) (timeout : ℕ) (dev : Device σ)
        → timeout ≤ 2000
        → Ends (erase_command hid get_ticks rounds cmd timeout dev)
    unfolding erase_command
    erase_command-Ends cmd timeout dev ht = and_then-Ends _ _ (write_enable-Ends dev) λ enabled.
        and_then-Ends _ _ (spi_write-Ends hid cmd 4 true false enabled)
          λ sent. write_wait-Ends timeout sent ht

    -- Every round programs a byte or more.
    chunk_some :
        (addr size wrote : ℕ)
        → wrote < size
        → 0 < (
            if ltb (size - wrote) (page_size - bit_and addr 255)
            then size - wrote
            else page_size - bit_and addr 255)
    chunk_some addr size wrote h =
        either (ltb (size - wrote) (page_size - bit_and addr 255)) (omega arith)
          (omega (arith, bit_and-le addr 255))
      where
        either : (b : Bool) {x y : ℕ} → 0 < x → 0 < y → 0 < (if b then x else y)
        either true hx hy = hx
        either false hx hy = hy

    program_pages-Ends :
        (fuel : ℕ) (buf : List ℕ) (addr size wrote : ℕ) (dev : Device σ)
        → 0 < fuel
        → size < wrote + fuel
        → Ends (program_pages fuel (page_program hid get_ticks rounds) buf addr size wrote dev)
    unfolding program_pages
    program_pages-Ends zero buf addr size wrote dev h0 hf = absurd (omega arith)
    program_pages-Ends (suc fuel) buf addr size wrote dev h0 hf =
        branch-Ensures _ (ltb wrote size) _ _
          (λ e.
            let low = ltb→lt wrote size e in
            let some_bytes = chunk_some addr size wrote low in
            bind-Ends _ _ (page_program-Ends _ _ _ dev) λ r.
              branch-Ensures _ (r.0) _ _
                (λ f.
                  program_pages-Ends fuel buf addr size _ (r.1) (omega arith)
                    (omega (arith, some_bytes)))
                (λ f. tt))
          (λ over. tt)

    pub write_flash-Ends :
        (buf : List ℕ) (addr size : ℕ) (dev : Device σ)
        → Ends (write_flash hid get_ticks rounds buf addr size dev)
    unfolding write_flash block_erase
    write_flash-Ends buf addr size dev =
        and_then-Ends _ _ (erase_command-Ends _ 2000 dev (omega arith)) λ erased.
          bind-Ends _ _
            (program_pages-Ends (size + 1) buf addr size 0 erased (omega arith) (omega arith))
            λ r. tt

    pub write_flash2-Ends :
        (buf : List ℕ) (addr size : ℕ) (dev : Device σ)
        → Ends (write_flash2 hid get_ticks rounds buf addr size dev)
    unfolding write_flash2 block_erase32
    write_flash2-Ends buf addr size dev =
        and_then-Ends _ _ (erase_command-Ends _ 1600 dev (omega arith)) λ erased.
          bind-Ends _ _
            (program_pages-Ends (size + 1) buf addr size 0 erased (omega arith) (omega arith))
            λ r. tt

    pub erase_page-Ends :
        (addr : ℕ) (dev : Device σ) → Ends (erase_page hid get_ticks rounds addr dev)
    unfolding erase_page
    erase_page-Ends addr dev = and_then-Ends _ _ (un_write_protect-Ends dev) λ free.
        and_then-Ends _ _ (write_enable-Ends free) λ enabled.
          and_then-Ends _ _ (spi_write-Ends hid _ 4 true false enabled)
            λ sent. write_wait-Ends 2000 sent (omega arith)
