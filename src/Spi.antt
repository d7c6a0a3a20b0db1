-- ===== src/Spi.antt =====
-- The flash chip behind the adapter: the commands of spi.cpp. `getTicks` of os.cpp is a parameter.
pub mod Chunks
pub mod Pages
pub mod Sram
pub mod Ends
pub mod Clock
pub mod Waiting
mod Tests
use fdsstick.Base.{ℕ, zero, suc, ◌+◌, ◌-◌, ◌*◌, ◌/◌, ◌%◌, ◌^◌, bit_and, Bool, true, false, ◌&&◌}
use fdsstick.Base.{List, [], ◌∷◌, Option, none, some, drop, length, replicate}
use fdsstick.Base.{
  Run, ok, stuck, ◌>>=◌, ◌++◌, read_range, write_range, ltb, ◌==◌, u8, u32, if◌then◌else◌,
}
use fdsstick.Device.{Hid, Device, spi_write, sram_write, spi_read, spi_write_max, spi_read_max}

abbrev pub page_size : ℕ
page_size = 256

-- The commands in use.
abbrev pub cmd_read_status : ℕ
cmd_read_status = 0x05

abbrev pub cmd_write_enable : ℕ
cmd_write_enable = 0x06

abbrev pub cmd_read_id : ℕ
cmd_read_id = 0x9f

abbrev pub cmd_read_data : ℕ
cmd_read_data = 0x03

abbrev pub cmd_write_data : ℕ
cmd_write_data = 0x02

abbrev pub cmd_write_status : ℕ
cmd_write_status = 0x01

abbrev pub cmd_page_write : ℕ
cmd_page_write = 0x0a

abbrev pub cmd_page_program : ℕ
cmd_page_program = 0x02

abbrev pub cmd_block_erase : ℕ
cmd_block_erase = 0xd8

abbrev pub cmd_block_erase32 : ℕ
cmd_block_erase32 = 0x52

abbrev pub cmd_sector_erase : ℕ
cmd_sector_erase = 0x20

-- `(uint8_t)(addr>>k)`
abbrev pub address_byte : ℕ → ℕ → ℕ
address_byte addr k = u8 (addr / 2 ^ k)

-- The four bytes of a command with an address.
abbrev pub command : ℕ → ℕ → List ℕ
command cmd addr = cmd ∷ address_byte addr 16 ∷ address_byte addr 8 ∷ address_byte addr 0 ∷ []

-- A C function that succeeds or fails on a device.
abbrev pub Action : Type 0 → Type 0
Action σ = Device σ → Run (Bool × Device σ)

-- `if(!f()) return false;` before the rest.
infixr 4 ◌and_then◌
abbrev pub ◌and_then◌ {ℓ} : {σ : Type ℓ} → Run (Bool × σ) → (σ → Run (Bool × σ)) → Run (Bool × σ)
m and_then f = m >>= λ r. elim r.0 [ true ↦ f r.1 | false ↦ ok (false, r.1) ]

-- The loops that send `size` bytes from `p` on, SPI_WRITEMAX at a time. `first` is the flag of the
-- first call.
unfoldable pub send_chunks :
    {σ : Type 0} → ℕ → (List ℕ → ℕ → Bool → Bool → Action σ) → Bool → List ℕ → ℕ → Action σ
send_chunks zero send first p size dev = stuck
send_chunks (suc fuel) send first p size dev = elim (ltb 0 size) [
  | false ↦ ok (true, dev)
  | true ↦ do
    let chunk = if ltb spi_write_max size then spi_write_max else size
    r ← send p chunk first (ltb spi_write_max size) dev
    elim r.0 [
      | false ↦ ok (false, r.1)
      | true ↦ send_chunks fuel send false (drop spi_write_max p) (size - spi_write_max) r.1
    ]
]

-- The loop of `spi_writeFlash` and `spi_writeFlash2`; the number is `wrote` when it ends. The sum
-- of address and position is a `uint32_t`.
pub program_pages :
    {σ : Type 0}
    → ℕ
    → (ℕ → List ℕ → ℕ → Action σ)
    → List ℕ
    → ℕ
    → ℕ
    → ℕ
    → Device σ
    → Run (ℕ × Device σ)
program_pages zero program buf addr size wrote dev = stuck
program_pages (suc fuel) program buf addr size wrote dev = elim (ltb wrote size) [
  | false ↦ ok (wrote, dev)
  | true ↦ do
    let left = page_size - bit_and addr 255
    let chunk = if ltb (size - wrote) left then size - wrote else left
    r ← program (u32 (addr + wrote)) (drop wrote buf) chunk dev
    elim r.0 [
      | false ↦ ok (wrote, r.1)
      | true ↦ program_pages fuel program buf addr size (wrote + chunk) r.1
    ]
]

module _ {σ : Type 0} (hid : Hid σ) (get_ticks : σ → ℕ × σ) where
  -- The three bytes of the answer, low byte first; 0 after a failure.
  unfoldable pub read_id : Device σ → Run (ℕ × Device σ)
  read_id dev = do
    asked ← spi_write hid (cmd_read_id ∷ []) 1 true true dev
    elim asked.0 [
      | false ↦ ok (0, asked.1)
      | true ↦ do
        answer ← spi_read hid 3 false asked.1
        elim answer.0 [
          | some (a ∷ b ∷ c ∷ []) ↦ ok (a + b * 2 ^ 8 + c * 2 ^ 16, answer.1)
          | _ ↦ ok (0, answer.1)
        ]
    ]

  abbrev pub flash_size_of : ℕ → ℕ
  flash_size_of id =
      if id == 0x138020
      then 0x8_0000
      else if id == 0x158020
      then 0x10_0000
      else if id == 0x1440ef
      then 0x10_0000
      else if id == 0x1640ef
      then 0x40_0000
      else if id == 0x1740ef
      then 0x80_0000
      else if id == 0x174001
      then 0x80_0000
      else 0

  unfoldable pub read_flash_size : Device σ → Run (ℕ × Device σ)
  unfolding read_id
  read_flash_size dev = do id ← read_id dev; ok (flash_size_of id.0, id.1)

  -- The loop of `spi_readFlash`, with `buf` as the buffer and a position in it.
  unfoldable pub read_chunks : ℕ → List ℕ → ℕ → ℕ → Device σ → Run (Bool × List ℕ × Device σ)
  read_chunks zero buf at size dev = stuck
  read_chunks (suc fuel) buf at size dev = elim (ltb 0 size) [
    | false ↦ ok (true, buf, dev)
    | true ↦ do
      let chunk = if ltb spi_read_max size then spi_read_max else size
      r ← spi_read hid chunk (ltb spi_read_max size) dev
      elim r.0 [
        | none ↦ ok (false, buf, r.1)
        | some bytes ↦ do
          buf' ← write_range buf at bytes
          read_chunks fuel buf' (at + spi_read_max) (size - spi_read_max) r.1
      ]
  ]

  unfoldable pub read_flash : ℕ → List ℕ → ℕ → Device σ → Run (Bool × List ℕ × Device σ)
  unfolding read_chunks
  read_flash addr buf size dev = do
    asked ← spi_write hid (command cmd_read_data addr) 4 true true dev
    elim asked.0 [
      | false ↦ ok (false, buf, asked.1)
      | true ↦ read_chunks (size + 1) buf 0 size asked.1
    ]

  pub write_enable : Action σ
  write_enable dev = spi_write hid (cmd_write_enable ∷ []) 1 true false dev

  -- The loop of `writeWait`; the pair is the last status, or `none` for a failed read. Its bound is
  -- the clock, so the rounds are a parameter here.
  pub wait_loop : ℕ → ℕ → ℕ → Device σ → Run (Option ℕ × Device σ)
  wait_loop zero start timeout dev = stuck
  wait_loop (suc rounds) start timeout dev = do
    r ← spi_read hid 1 true dev
    elim r.0 [
      | some (status ∷ []) ↦ elim (bit_and status 1 == 0) [
        | true ↦ ok (some status, r.1)
        | false ↦
            let now = get_ticks r.1.world in
            let later = record r.1 { world = now.1 } in
            elim (ltb (u32 (now.0 + (2 ^ 32 - start))) timeout) [
              | true ↦ wait_loop rounds start timeout later
              | false ↦ ok (some status, later)
            ]
      ]
      | _ ↦ ok (none, r.1)
    ]

  pub write_wait : ℕ → ℕ → Action σ
  unfolding wait_loop
  write_wait rounds timeout dev =
      spi_write hid (cmd_read_status ∷ []) 1 true true dev and_then λ asked. do
        let start = get_ticks asked.world
        w ← wait_loop rounds start.0 timeout (record asked { world = start.1 })
        elim w.0 [
          | none ↦ ok (false, w.1)
          | some status ↦ spi_write hid [] 0 false false w.1 and_then λ released.
              ok (bit_and status 1 == 0, released)
        ]

  pub un_write_protect : ℕ → Action σ
  unfolding write_enable write_wait
  un_write_protect rounds dev = write_enable dev and_then λ enabled.
      spi_write hid (cmd_write_status ∷ 0 ∷ []) 2 true false enabled and_then λ sent.
      write_wait rounds 50 sent

  -- What `pageWrite` and `pageProgram` share; `cmd` is the only difference. The array has 260 bytes.
  pub page_command : ℕ → ℕ → ℕ → List ℕ → ℕ → Action σ
  unfolding write_enable write_wait
  page_command rounds cmd addr buf size dev = elim (ltb page_size (bit_and addr 255 + size)) [
    | true ↦ ok (false, dev)
    | false ↦ write_enable dev and_then λ enabled. do
      bytes ← read_range buf 0 size
      let whole = command cmd addr ++ bytes
      send_chunks (size + 5) (spi_write hid) true whole (size + 4) enabled and_then λ sent.
          write_wait rounds 50 sent
  ]

  pub page_write : ℕ → ℕ → List ℕ → ℕ → Action σ
  unfolding page_command
  page_write rounds addr buf size dev = page_command rounds cmd_page_write addr buf size dev

  pub page_program : ℕ → ℕ → List ℕ → ℕ → Action σ
  unfolding page_command
  page_program rounds addr buf size dev = page_command rounds cmd_page_program addr buf size dev

  -- The erase commands: the bytes of the address that they send, and their time.
  pub erase_command : ℕ → List ℕ → ℕ → Action σ
  unfolding write_enable write_wait
  erase_command rounds cmd timeout dev = write_enable dev and_then λ enabled.
      spi_write hid cmd 4 true false enabled and_then λ sent. write_wait rounds timeout sent

  pub block_erase : ℕ → ℕ → Action σ
  unfolding erase_command
  block_erase rounds addr dev =
      erase_command rounds (cmd_block_erase ∷ address_byte addr 16 ∷ 0 ∷ 0 ∷ []) 2000 dev

  pub block_erase32 : ℕ → ℕ → Action σ
  unfolding erase_command
  block_erase32 rounds addr dev =
      erase_command rounds (cmd_block_erase32 ∷ address_byte addr 16 ∷ address_byte addr 8 ∷ 0 ∷ [])
        1600 dev

  pub sector_erase : ℕ → ℕ → Action σ
  unfolding erase_command
  sector_erase rounds addr dev =
      erase_command rounds (cmd_sector_erase ∷ address_byte addr 16 ∷ address_byte addr 8 ∷ 0 ∷ [])
        600 dev

  pub write_flash : ℕ → List ℕ → ℕ → ℕ → Action σ
  unfolding block_erase page_program program_pages
  write_flash rounds buf addr size dev = block_erase rounds addr dev and_then λ erased. do
    r ← program_pages (size + 1) (page_program rounds) buf addr size 0 erased
    ok (r.0 == size, r.1)

  pub write_flash2 : ℕ → List ℕ → ℕ → ℕ → Action σ
  unfolding block_erase32 page_program program_pages
  write_flash2 rounds buf addr size dev = block_erase32 rounds addr dev and_then λ erased. do
    r ← program_pages (size + 1) (page_program rounds) buf addr size 0 erased
    ok (r.0 == size, r.1)

  pub erase_page : ℕ → ℕ → Action σ
  unfolding un_write_protect write_enable write_wait
  erase_page rounds addr dev = un_write_protect rounds dev and_then λ free.
      write_enable free and_then λ enabled.
      spi_write hid (cmd_block_erase ∷ address_byte addr 16 ∷ 0 ∷ 0 ∷ []) 4 true false enabled
      and_then λ sent. write_wait rounds 2000 sent

  -- Three bytes of the command: the third is left out.
  unfoldable pub write_sram : List ℕ → ℕ → ℕ → Action σ
  unfolding send_chunks
  write_sram buf addr size dev =
      sram_write hid (cmd_write_data ∷ 0 ∷ address_byte addr 8 ∷ address_byte addr 0 ∷ []) 3 true
        true dev
      and_then λ sent. send_chunks (size + 1) (sram_write hid) false buf size sent
