-- ===== src/Slots.antt =====
-- Games in the slots of the flash chip: `chksum_calc`, `FDS_writeFlash`, `FDS_list` and
-- `FDS_readFlashToFDS` of fds.cpp, `spi_dumpFlash` and `spi_writeFile` of spi.cpp. A C `int` is the
-- 32-bit word of its two's complement.
pub mod Listing
pub mod Ends
pub mod Header
pub mod Path
pub mod Writing
mod Tests
use fdsstick.Base.{
  ℕ, zero, suc, ◌+◌, ◌-◌, ◌*◌, ◌/◌, ◌%◌, ◌^◌, bit_and, bit_xor, Bool, true, false, ◌&&◌, ◌||◌, not,
}
use fdsstick.Base.{List, [], ◌∷◌, ◌++◌, Option, none, some, take, drop, length, replicate}
use fdsstick.Base.{
  Run, ok, fault, stuck, ◌>>=◌, read, read_range, write_range, push, ltb, leb, ◌==◌, u8, u32,
  if◌then◌else◌,
}
use fdsstick.Bin.{fds_to_bin}
use fdsstick.Raw.{raw03_to_fds, fds_size}
use fdsstick.Raw.Encode.{bin_to_raw03}
use fdsstick.Device.{Hid, Device}
use fdsstick.Spi.{Action, ◌and_then◌, read_flash, write_flash}
use fdsstick.Open.{slot_size}
use fdsstick.Os.{Os, moved}
use fdsstick.Disks.{load_file, first_side, whole_sides, has_side, fwnes_header, raw_size}

-- `FLASHHEADERSIZE` and `DEFAULT_LEAD_IN`, in bits.
abbrev pub flash_header_size : ℕ
flash_header_size = 0x100

abbrev pub default_lead_in : ℕ
default_lead_in = 28300

-- `(slot+side)*SLOTSIZE`
abbrev pub slot_address : ℕ → ℕ → ℕ
slot_address slot side = u32 ((slot + side) * slot_size)

-- `a<=b` on the words of two `int`.
abbrev pub signed_leb : ℕ → ℕ → Bool
signed_leb a b = leb (u32 (a + 2 ^ 31)) (u32 (b + 2 ^ 31))

-- The loop adds up `buf[i]`, which is a byte, for the first quarter of the buffer.
pub xor_bytes : ℕ → List ℕ → ℕ
xor_bytes ret [] = ret
xor_bytes ret (b ∷ bytes) = xor_bytes (bit_xor ret b) bytes

pub chksum_calc : List ℕ → ℕ → Run ℕ
unfolding xor_bytes
chksum_calc buf size = do data_bytes ← read_range buf 0 (size / 4); ok (xor_bytes 0 data_bytes)

-- Whether `strrchr(filename,'/')` finds anything.
pub has_slash : List ℕ → Bool
has_slash [] = false
has_slash (c ∷ filename) = c == 47 || has_slash filename

-- What follows the last `/` (47) of the name, or all of it.
pub short_name : List ℕ → List ℕ
unfolding has_slash
short_name [] = []
short_name (c ∷ filename) = elim (has_slash filename) [
  | true ↦ short_name filename
  | false ↦ if c == 47 then filename else c ∷ filename
]

-- `strncpy(outbuf, name, 240)` writes these bytes.
abbrev pub name_field : List ℕ → List ℕ
name_field name = take 240 name ++ replicate (240 - length name) 0

-- The header of a slot: the name on the first side, the sum and the lead-in, and zeros.
pub slot_header : List ℕ → ℕ → ℕ → List ℕ
unfolding short_name
slot_header filename side chksum =
    (if side == 0 then name_field (short_name filename) else replicate 240 0)
    ++ (u8 chksum
        ∷ u8 (chksum / 2 ^ 8)
        ∷ u8 (chksum / 2 ^ 16)
        ∷ u8 (chksum / 2 ^ 24)
        ∷ bit_and default_lead_in 0xff
        ∷ default_lead_in / 256
        ∷ replicate 10 0)

-- The image of a slot from its body.
pub slot_image : List ℕ → ℕ → List ℕ → Run (List ℕ)
unfolding slot_header chksum_calc
slot_image filename side body = do
  chksum ← chksum_calc body (slot_size - flash_header_size)
  ok (slot_header filename side chksum ++ body)

-- What `FDS_list` prints of a slot.
pub data Entry : Type 0 where
  empty unknown : ℕ → Entry
  named : ℕ → List ℕ → Entry
  next_side : ℕ → ℕ → Entry

-- The string at the start of a buffer, which `%s` prints.
pub string_at : List ℕ → Run (List ℕ)
string_at [] = fault
string_at (c ∷ buf) = elim (c == 0) [ true ↦ ok [] | false ↦ push c (string_at buf) ]

-- The entry of a slot, and `side` behind it.
pub list_slot : ℕ → List ℕ → ℕ → Run (Entry × ℕ)
unfolding string_at
list_slot slot buf side = do
  c ← read buf 0
  elim (c == 0xff) [
    | true ↦ ok (empty slot, 0)
    | false ↦ elim (c == 0) [
      | false ↦ do name ← string_at buf; ok (named slot name, 1)
      | true ↦
          ok (if side == 0 then (unknown slot, side) else (next_side slot (side + 1), side + 1))
    ]
  ]

module _ {σ : Type 0} (os : Os σ) (hid : Hid σ) (rounds : ℕ) where
  -- The loop of `FDS_writeFlash`. The result of `spi_writeFlash` is not looked at; a side that
  -- cannot be converted is left out, and its slot too.
  pub write_sides : ℕ → List ℕ → List ℕ → ℕ → ℕ → List ℕ → ℕ → ℕ → Device σ → Run (Device σ)
  unfolding slot_image has_side
  write_sides zero filename inbuf filesize slot outbuf pos side dev = stuck
  write_sides (suc fuel) filename inbuf filesize slot outbuf pos side dev = do
    more ← has_side inbuf filesize pos
    elim more [
      | false ↦ ok dev
      | true ↦ do
        converted ←
            fds_to_bin (drop flash_header_size outbuf) (drop pos inbuf)
              (slot_size - flash_header_size)
        elim (converted.0 == 0) [
          | true ↦
              write_sides fuel filename inbuf filesize slot
                (take flash_header_size outbuf ++ converted.1) (pos + fds_size) (side + 1) dev
          | false ↦ do
            image ← slot_image filename side converted.1
            written ←
                write_flash hid os.get_ticks rounds image (slot_address slot side) slot_size dev
            write_sides fuel filename inbuf filesize slot image (pos + fds_size) (side + 1)
                written.1
        ]
    ]

  pub fds_write_flash : List ℕ → ℕ → Action σ
  unfolding write_sides load_file first_side whole_sides
  fds_write_flash filename slot dev =
      let loaded = load_file os filename dev in
      elim loaded.0 [
        | none ↦ ok (false, loaded.1)
        | some inbuf ↦ do
          pos ← first_side inbuf
          written ←
              write_sides (length inbuf + 1) filename inbuf (whole_sides (length inbuf) pos) slot
                (os.malloc slot_size loaded.1.world) pos 0 loaded.1
          ok (true, written)
      ]

  -- The slots from `slot` on, `left` of them; the entries in their order, up to a failure.
  pub list_slots : ℕ → ℕ → ℕ → List ℕ → Device σ → Run (Bool × List Entry × Device σ)
  unfolding list_slot
  list_slots zero slot side buf dev = ok (true, [], dev)
  list_slots (suc left) slot side buf dev = do
    r ← read_flash hid os.get_ticks (slot * slot_size) buf 256 dev
    elim r.0 [
      | false ↦ ok (false, [], r.2)
      | true ↦ do
        listed ← list_slot slot r.1 side
        more ← list_slots left (slot + 1) listed.1 r.1 r.2
        ok (more.0, listed.0 ∷ more.1, more.2)
    ]

  pub fds_list : ℕ → Device σ → Run (Bool × List Entry × Device σ)
  unfolding list_slots
  fds_list dev_slots dev = list_slots (dev_slots - 1) 1 0 (os.malloc 256 dev.world) dev

  -- What the loop of `FDS_readFlashToFDS` leaves: the result, the count and the sides written.
  pub record Sides : Type 0 where
    pub result : Bool
    pub count : ℕ
    pub sides : List ℕ
    pub dev : Device σ

  -- A side stands before those of the later rounds.
  abbrev pub with_side : List ℕ → Sides → Sides
  with_side fds s = record s { sides = fds ++ s.sides }

  -- The loop ends at `side`, which is the count of those written, as a byte.
  abbrev pub stop_sides : Bool → ℕ → Device σ → Sides
  stop_sides result side d = record { result = result; count = u8 side; sides = []; dev = d }

  pub read_sides : ℕ → ℕ → ℕ → ℕ → List ℕ → List ℕ → List ℕ → Device σ → Run Sides
  read_sides zero slot dev_slots side bin raw fds d = stuck
  read_sides (suc fuel) slot dev_slots side bin raw fds d =
      elim (signed_leb (side + slot) dev_slots) [
        | false ↦ ok (stop_sides true side d)
        | true ↦ do
          r ← read_flash hid os.get_ticks (slot_address slot side) bin slot_size d
          elim r.0 [
            | false ↦ ok (stop_sides false side r.2)
            | true ↦ do
              c ← read r.1 0
              elim (c == 0xff || (not (c == 0) && not (side == 0))) [
                | true ↦ ok (stop_sides true side r.2)
                | false ↦ do
                  cleared ← write_range r.1 0 (replicate flash_header_size 0)
                  pulses ← bin_to_raw03 cleared raw slot_size raw_size
                  decoded ← raw03_to_fds pulses fds raw_size
                  elim decoded.0 [
                    | false ↦ ok (stop_sides false side r.2)
                    | true ↦ do
                      bytes ← read_range decoded.1 0 fds_size
                      more ← read_sides fuel slot dev_slots (side + 1) cleared pulses decoded.1 r.2
                      ok (with_side bytes more)
                  ]
              ]
          ]
      ]

  -- The count of sides is put into the header when the loop has ended.
  pub fds_read_flash_to_fds : List ℕ → ℕ → ℕ → Action σ
  unfolding read_sides
  fds_read_flash_to_fds filename_fds slot dev_slots dev =
      let created = os.create filename_fds dev.world in
      elim created.0 [
        | false ↦ ok (false, moved dev created.1)
        | true ↦ do
          s ←
              read_sides (2 ^ 32) slot dev_slots 0 (os.malloc slot_size created.1)
                (os.malloc raw_size created.1) (os.malloc fds_size created.1) (moved dev created.1)
          ok (
            s.result,
            moved s.dev (os.save filename_fds (fwnes_header s.count ++ s.sides) s.dev.world),
          )
      ]

  -- `size` and `addr` are words; with a negative size nothing is read, and `fwrite` takes it as a
  -- huge number.
  pub dump_flash : List ℕ → ℕ → ℕ → Action σ
  dump_flash filename addr size dev =
      let created = os.create filename dev.world in
      elim created.0 [
        | false ↦ ok (false, moved dev created.1)
        | true ↦ do
          let positive = ltb size (2 ^ 31)
          let buf = os.malloc size created.1
          r ←
              read_flash hid os.get_ticks addr buf (if positive then size else 0)
                (moved dev created.1)
          elim r.0 [
            | false ↦ ok (false, moved r.2 (os.save filename [] r.2.world))
            | true ↦ elim positive [
              | false ↦ fault
              | true ↦ do
                bytes ← read_range r.1 0 size
                ok (true, moved r.2 (os.save filename bytes r.2.world))
            ]
          ]
      ]

  -- At most `dev_flashSize` bytes of the file.
  pub write_file : List ℕ → ℕ → ℕ → Action σ
  write_file filename addr flash_size dev =
      let r = os.load filename dev.world in
      elim r.0 [
        | none ↦ ok (false, moved dev r.1)
        | some bytes ↦
            let filebuf = take flash_size bytes in
            write_flash hid os.get_ticks rounds filebuf addr (length filebuf) (moved dev r.1)
      ]
