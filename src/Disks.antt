-- ===== src/Disks.antt =====
-- The commands on files and disks: `loadFile`, `FDS_writeDisk`, `FDS_convertDisk`,
-- `FDS_convertDiskraw03`, `FDS_bintofds` and `FDS_readDisk` of fds.cpp. A C `char *` that may be NULL
-- is an `Option`; files are the lists of their bytes.
pub mod Each
pub mod Ends
pub mod Sides
pub mod Convert
pub mod Decoding
mod Tests
use fdsstick.Base.{ℕ, zero, suc, ◌+◌, ◌-◌, ◌*◌, ◌/◌, ◌%◌, Bool, true, false, ◌&&◌}
use fdsstick.Base.{List, [], ◌∷◌, ◌++◌, Option, none, some, take, drop, length, replicate}
use fdsstick.Base.{
  Run, ok, fault, stuck, ◌>>=◌, read, read_range, write_range, ltb, ◌==◌, if◌then◌else◌,
}
use fdsstick.Bin.{fds_to_bin}
use fdsstick.Raw.{raw_to_raw03, raw03_to_fds, fds_size}
use fdsstick.Raw.Encode.{bin_to_raw03}
use fdsstick.Device.{Hid, Device}
use fdsstick.Spi.{Action, write_sram}
use fdsstick.Transfer.{write_image2, read_disk_image}
use fdsstick.Dump.Verify.{Verifier}
use fdsstick.Dump.Convert.{raw03_to_bin, bin_size}
use fdsstick.Open.{slot_size}
use fdsstick.Os.{Os, moved}

-- `LEAD_IN`, `DISKSIZE`, `RAWSIZE` and `READBUFSIZE`
abbrev pub lead_in : ℕ
lead_in = 28300 / 8

abbrev pub disk_size : ℕ
disk_size = 0x1_1000

abbrev pub raw_size : ℕ
raw_size = slot_size * 8

abbrev pub read_buf_size : ℕ
read_buf_size = 0x9_0000

-- The use of a pointer.
abbrev pub pointer {ℓ} : {A : Type ℓ} → Option A → Run A
pointer none = fault
pointer (some a) = ok a

-- `fwnesHdr` with the count of sides in `fwnesHdr[4]`.
abbrev pub fwnes_header : ℕ → List ℕ
fwnes_header count = 0x46 ∷ 0x44 ∷ 0x53 ∷ 0x1a ∷ count ∷ replicate 11 0

-- `inpos` at the start: the header of fwNES is skipped.
unfoldable pub first_side : List ℕ → Run ℕ
first_side inbuf = do c ← read inbuf 0; ok (if c == 0x46 then 16 else 0)

-- `filesize -= (filesize - inpos) % FDSSIZE`, where the remainder of a negative number is negative.
unfoldable pub whole_sides : ℕ → ℕ → ℕ
whole_sides filesize inpos =
    if ltb filesize inpos
    then filesize + (inpos - filesize) % fds_size
    else filesize - (filesize - inpos) % fds_size

-- `inpos<filesize && inbuf[inpos] == 0x01`
unfoldable pub has_side : List ℕ → ℕ → ℕ → Run Bool
has_side inbuf filesize inpos = elim (ltb inpos filesize) [
  | false ↦ ok false
  | true ↦ read inbuf inpos >>= λ c. ok (c == 0x01)
]

module _ {σ : Type 0} (os : Os σ) where
  -- The file, unless it cannot be opened or is larger than 0x100000.
  unfoldable pub load_file : List ℕ → Device σ → Option (List ℕ) × Device σ
  load_file filename dev =
      let r = os.load filename dev.world in
      elim r.0 [
        | none ↦ (none, moved dev r.1)
        | some bytes ↦ (if ltb 0x10_0000 (length bytes) then none else some bytes, moved dev r.1)
      ]

  pub write_bin : Option (List ℕ) → List ℕ → ℕ → Action σ
  write_bin fn bin size dev = do
    name ← pointer fn
    let created = os.create name dev.world
    elim created.0 [
      | false ↦ ok (false, moved dev created.1)
      | true ↦ do bytes ← read_range bin 0 size; ok (true, moved dev (os.save name bytes created.1))
    ]

  -- The prompt for the next side, when there is one; the result is whether to go on.
  pub ask_next : List ℕ → ℕ → ℕ → Action σ
  unfolding has_side
  ask_next inbuf filesize inpos dev = do
    more ← has_side inbuf filesize inpos
    elim more [
      | false ↦ ok (false, dev)
      | true ↦ let key = os.read_kb dev.world in ok (key.0 == 0x0d, moved dev key.1)
    ]

  -- The `do` loop of the three commands. `prepare` is what comes before the conversion, `emit` takes
  -- the image and its size. Whatever ends the loop, the command returns true.
  pub sides_loop :
      ℕ → (Device σ → Run (Device σ)) → (List ℕ → ℕ → Action σ) → List ℕ → ℕ → List ℕ → ℕ → Action σ
  unfolding ask_next
  sides_loop zero prepare emit inbuf filesize bin inpos dev = stuck
  sides_loop (suc fuel) prepare emit inbuf filesize bin inpos dev = do
    ready ← prepare dev
    led ← write_range bin 0 (replicate lead_in 0)
    converted ← fds_to_bin (drop lead_in led) (drop inpos inbuf) (disk_size - lead_in)
    elim (converted.0 == 0) [
      | true ↦ ok (true, ready)
      | false ↦ do
        let image = take lead_in led ++ converted.1
        emitted ← emit image converted.0 ready
        elim emitted.0 [
          | false ↦ ok (true, emitted.1)
          | true ↦ do
            asked ← ask_next inbuf filesize (inpos + fds_size) emitted.1
            elim asked.0 [
              | false ↦ ok (true, asked.1)
              | true ↦ sides_loop fuel prepare emit inbuf filesize image (inpos + fds_size) asked.1
            ]
        ]
    ]

  -- What the three commands share.
  pub each_side : (Device σ → Run (Device σ)) → (List ℕ → ℕ → Action σ) → List ℕ → Action σ
  unfolding load_file first_side whole_sides sides_loop
  each_side prepare emit filename dev =
      let loaded = load_file filename dev in
      elim loaded.0 [
        | none ↦ ok (false, loaded.1)
        | some inbuf ↦ do
          inpos ← first_side inbuf
          sides_loop (length inbuf + 1) prepare emit inbuf (whole_sides (length inbuf) inpos)
              (os.malloc disk_size loaded.1.world) inpos loaded.1
      ]

  pub fds_convert_disk : List ℕ → Option (List ℕ) → Action σ
  unfolding each_side write_bin
  fds_convert_disk filename out dev =
      each_side (λ d. ok d) (λ bin size d. write_bin out bin (size + lead_in) d) filename dev

  -- The array `raw` is the one of `bin_to_raw03`, which clears it first.
  pub fds_convert_disk_raw03 : List ℕ → Option (List ℕ) → Action σ
  unfolding each_side write_bin
  fds_convert_disk_raw03 filename out dev =
      let to_raw = λ (bin : List ℕ) (size : ℕ) (d : Device σ).
        (bin_to_raw03 bin (os.malloc raw_size d.world) slot_size raw_size >>= λ raw.
        write_bin out raw raw_size d) in
      each_side (λ d. ok d) to_raw filename dev

  -- The count in the header stays 0.
  pub fds_bin_to_fds : List ℕ → Option (List ℕ) → Action σ
  unfolding load_file
  fds_bin_to_fds filename out dev =
      let loaded = load_file filename dev in
      elim loaded.0 [
        | none ↦ ok (false, loaded.1)
        | some bin ↦ do
          name ← pointer out
          let created = os.create name loaded.1.world
          elim created.0 [
            | false ↦ ok (false, moved dev created.1)
            | true ↦ do
              raw ← bin_to_raw03 bin (os.malloc raw_size created.1) slot_size raw_size
              r ← raw03_to_fds raw (os.malloc fds_size created.1) raw_size
              fds ← read_range r.1 0 65500
              ok (r.0, moved dev (os.save name (fwnes_header 0 ++ fds) created.1))
          ]
      ]

  -- `if( (f=fopen(name,"wb")) )`: a file that cannot be created is passed over.
  pub try_save : List ℕ → List ℕ → ℕ → Device σ → Run (Device σ)
  try_save name buf size dev =
      let created = os.create name dev.world in
      elim created.0 [
        | false ↦ ok (moved dev created.1)
        | true ↦ read_range buf 0 size >>= λ bytes. ok (moved dev (os.save name bytes created.1))
      ]

  module _ (hid : Hid σ) where
    pub fds_write_disk : List ℕ → Action σ
    unfolding each_side
    fds_write_disk filename dev =
        let blank = λ (d : Device σ).
          (write_sram hid os.get_ticks (replicate 0x1_0000 0) 0 0x1_0000 d >>= λ cleared.
          ok cleared.1) in
        each_side blank (λ bin size d. write_image2 hid os.get_ticks bin (size + lead_in) d)
          filename dev

    -- `verify_block` starts with its static variables as 0.
    abbrev pub fresh_verifier : Verifier
    fresh_verifier = record { last = 0; last_len = 0; block_count = 0; printed = [] }

    -- What is done with the pulses: an .FDS file, else an image, else nothing.
    pub save_decoded : Option (List ℕ) → Option (List ℕ) → List ℕ → ℕ → Device σ → Run (Device σ)
    unfolding try_save
    save_decoded filename_bin filename_fds raw bytes_in dev = elim filename_fds [
      | some name ↦ do
        r ← raw03_to_fds raw (os.malloc (fds_size + 16) dev.world) bytes_in
        try_save name r.1 fds_size dev
      | none ↦ elim filename_bin [
        | none ↦ ok dev
        | some name ↦ do
          r ← raw03_to_bin raw bytes_in (os.malloc bin_size dev.world) fresh_verifier
          try_save name r.0 r.1 dev
      ]
    ]

    pub fds_read_disk : Option (List ℕ) → Option (List ℕ) → Option (List ℕ) → Action σ
    unfolding save_decoded
    fds_read_disk filename_raw filename_bin filename_fds dev = do
      taken ← read_disk_image hid os.get_ticks (os.malloc read_buf_size dev.world) dev
      elim taken.0 [
        | none ↦ ok (false, taken.2)
        | some bytes_in ↦ do
          kept ← elim filename_raw [
            | none ↦ ok taken.2
            | some name ↦ try_save name taken.1 bytes_in taken.2
          ]
          raw ← raw_to_raw03 taken.1 bytes_in
          decoded ← save_decoded filename_bin filename_fds raw bytes_in kept
          ok (true, decoded)
      ]
