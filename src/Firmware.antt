-- ===== src/Firmware.antt =====
-- New firmware and the loader image: `FW_writeFlash`, `DetectLoader` and `WriteLoader` of main.cpp,
-- `firmware_update` of firmware.cpp. The machine is little-endian.
pub mod Words
pub mod Checksum
pub mod Loader
pub mod Ends
mod Tests
use fdsstick.Base.{ℕ, zero, suc, ◌+◌, ◌-◌, ◌*◌, ◌/◌, ◌^◌, bit_xor, Bool, true, false, ◌&&◌}
use fdsstick.Base.{List, [], ◌∷◌, ◌++◌, Option, none, some, length, replicate}
use fdsstick.Base.{Run, ok, fault, stuck, ◌>>=◌, read, ltb, ◌==◌, u8, if◌then◌else◌}
use fdsstick.Device.{Hid, Device, update_firmware}
use fdsstick.Spi.{Action, write_flash, write_flash2}
use fdsstick.Open.{Bus, Adapter, dev_open}
use fdsstick.Os.{Os, moved}
use fdsstick.Disks.{load_file}
use fdsstick.Slots.{fds_write_flash}

-- `buf32[i]` for each word of the bytes.
pub words : List ℕ → List ℕ
words (a ∷ b ∷ c ∷ d ∷ buf) = (a + b * 2 ^ 8 + c * 2 ^ 16 + d * 2 ^ 24) ∷ words buf
words buf = []

-- `buf32[i] = v`
abbrev pub word_bytes : ℕ → List ℕ
word_bytes v = u8 v ∷ u8 (v / 2 ^ 8) ∷ u8 (v / 2 ^ 16) ∷ u8 (v / 2 ^ 24) ∷ []

-- The loop over the words of the sum.
pub xor_words : ℕ → List ℕ → ℕ
xor_words chksum [] = chksum
xor_words chksum (w ∷ ws) = xor_words (bit_xor chksum w) ws

-- The image of 0x8000 bytes: the file, zeros, 0xDEADBEEF and the sum of all words before it.
pub firmware_image : List ℕ → List ℕ
unfolding words xor_words
firmware_image file =
    let summed = file ++ (replicate (0x8000 - 8 - length file) 0 ++ word_bytes 0xdead_beef) in
    summed ++ word_bytes (xor_words 0 (words summed))

-- `loaderid`
abbrev pub loader_id : List ℕ
loader_id =
    0x5d ∷ 0x7c ∷ 0x3c ∷ 0x3d ∷ 0x2d ∷ 0x2d ∷ 0x4c ∷ 0x4f ∷ 0x41 ∷ 0x44 ∷ 0x45 ∷ 0x52 ∷ 0x2e ∷ 0x46
    ∷ 0x44 ∷ 0x53 ∷ 0x2d ∷ 0x2d ∷ 0x3d ∷ 0x3e ∷ 0x7c ∷ 0x5b ∷ []

-- The inner loop, on what is left of `loaderid`: `byte` is compared and the next one is read, `count`
-- bytes behind `pos`. At the end of `loaderid`, `count` is its length.
pub match_loader : List ℕ → List ℕ → ℕ → ℕ → Run Bool
match_loader [] buf byte at = ok true
match_loader (c ∷ id) buf byte at = elim (byte == c) [
  | false ↦ ok false
  | true ↦ read buf at >>= λ next. match_loader id buf next (at + 1)
]

-- The `left` positions from `pos` on; the version of the loader that is found.
pub detect_from : ℕ → List ℕ → ℕ → Run (Option ℕ)
unfolding match_loader
detect_from zero buf pos = ok none
detect_from (suc left) buf pos = do
  byte ← read buf pos
  elim (byte == 0x5d) [
    | false ↦ detect_from left buf (pos + 1)
    | true ↦ do
      matched ← match_loader loader_id buf byte (pos + 1)
      elim matched [
        | false ↦ detect_from left buf (pos + 1)
        | true ↦ read buf (pos + 1 + length loader_id) >>= λ version. ok (some version)
      ]
  ]

pub detect_loader : List ℕ → Run (Option ℕ)
unfolding detect_from
detect_loader buf = detect_from 65500 buf 0

module _ {σ : Type 0} (os : Os σ) (hid : Hid σ) (rounds : ℕ) where
  pub write_loader : List ℕ → Action σ
  unfolding detect_loader
  write_loader fn dev =
      let loaded = load_file os fn dev in
      elim loaded.0 [
        | none ↦ ok (false, loaded.1)
        | some buf ↦ do
          found ← detect_loader buf
          elim found [
            | none ↦ ok (false, loaded.1)
            | some version ↦ fds_write_flash os hid rounds fn 0 loaded.1
          ]
      ]

  module _ (bus : Bus σ) where
    -- The restart of the adapter after the firmware is in place.
    pub restart : ℕ → Adapter σ → Run (Bool × Adapter σ)
    restart wait a = do
      started ← update_firmware hid a.device
      let slept = moved started.1 (os.sleep_ms wait started.1.world)
      dev_open bus hid os.get_ticks (record a { device = slept })

    pub fw_write_flash : List ℕ → Adapter σ → Run (Bool × Adapter σ)
    unfolding firmware_image restart
    fw_write_flash filename a =
        let r = os.load filename a.device.world in
        let opened = record a { device = moved a.device r.1 } in
        elim r.0 [
          | none ↦ ok (false, opened)
          | some file ↦ elim (ltb (0x8000 - 8) (length file)) [
            | true ↦ ok (false, opened)
            | false ↦ do
              written ←
                  write_flash2 hid os.get_ticks rounds (firmware_image file) 0x8000 0x8000
                    opened.device
              let sent = record a { device = written.1 }
              elim written.0 [ false ↦ ok (false, sent) | true ↦ restart 5000 sent ]
          ]
        ]

    -- `firmware` is the table of firmware.inc; its byte 5 is its version.
    pub firmware_update : List ℕ → Adapter σ → Run (Bool × Adapter σ)
    unfolding restart
    firmware_update firmware a = do
      version ← read firmware 5
      elim (ltb a.fw_version version) [
        | false ↦ ok (true, a)
        | true ↦ do
          written ←
              write_flash hid os.get_ticks rounds firmware 0xff_0000 (length firmware) a.device
          let sent = record a { device = written.1 }
          elim written.0 [
            | false ↦ ok (false, sent)
            | true ↦ do
              opened ← restart 2000 sent
              elim opened.0 [
                | false ↦ ok (false, opened.1)
                | true ↦ ok (if ltb opened.1.fw_version version then false else true, opened.1)
              ]
          ]
      ]
