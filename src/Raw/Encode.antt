-- ===== src/Raw/Encode.antt =====
-- `bin_to_raw03` of fds.cpp: the pulses of a disk image.
pub mod Bit
pub mod Lay
pub mod Ends
use fdsstick.Base.{ℕ, zero, suc, ◌+◌, ◌-◌, ◌*◌, ◌/◌, ◌%◌, ◌^◌, bit_and, bit_or, ◌||◌, List, [], ◌∷◌}
use fdsstick.Base.{replicate, u8, Run, ok, fault, ◌>>=◌, read, write, write_range, true, false}
use fdsstick.Base.{if◌then◌else◌, ltb, ◌==◌}

-- `raw[i] += k` on bytes
pub bump : List ℕ → ℕ → ℕ → Run (List ℕ)
bump raw i k = do v ← read raw i; write raw i (u8 (v + k))

-- `bit = (bit << 7) | (1 & (data >> (in & 7)))`, in a `uint8_t`: the last two bits read.
pub next_bits : ℕ → ℕ → ℕ → ℕ
next_bits bits byte k = u8 (bit_or (bits * 2 ^ 7) (bit_and 1 (byte / 2 ^ k)))

pub record Encoder : Type 0 where
  pub raw : List ℕ
  pub out : ℕ
  pub bits : ℕ

-- The `switch`.
pub encode_bits : ℕ → List ℕ → ℕ → Run Encoder
unfolding bump
encode_bits bits raw out =
    if bits == 0x00
    then (do raw' ← bump raw (out + 1) 1; ok (record { raw = raw'; out = out + 1; bits = bits }))
    else if bits == 0x01 || bits == 0x81
    then (do raw' ← bump raw out 1; ok (record { raw = raw'; out = out + 1; bits = bits }))
    else if bits == 0x80
    then (do raw' ← bump raw out 2; ok (record { raw = raw'; out = out; bits = bits }))
    else ok (record { raw = raw; out = out; bits = bits })

-- The bits `k` to 7 of a byte; `left` is 8 - k.
pub encode_byte : ℕ → ℕ → ℕ → Encoder → Run Encoder
encode_byte zero k byte s = ok s
encode_byte (suc left) k byte s = do
  s' ← encode_bits (next_bits s.bits byte k) s.raw s.out
  encode_byte left (k + 1) byte s'

-- The loop over `in`, a byte at a time: `bin` is at the next byte, and `n` bytes are left.
pub encode_bytes : ℕ → List ℕ → Encoder → Run Encoder
encode_bytes zero bin s = ok s
encode_bytes (suc n) [] s = fault
encode_bytes (suc n) (byte ∷ bin) s = do s' ← encode_byte 8 0 byte s; encode_bytes n bin s'

-- The last `memset`. An `out` behind the end would be a size beyond any buffer.
pub fill_undefined : ℕ → Encoder → Run (List ℕ)
fill_undefined raw_size s = elim (ltb raw_size s.out) [
  | true ↦ fault
  | false ↦ write_range s.raw s.out (replicate (raw_size - s.out) 3)
]

pub bin_to_raw03 : List ℕ → List ℕ → ℕ → ℕ → Run (List ℕ)
bin_to_raw03 bin raw bin_size raw_size = do
  fresh ← write_range raw 0 (replicate raw_size 0xff)
  s ← encode_bytes bin_size bin (record { raw = fresh; out = 0; bits = 1 })
  fill_undefined raw_size s
