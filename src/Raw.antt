-- ===== src/Raw.antt =====
-- Pulse widths ("raw03": 0, 1, 2 and 3 for anything else) and what fds.cpp makes of them.
-- A C `int` that the code sets to -1 for "not found" is an `Option`.
pub mod Gap
pub mod Classes
pub mod Encode
pub mod Pulses
pub mod Image
pub mod Step
pub mod States
pub mod Turn
pub mod Loop
pub mod Finish
pub mod Bits
pub mod AtGap
pub mod Decode
pub mod Stream
pub mod First
pub mod Onwards
pub mod Ends
pub mod Files
pub mod Rounds
pub mod Side
pub mod Recover
pub mod RoundTrip
mod Tests
use fdsstick.Base.{ℕ, zero, suc, ◌+◌, ◌-◌, ◌*◌, ◌/◌, ◌%◌, ◌^◌, bit_and, bit_or, Bool, true, false}
use fdsstick.Base.{◌&&◌, ◌||◌, List, [], ◌∷◌, Option, none, some, replicate, get_or, u8}
use fdsstick.Base.{Run, ok, fault, stuck, ◌>>=◌, read, write, push, read_range, write_range}
use fdsstick.Base.{if◌then◌else◌, ltb, leb, ◌==◌}
use fdsstick.Crc.{calc_crc}

-- `MIN_GAP_SIZE`, in bits, and `FDSSIZE`
abbrev pub min_gap_size : ℕ
min_gap_size = 0x300

abbrev pub fds_size : ℕ
fds_size = 65500

pub raw_to_raw03_byte : ℕ → ℕ
raw_to_raw03_byte raw =
    if ltb raw 0x48
    then 3
    else if ltb raw 0x70
    then 0
    else if ltb raw 0xa0
    then 1
    else if ltb raw 0xd0
    then 2
    else 3

-- The first `raw_size` bytes of the buffer, in place.
pub raw_to_raw03 : List ℕ → ℕ → Run (List ℕ)
raw_to_raw03 raw zero = ok raw
raw_to_raw03 [] (suc n) = fault
raw_to_raw03 (r ∷ raw) (suc n) = push (raw_to_raw03_byte r) (raw_to_raw03 raw n)

-- `dat` of `findFirstBlock`
abbrev pub first_block : List ℕ
first_block =
    1 ∷ 0 ∷ 1 ∷ 0 ∷ 0 ∷ 0 ∷ 0 ∷ 0 ∷ 0 ∷ 1 ∷ 2 ∷ 2 ∷ 1 ∷ 0 ∷ 1 ∷ 0 ∷ 0 ∷ 1 ∷ 1 ∷ 2 ∷ 1 ∷ 1 ∷ 1 ∷ 1
    ∷ 1 ∷ 1 ∷ 0 ∷ 0 ∷ 1 ∷ 1 ∷ 1 ∷ 0 ∷ []

-- `limit` is 0x2000*8 in the code.
pub first_block_loop : ℕ → ℕ → List ℕ → ℕ → ℕ → Run (Option ℕ)
first_block_loop zero limit raw i len = stuck
first_block_loop (suc fuel) limit raw i len = elim (ltb i limit) [
  | false ↦ ok none
  | true ↦ do
    r ← read raw i
    d ← read first_block len
    elim (r == d) [
      | true ↦ elim (len == 31) [
        | true ↦ ok (some (i - len))
        | false ↦ first_block_loop fuel limit raw (i + 1) (len + 1)
      ]
      | false ↦ first_block_loop fuel limit raw (i - len + 1) 0
    ]
]

-- Each start is tried for 32 rounds at most.
pub find_first_block : List ℕ → Run (Option ℕ)
find_first_block raw = first_block_loop (33 * 0x1_0000 + 1) 0x1_0000 raw 0 0

-- The output cursor of the decoders: the buffer, the next bit, and whether the last bit was a 1.
pub record Cursor : Type 0 where
  pub dst : List ℕ
  pub out : ℕ
  pub bitval : ℕ

-- `dst[out/8] |= 1<<(out&7)`
pub set_bit : List ℕ → ℕ → Run (List ℕ)
set_bit dst out = do v ← read dst (out / 8); write dst (out / 8) (u8 (bit_or v (2 ^ bit_and out 7)))

-- The cases 0x01 and 0x10, which 0x12 falls through to.
one_bit : List ℕ → ℕ → Run Cursor
one_bit dst out = do dst' ← set_bit dst out; ok (record { dst = dst'; out = out + 1; bitval = 1 })

-- The `switch` on `src[in]|(bitval<<4)`, with its fall-throughs.
pub decode_pulse : ℕ → Cursor → Run Cursor
unfolding one_bit
decode_pulse pulse c =
    let key = bit_or pulse (c.bitval * 2 ^ 4) in
    if key == 0x11
    then ok (record c { out = c.out + 2; bitval = 0 })
    else if key == 0x00
    then ok (record c { out = c.out + 1; bitval = 0 })
    else if key == 0x12
    then one_bit c.dst (c.out + 1)
    else if key == 0x01 || key == 0x10
    then one_bit c.dst c.out
    else ok (record c { out = c.out + 1; bitval = 0 })

-- The scan for the gap end; `none` is `return false`. `in>=srcSize-2` is compared without the
-- subtraction, which is done in `int`.
pub gap_scan : ℕ → List ℕ → ℕ → ℕ → ℕ → Run (Option ℕ)
gap_scan zero src src_size in_pos run = stuck
gap_scan (suc fuel) src src_size in_pos run = do
  c ← read src in_pos
  elim (c == 1 && leb min_gap_size run) [
    | true ↦ ok (some in_pos)
    | false ↦ elim (leb src_size (in_pos + 2)) [
      | true ↦ ok none
      | false ↦ gap_scan fuel src src_size (in_pos + 1) (if c == 0 then run + 1 else 0)
    ]
  ]

-- The decoding loop up to the bit `out_end`. `ended` is false for `return false` in it.
pub record Decoded : Type 0 where
  pub ended : Bool
  pub in_pos : ℕ
  pub cursor : Cursor

pub decode_loop : ℕ → List ℕ → ℕ → ℕ → ℕ → Cursor → Run Decoded
decode_loop zero src src_size out_end in_pos c = stuck
decode_loop (suc fuel) src src_size out_end in_pos c = elim (leb src_size in_pos) [
  | true ↦ ok (record { ended = false; in_pos = in_pos; cursor = c })
  | false ↦ do
    pulse ← read src in_pos
    c' ← decode_pulse pulse c
    elim (ltb c'.out out_end) [
      | true ↦ decode_loop fuel src src_size out_end (in_pos + 1) c'
      | false ↦ ok (record { ended = true; in_pos = in_pos + 1; cursor = c' })
    ]
]

-- What `block_decode` returns, with the buffer and the two positions that it leaves.
pub record Block : Type 0 where
  pub found : Bool
  pub dst : List ℕ
  pub in_pos : ℕ
  pub out_pos : ℕ

-- `return false`: the caller's positions are as before.
abbrev pub not_found : List ℕ → ℕ → ℕ → Block
not_found dst in_pos out_pos = record {
  found = false;
  dst = dst;
  in_pos = in_pos;
  out_pos = out_pos;
}

abbrev pub cursor_at : List ℕ → ℕ → Cursor
cursor_at dst out_pos = record { dst = dst; out = out_pos * 8; bitval = 1 }

-- A stored checksum that is wrong is only reported, after the two bytes are cleared.
pub clear_bad_crc : List ℕ → ℕ → ℕ → ℕ → Run (List ℕ)
clear_bad_crc dst out_pos block_size out = do
  covered ← read_range dst out_pos (block_size + 2)
  elim (calc_crc covered == 0) [
    | true ↦ ok dst
    | false ↦ do
      low ← read dst out
      high ← read dst (out + 1)
      low_clear ← write dst out 0
      both_clear ← write low_clear (out + 1) 0
      again ← read_range both_clear out_pos (block_size + 2)
      ok both_clear
  ]

-- From the end of the decoding loop on.
pub finish_block : List ℕ → ℕ → ℕ → ℕ → ℕ → ℕ → ℕ → Run Block
unfolding clear_bad_crc
finish_block dst in_pos in_start out_pos block_size block_type out_bit = do
  kind ← read dst out_pos
  elim (kind == block_type) [
    | false ↦ ok (not_found dst in_start out_pos)
    | true ↦ do
      let out = out_bit / 8 - 2
      checked ← clear_bad_crc dst out_pos block_size out
      low ← write checked out 0
      high ← write low (out + 1) 0
      spare ← write high (out + 2) 0
      ok (record { found = true; dst = spare; in_pos = in_pos; out_pos = out })
  ]

pub block_decode : List ℕ → List ℕ → ℕ → ℕ → ℕ → ℕ → ℕ → ℕ → Run Block
unfolding finish_block
block_decode dst src in_pos out_pos src_size dst_size block_size block_type =
    elim (ltb dst_size (out_pos + block_size + 2)) [
      | true ↦ ok (not_found dst in_pos out_pos)
      | false ↦ do
        start ← gap_scan (src_size + 1) src src_size in_pos 0
        elim start [
          | none ↦ ok (not_found dst in_pos out_pos)
          | some p ↦ do
            let out_end = (out_pos + block_size + 2) * 8
            d ← decode_loop (src_size + 1) src src_size out_end (p + 1) (cursor_at dst out_pos)
            elim d.ended [
              | false ↦ ok (not_found d.cursor.dst in_pos out_pos)
              | true ↦
                  finish_block d.cursor.dst d.in_pos in_pos out_pos block_size block_type
                    d.cursor.out
            ]
        ]
    ]

-- `1+(fds[out-16+13] | (fds[out-16+14]<<8))`: the size in the file header just decoded.
pub contents_size : List ℕ → ℕ → Run ℕ
contents_size fds out = do
  lo ← read fds (out - 16 + 13)
  hi ← read fds (out - 16 + 14)
  ok (1 + bit_or lo (hi * 2 ^ 8))

-- The loop over the files; the buffer is all that it leaves, since it always ends in `return true`.
pub files_loop : ℕ → List ℕ → List ℕ → ℕ → ℕ → ℕ → Run (List ℕ)
unfolding contents_size
files_loop zero fds raw raw_size in_pos out = stuck
files_loop (suc fuel) fds raw raw_size in_pos out = do
  header ← block_decode fds raw in_pos out raw_size (fds_size + 2) 16 3
  elim header.found [
    | false ↦ ok header.dst
    | true ↦ do
      size ← contents_size header.dst header.out_pos
      contents ←
          block_decode header.dst raw header.in_pos header.out_pos raw_size (fds_size + 2) size 4
      elim contents.found [
        | false ↦ ok contents.dst
        | true ↦ elim (ltb contents.in_pos raw_size) [
          | false ↦ ok contents.dst
          | true ↦ files_loop fuel contents.dst raw raw_size contents.in_pos contents.out_pos
        ]
      ]
  ]

-- The two blocks before the files, from the position `in_pos`.
pub decode_side : List ℕ → List ℕ → ℕ → ℕ → Run (Bool × List ℕ)
unfolding files_loop
decode_side fds raw raw_size in_pos = do
  info ← block_decode fds raw in_pos 0 raw_size (fds_size + 2) 0x38 1
  elim info.found [
    | false ↦ ok (false, info.dst)
    | true ↦ do
      amount ← block_decode info.dst raw info.in_pos info.out_pos raw_size (fds_size + 2) 2 2
      elim amount.found [
        | false ↦ ok (false, amount.dst)
        | true ↦ do
          out ← files_loop (raw_size + 1) amount.dst raw raw_size amount.in_pos amount.out_pos
          ok (true, out)
      ]
  ]

pub raw03_to_fds : List ℕ → List ℕ → ℕ → Run (Bool × List ℕ)
unfolding decode_side
raw03_to_fds raw fds raw_size = do
  cleared ← write_range fds 0 (replicate fds_size 0)
  first ← find_first_block raw
  elim first [
    | none ↦ ok (false, cleared)
    | some p ↦ elim (ltb p min_gap_size) [
      | true ↦ ok (false, cleared)
      | false ↦ decode_side cleared raw raw_size (p - min_gap_size)
    ]
  ]
