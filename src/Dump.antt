-- ===== src/Dump.antt =====
-- A disk image from pulses whatever the disk holds: what `raw03_to_bin` of fds.cpp calls to find the
-- ends of the files and of the gaps. A C `zeros` is a `clear` here.
pub mod Verify
pub mod Convert
pub mod Edges
pub mod Gaps
mod Tests
use fdsstick.Base.{
  ℕ, zero, suc, ◌+◌, ◌-◌, ◌*◌, ◌/◌, ◌%◌, ◌^◌, bit_and, bit_or, bit_xor, Bool, true, false, ◌&&◌,
  ◌||◌, not,
}
use fdsstick.Base.{List, [], ◌∷◌, Option, none, some, replicate, length, u8}
use fdsstick.Base.{
  Run, ok, stuck, ◌>>=◌, read, write, write_range, read_range, if◌then◌else◌, ltb, leb, ◌==◌,
}
use fdsstick.Crc.{calc_crc}
use fdsstick.Raw.{set_bit, find_first_block}

-- `MIN_GAP` and `MAX_GAP`, in pulses.
abbrev pub min_gap : ℕ
min_gap = 976 - 100

abbrev pub max_gap : ℕ
max_gap = 976 + 100

-- `limit` is `start+MAX_GAP`. At the loop's end `in>=rawSize` is returned.
pub file_end_loop : ℕ → List ℕ → ℕ → ℕ → ℕ → ℕ → Run Bool
file_end_loop zero raw limit raw_size in_pos clear = stuck
file_end_loop (suc fuel) raw limit raw_size in_pos clear =
    elim (ltb in_pos limit && ltb in_pos raw_size) [
      | false ↦ ok (leb raw_size in_pos)
      | true ↦ do
        r ← read raw in_pos
        elim (r == 1 && ltb min_gap clear) [
          | true ↦ ok true
          | false ↦
              file_end_loop fuel raw limit raw_size (in_pos + 1) (if r == 0 then clear + 1 else 0)
        ]
    ]

pub looks_like_file_end : List ℕ → ℕ → ℕ → Run Bool
unfolding file_end_loop
looks_like_file_end raw start raw_size =
    file_end_loop (max_gap + 1) raw (start + max_gap) raw_size start 0

-- The static variables of `crc_detect`.
pub record Detector : Type 0 where
  pub crc : ℕ
  pub bitval : ℕ
  pub out : ℕ
  pub match : Bool

-- `f.shift(bit)`
pub shift : ℕ → Detector → Detector
shift bit d =
    let filled = bit_or d.crc (bit * 2 ^ 16) in
    let crc = (if bit_and filled 1 == 1 then bit_xor filled 0x10810 else filled) / 2 in
    record {
      crc = crc;
      bitval = bit;
      out = d.out + 1;
      match = if crc == 0 && bit_and (d.out + 1) 7 == 0 then true else d.match;
    }

-- The `switch`; `none` is `return 0`.
pub detect_pulse : ℕ → Detector → Option Detector
unfolding shift
detect_pulse pulse d =
    let key = bit_or pulse (d.bitval * 2 ^ 4) in
    if key == 0x11
    then some (shift 0 (shift 0 d))
    else if key == 0x00
    then some (shift 0 d)
    else if key == 0x12
    then some (shift 1 (shift 0 d))
    else if key == 0x01 || key == 0x10
    then some (shift 1 d)
    else none

pub detect_loop : ℕ → List ℕ → ℕ → ℕ → Detector → Run ℕ
unfolding detect_pulse looks_like_file_end
detect_loop zero raw in_pos raw_size d = stuck
detect_loop (suc fuel) raw in_pos raw_size d = do
  pulse ← read raw in_pos
  elim (detect_pulse pulse (record d { match = false })) [
    | none ↦ ok 0
    | some d' ↦ elim (ltb (in_pos + 1) raw_size) [
      | false ↦ ok (if d'.match then in_pos + 1 else 0)
      | true ↦ elim d'.match [
        | false ↦ detect_loop fuel raw (in_pos + 1) raw_size d'
        | true ↦ do
          end ← looks_like_file_end raw (in_pos + 1) raw_size
          elim end [
            | true ↦ ok (in_pos + 1)
            | false ↦ detect_loop fuel raw (in_pos + 1) raw_size d'
          ]
      ]
    ]
  ]

pub crc_detect : List ℕ → ℕ → ℕ → Run ℕ
unfolding detect_loop
crc_detect raw in_pos raw_size =
    detect_loop (raw_size + 1) raw in_pos raw_size
      (record { crc = 0x8000; bitval = 1; out = 0; match = false })

-- The loop back from `i-1`; the result is the `i+1` that it ends with.
pub gap_start : List ℕ → ℕ → Run ℕ
gap_start raw zero = ok 0
gap_start raw (suc i) = do
  r ← read raw i
  elim (r == 0) [ true ↦ gap_start raw i | false ↦ ok (suc i) ]

pub mark_gap_start : List ℕ → ℕ → Run (List ℕ)
unfolding gap_start
mark_gap_start raw gap_end = do start ← gap_start raw gap_end; write raw start 3

-- `raw[in]` is read before `in<rawSize` is tested.
pub gap_end_loop : ℕ → List ℕ → ℕ → ℕ → ℕ → Run ℕ
gap_end_loop zero raw in_pos raw_size clear = stuck
gap_end_loop (suc fuel) raw in_pos raw_size clear = do
  r ← read raw in_pos
  elim (not (r == 1) || ltb clear min_gap) [
    | false ↦ ok (in_pos + 1)
    | true ↦ elim (ltb in_pos raw_size) [
      | false ↦ ok (in_pos + 1)
      | true ↦ gap_end_loop fuel raw (in_pos + 1) raw_size (if r == 0 then clear + 1 else 0)
    ]
  ]

pub next_gap_end : List ℕ → ℕ → ℕ → Run ℕ
unfolding gap_end_loop
next_gap_end raw in_pos raw_size = gap_end_loop (raw_size + 2) raw in_pos raw_size 0
