-- ===== src/Dump/Convert.antt =====
-- `raw03_to_bin` of fds.cpp: its three passes that mark the gaps, and the output.
pub mod Ends
pub mod Size
use fdsstick.Base.{ℕ, zero, suc, ◌+◌, ◌*◌, ◌/◌, ◌^◌, bit_or, Bool, true, false, ◌&&◌, ◌||◌, not}
use fdsstick.Base.{List, [], ◌∷◌, Option, none, some, replicate}
use fdsstick.Base.{Run, ok, stuck, ◌>>=◌, read, write, if◌then◌else◌, ltb, leb, ◌==◌}
use fdsstick.Raw.{set_bit, find_first_block}
use fdsstick.Dump.{mark_gap_start, crc_detect, next_gap_end}
use fdsstick.Dump.Verify.{Verifier, verify_block}

-- `BINSIZE` and the bounds of the first and the third pass.
abbrev pub bin_size : ℕ
bin_size = 0xa_0000

abbrev pub post_glitch_garbage : ℕ
post_glitch_garbage = 16

abbrev pub long_post_glitch_garbage : ℕ
long_post_glitch_garbage = 64

abbrev pub long_gap : ℕ
long_gap = 900

abbrev pub short_gap : ℕ
short_gap = 16

-- The locals of the passes.
pub record Marks : Type 0 where
  pub raw : List ℕ
  pub glitch : ℕ
  pub junk : ℕ
  pub clear : ℕ

-- The round of the first pass at `in`; `junk-glitch` is done in `int`.
pub glitch_step : ℕ → Marks → Run Marks
glitch_step in_pos m = do
  r ← read m.raw in_pos
  let clear = if r == 0 then m.clear + 1 else m.clear
  let near_glitch =
      r == 0
      && not (m.glitch == 0)
      && not (m.junk == 0)
      && ltb short_gap clear
      && ltb m.junk (m.glitch + post_glitch_garbage)
  marked ← elim near_glitch [ true ↦ mark_gap_start m.raw in_pos | false ↦ ok m.raw ]
  after ← read marked in_pos
  ok (record {
    raw = marked;
    glitch = if r == 3 then in_pos else if near_glitch then 0 else m.glitch;
    junk = if r == 3 then 0 else if r == 1 || r == 2 then in_pos else m.junk;
    clear = if after == 0 then clear else 0;
  })

-- The round of the third pass at `in`; `in-zeros-LONG_POST_GLITCH_GARBAGE` is done in `int`.
pub long_gap_step : ℕ → Marks → Run Marks
long_gap_step in_pos m = do
  r ← read m.raw in_pos
  let is_end =
      r == 1 && ltb long_gap m.clear && ltb in_pos (m.glitch + m.clear + long_post_glitch_garbage)
  marked ← elim is_end [
    | true ↦ mark_gap_start m.raw in_pos >>= λ started. write started in_pos 0xff
    | false ↦ ok m.raw
  ]
  after ← read marked in_pos
  ok (record m {
    raw = marked;
    glitch = if r == 3 then in_pos else m.glitch;
    clear = if after == 0 then (if r == 0 then m.clear + 1 else m.clear) else 0;
  })

-- A pass over the `left` pulses from `in` on.
pub mark_pass : (ℕ → Marks → Run Marks) → ℕ → ℕ → Marks → Run Marks
mark_pass step zero in_pos m = ok m
mark_pass step (suc left) in_pos m = do m' ← step in_pos m; mark_pass step left (in_pos + 1) m'

abbrev pub unmarked : List ℕ → Marks
unmarked raw = record { raw = raw; glitch = 0; junk = 0; clear = 0 }

-- The second pass.
pub crc_pass : ℕ → List ℕ → ℕ → ℕ → Run (List ℕ)
crc_pass zero raw in_pos raw_size = stuck
crc_pass (suc fuel) raw in_pos raw_size = do
  out ← crc_detect raw in_pos raw_size
  marked ← elim (out == 0) [ true ↦ ok raw | false ↦ write raw out 3 ]
  next ← next_gap_end marked (if out == 0 then in_pos else out) raw_size
  elim (ltb next raw_size) [ true ↦ crc_pass fuel marked next raw_size | false ↦ ok marked ]

-- The three passes. Where no first block is found `in` is 0 and the second pass is left out.
pub mark_gaps : List ℕ → ℕ → Run (List ℕ)
unfolding mark_pass glitch_step long_gap_step crc_pass
mark_gaps raw raw_size = do
  glitches ← mark_pass glitch_step raw_size 0 (unmarked raw)
  first ← find_first_block glitches.raw
  headed ← elim first [
    | none ↦ ok glitches.raw
    | some zero ↦ ok glitches.raw
    | some (suc p) ↦ mark_gap_start glitches.raw p
  ]
  again ← find_first_block headed
  files ← elim again [ none ↦ ok headed | some p ↦ crc_pass (raw_size + 1) headed (p + 1) raw_size ]
  gaps ← mark_pass long_gap_step raw_size 0 (unmarked files)
  ok gaps.raw

-- The locals of the output loop.
pub record Output : Type 0 where
  pub bin : List ℕ
  pub reverse : List ℕ
  pub out : ℕ
  pub bitval : ℕ
  pub last_block_start : ℕ
  pub verifier : Verifier

-- The output before the loop: `n` clear bytes, and the table and static variables given.
pub blank_output : ℕ → List ℕ → Verifier → Output
blank_output n reverse v = record {
  bin = replicate n 0;
  reverse = reverse;
  out = 0;
  bitval = 0;
  last_block_start = 0;
  verifier = v;
}

-- `case 0xff`; `(out|7)+1` is the next multiple of 8.
pub end_block : Output → Run Output
end_block o = do
  verified ← elim (o.last_block_start == 0) [
    | true ↦ ok o.verifier
    | false ↦ verify_block o.bin o.last_block_start o.reverse o.verifier
  ]
  bin ← write o.bin (o.out / 8) 0x80
  let out = (o.out / 8 + 1) * 8
  ok (record o {
    bin = bin;
    out = out;
    last_block_start = out / 8;
    bitval = 1;
    verifier = verified;
  })

-- The cases 0x01 and 0x10, which 0x12 falls through to.
pub output_one : ℕ → Output → Run Output
output_one out o =
    set_bit o.bin out >>= λ bin. ok (record o { bin = bin; out = out + 1; bitval = 1 })

pub output_pulse : ℕ → Output → Run Output
unfolding end_block output_one
output_pulse pulse o =
    let key = bit_or pulse (o.bitval * 2 ^ 4) in
    if key == 0x11
    then ok (record o { out = o.out + 2; bitval = 0 })
    else if key == 0x00
    then ok (record o { out = o.out + 1; bitval = 0 })
    else if key == 0x12
    then output_one (o.out + 1) o
    else if key == 0x01 || key == 0x10
    then output_one o.out o
    else if key == 0xff
    then end_block o
    else ok (record o { out = o.out + 1; bitval = 0 })

pub output_loop : List ℕ → ℕ → ℕ → Output → Run Output
unfolding output_pulse
output_loop raw zero in_pos o = ok o
output_loop raw (suc left) in_pos o = do
  pulse ← read raw in_pos
  o' ← output_pulse pulse o
  reverse ← write o'.reverse (o'.out / 8) in_pos
  output_loop raw left (in_pos + 1) (record o' { reverse = reverse })

-- `reverse` is what `malloc` gives; the result is the buffer, `*_binSize` and the static variables.
pub raw03_to_bin : List ℕ → ℕ → List ℕ → Verifier → Run (List ℕ × ℕ × Verifier)
unfolding mark_gaps output_loop
raw03_to_bin raw raw_size reverse v = do
  marked ← mark_gaps raw raw_size
  o ← output_loop marked raw_size 0 (blank_output bin_size reverse v)
  verified ← verify_block o.bin o.last_block_start o.reverse o.verifier
  ok (o.bin, o.out / 8 + 1, verified)
