-- ===== src/Dump/Convert/Size.antt =====
-- The size that `raw03_to_bin` reports lies inside its buffer.
use fdsstick.Base.{
  ℕ, zero, suc, ◌+◌, ◌*◌, ◌/◌, ◌^◌, ◌≤◌, ◌<◌, ◌≡◌, refl, ◌∙◌, arith, ◌||◌, bit_or, List, length,
  length-replicate,
}
use fdsstick.Base.{read, write, Ensures, >>=-Ensures, Ensures-mono, ◌==◌}
use fdsstick.Base.Access.{read-Ensures, write-Ensures, branch-Ensures, if-Ensures}
use fdsstick.Raw.{set_bit}
use fdsstick.Raw.Image.{set_bit-Ensures}
use fdsstick.Dump.Verify.{Verifier, verify_block, verify_block-Ends}
use fdsstick.Dump.Convert.{
  Output, end_block, output_one, output_pulse, output_loop, raw03_to_bin, bin_size, mark_gaps,
  blank_output,
}
use fdsstick.Dump.Convert.Ends.{mark_gaps-Ends}

-- The buffers have kept their sizes.
abbrev Keeps : Output → Output → Type 0
Keeps o o' = (length o'.bin ≡ length o.bin) × (length o'.reverse ≡ length o.reverse)

end_block-Ensures : (o : Output) → Ensures (Keeps o) (end_block o)
unfolding end_block
end_block-Ensures o =
    >>=-Ensures (λ v. Unit {0}) (Keeps o) _ _
      (branch-Ensures (λ v. Unit {0}) (o.last_block_start == 0) _ _ (λ e. tt)
        λ e. verify_block-Ends o.bin o.last_block_start o.reverse o.verifier)
      λ verified t.
        >>=-Ensures _ (Keeps o) (write o.bin (o.out / 8) 0x80) _
          (write-Ensures o.bin (o.out / 8) 0x80) λ bin h. (h.0, refl)

output_one-Ensures : (out : ℕ) (o : Output) → Ensures (Keeps o) (output_one out o)
unfolding output_one
output_one-Ensures out o =
    >>=-Ensures _ (Keeps o) (set_bit o.bin out) _ (set_bit-Ensures o.bin out) λ bin h. (h, refl)

output_pulse-Ensures : (pulse : ℕ) (o : Output) → Ensures (Keeps o) (output_pulse pulse o)
unfolding output_pulse
output_pulse-Ensures pulse o =
    let key = bit_or pulse (o.bitval * 2 ^ 4) in
    if-Ensures (Keeps o) (key == 0x11) _ _ (λ e. (refl, refl))
      λ e.
        if-Ensures (Keeps o) (key == 0x00) _ _ (λ e. (refl, refl))
          λ e.
            if-Ensures (Keeps o) (key == 0x12) _ _ (λ e. output_one-Ensures (o.out + 1) o)
              λ e.
                if-Ensures (Keeps o) (key == 0x01 || key == 0x10) _ _
                  (λ e. output_one-Ensures o.out o)
                  λ e.
                    if-Ensures (Keeps o) (key == 0xff) _ _ (λ e. end_block-Ensures o)
                      λ e. (refl, refl)

-- Where the loop ends: at the first bit, or in a byte that `reverse` has.
abbrev IsInside : Output → Output → Type 0
IsInside o o' = Keeps o o' × (o'.out / 8 < length o.reverse)

output_loop-Ensures :
    (raw : List ℕ) (left in_pos : ℕ) (o : Output)
    → o.out / 8 < length o.reverse
    → Ensures (IsInside o) (output_loop raw left in_pos o)
unfolding output_loop
output_loop-Ensures raw zero in_pos o h = ((refl, refl), h)
output_loop-Ensures raw (suc left) in_pos o h =
    >>=-Ensures _ (IsInside o) (read raw in_pos) _ (read-Ensures raw in_pos) λ pulse hp.
      >>=-Ensures (Keeps o) (IsInside o) (output_pulse pulse o) _ (output_pulse-Ensures pulse o)
        λ o' k.
          >>=-Ensures _ (IsInside o) (write o'.reverse (o'.out / 8) in_pos) _
            (write-Ensures o'.reverse (o'.out / 8) in_pos)
            λ reverse w.
              Ensures-mono (IsInside (record o' { reverse = reverse })) (IsInside o) _
                (output_loop-Ensures raw left (in_pos + 1) (record o' { reverse = reverse })
                  (omega (arith, w.0, w.1)))
                λ o'' i. ((i.0.0 ∙ k.0, i.0.1 ∙ w.0 ∙ k.1), omega (arith, i.1, w.0, k.1))

-- Where the loop starts.
blank_output_lem :
    (n : ℕ) (reverse : List ℕ) (v : Verifier)
    → let o = blank_output n reverse v in
      (length o.bin ≡ n) × (length o.reverse ≡ length reverse) × (o.out / 8 ≡ 0)
unfolding blank_output
blank_output_lem n reverse v = (length-replicate {0} n 0, refl, refl)

abbrev pub HasSize : List ℕ × ℕ × Verifier → Type 0
HasSize r = (length r.0 ≡ bin_size) × (1 ≤ r.1) × (r.1 ≤ bin_size)

-- On any pulses, `raw03_to_bin` ends. If it makes no access outside its buffers, with a table of
-- BINSIZE numbers it leaves a buffer of BINSIZE bytes, and the size that it reports is 1 or more
-- and at most BINSIZE.
pub raw03_to_bin-Ensures :
    (raw : List ℕ) (raw_size : ℕ) (reverse : List ℕ) (v : Verifier)
    → length reverse ≡ bin_size
    → Ensures HasSize (raw03_to_bin raw raw_size reverse v)
unfolding raw03_to_bin
raw03_to_bin-Ensures raw raw_size reverse v hr =
    let o = blank_output bin_size reverse v in
    let start = blank_output_lem bin_size reverse v in
    >>=-Ensures (λ m. Unit {0}) HasSize (mark_gaps raw raw_size) _ (mark_gaps-Ends raw raw_size)
      λ marked t.
        >>=-Ensures (IsInside o) HasSize (output_loop marked raw_size 0 o) _
          (output_loop-Ensures marked raw_size 0 o (omega (arith, hr, start.1, start.2)))
          λ o' i.
            >>=-Ensures (λ m. Unit {0}) HasSize
              (verify_block o'.bin o'.last_block_start o'.reverse o'.verifier) _
              (verify_block-Ends o'.bin o'.last_block_start o'.reverse o'.verifier)
              λ verified t'. (i.0.0 ∙ start.0, omega arith, omega (arith, i.1, hr, start.1))
