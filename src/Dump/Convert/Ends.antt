-- ===== src/Dump/Convert/Ends.antt =====
-- The three passes of `raw03_to_bin` end on any pulses.
use fdsstick.Base.{ltb→lt}
use fdsstick.Base.{
  ℕ, zero, suc, ◌+◌, ◌≤◌, ◌<◌, ◌≡◌, arith, inl, inr, false, ◌&&◌, not, List, Option, none, some,
}
use fdsstick.Base.{Run, ok, read, >>=-Ensures, ltb, ◌==◌, if◌then◌else◌}
use fdsstick.Base.Access.{branch-Ensures}
use fdsstick.Base.Ends.{Ends, bind-Ends, read-Ends, write-Ends, ensured}
use fdsstick.Raw.First.{find_first_block-Ends}
use fdsstick.Dump.{mark_gap_start, crc_detect, next_gap_end}
use fdsstick.Dump.Convert.{
  Marks, glitch_step, long_gap_step, mark_pass, crc_pass, unmarked, mark_gaps, short_gap,
  post_glitch_garbage, long_gap, long_post_glitch_garbage,
}
use fdsstick.Dump.Edges.{
  crc_detect-Ensures, mark_gap_start-Ensures, next_gap_end-Ensures, IsFileEnd,
}

mark_gap_start-Ends : (raw : List ℕ) (end : ℕ) → Ends (mark_gap_start raw end)
mark_gap_start-Ends raw end = ensured _ _ (mark_gap_start-Ensures raw end)

glitch_step-Ends : (in_pos : ℕ) (m : Marks) → Ends (glitch_step in_pos m)
unfolding glitch_step
glitch_step-Ends in_pos m = bind-Ends (read m.raw in_pos) _ (read-Ends m.raw in_pos) λ r.
    bind-Ends _ _
      (branch-Ensures (λ (ys : List ℕ). Unit {0})
        (r == 0
          && not (m.glitch == 0)
          && not (m.junk == 0)
          && ltb short_gap (if r == 0 then m.clear + 1 else m.clear)
          && ltb m.junk (m.glitch + post_glitch_garbage))
        (mark_gap_start m.raw in_pos) (ok m.raw) (λ e. mark_gap_start-Ends m.raw in_pos) (λ e. tt))
      λ marked. bind-Ends (read marked in_pos) _ (read-Ends marked in_pos) λ after. tt

long_gap_step-Ends : (in_pos : ℕ) (m : Marks) → Ends (long_gap_step in_pos m)
unfolding long_gap_step
long_gap_step-Ends in_pos m = bind-Ends (read m.raw in_pos) _ (read-Ends m.raw in_pos) λ r.
    bind-Ends _ _
      (branch-Ensures (λ (ys : List ℕ). Unit {0})
        (r == 1
          && ltb long_gap m.clear
          && ltb in_pos (m.glitch + m.clear + long_post_glitch_garbage))
        _ (ok m.raw)
        (λ e.
          bind-Ends _ _ (mark_gap_start-Ends m.raw in_pos)
            λ started. write-Ends started in_pos 0xff)
        (λ e. tt))
      λ marked. bind-Ends (read marked in_pos) _ (read-Ends marked in_pos) λ after. tt

mark_pass-Ends :
    (step : ℕ → Marks → Run Marks) (left in_pos : ℕ) (m : Marks)
    → ((i : ℕ) (n : Marks) → Ends (step i n))
    → Ends (mark_pass step left in_pos m)
unfolding mark_pass
mark_pass-Ends step zero in_pos m h = tt
mark_pass-Ends step (suc left) in_pos m h =
    bind-Ends _ _ (h in_pos m) λ m'. mark_pass-Ends step left (in_pos + 1) m' h

-- Where the scan for the next gap starts.
from :
    (in_pos raw_size out : ℕ)
    → IsFileEnd in_pos raw_size out
    → in_pos ≤ (if out == 0 then in_pos else out)
from in_pos raw_size out (inl z) = rw z (omega arith)
from in_pos raw_size out (inr h) = rw (known out (omega (arith, h.0))) (omega (arith, h.0))
  where
    known : (n : ℕ) → 0 < n → (n == 0) ≡ false
    known n k = ground arith

crc_pass-Ends :
    (fuel : ℕ) (raw : List ℕ) (in_pos raw_size : ℕ)
    → 0 < fuel
    → raw_size < in_pos + fuel
    → Ends (crc_pass fuel raw in_pos raw_size)
unfolding crc_pass
crc_pass-Ends zero raw in_pos raw_size h0 hf = absurd (omega arith)
crc_pass-Ends (suc fuel) raw in_pos raw_size h0 hf =
    >>=-Ensures _ _ (crc_detect raw in_pos raw_size) _ (crc_detect-Ensures raw in_pos raw_size)
      λ out ho.
        bind-Ends _ _ (branch-Ensures _ (out == 0) _ _ (λ e. tt) (λ e. write-Ends raw out 3))
          λ marked.
            >>=-Ensures _ _ (next_gap_end marked (if out == 0 then in_pos else out) raw_size) _
              (next_gap_end-Ensures marked (if out == 0 then in_pos else out) raw_size)
              λ next hn.
                branch-Ensures _ (ltb next raw_size) _ _
                  (λ low.
                    let start = from in_pos raw_size out ho in
                    let inside = ltb→lt next raw_size low in
                    let on = hn.0 in
                    crc_pass-Ends fuel marked next raw_size (omega arith) (omega arith))
                  (λ over. tt)

pub mark_gaps-Ends : (raw : List ℕ) (raw_size : ℕ) → Ends (mark_gaps raw raw_size)
unfolding mark_gaps
mark_gaps-Ends raw raw_size =
    bind-Ends _ _ (mark_pass-Ends glitch_step raw_size 0 (unmarked raw) glitch_step-Ends)
      λ glitches. bind-Ends _ _ (find_first_block-Ends glitches.raw) λ first.
        bind-Ends _ _ (headed glitches.raw first) λ marked.
          bind-Ends _ _ (find_first_block-Ends marked) λ again.
            bind-Ends _ _ (files marked again) λ closed.
              bind-Ends _ _
                (mark_pass-Ends long_gap_step raw_size 0 (unmarked closed) long_gap_step-Ends)
                λ gaps. tt
  where
    headed :
        (r : List ℕ) (first : Option ℕ)
        → Ends (elim first [ none ↦ ok r | some zero ↦ ok r | some (suc p) ↦ mark_gap_start r p ])
    headed r none = tt
    headed r (some zero) = tt
    headed r (some (suc p)) = mark_gap_start-Ends r p

    files :
        (r : List ℕ) (again : Option ℕ)
        → Ends (elim again [ none ↦ ok r | some p ↦ crc_pass (raw_size + 1) r (p + 1) raw_size ])
    files r none = tt
    files r (some p) = crc_pass-Ends (raw_size + 1) r (p + 1) raw_size (omega arith) (omega arith)
