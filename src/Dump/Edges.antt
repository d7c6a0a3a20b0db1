-- ===== src/Dump/Edges.antt =====
-- Where a file and a gap end: the loops of fds.cpp that look for it end, at a place that fits.
use fdsstick.Base.{ltb→lt}
use fdsstick.Base.{
  ℕ, zero, suc, ◌+◌, ◌≤◌, ◌<◌, ◌≡◌, refl, arith, ◌⊎◌, inl, inr, Bool, true, false, ◌&&◌, ◌||◌, not,
}
use fdsstick.Base.{List, length}
use fdsstick.Base.{read, Ensures, >>=-Ensures, Ensures-mono, ltb, ◌==◌, if◌then◌else◌}
use fdsstick.Base.Access.{read-Ensures, write-Ensures, branch-Ensures, option-Ensures}
use fdsstick.Base.Ends.{Ends, bind-Ends, read-Ends}
use fdsstick.Dump.{
  file_end_loop, looks_like_file_end, max_gap, min_gap, Detector, detect_pulse, detect_loop,
  crc_detect, gap_start, mark_gap_start, gap_end_loop, next_gap_end,
}

pub &&-left : (a b : Bool) → (a && b) ≡ true → a ≡ true
&&-left true b h = refl
&&-left false b h = h

pub &&-right : (a b : Bool) → (a && b) ≡ true → b ≡ true
&&-right true b h = h
&&-right false b h = absurd (ground arith)

-- The loop ends when the fuel passes the limit.
file_end_loop-Ends :
    (fuel : ℕ) (raw : List ℕ) (limit raw_size in_pos clear : ℕ)
    → in_pos ≤ limit
    → limit < in_pos + fuel
    → Ends (file_end_loop fuel raw limit raw_size in_pos clear)
unfolding file_end_loop
file_end_loop-Ends zero raw limit raw_size in_pos clear hi hf = absurd (omega arith)
file_end_loop-Ends (suc fuel) raw limit raw_size in_pos clear hi hf =
    branch-Ensures _ (ltb in_pos limit && ltb in_pos raw_size) _ _
      (λ inside.
        let low = ltb→lt in_pos limit (&&-left (ltb in_pos limit) (ltb in_pos raw_size) inside) in
        bind-Ends (read raw in_pos) _ (read-Ends raw in_pos) λ r.
          branch-Ensures _ (r == 1 && ltb min_gap clear) _ _ (λ e. tt)
            λ e.
              file_end_loop-Ends fuel raw limit raw_size (in_pos + 1) _ (omega (arith, low))
                (omega arith))
      (λ over. tt)

looks_like_file_end-Ends :
    (raw : List ℕ) (start raw_size : ℕ) → Ends (looks_like_file_end raw start raw_size)
unfolding looks_like_file_end
looks_like_file_end-Ends raw start raw_size =
    file_end_loop-Ends (max_gap + 1) raw (start + max_gap) raw_size start 0 (omega arith)
      (omega arith)

-- Where a file ends: nowhere, or behind its start and inside the pulses that it starts in.
abbrev pub IsFileEnd : ℕ → ℕ → ℕ → Type 0
IsFileEnd in_pos raw_size out = (out ≡ 0) ⊎ ((in_pos < out) × (in_pos < raw_size → out ≤ raw_size))

IsFileEnd-back :
    (in_pos raw_size out : ℕ)
    → in_pos + 1 < raw_size
    → IsFileEnd (in_pos + 1) raw_size out
    → IsFileEnd in_pos raw_size out
IsFileEnd-back in_pos raw_size out h (inl z) = inl z
IsFileEnd-back in_pos raw_size out h (inr k) =
    let inside = k.1 h in inr (omega arith, λ low. inside)

detect_loop-Ensures :
    (fuel : ℕ) (raw : List ℕ) (in_pos raw_size : ℕ) (d : Detector)
    → 0 < fuel
    → raw_size ≤ in_pos + fuel
    → Ensures (IsFileEnd in_pos raw_size) (detect_loop fuel raw in_pos raw_size d)
unfolding detect_loop
detect_loop-Ensures zero raw in_pos raw_size d hi hf = absurd (omega arith)
detect_loop-Ensures (suc fuel) raw in_pos raw_size d hi hf =
    let again = λ (d' : Detector) (h : in_pos + 1 < raw_size).
      Ensures-mono (IsFileEnd (in_pos + 1) raw_size) (IsFileEnd in_pos raw_size) _
        (detect_loop-Ensures fuel raw (in_pos + 1) raw_size d' (omega arith) (omega arith))
        (λ out k. IsFileEnd-back in_pos raw_size out h k) in
    >>=-Ensures _ _ (read raw in_pos) _ (read-Ensures raw in_pos) λ pulse h.
      option-Ensures _ (detect_pulse pulse (record d { match = false })) _ _ (λ e. inl refl)
        λ d' e.
          branch-Ensures _ (ltb (in_pos + 1) raw_size) _ _
            (λ low.
              let inside = ltb→lt (in_pos + 1) raw_size low in
              branch-Ensures _ d'.match _ _
                (λ m.
                  >>=-Ensures (λ b. Unit {0}) _ _ _
                    (looks_like_file_end-Ends raw (in_pos + 1) raw_size)
                    λ end t.
                      branch-Ensures _ end _ _ (λ e. inr (omega arith, λ low. omega arith))
                        λ e. again d' inside)
                (λ m. again d' inside))
            (λ over. at_end d'.match)
  where
    at_end : (b : Bool) → IsFileEnd in_pos raw_size (if b then in_pos + 1 else 0)
    at_end true = inr (omega arith, λ low. omega arith)
    at_end false = inl refl

-- `crc_detect` ends on any pulses. If it reads no pulse outside the buffer, it returns 0 or a
-- position behind its start, which lies inside the pulses when the start does.
pub crc_detect-Ensures :
    (raw : List ℕ) (in_pos raw_size : ℕ)
    → Ensures (IsFileEnd in_pos raw_size) (crc_detect raw in_pos raw_size)
unfolding crc_detect
crc_detect-Ensures raw in_pos raw_size =
    detect_loop-Ensures (raw_size + 1) raw in_pos raw_size _ (omega arith) (omega arith)

gap_start-Ensures : (raw : List ℕ) (end : ℕ) → Ensures (λ s. s ≤ end) (gap_start raw end)
unfolding gap_start
gap_start-Ensures raw zero = omega arith
gap_start-Ensures raw (suc i) = >>=-Ensures _ _ (read raw i) _ (read-Ensures raw i) λ r h.
    branch-Ensures (λ s. s ≤ suc i) (r == 0) _ _
      (λ e.
        Ensures-mono (λ s. s ≤ i) (λ s. s ≤ suc i) _ (gap_start-Ensures raw i) (λ s k. omega arith))
      (λ e. omega arith)

pub mark_gap_start-Ensures :
    (raw : List ℕ) (end : ℕ) → Ensures (λ ys. length ys ≡ length raw) (mark_gap_start raw end)
unfolding mark_gap_start
mark_gap_start-Ensures raw end =
    >>=-Ensures _ (λ ys. length ys ≡ length raw) (gap_start raw end) _ (gap_start-Ensures raw end)
      λ start h.
        Ensures-mono _ (λ ys. length ys ≡ length raw) _ (write-Ensures raw start 3) (λ ys k. k.0)

-- The scan goes on, and not far behind the pulses.
abbrev pub Moves : ℕ → ℕ → ℕ → Type 0
Moves in_pos raw_size next = (in_pos < next) × (in_pos ≤ raw_size → next ≤ raw_size + 1)

gap_end_loop-Ensures :
    (fuel : ℕ) (raw : List ℕ) (in_pos raw_size clear : ℕ)
    → raw_size < in_pos + fuel
    → 0 < fuel
    → Ensures (Moves in_pos raw_size) (gap_end_loop fuel raw in_pos raw_size clear)
unfolding gap_end_loop
gap_end_loop-Ensures zero raw in_pos raw_size clear hf hi = absurd (omega arith)
gap_end_loop-Ensures (suc fuel) raw in_pos raw_size clear hf hi =
    >>=-Ensures _ _ (read raw in_pos) _ (read-Ensures raw in_pos) λ r h.
      branch-Ensures (Moves in_pos raw_size) (not (r == 1) || ltb clear min_gap) _ _
        (λ e.
          branch-Ensures (Moves in_pos raw_size) (ltb in_pos raw_size) _ _
            (λ low.
              let inside = ltb→lt in_pos raw_size low in
              Ensures-mono (Moves (in_pos + 1) raw_size) (Moves in_pos raw_size) _
                (gap_end_loop-Ensures fuel raw (in_pos + 1) raw_size _ (omega arith) (omega arith))
                (λ next k. let near = k.1 (omega arith) in (omega arith, λ h. near)))
            (λ over. (omega arith, λ h. omega arith)))
        (λ e. (omega arith, λ h. omega arith))

pub next_gap_end-Ensures :
    (raw : List ℕ) (in_pos raw_size : ℕ)
    → Ensures (Moves in_pos raw_size) (next_gap_end raw in_pos raw_size)
unfolding next_gap_end
next_gap_end-Ensures raw in_pos raw_size =
    gap_end_loop-Ensures (raw_size + 2) raw in_pos raw_size 0 (omega arith) (omega arith)
