-- ===== src/Raw/Onwards.antt =====
-- Each step of `block_decode` moves on in the pulses, on any pulses.
use fdsstick.Base.{leb→lt}
use fdsstick.Base.{
  ℕ, zero, suc, ◌+◌, ◌-◌, ◌*◌, ◌/◌, ◌^◌, ◌≤◌, ◌<◌, ◌≡◌, arith, bit_or, true, ◌&&◌, ◌||◌, List,
  Option, none, some, read, write, ltb, leb, ◌==◌, Ensures, >>=-Ensures, Ensures-mono,
}
use fdsstick.Base.Access.{branch-Ensures, if-Ensures}
use fdsstick.Base.Ends.{Ends, bind-Ends, read-Ends, write-Ends, read_range-Ends, ensured}
use fdsstick.Crc.{calc_crc}
use mathlib.Core.Bool.{false≢true}
use fdsstick.Raw.Image.{set_bit-Ensures}
use fdsstick.Raw.{
  gap_scan, decode_pulse, one_bit, decode_loop, Cursor, Decoded, Block, cursor_at, clear_bad_crc,
  finish_block, block_decode, min_gap_size, set_bit,
}

-- The scan ends, at the position where it starts or behind it.
abbrev IsBehind : ℕ → Option ℕ → Type 0
IsBehind in_pos none = Unit {0}
IsBehind in_pos (some p) = in_pos ≤ p

IsBehind-back : (in_pos : ℕ) (o : Option ℕ) → IsBehind (in_pos + 1) o → IsBehind in_pos o
IsBehind-back in_pos none h = tt
IsBehind-back in_pos (some p) h = omega arith

gap_scan-Ensures :
    (fuel : ℕ) (src : List ℕ) (src_size in_pos run : ℕ)
    → 0 < fuel
    → src_size ≤ in_pos + fuel
    → Ensures (IsBehind in_pos) (gap_scan fuel src src_size in_pos run)
unfolding gap_scan
gap_scan-Ensures zero src src_size in_pos run h0 hf = absurd (omega arith)
gap_scan-Ensures (suc fuel) src src_size in_pos run h0 hf =
    >>=-Ensures (λ c. Unit {0}) (IsBehind in_pos) (read src in_pos) _ (read-Ends src in_pos)
      λ c t.
        branch-Ensures (IsBehind in_pos) (c == 1 && leb min_gap_size run) _ _ (λ e. omega arith)
          λ e.
            branch-Ensures (IsBehind in_pos) (leb src_size (in_pos + 2)) _ _ (λ over. tt)
              λ room.
                let low = leb→lt src_size (in_pos + 2) room in
                Ensures-mono (IsBehind (in_pos + 1)) (IsBehind in_pos) _
                  (gap_scan-Ensures fuel src src_size (in_pos + 1) _ (omega arith) (omega arith))
                  (IsBehind-back in_pos)

one_bit-Ends : (dst : List ℕ) (out : ℕ) → Ends (one_bit dst out)
unfolding one_bit
one_bit-Ends dst out =
    bind-Ends _ _ (ensured _ (set_bit dst out) (set_bit-Ensures dst out)) λ dst'. tt

decode_pulse-Ends : (pulse : ℕ) (c : Cursor) → Ends (decode_pulse pulse c)
unfolding decode_pulse
decode_pulse-Ends pulse c =
    let key = bit_or pulse (c.bitval * 2 ^ 4) in
    if-Ensures _ (key == 0x11) _ _ (λ e. tt)
      λ e.
        if-Ensures _ (key == 0x00) _ _ (λ e. tt)
          λ e.
            if-Ensures _ (key == 0x12) _ _ (λ e. one_bit-Ends c.dst (c.out + 1))
              λ e.
                if-Ensures _ (key == 0x01 || key == 0x10) _ _ (λ e. one_bit-Ends c.dst c.out)
                  λ e. tt

-- The decoding loop ends behind its start when it comes to its last bit.
abbrev Goes : ℕ → Decoded → Type 0
Goes in_pos d = d.ended ≡ true → in_pos < d.in_pos

decode_loop-Ensures :
    (fuel : ℕ) (src : List ℕ) (src_size out_end in_pos : ℕ) (c : Cursor)
    → 0 < fuel
    → src_size < in_pos + fuel
    → Ensures (Goes in_pos) (decode_loop fuel src src_size out_end in_pos c)
unfolding decode_loop
decode_loop-Ensures zero src src_size out_end in_pos c h0 hf = absurd (omega arith)
decode_loop-Ensures (suc fuel) src src_size out_end in_pos c h0 hf =
    branch-Ensures (Goes in_pos) (leb src_size in_pos) _ _ (λ e t. absurd (false≢true t))
      λ e.
        let low = leb→lt src_size in_pos e in
        >>=-Ensures (λ p. Unit {0}) (Goes in_pos) (read src in_pos) _ (read-Ends src in_pos)
          λ pulse u.
            >>=-Ensures (λ p. Unit {0}) (Goes in_pos) (decode_pulse pulse c) _
              (decode_pulse-Ends pulse c)
              λ c' v.
                branch-Ensures (Goes in_pos) (ltb c'.out out_end) _ _
                  (λ more.
                    Ensures-mono (Goes (in_pos + 1)) (Goes in_pos) _
                      (decode_loop-Ensures fuel src src_size out_end (in_pos + 1) c' (omega arith)
                        (omega arith))
                      (λ d h t. let on = h t in omega arith))
                  (λ done t. omega arith)

clear_bad_crc-Ends :
    (dst : List ℕ) (out_pos block_size out : ℕ) → Ends (clear_bad_crc dst out_pos block_size out)
unfolding clear_bad_crc
clear_bad_crc-Ends dst out_pos block_size out =
    bind-Ends _ _ (read_range-Ends dst out_pos (block_size + 2)) λ covered.
      branch-Ensures _ (calc_crc covered == 0) _ _ (λ e. tt)
        λ e. bind-Ends _ _ (read-Ends dst out) λ low.
          bind-Ends _ _ (read-Ends dst (out + 1)) λ high.
            bind-Ends _ _ (write-Ends dst out 0) λ low_clear.
              bind-Ends _ _ (write-Ends low_clear (out + 1) 0)
                λ both. bind-Ends _ _ (read_range-Ends both out_pos (block_size + 2)) λ again. tt

-- A block that is found ends behind the position where the search starts.
abbrev pub Advances : ℕ → Block → Type 0
Advances in_pos b = b.found ≡ true → in_pos < b.in_pos

finish_block-Ensures :
    (dst : List ℕ) (in_pos in_start out_pos block_size block_type out_bit : ℕ)
    → in_start < in_pos
    → Ensures
        (Advances in_start)
        (finish_block dst in_pos in_start out_pos block_size block_type out_bit)
unfolding finish_block
finish_block-Ensures dst in_pos in_start out_pos block_size block_type out_bit h =
    let out = out_bit / 8 - 2 in
    let Q = Advances in_start in
    >>=-Ensures (λ p. Unit {0}) Q (read dst out_pos) _ (read-Ends dst out_pos)
      λ kind t.
        branch-Ensures Q (kind == block_type) _ _
          (λ e.
            >>=-Ensures (λ p. Unit {0}) Q (clear_bad_crc dst out_pos block_size out) _
              (clear_bad_crc-Ends dst out_pos block_size out)
              λ checked t1.
                >>=-Ensures (λ p. Unit {0}) Q (write checked out 0) _ (write-Ends checked out 0)
                  λ low t2.
                    >>=-Ensures (λ p. Unit {0}) Q (write low (out + 1) 0) _
                      (write-Ends low (out + 1) 0)
                      λ high t3.
                        >>=-Ensures (λ p. Unit {0}) Q (write high (out + 2) 0) _
                          (write-Ends high (out + 2) 0) λ spare t4. λ f. h)
          (λ e f. absurd (false≢true f))

pub block_decode-Ensures :
    (dst src : List ℕ) (in_pos out_pos src_size dst_size block_size block_type : ℕ)
    → Ensures
        (Advances in_pos)
        (block_decode dst src in_pos out_pos src_size dst_size block_size block_type)
unfolding block_decode
block_decode-Ensures dst src in_pos out_pos src_size dst_size block_size block_type =
    let Q = Advances in_pos in
    let out_end = (out_pos + block_size + 2) * 8 in
    branch-Ensures Q (ltb dst_size (out_pos + block_size + 2)) _ _ (λ e f. absurd (false≢true f))
      λ e.
        >>=-Ensures (IsBehind in_pos) Q (gap_scan (src_size + 1) src src_size in_pos 0) _
          (gap_scan-Ensures (src_size + 1) src src_size in_pos 0 (omega arith) (omega arith))
          (elim [
            | none ↦ λ h f. absurd (false≢true f)
            | some p ↦ λ h.
                >>=-Ensures (Goes (p + 1)) Q
                  (decode_loop (src_size + 1) src src_size out_end (p + 1) (cursor_at dst out_pos))
                  _
                  (decode_loop-Ensures (src_size + 1) src src_size out_end (p + 1)
                    (cursor_at dst out_pos) (omega arith) (omega arith))
                  λ d go.
                    branch-Ensures Q d.ended _ _
                      (λ t.
                        let on = go t in
                        finish_block-Ensures d.cursor.dst d.in_pos in_pos out_pos block_size
                          block_type d.cursor.out (omega arith))
                      (λ t f. absurd (false≢true f))
          ])
