-- ===== src/Raw/Ends.antt =====
-- `raw03_to_fds` ends on any pulses: each loop moves on in them.
use fdsstick.Base.{ltb→lt}
use fdsstick.Base.{ℕ, zero, suc, ◌+◌, ◌-◌, ◌<◌, arith, List, [], ◌∷◌, replicate, ltb, >>=-Ensures}
use fdsstick.Base.Access.{branch-Ensures, option-Ensures}
use fdsstick.Base.Ends.{Ends, bind-Ends, push-Ends, read-Ends, write_range-Ends, ensured}
use fdsstick.Raw.First.{find_first_block-Ends}
use fdsstick.Raw.{
  block_decode, contents_size, files_loop, decode_side, raw03_to_fds, raw_to_raw03,
  raw_to_raw03_byte, min_gap_size, fds_size,
}
use fdsstick.Raw.Onwards.{Advances, block_decode-Ensures}

contents_size-Ends : (fds : List ℕ) (out : ℕ) → Ends (contents_size fds out)
unfolding contents_size
contents_size-Ends fds out =
    bind-Ends _ _ (read-Ends fds (out - 16 + 13))
      λ lo. bind-Ends _ _ (read-Ends fds (out - 16 + 14)) λ hi. tt

files_loop-Ends :
    (fuel : ℕ) (fds raw : List ℕ) (raw_size in_pos out : ℕ)
    → 0 < fuel
    → raw_size < in_pos + fuel
    → Ends (files_loop fuel fds raw raw_size in_pos out)
unfolding files_loop
files_loop-Ends zero fds raw raw_size in_pos out h0 hf = absurd (omega arith)
files_loop-Ends (suc fuel) fds raw raw_size in_pos out h0 hf =
    >>=-Ensures (Advances in_pos) _ (block_decode fds raw in_pos out raw_size (fds_size + 2) 16 3) _
      (block_decode-Ensures fds raw in_pos out raw_size (fds_size + 2) 16 3)
      λ header ah.
        branch-Ensures _ header.found _ _
          (λ found. bind-Ends _ _ (contents_size-Ends header.dst header.out_pos) λ size.
            >>=-Ensures (Advances header.in_pos) _
              (block_decode header.dst raw header.in_pos header.out_pos raw_size (fds_size + 2) size
                4)
              _
              (block_decode-Ensures header.dst raw header.in_pos header.out_pos raw_size
                (fds_size + 2) size 4)
              λ contents ac.
                branch-Ensures _ contents.found _ _
                  (λ filled.
                    branch-Ensures _ (ltb contents.in_pos raw_size) _ _
                      (λ more.
                        let first = ah found in
                        let second = ac filled in
                        let low = ltb→lt contents.in_pos raw_size more in
                        files_loop-Ends fuel contents.dst raw raw_size contents.in_pos
                          contents.out_pos (omega arith) (omega arith))
                      (λ over. tt))
                  (λ e. tt))
          (λ e. tt)

block_decode-Ends :
    (dst src : List ℕ) (in_pos out_pos src_size dst_size block_size block_type : ℕ)
    → Ends (block_decode dst src in_pos out_pos src_size dst_size block_size block_type)
block_decode-Ends dst src in_pos out_pos src_size dst_size block_size block_type =
    ensured (Advances in_pos) _
      (block_decode-Ensures dst src in_pos out_pos src_size dst_size block_size block_type)

decode_side-Ends :
    (fds raw : List ℕ) (raw_size in_pos : ℕ) → Ends (decode_side fds raw raw_size in_pos)
unfolding decode_side
decode_side-Ends fds raw raw_size in_pos =
    bind-Ends _ _ (block_decode-Ends fds raw in_pos 0 raw_size (fds_size + 2) 0x38 1) λ info.
      branch-Ensures _ info.found _ _
        (λ e.
          bind-Ends _ _
            (block_decode-Ends info.dst raw info.in_pos info.out_pos raw_size (fds_size + 2) 2 2)
            λ amount.
              branch-Ensures _ amount.found _ _
                (λ f.
                  bind-Ends _ _
                    (files_loop-Ends (raw_size + 1) amount.dst raw raw_size amount.in_pos
                      amount.out_pos (omega arith) (omega arith))
                    λ out. tt)
                (λ f. tt))
        (λ e. tt)

-- On any pulses, whatever the buffers hold and whatever their sizes, `raw03_to_fds` ends: it
-- returns or makes an access outside a buffer.
pub raw03_to_fds-Ends : (raw fds : List ℕ) (raw_size : ℕ) → Ends (raw03_to_fds raw fds raw_size)
unfolding raw03_to_fds
raw03_to_fds-Ends raw fds raw_size =
    bind-Ends _ _ (write_range-Ends fds 0 (replicate fds_size 0)) λ cleared.
      bind-Ends _ _ (find_first_block-Ends raw) λ first.
        option-Ensures _ first _ _ (λ e. tt)
          λ p e.
            branch-Ensures _ (ltb p min_gap_size) _ _ (λ f. tt)
              λ f. decode_side-Ends cleared raw raw_size (p - min_gap_size)

pub raw_to_raw03-Ends : (raw : List ℕ) (n : ℕ) → Ends (raw_to_raw03 raw n)
unfolding raw_to_raw03
raw_to_raw03-Ends raw zero = tt
raw_to_raw03-Ends [] (suc n) = tt
raw_to_raw03-Ends (r ∷ raw) (suc n) =
    push-Ends (raw_to_raw03_byte r) (raw_to_raw03 raw n) (raw_to_raw03-Ends raw n)
