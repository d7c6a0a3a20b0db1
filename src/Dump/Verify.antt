-- ===== src/Dump/Verify.antt =====
-- `verify_block` of fds.cpp, which checks the blocks of the image that `raw03_to_bin` makes.
use fdsstick.Base.{ℕ, ◌+◌, ◌*◌, ◌^◌, bit_or, Bool, true, false, ◌&&◌, not}
use fdsstick.Base.{List, [], ◌∷◌, ◌++◌, Option, none, some}
use fdsstick.Base.{Run, ok, ◌>>=◌, read, read_range, if◌then◌else◌, ltb, ◌==◌}
use fdsstick.Base.Access.{branch-Ensures, if-Ensures, option-Ensures}
use fdsstick.Base.Ends.{Ends, bind-Ends, read-Ends, read_range-Ends}
use fdsstick.Crc.{calc_crc}

-- What is printed of a block.
pub data Remark : Type 0 where
  bad_block wrong_filetype bad_crc lost_block block_overlap : Remark
  counted : ℕ → ℕ → Remark
  extent : ℕ → ℕ → ℕ → ℕ → ℕ → Remark

-- The static variables of `verify_block`, and all that is printed.
pub record Verifier : Type 0 where
  pub last : ℕ
  pub last_len : ℕ
  pub block_count : ℕ
  pub printed : List Remark

-- `next`
abbrev pub next_type : List ℕ
next_type = 0 ∷ 2 ∷ 3 ∷ 4 ∷ 3 ∷ []

-- `MAX_GAP` and `MIN_GAP`, in bytes.
abbrev pub max_gap_bytes : ℕ
max_gap_bytes = 134

abbrev pub min_gap_bytes : ℕ
min_gap_bytes = 109

-- The `switch` on the type; `none` is a bad block.
pub block_length : List ℕ → ℕ → ℕ → Run (Option ℕ)
block_length bin last kind =
    if kind == 1
    then ok (some 0x38)
    else if kind == 2
    then ok (some 2)
    else if kind == 3
    then ok (some 16)
    else if kind == 4
    then (read bin (last + 13) >>= λ low.
        read bin (last + 14) >>= λ high. ok (some (1 + bit_or low (high * 2 ^ 8))))
    else ok none

-- The first `if`; `next[bin[last]]` is only read behind another block.
pub is_wrong_type : List ℕ → ℕ → ℕ → Run Bool
is_wrong_type bin last kind = elim (last == 0) [
  | true ↦ ok (not (kind == 1))
  | false ↦ do
    previous ← read bin last
    expected ← read next_type previous
    ok (not (kind == expected))
]

abbrev pub remark_if : Bool → Remark → List Remark
remark_if b r = if b then r ∷ [] else []

pub verify_block : List ℕ → ℕ → List ℕ → Verifier → Run Verifier
unfolding block_length is_wrong_type
verify_block bin start reverse v = do
  kind ← read bin start
  let counting = v.printed ++ (counted (v.block_count + 1) kind ∷ [])
  size ← block_length bin v.last kind
  elim size [
    | none ↦
        ok (record v { block_count = v.block_count + 1; printed = counting ++ (bad_block ∷ []) })
    | some len ↦ do
      first ← read reverse start
      end ← read reverse (start + len)
      wrong ← is_wrong_type bin v.last kind
      covered ← read_range bin start (len + 2)
      let lost = not (v.last == 0) && ltb (v.last + v.last_len + max_gap_bytes) start
      let overlap = ltb start (v.last + v.last_len + min_gap_bytes)
      ok (record {
        last = start;
        last_len = len;
        block_count = v.block_count + 1;
        printed =
            counting
            ++ (extent first end start (start + len) len ∷ [])
            ++ remark_if wrong wrong_filetype
            ++ remark_if (not (calc_crc covered == 0)) bad_crc
            ++ remark_if lost lost_block
            ++ remark_if overlap block_overlap;
      })
  ]

block_length-Ends : (bin : List ℕ) (last kind : ℕ) → Ends (block_length bin last kind)
unfolding block_length
block_length-Ends bin last kind =
    if-Ensures _ (kind == 1) _ _ (λ e. tt)
      λ e1.
        if-Ensures _ (kind == 2) _ _ (λ e. tt)
          λ e2.
            if-Ensures _ (kind == 3) _ _ (λ e. tt)
              λ e3.
                if-Ensures _ (kind == 4) _ _
                  (λ e.
                    bind-Ends _ _ (read-Ends bin (last + 13))
                      λ low. bind-Ends _ _ (read-Ends bin (last + 14)) λ high. tt)
                  (λ e. tt)

is_wrong_type-Ends : (bin : List ℕ) (last kind : ℕ) → Ends (is_wrong_type bin last kind)
unfolding is_wrong_type
is_wrong_type-Ends bin last kind =
    branch-Ensures _ (last == 0) _ _ (λ e. tt)
      λ e.
        bind-Ends _ _ (read-Ends bin last)
          λ previous. bind-Ends _ _ (read-Ends next_type previous) λ expected. tt

pub verify_block-Ends :
    (bin : List ℕ) (start : ℕ) (reverse : List ℕ) (v : Verifier)
    → Ends (verify_block bin start reverse v)
unfolding verify_block
verify_block-Ends bin start reverse v = bind-Ends _ _ (read-Ends bin start) λ kind.
    bind-Ends _ _ (block_length-Ends bin v.last kind) λ size.
      option-Ensures _ size _ _ (λ e. tt)
        λ len e. bind-Ends _ _ (read-Ends reverse start) λ first.
          bind-Ends _ _ (read-Ends reverse (start + len)) λ end.
            bind-Ends _ _ (is_wrong_type-Ends bin v.last kind)
              λ wrong. bind-Ends _ _ (read_range-Ends bin start (len + 2)) λ covered. tt
