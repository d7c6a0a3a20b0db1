-- ===== src/Dump/Tests.antt =====
-- Runs on pulses, and the theorems at small ones.
use fdsstick.Base.{
  ℕ, ◌+◌, ◌≡◌, refl, arith, true, List, [], ◌∷◌, ◌++◌, length, replicate, length-replicate, ok,
  Ensures,
}
use fdsstick.Bin.Block.{zeros}
use fdsstick.Dump.{
  looks_like_file_end, file_end_loop, crc_detect, next_gap_end, mark_gap_start, gap_start,
}
use fdsstick.Dump.Verify.{Verifier}
use fdsstick.Dump.Convert.{bin_size, raw03_to_bin}
use fdsstick.Dump.Convert.Size.{HasSize, raw03_to_bin-Ensures}
use fdsstick.Dump.Edges.{IsFileEnd, crc_detect-Ensures}
use fdsstick.Dump.Gaps.{next_gap_end_lem, mark_gap_start_lem}

-- The pulses end here, and the file with them.
file_end_run : looks_like_file_end (0 ∷ 0 ∷ 2 ∷ []) 1 3 ≡ ok true
unfolding looks_like_file_end file_end_loop
file_end_run = refl

mark_run : mark_gap_start (1 ∷ 0 ∷ 0 ∷ 1 ∷ []) 3 ≡ ok (1 ∷ 3 ∷ 0 ∷ 1 ∷ [])
unfolding mark_gap_start gap_start
mark_run = refl

abbrev few : List ℕ
few = 1 ∷ 0 ∷ 2 ∷ 3 ∷ 0 ∷ []

abbrev table : List ℕ
table = replicate bin_size 0

abbrev unverified : Verifier
unverified = record { last = 0; last_len = 0; block_count = 0; printed = [] }

raw03_to_bin-Ensures_example : Ensures HasSize (raw03_to_bin few 5 table unverified)
raw03_to_bin-Ensures_example =
    raw03_to_bin-Ensures few 5 table unverified (length-replicate {0} {A = ℕ} bin_size 0)

crc_detect-Ensures_example : Ensures (IsFileEnd 1 5) (crc_detect few 1 5)
crc_detect-Ensures_example = crc_detect-Ensures few 1 5

abbrev junk : List ℕ
junk = 1 ∷ 0 ∷ []

next_gap_end_lem_example :
    next_gap_end (junk ++ (zeros 900 ++ (1 ∷ []))) (length junk) 902 ≡ ok (length junk + 900 + 1)
next_gap_end_lem_example = next_gap_end_lem 900 junk [] 902 (omega arith) (omega arith)

mark_gap_start_lem_example :
    mark_gap_start (junk ++ (2 ∷ (zeros 3 ++ (1 ∷ [])))) (length junk + 1 + 3)
    ≡ ok (junk ++ (2 ∷ 3 ∷ (zeros 2 ++ (1 ∷ []))))
mark_gap_start_lem_example = mark_gap_start_lem 2 junk (1 ∷ []) 2 (omega arith)
