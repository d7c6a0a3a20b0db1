-- ===== src/Bin/Tests.antt =====
-- Runs of the conversions, and their theorems at a disk side with one file.
use fdsstick.Base.{ℕ, ◌+◌, ◌≤◌, ◌<◌, ◌≡◌, ◌≢◌, refl, arith, List, [], ◌∷◌, ◌++◌, length, replicate}
use fdsstick.Base.{ok, Returns}
use fdsstick.Bin.{copy_block, fds_to_bin, game_doctor_to_bin, gap_bytes}
use fdsstick.Bin.Block.{block_image, zeros, copy_block_lem}
use fdsstick.Bin.Layout.{FileBlocks, Disk, IsFile, IsDisk, stored_disk, laid_disk, on_buffer, gap}
use fdsstick.Bin.Disk.{
  HasSignature, fds_to_bin-lay, fds_to_bin-give_up, game_doctor_to_bin-fds_to_bin,
}
use fdsstick.Bin.Bounds.{fds_to_bin-Returns, game_doctor_to_bin-Returns}

abbrev note : FileBlocks
note = record {
  header = 3 ∷ 0 ∷ 0 ∷ 78 ∷ 79 ∷ 84 ∷ 69 ∷ 32 ∷ 32 ∷ 32 ∷ 32 ∷ 0 ∷ 96 ∷ 3 ∷ 0 ∷ 0 ∷ [];
  contents = 4 ∷ 7 ∷ 8 ∷ 9 ∷ [];
}

abbrev tiny : Disk
tiny = record {
  info = 0x01 ∷ 0x2a ∷ 0x4e ∷ 0x49 ∷ replicate 52 0;
  amount = 2 ∷ 1 ∷ [];
  files = note ∷ [];
}

note-IsFile : IsFile note
note-IsFile = record { header_length = refl; kind = refl; low = omega arith; size = refl }

tiny-IsDisk : IsDisk tiny
tiny-IsDisk = record { info_length = refl; amount_length = refl; all_files = (note-IsFile, tt) }

tiny-HasSignature : HasSignature tiny
tiny-HasSignature = record { code = refl; star = refl; letter = refl }

abbrev junk : List ℕ
junk = replicate 600 0xff

abbrev small : List ℕ
small = replicate 400 0xff

zero-ne-three : ◌≢◌ {A = ℕ} 0 3
zero-ne-three = omega arith

length-tiny : length (laid_disk tiny) ≡ 574
unfolding laid_disk block_image gap
length-tiny = refl

tiny_fits : length (laid_disk tiny) ≤ 600 + gap_bytes
tiny_fits = omega (arith, length-tiny)

tiny_full : 400 + gap_bytes < length (laid_disk tiny)
tiny_full = omega (arith, length-tiny)

fds_to_bin-lay_example :
    fds_to_bin junk (stored_disk 0 tiny (0 ∷ [])) 600
    ≡ ok (length (laid_disk tiny), on_buffer 600 (laid_disk tiny))
fds_to_bin-lay_example =
    fds_to_bin-lay tiny tiny-IsDisk tiny-HasSignature 600 0 junk [] zero-ne-three refl (omega arith)
      tiny_fits

fds_to_bin-give_up_example :
    Returns (fds_to_bin small (stored_disk 0 tiny (0 ∷ [])) 400) (λ r. r.0 ≡ 0)
fds_to_bin-give_up_example =
    fds_to_bin-give_up tiny tiny-IsDisk tiny-HasSignature 400 0 small [] zero-ne-three refl
      (omega arith) tiny_full

game_doctor_to_bin-fds_to_bin_example :
    game_doctor_to_bin junk ((0 ∷ 0 ∷ 0x81 ∷ []) ++ stored_disk 2 tiny (0 ∷ [])) 600
    ≡ fds_to_bin junk (stored_disk 0 tiny (0 ∷ [])) 600
game_doctor_to_bin-fds_to_bin_example =
    game_doctor_to_bin-fds_to_bin tiny tiny-IsDisk tiny-HasSignature 600 0 junk [] zero-ne-three
      refl (omega arith) 0 0 0x81 refl tiny_fits

copy_block_lem_example :
    copy_block ((9 ∷ []) ++ zeros (2 + 3 + 4)) 1 ((5 ∷ []) ++ ((2 ∷ 1 ∷ []) ++ (8 ∷ []))) 1 2
    ≡ ok ((9 ∷ []) ++ (block_image (2 ∷ 1 ∷ []) ++ zeros 4))
copy_block_lem_example =
    copy_block_lem (9 ∷ []) (5 ∷ []) (2 ∷ 1 ∷ []) (8 ∷ []) 4 1 1 2 refl refl refl

-- A file that goes on with headers for ever.
abbrev headers : List ℕ
headers = (1 ∷ 0x2a ∷ 0x4e ∷ []) ++ replicate 600 3

fds_to_bin-Returns_example :
    Returns (fds_to_bin junk headers 600) (λ r. (r.0 ≤ 600 + gap_bytes) × (length r.1 ≡ 600))
fds_to_bin-Returns_example = fds_to_bin-Returns junk headers 600 refl (omega arith) (omega arith)

game_doctor_to_bin-Returns_example :
    Returns
      (game_doctor_to_bin junk ((0 ∷ 0 ∷ 0x81 ∷ []) ++ headers) 600)
      (λ r. (r.0 ≤ 600 + gap_bytes) × (length r.1 ≡ 600))
game_doctor_to_bin-Returns_example =
    game_doctor_to_bin-Returns junk ((0 ∷ 0 ∷ 0x81 ∷ []) ++ headers) 600 refl (omega arith)
      (omega arith)
