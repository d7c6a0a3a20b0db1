-- ===== src/Raw/Tests.antt =====
-- The pulse code at small concrete inputs.
use fdsstick.Base.{◌≢◌, ◌≤◌}
use fdsstick.Bin.Block.{block_image}
use fdsstick.Bin.Layout.{gap}
use fdsstick.Base.{ℕ, ◌+◌, ◌-◌, ◌≡◌, refl, arith, List, [], ◌∷◌, ◌++◌, length, replicate, true}
use fdsstick.Base.{ok, some, none, Returns, length-replicate, set, take, drop}
use fdsstick.Bin.Block.{zeros}
use fdsstick.Bin.Layout.{FileBlocks, Disk, IsFile, stored_disk, laid_disk}
use fdsstick.Raw.Pulses.{bits_of, fresh, begun, pulses}
use fdsstick.Raw.Image.{HasBits, set_bit_lem}
use fdsstick.Raw.Gap.{gap_scan-none}
use fdsstick.Raw.AtGap.{AtGap, clear}
use fdsstick.Raw.Decode.{Kept, block_decode_lem}
use fdsstick.Raw.Classes.{HaveWidths, raw_to_raw03-HaveWidths}
use fdsstick.Raw.First.{find_first_block-clear}
use fdsstick.Raw.Files.{IsReadable}
use fdsstick.Raw.Side.{IsReadableDisk}
use fdsstick.Raw.Recover.{raw03_to_fds-lay}
use fdsstick.Raw.RoundTrip.{there_and_back, there_and_back_lem}
use fdsstick.Base.Ends.{Ends}
use fdsstick.Raw.Ends.{raw03_to_fds-Ends}
use fdsstick.Raw.Encode.{bin_to_raw03}
use fdsstick.Raw.Encode.Lay.{bin_to_raw03-lay}
use fdsstick.Raw.{
  raw_to_raw03, set_bit, gap_scan, first_block, find_first_block, block_decode, raw03_to_fds,
  fds_size,
}

abbrev note : FileBlocks
note = record {
  header = 3 ∷ 0 ∷ 0 ∷ 78 ∷ 79 ∷ 84 ∷ 69 ∷ 32 ∷ 32 ∷ 32 ∷ 32 ∷ 0 ∷ 96 ∷ 3 ∷ 0 ∷ 0 ∷ [];
  contents = 4 ∷ 7 ∷ 8 ∷ 9 ∷ [];
}

abbrev tiny : Disk
tiny = record {
  info = 0x01 ∷ 0x2a ∷ 0x4e ∷ 0x49 ∷ 0x4e ∷ 0x54 ∷ replicate 50 0;
  amount = 2 ∷ 1 ∷ [];
  files = note ∷ [];
}

note-IsFile : IsFile note
note-IsFile = record { header_length = refl; kind = refl; low = omega arith; size = refl }

note-IsReadable : IsReadable note
note-IsReadable = record {
  file = note-IsFile;
  rest = 7 ∷ 8 ∷ 9 ∷ [];
  contents_kind = refl;
  header_bytes = ground arith;
  contents_bytes = ground arith;
}

tiny-IsReadableDisk : IsReadableDisk tiny
tiny-IsReadableDisk = record {
  disk = record { info_length = refl; amount_length = refl; all_files = (note-IsFile, tt) };
  info_rest = replicate 50 0;
  amount_rest = 1 ∷ [];
  signature = refl;
  amount_kind = refl;
  info_bytes = ground arith;
  amount_bytes = ground arith;
  files = (note-IsReadable, tt);
}

raw03_to_fds-lay_example :
    raw03_to_fds
      (zeros 0x300 ++ (pulses (begun 0) (bits_of (laid_disk tiny)) ++ replicate 40 3))
      (replicate fds_size 0xff ++ zeros 16)
      (length (zeros 0x300 ++ (pulses (begun 0) (bits_of (laid_disk tiny)) ++ replicate 40 3)))
    ≡ ok (true, stored_disk 0 tiny [] ++ zeros (fds_size + 16 - length (stored_disk 0 tiny [])))
raw03_to_fds-lay_example =
    raw03_to_fds-lay tiny tiny-IsReadableDisk 0x300 40 16 (replicate fds_size 0xff) (omega arith)
      (omega arith) (length-replicate {A = ℕ} fds_size 0xff) (omega arith) (omega arith)

tiny_room : length (laid_disk tiny) ≤ 600
unfolding laid_disk block_image gap
tiny_room = omega arith

zero-ne-three : ◌≢◌ {A = ℕ} 0 3
zero-ne-three = omega arith

there_and_back_lem_example :
    there_and_back 200 2000 2100
      (stored_disk 0 tiny (0 ∷ []))
      (replicate 2000 9)
      (replicate 16800 7)
      (replicate fds_size 0xff ++ zeros 16)
    ≡ ok (true, stored_disk 0 tiny [] ++ zeros (fds_size + 16 - length (stored_disk 0 tiny [])))
there_and_back_lem_example =
    there_and_back_lem tiny tiny-IsReadableDisk 200 2000 2100 16 (replicate fds_size 0xff)
      (replicate 16800 7) (omega (arith, tiny_room)) (omega arith) (omega arith) (omega arith)
      (omega (arith, length-replicate {A = ℕ} 16800 7)) 0 (replicate 2000 9) [] zero-ne-three
      (length-replicate {A = ℕ} 2000 9) (length-replicate {A = ℕ} fds_size 0xff) (omega arith)
      (omega arith)

bin_to_raw03-lay_example :
    bin_to_raw03 ((0x80 ∷ 1 ∷ []) ++ (7 ∷ [])) (replicate 20 0) 2 20
    ≡ ok (
        pulses fresh (bits_of (0x80 ∷ 1 ∷ []))
        ++ replicate (20 - length (pulses fresh (bits_of (0x80 ∷ 1 ∷ [])))) 3)
bin_to_raw03-lay_example =
    bin_to_raw03-lay (0x80 ∷ 1 ∷ []) (7 ∷ []) (replicate 20 0) 2 20 refl refl (omega arith)

-- A block 2 behind a gap, with a checksum that is wrong.
abbrev amount_stream : List ℕ
amount_stream = pulses fresh (bits_of ((2 ∷ 1 ∷ []) ++ (9 ∷ 9 ∷ [])) ++ (0 ∷ [])) ++ (1 ∷ [])

abbrev amount_src : List ℕ
amount_src = zeros 0x300 ++ (1 ∷ amount_stream)

amount-AtGap : AtGap amount_src 0 amount_stream
amount-AtGap = clear 0x300 [] refl refl (omega arith)

block_decode_lem_example :
    Returns
      (block_decode ((5 ∷ []) ++ zeros (2 + 3 + 1)) amount_src 0 1 (length amount_src) 10 2 2)
      (Kept (5 ∷ []) (2 ∷ 1 ∷ []) (3 + 1) amount_src (1 ∷ []) [])
block_decode_lem_example =
    block_decode_lem (5 ∷ []) (2 ∷ 1 ∷ []) (1 ∷ []) amount_src [] (1 ∷ []) 9 9 2 0 1 2 1 refl
      (omega arith, tt) (omega arith, (omega arith, tt)) (omega arith) (omega arith) refl refl 10
      (omega arith) amount-AtGap

find_first_block-clear_example :
    find_first_block (zeros 900 ++ (first_block ++ (2 ∷ []))) ≡ ok (some 900)
find_first_block-clear_example = find_first_block-clear 900 (2 ∷ []) (omega arith)

set_bit_lem_example :
    Returns (set_bit (0 ∷ 0x80 ∷ []) 9) (HasBits (set (bits_of (0 ∷ 0x80 ∷ [])) 9 1) 2)
set_bit_lem_example = set_bit_lem (0 ∷ 0x80 ∷ []) 9 (omega arith) (omega arith, (omega arith, tt))

gap_scan-none_example :
    gap_scan 100 (zeros 5 ++ replicate 4 3) (length (zeros 5 ++ replicate 4 3)) 0 0 ≡ ok none
gap_scan-none_example =
    gap_scan-none 5 4 100 0 0 [] (zeros 5 ++ replicate 4 3) refl refl (omega arith) (omega arith)

raw_to_raw03-HaveWidths_example :
    Returns
      (raw_to_raw03 ((0x50 ∷ 0x90 ∷ 0xc0 ∷ 0xff ∷ []) ++ (7 ∷ [])) 4)
      (λ out. HaveWidths (0x50 ∷ 0x90 ∷ 0xc0 ∷ 0xff ∷ []) (take 4 out) × (drop 4 out ≡ 7 ∷ []))
raw_to_raw03-HaveWidths_example =
    raw_to_raw03-HaveWidths (0x50 ∷ 0x90 ∷ 0xc0 ∷ 0xff ∷ []) (7 ∷ []) 4 refl

raw03_to_fds-Ends_example : Ends (raw03_to_fds (1 ∷ 0 ∷ 2 ∷ []) (replicate 65516 7) 3)
raw03_to_fds-Ends_example = raw03_to_fds-Ends (1 ∷ 0 ∷ 2 ∷ []) (replicate 65516 7) 3
