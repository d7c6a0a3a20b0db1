-- ===== src/Disks/Tests.antt =====
-- The theorems on the disk commands at a disk side with one file.
use fdsstick.Base.{
  ℕ, ◌+◌, ◌-◌, ◌≤◌, ◌≡◌, ◌≢◌, refl, arith, true, List, [], ◌∷◌, ◌++◌, none, some, length, replicate,
  ok, Ensures,
}
use fdsstick.Bin.Block.{zeros}
use fdsstick.Raw.Side.{IsReadableDisk}
use fdsstick.Open.{slot_size}
use fdsstick.Disks.{fds_bin_to_fds, fwnes_header}
use fdsstick.Disks.Decoding.{fds_bin_to_fds-lay}
use fdsstick.Base.Ends.{Ends}
use fdsstick.Bin.Block.{block_image}
use fdsstick.Bin.Layout.{FileBlocks, Disk, IsDisk, stored_disk, laid_disk, gap}
use fdsstick.Bin.Disk.{HasSignature}
use fdsstick.Raw.{fds_size}
use fdsstick.Os.{moved}
use fdsstick.Sample.{machine, os_with, os_with-Allocates, chip, opened}
use fdsstick.Disks.{load_file, lead_in, disk_size, fds_convert_disk, fds_write_disk, fds_read_disk}
use fdsstick.Disks.Each.{is_loaded}
use fdsstick.Disks.Ends.{fds_write_disk-Ensures, fds_read_disk-Ends}
use fdsstick.Disks.Convert.{fds_convert_disk-lay}

abbrev note : FileBlocks
note = record {
  header = 3 ∷ 0 ∷ 0 ∷ 78 ∷ 79 ∷ 84 ∷ 69 ∷ 32 ∷ 32 ∷ 32 ∷ 32 ∷ 0 ∷ 96 ∷ 3 ∷ 0 ∷ 0 ∷ [];
  contents = 4 ∷ 7 ∷ 8 ∷ 9 ∷ [];
}

abbrev tiny : Disk
tiny = record {
  info = 0x01 ∷ 0x2a ∷ 0x4e ∷ 0x49 ∷ replicate 52 0;
  amount = 2 ∷ 1 ∷ [];
  files = note ∷ [];
}

tiny-IsDisk : IsDisk tiny
tiny-IsDisk = record {
  info_length = refl;
  amount_length = refl;
  all_files = (record { header_length = refl; kind = refl; low = omega arith; size = refl }, tt);
}

tiny-HasSignature : HasSignature tiny
tiny-HasSignature = record { code = refl; star = refl; letter = refl }

tiny_fits : length (laid_disk tiny) ≤ disk_size - lead_in
unfolding laid_disk block_image gap
tiny_fits = omega arith

zero-ne-three : ◌≢◌ {A = ℕ} 0 3
zero-ne-three = omega arith

abbrev side : List ℕ
side = stored_disk 0 tiny (0 ∷ [])

fds_convert_disk-lay_example :
    fds_convert_disk (os_with (some side)) (1 ∷ []) (some (2 ∷ [])) opened
    ≡ ok (
      true,
      moved opened
          ((os_with (some side)).save (2 ∷ []) (replicate lead_in 0 ++ laid_disk tiny) machine),
    )
fds_convert_disk-lay_example =
    fds_convert_disk-lay (os_with (some side)) tiny 0 [] (1 ∷ []) (2 ∷ []) opened machine machine
      tiny-IsDisk tiny-HasSignature zero-ne-three (omega arith) tiny_fits refl refl
      (os_with-Allocates (some side))

fds_write_disk-Ensures_example :
    Ensures
      (λ r. r.0 ≡ is_loaded ((load_file (os_with (some side)) (1 ∷ []) opened).0))
      (fds_write_disk (os_with (some side)) chip (1 ∷ []) opened)
fds_write_disk-Ensures_example =
    fds_write_disk-Ensures (os_with (some side)) chip (1 ∷ []) opened
      (os_with-Allocates (some side))

fds_read_disk-Ends_example :
    Ends (fds_read_disk (os_with none) chip (some (1 ∷ [])) (some (2 ∷ [])) none opened)
fds_read_disk-Ends_example =
    fds_read_disk-Ends (os_with none) chip (some (1 ∷ [])) (some (2 ∷ [])) none opened
      (os_with-Allocates none)

-- A side that the search recognises.
abbrev readable : Disk
readable = record {
  info = 0x01 ∷ 0x2a ∷ 0x4e ∷ 0x49 ∷ 0x4e ∷ 0x54 ∷ replicate 50 0;
  amount = 2 ∷ 1 ∷ [];
  files = note ∷ [];
}

readable-IsReadableDisk : IsReadableDisk readable
readable-IsReadableDisk = record {
  disk = record { info_length = refl; amount_length = refl; all_files = tiny-IsDisk.all_files };
  info_rest = replicate 50 0;
  amount_rest = 1 ∷ [];
  signature = refl;
  amount_kind = refl;
  info_bytes = ground arith;
  amount_bytes = ground arith;
  files = (
    record {
      file = tiny-IsDisk.all_files.0;
      rest = 7 ∷ 8 ∷ 9 ∷ [];
      contents_kind = refl;
      header_bytes = ground arith;
      contents_bytes = ground arith;
    },
    tt,
  );
}

readable_fits : 200 + length (laid_disk readable) ≤ slot_size
unfolding laid_disk block_image gap
readable_fits = omega arith

abbrev tape : List ℕ
tape =
    (zeros 200 ++ (laid_disk readable ++ zeros (slot_size - (200 + length (laid_disk readable)))))
    ++ (5 ∷ [])

fds_bin_to_fds-lay_example :
    fds_bin_to_fds (os_with (some tape)) (1 ∷ []) (some (2 ∷ [])) opened
    ≡ ok (
      true,
      moved opened (
          (os_with (some tape)).save
            (2 ∷ [])
            (fwnes_header 0
              ++ (stored_disk 0 readable []
                  ++ zeros (fds_size - length (stored_disk 0 readable []))))
            machine),
    )
fds_bin_to_fds-lay_example =
    fds_bin_to_fds-lay (os_with (some tape)) readable readable-IsReadableDisk 200 (5 ∷ []) (1 ∷ [])
      (2 ∷ []) opened machine machine readable_fits (omega arith) (omega arith) (omega arith)
      (os_with-Allocates (some tape)) refl refl (omega arith)
