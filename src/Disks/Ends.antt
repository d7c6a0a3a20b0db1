-- ===== src/Disks/Ends.antt =====
-- The commands on disks end, and what they return.
use fdsstick.Base.{ℕ, ◌+◌, ◌≡◌, List, Option, none, some, replicate, ok, Ensures}
use fdsstick.Base.Access.{branch-Ensures, option-Ensures}
use fdsstick.Base.Ends.{Ends, bind-Ends, read_range-Ends, ensured}
use fdsstick.Raw.{fds_size}
use fdsstick.Raw.Ends.{raw03_to_fds-Ends, raw_to_raw03-Ends}
use fdsstick.Raw.Encode.Ends.{bin_to_raw03-Ensures}
use fdsstick.Device.{Hid, Device}
use fdsstick.Spi.Ends.{write_sram-Ends}
use fdsstick.Transfer.Ends.{write_image2-Ends, read_disk_image-Ends}
use fdsstick.Dump.Verify.{Verifier}
use fdsstick.Dump.Convert.{bin_size}
use fdsstick.Dump.Convert.Size.{raw03_to_bin-Ensures}
use fdsstick.Open.{slot_size}
use fdsstick.Os.{Os, Allocates}
use fdsstick.Disks.{
  load_file, write_bin, fds_convert_disk, fds_convert_disk_raw03, fds_bin_to_fds, try_save,
  fds_write_disk, fresh_verifier, save_decoded, fds_read_disk, read_buf_size, lead_in, raw_size,
}
use fdsstick.Disks.Each.{is_loaded, pointer-Ends, each_side-Ensures}

module _ {σ : Type 0} (os : Os σ) where
  write_bin-Ends :
      (fn : Option (List ℕ)) (bin : List ℕ) (size : ℕ) (dev : Device σ)
      → Ends (write_bin os fn bin size dev)
  unfolding write_bin
  write_bin-Ends fn bin size dev = bind-Ends _ _ (pointer-Ends fn) λ name.
      let created = os.create name dev.world in
      branch-Ensures _ (created.0) _ _ (λ e. bind-Ends _ _ (read_range-Ends bin 0 size) λ bytes. tt)
        (λ e. tt)

  -- `FDS_convertDisk` ends, for any file, when memory is given as asked for. If it makes no access
  -- outside its buffers, it returns whether the file was loaded: a file that cannot be converted and
  -- an output that cannot be created do not change that.
  pub fds_convert_disk-Ensures :
      (filename : List ℕ) (out : Option (List ℕ)) (dev : Device σ)
      → Allocates os
      → Ensures
          (λ r. r.0 ≡ is_loaded ((load_file os filename dev).0))
          (fds_convert_disk os filename out dev)
  unfolding fds_convert_disk
  fds_convert_disk-Ensures filename out dev alloc =
      each_side-Ensures os (λ d. ok d) (λ bin size d. write_bin os out bin (size + lead_in) d)
        (λ d. tt) (λ bin size d. write_bin-Ends out bin (size + lead_in) d) filename dev alloc

  pub fds_convert_disk_raw03-Ensures :
      (filename : List ℕ) (out : Option (List ℕ)) (dev : Device σ)
      → Allocates os
      → Ensures
          (λ r. r.0 ≡ is_loaded ((load_file os filename dev).0))
          (fds_convert_disk_raw03 os filename out dev)
  unfolding fds_convert_disk_raw03
  fds_convert_disk_raw03-Ensures filename out dev alloc =
      each_side-Ensures os (λ d. ok d) _ (λ d. tt)
        (λ bin size d.
          bind-Ends _ _
            (ensured _ _ (bin_to_raw03-Ensures bin (os.malloc raw_size d.world) slot_size raw_size))
            λ raw. write_bin-Ends out raw raw_size d)
        filename dev alloc

  -- `FDS_bintofds` ends, whatever the file and the memory hold.
  pub fds_bin_to_fds-Ends :
      (filename : List ℕ) (out : Option (List ℕ)) (dev : Device σ)
      → Ends (fds_bin_to_fds os filename out dev)
  unfolding fds_bin_to_fds
  fds_bin_to_fds-Ends filename out dev =
      option-Ensures _ ((load_file os filename dev).0) _ _ (λ e. tt)
        λ bin e. bind-Ends _ _ (pointer-Ends out) λ name.
          let created = os.create name (load_file os filename dev).1.world in
          branch-Ensures _ (created.0) _ _
            (λ f.
              bind-Ends _ _
                (ensured _ _
                  (bin_to_raw03-Ensures bin (os.malloc raw_size created.1) slot_size raw_size))
                λ raw.
                  bind-Ends _ _ (raw03_to_fds-Ends raw (os.malloc fds_size created.1) raw_size)
                    λ r. bind-Ends _ _ (read_range-Ends (r.1) 0 65500) λ fds. tt)
            (λ f. tt)

  try_save-Ends :
      (name buf : List ℕ) (size : ℕ) (dev : Device σ) → Ends (try_save os name buf size dev)
  unfolding try_save
  try_save-Ends name buf size dev =
      branch-Ensures _ ((os.create name dev.world).0) _ _
        (λ e. bind-Ends _ _ (read_range-Ends buf 0 size) λ bytes. tt) (λ e. tt)

  module _ (hid : Hid σ) where
    -- `FDS_writeDisk` ends, for any file and whatever hidapi answers, when memory is given as
    -- asked for. If it makes no access outside its buffers, it returns whether the file was
    -- loaded: a side that cannot be converted or sent does not change that.
    pub fds_write_disk-Ensures :
        (filename : List ℕ) (dev : Device σ)
        → Allocates os
        → Ensures
            (λ r. r.0 ≡ is_loaded ((load_file os filename dev).0))
            (fds_write_disk os hid filename dev)
    unfolding fds_write_disk
    fds_write_disk-Ensures filename dev alloc =
        each_side-Ensures os _ _
          (λ d.
            bind-Ends _ _ (write_sram-Ends hid os.get_ticks (replicate 0x1_0000 0) 0 0x1_0000 d)
              λ cleared. tt)
          (λ bin size d. write_image2-Ends hid os.get_ticks bin (size + lead_in) d) filename dev
          alloc

    save_decoded-Ends :
        (filename_bin filename_fds : Option (List ℕ)) (raw : List ℕ) (bytes_in : ℕ) (dev : Device σ)
        → Allocates os
        → Ends (save_decoded os hid filename_bin filename_fds raw bytes_in dev)
    unfolding save_decoded
    save_decoded-Ends filename_bin (some name) raw bytes_in dev alloc =
        bind-Ends _ _ (raw03_to_fds-Ends raw (os.malloc (fds_size + 16) dev.world) bytes_in)
          λ r. try_save-Ends name (r.1) fds_size dev
    save_decoded-Ends none none raw bytes_in dev alloc = tt
    save_decoded-Ends (some name) none raw bytes_in dev alloc =
        bind-Ends _ _
          (ensured _ _ (
            raw03_to_bin-Ensures raw bytes_in (os.malloc bin_size dev.world) fresh
              (alloc bin_size dev.world)))
          λ r. try_save-Ends name (r.0) (r.1) dev
      where
        fresh : Verifier
        fresh = fresh_verifier os hid

    -- `FDS_readDisk` ends, whatever hidapi answers and whatever is asked for, when memory is
    -- given as asked for: no pulses and no packets make it loop.
    pub fds_read_disk-Ends :
        (filename_raw filename_bin filename_fds : Option (List ℕ)) (dev : Device σ)
        → Allocates os
        → Ends (fds_read_disk os hid filename_raw filename_bin filename_fds dev)
    unfolding fds_read_disk
    fds_read_disk-Ends filename_raw filename_bin filename_fds dev alloc =
        bind-Ends _ _
          (read_disk_image-Ends hid os.get_ticks (os.malloc read_buf_size dev.world) dev)
          λ taken.
            option-Ensures _ (taken.0) _ _ (λ e. tt)
              λ bytes_in e. bind-Ends _ _ (kept filename_raw taken.1 bytes_in taken.2) λ d.
                bind-Ends _ _ (raw_to_raw03-Ends (taken.1) bytes_in) λ raw.
                  bind-Ends _ _ (save_decoded-Ends filename_bin filename_fds raw bytes_in d alloc)
                    λ decoded. tt
      where
        kept :
            (name : Option (List ℕ)) (buf : List ℕ) (n : ℕ) (d : Device σ)
            → Ends (elim name [ none ↦ ok d | some f ↦ try_save os f buf n d ])
        kept none buf n d = tt
        kept (some f) buf n d = try_save-Ends f buf n d
