-- ===== src/Disks/Decoding.antt =====
-- `FDS_bintofds` on the image of a disk.
use fdsstick.Base.{ℕ, ◌+◌, ◌-◌, ◌*◌, ◌≤◌, ◌<◌, ◌≡◌, refl, sym, ap, ◌∙◌, arith, true}
use fdsstick.Base.{List, [], ◌++◌, length, some, length-append, length-replicate, append-nil}
use fdsstick.Base.{Option, none, false, Run, Bool, ok, >>=-ok, ◌>>=◌, read_range, read_range_at}
use fdsstick.Bin.Block.{zeros}
use fdsstick.Bin.Layout.{Disk, stored_disk, laid_disk}
use fdsstick.Raw.{fds_size, min_gap_size, raw03_to_fds}
use fdsstick.Raw.Side.{IsReadableDisk, side, stored_files-flat}
use fdsstick.Raw.RoundTrip.{pulsed, encoded, length-image, length-pulsed, pulsed_recovered}
use fdsstick.Raw.Encode.{bin_to_raw03}
use fdsstick.Device.{Device}
use fdsstick.Open.{slot_size}
use fdsstick.Os.{Os, moved, Allocates}
use fdsstick.Disks.{pointer, fds_bin_to_fds, fwnes_header, raw_size}
use fdsstick.Disks.Convert.{load_file-some}

side-stored : (d : Disk) → side d ≡ stored_disk 0 d []
side-stored d = ap (λ t. d.info ++ (d.amount ++ t)) (sym (stored_files-flat d.files))

module _ {σ : Type 0} (os : Os σ) (d : Disk) (good : IsReadableDisk d) (lead : ℕ)
    (beyond filename out : List ℕ) (dev : Device σ) (w1 w2 : σ)
    (fits : lead + length (laid_disk d) ≤ slot_size) (gap : min_gap_size ≤ 8 * lead + 5)
    (near : 8 * lead + 37 < 0x1_0000) (room : length (side d) + 3 ≤ fds_size)
    (alloc : Allocates os) where
  abbrev pub disk_file : List ℕ
  disk_file =
      (zeros lead ++ (laid_disk d ++ zeros (slot_size - (lead + length (laid_disk d))))) ++ beyond

  -- The bytes that are saved behind the header.
  abbrev pub fds_bytes : List ℕ
  fds_bytes = stored_disk 0 d [] ++ zeros (fds_size - length (stored_disk 0 d []))

  abbrev raw : List ℕ
  raw = os.malloc raw_size w2

  long : 8 * slot_size ≤ length raw
  long = omega (arith, alloc raw_size w2)

  abbrev old : List ℕ
  old = os.malloc fds_size w2

  abbrev found : List ℕ
  found = pulsed d good lead slot_size 0 old raw beyond fits gap near long

  converted : bin_to_raw03 disk_file raw slot_size raw_size ≡ ok found
  converted =
      ap (λ (t : ℕ). bin_to_raw03 disk_file raw slot_size t) (sym (alloc raw_size w2))
      ∙ encoded d good lead slot_size 0 old raw beyond fits gap near long

  decoded : raw03_to_fds found old raw_size ≡ ok (true, fds_bytes)
  decoded =
      ap (λ (t : ℕ). raw03_to_fds found old t) sizes
      ∙ ap (λ t. raw03_to_fds found t (length found)) (sym (append-nil old))
      ∙ pulsed_recovered d good lead slot_size 0 old raw beyond fits gap near long
          (alloc fds_size w2) (omega (arith, room)) (omega (arith, room))
      ∙ ap (λ (t : ℕ). ok (true, stored_disk 0 d [] ++ zeros t)) (omega arith)
    where
      sizes : raw_size ≡ length found
      sizes =
          sym (alloc raw_size w2)
          ∙ sym (length-pulsed d good lead slot_size 0 old raw beyond fits gap near long)

  whole : read_range fds_bytes 0 65500 ≡ ok fds_bytes
  whole =
      ap (λ t. read_range t 0 65500) (sym (append-nil fds_bytes))
      ∙ read_range_at [] fds_bytes [] 0 65500 refl (
          omega (
            arith,
            room,
            ap length (side-stored d),
            length-append {0} (stored_disk 0 d []) (zeros (fds_size - length (stored_disk 0 d []))),
            length-replicate {A = ℕ} (fds_size - length (stored_disk 0 d [])) 0,
          ))

  -- `FDS_bintofds` decodes a disk image. The file holds, in its first SLOTSIZE bytes, a lead-in
  -- of `lead` clear bytes (8 * lead + 5 at least MIN_GAP_SIZE, 8 * lead + 37 less than 0x10000),
  -- the layout of a side with gaps and checksums, and clear bytes, and behind them SLOTSIZE bytes
  -- of any content at most; the side is of bytes, of the standard structure, begins with `*NINT`,
  -- its blocks have their codes, and it is three bytes or more shorter than FDSSIZE. When the
  -- output can be created and memory is given as asked for, the command succeeds and saves the
  -- fwNES header with the count 0, the bytes of the side and clear bytes up to FDSSIZE, and
  -- nothing else.
  pub fds_bin_to_fds-lay :
      os.load filename dev.world ≡ (some disk_file, w1)
      → os.create out w1 ≡ (true, w2)
      → length beyond ≤ slot_size
      → fds_bin_to_fds os filename (some out) dev
        ≡ ok (true, moved dev (os.save out (fwnes_header 0 ++ fds_bytes) w2))
  unfolding fds_bin_to_fds
  fds_bin_to_fds-lay el ec few =
      ap opened (
        load_file-some os filename disk_file dev w1 el (
          omega (
            arith,
            few,
            length-append {0}
                (zeros lead ++ (laid_disk d ++ zeros (slot_size - (lead + length (laid_disk d)))))
                beyond,
            length-image d good lead slot_size 0 old raw beyond fits gap near long,
          )))
      ∙ ap created ec
      ∙ >>=-ok _ _ converted (>>=-ok _ _ decoded (>>=-ok _ _ whole refl))
    where
      created : Bool × σ → Run (Bool × Device σ)
      created c = elim c.0 [
        | false ↦ ok (false, moved dev c.1)
        | true ↦ bin_to_raw03 disk_file (os.malloc raw_size c.1) slot_size raw_size >>= λ cells.
            raw03_to_fds cells (os.malloc fds_size c.1) raw_size >>= λ r.
            read_range r.1 0 65500 >>= λ fds.
            ok (r.0, moved dev (os.save out (fwnes_header 0 ++ fds) c.1))
      ]

      opened : Option (List ℕ) × Device σ → Run (Bool × Device σ)
      opened loaded = elim loaded.0 [
        | none ↦ ok (false, loaded.1)
        | some bin ↦ pointer (some out) >>= λ name. elim (os.create name loaded.1.world).0 [
          | false ↦ ok (false, moved dev (os.create name loaded.1.world).1)
          | true ↦
              bin_to_raw03 bin (os.malloc raw_size (os.create name loaded.1.world).1) slot_size
                raw_size
              >>= λ cells.
                  raw03_to_fds cells (os.malloc fds_size (os.create name loaded.1.world).1) raw_size
                  >>= λ r. read_range r.1 0 65500 >>= λ fds. ok (
                    r.0,
                    moved dev
                        (os.save name (fwnes_header 0 ++ fds) (os.create name loaded.1.world).1),
                  )
        ]
      ]
