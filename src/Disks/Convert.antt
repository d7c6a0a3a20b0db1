-- ===== src/Disks/Convert.antt =====
-- `FDS_convertDisk` on a file of one side.
use fdsstick.Base.{
  ℕ, suc, ◌+◌, ◌-◌, ◌*◌, ◌≤◌, ◌<◌, ◌≡◌, ◌≢◌, refl, sym, ap, ◌∙◌, arith, Bool, true, false, List, [],
  ◌∷◌, ◌++◌, Option, none, some, length, length-append, length-replicate, length-drop, append_assoc,
  replicate, drop, ltb, le→ltb, if◌then◌else◌, Run, ok, ◌>>=◌, >>=-ok, read, read_inside,
  read_range, read_range_at, ◌==◌, when_false,
}
use fdsstick.Bin.{fds_to_bin}
use fdsstick.Bin.Block.{zeros}
use fdsstick.Bin.Layout.{
  Disk, IsDisk, stored_disk, stored_files, laid_block, laid_files, laid_disk, on_buffer,
  on_buffer-room,
}
use fdsstick.Bin.Files.{length-laid_block}
use fdsstick.Bin.Disk.{HasSignature, fds_to_bin-lay}
use fdsstick.Raw.{fds_size}
use fdsstick.Device.{Device}
use fdsstick.Spi.{Action}
use fdsstick.Os.{Os, moved, Allocates}
use fdsstick.Disks.{
  whole_sides, lead_in, disk_size, has_side, first_side, load_file, write_bin, ask_next, sides_loop,
  each_side, fds_convert_disk,
}
use fdsstick.Disks.Sides.{whole_sides_lem, sides_loop-last}

-- A layout is never empty.
length-laid_disk : (d : Disk) → 0 < length (laid_disk d)
unfolding laid_disk
length-laid_disk d = omega (
  arith,
  length-append {0} (laid_block d.info) (laid_block d.amount ++ laid_files d.files),
  length-laid_block d.info,
)

module _ {σ : Type 0} (os : Os σ) where
  pub load_file-some :
      (filename bytes : List ℕ) (dev : Device σ) (w : σ)
      → os.load filename dev.world ≡ (some bytes, w)
      → length bytes ≤ 0x10_0000
      → load_file os filename dev ≡ (some bytes, moved dev w)
  unfolding load_file
  load_file-some filename bytes dev w e h =
      ap opened e
      ∙ ap (λ b. (if b then none else some bytes, moved dev w)) (le→ltb 0x10_0000 (length bytes) h)
    where
      opened : Option (List ℕ) × σ → Option (List ℕ) × Device σ
      opened r = elim r.0 [
        | none ↦ (none, moved dev r.1)
        | some found ↦ (if ltb 0x10_0000 (length found) then none else some found, moved dev r.1)
      ]

  write_bin-saved :
      (fn bytes more : List ℕ) (size : ℕ) (dev : Device σ) (w : σ)
      → os.create fn dev.world ≡ (true, w)
      → size ≡ length bytes
      → write_bin os (some fn) (bytes ++ more) size dev ≡ ok (true, moved dev (os.save fn bytes w))
  unfolding write_bin
  write_bin-saved fn bytes more size dev w e h =
      ap created e ∙ >>=-ok _ _ (read_range_at [] bytes more 0 size refl h) refl
    where
      created : Bool × σ → Run (Bool × Device σ)
      created c = elim c.0 [
        | false ↦ ok (false, moved dev c.1)
        | true ↦ read_range (bytes ++ more) 0 size >>= λ saved.
            ok (true, moved dev (os.save fn saved c.1))
      ]

  ask_next-over :
      (inbuf : List ℕ) (filesize inpos : ℕ) (dev : Device σ)
      → filesize ≤ inpos
      → ask_next os inbuf filesize inpos dev ≡ ok (false, dev)
  unfolding ask_next has_side
  ask_next-over inbuf filesize inpos dev h =
      >>=-ok (has_side inbuf filesize inpos) _
        (when_false (ltb inpos filesize) _ _ (le→ltb inpos filesize h)) refl

  -- The loop runs on the file that was loaded.
  each_side-loaded :
      (prepare : Device σ → Run (Device σ)) (emit : List ℕ → ℕ → Action σ) (filename inbuf : List ℕ)
      (dev d : Device σ) (c : ℕ)
      → load_file os filename dev ≡ (some inbuf, d)
      → read inbuf 0 ≡ ok c
      → (c == 0x46) ≡ false
      → each_side os prepare emit filename dev
        ≡ sides_loop os
            (length inbuf + 1)
            prepare
            emit
            inbuf
            (whole_sides (length inbuf) 0)
            (os.malloc disk_size d.world)
            0
            d
  unfolding each_side first_side
  each_side-loaded prepare emit filename inbuf dev d c el er ec =
      ap loaded el
      ∙ >>=-ok (first_side inbuf) _
          (>>=-ok (read inbuf 0) _ er (ap (λ b. ok (if b then 16 else 0)) ec)) refl
    where
      loaded : Option (List ℕ) × Device σ → Run (Bool × Device σ)
      loaded r = elim r.0 [
        | none ↦ ok (false, r.1)
        | some bytes ↦ first_side bytes >>= λ inpos.
            sides_loop os (length bytes + 1) prepare emit bytes (whole_sides (length bytes) inpos)
              (os.malloc disk_size r.1.world) inpos r.1
      ]

  -- The file on the disk is the lead-in and what the conversion laid out.
  saved_image :
      (d : Disk) (out : List ℕ) (dev : Device σ) (w : σ)
      → os.create out dev.world ≡ (true, w)
      → length (laid_disk d) ≤ disk_size - lead_in
      → write_bin os
          (some out)
          (replicate lead_in 0 ++ on_buffer (disk_size - lead_in) (laid_disk d))
          (length (laid_disk d) + lead_in)
          dev
        ≡ ok (true, moved dev (os.save out (replicate lead_in 0 ++ laid_disk d) w))
  saved_image d out dev w e h = sized lead_in (disk_size - lead_in) h
    where
      sized :
          (n m : ℕ)
          → length (laid_disk d) ≤ m
          → write_bin os
              (some out)
              (replicate n 0 ++ on_buffer m (laid_disk d))
              (length (laid_disk d) + n)
              dev
            ≡ ok (true, moved dev (os.save out (replicate n 0 ++ laid_disk d) w))
      sized n m k =
          ap (λ t. write_bin os (some out) t (length (laid_disk d) + n) dev)
            (ap (λ t. replicate n 0 ++ t)
                (on_buffer-room (laid_disk d) m (m - length (laid_disk d)) (omega (arith, k)))
              ∙ sym (append_assoc (replicate n 0) (laid_disk d) (zeros (m - length (laid_disk d)))))
          ∙ write_bin-saved out (replicate n 0 ++ laid_disk d) _ (length (laid_disk d) + n) dev w e
              (omega (
                arith,
                length-append {0} (replicate n 0) (laid_disk d),
                length-replicate {0} {A = ℕ} n 0,
              ))

  -- An .FDS file without a header, with one side of the standard structure and signature, a byte
  -- other than 3 behind its blocks, and less than a second side, is converted to a file that
  -- holds the lead-in, all zeros, and behind it exactly the layout of the side, when the layout
  -- fits the buffer, the output can be created and memory is given as asked for. The command
  -- succeeds and saves nothing else.
  pub fds_convert_disk-lay :
      (d : Disk) (stop : ℕ) (rest filename out : List ℕ) (dev : Device σ) (w1 w2 : σ)
      → IsDisk d
      → HasSignature d
      → stop ≢ 3
      → length (stored_disk 0 d (stop ∷ rest)) < 2 * fds_size
      → length (laid_disk d) ≤ disk_size - lead_in
      → os.load filename dev.world ≡ (some (stored_disk 0 d (stop ∷ rest)), w1)
      → os.create out w1 ≡ (true, w2)
      → Allocates os
      → fds_convert_disk os filename (some out) dev
        ≡ ok (true, moved dev (os.save out (replicate lead_in 0 ++ laid_disk d) w2))
  unfolding fds_convert_disk
  fds_convert_disk-lay d stop rest filename out dev w1 w2 good sign ne hl fits el ec alloc =
      each_side-loaded (λ d. ok d) (λ bin size d. write_bin os (some out) bin (size + lead_in) d)
        filename file dev (moved dev w1) 1
        (load_file-some filename file dev w1 el (omega (arith, hl))) first refl
      ∙ ap
          (λ (n : ℕ).
            sides_loop os n (λ d. ok d)
              (λ bin size d. write_bin os (some out) bin (size + lead_in) d) file
              (whole_sides (length file) 0) (os.malloc disk_size w1) 0 (moved dev w1))
          one_more
      ∙ sides_loop-last os (length file) (λ d. ok d)
          (λ bin size d. write_bin os (some out) bin (size + lead_in) d) file
          (whole_sides (length file) 0) (os.malloc disk_size w1) 0 (length (laid_disk d))
          (on_buffer (disk_size - lead_in) (laid_disk d)) (moved dev w1) (moved dev w1) _ _
          (omega (arith, alloc disk_size w1)) refl converted laid_some
          (saved_image d out (moved dev w1) w2 ec fits)
          (ask_next-over file (whole_sides (length file) 0) fds_size _ (
            let whole = whole_sides_lem (length file) 0 (omega arith) in
            omega (arith, hl, whole.0, whole.2)))
    where
      file : List ℕ
      file = stored_disk 0 d (stop ∷ rest)

      one_more : length file + 1 ≡ suc (length file)
      one_more = omega arith

      first : read file 0 ≡ ok 1
      first =
          read_inside [] d.info (d.amount ++ stored_files 0 d.files (stop ∷ rest)) 0 0 refl
            (omega (arith, good.info_length))
          ∙ ap ok sign.code

      laid_some : length (laid_disk d) ≢ 0
      laid_some e = omega (arith, length-laid_disk d, e)

      converted :
          fds_to_bin (drop lead_in (os.malloc disk_size w1)) file (disk_size - lead_in)
          ≡ ok (length (laid_disk d), on_buffer (disk_size - lead_in) (laid_disk d))
      converted =
          fds_to_bin-lay d good sign (disk_size - lead_in) stop
            (drop lead_in (os.malloc disk_size w1)) rest ne
            (omega (arith, alloc disk_size w1, length-drop lead_in (os.malloc disk_size w1)))
            (omega arith) (omega (arith, fits))
