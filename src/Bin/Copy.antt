-- ===== src/Bin/Copy.antt =====
-- `copy_disk`, which both conversions share, on a side of the standard structure.
use fdsstick.Base.{ℕ, ◌+◌, ◌≤◌, ◌<◌, ◌≡◌, ◌≢◌, refl, sym, ap, ◌∙◌, arith}
use fdsstick.Base.{List, [], ◌∷◌, ◌++◌, length, length-append, length-replicate}
use fdsstick.Base.{append_assoc, append-nil, Returns}
use fdsstick.Base.{Run, ok, >>=-ok}
use fdsstick.Base.{write_range, write_range_at}
use fdsstick.Bin.{copy_block, copy_files, copy_disk, gap_bytes}
use fdsstick.Bin.Block.{zeros}
use fdsstick.Bin.Layout.{stored_files, laid_files, laid_block, on_buffer}
use fdsstick.Bin.Layout.{Disk, IsDisk, stored_disk, laid_disk, on_buffer-room}
use fdsstick.Bin.Files.{length-laid_block, copy_laid}
use fdsstick.Bin.Convert.{copy_files-lay, copy_files-give_up}

-- The room for the blocks 1 and 2, which the code does not check.
abbrev pub head_room : ℕ
head_room = 0x38 + 3 + gap_bytes + 2 + 3

module _ (d : Disk) (good : IsDisk d) (skip n stop fuel i : ℕ) (dst src front rest : List ℕ)
    (ne : stop ≢ 3) (hd : length dst ≡ n) (hr : head_room ≤ n)
    (es : src ≡ front ++ stored_disk skip d (stop ∷ rest)) (hi : i ≡ length front)
    (hf : length d.files < fuel) where
  abbrev tail : List ℕ
  tail = stored_files skip d.files (stop ∷ rest)

  abbrev head : List ℕ
  head = laid_block d.info ++ laid_block d.amount

  cleared : write_range dst 0 (zeros n) ≡ ok (on_buffer n [])
  cleared =
      ap (λ (t : List ℕ). write_range t 0 (zeros n)) (sym (append-nil dst))
      ∙ write_range_at [] dst (zeros n) [] 0 refl (hd ∙ sym (length-replicate n 0))
      ∙ ap ok (append-nil (zeros n) ∙ sym (on_buffer-room [] n n (omega arith)))

  first : copy_block (on_buffer n []) 0 src i 0x38 ≡ ok (on_buffer n (laid_block d.info))
  first =
      copy_laid n 0 0x38 i [] src front d.info (zeros skip ++ (d.amount ++ (zeros skip ++ tail)))
        (omega arith) es refl hi (sym good.info_length)

  second :
      copy_block (on_buffer n (laid_block d.info)) (0x38 + 3 + gap_bytes) src (i + 0x38 + skip) 2
      ≡ ok (on_buffer n head)
  second =
      copy_laid n (0x38 + 3 + gap_bytes) 2 (i + 0x38 + skip) (laid_block d.info) src
        (front ++ (d.info ++ zeros skip)) d.amount (zeros skip ++ tail) hr (es ∙ simp append_assoc)
        (omega (arith, length-laid_block d.info, good.info_length))
        (omega (
          arith,
          length-append {0} front (d.info ++ zeros skip),
          length-append {0} d.info (zeros skip),
          length-replicate {A = ℕ} skip 0,
          good.info_length,
        ))
        (sym good.amount_length)

  abbrev start : Run (ℕ × List ℕ)
  start =
      copy_files fuel skip n (on_buffer n head) (0x38 + 3 + gap_bytes + 2 + 3 + gap_bytes) src
        (i + 0x38 + skip + 2 + skip)

  copy_disk-start : copy_disk fuel skip n dst src i ≡ start
  unfolding copy_disk
  copy_disk-start = >>=-ok _ _ cleared (>>=-ok _ _ first (>>=-ok _ _ second refl))

  src_files : src ≡ (front ++ (d.info ++ (zeros skip ++ (d.amount ++ zeros skip)))) ++ tail
  src_files = es ∙ simp append_assoc

  length-head : 0x38 + 3 + gap_bytes + 2 + 3 + gap_bytes ≡ length head
  length-head = omega (
    arith,
    length-append {0} (laid_block d.info) (laid_block d.amount),
    length-laid_block d.info,
    length-laid_block d.amount,
    good.info_length,
    good.amount_length,
  )

  at_files :
      i + 0x38 + skip + 2 + skip
      ≡ length (front ++ (d.info ++ (zeros skip ++ (d.amount ++ zeros skip))))
  at_files = omega (
    arith,
    length-append {0} front (d.info ++ (zeros skip ++ (d.amount ++ zeros skip))),
    length-append {0} d.info (zeros skip ++ (d.amount ++ zeros skip)),
    length-append {0} (zeros skip) (d.amount ++ zeros skip),
    length-append {0} d.amount (zeros skip),
    length-replicate {A = ℕ} skip 0,
    good.info_length,
    good.amount_length,
  )

  head-laid : head ++ laid_files d.files ≡ laid_disk d
  unfolding laid_disk
  head-laid = append_assoc (laid_block d.info) (laid_block d.amount) (laid_files d.files)

  length-laid : length head + length (laid_files d.files) ≡ length (laid_disk d)
  length-laid = sym (length-append head (laid_files d.files)) ∙ ap length head-laid

  pub copy_disk-lay :
      length (laid_disk d) ≤ n + gap_bytes
      → copy_disk fuel skip n dst src i ≡ ok (length (laid_disk d), on_buffer n (laid_disk d))
  copy_disk-lay fits =
      copy_disk-start
      ∙ copy_files-lay skip n stop src rest ne d.files fuel _ _ head _ hf good.all_files src_files
          length-head at_files (omega (arith, length-laid, fits))
      ∙ ap (λ (t : List ℕ). ok (length t, on_buffer n t)) head-laid

  pub copy_disk-give_up :
      n + gap_bytes < length (laid_disk d)
      → Returns (copy_disk fuel skip n dst src i) (λ r. r.0 ≡ 0)
  copy_disk-give_up full = rw copy_disk-start (
      copy_files-give_up skip n stop src rest ne d.files fuel _ _ head _ hf good.all_files src_files
        length-head at_files (omega (arith, length-head)) (omega (arith, length-laid, full)))
