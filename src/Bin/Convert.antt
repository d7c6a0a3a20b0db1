-- ===== src/Bin/Convert.antt =====
-- The loop over all files, and the two conversions, on a disk of the standard structure.
use fdsstick.Base.{ℕ, zero, suc, ◌+◌, ◌≤◌, ◌<◌, ◌≡◌, ◌≢◌, refl, ap, ◌∙◌, arith}
use fdsstick.Base.{List, [], ◌∷◌, ◌++◌, length, length-append, length-replicate}
use fdsstick.Base.{append_assoc, append-nil, All, false, Returns}
use fdsstick.Base.{ok, >>=-ok, ◌==◌, inl, inr, ◌⊎◌}
use fdsstick.Base.{read, read_at}
use fdsstick.Bin.{copy_files, gap_bytes}
use fdsstick.Bin.Block.{zeros}
use fdsstick.Bin.Layout.{FileBlocks, IsFile, stored_files, laid_files, laid_block, on_buffer}
use fdsstick.Bin.Files.{copy_files-room, copy_files-full, length-laid_block}

-- The loop ends at the first byte that is not a block code 3.
copy_files-stop :
    (fuel skip n o i stop : ℕ) (dst src front rest : List ℕ)
    → src ≡ front ++ (stop ∷ rest)
    → i ≡ length front
    → stop ≢ 3
    → copy_files (suc fuel) skip n dst o src i ≡ ok (o, dst)
unfolding copy_files
copy_files-stop fuel skip n o i stop dst src front rest es hi ne =
    >>=-ok _ _ at_stop (rw not_three refl)
  where
    at_stop : read src i ≡ ok stop
    at_stop = rw es (read_at front stop rest i hi)

    not_three : (stop == 3) ≡ false
    not_three = ground arith

le_or_lt : (a b : ℕ) → (a ≤ b) ⊎ (b < a)
le_or_lt a b = omega arith

-- The bytes that a file takes on the disk, its gaps included.
length-laid_files :
    (f : FileBlocks) (fs : List FileBlocks)
    → IsFile f
    → length (laid_files (f ∷ fs))
      ≡ 16 + 3 + gap_bytes + length f.contents + 3 + gap_bytes + length (laid_files fs)
length-laid_files f fs good = omega (
  arith,
  length-append {0} (laid_block f.header) (laid_block f.contents ++ laid_files fs),
  length-append {0} (laid_block f.contents) (laid_files fs),
  length-laid_block f.header,
  length-laid_block f.contents,
  good.header_length,
)

module _ (skip n stop : ℕ) (src rest : List ℕ) (ne : stop ≢ 3) where
  module _ (f : FileBlocks) (fs : List FileBlocks) (o i : ℕ) (w front : List ℕ) (good : IsFile f)
      (es : src ≡ front ++ stored_files skip (f ∷ fs) (stop ∷ rest)) (ho : o ≡ length w)
      (hi : i ≡ length front) where
    abbrev written : List ℕ
    written = w ++ (laid_block f.header ++ laid_block f.contents)

    abbrev passed : List ℕ
    passed = front ++ (f.header ++ (zeros skip ++ (f.contents ++ zeros skip)))

    passed-src : src ≡ passed ++ stored_files skip fs (stop ∷ rest)
    passed-src = es ∙ simp append_assoc

    passed-length : i + 16 + skip + length f.contents + skip ≡ length passed
    passed-length = omega (
      arith,
      length-append {0} front (f.header ++ (zeros skip ++ (f.contents ++ zeros skip))),
      length-append {0} f.header (zeros skip ++ (f.contents ++ zeros skip)),
      length-append {0} (zeros skip) (f.contents ++ zeros skip),
      length-append {0} f.contents (zeros skip),
      length-replicate {A = ℕ} skip 0,
      good.header_length,
    )

    written-length : o + 16 + 3 + gap_bytes + length f.contents + 3 + gap_bytes ≡ length written
    written-length = omega (
      arith,
      length-append {0} w (laid_block f.header ++ laid_block f.contents),
      length-append {0} (laid_block f.header) (laid_block f.contents),
      length-laid_block f.header,
      length-laid_block f.contents,
      good.header_length,
    )

    written-laid : written ++ laid_files fs ≡ w ++ laid_files (f ∷ fs)
    written-laid = simp append_assoc

  -- The loop over all files. `o` is the place of the next block, `w` what stands before it.
  pub copy_files-lay :
      (fs : List FileBlocks) (fuel o i : ℕ) (w front : List ℕ)
      → length fs < fuel
      → All IsFile fs
      → src ≡ front ++ stored_files skip fs (stop ∷ rest)
      → o ≡ length w
      → i ≡ length front
      → length w + length (laid_files fs) ≤ n + gap_bytes
      → copy_files fuel skip n (on_buffer n w) o src i
        ≡ ok (length (w ++ laid_files fs), on_buffer n (w ++ laid_files fs))
  copy_files-lay fs zero o i w front hf good es ho hi fits = absurd (omega arith)
  copy_files-lay [] (suc fuel) o i w front hf good es ho hi fits =
      copy_files-stop fuel skip n o i stop (on_buffer n w) src front rest es hi ne
      ∙ rw (append-nil, ho) refl
  copy_files-lay (f ∷ fs) (suc fuel) o i w front hf good es ho hi fits =
      copy_files-room f good.0 skip n o i w src front _ es ho hi fuel
        (omega (arith, length-laid_files f fs good.0, fits))
      ∙ copy_files-lay fs fuel _ _ (written f fs o i w front good.0 es ho hi)
          (passed f fs o i w front good.0 es ho hi) (omega arith) good.1
          (passed-src f fs o i w front good.0 es ho hi)
          (written-length f fs o i w front good.0 es ho hi)
          (passed-length f fs o i w front good.0 es ho hi)
          (omega
            (arith, length-laid_files f fs good.0, written-length f fs o i w front good.0 es ho hi))
      ∙ ap (λ (t : List ℕ). ok (length t, on_buffer n t))
          (written-laid f fs o i w front good.0 es ho hi)

  -- Without the room for all files, the loop gives up with 0.
  pub copy_files-give_up :
      (fs : List FileBlocks) (fuel o i : ℕ) (w front : List ℕ)
      → length fs < fuel
      → All IsFile fs
      → src ≡ front ++ stored_files skip fs (stop ∷ rest)
      → o ≡ length w
      → i ≡ length front
      → length w ≤ n + gap_bytes
      → n + gap_bytes < length w + length (laid_files fs)
      → Returns (copy_files fuel skip n (on_buffer n w) o src i) (λ r. r.0 ≡ 0)
  copy_files-give_up fs zero o i w front hf good es ho hi room full = absurd (omega arith)
  copy_files-give_up [] (suc fuel) o i w front hf good es ho hi room full = absurd (omega arith)
  copy_files-give_up (f ∷ fs) (suc fuel) o i w front hf good es ho hi room full =
      elim (le_or_lt (o + 16 + 3 + gap_bytes + length f.contents + 3) n) [
        | inl fits ↦ rw (copy_files-room f good.0 skip n o i w src front _ es ho hi fuel fits) (
            copy_files-give_up fs fuel _ _ (written f fs o i w front good.0 es ho hi)
              (passed f fs o i w front good.0 es ho hi) (omega arith) good.1
              (passed-src f fs o i w front good.0 es ho hi)
              (written-length f fs o i w front good.0 es ho hi)
              (passed-length f fs o i w front good.0 es ho hi)
              (omega (arith, written-length f fs o i w front good.0 es ho hi))
              (omega (
                arith,
                length-laid_files f fs good.0,
                written-length f fs o i w front good.0 es ho hi,
              )))
        | inr short ↦
            rw (copy_files-full f good.0 skip n o i w src front _ es ho hi fuel short) refl
      ]
