-- ===== src/Bin/Layout.antt =====
-- The standard structure of a disk side, how a file stores it, and how it is laid out on the disk.
use fdsstick.Base.{ℕ, zero, suc, ◌+◌, ◌-◌, ◌*◌, ◌≤◌, ◌<◌, ◌≡◌, refl, ap, ◌∙◌, arith, List, [], ◌∷◌}
use fdsstick.Base.{◌++◌, length, get_or, take}
use fdsstick.Base.{replicate-add, append_assoc, All}
use fdsstick.Bin.{gap_bytes}
use fdsstick.Bin.Block.{block_image, zeros}

-- A file: the block 3, its header, and the block 4, its contents.
pub record FileBlocks : Type 0 where
  pub header : List ℕ
  pub contents : List ℕ

pub record Disk : Type 0 where
  pub info : List ℕ
  pub amount : List ℕ
  pub files : List FileBlocks

-- The header has the block code 3, and at 13 the size of the contents less their block code.
pub record IsFile (f : FileBlocks) : Type 0 where
  pub header_length : length f.header ≡ 16
  pub kind : get_or f.header 0 0 ≡ 3
  pub low : get_or f.header 13 0 < 256
  pub size : get_or f.header 13 0 + get_or f.header 14 0 * 256 + 1 ≡ length f.contents

pub record IsDisk (d : Disk) : Type 0 where
  pub info_length : length d.info ≡ 0x38
  pub amount_length : length d.amount ≡ 2
  pub all_files : All IsFile d.files

-- The blocks of the files as the input holds them, `skip` unused bytes behind each, before `tail`.
abbrev pub stored_files : ℕ → List FileBlocks → List ℕ → List ℕ
stored_files skip [] tail = tail
stored_files skip (f ∷ fs) tail =
    f.header ++ (zeros skip ++ (f.contents ++ (zeros skip ++ stored_files skip fs tail)))

abbrev pub stored_disk : ℕ → Disk → List ℕ → List ℕ
stored_disk skip d tail =
    d.info ++ (zeros skip ++ (d.amount ++ (zeros skip ++ stored_files skip d.files tail)))

-- The clear space between two blocks.
unfoldable pub gap : List ℕ
gap = zeros gap_bytes

pub length-gap : length gap ≡ gap_bytes
unfolding gap
length-gap = refl

-- A block on the disk and the gap behind it.
abbrev pub laid_block : List ℕ → List ℕ
laid_block bytes = block_image bytes ++ gap

abbrev pub laid_files : List FileBlocks → List ℕ
laid_files [] = []
laid_files (f ∷ fs) = laid_block f.header ++ (laid_block f.contents ++ laid_files fs)

unfoldable pub laid_disk : Disk → List ℕ
laid_disk d = laid_block d.info ++ (laid_block d.amount ++ laid_files d.files)

-- A cleared buffer of `n` bytes over which `w` has been written; of the last gap only what fits.
unfoldable pub on_buffer : ℕ → List ℕ → List ℕ
on_buffer n w = take n (w ++ zeros n)

take-zeros : (n k m : ℕ) → n + k ≡ m → take n (zeros m) ≡ zeros n
take-zeros zero k m e = refl
take-zeros (suc n) k zero e = absurd (omega arith)
take-zeros (suc n) k (suc m) e = ap (λ t. 0 ∷ t) (take-zeros n k m (omega arith))

take-cleared :
    (v : List ℕ) (n m k : ℕ) → length v + m ≡ n → m ≤ k → take n (v ++ zeros k) ≡ v ++ zeros m
take-cleared [] n m k e h =
    let same : m ≡ n = omega arith in rw same (take-zeros n (k - n) k (omega arith))
take-cleared (x ∷ v) zero m k e h = absurd (omega arith)
take-cleared (x ∷ v) (suc n) m k e h = ap (λ t. x ∷ t) (take-cleared v n m k (omega arith) h)

-- What is still clear may be counted as written.
pub on_buffer-gap :
    (v : List ℕ) (n m : ℕ) → length v + m ≡ n → on_buffer n (v ++ gap) ≡ v ++ zeros m
unfolding on_buffer gap
on_buffer-gap v n m e =
    ap (take n) (
      append_assoc v (zeros gap_bytes) (zeros n)
      ∙ ap (λ t. v ++ t) (replicate-add gap_bytes n (gap_bytes + n) 0 refl))
    ∙ take-cleared v n m (gap_bytes + n) e (omega arith)

pub on_buffer-room : (w : List ℕ) (n m : ℕ) → length w + m ≡ n → on_buffer n w ≡ w ++ zeros m
unfolding on_buffer
on_buffer-room w n m e = take-cleared w n m n e (omega arith)
