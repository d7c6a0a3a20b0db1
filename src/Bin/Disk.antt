-- ===== src/Bin/Disk.antt =====
-- The two conversions on a whole disk side of the standard structure.
use fdsstick.Base.{ℕ, ◌+◌, ◌≤◌, ◌<◌, ◌≡◌, ◌≢◌, refl, sym, ap, ◌∙◌, arith}
use fdsstick.Base.{List, [], ◌∷◌, ◌++◌, length, get_or, length-append, length-replicate}
use fdsstick.Base.{append_assoc, All, true, Returns}
use fdsstick.Base.{ok, >>=-ok, ==_iff}
use fdsstick.Base.{read, read_inside}
use fdsstick.Bin.{copy_disk, check_bytes, gap_bytes, fds_to_bin}
use fdsstick.Bin.{game_doctor_to_bin}
use fdsstick.Bin.Block.{zeros}
use fdsstick.Bin.Layout.{FileBlocks, IsFile, stored_files, on_buffer}
use fdsstick.Bin.Layout.{Disk, IsDisk, stored_disk, laid_disk}
use fdsstick.Bin.Copy.{head_room, copy_disk-lay, copy_disk-give_up}

-- The start of `*NINTENDO-HVC*`, which is what the code looks at.
pub record HasSignature (d : Disk) : Type 0 where
  pub code : get_or d.info 0 0 ≡ 1
  pub star : get_or d.info 1 0 ≡ 0x2a
  pub letter : get_or d.info 2 0 ≡ 0x4e

length-stored_files :
    (skip : ℕ) (fs : List FileBlocks) (tail : List ℕ)
    → All IsFile fs
    → length fs + length tail ≤ length (stored_files skip fs tail)
length-stored_files skip [] tail good = omega arith
length-stored_files skip (f ∷ fs) tail good = omega (
  arith,
  length-append {0} f.header
      (zeros skip ++ (f.contents ++ (zeros skip ++ stored_files skip fs tail))),
  length-append {0} (zeros skip) (f.contents ++ (zeros skip ++ stored_files skip fs tail)),
  length-append {0} f.contents (zeros skip ++ stored_files skip fs tail),
  length-append {0} (zeros skip) (stored_files skip fs tail),
  good.0.header_length,
  length-stored_files skip fs tail good.1,
)

length-append-le : (xs ys : List ℕ) → length ys ≤ length (xs ++ ys)
length-append-le xs ys = omega (arith, length-append {0} xs ys)

-- The fuel of both conversions covers every file.
enough :
    (skip : ℕ) (d : Disk) (front rest : List ℕ) (stop : ℕ)
    → IsDisk d
    → length d.files < length (front ++ stored_disk skip d (stop ∷ rest))
enough skip d front rest stop good = omega (
  arith,
  length-stored_files skip d.files (stop ∷ rest) good.all_files,
  length-append-le (zeros skip) (stored_files skip d.files (stop ∷ rest)),
  length-append-le d.amount (zeros skip ++ stored_files skip d.files (stop ∷ rest)),
  length-append-le (zeros skip)
      (d.amount ++ (zeros skip ++ stored_files skip d.files (stop ∷ rest))),
  length-append-le d.info
      (zeros skip ++ (d.amount ++ (zeros skip ++ stored_files skip d.files (stop ∷ rest)))),
  length-append-le front (stored_disk skip d (stop ∷ rest)),
)

-- One test that passes.
check_bytes-pass :
    (src : List ℕ) (i v : ℕ) (more : List (ℕ × ℕ))
    → read src i ≡ ok v
    → check_bytes src ((i, v) ∷ more) ≡ check_bytes src more
unfolding check_bytes
check_bytes-pass src i v more e = >>=-ok _ _ e (rw ((==_iff v v).1 refl) refl)

-- The bytes of the block 1 and of the block 2, wherever they stand in the file.
info_byte :
    (skip : ℕ) (d : Disk) (front tail : List ℕ) (i j : ℕ)
    → IsDisk d
    → i ≡ length front + j
    → j < 0x38
    → read (front ++ stored_disk skip d tail) i ≡ ok (get_or d.info j 0)
info_byte skip d front tail i j good e h =
    read_inside front d.info
      (zeros skip ++ (d.amount ++ (zeros skip ++ stored_files skip d.files tail))) i j e
      (omega (arith, good.info_length))

amount_byte :
    (skip : ℕ) (d : Disk) (front tail : List ℕ) (i : ℕ)
    → IsDisk d
    → i ≡ length front + 0x38 + skip
    → read (front ++ stored_disk skip d tail) i ≡ ok (get_or d.amount 0 0)
amount_byte skip d front tail i good e = rw regroup (
    read_inside (front ++ (d.info ++ zeros skip)) d.amount
      (zeros skip ++ stored_files skip d.files tail) i 0
      (omega (
        arith,
        length-append {0} front (d.info ++ zeros skip),
        length-append {0} d.info (zeros skip),
        length-replicate {A = ℕ} skip 0,
        good.info_length,
      ))
      (omega (arith, good.amount_length)))
  where
    regroup :
        front ++ stored_disk skip d tail
        ≡ (front ++ (d.info ++ zeros skip))
          ++ (d.amount ++ (zeros skip ++ stored_files skip d.files tail))
    regroup = simp append_assoc

module _ (d : Disk) (good : IsDisk d) (sign : HasSignature d) (n stop : ℕ) (dst rest : List ℕ)
    (ne : stop ≢ 3) (hd : length dst ≡ n) (hr : head_room ≤ n) where
  abbrev fds_file : List ℕ
  fds_file = stored_disk 0 d (stop ∷ rest)

  -- A Game Doctor file has three bytes before the disk and two dummy bytes behind each block.
  abbrev game_doctor_file : ℕ → ℕ → ℕ → List ℕ
  game_doctor_file a b c = (a ∷ b ∷ c ∷ []) ++ stored_disk 2 d (stop ∷ rest)

  fds_accepts : check_bytes fds_file ((0, 0x01) ∷ (1, 0x2a) ∷ (2, 0x4e) ∷ []) ≡ ok true
  fds_accepts =
      check_bytes-pass fds_file 0 1 ((1, 0x2a) ∷ (2, 0x4e) ∷ [])
        (byte 0 (omega arith) ∙ ap ok sign.code)
      ∙ check_bytes-pass fds_file 1 0x2a ((2, 0x4e) ∷ []) (byte 1 (omega arith) ∙ ap ok sign.star)
      ∙ check_bytes-pass fds_file 2 0x4e [] (byte 2 (omega arith) ∙ ap ok sign.letter)
      ∙ unfold check_bytes in refl
    where
      byte : (j : ℕ) → j < 0x38 → read fds_file j ≡ ok (get_or d.info j 0)
      byte j h = info_byte 0 d [] (stop ∷ rest) j j good (omega arith) h

  game_doctor_accepts :
      (a b c : ℕ)
      → get_or d.amount 0 0 ≡ 2
      → check_bytes (game_doctor_file a b c) ((3, 0x01) ∷ (4, 0x2a) ∷ (5, 0x4e) ∷ (0x3d, 0x02) ∷ [])
        ≡ ok true
  game_doctor_accepts a b c two =
      check_bytes-pass (game_doctor_file a b c) 3 1 ((4, 0x2a) ∷ (5, 0x4e) ∷ (0x3d, 0x02) ∷ [])
        (byte 3 0 refl (omega arith) ∙ ap ok sign.code)
      ∙ check_bytes-pass (game_doctor_file a b c) 4 0x2a ((5, 0x4e) ∷ (0x3d, 0x02) ∷ [])
          (byte 4 1 refl (omega arith) ∙ ap ok sign.star)
      ∙ check_bytes-pass (game_doctor_file a b c) 5 0x4e ((0x3d, 0x02) ∷ [])
          (byte 5 2 refl (omega arith) ∙ ap ok sign.letter)
      ∙ check_bytes-pass (game_doctor_file a b c) 0x3d 2 []
          (amount_byte 2 d (a ∷ b ∷ c ∷ []) (stop ∷ rest) 0x3d good refl ∙ ap ok two)
      ∙ unfold check_bytes in refl
    where
      byte :
          (i j : ℕ)
          → i ≡ 3 + j
          → j < 0x38
          → read (game_doctor_file a b c) i ≡ ok (get_or d.info j 0)
      byte i j e h = info_byte 2 d (a ∷ b ∷ c ∷ []) (stop ∷ rest) i j good e h

  fds_to_bin-start : fds_to_bin dst fds_file n ≡ copy_disk (length fds_file) 0 n dst fds_file 0
  unfolding fds_to_bin
  fds_to_bin-start = rw fds_accepts refl

  game_doctor-start :
      (a b c : ℕ)
      → get_or d.amount 0 0 ≡ 2
      → game_doctor_to_bin dst (game_doctor_file a b c) n
        ≡ copy_disk (length (game_doctor_file a b c)) 2 n dst (game_doctor_file a b c) 3
  unfolding game_doctor_to_bin
  game_doctor-start a b c two = rw (game_doctor_accepts a b c two) refl

  -- An .FDS side of the standard structure and signature, followed by a byte other than 3, whose
  -- layout fits the output up to the gap behind the last block, with room for the first two
  -- blocks, becomes exactly that layout over a cleared buffer, and the value returned is the
  -- length of the layout.
  pub fds_to_bin-lay :
      length (laid_disk d) ≤ n + gap_bytes
      → fds_to_bin dst fds_file n ≡ ok (length (laid_disk d), on_buffer n (laid_disk d))
  fds_to_bin-lay fits =
      fds_to_bin-start
      ∙ copy_disk-lay d good 0 n stop (length fds_file) 0 dst fds_file [] rest ne hd hr refl refl
          (enough 0 d [] rest stop good) fits

  -- A side of the standard structure and signature, followed by a byte other than 3, whose layout
  -- exceeds the output by more than the last gap is refused: the conversion returns, and returns
  -- 0, when the output has room for the first two blocks.
  pub fds_to_bin-give_up :
      n + gap_bytes < length (laid_disk d) → Returns (fds_to_bin dst fds_file n) (λ r. r.0 ≡ 0)
  fds_to_bin-give_up full = rw fds_to_bin-start (
      copy_disk-give_up d good 0 n stop (length fds_file) 0 dst fds_file [] rest ne hd hr refl refl
        (enough 0 d [] rest stop good) full)

  -- Under the conditions on the side of the layout theorem, and when the block 2 begins with its
  -- code 2, a Game Doctor file with any three bytes before the blocks becomes the same disk, with
  -- the same value returned, as the .FDS file with the same blocks.
  pub game_doctor_to_bin-fds_to_bin :
      (a b c : ℕ)
      → get_or d.amount 0 0 ≡ 2
      → length (laid_disk d) ≤ n + gap_bytes
      → game_doctor_to_bin dst (game_doctor_file a b c) n ≡ fds_to_bin dst fds_file n
  game_doctor_to_bin-fds_to_bin a b c two fits =
      game_doctor-start a b c two
      ∙ copy_disk-lay d good 2 n stop (length (game_doctor_file a b c)) 3 dst
          (game_doctor_file a b c) (a ∷ b ∷ c ∷ []) rest ne hd hr refl refl
          (enough 2 d (a ∷ b ∷ c ∷ []) rest stop good) fits
      ∙ sym (fds_to_bin-lay fits)
