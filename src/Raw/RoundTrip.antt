-- ===== src/Raw/RoundTrip.antt =====
-- From an .FDS file to pulses and back, as fds.cpp chains the conversions.
use fdsstick.Base.{ℕ, zero, suc, ◌+◌, ◌-◌, ◌*◌, ◌≤◌, ◌<◌, ◌≡◌, ◌≢◌, refl, sym, ap, ◌∙◌, arith, true}
use fdsstick.Base.{List, [], ◌∷◌, ◌++◌, length, get_or, length-append, length-replicate, replicate}
use fdsstick.Base.{append_assoc, replicate-add, Run, Bool, ok, ◌>>=◌, >>=-ok, some}
use fdsstick.Bin.{fds_to_bin}
use fdsstick.Bin.Block.{zeros}
use fdsstick.Bin.Files.{length-laid_block}
use fdsstick.Bin.Layout.{IsDisk, laid_block, laid_files}
use fdsstick.Bin.Layout.{Disk, stored_disk, laid_disk, on_buffer, on_buffer-room}
use fdsstick.Bin.Copy.{head_room}
use fdsstick.Bin.Disk.{HasSignature, fds_to_bin-lay}
use fdsstick.Raw.Pulses.{Pending, bits_of, fresh, begun, pulses}
use fdsstick.Raw.Image.{bits_of-append, length-bits_of}
use fdsstick.Raw.Bits.{bits_of-zeros}
use fdsstick.Raw.Stream.{pulses-lead_one}
use fdsstick.Raw.First.{find_first_block-one}
use fdsstick.Raw.Side.{IsReadableDisk, side}
use fdsstick.Raw.Recover.{bits_behind, laid_bits, cells, pattern, recovered}
use fdsstick.Raw.Encode.{bin_to_raw03}
use fdsstick.Raw.Encode.Lay.{bin_to_raw03-lay}
use fdsstick.Raw.{fds_size, min_gap_size, first_block, find_first_block, raw03_to_fds}

-- The three conversions: the disk image behind `lead` clear bytes, the pulses of the first `size`
-- bytes of the two, and what is decoded from them.
abbrev pub there_and_back : ℕ → ℕ → ℕ → List ℕ → List ℕ → List ℕ → List ℕ → Run (Bool × List ℕ)
there_and_back lead n size file bin raw fds = do
  converted ← fds_to_bin bin file n
  pulsed ← bin_to_raw03 (zeros lead ++ converted.1) raw size (length raw)
  raw03_to_fds pulsed fds (length pulsed)

signature-HasSignature : (d : Disk) → IsReadableDisk d → HasSignature d
signature-HasSignature d good = record {
  code = ap (λ t. get_or t 0 0) good.signature;
  star = ap (λ t. get_or t 1 0) good.signature;
  letter = ap (λ t. get_or t 2 0) good.signature;
}

-- A pulse needs a bit.
pulses-few : (p : Pending) (bs : List ℕ) → length (pulses p bs) ≤ length bs
unfolding pulses
pulses-few p [] = omega arith
pulses-few fresh (zero ∷ bs) = omega (arith, pulses-few (begun 1) bs)
pulses-few fresh (suc b ∷ bs) = omega (arith, pulses-few fresh bs)
pulses-few (begun v) (zero ∷ bs) = omega (arith, pulses-few (begun 0) bs)
pulses-few (begun v) (suc b ∷ bs) = omega (arith, pulses-few fresh bs)

-- A disk has room for the blocks 1 and 2.
length-laid_disk : (d : Disk) → IsDisk d → head_room ≤ length (laid_disk d)
unfolding laid_disk
length-laid_disk d good = omega (
  arith,
  good.info_length,
  good.amount_length,
  length-append {0} (laid_block d.info) (laid_block d.amount ++ laid_files d.files),
  length-append {0} (laid_block d.amount) (laid_files d.files),
  length-laid_block d.info,
  length-laid_block d.amount,
)

module _ (d : Disk) (good : IsReadableDisk d) (lead size e : ℕ) (old raw beyond : List ℕ)
    (fits : lead + length (laid_disk d) ≤ size) (gap : min_gap_size ≤ 8 * lead + 5)
    (near : 8 * lead + 37 < 0x1_0000) (long : 8 * size ≤ length raw) where
  abbrev unused : ℕ
  unused = size - (lead + length (laid_disk d))

  -- The disk behind its lead-in, in `size` bytes.
  abbrev pub image : List ℕ
  image = zeros lead ++ (laid_disk d ++ zeros unused)

  abbrev undefined : ℕ
  undefined = length raw - length (pulses fresh (bits_of image))

  abbrev pub pulsed : List ℕ
  pulsed = pulses fresh (bits_of image) ++ replicate undefined 3

  pub length-image : size ≡ length image
  length-image = omega (
    arith,
    fits,
    length-append {0} (zeros lead) (laid_disk d ++ zeros unused),
    length-append {0} (laid_disk d) (zeros unused),
    length-replicate {A = ℕ} lead 0,
    length-replicate {A = ℕ} unused 0,
  )

  pub encoded : bin_to_raw03 (image ++ beyond) raw size (length raw) ≡ ok pulsed
  encoded = bin_to_raw03-lay image beyond raw size (length raw) length-image refl long

  pub length-pulsed : length pulsed ≡ length raw
  length-pulsed = omega (
    arith,
    length-append {0} (pulses fresh (bits_of image)) (replicate undefined 3),
    length-replicate {A = ℕ} undefined 3,
    pulses-few fresh (bits_of image),
    length-bits_of image,
    length-image,
    long,
  )

  abbrev behind : List ℕ
  behind = bits_behind d good (8 * unused) undefined

  image_bits : bits_of image ≡ 0 ∷ 0 ∷ (zeros (8 * lead + 5) ++ (1 ∷ behind))
  image_bits =
      bits_of-append (zeros lead) (laid_disk d ++ zeros unused)
      ∙ ap (λ t. t ++ bits_of (laid_disk d ++ zeros unused)) (bits_of-zeros lead)
      ∙ ap (λ t. zeros (8 * lead) ++ t)
          (bits_of-append (laid_disk d) (zeros unused)
            ∙ ap (λ t. bits_of (laid_disk d) ++ t) (bits_of-zeros unused)
            ∙ laid_bits d good (8 * unused) undefined)
      ∙ sym (append_assoc (zeros (8 * lead)) (zeros 7) (1 ∷ behind))
      ∙ ap (λ t. t ++ (1 ∷ behind))
          (replicate-add (8 * lead) 7 (suc (suc (8 * lead + 5))) 0 (omega arith))

  pulsed-cells : pulsed ≡ (1 ∷ []) ++ (zeros (8 * lead + 5) ++ cells d good (8 * unused) undefined)
  pulsed-cells =
      ap (λ t. pulses fresh t ++ replicate undefined 3) image_bits
      ∙ pulses-lead_one (8 * lead + 5) behind (replicate undefined 3)

  found : find_first_block pulsed ≡ ok (some (length {A = ℕ} (1 ∷ []) + (8 * lead + 5)))
  found =
      let begins = pattern d good (8 * unused) undefined in
      ap find_first_block (
        pulsed-cells
        ∙ ap (λ t. 1 ∷ (zeros (8 * lead + 5) ++ t)) (begins.1)
        ∙ ap (λ (t : ℕ). 1 ∷ (zeros t ++ (first_block ++ begins.0))) two_more)
      ∙ find_first_block-one (8 * lead + 3) (begins.0) (omega (arith, near))
      ∙ ap (λ (t : ℕ). ok (some t)) (omega arith)
    where
      two_more : 8 * lead + 5 ≡ suc (suc (8 * lead + 3))
      two_more = omega arith

  -- The side comes back from these pulses.
  pub pulsed_recovered :
      length old ≡ fds_size
      → length (side d) + 3 ≤ fds_size + e
      → length (side d) ≤ fds_size
      → raw03_to_fds pulsed (old ++ zeros e) (length pulsed)
        ≡ ok (true, stored_disk 0 d [] ++ zeros (fds_size + e - length (stored_disk 0 d [])))
  pulsed_recovered hold spare room =
      recovered d good (8 * unused) undefined e (8 * lead + 5) old (1 ∷ []) pulsed pulsed-cells gap
        found hold room spare

module _ (d : Disk) (good : IsReadableDisk d) (lead n size e : ℕ) (old raw : List ℕ)
    (fits : lead + length (laid_disk d) ≤ size) (inside : size ≤ lead + n)
    (gap : min_gap_size ≤ 8 * lead + 5) (near : 8 * lead + 37 < 0x1_0000)
    (long : 8 * size ≤ length raw) where
  abbrev beyond : List ℕ
  beyond = zeros (lead + n - size)

  buffer :
      zeros lead ++ on_buffer n (laid_disk d)
      ≡ image d good lead size e old raw beyond fits gap near long ++ beyond
  buffer =
      ap (λ t. zeros lead ++ t)
        (on_buffer-room (laid_disk d) n (size - (lead + length (laid_disk d)) + (lead + n - size))
            (omega (arith, fits, inside))
          ∙ ap (λ t. laid_disk d ++ t)
              (sym
                (replicate-add (size - (lead + length (laid_disk d))) (lead + n - size) _ 0 refl)))
      ∙ simp append_assoc

  -- From an .FDS file to pulses and back. For a side of bytes, of the standard structure, that
  -- begins with `*NINT`, whose blocks have their codes and whose size is at most FDSSIZE,
  -- followed in the file by a byte other than 3: `fds_to_bin` into a buffer of `n` bytes behind a
  -- lead-in of `lead` clear bytes (8 * lead + 5 at least MIN_GAP_SIZE, 8 * lead + 37 less than
  -- 0x10000), then `bin_to_raw03` on the first `size` bytes of the two, which hold the lead-in
  -- and the whole layout of the side, into a buffer with 8 pulses or more for each byte, then
  -- `raw03_to_fds` into FDSSIZE bytes of any content and `e` clear bytes, with three bytes or
  -- more to spare behind the side, returns true and leaves exactly the bytes of the side and
  -- clear bytes behind them.
  pub there_and_back_lem :
      (stop : ℕ) (bin rest : List ℕ)
      → stop ≢ 3
      → length bin ≡ n
      → length old ≡ fds_size
      → length (side d) ≤ fds_size
      → length (side d) + 3 ≤ fds_size + e
      → there_and_back lead n size (stored_disk 0 d (stop ∷ rest)) bin raw (old ++ zeros e)
        ≡ ok (true, stored_disk 0 d [] ++ zeros (fds_size + e - length (stored_disk 0 d [])))
  there_and_back_lem stop bin rest ne hb hold room spare =
      >>=-ok _ _
        (fds_to_bin-lay d good.disk (signature-HasSignature d good) n stop bin rest ne hb
          (omega (arith, fits, inside, length-laid_disk d good.disk)) (omega (arith, fits, inside)))
        (>>=-ok _ _
          (ap (λ t. bin_to_raw03 t raw size (length raw)) buffer
            ∙ encoded d good lead size e old raw beyond fits gap near long)
          (pulsed_recovered d good lead size e old raw beyond fits gap near long hold spare room))
