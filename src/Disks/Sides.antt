-- ===== src/Disks/Sides.antt =====
-- The sides of a file, and what is saved of one.
use fdsstick.Base.{
  ℕ, suc, ◌+◌, ◌-◌, ◌%◌, ◌≤◌, ◌<◌, ◌≡◌, ◌≢◌, refl, sym, ap, ◌∙◌, arith, true, false, List, [], ◌++◌,
  length, ltb, le→ltb, take, drop, length-take, length-replicate, take-append-drop,
  take-length_append, drop-length_append, replicate, Run, ok, >>=-ok, write_range, write_range_at,
  ◌==◌,
}
use mathlib.Core.Path.{subst}
use fdsstick.Bin.{fds_to_bin}
use fdsstick.Device.{Device}
use fdsstick.Spi.{Action}
use fdsstick.Os.{Os}
use fdsstick.Raw.{fds_size}
use fdsstick.Disks.{whole_sides, lead_in, disk_size, ask_next, sides_loop}

-- The size that the commands go on with, for a file that is not shorter than its header: behind
-- the header it is a number of whole sides, it is not above the size of the file, and the file
-- has less than one more side.
pub whole_sides_lem :
    (filesize inpos : ℕ)
    → inpos ≤ filesize
    → let whole = whole_sides filesize inpos in
      ((whole - inpos) % fds_size ≡ 0)
      × (inpos ≤ whole)
      × (whole ≤ filesize)
      × (filesize < whole + fds_size)
unfolding whole_sides
whole_sides_lem filesize inpos h =
    let below : ltb filesize inpos ≡ false = le→ltb filesize inpos h in rw below (omega arith)

-- `memset(bin, 0, n)`
cleared :
    (n : ℕ) (bin : List ℕ)
    → n ≤ length bin
    → write_range bin 0 (replicate n 0) ≡ ok (replicate n 0 ++ drop n bin)
cleared n bin h =
    ap (λ t. write_range t 0 (replicate n 0)) (sym (take-append-drop n bin))
    ∙ write_range_at [] (take n bin) (replicate n 0) (drop n bin) 0 refl
        (omega (arith, h, length-take n bin, length-replicate {0} {A = ℕ} n 0))

take-cleared : (n : ℕ) (xs : List ℕ) → take n (replicate n 0 ++ xs) ≡ replicate n 0
take-cleared n xs =
    subst (λ k. take k (replicate n 0 ++ xs) ≡ replicate n 0) (length-replicate {0} {A = ℕ} n 0)
      (take-length_append {0} (replicate n 0) xs)

drop-cleared : (n : ℕ) (xs : List ℕ) → drop n (replicate n 0 ++ xs) ≡ xs
drop-cleared n xs =
    subst (λ k. drop k (replicate n 0 ++ xs) ≡ xs) (length-replicate {0} {A = ℕ} n 0)
      (drop-length_append {0} (replicate n 0) xs)

known : (n : ℕ) → n ≢ 0 → (n == 0) ≡ false
known n h = ground arith

module _ {σ : Type 0} (os : Os σ) where
  -- A round that converts its side, takes the image, and does not ask for another side.
  pub sides_loop-last :
      (fuel : ℕ) (prepare : Device σ → Run (Device σ)) (emit : List ℕ → ℕ → Action σ)
      (inbuf : List ℕ) (filesize : ℕ) (bin : List ℕ) (inpos n : ℕ) (image : List ℕ)
      (dev ready emitted asked : Device σ)
      → lead_in ≤ length bin
      → prepare dev ≡ ok ready
      → fds_to_bin (drop lead_in bin) (drop inpos inbuf) (disk_size - lead_in) ≡ ok (n, image)
      → n ≢ 0
      → emit (replicate lead_in 0 ++ image) n ready ≡ ok (true, emitted)
      → ask_next os inbuf filesize (inpos + fds_size) emitted ≡ ok (false, asked)
      → sides_loop os (suc fuel) prepare emit inbuf filesize bin inpos dev ≡ ok (true, asked)
  unfolding sides_loop
  sides_loop-last fuel prepare emit inbuf filesize bin inpos n image dev ready emitted asked hl hp
        hf hn he ha =
      >>=-ok (prepare dev) _ hp (
        >>=-ok (write_range bin 0 (replicate lead_in 0)) _ (cleared lead_in bin hl)
          (>>=-ok _ _ converted (rw (known n hn) (>>=-ok _ _ taken (>>=-ok _ _ ha refl)))))
    where
      led : List ℕ
      led = replicate lead_in 0 ++ drop lead_in bin

      converted :
          fds_to_bin (drop lead_in led) (drop inpos inbuf) (disk_size - lead_in) ≡ ok (n, image)
      converted =
          ap (λ t. fds_to_bin t (drop inpos inbuf) (disk_size - lead_in))
            (drop-cleared lead_in (drop lead_in bin))
          ∙ hf

      taken : emit (take lead_in led ++ image) n ready ≡ ok (true, emitted)
      taken = ap (λ t. emit (t ++ image) n ready) (take-cleared lead_in (drop lead_in bin)) ∙ he
