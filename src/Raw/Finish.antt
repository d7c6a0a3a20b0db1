-- ===== src/Raw/Finish.antt =====
-- The end of `block_decode`: the checksum is tested, then cleared.
use fdsstick.Base.{ℕ, ◌+◌, ◌-◌, ◌/◌, ◌≡◌, refl, sym, ap, ◌∙◌, arith, true, false}
use fdsstick.Base.{List, [], ◌∷◌, ◌++◌, length, length-append, ◌==◌, Bool}
use fdsstick.Base.{
  append_assoc, Run, ok, fault, stuck, ◌>>=◌, >>=-ok, Returns, >>=-Returns, ok-Returns,
}
use fdsstick.Base.{read, write, read_range, read_at, write_at, read_range_at}
use fdsstick.Crc.{calc_crc}
use fdsstick.Raw.{Block, clear_bad_crc, finish_block}

-- The bytes `ys` and two bytes more behind them.
abbrev pub HasTail : List ℕ → List ℕ → List ℕ → Type 0
HasTail ys zs d = (x : ℕ) × (y : ℕ) × (d ≡ ys ++ (x ∷ y ∷ zs))

module _ (pre bytes : List ℕ) (out_pos size : ℕ) (ho : out_pos ≡ length pre)
    (hs : size ≡ length bytes) where
  behind :
      (zs : List ℕ) (x y : ℕ)
      → (pre ++ bytes) ++ (x ∷ y ∷ zs) ≡ pre ++ ((bytes ++ (x ∷ y ∷ [])) ++ zs)
  behind zs x y = simp append_assoc

  cover :
      (zs : List ℕ) (x y : ℕ)
      → read_range ((pre ++ bytes) ++ (x ∷ y ∷ zs)) out_pos (size + 2) ≡ ok (bytes ++ (x ∷ y ∷ []))
  cover zs x y = rw (behind zs x y) (
      read_range_at pre (bytes ++ (x ∷ y ∷ [])) zs out_pos (size + 2) ho
        (omega (arith, length-append {0} bytes (x ∷ y ∷ []))))

  length-both : out_pos + size ≡ length (pre ++ bytes)
  length-both = omega (arith, length-append {0} pre bytes)

  read_low :
      (zs : List ℕ) (x y out : ℕ)
      → out ≡ out_pos + size
      → read ((pre ++ bytes) ++ (x ∷ y ∷ zs)) out ≡ ok x
  read_low zs x y out e = read_at (pre ++ bytes) x (y ∷ zs) out (e ∙ length-both)

  write_low :
      (zs : List ℕ) (x y v out : ℕ)
      → out ≡ out_pos + size
      → write ((pre ++ bytes) ++ (x ∷ y ∷ zs)) out v ≡ ok ((pre ++ bytes) ++ (v ∷ y ∷ zs))
  write_low zs x y v out e = write_at (pre ++ bytes) x (y ∷ zs) v out (e ∙ length-both)

  read_high :
      (zs : List ℕ) (x y out : ℕ)
      → out ≡ out_pos + size + 1
      → read ((pre ++ bytes) ++ (x ∷ y ∷ zs)) out ≡ ok y
  read_high zs x y out e = rw (sym (append_assoc (pre ++ bytes) (x ∷ []) (y ∷ zs))) (
      read_at ((pre ++ bytes) ++ (x ∷ [])) y zs out
        (omega (arith, e, length-both, length-append {0} (pre ++ bytes) (x ∷ []))))

  write_high :
      (zs : List ℕ) (x y v out : ℕ)
      → out ≡ out_pos + size + 1
      → write ((pre ++ bytes) ++ (x ∷ y ∷ zs)) out v ≡ ok ((pre ++ bytes) ++ (x ∷ v ∷ zs))
  write_high zs x y v out e =
      rw
        (
          sym (append_assoc (pre ++ bytes) (x ∷ []) (y ∷ zs)),
          sym (append_assoc (pre ++ bytes) (x ∷ []) (v ∷ zs)),
        )
        (write_at ((pre ++ bytes) ++ (x ∷ [])) y zs v out
          (omega (arith, e, length-both, length-append {0} (pre ++ bytes) (x ∷ []))))

  write_spare :
      (zs : List ℕ) (x y z v out : ℕ)
      → out ≡ out_pos + size + 2
      → write ((pre ++ bytes) ++ (x ∷ y ∷ z ∷ zs)) out v ≡ ok ((pre ++ bytes) ++ (x ∷ y ∷ v ∷ zs))
  write_spare zs x y z v out e =
      rw
        (
          sym (append_assoc (pre ++ bytes) (x ∷ y ∷ []) (z ∷ zs)),
          sym (append_assoc (pre ++ bytes) (x ∷ y ∷ []) (v ∷ zs)),
        )
        (write_at ((pre ++ bytes) ++ (x ∷ y ∷ [])) z zs v out
          (omega (arith, e, length-both, length-append {0} (pre ++ bytes) (x ∷ y ∷ []))))

  -- Whether the checksum is right or not, only its two bytes change.
  clear_bad_crc_lem :
      (zs : List ℕ) (x y out : ℕ)
      → out ≡ out_pos + size
      → Returns
          (clear_bad_crc ((pre ++ bytes) ++ (x ∷ y ∷ zs)) out_pos size out)
          (HasTail (pre ++ bytes) zs)
  unfolding clear_bad_crc
  clear_bad_crc_lem zs x y out e =
      >>=-Returns (λ t. t ≡ t) (HasTail (pre ++ bytes) zs) (read_range start out_pos (size + 2)) _
        (ok-Returns (λ (t : List ℕ). t ≡ t) (read_range start out_pos (size + 2))
          (bytes ++ (x ∷ y ∷ [])) (cover zs x y) refl)
        λ covered same. tested (calc_crc covered == 0)
    where
      start : List ℕ
      start = (pre ++ bytes) ++ (x ∷ y ∷ zs)

      tested :
          (b : Bool)
          → Returns
              (elim b [
                | true ↦ ok start
                | false ↦
                    (read start out >>= λ low. read start (out + 1) >>= λ high.
                    write start out 0 >>= λ low_clear. write low_clear (out + 1) 0 >>= λ both_clear.
                    read_range both_clear out_pos (size + 2) >>= λ again. ok both_clear)
              ])
              (HasTail (pre ++ bytes) zs)
      tested true = (x, y, refl)
      tested false =
          ok-Returns (HasTail (pre ++ bytes) zs) _ ((pre ++ bytes) ++ (0 ∷ 0 ∷ zs))
            (>>=-ok _ _ (read_low zs x y out e) (
              >>=-ok _ _ (read_high zs x y (out + 1) (omega (arith, e))) (
                >>=-ok _ _ (write_low zs x y 0 out e) (
                  >>=-ok _ _ (write_high zs 0 y 0 (out + 1) (omega (arith, e)))
                    (>>=-ok _ _ (cover zs 0 0) refl)))))
            (0, 0, refl)

  abbrev kept : List ℕ → ℕ → Block
  kept zs in_pos = record {
    found = true;
    dst = (pre ++ bytes) ++ (0 ∷ 0 ∷ 0 ∷ zs);
    in_pos = in_pos;
    out_pos = out_pos + size;
  }

  -- The three bytes behind the block are cleared.
  clear_three :
      (zs d : List ℕ) (z in_pos out : ℕ)
      → out ≡ out_pos + size
      → HasTail (pre ++ bytes) (z ∷ zs) d
      → (write d out 0 >>= λ low. write low (out + 1) 0 >>= λ high.
          write high (out + 2) 0 >>= λ spare.
          ok (record { found = true; dst = spare; in_pos = in_pos; out_pos = out }))
        ≡ ok (kept zs in_pos)
  clear_three zs d z in_pos out e (x, y, ed) =
      rw (ed, e)
        (>>=-ok _ _ (write_low (z ∷ zs) x y 0 (out_pos + size) refl) (
          >>=-ok _ _ (write_high (z ∷ zs) 0 y 0 (out_pos + size + 1) refl)
            (>>=-ok _ _ (write_spare zs 0 0 z 0 (out_pos + size + 2) refl) refl)))

  -- A block of the right kind is kept, whatever checksum stood behind it, and clear bytes stand in
  -- the place of the checksum.
  pub finish_block_lem :
      (rest zs : List ℕ) (x y z kind in_pos in_start out_bit : ℕ)
      → bytes ≡ kind ∷ rest
      → out_bit / 8 ≡ out_pos + size + 2
      → finish_block ((pre ++ bytes) ++ (x ∷ y ∷ z ∷ zs)) in_pos in_start out_pos size kind out_bit
        ≡ ok (kept zs in_pos)
  unfolding finish_block
  finish_block_lem rest zs x y z kind in_pos in_start out_bit eb e = >>=-ok _ _ first (
      rw same
        (cleared (clear_bad_crc start out_pos size out) (clear_bad_crc_lem (z ∷ zs) x y out there)))
    where
      start : List ℕ
      start = (pre ++ bytes) ++ (x ∷ y ∷ z ∷ zs)

      first : read start out_pos ≡ ok kind
      first =
          ap (λ t. read t out_pos) (append_assoc pre bytes (x ∷ y ∷ z ∷ zs))
          ∙ rw eb (read_at pre kind (rest ++ (x ∷ y ∷ z ∷ zs)) out_pos ho)

      same : (kind == kind) ≡ true
      same = ground arith

      out : ℕ
      out = out_bit / 8 - 2

      there : out ≡ out_pos + size
      there = omega arith

      cleared :
          (r : Run (List ℕ))
          → Returns r (HasTail (pre ++ bytes) (z ∷ zs))
          → (r >>= λ d. write d out 0 >>= λ low. write low (out + 1) 0 >>= λ high.
              write high (out + 2) 0 >>= λ spare.
              ok (record { found = true; dst = spare; in_pos = in_pos; out_pos = out }))
            ≡ ok (kept zs in_pos)
      cleared (ok d) h = clear_three zs d z in_pos out there h
      cleared fault h = absurd h
      cleared stuck h = absurd h
