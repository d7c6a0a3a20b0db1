-- ===== src/Raw/Encode/Lay.antt =====
-- What `bin_to_raw03` writes: the pulses of the bits, then 3 up to the end of the buffer.
use native.Mathlib.Nat.{div-div-eq-div-mul}
use native.Mathlib.Numerals.{towards_suc}
use fdsstick.Base.{ℕ, zero, suc, ◌+◌, ◌-◌, ◌*◌, ◌/◌, ◌%◌, ◌^◌, ◌≤◌, ◌≡◌, refl, sym, ap, ◌∙◌, arith}
use fdsstick.Base.{List, [], ◌∷◌, ◌++◌, length, length-append, append_assoc}
use fdsstick.Base.{replicate, length-replicate, Run, ok, ◌>>=◌, >>=-ok}
use fdsstick.Base.{write_range, write_range_at, append-nil, Returns, >>=-Returns}
use fdsstick.Base.{fault, stuck, le→ltb}
use fdsstick.Raw.Pulses.{Pending, fresh, pulses, pending_after, pulses-append, bits_from}
use fdsstick.Raw.Pulses.{pulses-nil}
use fdsstick.Raw.Pulses.{pending_after-append, bits_of, byte_bits}
use fdsstick.Raw.Encode.{next_bits, Encoder, encode_bits, encode_byte, encode_bytes, bin_to_raw03}
use fdsstick.Raw.Encode.{fill_undefined}
use fdsstick.Raw.Encode.Bit.{blank, last_bit, behind, next_bits_lem, Holds, encoder, one_bit}

-- From one bit on to the rest.
pulses-cons :
    (p : Pending) (b : ℕ) (bs done : List ℕ)
    → (done ++ pulses p (b ∷ [])) ++ pulses (pending_after p (b ∷ [])) bs
      ≡ done ++ pulses p (b ∷ bs)
pulses-cons p b bs done =
    append_assoc done (pulses p (b ∷ [])) (pulses (pending_after p (b ∷ [])) bs)
    ∙ ap (λ t. done ++ t) (sym (pulses-append p (b ∷ []) bs))

module _ (size : ℕ) where
  byte_Holds :
      (n left m k byte x : ℕ) (p : Pending) (done : List ℕ) (s : Encoder)
      → m ≡ n + left
      → x ≡ byte / 2 ^ k
      → Holds size p m done s
      → Returns
          (encode_byte n k byte s)
          (Holds size (pending_after p (bits_from n x)) left (done ++ pulses p (bits_from n x)))
  unfolding encode_byte
  byte_Holds zero left m k byte x p done s e ex h =
      let same : m ≡ left = omega arith in rw (pulses-nil p, append-nil done) (rw same at h)
  byte_Holds (suc n) left m k byte x p done s e ex h =
      >>=-Returns
        (Holds size (pending_after p (x % 2 ∷ [])) (n + left) (done ++ pulses p (x % 2 ∷ []))) _
        (encode_bits (next_bits s.bits byte k) s.raw s.out) _
        (rw two (one_bit size (n + left) done s p (x % 2) (omega arith) (rw more at h)))
        λ s' h'.
          rw
            (
              pending_after-append p (x % 2 ∷ []) (bits_from n (x / 2)),
              ← pulses-cons p (x % 2) (bits_from n (x / 2)) done,
            )
            (byte_Holds n left (n + left) (k + 1) byte (x / 2) (pending_after p (x % 2 ∷ []))
              (done ++ pulses p (x % 2 ∷ [])) s' refl half h')
    where
      more : m ≡ suc (n + left)
      more = omega arith

      two : next_bits s.bits byte k ≡ x % 2 + last_bit p * 128
      two = next_bits_lem s.bits byte k (last_bit p) (x % 2) h.last (ap (λ (t : ℕ). t % 2) (sym ex))

      half : x / 2 ≡ byte / 2 ^ (k + 1)
      half =
          ap (λ (t : ℕ). t / 2) ex
          ∙ div-div-eq-div-mul byte (2 ^ k) 2
          ∙ ap (λ (t : ℕ). byte / t) (simp towards_suc (omega arith))

  byte_step :
      (b : ℕ) (bs done : List ℕ) (p : Pending)
      → (done ++ pulses p (byte_bits b)) ++ pulses (pending_after p (byte_bits b)) bs
        ≡ done ++ pulses p (byte_bits b ++ bs)
  byte_step b bs done p =
      append_assoc done (pulses p (byte_bits b)) (pulses (pending_after p (byte_bits b)) bs)
      ∙ ap (λ t. done ++ t) (sym (pulses-append p (byte_bits b) bs))

  bytes_Holds :
      (xs ys : List ℕ) (n left m : ℕ) (p : Pending) (done : List ℕ) (s : Encoder)
      → n ≡ length xs
      → m ≡ 8 * n + left
      → Holds size p m done s
      → Returns
          (encode_bytes n (xs ++ ys) s)
          (Holds size (pending_after p (bits_of xs)) left (done ++ pulses p (bits_of xs)))
  unfolding encode_bytes bits_of
  bytes_Holds [] ys zero left m p done s en em h =
      let same : m ≡ left = omega arith in rw (pulses-nil p, append-nil done) (rw same at h)
  bytes_Holds [] ys (suc n) left m p done s en em h = absurd (omega arith)
  bytes_Holds (x ∷ xs) ys zero left m p done s en em h = absurd (omega arith)
  bytes_Holds (x ∷ xs) ys (suc n) left m p done s en em h =
      >>=-Returns
        (Holds size (pending_after p (byte_bits x)) (8 * n + left) (done ++ pulses p (byte_bits x)))
        _ (encode_byte 8 0 x s) _
        (byte_Holds 8 (8 * n + left) m 0 x x p done s (omega arith) (omega arith) h)
        λ s' h'.
          rw (pending_after-append p (byte_bits x) (bits_of xs), ← byte_step x (bits_of xs) done p)
            (bytes_Holds xs ys n left (8 * n + left) (pending_after p (byte_bits x))
              (done ++ pulses p (byte_bits x)) s' (omega arith) refl h')

-- The last `memset`.
fill_undefined_lem :
    (cells rest : List ℕ) (size : ℕ) (s : Encoder)
    → s.raw ≡ cells ++ rest
    → s.out ≡ length cells
    → length s.raw ≡ size
    → fill_undefined size s ≡ ok (cells ++ replicate (size - length cells) 3)
unfolding fill_undefined
fill_undefined_lem cells rest size s e o l =
    rw (le→ltb size s.out inside, fill_undefined)
      (ap (λ (t : List ℕ). write_range t s.out (replicate (size - s.out) 3))
          (e ∙ ap (λ t. cells ++ t) (sym (append-nil rest)))
        ∙ write_range_at cells rest (replicate (size - s.out) 3) [] s.out o
            (omega (arith, sizes, length-replicate {A = ℕ} (size - s.out) 3, o))
        ∙ rw (append-nil, o) refl)
  where
    sizes : length cells + length rest ≡ size
    sizes = sym (length-append cells rest) ∙ sym (ap length e) ∙ l

    inside : s.out ≤ size
    inside = omega (arith, sizes, o)

-- For a buffer with at least 8 pulses for each byte, `bin_to_raw03` writes the pulses that the
-- bit by bit description of the code gives for the first `bin_size` bytes, and nothing but 3
-- behind them.
pub bin_to_raw03-lay :
    (xs ys raw : List ℕ) (bin_size raw_size : ℕ)
    → bin_size ≡ length xs
    → raw_size ≡ length raw
    → 8 * bin_size ≤ raw_size
    → let cells = pulses fresh (bits_of xs) in
      bin_to_raw03 (xs ++ ys) raw bin_size raw_size
      ≡ ok (cells ++ replicate (raw_size - length cells) 3)
unfolding bin_to_raw03
bin_to_raw03-lay xs ys raw bin_size raw_size eb er room =
    >>=-ok _ _ cleared
      (encoded (encode_bytes bin_size (xs ++ ys) (encoder (blank raw_size) 0 1)) started)
  where
    cleared : write_range raw 0 (blank raw_size) ≡ ok (blank raw_size)
    cleared =
        ap (λ (t : List ℕ). write_range t 0 (blank raw_size)) (sym (append-nil raw))
        ∙ write_range_at [] raw (blank raw_size) [] 0 refl
            (sym er ∙ sym (length-replicate raw_size 0xff))
        ∙ ap ok (append-nil (blank raw_size))

    started :
        Returns
          (encode_bytes bin_size (xs ++ ys) (encoder (blank raw_size) 0 1))
          (Holds raw_size (pending_after fresh (bits_of xs)) 0 (pulses fresh (bits_of xs)))
    started =
        bytes_Holds raw_size xs ys bin_size 0 (8 * bin_size) fresh [] (encoder (blank raw_size) 0 1)
          eb (omega arith)
          (record {
            room = raw_size;
            enough = room;
            raw = refl;
            out = refl;
            last = refl;
            legal = tt;
            same_size = length-replicate raw_size 0xff;
          })

    encoded :
        (r : Run Encoder)
        → Returns r
            (Holds raw_size (pending_after fresh (bits_of xs)) 0 (pulses fresh (bits_of xs)))
        → (r >>= fill_undefined raw_size)
          ≡ ok (
              pulses fresh (bits_of xs)
              ++ replicate (raw_size - length (pulses fresh (bits_of xs))) 3)
    encoded (ok s) h =
        fill_undefined_lem (pulses fresh (bits_of xs))
          (behind (pending_after fresh (bits_of xs)) h.room) raw_size s h.raw h.out h.same_size
    encoded fault h = absurd h
    encoded stuck h = absurd h
