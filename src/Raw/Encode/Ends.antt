-- ===== src/Raw/Encode/Ends.antt =====
-- `bin_to_raw03` ends: its loop is over the bytes of the image.
use fdsstick.Base.{ℕ, zero, suc, ◌+◌, ◌-◌, ◌≡◌, ◌||◌, arith, List, [], ◌∷◌, replicate, length}
use fdsstick.Base.{u8, read, write_range, ltb, ◌==◌, Ensures, >>=-Ensures, Ensures-mono}
use fdsstick.Base.Access.{
  branch-Ensures, if-Ensures, read-Ensures, write-Ensures, write_range-Ensures,
}
use fdsstick.Raw.Encode.{
  bump, next_bits, Encoder, encode_bits, encode_byte, encode_bytes, fill_undefined, bin_to_raw03,
}

-- The array has kept its size.
abbrev Sized : ℕ → Encoder → Type 0
Sized n s = length s.raw ≡ n

bump-Ensures :
    (raw : List ℕ) (i k n : ℕ) → length raw ≡ n → Ensures (λ ys. length ys ≡ n) (bump raw i k)
unfolding bump
bump-Ensures raw i k n h =
    >>=-Ensures _ (λ ys. length ys ≡ n) (read raw i) _ (read-Ensures raw i)
      λ v hv.
        Ensures-mono _ (λ ys. length ys ≡ n) _ (write-Ensures raw i (u8 (v + k)))
          λ ys w. omega arith

encode_bits-Ensures :
    (bits : ℕ) (raw : List ℕ) (out n : ℕ)
    → length raw ≡ n
    → Ensures (Sized n) (encode_bits bits raw out)
unfolding encode_bits
encode_bits-Ensures bits raw out n h =
    if-Ensures (Sized n) (bits == 0x00) _ _
      (λ e.
        >>=-Ensures _ (Sized n) (bump raw (out + 1) 1) _ (bump-Ensures raw (out + 1) 1 n h)
          λ raw' w. w)
      λ e1.
        if-Ensures (Sized n) (bits == 0x01 || bits == 0x81) _ _
          (λ e. >>=-Ensures _ (Sized n) (bump raw out 1) _ (bump-Ensures raw out 1 n h) λ raw' w. w)
          λ e2.
            if-Ensures (Sized n) (bits == 0x80) _ _
              (λ e.
                >>=-Ensures _ (Sized n) (bump raw out 2) _ (bump-Ensures raw out 2 n h) λ raw' w. w)
              λ e. h

encode_byte-Ensures :
    (left k byte n : ℕ) (s : Encoder) → Sized n s → Ensures (Sized n) (encode_byte left k byte s)
unfolding encode_byte
encode_byte-Ensures zero k byte n s h = h
encode_byte-Ensures (suc left) k byte n s h =
    >>=-Ensures (Sized n) (Sized n) (encode_bits (next_bits s.bits byte k) s.raw s.out) _
      (encode_bits-Ensures (next_bits s.bits byte k) s.raw s.out n h)
      λ s' h'. encode_byte-Ensures left (k + 1) byte n s' h'

encode_bytes-Ensures :
    (count n : ℕ) (bin : List ℕ) (s : Encoder)
    → Sized n s
    → Ensures (Sized n) (encode_bytes count bin s)
unfolding encode_bytes
encode_bytes-Ensures zero n bin s h = h
encode_bytes-Ensures (suc count) n [] s h = tt
encode_bytes-Ensures (suc count) n (byte ∷ bin) s h =
    >>=-Ensures (Sized n) (Sized n) (encode_byte 8 0 byte s) _ (encode_byte-Ensures 8 0 byte n s h)
      λ s' h'. encode_bytes-Ensures count n bin s' h'

-- `bin_to_raw03` ends on any image, and leaves the size of the array.
pub bin_to_raw03-Ensures :
    (bin raw : List ℕ) (bin_size raw_size : ℕ)
    → Ensures (λ ys. length ys ≡ length raw) (bin_to_raw03 bin raw bin_size raw_size)
unfolding bin_to_raw03 fill_undefined
bin_to_raw03-Ensures bin raw bin_size raw_size =
    let Q = λ (ys : List ℕ). length ys ≡ length raw in
    >>=-Ensures _ Q (write_range raw 0 (replicate raw_size 0xff)) _
      (write_range-Ensures raw 0 (replicate raw_size 0xff))
      λ fresh w.
        >>=-Ensures (Sized (length raw)) Q
          (encode_bytes bin_size bin (record { raw = fresh; out = 0; bits = 1 })) _
          (encode_bytes-Ensures bin_size (length raw) bin _ (w.0))
          λ s h.
            branch-Ensures Q (ltb raw_size s.out) _ _ (λ e. tt)
              λ e.
                Ensures-mono _ Q _
                  (write_range-Ensures s.raw s.out (replicate (raw_size - s.out) 3))
                  λ ys k. omega arith
