-- ===== src/Raw/Step.antt =====
-- One step of the decoder, as bits, and the decoder on the pulses of a list of bits.
use fdsstick.Base.{ℕ, suc, ◌+◌, ◌*◌, ◌<◌, ◌≡◌, refl, sym, ap, ◌∙◌, arith}
use fdsstick.Base.{List, [], ◌∷◌, ◌++◌, length, length-append, set, set-append_right}
use fdsstick.Base.{length-replicate}
use fdsstick.Base.{append_assoc, All, Returns, >>=-Returns}
use fdsstick.Crc.Check.{IsByte}
use fdsstick.Bin.Block.{zeros}
use fdsstick.Raw.Pulses.{bits_of}
use fdsstick.Raw.Image.{HasBits, set_bit_lem, length-bits_of}
use fdsstick.Raw.{Cursor, set_bit, decode_pulse, one_bit}

-- The cursor stands behind the bits `xs`, with `m` clear bits before it.
pub record Stands (size : ℕ) (xs : List ℕ) (m v : ℕ) (c : Cursor) : Type 0 where
  pub image : bits_of c.dst ≡ xs ++ zeros m
  pub out : c.out ≡ length xs
  pub bitval : c.bitval ≡ v
  pub same_size : length c.dst ≡ size
  pub bytes : All IsByte c.dst

set-zeros :
    (xs : List ℕ) (m i : ℕ)
    → i ≡ length xs
    → set (xs ++ zeros (suc m)) i 1 ≡ (xs ++ (1 ∷ [])) ++ zeros m
set-zeros xs m i e =
    set-append_right xs (zeros (suc m)) i 0 1 (omega arith)
    ∙ sym (append_assoc xs (1 ∷ []) (zeros m))

room_bits :
    (size m : ℕ) (xs : List ℕ) (c : Cursor) (v : ℕ)
    → Stands size xs m v c
    → 8 * length c.dst ≡ length xs + m
room_bits size m xs c v h =
    sym (length-bits_of c.dst)
    ∙ ap length h.image
    ∙ omega (arith, length-append {0} xs (zeros m), length-replicate {A = ℕ} m 0)

-- A 1 written at the cursor.
one_lem :
    (size m : ℕ) (xs : List ℕ) (dst : List ℕ) (out : ℕ)
    → bits_of dst ≡ xs ++ zeros (suc m)
    → out ≡ length xs
    → length dst ≡ size
    → All IsByte dst
    → Returns (one_bit dst out) (Stands size (xs ++ (1 ∷ [])) m 1)
unfolding one_bit
one_lem size m xs dst out hi ho hs hb =
    >>=-Returns (HasBits (set (bits_of dst) out 1) (length dst)) _ (set_bit dst out) _
      (set_bit_lem dst out inside hb)
      λ dst' h. record {
        image = h.image ∙ ap (λ t. set t out 1) hi ∙ set-zeros xs m out ho;
        out = omega (arith, length-append {0} xs (1 ∷ []), ho);
        bitval = refl;
        same_size = h.same_size ∙ hs;
        bytes = h.bytes;
      }
  where
    inside : out < 8 * length dst
    inside = omega (
      arith,
      length-bits_of dst,
      ap length hi,
      length-append {0} xs (zeros (suc m)),
      length-replicate {A = ℕ} (suc m) 0,
      ho,
    )

one_more : (xs : List ℕ) (m : ℕ) → xs ++ zeros (suc m) ≡ (xs ++ (0 ∷ [])) ++ zeros m
one_more xs m = sym (append_assoc xs (0 ∷ []) (zeros m))

length-snoc : (xs : List ℕ) (b : ℕ) → length (xs ++ (b ∷ [])) ≡ length xs + 1
length-snoc xs b = omega (arith, length-append {0} xs (b ∷ []))

module _ (size m : ℕ) (xs : List ℕ) (c : Cursor) where
  -- The five pulses that occur, by the last bit before them.
  pub zero_behind_zero :
      Stands size xs (suc m) 0 c → Returns (decode_pulse 0 c) (Stands size (xs ++ (0 ∷ [])) m 0)
  unfolding decode_pulse
  zero_behind_zero h =
      rw (h.bitval, decode_pulse)
        (record {
          image = h.image ∙ one_more xs m;
          out = omega (arith, h.out, length-snoc xs 0);
          bitval = refl;
          same_size = h.same_size;
          bytes = h.bytes;
        })

  pub one_behind_zero :
      Stands size xs (suc m) 0 c → Returns (decode_pulse 1 c) (Stands size (xs ++ (1 ∷ [])) m 1)
  unfolding decode_pulse
  one_behind_zero h =
      rw (h.bitval, decode_pulse) (one_lem size m xs c.dst c.out h.image h.out h.same_size h.bytes)

  pub zero_behind_one :
      Stands size xs (suc m) 1 c → Returns (decode_pulse 0 c) (Stands size (xs ++ (1 ∷ [])) m 1)
  unfolding decode_pulse
  zero_behind_one h =
      rw (h.bitval, decode_pulse) (one_lem size m xs c.dst c.out h.image h.out h.same_size h.bytes)

  pub one_behind_one :
      Stands size xs (suc (suc m)) 1 c
      → Returns (decode_pulse 1 c) (Stands size ((xs ++ (0 ∷ [])) ++ (0 ∷ [])) m 0)
  unfolding decode_pulse
  one_behind_one h =
      rw (h.bitval, decode_pulse)
        (record {
          image = h.image ∙ one_more xs (suc m) ∙ one_more (xs ++ (0 ∷ [])) m;
          out = omega (arith, h.out, length-snoc xs 0, length-snoc (xs ++ (0 ∷ [])) 0);
          bitval = refl;
          same_size = h.same_size;
          bytes = h.bytes;
        })

  pub two_behind_one :
      Stands size xs (suc (suc m)) 1 c
      → Returns (decode_pulse 2 c) (Stands size ((xs ++ (0 ∷ [])) ++ (1 ∷ [])) m 1)
  unfolding decode_pulse
  two_behind_one h =
      rw (h.bitval, decode_pulse)
        (one_lem size m (xs ++ (0 ∷ [])) c.dst (c.out + 1) (h.image ∙ one_more xs (suc m))
          (omega (arith, h.out, length-snoc xs 0)) h.same_size h.bytes)
