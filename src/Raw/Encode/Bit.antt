-- ===== src/Raw/Encode/Bit.antt =====
-- What one bit does to the buffer of `bin_to_raw03`.
use fdsstick.Base.{
  ℕ, zero, suc, ◌+◌, ◌-◌, ◌*◌, ◌/◌, ◌%◌, ◌^◌, ◌≤◌, ◌<◌, ◌≡◌, refl, sym, ap, ◌∙◌, arith,
}
use fdsstick.Base.{List, [], ◌∷◌, ◌++◌, length, length-append, append_assoc}
use fdsstick.Base.{replicate, u8, ok, >>=-ok, read_at, write_at}
use fdsstick.Base.{append-nil, Returns, ok-Returns}
use fdsstick.Base.Bits.{bit_or_high, bit_or_comm, one-bit_and}
use fdsstick.Raw.Pulses.{Pending, fresh, begun, pulses, pending_after}
use fdsstick.Raw.Encode.{bump, next_bits, Encoder, encode_bits}

-- Pulses that are not begun.
abbrev pub blank : ℕ → List ℕ
blank n = replicate n 0xff

-- The last bit that the encoder has read, and the buffer behind the pulses that are complete.
abbrev pub last_bit : Pending → ℕ
last_bit fresh = 1
last_bit (begun v) = 0

abbrev pub behind : Pending → ℕ → List ℕ
behind fresh m = blank m
behind (begun v) m = v ∷ blank m

-- The pulses that are pending are 0 or 1.
abbrev IsPending : Pending → Type 0
IsPending fresh = Unit {0}
IsPending (begun v) = v < 2

-- The two bits that the `switch` sees.
pub next_bits_lem :
    (bits byte k last b : ℕ)
    → bits % 2 ≡ last
    → byte / 2 ^ k % 2 ≡ b
    → next_bits bits byte k ≡ b + last * 128
unfolding next_bits
next_bits_lem bits byte k last b e h =
    rw
      (
        one-bit_and (byte / 2 ^ k),
        h,
        bit_or_comm (bits * 2 ^ 7) b,
        bit_or_high 7 b bits (omega (arith, h)),
      )
      (omega arith)

bump_at :
    (xs : List ℕ) (y : ℕ) (ys : List ℕ) (i k v : ℕ)
    → i ≡ length xs
    → u8 (y + k) ≡ v
    → bump (xs ++ (y ∷ ys)) i k ≡ ok (xs ++ (v ∷ ys))
unfolding bump
bump_at xs y ys i k v e h =
    >>=-ok _ _ (read_at xs y ys i e)
      (write_at xs y ys (u8 (y + k)) i e ∙ ap (λ (t : ℕ). ok (xs ++ (t ∷ ys))) h)

-- The encoder after the pulses `done`, with `p` pending and room for `left` more bits.
pub record Holds (size : ℕ) (p : Pending) (left : ℕ) (done : List ℕ) (s : Encoder) : Type 0 where
  pub room : ℕ
  pub enough : left ≤ room
  pub raw : s.raw ≡ done ++ behind p room
  pub out : s.out ≡ length done
  pub last : s.bits % 2 ≡ last_bit p
  pub legal : IsPending p
  pub same_size : length s.raw ≡ size

-- The room for one more pulse, taken apart.
spare : (room left : ℕ) → suc left ≤ room → blank room ≡ 0xff ∷ blank (room - 1)
spare room left h = ap blank one_less
  where
    one_less : room ≡ suc (room - 1)
    one_less = omega arith

abbrev pub encoder : List ℕ → ℕ → ℕ → Encoder
encoder raw out bits = record { raw = raw; out = out; bits = bits }

length-split : (xs ys zs : List ℕ) → length ys ≡ length zs → length (xs ++ ys) ≡ length (xs ++ zs)
length-split xs ys zs e = omega (arith, length-append {0} xs ys, length-append {0} xs zs, e)

module _ (size left : ℕ) (done : List ℕ) (s : Encoder) where
  -- One bit, for each pending state.
  fresh_zero :
      Holds size fresh (suc left) done s
      → Returns (encode_bits 0x80 s.raw s.out) (Holds size (begun 1) left done)
  unfolding encode_bits
  fresh_zero h =
      let ys : List ℕ = blank (h.room - 1) in
      let e : s.raw ≡ done ++ (0xff ∷ ys) =
        h.raw ∙ ap (λ t. done ++ t) (spare h.room left h.enough) in
      let b : bump s.raw s.out 2 ≡ ok (done ++ (1 ∷ ys)) =
        rw e (bump_at done 0xff ys s.out 2 1 h.out refl) in
      ok-Returns _ _ (encoder (done ++ (1 ∷ ys)) s.out 0x80) (>>=-ok _ _ b refl) (record {
        room = h.room - 1;
        enough = omega (arith, h.enough);
        raw = refl;
        out = h.out;
        last = refl;
        legal = omega arith;
        same_size = length-split done (1 ∷ ys) (0xff ∷ ys) refl ∙ sym (ap length e) ∙ h.same_size;
      })

  fresh_one :
      Holds size fresh (suc left) done s
      → Returns (encode_bits 0x81 s.raw s.out) (Holds size fresh left (done ++ (0 ∷ [])))
  unfolding encode_bits
  fresh_one h =
      let ys : List ℕ = blank (h.room - 1) in
      let e : s.raw ≡ done ++ (0xff ∷ ys) =
        h.raw ∙ ap (λ t. done ++ t) (spare h.room left h.enough) in
      let b : bump s.raw s.out 1 ≡ ok (done ++ (0 ∷ ys)) =
        rw e (bump_at done 0xff ys s.out 1 0 h.out refl) in
      ok-Returns _ _ (encoder (done ++ (0 ∷ ys)) (s.out + 1) 0x81) (>>=-ok _ _ b refl) (record {
        room = h.room - 1;
        enough = omega (arith, h.enough);
        raw = sym (append_assoc done (0 ∷ []) ys);
        out = omega (arith, length-append {0} done (0 ∷ []), h.out);
        last = refl;
        legal = tt;
        same_size = length-split done (0 ∷ ys) (0xff ∷ ys) refl ∙ sym (ap length e) ∙ h.same_size;
      })

  begun_zero :
      (v : ℕ)
      → Holds size (begun v) (suc left) done s
      → Returns (encode_bits 0x00 s.raw s.out) (Holds size (begun 0) left (done ++ (v ∷ [])))
  unfolding encode_bits
  begun_zero v h =
      let ys : List ℕ = blank (h.room - 1) in
      let e : s.raw ≡ (done ++ (v ∷ [])) ++ (0xff ∷ ys) =
        h.raw
        ∙ ap (λ t. done ++ (v ∷ t)) (spare h.room left h.enough)
        ∙ sym (append_assoc done (v ∷ []) (0xff ∷ ys)) in
      let o : s.out + 1 ≡ length (done ++ (v ∷ [])) =
        omega (arith, length-append {0} done (v ∷ []), h.out) in
      let b : bump s.raw (s.out + 1) 1 ≡ ok ((done ++ (v ∷ [])) ++ (0 ∷ ys)) =
        rw e (bump_at (done ++ (v ∷ [])) 0xff ys (s.out + 1) 1 0 o refl) in
      ok-Returns _ _ (encoder ((done ++ (v ∷ [])) ++ (0 ∷ ys)) (s.out + 1) 0x00) (>>=-ok _ _ b refl)
        (record {
          room = h.room - 1;
          enough = omega (arith, h.enough);
          raw = refl;
          out = o;
          last = refl;
          legal = omega arith;
          same_size =
              length-split (done ++ (v ∷ [])) (0 ∷ ys) (0xff ∷ ys) refl
              ∙ sym (ap length e)
              ∙ h.same_size;
        })

  begun_one :
      (v : ℕ)
      → Holds size (begun v) (suc left) done s
      → Returns (encode_bits 0x01 s.raw s.out) (Holds size fresh left (done ++ ((v + 1) ∷ [])))
  unfolding encode_bits
  begun_one v h =
      let ys : List ℕ = blank h.room in
      let b : bump s.raw s.out 1 ≡ ok (done ++ ((v + 1) ∷ ys)) =
        rw h.raw (bump_at done v ys s.out 1 (v + 1) h.out (omega (arith, h.legal))) in
      ok-Returns _ _ (encoder (done ++ ((v + 1) ∷ ys)) (s.out + 1) 0x01) (>>=-ok _ _ b refl)
        (record {
          room = h.room;
          enough = omega (arith, h.enough);
          raw = sym (append_assoc done ((v + 1) ∷ []) ys);
          out = omega (arith, length-append {0} done ((v + 1) ∷ []), h.out);
          last = refl;
          legal = tt;
          same_size =
              length-split done ((v + 1) ∷ ys) (v ∷ ys) refl ∙ sym (ap length h.raw) ∙ h.same_size;
        })

  -- One bit, whatever is pending.
  pub one_bit :
      (p : Pending) (b : ℕ)
      → b < 2
      → Holds size p (suc left) done s
      → Returns
          (encode_bits (b + last_bit p * 128) s.raw s.out)
          (Holds size (pending_after p (b ∷ [])) left (done ++ pulses p (b ∷ [])))
  unfolding pulses
  one_bit fresh zero hb h = rw (append-nil done) (fresh_zero h)
  one_bit fresh (suc zero) hb h = fresh_one h
  one_bit (begun v) zero hb h = begun_zero v h
  one_bit (begun v) (suc zero) hb h = begun_one v h
  one_bit p (suc (suc b)) hb h = absurd (omega arith)
