-- ===== src/Slots/Header.antt =====
-- The header that `FDS_writeFlash` puts into a slot, as `FDS_list` reads it.
use fdsstick.Base.{ne→==}
use fdsstick.Base.{
  ℕ, zero, suc, ◌+◌, ◌-◌, ◌/◌, ◌^◌, ◌≤◌, ◌<◌, ◌≡◌, ◌≢◌, refl, sym, ap, ◌∙◌, arith, bit_and, Bool,
  true, false, List, [], ◌∷◌, ◌++◌, take, drop, length, length-append, length-replicate,
  length-take, take-append-drop, take-length_append, append_assoc, replicate, All, ok, >>=-ok,
  Returns, ok-Returns, Ensures, read_range, read_range_at, push, ◌==◌, when_false, u8,
  if◌then◌else◌,
}
use mathlib.Core.Path.{subst}
use fdsstick.Open.{slot_size}
use fdsstick.Slots.{
  string_at, list_slot, slot_header, slot_image, chksum_calc, xor_bytes, short_name, name_field,
  flash_header_size, default_lead_in, named, next_side,
}

-- No byte of a string is 0.
abbrev pub IsString : List ℕ → Type 0
IsString name = All (λ c. c ≢ 0) name

-- The string at the start of a buffer ends at the first 0.
pub string_at_lem : (name rest : List ℕ) → IsString name → string_at (name ++ (0 ∷ rest)) ≡ ok name
unfolding string_at
string_at_lem [] rest h = refl
string_at_lem (c ∷ name) rest h =
    rw (ne→== c 0 (h.0), string_at) (ap (push c) (string_at_lem name rest (h.1)))

take_short : (n : ℕ) (xs : List ℕ) → length xs ≤ n → take n xs ≡ xs
take_short zero [] h = refl
take_short zero (x ∷ xs) h = absurd (omega arith)
take_short (suc n) [] h = refl
take_short (suc n) (x ∷ xs) h = ap (λ t. x ∷ t) (take_short n xs (omega arith))

padding : (n : ℕ) → 0 < n → replicate {A = ℕ} n 0 ≡ 0 ∷ replicate (n - 1) 0
padding zero h = absurd (omega arith)
padding (suc n) h = ap (λ (t : ℕ). 0 ∷ replicate t 0) (omega arith)

-- A short name stands in its field with a 0 behind it.
name_field-ends :
    (name : List ℕ)
    → length name < 240
    → name_field name ≡ name ++ (0 ∷ replicate (240 - length name - 1) 0)
name_field-ends name h =
    ap (λ t. t ++ replicate (240 - length name) 0) (take_short 240 name (omega arith))
    ∙ ap (λ t. name ++ t) (padding (240 - length name) (omega arith))

length-name_field : (name : List ℕ) → length (name_field name) ≡ 240
length-name_field name = omega (
  arith,
  length-append {0} (take 240 name) (replicate (240 - length name) 0),
  length-take 240 name,
  length-replicate {0} {A = ℕ} (240 - length name) 0,
)

length-slot_header :
    (filename : List ℕ) (side chksum : ℕ) → length (slot_header filename side chksum) ≡ 256
unfolding slot_header
length-slot_header filename side chksum =
    fields (side == 0)
      (u8 chksum
        ∷ u8 (chksum / 2 ^ 8)
        ∷ u8 (chksum / 2 ^ 16)
        ∷ u8 (chksum / 2 ^ 24)
        ∷ bit_and default_lead_in 0xff
        ∷ default_lead_in / 256
        ∷ replicate 10 0)
      refl
  where
    fields :
        (b : Bool) (tail : List ℕ)
        → length tail ≡ 16
        → length ((if b then name_field (short_name filename) else replicate 240 0) ++ tail) ≡ 256
    fields true tail h = omega (
      arith,
      h,
      length-append {0} (name_field (short_name filename)) tail,
      length-name_field (short_name filename),
    )
    fields false tail h =
        omega
          (arith, h, length-append {0} (replicate 240 0) tail, length-replicate {0} {A = ℕ} 240 0)

-- A slot with a name that is a string is listed with it, and the next one is its second side.
pub list_slot-named :
    (slot side c : ℕ) (cs rest : List ℕ)
    → IsString (c ∷ cs)
    → c ≢ 0xff
    → list_slot slot ((c ∷ cs) ++ (0 ∷ rest)) side ≡ ok (named slot (c ∷ cs), 1)
unfolding list_slot
list_slot-named slot side c cs rest h hc =
    when_false (c == 0xff) _ _ (ne→== c 0xff hc)
    ∙ when_false (c == 0) _ _ (ne→== c 0 (h.0))
    ∙ >>=-ok (string_at ((c ∷ cs) ++ (0 ∷ rest))) _ (string_at_lem (c ∷ cs) rest h) refl

-- A slot without a name goes on with the sides of the game.
pub list_slot-next :
    (slot side : ℕ) (rest : List ℕ)
    → side ≢ 0
    → list_slot slot (0 ∷ rest) side ≡ ok (next_side slot (side + 1), side + 1)
unfolding list_slot
list_slot-next slot side rest h = rw (ne→== side 0 h) refl

-- The sum that is stored.
abbrev pub sum_of : List ℕ → ℕ
sum_of body = xor_bytes 0 (take ((slot_size - flash_header_size) / 4) body)

-- What `FDS_writeFlash` puts into a slot.
abbrev pub written : List ℕ → ℕ → List ℕ → List ℕ
written filename side body = slot_header filename side (sum_of body) ++ body

-- For a body of the size of a slot without its header, the image of the slot is a header of 256
-- bytes and the body, and the sum is the one of the first quarter of the body.
pub slot_image_lem :
    (filename : List ℕ) (side : ℕ) (body : List ℕ)
    → length body ≡ slot_size - flash_header_size
    → slot_image filename side body ≡ ok (written filename side body)
unfolding slot_image chksum_calc
slot_image_lem filename side body h =
    >>=-ok _ _ (>>=-ok (read_range body 0 quarter) _ covered refl) refl
  where
    quarter : ℕ
    quarter = (slot_size - flash_header_size) / 4

    covered : read_range body 0 quarter ≡ ok (take quarter body)
    covered =
        subst (λ t. read_range t 0 quarter ≡ ok (take quarter body)) (take-append-drop quarter body)
          (read_range_at [] (take quarter body) (drop quarter body) 0 quarter refl
            (omega (arith, h, length-take quarter body)))

-- The first 256 bytes of the image are the header.
pub take-written :
    (filename : List ℕ) (side : ℕ) (body : List ℕ)
    → take 256 (written filename side body) ≡ slot_header filename side (sum_of body)
take-written filename side body = header_first _ body (length-slot_header filename side _)
  where
    header_first : (header more : List ℕ) → length header ≡ 256 → take 256 (header ++ more) ≡ header
    header_first header more e =
        subst (λ n. take n (header ++ more) ≡ header) e (take-length_append {0} header more)

-- The bytes of the header behind the name.
after_name : ℕ → List ℕ
after_name chksum =
    u8 chksum
    ∷ u8 (chksum / 2 ^ 8)
    ∷ u8 (chksum / 2 ^ 16)
    ∷ u8 (chksum / 2 ^ 24)
    ∷ bit_and default_lead_in 0xff
    ∷ default_lead_in / 256
    ∷ replicate 10 0

-- The header of a first side, up to the 0 behind the name.
named_header :
    (filename : List ℕ) (chksum c : ℕ) (cs : List ℕ)
    → short_name filename ≡ c ∷ cs
    → length (c ∷ cs) < 240
    → (rest : List ℕ) × (slot_header filename 0 chksum ≡ (c ∷ cs) ++ (0 ∷ rest))
unfolding slot_header after_name
named_header filename chksum c cs e h = (
  replicate (240 - length (c ∷ cs) - 1) 0 ++ after_name chksum,
  ap (λ t. name_field t ++ after_name chksum) e
      ∙ ap (λ t. t ++ after_name chksum) (name_field-ends (c ∷ cs) h)
      ∙ append_assoc (c ∷ cs) (0 ∷ replicate (240 - length (c ∷ cs) - 1) 0) (after_name chksum),
)

-- The header of a later side begins with a 0.
next_header :
    (filename : List ℕ) (side chksum : ℕ)
    → side ≢ 0
    → slot_header filename side chksum ≡ 0 ∷ (replicate 239 0 ++ after_name chksum)
unfolding slot_header after_name
next_header filename side chksum h =
    ap (λ b. (if b then name_field (short_name filename) else replicate 240 0) ++ after_name chksum)
      (ne→== side 0 h)

-- Such an image fills the slot.
pub slot_image-Ensures :
    (filename : List ℕ) (side : ℕ) (body : List ℕ)
    → length body ≡ slot_size - flash_header_size
    → Ensures (λ image. length image ≡ slot_size) (slot_image filename side body)
slot_image-Ensures filename side body h =
    subst (λ r. Ensures (λ image. length image ≡ slot_size) r)
      (sym (slot_image_lem filename side body h))
      (omega (
        arith,
        h,
        length-append {0} (slot_header filename side (sum_of body)) body,
        length-slot_header filename side (sum_of body),
      ))

-- The name of the file comes back, for a body that fills the slot behind the header: `FDS_list`
-- on the 256 bytes that it reads of a slot into which `FDS_writeFlash` put the first side of a
-- game prints the name without its path, when that has 1 to 239 bytes, holds no 0 and does not
-- begin with 0xff, and counts one side. A slot with a later side, where the count is not 0, is
-- listed as the next side.
pub list_slot-slot_image :
    (filename : List ℕ) (side slot before seen c : ℕ) (cs body : List ℕ)
    → length body ≡ slot_size - flash_header_size
    → short_name filename ≡ c ∷ cs
    → IsString (c ∷ cs)
    → c ≢ 0xff
    → length (c ∷ cs) < 240
    → side ≢ 0
    → seen ≢ 0
    → Returns
        (slot_image filename 0 body)
        (λ image. list_slot slot (take 256 image) before ≡ ok (named slot (c ∷ cs), 1))
      × Returns
          (slot_image filename side body)
          (λ image. list_slot slot (take 256 image) seen ≡ ok (next_side slot (seen + 1), seen + 1))
list_slot-slot_image filename side slot before seen c cs body hb e h hc hl hd hs =
    let start = named_header filename (sum_of body) c cs e hl in
    (
      ok-Returns _ _ _ (slot_image_lem filename 0 body hb) (
          ap (λ t. list_slot slot t before) (take-written filename 0 body ∙ start.1)
          ∙ list_slot-named slot before c cs (start.0) h hc),
      ok-Returns _ _ _ (slot_image_lem filename side body hb) (
          ap (λ t. list_slot slot t seen)
            (take-written filename side body ∙ next_header filename side (sum_of body) hd)
          ∙ list_slot-next slot seen _ hs),
    )
