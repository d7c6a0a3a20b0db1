-- ===== src/Raw/Classes.antt =====
-- `raw_to_raw03` on the times that the adapter measures.
use fdsstick.Base.{ℕ, zero, suc, ◌≤◌, ◌<◌, ◌≡◌, refl, arith, List, [], ◌∷◌, ◌++◌, length}
use fdsstick.Base.{Run, ok, fault, stuck, push, Returns, take, drop}
use fdsstick.Raw.{raw_to_raw03_byte, raw_to_raw03}

-- The width of a time: 0, 1 and 2 in three intervals without a space between them, 3 elsewhere.
abbrev pub HasWidth : ℕ → ℕ → Type 0
HasWidth time width =
    (width < 4)
    × (width ≡ 0 → (0x48 ≤ time) × (time < 0x70))
    × (width ≡ 1 → (0x70 ≤ time) × (time < 0xa0))
    × (width ≡ 2 → (0xa0 ≤ time) × (time < 0xd0))
    × ((0x48 ≤ time) → (time < 0xd0) → width < 3)

abbrev pub HaveWidths : List ℕ → List ℕ → Type 0
HaveWidths [] [] = Unit {0}
HaveWidths [] (w ∷ ws) = ⊥
HaveWidths (t ∷ ts) [] = ⊥
HaveWidths (t ∷ ts) (w ∷ ws) = HasWidth t w × HaveWidths ts ws

byte-HasWidth : (t : ℕ) → HasWidth t (raw_to_raw03_byte t)
unfolding raw_to_raw03_byte
byte-HasWidth t = ground arith

-- `raw_to_raw03` on the first `n` bytes of a buffer returns: each becomes a width below 4, which
-- is 0, 1 or 2 exactly for the times from 0x48, 0x70 and 0xa0 up to the next bound, the last
-- bound being 0xd0, and the bytes behind them stay. So a time of 62, which the comment at the
-- function gives for one bit, becomes a 3.
pub raw_to_raw03-HaveWidths :
    (times behind : List ℕ) (n : ℕ)
    → n ≡ length times
    → Returns
        (raw_to_raw03 (times ++ behind) n)
        (λ out. HaveWidths times (take n out) × (drop n out ≡ behind))
unfolding raw_to_raw03
raw_to_raw03-HaveWidths [] behind zero e = (tt, refl)
raw_to_raw03-HaveWidths [] behind (suc n) e = absurd (omega arith)
raw_to_raw03-HaveWidths (t ∷ times) behind zero e = absurd (omega arith)
raw_to_raw03-HaveWidths (t ∷ times) behind (suc n) e =
    pushed (raw_to_raw03 (times ++ behind) n) (raw_to_raw03-HaveWidths times behind n (omega arith))
  where
    pushed :
        (r : Run (List ℕ))
        → Returns r (λ out. HaveWidths times (take n out) × (drop n out ≡ behind))
        → Returns
            (push (raw_to_raw03_byte t) r)
            (λ out. HaveWidths (t ∷ times) (take (suc n) out) × (drop (suc n) out ≡ behind))
    pushed (ok out) h = ((byte-HasWidth t, h.0), h.1)
    pushed fault h = absurd h
    pushed stuck h = absurd h
