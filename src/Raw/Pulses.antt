-- ===== src/Raw/Pulses.antt =====
-- The pulse code described bit by bit.
use fdsstick.Base.{ℕ, zero, suc, ◌+◌, ◌/◌, ◌%◌, ◌≡◌, refl, ap}
use fdsstick.Base.{List, [], ◌∷◌, ◌++◌}

-- The lowest `n` bits of a byte, lowest first.
abbrev pub bits_from : ℕ → ℕ → List ℕ
bits_from zero b = []
bits_from (suc n) b = (b % 2) ∷ bits_from n (b / 2)

abbrev pub byte_bits : ℕ → List ℕ
byte_bits b = bits_from 8 b

-- The bits of a buffer in the order of the disk.
unfoldable pub bits_of : List ℕ → List ℕ
bits_of [] = []
bits_of (b ∷ bs) = byte_bits b ++ bits_of bs

-- Behind a 1 nothing is pending. Behind a 0 a pulse has begun: 1 bit long if a 1 stood before
-- the 0, and counted from 0 if a 0 did.
pub data Pending : Type 0 where
  fresh : Pending
  begun : ℕ → Pending

-- The pulses that a list of bits completes, and what is pending behind it.
unfoldable pub pulses : Pending → List ℕ → List ℕ
pulses p [] = []
pulses fresh (zero ∷ bs) = pulses (begun 1) bs
pulses fresh (suc b ∷ bs) = 0 ∷ pulses fresh bs
pulses (begun v) (zero ∷ bs) = v ∷ pulses (begun 0) bs
pulses (begun v) (suc b ∷ bs) = (v + 1) ∷ pulses fresh bs

pub pulses-nil : (p : Pending) → pulses p [] ≡ []
unfolding pulses
pulses-nil p = refl

abbrev pub pending_after : Pending → List ℕ → Pending
pending_after p [] = p
pending_after fresh (zero ∷ bs) = pending_after (begun 1) bs
pending_after fresh (suc b ∷ bs) = pending_after fresh bs
pending_after (begun v) (zero ∷ bs) = pending_after (begun 0) bs
pending_after (begun v) (suc b ∷ bs) = pending_after fresh bs

pub pulses-append :
    (p : Pending) (xs ys : List ℕ)
    → pulses p (xs ++ ys) ≡ pulses p xs ++ pulses (pending_after p xs) ys
unfolding pulses
pulses-append p [] ys = refl
pulses-append fresh (zero ∷ xs) ys = pulses-append (begun 1) xs ys
pulses-append fresh (suc b ∷ xs) ys = ap (λ t. 0 ∷ t) (pulses-append fresh xs ys)
pulses-append (begun v) (zero ∷ xs) ys = ap (λ t. v ∷ t) (pulses-append (begun 0) xs ys)
pulses-append (begun v) (suc b ∷ xs) ys = ap (λ t. (v + 1) ∷ t) (pulses-append fresh xs ys)

pub pending_after-append :
    (p : Pending) (xs ys : List ℕ)
    → pending_after p (xs ++ ys) ≡ pending_after (pending_after p xs) ys
pending_after-append p [] ys = refl
pending_after-append fresh (zero ∷ xs) ys = pending_after-append (begun 1) xs ys
pending_after-append fresh (suc b ∷ xs) ys = pending_after-append fresh xs ys
pending_after-append (begun v) (zero ∷ xs) ys = pending_after-append (begun 0) xs ys
pending_after-append (begun v) (suc b ∷ xs) ys = pending_after-append fresh xs ys
