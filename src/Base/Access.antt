-- ===== src/Base/Access.antt =====
-- What an access that returns tells of its index, and what a write keeps.
use Prim.Native.Nat.{ℕ, zero, suc, ◌+◌, ◌≤◌, ◌<◌}
use mathlib.Core.Path.{◌≡◌, refl}
use mathlib.Core.Bool.{Bool, true, false}
use mathlib.Core.Option.{Option, none, some}
use mathlib.Core.List.{List, [], ◌∷◌}
use native.Mathlib.Omega.{arith}
use fdsstick.Base.Outcome.{Run, ok, fault, stuck, Ensures}
use fdsstick.Base.Lists.{length}
use fdsstick.Base.Num.{if◌then◌else◌}
use fdsstick.Base.Buffer.{read, push, write, read_range, write_range}

pub read-Ensures : (xs : List ℕ) (i : ℕ) → Ensures (λ v. i < length xs) (read xs i)
read-Ensures [] i = tt
read-Ensures (x ∷ xs) zero = omega arith
read-Ensures (x ∷ xs) (suc i) = weaken (read xs i) (read-Ensures xs i)
  where
    weaken : (r : Run ℕ) → Ensures (λ v. i < length xs) r → Ensures (λ v. suc i < suc (length xs)) r
    weaken (ok v) h = omega arith
    weaken fault h = tt
    weaken stuck h = absurd h

pub write-Ensures :
    (xs : List ℕ) (i v : ℕ)
    → Ensures (λ ys. (length ys ≡ length xs) × (i + 1 ≤ length xs)) (write xs i v)
write-Ensures [] i v = tt
write-Ensures (x ∷ xs) zero v = omega arith
write-Ensures (x ∷ xs) (suc i) v = grow (write xs i v) (write-Ensures xs i v)
  where
    grow :
        (r : Run (List ℕ))
        → Ensures (λ ys. (length ys ≡ length xs) × (i + 1 ≤ length xs)) r
        → Ensures (λ ys. (length ys ≡ suc (length xs)) × (suc i + 1 ≤ suc (length xs))) (push x r)
    grow (ok ys) h = omega arith
    grow fault h = tt
    grow stuck h = absurd h

pub read_range-Ensures :
    (xs : List ℕ) (i n : ℕ)
    → Ensures (λ ys. (length ys ≡ n) × (i + n ≤ length xs)) (read_range xs i n)
read_range-Ensures [] zero zero = omega arith
read_range-Ensures (x ∷ xs) zero zero = omega arith
read_range-Ensures [] zero (suc n) = tt
read_range-Ensures (x ∷ xs) zero (suc n) =
    grow (read_range xs zero n) (read_range-Ensures xs zero n)
  where
    grow :
        (r : Run (List ℕ))
        → Ensures (λ ys. (length ys ≡ n) × (0 + n ≤ length xs)) r
        → Ensures (λ ys. (length ys ≡ suc n) × (0 + suc n ≤ suc (length xs))) (push x r)
    grow (ok ys) h = omega arith
    grow fault h = tt
    grow stuck h = absurd h
read_range-Ensures [] (suc i) n = tt
read_range-Ensures (x ∷ xs) (suc i) n = weaken (read_range xs i n) (read_range-Ensures xs i n)
  where
    weaken :
        (r : Run (List ℕ))
        → Ensures (λ ys. (length ys ≡ n) × (i + n ≤ length xs)) r
        → Ensures (λ ys. (length ys ≡ n) × (suc i + n ≤ suc (length xs))) r
    weaken (ok ys) h = omega arith
    weaken fault h = tt
    weaken stuck h = absurd h

pub write_range-Ensures :
    (xs : List ℕ) (i : ℕ) (vs : List ℕ)
    → Ensures (λ ys. (length ys ≡ length xs) × (i + length vs ≤ length xs)) (write_range xs i vs)
write_range-Ensures [] zero [] = omega arith
write_range-Ensures (x ∷ xs) zero [] = omega arith
write_range-Ensures [] zero (v ∷ vs) = tt
write_range-Ensures (x ∷ xs) zero (v ∷ vs) =
    grow (write_range xs zero vs) (write_range-Ensures xs zero vs)
  where
    grow :
        (r : Run (List ℕ))
        → Ensures (λ ys. (length ys ≡ length xs) × (0 + length vs ≤ length xs)) r
        → Ensures
            (λ ys. (length ys ≡ suc (length xs)) × (0 + suc (length vs) ≤ suc (length xs)))
            (push v r)
    grow (ok ys) h = omega arith
    grow fault h = tt
    grow stuck h = absurd h
write_range-Ensures [] (suc i) vs = tt
write_range-Ensures (x ∷ xs) (suc i) vs = grow (write_range xs i vs) (write_range-Ensures xs i vs)
  where
    grow :
        (r : Run (List ℕ))
        → Ensures (λ ys. (length ys ≡ length xs) × (i + length vs ≤ length xs)) r
        → Ensures
            (λ ys. (length ys ≡ suc (length xs)) × (suc i + length vs ≤ suc (length xs)))
            (push x r)
    grow (ok ys) h = omega arith
    grow fault h = tt
    grow stuck h = absurd h

-- To split a run on its test, or on an optional value, with what is then known.
pub branch-Ensures {ℓ} :
    {A : Type ℓ} (P : A → Type 0) (b : Bool) (x y : Run A)
    → (b ≡ true → Ensures P x)
    → (b ≡ false → Ensures P y)
    → Ensures P (elim b [ true ↦ x | false ↦ y ])
branch-Ensures P true x y h k = h refl
branch-Ensures P false x y h k = k refl

pub if-Ensures {ℓ} :
    {A : Type ℓ} (P : A → Type 0) (b : Bool) (x y : Run A)
    → (b ≡ true → Ensures P x)
    → (b ≡ false → Ensures P y)
    → Ensures P (if b then x else y)
if-Ensures P true x y h k = h refl
if-Ensures P false x y h k = k refl

pub option-Ensures {ℓ κ} :
    {A : Type ℓ} {B : Type κ} (P : B → Type 0) (o : Option A) (x : Run B) (f : A → Run B)
    → (o ≡ none → Ensures P x)
    → ((a : A) → o ≡ some a → Ensures P (f a))
    → Ensures P (elim o [ none ↦ x | some a ↦ f a ])
option-Ensures P none x f h k = h refl
option-Ensures P (some a) x f h k = k a refl
