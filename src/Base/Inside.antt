-- ===== src/Base/Inside.antt =====
-- An access inside a buffer returns.
use Prim.Native.Nat.{ℕ, zero, suc, ◌+◌, ◌≤◌, ◌<◌}
use mathlib.Core.Path.{◌≡◌, refl}
use mathlib.Core.Bool.{Bool, true, false}
use mathlib.Core.List.{List, [], ◌∷◌}
use native.Mathlib.Omega.{arith}
use fdsstick.Base.Outcome.{Run, ok, fault, stuck, Returns}
use fdsstick.Base.Lists.{length}
use fdsstick.Base.Buffer.{read, push, write, read_range, write_range}

pub read-Returns : (xs : List ℕ) (i : ℕ) → i < length xs → Returns (read xs i) (λ v. Unit {0})
read-Returns [] i h = absurd (omega arith)
read-Returns (x ∷ xs) zero h = tt
read-Returns (x ∷ xs) (suc i) h = read-Returns xs i (omega arith)

push-Returns :
    (x n : ℕ) (r : Run (List ℕ))
    → Returns r (λ ys. length ys ≡ n)
    → Returns (push x r) (λ ys. length ys ≡ suc n)
push-Returns x n (ok ys) h = omega arith
push-Returns x n fault h = absurd h
push-Returns x n stuck h = absurd h

pub write-Returns :
    (xs : List ℕ) (i v : ℕ) → i < length xs → Returns (write xs i v) (λ ys. length ys ≡ length xs)
write-Returns [] i v h = absurd (omega arith)
write-Returns (x ∷ xs) zero v h = refl
write-Returns (x ∷ xs) (suc i) v h =
    push-Returns x (length xs) (write xs i v) (write-Returns xs i v (omega arith))

pub read_range-Returns :
    (xs : List ℕ) (i n : ℕ) → i + n ≤ length xs → Returns (read_range xs i n) (λ ys. length ys ≡ n)
read_range-Returns [] zero zero h = refl
read_range-Returns (x ∷ xs) zero zero h = refl
read_range-Returns [] zero (suc n) h = absurd (omega arith)
read_range-Returns (x ∷ xs) zero (suc n) h =
    push-Returns x n (read_range xs zero n) (read_range-Returns xs zero n (omega arith))
read_range-Returns [] (suc i) n h = absurd (omega arith)
read_range-Returns (x ∷ xs) (suc i) n h = read_range-Returns xs i n (omega arith)

pub write_range-Returns :
    (xs : List ℕ) (i : ℕ) (vs : List ℕ)
    → i + length vs ≤ length xs
    → Returns (write_range xs i vs) (λ ys. length ys ≡ length xs)
write_range-Returns [] zero [] h = refl
write_range-Returns (x ∷ xs) zero [] h = refl
write_range-Returns [] zero (v ∷ vs) h = absurd (omega arith)
write_range-Returns (x ∷ xs) zero (v ∷ vs) h =
    push-Returns v (length xs) (write_range xs zero vs)
      (write_range-Returns xs zero vs (omega arith))
write_range-Returns [] (suc i) vs h = absurd (omega arith)
write_range-Returns (x ∷ xs) (suc i) vs h =
    push-Returns x (length xs) (write_range xs i vs) (write_range-Returns xs i vs (omega arith))

-- To split a run on its test, with what is then known.
pub branch-Returns {ℓ} :
    {A : Type ℓ} (P : A → Type 0) (b : Bool) (x y : Run A)
    → (b ≡ true → Returns x P)
    → (b ≡ false → Returns y P)
    → Returns (elim b [ true ↦ x | false ↦ y ]) P
branch-Returns P true x y h k = h refl
branch-Returns P false x y h k = k refl
