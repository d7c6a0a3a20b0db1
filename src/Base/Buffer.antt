-- ===== src/Base/Buffer.antt =====
-- A C buffer is the list of its bytes. An access outside it is a `fault`.
use Prim.Native.Nat.{ℕ, zero, suc, ◌+◌, ◌<◌}
use mathlib.Core.Path.{◌≡◌, refl, ap}
use mathlib.Core.List.{List, [], ◌∷◌, ◌++◌}
use native.Mathlib.Omega.{arith}
use fdsstick.Base.Outcome.{Run, ok, fault, stuck}
use fdsstick.Base.Lists.{length, get_or}

-- `b[i]`
abbrev pub read : List ℕ → ℕ → Run ℕ
read [] i = fault
read (x ∷ xs) zero = ok x
read (x ∷ xs) (suc i) = read xs i

abbrev pub push : ℕ → Run (List ℕ) → Run (List ℕ)
push x (ok xs) = ok (x ∷ xs)
push x fault = fault
push x stuck = stuck

-- `b[i] = v`
abbrev pub write : List ℕ → ℕ → ℕ → Run (List ℕ)
write [] i v = fault
write (x ∷ xs) zero v = ok (v ∷ xs)
write (x ∷ xs) (suc i) v = push x (write xs i v)

-- The `n` bytes from `b + i` on.
abbrev pub read_range : List ℕ → ℕ → ℕ → Run (List ℕ)
read_range xs zero zero = ok []
read_range [] zero (suc n) = fault
read_range (x ∷ xs) zero (suc n) = push x (read_range xs zero n)
read_range [] (suc i) n = fault
read_range (x ∷ xs) (suc i) n = read_range xs i n

-- `memcpy(b + i, bytes, n)` for the `n` bytes of the list.
abbrev pub write_range : List ℕ → ℕ → List ℕ → Run (List ℕ)
write_range xs zero [] = ok xs
write_range [] zero (v ∷ vs) = fault
write_range (x ∷ xs) zero (v ∷ vs) = push v (write_range xs zero vs)
write_range [] (suc i) vs = fault
write_range (x ∷ xs) (suc i) vs = push x (write_range xs i vs)

-- Accesses behind a prefix whose length is the index.
pub read_at :
    (xs : List ℕ) (y : ℕ) (ys : List ℕ) (i : ℕ) → i ≡ length xs → read (xs ++ (y ∷ ys)) i ≡ ok y
read_at [] y ys zero e = refl
read_at [] y ys (suc i) e = absurd (omega arith)
read_at (x ∷ xs) y ys zero e = absurd (omega arith)
read_at (x ∷ xs) y ys (suc i) e = read_at xs y ys i (omega arith)

pub read_inside :
    (xs ys zs : List ℕ) (i j : ℕ)
    → i ≡ length xs + j
    → j < length ys
    → read (xs ++ (ys ++ zs)) i ≡ ok (get_or ys j 0)
read_inside [] [] zs i j e h = absurd (omega arith)
read_inside [] (y ∷ ys) zs zero zero e h = refl
read_inside [] (y ∷ ys) zs zero (suc j) e h = absurd (omega arith)
read_inside [] (y ∷ ys) zs (suc i) zero e h = absurd (omega arith)
read_inside [] (y ∷ ys) zs (suc i) (suc j) e h =
    read_inside [] ys zs i j (omega arith) (omega arith)
read_inside (x ∷ xs) ys zs zero j e h = absurd (omega arith)
read_inside (x ∷ xs) ys zs (suc i) j e h = read_inside xs ys zs i j (omega arith) h

pub write_at :
    (xs : List ℕ) (y : ℕ) (ys : List ℕ) (v i : ℕ)
    → i ≡ length xs
    → write (xs ++ (y ∷ ys)) i v ≡ ok (xs ++ (v ∷ ys))
write_at [] y ys v zero e = refl
write_at [] y ys v (suc i) e = absurd (omega arith)
write_at (x ∷ xs) y ys v zero e = absurd (omega arith)
write_at (x ∷ xs) y ys v (suc i) e = ap (push x) (write_at xs y ys v i (omega arith))

pub read_range_at :
    (xs ys zs : List ℕ) (i n : ℕ)
    → i ≡ length xs
    → n ≡ length ys
    → read_range (xs ++ (ys ++ zs)) i n ≡ ok ys
read_range_at [] [] [] zero zero e h = refl
read_range_at [] [] (z ∷ zs) zero zero e h = refl
read_range_at [] [] zs zero (suc n) e h = absurd (omega arith)
read_range_at [] (y ∷ ys) zs zero zero e h = absurd (omega arith)
read_range_at [] (y ∷ ys) zs zero (suc n) e h =
    ap (push y) (read_range_at [] ys zs zero n e (omega arith))
read_range_at [] ys zs (suc i) n e h = absurd (omega arith)
read_range_at (x ∷ xs) ys zs zero n e h = absurd (omega arith)
read_range_at (x ∷ xs) ys zs (suc i) n e h = read_range_at xs ys zs i n (omega arith) h

pub write_range_at :
    (xs ys vs zs : List ℕ) (i : ℕ)
    → i ≡ length xs
    → length ys ≡ length vs
    → write_range (xs ++ (ys ++ zs)) i vs ≡ ok (xs ++ (vs ++ zs))
write_range_at [] [] [] zs zero e h = refl
write_range_at [] [] (v ∷ vs) zs zero e h = absurd (omega arith)
write_range_at [] (y ∷ ys) [] zs zero e h = absurd (omega arith)
write_range_at [] (y ∷ ys) (v ∷ vs) zs zero e h =
    ap (push v) (write_range_at [] ys vs zs zero e (omega arith))
write_range_at [] ys vs zs (suc i) e h = absurd (omega arith)
write_range_at (x ∷ xs) ys vs zs zero e h = absurd (omega arith)
write_range_at (x ∷ xs) ys vs zs (suc i) e h =
    ap (push x) (write_range_at xs ys vs zs i (omega arith) h)
