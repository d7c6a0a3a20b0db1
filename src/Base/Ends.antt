-- ===== src/Base/Ends.antt =====
-- A piece of code that ends: it returns, or it makes an access outside a buffer.
use fdsstick.Base.Outcome.{Run, ok, fault, stuck, ◌>>=◌, Ensures, Ensures-mono}
use fdsstick.Base.Buffer.{read, push, write, read_range, write_range}
use fdsstick.Base.Access.{read-Ensures, write-Ensures, read_range-Ensures, write_range-Ensures}
use Prim.Native.Nat.{ℕ}
use mathlib.Core.List.{List}

-- The run returns or makes an access outside a buffer.
abbrev pub Ends : {A : Type 0} → Run A → Type 0
Ends r = Ensures (λ a. Unit {0}) r

pub bind-Ends :
    {A : Type 0} {B : Type 0} (m : Run A) (f : A → Run B)
    → Ends m
    → ((a : A) → Ends (f a))
    → Ends (m >>= f)
bind-Ends (ok a) f h k = k a
bind-Ends fault f h k = tt
bind-Ends stuck f h k = absurd h

pub ensured : {A : Type 0} (P : A → Type 0) (r : Run A) → Ensures P r → Ends r
ensured P r h = Ensures-mono P _ r h (λ a k. tt)

pub read-Ends : (xs : List ℕ) (i : ℕ) → Ends (read xs i)
read-Ends xs i = ensured _ _ (read-Ensures xs i)

pub write-Ends : (xs : List ℕ) (i v : ℕ) → Ends (write xs i v)
write-Ends xs i v = ensured _ _ (write-Ensures xs i v)

pub read_range-Ends : (xs : List ℕ) (i n : ℕ) → Ends (read_range xs i n)
read_range-Ends xs i n = ensured _ _ (read_range-Ensures xs i n)

pub write_range-Ends : (xs : List ℕ) (i : ℕ) (vs : List ℕ) → Ends (write_range xs i vs)
write_range-Ends xs i vs = ensured _ _ (write_range-Ensures xs i vs)

pub push-Ends : (x : ℕ) (r : Run (List ℕ)) → Ends r → Ends (push x r)
push-Ends x (ok xs) h = tt
push-Ends x fault h = tt
push-Ends x stuck h = absurd h
