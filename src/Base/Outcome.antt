-- ===== src/Base/Outcome.antt =====
-- The outcome of a piece of C code. `fault` is an access outside a buffer, which C leaves
-- undefined; `stuck` is no outcome of the program: a loop of the model ran out of fuel.
use mathlib.Core.Path.{◌≡◌, ap, ◌∙◌}

pub data Run {ℓ} (A : Type ℓ) : Type ℓ where
  ok : A → Run A
  fault stuck : Run A

infixl 5 ◌>>=◌
abbrev pub ◌>>=◌ {ℓ κ} : {A : Type ℓ} {B : Type κ} → Run A → (A → Run B) → Run B
ok a >>= f = f a
fault >>= f = fault
stuck >>= f = stuck

-- The run returns, and its result satisfies `P`.
abbrev pub Returns {ℓ} : {A : Type ℓ} → Run A → (A → Type 0) → Type 0
Returns (ok a) P = P a
Returns fault P = ⊥
Returns stuck P = ⊥

-- The outcome of a bind whose first part is known to return.
pub >>=-ok {ℓ κ} :
    {A : Type ℓ} {B : Type κ} (m : Run A) (f : A → Run B) {a : A} {r : Run B}
    → m ≡ ok a
    → f a ≡ r
    → (m >>= f) ≡ r
>>=-ok m f {a} p q = ap (λ t. t >>= f) p ∙ q

-- The run ends: it faults, or returns a result that satisfies `P`.
abbrev pub Ensures {ℓ} : {A : Type ℓ} → (A → Type 0) → Run A → Type 0
Ensures P (ok a) = P a
Ensures P fault = Unit {0}
Ensures P stuck = ⊥

pub >>=-Ensures {ℓ κ} :
    {A : Type ℓ} {B : Type κ} (P : A → Type 0) (Q : B → Type 0) (m : Run A) (f : A → Run B)
    → Ensures P m
    → ((a : A) → P a → Ensures Q (f a))
    → Ensures Q (m >>= f)
>>=-Ensures P Q (ok a) f h k = k a h
>>=-Ensures P Q fault f h k = tt
>>=-Ensures P Q stuck f h k = absurd h

pub Ensures-mono {ℓ} :
    {A : Type ℓ} (P Q : A → Type 0) (r : Run A) → Ensures P r → ((a : A) → P a → Q a) → Ensures Q r
Ensures-mono P Q (ok a) h k = k a h
Ensures-mono P Q fault h k = tt
Ensures-mono P Q stuck h k = absurd h

pub Ensures-both {ℓ} :
    {A : Type ℓ} (P Q : A → Type 0) (r : Run A)
    → Ensures P r
    → Ensures Q r
    → Ensures (λ a. P a × Q a) r
Ensures-both P Q (ok a) h k = (h, k)
Ensures-both P Q fault h k = tt
Ensures-both P Q stuck h k = absurd h

pub >>=-Returns {ℓ κ} :
    {A : Type ℓ} {B : Type κ} (P : A → Type 0) (Q : B → Type 0) (m : Run A) (f : A → Run B)
    → Returns m P
    → ((a : A) → P a → Returns (f a) Q)
    → Returns (m >>= f) Q
>>=-Returns P Q (ok a) f h k = k a h
>>=-Returns P Q fault f h k = absurd h
>>=-Returns P Q stuck f h k = absurd h

pub ok-Returns {ℓ} :
    {A : Type ℓ} (P : A → Type 0) (m : Run A) (a : A) → m ≡ ok a → P a → Returns m P
ok-Returns P m a e h = rw e h

pub Returns-mono {ℓ} :
    {A : Type ℓ} (P Q : A → Type 0) (r : Run A) → Returns r P → ((a : A) → P a → Q a) → Returns r Q
Returns-mono P Q (ok a) h k = k a h
Returns-mono P Q fault h k = absurd h
Returns-mono P Q stuck h k = absurd h
