-- ===== src/Raw/States.antt =====
-- The states between two pulses of a list of bits, and what the decoding loop leaves behind it.
use fdsstick.Base.{ℕ, ◌+◌, ◌≤◌, ◌≡◌, true}
use fdsstick.Base.{List, [], ◌∷◌, ◌++◌, length}
use fdsstick.Base.{All}
use fdsstick.Bin.Block.{zeros}
use fdsstick.Crc.Check.{IsByte}
use fdsstick.Raw.Pulses.{bits_of, Pending, fresh, begun, pulses}
use fdsstick.Raw.{Decoded}

-- The pending states that the pulses of bits reach.
pub data State : Type 0 where
  after_one : State
  one_zero : State
  more_zeros : State

abbrev pub pending : State → Pending
pending after_one = fresh
pending one_zero = begun 1
pending more_zeros = begun 0

-- The decoder's last bit, and the bits that it has not written yet.
abbrev pub last : State → ℕ
last after_one = 1
last one_zero = 1
last more_zeros = 0

abbrev pub lag : State → List ℕ
lag after_one = []
lag one_zero = 0 ∷ []
lag more_zeros = []

-- What the loop leaves: the bits `xs`, a clear bit perhaps, and the pulses of `tail` from a state
-- with nothing behind.
pub data Left (src rest tail : List ℕ) (p : ℕ) : Type 0 where
  even :
      (front : List ℕ)
      → src ≡ front ++ (pulses fresh (0 ∷ tail) ++ rest)
      → p ≡ length front
      → Left src rest tail p
  run :
      (front : List ℕ)
      → src ≡ front ++ (pulses (begun 0) (0 ∷ tail) ++ rest)
      → p ≡ length front
      → Left src rest tail p
  spare :
      (front : List ℕ)
      → src ≡ front ++ (pulses (begun 0) tail ++ rest)
      → p ≡ length front
      → Left src rest tail p

pub record Done (size : ℕ) (xs : List ℕ) (m : ℕ) (src rest tail : List ℕ) (d : Decoded)
    : Type 0 where
  pub ended : d.ended ≡ true
  pub left : Left src rest tail d.in_pos
  pub image : bits_of d.cursor.dst ≡ xs ++ zeros m
  pub low : length xs ≤ d.cursor.out
  pub high : d.cursor.out ≤ length xs + 1
  pub same_size : length d.cursor.dst ≡ size
  pub bytes : All IsByte d.cursor.dst
