-- ===== src/Os.antt =====
-- The C library and os.cpp, as an interface: files, memory, the clock and the keyboard.
use fdsstick.Base.{ℕ, List, Option, Bool, length, ◌≡◌}
use fdsstick.Device.{Device}

-- `load` is the contents of a file opened for reading; `create` opens one for writing, which fails or
-- leaves it empty; `save` is its contents when it is closed. `malloc` is what a new buffer holds.
pub record Os (σ : Type 0) : Type 0 where
  pub load : List ℕ → σ → Option (List ℕ) × σ
  pub create : List ℕ → σ → Bool × σ
  pub save : List ℕ → List ℕ → σ → σ
  pub get_ticks : σ → ℕ × σ
  pub read_kb : σ → ℕ × σ
  pub sleep_ms : ℕ → σ → σ
  pub malloc : ℕ → σ → List ℕ

-- The device after a change of the world around it.
abbrev pub moved : {σ : Type 0} → Device σ → σ → Device σ
moved dev w = record dev { world = w }

-- `malloc` gives as many bytes as are asked for.
abbrev pub Allocates : {σ : Type 0} → Os σ → Type 0
Allocates {σ} os = (n : ℕ) (w : σ) → length (os.malloc n w) ≡ n
