-- ===== src/Slots/Listing.antt =====
-- What `FDS_list` prints of a game that fills several slots.
use fdsstick.Base.{
  ℕ, zero, suc, ◌+◌, ◌*◌, ◌≡◌, ◌≢◌, refl, sym, ap, arith, Bool, true, List, [], ◌∷◌, ◌++◌, length,
  Run, ok, ◌>>=◌, Returns, ok-Returns, >>=-Returns,
}
use mathlib.Core.Path.{subst}
use fdsstick.Device.{Hid, Device}
use fdsstick.Spi.{read_flash}
use fdsstick.Open.{slot_size}
use fdsstick.Os.{Os}
use fdsstick.Slots.{Entry, named, next_side, list_slot, list_slots}
use fdsstick.Slots.Header.{IsString, list_slot-named, list_slot-next}

-- The sides of a game from the side `side` on.
abbrev pub side_entries : ℕ → ℕ → List (List ℕ) → List Entry
side_entries slot side [] = []
side_entries slot side (p ∷ ps) = next_side slot side ∷ side_entries (slot + 1) (side + 1) ps

-- A page without a name.
abbrev pub later : List ℕ → List ℕ
later rest = 0 ∷ rest

abbrev pub laters : List (List ℕ) → List (List ℕ)
laters [] = []
laters (p ∷ ps) = later p ∷ laters ps

-- A bind whose first part is known to return.
bound :
    {A : Type 0} {B : Type 0} (m : Run A) (f : A → Run B) (a : A) (Q : B → Type 0)
    → m ≡ ok a
    → Returns (f a) Q
    → Returns (m >>= f) Q
bound m f a Q e h =
    >>=-Returns (λ b. b ≡ a) Q m f (ok-Returns _ m a e refl)
      λ b k. subst (λ t. Returns (f t) Q) (sym k) h

module _ {σ : Type 0} (os : Os σ) (hid : Hid σ) (rounds : ℕ) where
  -- From `slot` on the chip answers with these pages, one for each slot.
  abbrev pub Holds : ℕ → List (List ℕ) → List ℕ → Device σ → Type 0
  Holds slot [] buf dev = Unit {0}
  Holds slot (p ∷ ps) buf dev =
      (next : Device σ) × (read_flash hid os.get_ticks (slot * slot_size) buf 256 dev
        ≡ ok (true, p, next))
      × Holds (slot + 1) ps p next

  -- The list of the slots succeeds with these entries.
  abbrev pub Lists : List Entry → Bool × List Entry × Device σ → Type 0
  Lists entries r = (r.0 ≡ true) × (r.1 ≡ entries)

  -- A slot that is read and listed stands before the others.
  list_step :
      (n slot side side' : ℕ) (buf page : List ℕ) (dev next : Device σ) (entry : Entry)
      (entries : List Entry)
      → read_flash hid os.get_ticks (slot * slot_size) buf 256 dev ≡ ok (true, page, next)
      → list_slot slot page side ≡ ok (entry, side')
      → Returns (list_slots os hid rounds n (slot + 1) side' page next) (Lists entries)
      → Returns (list_slots os hid rounds (suc n) slot side buf dev) (Lists (entry ∷ entries))
  unfolding list_slots
  list_step n slot side side' buf page dev next entry entries hr hl h =
      bound _ _ (true, page, next) _ hr
        (bound (list_slot slot page side) _ (entry, side') _ hl
          (>>=-Returns (Lists entries) (Lists (entry ∷ entries)) _ _ h
            λ r k. (k.0, ap (λ t. entry ∷ t) k.1)))

  list_slots-sides :
      (ps : List (List ℕ)) (n slot side : ℕ) (buf : List ℕ) (dev : Device σ)
      → n ≡ length ps
      → side ≢ 0
      → Holds slot (laters ps) buf dev
      → Returns
          (list_slots os hid rounds n slot side buf dev)
          (Lists (side_entries slot (side + 1) ps))
  unfolding list_slots
  list_slots-sides [] zero slot side buf dev hn hs held = (refl, refl)
  list_slots-sides [] (suc n) slot side buf dev hn hs held = absurd (omega arith)
  list_slots-sides (p ∷ ps) zero slot side buf dev hn hs held = absurd (omega arith)
  list_slots-sides (p ∷ ps) (suc n) slot side buf dev hn hs held =
      list_step n slot side (side + 1) buf (later p) dev (held.0) (next_side slot (side + 1))
        (side_entries (slot + 1) (side + 1 + 1) ps) (held.1) (list_slot-next slot side p hs)
        (list_slots-sides ps n (slot + 1) (side + 1) (later p) (held.0) (omega arith) (omega arith)
          (held.2))

  -- When the chip answers with a page that begins with a name and a 0, where the name is a string
  -- that does not begin with 0xff, and then with pages that begin with 0, the listing of their
  -- slots succeeds, from any count of sides: it is the name, then the sides from the second on,
  -- each with its slot.
  pub list_slots-game :
      (c : ℕ) (cs rest : List ℕ) (ps : List (List ℕ)) (n slot side : ℕ) (buf : List ℕ)
      (dev : Device σ)
      → IsString (c ∷ cs)
      → c ≢ 0xff
      → n ≡ suc (length ps)
      → Holds slot (((c ∷ cs) ++ (0 ∷ rest)) ∷ laters ps) buf dev
      → Returns
          (list_slots os hid rounds n slot side buf dev)
          (Lists (named slot (c ∷ cs) ∷ side_entries (slot + 1) 2 ps))
  list_slots-game c cs rest ps zero slot side buf dev h hc hn held = absurd (omega arith)
  list_slots-game c cs rest ps (suc n) slot side buf dev h hc hn held =
      list_step n slot side 1 buf ((c ∷ cs) ++ (0 ∷ rest)) dev (held.0) (named slot (c ∷ cs))
        (side_entries (slot + 1) 2 ps) (held.1) (list_slot-named slot side c cs rest h hc)
        (list_slots-sides ps n (slot + 1) 1 ((c ∷ cs) ++ (0 ∷ rest)) (held.0) (omega arith)
          (omega arith) (held.2))
