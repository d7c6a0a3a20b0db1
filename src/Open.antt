-- ===== src/Open.antt =====
-- `dev_open` and `dev_close` of device.cpp: what the static variables hold when an adapter is open.
pub mod Size
mod Tests
use fdsstick.Base.{
  ℕ, ◌/◌, ◌≡◌, ◌≢◌, refl, arith, Bool, true, false, ◌&&◌, List, [], ◌∷◌, Option, none, some,
}
use fdsstick.Base.{
  Run, ok, fault, stuck, ◌>>=◌, Ensures, >>=-Ensures, ◌==◌, ==_iff, if◌then◌else◌, Bool-cases, inl,
  inr,
}
use mathlib.Core.Bool.{false≢true}
use fdsstick.Base.{sym, ◌∙◌}
use fdsstick.Device.{Hid, Device}
use fdsstick.Spi.Ends.{read_flash_size-Ends}
use fdsstick.Spi.{read_flash_size}

-- What the program reads of a `hid_device_info`.
pub record DeviceInfo : Type 0 where
  pub path : List ℕ
  pub vendor_id : ℕ
  pub product_id : ℕ
  pub release_number : ℕ

-- `hid_enumerate`, `hid_open_path` (whether a handle is returned) and `hid_close`.
pub record Bus (σ : Type 0) : Type 0 where
  pub enumerate : ℕ → ℕ → σ → List DeviceInfo × σ
  pub open_path : List ℕ → σ → Bool × σ
  pub close : σ → σ

-- The variables of device.cpp; `handle` is whether the pointer is not NULL.
pub record Adapter (σ : Type 0) : Type 0 where
  pub handle : Bool
  pub flash_size : ℕ
  pub slots : ℕ
  pub fw_version : ℕ
  pub device : Device σ

abbrev pub vid : ℕ
vid = 0x0416

abbrev pub pid : ℕ
pid = 0xbeef

abbrev pub slot_size : ℕ
slot_size = 0x1_0000

-- The loop over the list.
pub find_adapter : List DeviceInfo → Option DeviceInfo
find_adapter [] = none
find_adapter (d ∷ ds) =
    if d.vendor_id == vid && d.product_id == pid then some d else find_adapter ds

known : (n : ℕ) → (n == 0) ≡ false → n ≢ 0
known n e = ground arith

module _ {σ : Type 0} (bus : Bus σ) (hid : Hid σ) (get_ticks : σ → ℕ × σ) where
  pub dev_close : Adapter σ → Adapter σ
  dev_close a =
      let world = if a.handle then bus.close a.device.world else a.device.world in
      record a {
        handle = false;
        flash_size = 0;
        slots = 0;
        device = record a.device { world = world };
      }

  -- Behind `hid_open_path`, with a handle.
  pub measure : ℕ → Adapter σ → Run (Bool × Adapter σ)
  unfolding dev_close
  measure release a = do
    size ← read_flash_size hid get_ticks a.device
    let sized = record a {
      fw_version = release;
      flash_size = size.0;
      slots = size.0 / slot_size;
      device = size.1;
    }
    elim (size.0 == 0) [ true ↦ ok (false, dev_close sized) | false ↦ ok (true, sized) ]

  pub dev_open : Adapter σ → Run (Bool × Adapter σ)
  unfolding dev_close find_adapter measure
  dev_open a =
      let closed = dev_close a in
      let listed = bus.enumerate vid pid closed.device.world in
      let seen = record closed { device = record closed.device { world = listed.1 } } in
      elim (find_adapter listed.0) [
        | none ↦ ok (false, seen)
        | some info ↦
            let tried = bus.open_path info.path listed.1 in
            let held = record seen {
              handle = tried.0;
              device = record seen.device { world = tried.1 };
            } in
            elim tried.0 [ false ↦ ok (false, held) | true ↦ measure info.release_number held ]
      ]

  -- A handle stands for a chip of a known size, and nothing is left of a closed one.
  pub IsConsistent : Adapter σ → Type 0
  IsConsistent a =
      (a.handle ≡ true → a.flash_size ≢ 0)
      × (a.handle ≡ false → a.flash_size ≡ 0)
      × (a.slots ≡ a.flash_size / slot_size)

  pub dev_close-IsConsistent : (a : Adapter σ) → IsConsistent (dev_close a)
  unfolding dev_close IsConsistent
  dev_close-IsConsistent a = (λ e. absurd (false≢true e), λ e. refl, omega arith)

  pub dev_close_lem :
      (a : Adapter σ) → ((dev_close a).handle ≡ false) × ((dev_close a).flash_size ≡ 0)
  unfolding dev_close
  dev_close_lem a = (refl, refl)

  -- `dev_open` ends. If it returns, an adapter is open exactly if the result is true, with a chip of a
  -- known size and its slots, and nothing is left behind otherwise.
  pub Opens : Bool × Adapter σ → Type 0
  Opens r = IsConsistent r.1 × (r.0 ≡ r.1.handle)

  pub Opens-slots : (r : Bool × Adapter σ) → Opens r → r.1.slots ≡ r.1.flash_size / slot_size
  unfolding Opens IsConsistent
  Opens-slots r h = h.0.2

  measured :
      (b : Bool) (sized : Adapter σ)
      → (sized.flash_size == 0) ≡ b
      → sized.handle ≡ true
      → sized.slots ≡ sized.flash_size / slot_size
      → Ensures Opens (elim b [ true ↦ ok (false, dev_close sized) | false ↦ ok (true, sized) ])
  unfolding Opens IsConsistent dev_close
  measured true sized e h s = (dev_close-IsConsistent sized, refl)
  measured false sized e h s =
      ((λ t. known sized.flash_size e, λ f. absurd (false≢true (sym f ∙ h)), s), sym h)

  measure-Opens :
      (release : ℕ) (a : Adapter σ) → a.handle ≡ true → Ensures Opens (measure release a)
  unfolding measure
  measure-Opens release a h =
      >>=-Ensures (λ t. Unit {0}) Opens _ _ (read_flash_size-Ends hid get_ticks a.device)
        λ size u. measured (size.0 == 0) _ refl h refl

  opened :
      (b : Bool) (w : σ) (release : ℕ) (seen : Adapter σ)
      → seen.flash_size ≡ 0
      → seen.slots ≡ 0
      → let held = record seen { handle = b; device = record seen.device { world = w } } in
        Ensures Opens (elim b [ false ↦ ok (false, held) | true ↦ measure release held ])
  unfolding Opens IsConsistent
  opened false w release seen hf hs =
      ((λ e. absurd (false≢true e), λ e. hf, omega (arith, hf, hs)), refl)
  opened true w release seen hf hs =
      measure-Opens release
        (record seen { handle = true; device = record seen.device { world = w } }) refl

  found :
      (d : Option DeviceInfo) (seen : Adapter σ)
      → seen.handle ≡ false
      → seen.flash_size ≡ 0
      → seen.slots ≡ 0
      → Ensures Opens (elim d [
        | none ↦ ok (false, seen)
        | some info ↦
            let tried = bus.open_path info.path seen.device.world in
            let held = record seen {
              handle = tried.0;
              device = record seen.device { world = tried.1 };
            } in
            elim tried.0 [ false ↦ ok (false, held) | true ↦ measure info.release_number held ]
      ])
  unfolding Opens IsConsistent
  found none seen hh hf hs =
      ((λ e. absurd (false≢true (sym hh ∙ e)), λ e. hf, omega (arith, hf, hs)), sym hh)
  found (some info) seen hh hf hs =
      let tried = bus.open_path info.path seen.device.world in
      opened (tried.0) (tried.1) info.release_number seen hf hs

  -- `dev_open` ends, from any state and whatever hidapi answers. If it makes no access outside
  -- its buffers, its result is whether a handle is held; with a handle the size of the flash is
  -- not 0, without one it is 0, and the number of slots is the size by that of a slot.
  pub dev_open-Opens : (a : Adapter σ) → Ensures Opens (dev_open a)
  unfolding dev_open dev_close
  dev_open-Opens a = found _ _ refl refl refl
