-- ===== src/Slots/Path.antt =====
-- The name of a game from the path of its file.
use fdsstick.Base.{
  ℕ, ◌≡◌, ◌≢◌, refl, ap, ◌∙◌, Bool, true, false, ◌||◌, List, [], ◌∷◌, ◌++◌, All, ne→==, ◌==◌,
}
use fdsstick.Slots.{has_slash, short_name}

abbrev pub NoSlash : List ℕ → Type 0
NoSlash name = All (λ c. c ≢ 47) name

has_slash-NoSlash : (name : List ℕ) → NoSlash name → has_slash name ≡ false
unfolding has_slash
has_slash-NoSlash [] h = refl
has_slash-NoSlash (c ∷ name) h = rw (ne→== c 47 (h.0)) (has_slash-NoSlash name (h.1))

has_slash-append : (path name : List ℕ) → has_slash (path ++ (47 ∷ name)) ≡ true
unfolding has_slash
has_slash-append [] name = refl
has_slash-append (c ∷ path) name =
    ap (λ b. c == 47 || b) (has_slash-append path name) ∙ either (c == 47)
  where
    either : (b : Bool) → (b || true) ≡ true
    either true = refl
    either false = refl

bare_name : (name : List ℕ) → NoSlash name → short_name name ≡ name
unfolding short_name
bare_name [] h = refl
bare_name (c ∷ name) h = rw (has_slash-NoSlash name (h.1), ne→== c 47 (h.0), short_name) refl

behind_path : (path name : List ℕ) → NoSlash name → short_name (path ++ (47 ∷ name)) ≡ name
unfolding short_name
behind_path [] name h = rw (has_slash-NoSlash name h, short_name) refl
behind_path (c ∷ path) name h =
    rw (has_slash-append path name, short_name) (behind_path path name h)

-- The `shortName` of `FDS_writeFlash`, on systems other than Windows: for a name without a `/`,
-- it is the name when the path is the name alone, and it is that name too when anything and a `/`
-- stand before it.
pub short_name_lem :
    (path name : List ℕ)
    → NoSlash name
    → (short_name name ≡ name) × (short_name (path ++ (47 ∷ name)) ≡ name)
short_name_lem path name h = (bare_name name h, behind_path path name h)
