-- ===== src/Firmware/Loader.antt =====
-- `DetectLoader` of main.cpp finds the mark of the loader.
use fdsstick.Base.{ne→==}
use fdsstick.Base.{
  ℕ, zero, suc, ◌+◌, ◌-◌, ◌<◌, ◌≡◌, ◌≢◌, refl, sym, ap, ◌∙◌, arith, true, List, [], ◌∷◌, ◌++◌, drop,
  none, some, length, length-append, All, append_assoc, ok, >>=-ok, read, read_at, ◌==◌,
}
use mathlib.Core.Path.{subst}
use fdsstick.Firmware.{loader_id, match_loader, detect_from, detect_loader}

same : (a : ℕ) → (a == a) ≡ true
same a = ground arith

-- A round where the bytes are the same goes on with the next one.
match_step :
    (c next : ℕ) (id buf : List ℕ) (at : ℕ)
    → read buf at ≡ ok next
    → match_loader (c ∷ id) buf c at ≡ match_loader id buf next (at + 1)
unfolding match_loader
match_step c next id buf at h = rw (same c, match_loader) (>>=-ok (read buf at) _ h refl)

-- Behind a part of the mark that matches, what is left of it is compared.
match_loader-found :
    (id front rest : List ℕ) (c v : ℕ) (buf : List ℕ) (at : ℕ)
    → buf ≡ front ++ (id ++ (v ∷ rest))
    → at ≡ length front
    → match_loader (c ∷ id) buf c at ≡ ok true
unfolding match_loader
match_loader-found [] front rest c v buf at e h =
    match_step c v [] buf at (rw e (read_at front v rest at h))
match_loader-found (d ∷ id) front rest c v buf at e h =
    match_step c d (d ∷ id) buf at (rw e (read_at front d (id ++ (v ∷ rest)) at h))
    ∙ match_loader-found id (front ++ (d ∷ [])) rest d v buf (at + 1)
        (e ∙ sym (append_assoc front (d ∷ []) (id ++ (v ∷ rest))))
        (omega (arith, length-append {0} front (d ∷ [])))

-- No byte is the first of the mark.
abbrev pub NoMark : List ℕ → Type 0
NoMark bytes = All (λ b. b ≢ 0x5d) bytes

-- Such bytes are passed over.
detect_from-skip :
    (skipped seen behind : List ℕ) (n left : ℕ) (buf : List ℕ) (pos at : ℕ)
    → NoMark skipped
    → buf ≡ seen ++ (skipped ++ behind)
    → pos ≡ length seen
    → n ≡ length skipped + left
    → at ≡ pos + length skipped
    → detect_from n buf pos ≡ detect_from left buf at
unfolding detect_from
detect_from-skip [] seen behind n left buf pos at h e hp hn ha =
    ap (λ (m : ℕ). detect_from m buf pos) (omega arith) ∙ ap (detect_from left buf) (omega arith)
detect_from-skip (b ∷ skipped) seen behind zero left buf pos at h e hp hn ha = absurd (omega arith)
detect_from-skip (b ∷ skipped) seen behind (suc n) left buf pos at h e hp hn ha =
    >>=-ok (read buf pos) _ found (rw (ne→== b 0x5d (h.0)) refl)
    ∙ detect_from-skip skipped (seen ++ (b ∷ [])) behind n left buf (pos + 1) at (h.1)
        (e ∙ sym (append_assoc seen (b ∷ []) (skipped ++ behind)))
        (omega (arith, length-append {0} seen (b ∷ []))) (omega arith) (omega arith)
  where
    found : read buf pos ≡ ok b
    found = rw e (read_at seen b (skipped ++ behind) pos hp)

-- `DetectLoader` on a buffer of 65500 bytes or more, whose first 65500 have no byte of the value
-- of the mark's first, returns that there is no loader.
pub detect_loader-none :
    (skipped behind : List ℕ)
    → NoMark skipped
    → length skipped ≡ 65500
    → detect_loader (skipped ++ behind) ≡ ok none
unfolding detect_loader detect_from
detect_loader-none skipped behind h hl =
    detect_from-skip skipped [] behind 65500 0 (skipped ++ behind) 0 65500 h refl refl
      (omega (arith, hl)) (omega (arith, hl))

-- `DetectLoader` finds the mark behind bytes that are not its first, when it starts in the first
-- 65500 bytes, and returns the byte that stands one behind the end of the mark.
pub detect_loader-found :
    (skipped rest : List ℕ) (gap version : ℕ)
    → NoMark skipped
    → length skipped < 65500
    → detect_loader (skipped ++ (loader_id ++ (gap ∷ version ∷ rest))) ≡ ok (some version)
unfolding detect_loader detect_from
detect_loader-found skipped rest gap version h hl =
    detect_from-skip skipped [] (loader_id ++ (gap ∷ version ∷ rest)) 65500
      (suc (65499 - length skipped)) buf 0 (length skipped) h refl refl (omega arith) (omega arith)
    ∙ >>=-ok (read buf (length skipped)) _ marked (
        >>=-ok (match_loader loader_id buf 0x5d (length skipped + 1)) _ matched
          (>>=-ok (read buf (length skipped + 1 + length loader_id)) _ version_read refl))
  where
    buf : List ℕ
    buf = skipped ++ (loader_id ++ (gap ∷ version ∷ rest))

    marked : read buf (length skipped) ≡ ok 0x5d
    marked = read_at skipped 0x5d _ (length skipped) refl

    matched : match_loader loader_id buf 0x5d (length skipped + 1) ≡ ok true
    matched =
        match_loader-found (drop 1 loader_id) (skipped ++ (0x5d ∷ [])) (version ∷ rest) 0x5d gap buf
          (length skipped + 1)
          (sym (append_assoc skipped (0x5d ∷ []) (drop 1 loader_id ++ (gap ∷ version ∷ rest))))
          (omega (arith, length-append {0} skipped (0x5d ∷ [])))

    version_read : read buf (length skipped + 1 + length loader_id) ≡ ok version
    version_read =
        subst (λ t. read t (length skipped + 1 + length loader_id) ≡ ok version)
          (append_assoc skipped (loader_id ++ (gap ∷ [])) (version ∷ rest))
          (read_at (skipped ++ (loader_id ++ (gap ∷ []))) version rest _
            (omega (arith, length-append {0} skipped (loader_id ++ (gap ∷ [])))))
