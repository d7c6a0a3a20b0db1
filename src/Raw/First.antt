-- ===== src/Raw/First.antt =====
-- The search for the first block.
use fdsstick.Base.{lt→==}
use fdsstick.Base.{ltb→lt}
use fdsstick.Base.{ℕ, zero, suc, ◌+◌, ◌-◌, ◌*◌, ◌<◌, ◌≡◌, refl, sym, ap, ◌∙◌, arith, true, false}
use fdsstick.Base.{List, [], ◌∷◌, ◌++◌, length, length-append, lt→ltb, ◌==◌, some}
use fdsstick.Base.{append_assoc, length-replicate, replicate-add, ok, >>=-ok, read_at}
use fdsstick.Base.{read, ltb, ◌≤◌, ◌≢◌}
use fdsstick.Base.Access.{branch-Ensures}
use fdsstick.Base.Ends.{Ends, bind-Ends, read-Ends}
use fdsstick.Bin.Block.{zeros}
use fdsstick.Raw.{first_block, first_block_loop, find_first_block}

==_self : (a : ℕ) → (a == a) ≡ true
==_self a = ground arith

module _ (limit k : ℕ) (head more raw : List ℕ)
    (er : raw ≡ head ++ (zeros k ++ (first_block ++ more))) where
  abbrev start : ℕ
  start = length head + k

  read_raw :
      (seen left : List ℕ) (v i : ℕ)
      → first_block ≡ seen ++ (v ∷ left)
      → i ≡ start + length seen
      → read raw i ≡ ok v
  read_raw seen left v i ef ei =
      ap (λ t. read t i) (er ∙ ap (λ t. head ++ (zeros k ++ (t ++ more))) ef ∙ simp append_assoc)
      ∙ read_at (head ++ (zeros k ++ seen)) v (left ++ more) i (
          omega (
            arith,
            ei,
            length-append {0} head (zeros k ++ seen),
            length-append {0} (zeros k) seen,
            length-replicate {A = ℕ} k 0,
          ))

  read_pattern :
      (seen left : List ℕ) (v len : ℕ)
      → first_block ≡ seen ++ (v ∷ left)
      → len ≡ length seen
      → read first_block len ≡ ok v
  read_pattern seen left v len ef el = ap (λ t. read t len) ef ∙ read_at seen v left len el

  -- From the start of the pattern on, every round finds the next value of it.
  matched :
      (left seen : List ℕ) (v fuel i len : ℕ)
      → first_block ≡ seen ++ (v ∷ left)
      → len ≡ length seen
      → i ≡ start + len
      → start + 31 < limit
      → length left < fuel
      → first_block_loop fuel limit raw i len ≡ ok (some start)
  unfolding first_block_loop
  matched left seen v zero i len ef el ei hl hf = absurd (omega arith)
  matched [] seen v (suc fuel) i len ef el ei hl hf =
      rw (lt→ltb i limit (omega (arith, last)), first_block_loop)
        (>>=-ok _ _ there
          (>>=-ok _ _ here (rw (==_self v, is_last) (ap (λ (t : ℕ). ok (some t)) (omega arith)))))
    where
      last : len ≡ 31
      last = omega (arith, el, ap length ef, length-append {0} seen (v ∷ []))

      is_last : (len == 31) ≡ true
      is_last = ground (arith, last)

      there : read raw i ≡ ok v
      there = read_raw seen [] v i ef (omega arith)

      here : read first_block len ≡ ok v
      here = read_pattern seen [] v len ef el
  matched (w ∷ left) seen v (suc fuel) i len ef el ei hl hf =
      rw (lt→ltb i limit (omega (arith, count)), first_block_loop)
        (>>=-ok _ _ there (
          >>=-ok _ _ here (
            rw (==_self v, lt→== len 31 count)
              (matched left (seen ++ (v ∷ [])) w fuel (i + 1) (len + 1)
                (ef ∙ sym (append_assoc seen (v ∷ []) (w ∷ left)))
                (omega (arith, el, length-append {0} seen (v ∷ []))) (omega arith) hl
                (omega arith)))))
    where
      count : len < 31
      count = omega (arith, el, ap length ef, length-append {0} seen (v ∷ w ∷ left))

      there : read raw i ≡ ok v
      there = read_raw seen (w ∷ left) v i ef (omega arith)

      here : read first_block len ≡ ok v
      here = read_pattern seen (w ∷ left) v len ef el

  -- Before the pattern, every round moves one pulse on.
  skipped :
      (j fuel a i : ℕ)
      → a + j ≡ k
      → i ≡ length head + a
      → start + 31 < limit
      → j + 32 < fuel
      → first_block_loop fuel limit raw i 0 ≡ ok (some start)
  unfolding first_block_loop
  skipped j zero a i e ei hl hf = absurd (omega arith)
  skipped zero (suc fuel) a i e ei hl hf =
      matched _ [] 1 (suc fuel) i 0 refl refl (omega arith) hl (omega arith)
  skipped (suc j) (suc fuel) a i e ei hl hf =
      rw (lt→ltb i limit (omega arith), first_block_loop)
        (>>=-ok _ _ there
          (rw back (skipped j fuel (a + 1) (i + 1) (omega arith) (omega arith) hl (omega arith))))
    where
      back : i - 0 + 1 ≡ i + 1
      back = omega arith

      clear : zeros k ≡ zeros a ++ (0 ∷ zeros j)
      clear = sym (replicate-add a (suc j) k 0 e)

      there : read raw i ≡ ok 0
      there =
          ap (λ t. read t i)
            (er ∙ ap (λ t. head ++ (t ++ (first_block ++ more))) clear ∙ simp append_assoc)
          ∙ read_at (head ++ zeros a) 0 (zeros j ++ (first_block ++ more)) i
              (omega (arith, ei, length-append {0} head (zeros a), length-replicate {A = ℕ} a 0))

-- Behind `k` clear pulses the pattern of the first block is found, and its position is `k`, when
-- it ends in the part that is searched.
pub find_first_block-clear :
    (k : ℕ) (more : List ℕ)
    → k + 31 < 0x1_0000
    → find_first_block (zeros k ++ (first_block ++ more)) ≡ ok (some k)
unfolding find_first_block
find_first_block-clear k more h =
    skipped 0x1_0000 k [] more (zeros k ++ (first_block ++ more)) refl k (33 * 0x1_0000 + 1) 0 0
      (omega arith) (omega arith) (omega arith) (omega arith)
    ∙ ap (λ (t : ℕ). ok (some t)) (omega arith)

-- The same behind a pulse of width 1, which the pattern begins with, and two clear pulses or more.
pub find_first_block-one :
    (k : ℕ) (more : List ℕ)
    → k + 34 < 0x1_0000
    → find_first_block (1 ∷ 0 ∷ 0 ∷ (zeros k ++ (first_block ++ more))) ≡ ok (some (k + 3))
unfolding find_first_block first_block_loop
find_first_block-one k more h =
    skipped 0x1_0000 (suc (suc k)) (1 ∷ []) more (1 ∷ 0 ∷ 0 ∷ (zeros k ++ (first_block ++ more)))
      refl (suc (suc k)) (33 * 0x1_0000 + 1 - 3) 0 1 (omega arith) (omega arith) (omega arith)
      (omega arith)
    ∙ ap (λ (t : ℕ). ok (some t)) (omega arith)

other : (a b : ℕ) → (a == b) ≡ false → a ≢ b
other a b h = ground arith

-- The search ends: a start takes 32 rounds at most, and then the next one is tried.
first_block_loop-Ends :
    (fuel limit : ℕ) (raw : List ℕ) (i len : ℕ)
    → len ≤ i
    → len < 32
    → 33 * limit ≤ 33 * (i - len) + len + fuel
    → 0 < fuel
    → Ends (first_block_loop fuel limit raw i len)
unfolding first_block_loop
first_block_loop-Ends zero limit raw i len hl hm hf h0 = absurd (omega arith)
first_block_loop-Ends (suc fuel) limit raw i len hl hm hf h0 =
    branch-Ensures _ (ltb i limit) _ _
      (λ low.
        let inside = ltb→lt i limit low in
        bind-Ends (read raw i) _ (read-Ends raw i) λ r.
          bind-Ends (read first_block len) _ (read-Ends first_block len) λ d.
            branch-Ensures _ (r == d) _ _
              (λ e.
                branch-Ensures _ (len == 31) _ _ (λ k. tt)
                  λ k.
                    let short = other len 31 k in
                    first_block_loop-Ends fuel limit raw (i + 1) (len + 1) (omega arith)
                      (omega (arith, short)) (omega arith) (omega arith))
              (λ e.
                first_block_loop-Ends fuel limit raw (i - len + 1) 0 (omega arith) (omega arith)
                  (omega arith) (omega arith)))
      (λ over. tt)

pub find_first_block-Ends : (raw : List ℕ) → Ends (find_first_block raw)
unfolding find_first_block
find_first_block-Ends raw =
    first_block_loop-Ends (33 * 0x1_0000 + 1) 0x1_0000 raw 0 0 (omega arith) (omega arith)
      (omega arith) (omega arith)
