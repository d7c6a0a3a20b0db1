-- ===== src/Spi/Pages.antt =====
-- The pages that `spi_writeFlash` and `spi_writeFlash2` program.
use fdsstick.Base.{drop-more}
use fdsstick.Base.{drop-prefix}
use fdsstick.Base.{lt→==}
use fdsstick.Base.{
  ℕ, zero, suc, ◌+◌, ◌-◌, ◌^◌, ◌≤◌, ◌<◌, ◌≡◌, refl, sym, ap, ◌∙◌, arith, Bool, true, false,
}
use fdsstick.Base.{
  List, [], ◌∷◌, ◌++◌, length, length-append, drop, All, ltb, lt→ltb, le→ltb, append_assoc,
}
use fdsstick.Base.{
  append-nil, Run, ok, fault, stuck, ◌>>=◌, u32, bit_and, ◌==◌, if◌then◌else◌, read_range,
  read_range_at,
}
use fdsstick.Device.{Hid, Device}
use fdsstick.Spi.Chunks.{joined}
use fdsstick.Device.{spi_write}
use fdsstick.Spi.{write_enable, send_chunks, command, cmd_page_program, write_wait}
use fdsstick.Spi.{
  Action, ◌and_then◌, page_size, page_command, page_program, program_pages, block_erase,
  write_flash,
}

-- The pages from the address `a` on, in order, up to the first that fails.
abbrev pub write_all :
    {σ : Type 0} → (ℕ → List ℕ → ℕ → Action σ) → ℕ → List (List ℕ) → List ℕ → Action σ
write_all program a [] last dev = program a last (length last) dev
write_all program a (p ∷ ps) last dev =
    program a p page_size dev and_then λ next. write_all program (a + page_size) ps last next

-- A program command takes no more of the buffer than it is told.
abbrev pub OnlyFront : {σ : Type 0} → (ℕ → List ℕ → ℕ → Action σ) → Type 0
OnlyFront program =
    (a : ℕ) (bytes more : List ℕ) (size : ℕ) (dev : Device _)
    → size ≡ length bytes
    → program a (bytes ++ more) size dev ≡ program a bytes size dev

==_same : (a b : ℕ) → a ≡ b → (a == b) ≡ true
==_same a b h = ground arith

add_last : (a b c : ℕ) → a + (b + c) ≡ a + b + c
add_last a b c = omega arith

module _ {σ : Type 0} (program : ℕ → List ℕ → ℕ → Action σ) (front : OnlyFront program)
    (buf behind : List ℕ) (addr size : ℕ) (aligned : bit_and addr 255 ≡ 0)
    (small : addr + size < 2 ^ 32) where
  -- What both functions return behind the loop.
  abbrev result : ℕ × Device σ → Run (Bool × Device σ)
  result r = ok (r.0 == size, r.1)

  resumed :
      (m : Run (Bool × Device σ)) (wrote : ℕ) (go : Device σ → Run (ℕ × Device σ))
      (on : Device σ → Run (Bool × Device σ))
      → wrote < size
      → ((d : Device σ) → (go d >>= result) ≡ on d)
      → ((m >>= λ r. elim r.0 [ false ↦ ok (wrote, r.1) | true ↦ go r.1 ]) >>= result)
        ≡ (m and_then on)
  resumed (ok (true, d)) wrote go on h same = same d
  resumed (ok (false, d)) wrote go on h same = ap (λ b. ok (b, d)) (lt→== wrote size h)
  resumed fault wrote go on h same = refl
  resumed stuck wrote go on h same = refl

  only : (m : Run (Bool × Device σ)) → (m and_then λ d. ok (true, d)) ≡ m
  only (ok (true, d)) = refl
  only (ok (false, d)) = refl
  only fault = refl
  only stuck = refl

  abbrev after_chunk : ℕ → ℕ → ℕ → ℕ → List ℕ → Device σ → Run (ℕ × Device σ)
  after_chunk fuel wrote a chunk bytes dev = program a bytes chunk dev >>= λ r. elim r.0 [
    | false ↦ ok (wrote, r.1)
    | true ↦ program_pages fuel program buf addr size (wrote + chunk) r.1
  ]

  abbrev next_chunk : ℕ → ℕ
  next_chunk wrote =
      if ltb (size - wrote) (page_size - bit_and addr 255)
      then size - wrote
      else page_size - bit_and addr 255

  opened :
      (fuel wrote : ℕ) (dev : Device σ)
      → wrote < size
      → program_pages (suc fuel) program buf addr size wrote dev
        ≡ after_chunk fuel wrote (u32 (addr + wrote)) (next_chunk wrote) (drop wrote buf) dev
  unfolding program_pages
  opened fuel wrote dev h = rw (lt→ltb wrote size h, program_pages) refl

  -- One round, on the bytes at the position.
  round :
      (fuel wrote chunk : ℕ) (bytes more : List ℕ) (dev : Device σ)
      → wrote < size
      → next_chunk wrote ≡ chunk
      → drop wrote buf ≡ bytes ++ more
      → chunk ≡ length bytes
      → program_pages (suc fuel) program buf addr size wrote dev
        ≡ after_chunk fuel wrote (addr + wrote) chunk bytes dev
  round fuel wrote chunk bytes more dev h ec eb el =
      opened fuel wrote dev h
      ∙ ap (λ (a : ℕ). after_chunk fuel wrote a (next_chunk wrote) (drop wrote buf) dev) address
      ∙ ap (λ (t : ℕ). after_chunk fuel wrote (addr + wrote) t (drop wrote buf) dev) ec
      ∙ ap (λ t. after_chunk fuel wrote (addr + wrote) chunk t dev) eb
      ∙ ap
          (λ m. m >>= λ r. elim r.0 [
            | false ↦ ok (wrote, r.1)
            | true ↦ program_pages fuel program buf addr size (wrote + chunk) r.1
          ])
          (front (addr + wrote) bytes more chunk dev el)
    where
      address : u32 (addr + wrote) ≡ addr + wrote
      address = omega arith

  finished :
      (fuel : ℕ) (d : Device σ)
      → 0 < fuel
      → (program_pages fuel program buf addr size size d >>= result) ≡ ok (true, d)
  unfolding program_pages
  finished zero d h = absurd (omega arith)
  finished (suc fuel) d h =
      rw (le→ltb size size (omega arith), program_pages)
        (ap (λ b. ok (b, d)) (==_same size size refl))

  pub program_pages-write_all :
      (ps : List (List ℕ)) (last : List ℕ) (fuel wrote : ℕ) (dev : Device σ)
      → All (λ p. length p ≡ page_size) ps
      → 0 < length last
      → length last ≤ page_size
      → drop wrote buf ≡ joined ps last ++ behind
      → wrote + length (joined ps last) ≡ size
      → size < wrote + fuel
      → (program_pages fuel program buf addr size wrote dev >>= result)
        ≡ write_all program (addr + wrote) ps last dev
  program_pages-write_all ps last zero wrote dev hp hl hm hb hs hf = absurd (omega arith)
  program_pages-write_all [] last (suc fuel) wrote dev hp hl hm hb hs hf =
      ap (λ t. t >>= result)
        (round fuel wrote (length last) last behind dev (omega (arith, hs)) chunk hb refl)
      ∙ resumed (program (addr + wrote) last (length last) dev) wrote
          (λ d. program_pages fuel program buf addr size (wrote + length last) d)
          (λ d. ok (true, d)) (omega (arith, hs))
          (λ d.
            ap (λ (t : ℕ). program_pages fuel program buf addr size t d >>= result) hs
            ∙ finished fuel d (omega (arith, hs)))
      ∙ only (program (addr + wrote) last (length last) dev)
    where
      chunk : next_chunk wrote ≡ length last
      chunk = rw aligned (ground (arith, hs))
  program_pages-write_all (p ∷ ps) last (suc fuel) wrote dev hp hl hm hb hs hf =
      ap (λ t. t >>= result)
        (round fuel wrote page_size p (joined ps last ++ behind) dev (omega (arith, sizes)) chunk
          (hb ∙ append_assoc p (joined ps last) behind) (sym (hp.0)))
      ∙ resumed (program (addr + wrote) p page_size dev) wrote
          (λ d. program_pages fuel program buf addr size (wrote + page_size) d)
          (λ d. write_all program (addr + wrote + page_size) ps last d) (omega (arith, sizes))
          λ d.
            program_pages-write_all ps last fuel (wrote + page_size) d (hp.1) hl hm dropped
              (omega (arith, sizes)) (omega arith)
            ∙ ap (λ (t : ℕ). write_all program t ps last d) (add_last addr wrote page_size)
    where
      sizes : wrote + page_size + length (joined ps last) ≡ size
      sizes = omega (arith, hs, hp.0, length-append {0} p (joined ps last))

      dropped : drop (wrote + page_size) buf ≡ joined ps last ++ behind
      dropped =
          drop-more wrote page_size buf
          ∙ ap (drop page_size) (hb ∙ append_assoc p (joined ps last) behind)
          ∙ drop-prefix page_size p (joined ps last ++ behind) (hp.0)

      chunk : next_chunk wrote ≡ page_size
      chunk = rw aligned (ground (arith, sizes))

-- A page command reads no more of the buffer than its size.
page_program-OnlyFront :
    {σ : Type 0} (hid : Hid σ) (get_ticks : σ → ℕ × σ) (rounds : ℕ)
    → OnlyFront (page_program hid get_ticks rounds)
unfolding page_program page_command
page_program-OnlyFront hid get_ticks rounds a bytes more size dev e =
    ap
      (λ (m : Run (List ℕ)). elim (ltb page_size (bit_and a 255 + size)) [
        | true ↦ ok (false, dev)
        | false ↦ write_enable hid get_ticks dev and_then λ enabled. m >>= λ bytes.
            send_chunks (size + 5) (spi_write hid) true (command cmd_page_program a ++ bytes)
              (size + 4) enabled
            and_then λ sent. write_wait hid get_ticks rounds 50 sent
      ])
      whole
  where
    whole : read_range (bytes ++ more) 0 size ≡ read_range bytes 0 size
    whole =
        read_range_at [] bytes more 0 size refl e
        ∙ sym (read_range_at [] bytes [] 0 size refl e)
        ∙ ap (λ t. read_range t 0 size) (append-nil bytes)

module _ {σ : Type 0} (hid : Hid σ) (get_ticks : σ → ℕ × σ) (rounds : ℕ) where
  -- `spi_writeFlash` of a buffer made of whole pages and one of 1 to 256 bytes, at an address
  -- that is a multiple of the page size with no overflow of 32 bits, is the erasing of the block
  -- and then the programming of these pages at their addresses, in order and each in one command,
  -- up to the first failure; it succeeds exactly if all succeed.
  pub write_flash-write_all :
      (ps : List (List ℕ)) (last behind : List ℕ) (addr size : ℕ) (dev : Device σ)
      → bit_and addr 255 ≡ 0
      → addr + size < 2 ^ 32
      → All (λ p. length p ≡ page_size) ps
      → 0 < length last
      → length last ≤ page_size
      → size ≡ length (joined ps last)
      → write_flash hid get_ticks rounds (joined ps last ++ behind) addr size dev ≡ (
          block_erase hid get_ticks rounds addr dev and_then λ erased.
          write_all (page_program hid get_ticks rounds) addr ps last erased)
  unfolding write_flash
  write_flash-write_all ps last behind addr size dev aligned small hp hl hm hs =
      after (block_erase hid get_ticks rounds addr dev) _ _ λ erased.
        program_pages-write_all (page_program hid get_ticks rounds)
          (page_program-OnlyFront hid get_ticks rounds) (joined ps last ++ behind) behind addr size
          aligned small ps last (size + 1) 0 erased hp hl hm refl (omega (arith, hs)) (omega arith)
        ∙ ap (λ (t : ℕ). write_all (page_program hid get_ticks rounds) t ps last erased) start
    where
      start : addr + 0 ≡ addr
      start = omega arith

      after :
          (m : Run (Bool × Device σ)) (f g : Device σ → Run (Bool × Device σ))
          → ((d : Device σ) → f d ≡ g d)
          → (m and_then f) ≡ (m and_then g)
      after (ok (true, d)) f g h = h d
      after (ok (false, d)) f g h = refl
      after fault f g h = refl
      after stuck f g h = refl
