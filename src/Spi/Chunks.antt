-- ===== src/Spi/Chunks.antt =====
-- The reports in which a buffer is sent.
use fdsstick.Base.{drop-prefix}
use fdsstick.Base.{
  ℕ, zero, suc, ◌+◌, ◌-◌, ◌≤◌, ◌<◌, ◌≡◌, refl, sym, ap, ◌∙◌, arith, Bool, true, false,
}
use fdsstick.Base.{
  List, [], ◌∷◌, ◌++◌, length, length-append, drop, All, lt→ltb, le→ltb, append_assoc,
}
use mathlib.Core.Path.{subst}
use fdsstick.Base.{Run, ok, Returns, >>=-Returns, ok-Returns}
use fdsstick.Device.{Hid, Device, spi_write_max}
use fdsstick.Device.Reports.{report_of, Sent}
use fdsstick.Spi.{send_chunks, Action}

-- The reports for the full chunks `cs` and the chunk behind them: all but the last hold CS.
abbrev pub reports : ℕ → Bool → List (List ℕ) → List ℕ → List (List ℕ)
reports id first [] last = report_of id last first false ∷ []
reports id first (c ∷ cs) last = report_of id c first true ∷ reports id false cs last

-- Reports sent one behind the other up to the first that fails.
abbrev pub send_all : {σ : Type 0} → Hid σ → List (List ℕ) → σ → Bool × σ
send_all hid [] w = (true, w)
send_all hid (r ∷ rs) w =
    let sent = hid.send_feature_report r w in
    elim sent.0 [ true ↦ send_all hid rs sent.1 | false ↦ (false, sent.1) ]

abbrev pub joined : List (List ℕ) → List ℕ → List ℕ
joined [] last = last
joined (c ∷ cs) last = c ++ joined cs last

pub length-joined :
    (cs : List (List ℕ)) (last : List ℕ) → 0 < length last → 0 < length (joined cs last)
length-joined [] last h = h
length-joined (c ∷ cs) last h =
    omega (arith, length-append {0} c (joined cs last), length-joined cs last h)

-- What a send function does: one report, on a buffer of 256 bytes.
abbrev pub SendsOne : {σ : Type 0} → Hid σ → ℕ → (List ℕ → ℕ → Bool → Bool → Action σ) → Type 0
SendsOne hid id send =
    (bytes more : List ℕ) (size : ℕ) (init_cs hold_cs : Bool) (dev : Device _)
    → size ≡ length bytes
    → size ≤ spi_write_max
    → length dev.hidbuf ≡ 256
    → Returns (send (bytes ++ more) size init_cs hold_cs dev) (
        Sent (hid.send_feature_report (report_of id bytes init_cs hold_cs) dev.world)
          dev.read_sequence)

module _ {σ : Type 0} (hid : Hid σ) (id : ℕ) (send : List ℕ → ℕ → Bool → Bool → Action σ)
    (one : SendsOne hid id send) where
  -- Behind a report: on, or out, as the answer says.
  pub answered :
      (sent : Bool × σ) (rs : List (List ℕ)) (done : Bool × Device σ) (q : ℕ)
      (rest : Device σ → Run (Bool × Device σ))
      → Sent sent q done
      → Returns (rest done.1) (Sent (send_all hid rs done.1.world) q)
      → Returns
          (elim done.0 [ false ↦ ok (false, done.1) | true ↦ rest done.1 ])
          (Sent (elim sent.0 [ true ↦ send_all hid rs sent.1 | false ↦ (false, sent.1) ]) q)
  answered (false, w) rs done q rest h go =
      rw (h.success)
        (record { success = refl; world = h.world; same_sequence = h.same_sequence; room = h.room })
  answered (true, w) rs done q rest h go =
      rw (h.success)
        (subst (λ (t : σ). Returns (rest done.1) (Sent (send_all hid rs t) q)) h.world go)

  send_chunks-none :
      (fuel size : ℕ) (first : Bool) (p : List ℕ) (dev : Device σ)
      → 0 < fuel
      → size ≡ 0
      → send_chunks fuel send first p size dev ≡ ok (true, dev)
  unfolding send_chunks
  send_chunks-none zero size first p dev h e = absurd (omega arith)
  send_chunks-none (suc fuel) size first p dev h e = rw e refl

  pub send_chunks-send_all :
      (cs : List (List ℕ)) (last behind : List ℕ) (fuel size : ℕ) (first : Bool) (dev : Device σ)
      → All (λ c. length c ≡ spi_write_max) cs
      → 0 < length last
      → length last ≤ spi_write_max
      → size ≡ length (joined cs last)
      → size < fuel
      → length dev.hidbuf ≡ 256
      → Returns
          (send_chunks fuel send first (joined cs last ++ behind) size dev)
          (Sent (send_all hid (reports id first cs last) dev.world) dev.read_sequence)
  unfolding send_chunks
  send_chunks-send_all cs last behind zero size first dev hc hl hm hs hf hb = absurd (omega arith)
  send_chunks-send_all [] last behind (suc fuel) size first dev hc hl hm hs hf hb =
      rw
        (
          lt→ltb 0 size (omega (arith, hs)),
          le→ltb spi_write_max size (omega (arith, hs)),
          send_chunks,
          Returns,
        )
        (>>=-Returns (Sent sent dev.read_sequence)
          (Sent (send_all hid (reports id first [] last) dev.world) dev.read_sequence) _ _
          (one last behind size first false dev hs (omega (arith, hs)) hb)
          λ done k.
            answered sent [] done dev.read_sequence
              (λ next.
                send_chunks fuel send false (drop spi_write_max (last ++ behind))
                  (size - spi_write_max) next)
              k
              (ok-Returns (Sent (true, done.1.world) dev.read_sequence) _ (true, done.1)
                (send_chunks-none fuel (size - spi_write_max) false
                  (drop spi_write_max (last ++ behind)) done.1 (omega (arith, hs))
                  (omega (arith, hs)))
                (record {
                  success = refl;
                  world = refl;
                  same_sequence = k.same_sequence;
                  room = k.room;
                })))
    where
      sent : Bool × σ
      sent = hid.send_feature_report (report_of id last first false) dev.world
  send_chunks-send_all (c ∷ cs) last behind (suc fuel) size first dev hc hl hm hs hf hb =
      rw
        (
          lt→ltb 0 size (omega (arith, sizes)),
          lt→ltb spi_write_max size (omega (arith, sizes, nonempty)),
          append_assoc c (joined cs last) behind,
          send_chunks,
          Returns,
        )
        (>>=-Returns (Sent sent dev.read_sequence)
          (Sent (send_all hid (reports id first (c ∷ cs) last) dev.world) dev.read_sequence) _ _
          (one c (joined cs last ++ behind) spi_write_max first true dev (sym (hc.0)) (omega arith)
            hb)
          λ done k.
            answered sent (reports id false cs last) done dev.read_sequence
              (λ next.
                send_chunks fuel send false (drop spi_write_max (joined (c ∷ cs) last ++ behind))
                  (size - spi_write_max) next)
              k
              (subst
                (λ (t : List ℕ).
                  Returns (send_chunks fuel send false t (size - spi_write_max) done.1)
                    (Sent (send_all hid (reports id false cs last) done.1.world) dev.read_sequence))
                (sym dropped)
                (subst
                  (λ (t : ℕ).
                    Returns
                      (send_chunks fuel send false (joined cs last ++ behind) (size - spi_write_max)
                        done.1)
                      (Sent (send_all hid (reports id false cs last) done.1.world) t))
                  k.same_sequence
                  (send_chunks-send_all cs last behind fuel (size - spi_write_max) false done.1
                    (hc.1) hl hm (omega (arith, sizes)) (omega (arith, sizes)) k.room))))
    where
      sent : Bool × σ
      sent = hid.send_feature_report (report_of id c first true) dev.world

      sizes : size ≡ spi_write_max + length (joined cs last)
      sizes = omega (arith, hs, hc.0, length-append {0} c (joined cs last))

      dropped : drop spi_write_max (joined (c ∷ cs) last ++ behind) ≡ joined cs last ++ behind
      dropped =
          ap (drop spi_write_max) (append_assoc c (joined cs last) behind)
          ∙ drop-prefix spi_write_max c (joined cs last ++ behind) (hc.0)

      nonempty : 0 < length (joined cs last)
      nonempty = length-joined cs last hl
