-- ===== src/Device/Reports.antt =====
-- What the reports to the adapter hold.
use fdsstick.Base.{ℕ, zero, suc, ◌+◌, ◌≤◌, ◌≡◌, refl, sym, ap, ◌∙◌, arith, Bool}
use fdsstick.Base.{List, [], ◌∷◌, ◌++◌, length, length-append, take, drop, u8, ok, >>=-ok}
use fdsstick.Base.{Returns, ok-Returns, read_range_at, write_range_at, le→ltb}
use fdsstick.Device.{
  Hid, Device, fill_report, send_report, flag, spi_write_max, spi_write, id_spi_write, sram_write,
  id_sram_write,
}

-- The report of a write: the id, the size, the two flags, the data.
abbrev pub report_of : ℕ → List ℕ → Bool → Bool → List ℕ
report_of id bytes init_cs hold_cs = id ∷ u8 (length bytes) ∷ flag init_cs ∷ flag hold_cs ∷ bytes

module _ {σ : Type 0} (hid : Hid σ) (bytes more : List ℕ) (size : ℕ) (init_cs hold_cs : Bool)
    (hs : size ≡ length bytes) where
  fill_report_lem :
      (a b c d : ℕ) (old behind : List ℕ) (id : ℕ)
      → length old ≡ size
      → fill_report (a ∷ b ∷ c ∷ d ∷ (old ++ behind)) id (bytes ++ more) size init_cs hold_cs
        ≡ ok (report_of id bytes init_cs hold_cs ++ behind)
  unfolding fill_report
  fill_report_lem a b c d old behind id ho =
      >>=-ok _ _ (read_range_at [] bytes more 0 size refl hs) (
        write_range_at (id ∷ u8 size ∷ flag init_cs ∷ flag hold_cs ∷ []) old bytes behind 4 refl
          (ho ∙ hs)
        ∙ ap (λ (t : ℕ). ok ((id ∷ u8 t ∷ flag init_cs ∷ flag hold_cs ∷ bytes) ++ behind)) hs)

  pub send_report_lem :
      (a b c d sequence id : ℕ) (old behind : List ℕ) (world : σ)
      → length old ≡ size
      → let sent = hid.send_feature_report (report_of id bytes init_cs hold_cs) world in
        send_report hid id (bytes ++ more) size init_cs hold_cs (record {
          hidbuf = a ∷ b ∷ c ∷ d ∷ (old ++ behind);
          read_sequence = sequence;
          world = world;
        })
        ≡ ok (
          sent.0,
          record {
            hidbuf = report_of id bytes init_cs hold_cs ++ behind;
            read_sequence = sequence;
            world = sent.1;
          },
        )
  unfolding send_report
  send_report_lem a b c d sequence id old behind world ho =
      >>=-ok _ _ (fill_report_lem a b c d old behind id ho) (
        >>=-ok _ _
          (read_range_at [] (report_of id bytes init_cs hold_cs) behind 0 (4 + size) refl
            (omega (arith, hs)))
          refl)

-- What a call has done: `sent` is the answer of hidapi.
pub record Sent {σ : Type 0} (sent : Bool × σ) (sequence : ℕ) (done : Bool × Device σ)
    : Type 0 where
  pub success : done.0 ≡ sent.0
  pub world : done.1.world ≡ sent.1
  pub same_sequence : done.1.read_sequence ≡ sequence
  pub room : length done.1.hidbuf ≡ 256

pub take-drop : (n : ℕ) (xs : List ℕ) → take n xs ++ drop n xs ≡ xs
take-drop zero xs = refl
take-drop (suc n) [] = refl
take-drop (suc n) (x ∷ xs) = ap (λ t. x ∷ t) (take-drop n xs)

pub length-take_le : (n : ℕ) (xs : List ℕ) → n ≤ length xs → length (take n xs) ≡ n
length-take_le zero xs h = refl
length-take_le (suc n) [] h = absurd (omega arith)
length-take_le (suc n) (x ∷ xs) h = ap suc (length-take_le n xs (omega arith))

module _ {σ : Type 0} (hid : Hid σ) (bytes more : List ℕ) (size id : ℕ) (init_cs hold_cs : Bool)
    (hs : size ≡ length bytes) (small : size ≤ 252) where
  sends :
      (hidbuf : List ℕ) (q : ℕ) (w : σ)
      → length hidbuf ≡ 256
      → Returns
          (send_report hid id
            (bytes ++ more)
            size
            init_cs
            hold_cs
            (record { hidbuf = hidbuf; read_sequence = q; world = w }))
          (Sent (hid.send_feature_report (report_of id bytes init_cs hold_cs) w) q)
  sends [] q w h = absurd (omega arith)
  sends (a ∷ []) q w h = absurd (omega arith)
  sends (a ∷ b ∷ []) q w h = absurd (omega arith)
  sends (a ∷ b ∷ c ∷ []) q w h = absurd (omega arith)
  sends (a ∷ b ∷ c ∷ d ∷ rest) q w h =
      ok-Returns _ _ _
        (ap
            (λ t.
              send_report hid id (bytes ++ more) size init_cs hold_cs
                (record { hidbuf = a ∷ b ∷ c ∷ d ∷ t; read_sequence = q; world = w }))
            (sym (take-drop size rest))
          ∙ send_report_lem hid bytes more size init_cs hold_cs hs a b c d q id (take size rest)
              (drop size rest) w taken)
        (record {
          success = refl;
          world = refl;
          same_sequence = refl;
          room = omega (
            arith,
            hs,
            h,
            taken,
            length-append {0} bytes (drop size rest),
            length-append {0} (take size rest) (drop size rest),
            ap length (take-drop size rest),
          );
        })
    where
      taken : length (take size rest) ≡ size
      taken = length-take_le size rest (omega (arith, h))

  -- On a buffer of 256 bytes, a call sends the one report with its data.
  pub send_report-Sent :
      (dev : Device σ)
      → length dev.hidbuf ≡ 256
      → Returns (send_report hid id (bytes ++ more) size init_cs hold_cs dev) (
          Sent
            (hid.send_feature_report (report_of id bytes init_cs hold_cs) dev.world)
            dev.read_sequence)
  send_report-Sent dev h = sends dev.hidbuf dev.read_sequence dev.world h

module _ {σ : Type 0} (hid : Hid σ) (bytes more : List ℕ) (size : ℕ) (init_cs hold_cs : Bool)
    (dev : Device σ) (hs : size ≡ length bytes) (small : size ≤ spi_write_max)
    (room : length dev.hidbuf ≡ 256) where
  -- `dev_spiWrite` of 60 bytes or less, with a report buffer of 256 bytes, sends one report: the
  -- id, the size, the two flags and the bytes. Its result is the one of hidapi, and the sequence
  -- number stays.
  pub spi_write-Sent : Returns (spi_write hid (bytes ++ more) size init_cs hold_cs dev) (
      Sent
        (hid.send_feature_report (report_of id_spi_write bytes init_cs hold_cs) dev.world)
        dev.read_sequence)
  unfolding spi_write
  spi_write-Sent =
      rw (le→ltb spi_write_max size small, spi_write, Returns)
        (send_report-Sent hid bytes more size id_spi_write init_cs hold_cs hs (omega arith) dev
          room)

  pub sram_write-Sent : Returns (sram_write hid (bytes ++ more) size init_cs hold_cs dev) (
      Sent
        (hid.send_feature_report (report_of id_sram_write bytes init_cs hold_cs) dev.world)
        dev.read_sequence)
  unfolding sram_write
  sram_write-Sent =
      rw (le→ltb spi_write_max size small, sram_write, Returns)
        (send_report-Sent hid bytes more size id_sram_write init_cs hold_cs hs (omega arith) dev
          room)
