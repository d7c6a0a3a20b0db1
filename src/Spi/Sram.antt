-- ===== src/Spi/Sram.antt =====
-- The reports of `spi_writeSram`.
use fdsstick.Base.{ℕ, ◌+◌, ◌≤◌, ◌<◌, ◌≡◌, refl, arith, Bool, true, false}
use fdsstick.Base.{List, [], ◌∷◌, ◌++◌, length, All, Returns, >>=-Returns}
use mathlib.Core.Path.{subst}
use fdsstick.Device.{Hid, Device, sram_write, id_sram_write, spi_write_max}
use fdsstick.Device.Reports.{report_of, Sent, sram_write-Sent}
use fdsstick.Spi.Chunks.{SendsOne, joined, reports, send_all, answered, send_chunks-send_all}
use fdsstick.Spi.{send_chunks, write_sram, address_byte, cmd_write_data}

sram_write-SendsOne : {σ : Type 0} (hid : Hid σ) → SendsOne hid id_sram_write (sram_write hid)
sram_write-SendsOne hid bytes more size init_cs hold_cs dev hs hl hb =
    sram_write-Sent hid bytes more size init_cs hold_cs dev hs hl hb

-- The report of the command.
abbrev pub sram_command : ℕ → List ℕ
sram_command addr =
    report_of id_sram_write (cmd_write_data ∷ 0 ∷ address_byte addr 8 ∷ []) true true

module _ {σ : Type 0} (hid : Hid σ) (get_ticks : σ → ℕ × σ) where
  -- `spi_writeSram` of a buffer made of chunks of SPI_WRITEMAX bytes and one of 1 to SPI_WRITEMAX
  -- bytes, with a report buffer of 256 bytes, does what sending these reports in order does: the
  -- command with the flags for the start and the hold of CS, then each chunk with its size, all
  -- holding CS but the last. It stops at the first report that fails, and succeeds exactly if all
  -- do; the sequence number stays.
  pub write_sram-send_all :
      (cs : List (List ℕ)) (last behind : List ℕ) (addr size : ℕ) (dev : Device σ)
      → All (λ c. length c ≡ spi_write_max) cs
      → 0 < length last
      → length last ≤ spi_write_max
      → size ≡ length (joined cs last)
      → length dev.hidbuf ≡ 256
      → Returns (write_sram hid get_ticks (joined cs last ++ behind) addr size dev) (
          Sent
            (send_all hid (sram_command addr ∷ reports id_sram_write false cs last) dev.world)
            dev.read_sequence)
  unfolding write_sram
  write_sram-send_all cs last behind addr size dev hc hl hm hs hb =
      >>=-Returns (Sent sent dev.read_sequence)
        (Sent (send_all hid (sram_command addr ∷ reports id_sram_write false cs last) dev.world)
          dev.read_sequence)
        _ _
        (sram_write-Sent hid (cmd_write_data ∷ 0 ∷ address_byte addr 8 ∷ [])
          (address_byte addr 0 ∷ []) 3 true true dev refl (omega arith) hb)
        λ done k.
          answered hid id_sram_write (sram_write hid) (sram_write-SendsOne hid) sent
            (reports id_sram_write false cs last) done dev.read_sequence
            (λ next.
              send_chunks (size + 1) (sram_write hid) false (joined cs last ++ behind) size next)
            k
            (subst
              (λ (t : ℕ).
                Returns
                  (send_chunks (size + 1) (sram_write hid) false (joined cs last ++ behind) size
                    done.1)
                  (Sent (send_all hid (reports id_sram_write false cs last) done.1.world) t))
              k.same_sequence
              (send_chunks-send_all hid id_sram_write (sram_write hid) (sram_write-SendsOne hid) cs
                last behind (size + 1) size false done.1 hc hl hm hs (omega arith) k.room))
    where
      sent : Bool × σ
      sent = hid.send_feature_report (sram_command addr) dev.world
