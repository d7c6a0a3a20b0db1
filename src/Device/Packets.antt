-- ===== src/Device/Packets.antt =====
-- The packets that `dev_readDisk` takes.
use fdsstick.Base.{ℕ, ◌+◌, ◌-◌, ◌≤◌, ◌≡◌, refl, sym, ap, ◌∙◌, arith, Bool, true, false}
use fdsstick.Base.{List, [], ◌∷◌, ◌++◌, length, take, drop, u8, Option, none, some, Run, ok, >>=-ok}
use fdsstick.Base.{read_range, write_range, read_range_at, write_range_at, ltb, ◌==◌, if◌then◌else◌}
use fdsstick.Device.{Hid, Device, read_disk, id_disk_read, disk_read_max}
use fdsstick.Device.Reports.{take-drop, length-take_le}

module _ {σ : Type 0} (hid : Hid σ) (id s x : ℕ) (xs : List ℕ) (after : σ) where
  abbrev packet : List ℕ
  packet = id ∷ s ∷ x ∷ xs

  -- The same, the world as hidapi gives it.
  answered :
      (hidbuf : List ℕ) (q : ℕ) (w : σ)
      → length packet ≤ length hidbuf
      → (hid.get_feature_report id_disk_read (disk_read_max + 2) w).0 ≡ some packet
      → read_disk hid (record { hidbuf = hidbuf; read_sequence = q; world = w })
        ≡ ok (
          if s == q then some (x ∷ xs) else none,
          record {
            hidbuf = packet ++ drop (length packet) hidbuf;
            read_sequence = u8 (q + 1);
            world = (hid.get_feature_report id_disk_read (disk_read_max + 2) w).1;
          },
        )
  unfolding read_disk
  answered [] q w h e = absurd (omega arith)
  answered (a ∷ rest) q w h e =
      rw e (>>=-ok _ _ filled (rw (long, not_two) (>>=-ok _ _ payload (compared (s == q)))))
    where
      front : List ℕ
      front = take (length packet) (id_disk_read ∷ rest)

      filled :
          write_range (id_disk_read ∷ rest) 0 packet
          ≡ ok (packet ++ drop (length packet) (a ∷ rest))
      filled =
          ap (λ t. write_range t 0 packet) (sym (take-drop (length packet) (id_disk_read ∷ rest)))
          ∙ write_range_at [] front packet (drop (length packet) (id_disk_read ∷ rest)) 0 refl
              (length-take_le (length packet) (id_disk_read ∷ rest) h)

      payload :
          read_range (packet ++ drop (length packet) (a ∷ rest)) 2 (length packet - 2) ≡ ok (x ∷ xs)
      payload =
          read_range_at (id ∷ s ∷ []) (x ∷ xs) (drop (length packet) (a ∷ rest)) 2
            (length packet - 2) refl (omega arith)

      long : ltb (length packet) 2 ≡ false
      long = ground arith

      not_two : (length packet == 2) ≡ false
      not_two = ground arith

      next : Device σ
      next = record {
        hidbuf = packet ++ drop (length packet) (a ∷ rest);
        read_sequence = u8 (q + 1);
        world = (hid.get_feature_report id_disk_read (disk_read_max + 2) w).1;
      }

      compared :
          (b : Bool)
          → ◌≡◌ {A = Run (Option (List ℕ) × Device σ)}
              (elim b [ true ↦ ok (some (x ∷ xs), next) | false ↦ ok (none, next) ])
              (ok (if b then some (x ∷ xs) else none, next))
      compared true = refl
      compared false = refl

  -- When the adapter answers with a packet that holds data and fits the report buffer,
  -- `dev_readDisk` returns exactly the data if the packet has the number that is expected and an
  -- error otherwise; either way the next number is expected, modulo 256, and the packet stands at
  -- the front of the report buffer.
  pub read_disk-taken :
      (dev : Device σ)
      → length packet ≤ length dev.hidbuf
      → hid.get_feature_report id_disk_read (disk_read_max + 2) dev.world ≡ (some packet, after)
      → read_disk hid dev
        ≡ ok (
          if s == dev.read_sequence then some (x ∷ xs) else none,
          record {
            hidbuf = packet ++ drop (length packet) dev.hidbuf;
            read_sequence = u8 (dev.read_sequence + 1);
            world = after;
          },
        )
  read_disk-taken dev h e =
      answered dev.hidbuf dev.read_sequence dev.world h (ap (λ p. p.0) e)
      ∙ ap
          (λ (t : σ). ok (
            if s == dev.read_sequence then some (x ∷ xs) else none,
            record {
              hidbuf = packet ++ drop (length packet) dev.hidbuf;
              read_sequence = u8 (dev.read_sequence + 1);
              world = t;
            },
          ))
          (ap (λ p. p.1) e)
