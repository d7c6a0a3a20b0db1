-- ===== src/Transfer/Reading.antt =====
-- The reading loop of `FDS_readDisk` on packets that arrive in order.
use fdsstick.Base.{
  ℕ, zero, suc, ◌+◌, ◌-◌, ◌≤◌, ◌<◌, ◌≡◌, refl, sym, ap, ◌∙◌, arith, true, false, ◌&&◌,
}
use fdsstick.Base.{
  List, [], ◌∷◌, ◌++◌, length, length-append, length-drop, take, drop, All, u8, Option, some, none,
}
use fdsstick.Base.{
  append_assoc, ok, >>=-ok, Returns, write_range, write_range_at, ltb, lt→ltb, ◌==◌, if◌then◌else◌,
}
use mathlib.Core.Path.{subst}
use fdsstick.Device.{Hid, Device, read_disk, id_disk_read, disk_read_max}
use fdsstick.Device.Reports.{take-drop, length-take_le}
use fdsstick.Device.Packets.{read_disk-taken}
use fdsstick.Base.{Returns-mono}
use fdsstick.Base.{drop-more}
use fdsstick.Spi.Chunks.{joined}
use fdsstick.Transfer.{read_packets}

-- From the world `w` on, the adapter answers with the packets `ps`, numbered from `q` on, modulo 256.
abbrev pub Serves : {σ : Type 0} → Hid σ → ℕ → List (List ℕ) → σ → Type 0
Serves hid q [] w = Unit {0}
Serves hid q (p ∷ ps) w =
    (next : _) × (hid.get_feature_report id_disk_read (disk_read_max + 2) w
      ≡ (some (id_disk_read ∷ q ∷ p), next))
    × Serves hid (u8 (q + 1)) ps next

==_self : (a : ℕ) → (a == a) ≡ true
==_self a = ground arith

module _ {σ : Type 0} (hid : Hid σ) (get_ticks : σ → ℕ × σ) where
  -- The device behind a packet.
  abbrev behind : Device σ → List ℕ → σ → Device σ
  behind dev p next = record {
    hidbuf = (id_disk_read ∷ dev.read_sequence ∷ p) ++ drop (suc (suc (length p))) dev.hidbuf;
    read_sequence = u8 (dev.read_sequence + 1);
    world = next;
  }

  room_behind :
      (dev : Device σ) (p : List ℕ) (next : σ)
      → length p ≤ disk_read_max
      → length dev.hidbuf ≡ 256
      → length (behind dev p next).hidbuf ≡ 256
  room_behind dev p next h hb = omega (
    arith,
    hb,
    length-append {0} p (drop (suc (suc (length p))) dev.hidbuf),
    length-drop (suc (suc (length p))) dev.hidbuf,
  )

  -- A round takes the packet into the buffer.
  round :
      (fuel bytes_in x : ℕ) (xs pre room : List ℕ) (dev : Device σ) (next : σ)
      → length (x ∷ xs) ≤ disk_read_max
      → length dev.hidbuf ≡ 256
      → hid.get_feature_report id_disk_read (disk_read_max + 2) dev.world
        ≡ (some (id_disk_read ∷ dev.read_sequence ∷ x ∷ xs), next)
      → bytes_in ≡ length pre
      → length (x ∷ xs) ≤ length room
      → let filled = pre ++ ((x ∷ xs) ++ drop (length (x ∷ xs)) room) in
        read_packets hid get_ticks (suc fuel) (pre ++ room) bytes_in dev
        ≡ elim (length (x ∷ xs) == disk_read_max
            && ltb (bytes_in + length (x ∷ xs)) (0x9_0000 - disk_read_max)) [
              | true ↦
                  read_packets hid get_ticks fuel filled
                    (bytes_in + length (x ∷ xs))
                    (behind dev (x ∷ xs) next)
              | false ↦ ok (some (bytes_in + length (x ∷ xs)), filled, behind dev (x ∷ xs) next)
            ]
  unfolding read_packets
  round fuel bytes_in x xs pre room dev next h hb served hi fits =
      >>=-ok _ _ taken (>>=-ok _ _ written refl)
    where
      taken : read_disk hid dev ≡ ok (some (x ∷ xs), behind dev (x ∷ xs) next)
      taken =
          read_disk-taken hid id_disk_read dev.read_sequence x xs next dev (omega (arith, hb))
            served
          ∙ ap (λ b. ok (if b then some (x ∷ xs) else none, behind dev (x ∷ xs) next))
              (==_self dev.read_sequence)

      written :
          write_range (pre ++ room) bytes_in (x ∷ xs)
          ≡ ok (pre ++ ((x ∷ xs) ++ drop (length (x ∷ xs)) room))
      written =
          ap (λ t. write_range (pre ++ t) bytes_in (x ∷ xs))
            (sym (take-drop (length (x ∷ xs)) room))
          ∙ write_range_at pre (take (length (x ∷ xs)) room) (x ∷ xs) (drop (length (x ∷ xs)) room)
              bytes_in hi (length-take_le (length (x ∷ xs)) room fits)

  -- When the adapter answers with packets numbered in order, modulo 256, from the number that is
  -- expected on, all of DISK_READMAX bytes but the last, which has 1 byte or more and fewer than
  -- that, and the report buffer has 256 bytes, the fuel exceeds the full packets, the buffer has
  -- room for the data and the total stays DISK_READMAX below READBUFSIZE: then the reading loop
  -- of `FDS_readDisk` ends with the number of bytes read, and has put the data of the packets
  -- behind each other at the position, with nothing else changed.
  pub read_packets-joined :
      (ps : List (List ℕ)) (last : List ℕ) (fuel bytes_in : ℕ) (pre room : List ℕ) (dev : Device σ)
      → All (λ p. length p ≡ disk_read_max) ps
      → 0 < length last
      → length last < disk_read_max
      → Serves hid dev.read_sequence (ps ++ (last ∷ [])) dev.world
      → length dev.hidbuf ≡ 256
      → bytes_in ≡ length pre
      → length (joined ps last) ≤ length room
      → bytes_in + length (joined ps last) < 0x9_0000 - disk_read_max
      → length ps < fuel
      → Returns (read_packets hid get_ticks fuel (pre ++ room) bytes_in dev) (λ r.
        (r.0 ≡ some (bytes_in + length (joined ps last)))
        × (r.1 ≡ pre ++ (joined ps last ++ drop (length (joined ps last)) room)))
  read_packets-joined ps last zero bytes_in pre room dev hp hl hm served hb hi fits low hf =
      absurd (omega arith)
  read_packets-joined [] [] (suc fuel) bytes_in pre room dev hp hl hm served hb hi fits low hf =
      absurd (omega arith)
  read_packets-joined [] (x ∷ xs) (suc fuel) bytes_in pre room dev hp hl hm served hb hi fits low
        hf =
      rw
        (
          round fuel bytes_in x xs pre room dev (served.0) (omega arith) hb (served.1) hi fits,
          short,
        )
        (refl, refl)
    where
      short : (length (x ∷ xs) == disk_read_max) ≡ false
      short = ground arith
  read_packets-joined ([] ∷ ps) last (suc fuel) bytes_in pre room dev hp hl hm served hb hi fits low
        hf =
      absurd (omega (arith, hp.0))
  read_packets-joined ((x ∷ xs) ∷ ps) last (suc fuel) bytes_in pre room dev hp hl hm served hb hi
        fits low hf =
      subst (λ r. Returns r Reads) (sym going)
        (Returns-mono _ Reads _
          (read_packets-joined ps last fuel (bytes_in + length (x ∷ xs)) (pre ++ (x ∷ xs))
            (drop (length (x ∷ xs)) room) (behind dev (x ∷ xs) (served.0)) (hp.1) hl hm (served.2)
            (room_behind dev (x ∷ xs) (served.0) (omega (arith, hp.0)) hb)
            (omega (arith, hi, length-append {0} pre (x ∷ xs)))
            (omega (arith, fits, sizes, length-drop (length (x ∷ xs)) room)) (omega (arith, sizes))
            (omega arith))
          λ r h. (h.0 ∙ ap some total, h.1 ∙ buffer))
    where
      sizes : length (joined ((x ∷ xs) ∷ ps) last) ≡ length (x ∷ xs) + length (joined ps last)
      sizes = length-append (x ∷ xs) (joined ps last)

      total :
          bytes_in + length (x ∷ xs) + length (joined ps last)
          ≡ bytes_in + length (joined ((x ∷ xs) ∷ ps) last)
      total = omega (arith, sizes)

      buffer :
          (pre ++ (x ∷ xs))
            ++ (joined ps last ++ drop (length (joined ps last)) (drop (length (x ∷ xs)) room))
          ≡ pre ++ (joined ((x ∷ xs) ∷ ps) last ++ drop (length (joined ((x ∷ xs) ∷ ps) last)) room)
      buffer =
          append_assoc pre (x ∷ xs)
            (joined ps last ++ drop (length (joined ps last)) (drop (length (x ∷ xs)) room))
          ∙ ap (λ t. pre ++ t)
              (sym (
                append_assoc (x ∷ xs) (joined ps last)
                  (drop (length (joined ps last)) (drop (length (x ∷ xs)) room))))
          ∙ ap (λ t. pre ++ (((x ∷ xs) ++ joined ps last) ++ t))
              (sym (drop-more (length (x ∷ xs)) (length (joined ps last)) room))
          ∙ ap (λ (t : ℕ). pre ++ (((x ∷ xs) ++ joined ps last) ++ drop t room)) (sym sizes)

      full : (length (x ∷ xs) == disk_read_max) ≡ true
      full = ground (arith, hp.0)

      Reads : Option ℕ × List ℕ × Device σ → Type 0
      Reads r =
          (r.0 ≡ some (bytes_in + length (joined ((x ∷ xs) ∷ ps) last)))
          × (r.1
              ≡ pre
                ++ (joined ((x ∷ xs) ∷ ps) last
                    ++ drop (length (joined ((x ∷ xs) ∷ ps) last)) room))

      going :
          read_packets hid get_ticks (suc fuel) (pre ++ room) bytes_in dev
          ≡ read_packets hid get_ticks fuel
              ((pre ++ (x ∷ xs)) ++ drop (length (x ∷ xs)) room)
              (bytes_in + length (x ∷ xs))
              (behind dev (x ∷ xs) (served.0))
      going =
          round fuel bytes_in x xs pre room dev (served.0) (omega (arith, hp.0)) hb (served.1) hi
            (omega (arith, fits, sizes))
          ∙ rw
              (
                full,
                lt→ltb (bytes_in + length (x ∷ xs)) (0x9_0000 - disk_read_max)
                    (omega (arith, sizes, low)),
                append_assoc pre (x ∷ xs) (drop (length (x ∷ xs)) room),
              )
              refl
