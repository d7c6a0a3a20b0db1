-- ===== src/Spi/Clock.antt =====
-- The clock behind `getTicks`, and the loop of `spi_WriteWait`, which ends by it.
use native.Mathlib.Nat.{mul-le-mul_left, mul-suc}
use fdsstick.Base.{ltb→lt}
use fdsstick.Base.{
  ℕ, zero, suc, ◌+◌, ◌-◌, ◌*◌, ◌%◌, ◌^◌, ◌≤◌, ◌<◌, ◌≡◌, arith, bit_and, Bool, true, false, List, [],
  ◌∷◌, Option, none, some, ok, write, read_range, write_range, ltb, ◌==◌, u32, if◌then◌else◌,
  Ensures, >>=-Ensures,
}
use fdsstick.Base.Access.{branch-Ensures, option-Ensures}
use fdsstick.Base.Ends.{Ends, write-Ends, read_range-Ends, write_range-Ends}
use fdsstick.Device.{Hid, Device, spi_read, spi_read_max, id_spi_read, id_spi_read_stop}
use fdsstick.Spi.{wait_loop}

-- The longest that one call takes, in milliseconds: it keeps the difference of two times below 2^32.
abbrev pub pause : ℕ
pause = 2 ^ 30

-- `getTicks` reads a counter of milliseconds modulo 2^32. The counter is not set back, and two
-- readings one behind the other may be equal. It follows the time, less than `lag` milliseconds
-- behind: its resolution may be coarse. The time is in units of any size, `grain` of them in a
-- millisecond, such that a call of `getTicks` takes at least one.
pub record Clock {σ : Type 0} (hid : Hid σ) (get_ticks : σ → ℕ × σ) : Type 0 where
  pub count : σ → ℕ
  pub time : σ → ℕ
  pub grain : ℕ
  pub lag : ℕ
  pub reading : (w : σ) → (get_ticks w).0 ≡ count w % 2 ^ 32
  pub steady : (w : σ) → count w ≤ count (get_ticks w).1
  pub slow : (w : σ) → count (get_ticks w).1 ≤ count w + pause
  pub takes_time : (w : σ) → time w < time (get_ticks w).1
  pub report_steady : (id n : ℕ) (w : σ) → count w ≤ count (hid.get_feature_report id n w).1
  pub report_slow : (id n : ℕ) (w : σ) → count (hid.get_feature_report id n w).1 ≤ count w + pause
  pub report_on : (id n : ℕ) (w : σ) → time w ≤ time (hid.get_feature_report id n w).1
  pub follows : (w : σ) → grain * count w ≤ time w
  pub keeps_up : (w : σ) → time w < grain * (count w + lag)

-- The rounds outlast the longest wait of 2000 ms, as the clock shows it.
abbrev pub Outlasts :
    {σ : Type 0} {hid : Hid σ} {get_ticks : σ → ℕ × σ} → Clock hid get_ticks → ℕ → Type 0
Outlasts clock rounds = clock.grain * (2000 + clock.lag) < rounds

module _ {σ : Type 0} (hid : Hid σ) (get_ticks : σ → ℕ × σ) (clock : Clock hid get_ticks) where
  -- The clock behind a read.
  abbrev IsLater : Device σ → Device σ → Type 0
  IsLater dev d =
      (clock.count dev.world ≤ clock.count d.world)
      × (clock.count d.world ≤ clock.count dev.world + pause)
      × (clock.time dev.world ≤ clock.time d.world)

  spi_read-Ensures :
      (size : ℕ) (hold_cs : Bool) (dev : Device σ)
      → Ensures (λ r. IsLater dev r.1) (spi_read hid size hold_cs dev)
  unfolding spi_read
  spi_read-Ensures size hold_cs dev =
      let id = if hold_cs then id_spi_read else id_spi_read_stop in
      let got = hid.get_feature_report id 64 dev.world in
      let later : IsLater dev (record dev { world = got.1 }) = (
        clock.report_steady id 64 dev.world,
        clock.report_slow id 64 dev.world,
        clock.report_on id 64 dev.world,
      ) in
      let Q = λ (r : Option (List ℕ) × Device σ). IsLater dev r.1 in
      branch-Ensures Q (ltb spi_read_max size) _ _ (λ e. (omega arith, omega arith, omega arith))
        λ e.
          >>=-Ensures (λ t. Unit {0}) Q (write dev.hidbuf 0 id) _ (write-Ends dev.hidbuf 0 id)
            λ id_set t.
              option-Ensures Q (got.0) _ _ (λ f. later)
                λ report f.
                  >>=-Ensures (λ t. Unit {0}) Q (write_range id_set 0 report) _
                    (write_range-Ends id_set 0 report)
                    λ filled u.
                      >>=-Ensures (λ t. Unit {0}) Q (read_range filled 1 size) _
                        (read_range-Ends filled 1 size) λ bytes v. later

  -- What the code computes as the time since the start is that time.
  elapsed :
      (begin t : ℕ)
      → begin ≤ t
      → t < begin + 2 ^ 32
      → u32 (t % 2 ^ 32 + (2 ^ 32 - begin % 2 ^ 32)) ≡ t - begin
  elapsed begin t h k = omega arith

  -- A round ends the loop, or the next one follows with less time left.
  polled :
      (rounds begin timeout : ℕ) (answer : Option (List ℕ)) (d : Device σ)
      → timeout ≤ 2 ^ 30
      → begin ≤ clock.count d.world
      → clock.count d.world ≤ begin + timeout + 2 * pause
      → (clock.count d.world < begin + timeout
          → Ends (
              wait_loop hid get_ticks rounds
                (begin % 2 ^ 32)
                timeout
                (record d { world = (get_ticks d.world).1 })))
      → Ends {A = Option ℕ × Device σ} (elim answer [
        | some (status ∷ []) ↦ elim (bit_and status 1 == 0) [
          | true ↦ ok (some status, d)
          | false ↦ elim (ltb (u32 ((get_ticks d.world).0 + (2 ^ 32 - begin % 2 ^ 32))) timeout) [
            | true ↦
                wait_loop hid get_ticks rounds
                  (begin % 2 ^ 32)
                  timeout
                  (record d { world = (get_ticks d.world).1 })
            | false ↦ ok (some status, record d { world = (get_ticks d.world).1 })
          ]
        ]
        | _ ↦ ok (none, d)
      ])
  polled rounds begin timeout none d ht hb hl again = tt
  polled rounds begin timeout (some []) d ht hb hl again = tt
  polled rounds begin timeout (some (a ∷ b ∷ more)) d ht hb hl again = tt
  polled rounds begin timeout (some (status ∷ [])) d ht hb hl again =
      branch-Ensures _ (bit_and status 1 == 0) _ _ (λ e. tt)
        λ e.
          branch-Ensures _ (ltb (u32 ((get_ticks d.world).0 + (2 ^ 32 - begin % 2 ^ 32))) timeout) _
            _
            (λ low.
              let since =
                ltb→lt (u32 ((get_ticks d.world).0 + (2 ^ 32 - begin % 2 ^ 32))) timeout low in
              let time = elapsed begin (clock.count d.world) hb (omega arith) in
              again (omega (arith, since, time, clock.reading d.world)))
            (λ over. tt)

  grain-pos : (w : σ) → 0 < clock.grain
  grain-pos w = pos clock.grain _ _ (clock.keeps_up w)
    where
      pos : (g k m : ℕ) → m < g * k → 0 < g
      pos zero k m h = absurd (omega arith)
      pos (suc g) k m h = omega arith

  -- Before the timeout the time is below the limit that the clock sets.
  below_limit :
      (until : ℕ) (w : σ)
      → clock.count w < until
      → clock.time w + clock.grain ≤ clock.grain * (until + clock.lag)
  below_limit until w low = omega (
    arith,
    clock.keeps_up w,
    mul-le-mul_left clock.grain one_more,
    mul-suc clock.grain (clock.count w + clock.lag),
  )
    where
      one_more : suc (clock.count w + clock.lag) ≤ until + clock.lag
      one_more = omega (arith, low)

  -- From the time `begin` on, the clock passes the timeout before the rounds are used up.
  pub wait_loop-Ends :
      (rounds begin timeout : ℕ) (dev : Device σ)
      → timeout ≤ 2 ^ 30
      → begin ≤ clock.count dev.world
      → clock.count dev.world ≤ begin + timeout + pause
      → 0 < rounds
      → clock.grain * (begin + timeout + clock.lag) < clock.time dev.world + rounds
      → Ends (wait_loop hid get_ticks rounds (begin % 2 ^ 32) timeout dev)
  unfolding wait_loop
  wait_loop-Ends zero begin timeout dev ht hb hl h0 hr = absurd (omega arith)
  wait_loop-Ends (suc rounds) begin timeout dev ht hb hl h0 hr =
      >>=-Ensures (λ r. IsLater dev r.1) _ (spi_read hid 1 true dev) _ (spi_read-Ensures 1 true dev)
        λ r later.
          let d = r.1 in
          polled rounds begin timeout (r.0) d ht (omega (arith, later.0)) (omega (arith, later.1))
            λ low.
              let steady = clock.steady d.world in
              let slow = clock.slow d.world in
              let on = clock.takes_time d.world in
              let limit = below_limit (begin + timeout) d.world low in
              let some_time = grain-pos d.world in
              wait_loop-Ends rounds begin timeout (record d { world = (get_ticks d.world).1 }) ht
                (omega (arith, later.0, steady)) (omega (arith, low, slow))
                (omega (arith, later.2, limit, some_time, hr)) (omega (arith, later.2, on, hr))
