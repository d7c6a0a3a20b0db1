-- ===== src/Disks/Each.antt =====
-- The loop over the sides of a file ends, and what it returns.
use fdsstick.Base.{
  ℕ, zero, suc, ◌+◌, ◌-◌, ◌<◌, ◌≡◌, refl, arith, Bool, true, false, ◌++◌, List, Option, none, some,
  take, drop, length, replicate, length-append, length-take, length-drop, Run, ok, ◌>>=◌, read,
  write_range, ltb, ◌==◌, Ensures, >>=-Ensures,
}
use fdsstick.Base.Access.{branch-Ensures, read-Ensures, write_range-Ensures}
use fdsstick.Base.Ends.{Ends, bind-Ends, read-Ends}
use mathlib.Core.Bool.{false≢true}
use fdsstick.Bin.{fds_to_bin}
use fdsstick.Bin.Safety.{fds_to_bin-Ensures}
use fdsstick.Raw.{fds_size}
use fdsstick.Device.{Device}
use fdsstick.Spi.{Action}
use fdsstick.Os.{Os, Allocates}
use fdsstick.Disks.{
  pointer, first_side, has_side, load_file, ask_next, sides_loop, each_side, lead_in, disk_size,
  whole_sides,
}

abbrev pub is_loaded : {A : Type 0} → Option A → Bool
is_loaded none = false
is_loaded (some a) = true

pub pointer-Ends : {A : Type 0} (p : Option A) → Ends (pointer p)
pointer-Ends none = tt
pointer-Ends (some a) = tt

-- Whether there is a side at a position that is then inside the file.
abbrev IsSideAt : List ℕ → ℕ → Bool → Type 0
IsSideAt inbuf pos b = b ≡ true → pos < length inbuf

pub has_side-Ensures :
    (inbuf : List ℕ) (filesize pos : ℕ)
    → Ensures (λ b. b ≡ true → pos < length inbuf) (has_side inbuf filesize pos)
unfolding has_side
has_side-Ensures inbuf filesize pos =
    branch-Ensures (IsSideAt inbuf pos) (ltb pos filesize) _ _
      (λ low.
        >>=-Ensures _ (IsSideAt inbuf pos) (read inbuf pos) _ (read-Ensures inbuf pos) λ c h t. h)
      (λ over t. absurd (false≢true t))

pub first_side-Ends : (inbuf : List ℕ) → Ends (first_side inbuf)
unfolding first_side
first_side-Ends inbuf = bind-Ends _ _ (read-Ends inbuf 0) λ c. tt

module _ {σ : Type 0} (os : Os σ) where
  -- The next side is asked for only when there is one in the file.
  abbrev Asks : List ℕ → ℕ → Bool × Device σ → Type 0
  Asks inbuf pos r = r.0 ≡ true → pos < length inbuf

  ask_next-Ensures :
      (inbuf : List ℕ) (filesize pos : ℕ) (dev : Device σ)
      → Ensures (Asks inbuf pos) (ask_next os inbuf filesize pos dev)
  unfolding ask_next
  ask_next-Ensures inbuf filesize pos dev =
      >>=-Ensures (IsSideAt inbuf pos) (Asks inbuf pos) (has_side inbuf filesize pos) _
        (has_side-Ensures inbuf filesize pos)
        λ more h.
          branch-Ensures (Asks inbuf pos) more _ _ (λ e t. h e) (λ e t. absurd (false≢true t))

  abbrev Succeeds : Bool × Device σ → Type 0
  Succeeds r = r.0 ≡ true

  module _ (prepare : Device σ → Run (Device σ)) (emit : List ℕ → ℕ → Action σ)
      (prepare_ends : (d : Device σ) → Ends (prepare d))
      (emit_ends : (bin : List ℕ) (size : ℕ) (d : Device σ) → Ends (emit bin size d)) where
    sides_loop-Ensures :
        (fuel : ℕ) (inbuf : List ℕ) (filesize : ℕ) (bin : List ℕ) (inpos : ℕ) (dev : Device σ)
        → length bin ≡ disk_size
        → 0 < fuel
        → length inbuf < inpos + fuel
        → Ensures Succeeds (sides_loop os fuel prepare emit inbuf filesize bin inpos dev)
    unfolding sides_loop
    sides_loop-Ensures zero inbuf filesize bin inpos dev hb h0 hf = absurd (omega arith)
    sides_loop-Ensures (suc fuel) inbuf filesize bin inpos dev hb h0 hf =
        >>=-Ensures (λ d. Unit {0}) Succeeds (prepare dev) _ (prepare_ends dev)
          λ ready t.
            >>=-Ensures _ Succeeds (write_range bin 0 (replicate lead_in 0)) _
              (write_range-Ensures bin 0 (replicate lead_in 0))
              λ led hl.
                >>=-Ensures _ Succeeds
                  (fds_to_bin (drop lead_in led) (drop inpos inbuf) (disk_size - lead_in)) _
                  (fds_to_bin-Ensures (drop lead_in led) (drop inpos inbuf) (disk_size - lead_in)
                    (omega (arith, hl.0, hb, length-drop lead_in led)))
                  λ converted hc.
                    branch-Ensures Succeeds (converted.0 == 0) _ _ (λ e. refl)
                      λ e.
                        let image = take lead_in led ++ converted.1 in
                        let sized : length (take lead_in led ++ converted.1) ≡ disk_size = omega (
                          arith,
                          hl.0,
                          hb,
                          hc.1,
                          length-take lead_in led,
                          length-append {0} (take lead_in led) converted.1,
                        ) in
                        >>=-Ensures (λ d. Unit {0}) Succeeds (emit image converted.0 ready) _
                          (emit_ends image converted.0 ready)
                          λ emitted u.
                            branch-Ensures Succeeds emitted.0 _ _
                              (λ f.
                                >>=-Ensures (Asks inbuf (inpos + fds_size)) Succeeds
                                  (ask_next os inbuf filesize (inpos + fds_size) emitted.1) _
                                  (ask_next-Ensures inbuf filesize (inpos + fds_size) emitted.1)
                                  λ asked ha.
                                    branch-Ensures Succeeds asked.0 _ _
                                      (λ g.
                                        let low = ha g in
                                        sides_loop-Ensures fuel inbuf filesize image
                                          (inpos + fds_size) asked.1 sized (omega arith)
                                          (omega arith))
                                      (λ g. refl))
                              (λ f. refl)

    -- The result is whether the file was loaded, and nothing else.
    pub each_side-Ensures :
        (filename : List ℕ) (dev : Device σ)
        → Allocates os
        → Ensures
            (λ r. r.0 ≡ is_loaded ((load_file os filename dev).0))
            (each_side os prepare emit filename dev)
    unfolding each_side
    each_side-Ensures filename dev alloc = split (load_file os filename dev)
      where
        split :
            (loaded : Option (List ℕ) × Device σ)
            → Ensures {A = Bool × Device σ}
                (λ r. r.0 ≡ is_loaded (loaded.0))
                (elim loaded.0 [
                  | none ↦ ok (false, loaded.1)
                  | some inbuf ↦
                      (first_side inbuf >>= λ inpos.
                      sides_loop os
                        (length inbuf + 1)
                        prepare
                        emit
                        inbuf
                        (whole_sides (length inbuf) inpos)
                        (os.malloc disk_size loaded.1.world)
                        inpos
                        loaded.1)
                ])
        split (none, d) = refl
        split (some inbuf, d) =
            >>=-Ensures (λ n. Unit {0}) Succeeds (first_side inbuf) _ (first_side-Ends inbuf)
              λ inpos t.
                sides_loop-Ensures (length inbuf + 1) inbuf _ _ inpos d (alloc disk_size d.world)
                  (omega arith) (omega arith)
