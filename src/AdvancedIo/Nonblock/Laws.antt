-- ===== src/AdvancedIo/Nonblock/Laws.antt =====
-- nonblock_io.c writes all of its input, where the output is busy only so often.
use mathlib.Core.Path.{subst}
use apue_code.Base.{
  ℕ, zero, suc, ◌+◌, ◌≤◌, ◌<◌, ◌≡◌, refl, ap, sym, List, [], ◌∷◌, ◌++◌, append-nil, append_assoc,
  arith, bit_or, length, take, drop, take-append-drop, length-drop, ok, fail, Result, no_error,
  some, none, Option, Errno, done, Outcome, Process, sys_rule, sys_ok, must_ok,
}
use apue_code.FileIo.Flags.{o_nonblock}
use apue_code.FileIo.Kernel.{FileSys}
use apue_code.AdvancedIo.Nonblock.{report, wrote, write_rest, set_nonblock, got, main}

module _ (K : FileSys) (stored : K.State → List ℕ) (busy : K.State → ℕ) where
  -- A write takes a leading part of its bytes. Where it takes none, or fails, the number of times
  -- that the output will still be busy goes down; it never goes up.
  abbrev pub Takes : List ℕ → K.State → Result ℕ × K.State → Type 0
  Takes bs s (ok n, u) =
      (n ≤ length bs)
      × (stored u ≡ stored s ++ take n bs)
      × (busy u < busy s + n)
      × (busy u ≤ busy s)
  Takes bs s (fail e, u) = (stored u ≡ stored s) × (busy u < busy s)

  -- The program has returned, with these bytes in the output.
  abbrev pub Wrote : List ℕ → Outcome (Unit {0}) × Process K.State → Type 0
  Wrote bs x = (x.0 ≡ done tt) × (stored x.1.kernel ≡ bs)

  -- The process after the report of a write.
  abbrev said : Option ℕ → K.State → Errno → Process K.State → Process K.State
  said r u e p = (report K r (record { kernel = u; errno = e; log = p.log })).1

  module _ (law : (bs : List ℕ) (s : K.State) → 0 < length bs → Takes bs s (K.write 1 bs s)) where
    write_rest-Wrote :
        (fuel : ℕ) (bs : List ℕ) (p : Process K.State)
        → length bs + busy p.kernel < fuel
        → Wrote (stored p.kernel ++ bs) (write_rest K fuel bs p)
    unfolding write_rest
    write_rest-Wrote zero bs p h = absurd (omega arith)
    write_rest-Wrote (suc fuel) [] p h = (refl, sym (append-nil (stored p.kernel)))
    write_rest-Wrote (suc fuel) (b ∷ bs) p h =
        sys_rule (Wrote (stored p.kernel ++ (b ∷ bs))) (K.write 1 (b ∷ bs))
          (wrote K (write_rest K fuel) (b ∷ bs)) (record p { errno = no_error })
          (λ n u e.
            let (few, kept, less, most) =
              subst (Takes (b ∷ bs) p.kernel) e (law (b ∷ bs) p.kernel (omega arith)) in
            let same : stored u ++ drop n (b ∷ bs) ≡ stored p.kernel ++ (b ∷ bs) =
              rw (kept, append_assoc, take-append-drop) in
            let fits : length (drop n (b ∷ bs)) + busy u < fuel = rw (length-drop) (omega arith) in
            subst (λ w. Wrote w (write_rest K fuel (drop n (b ∷ bs)) (said (some n) u no_error p)))
              same (write_rest-Wrote fuel (drop n (b ∷ bs)) (said (some n) u no_error p) fits))
          (λ e u failed.
            let (kept, less) =
              subst (Takes (b ∷ bs) p.kernel) failed (law (b ∷ bs) p.kernel (omega arith)) in
            let again : length (b ∷ bs) + busy u < fuel = omega arith in
            subst (λ w. Wrote w (write_rest K fuel (b ∷ bs) (said none u e p)))
              (ap (λ w. w ++ (b ∷ bs)) kept)
              (write_rest-Wrote fuel (b ∷ bs) (said none u e p) again))

    -- Where the read gives some bytes and both calls of fcntl succeed, and the output takes a leading
    -- part of each write and is busy only so often, the program returns with all of these bytes
    -- behind what the output held. One round of fuel more than there are bytes and busy times is
    -- enough.
    pub main-Wrote :
        (fuel : ℕ) (p : Process K.State) (buf : List ℕ) (flags : ℕ) (s1 s2 s3 : K.State)
        → K.read 0 500000 p.kernel ≡ (ok buf, s1)
        → K.get_flags 1 s1 ≡ (ok flags, s2)
        → K.set_flags 1 (bit_or flags o_nonblock) s2 ≡ (ok tt, s3)
        → length buf + busy s3 < fuel
        → Wrote (stored s3 ++ buf) (main K fuel p)
    unfolding main
    main-Wrote fuel p buf flags s1 s2 s3 reads gets sets h =
        let goal = Wrote (stored s3 ++ buf) in
        sys_ok goal (K.read 0 500000) (got K fuel) p buf s1 reads (
          sys_ok goal (K.get_flags 1) (set_nonblock K fuel buf) _ flags s2 gets (
            must_ok goal "fcntl error" (K.set_flags 1 (bit_or flags o_nonblock))
              (λ _. write_rest K fuel buf) _ tt s3 sets (write_rest-Wrote fuel buf _ h)))
