-- ===== src/FileIo/Pump/Laws.antt =====
-- The copying loop: it ends within its fuel, and what it has stored is the input, or a leading
-- part of the input where a call failed.
use apue_code.Base.{
  ℕ, zero, suc, ◌<◌, ◌≡◌, refl, ◌∙◌, String, List, [], ◌++◌, ◌∷◌, append_assoc, append-nil, arith,
  length, take, take_all, length-append, done, exited, running, Outcome, Process, perror_line,
  sys_rule, if_rule, Exec, sys, die, pure, ap, drop, take-append-drop, ==_iff, ◌==◌, ◌>>=◌,
}
use apue_code.FileIo.Kernel.{FileSys, IsStream, ReadOk, WriteOk}
use apue_code.FileIo.Pump.{check_read, check_write, pump}
use mathlib.Core.Path.{subst}

-- One line was printed since `p`, by perror.
abbrev pub Reports : {S : Type 0} → Process S → Process S → Type 0
Reports p q = (message : String) × (q.log ≡ perror_line message q.errno ∷ p.log)

module _ {S : Type 0} (unread stored : S → List ℕ) where
  -- A leading part of what could be read at `p` has been stored at `s`, and nothing else.
  abbrev pub Leading : Process S → S → Type 0
  Leading p s =
      (pre : List ℕ) × (rest : List ℕ) × (pre ++ rest ≡ unread p.kernel)
      × (stored s ≡ stored p.kernel ++ pre)

  -- What a copy that began at `p` has done, by how it ended.
  abbrev pub Copied : Process S → Outcome (Unit {0}) × Process S → Type 0
  Copied p (done _, q) = (stored q.kernel ≡ stored p.kernel ++ unread p.kernel) × (q.log ≡ p.log)
  Copied p (exited status, q) = (status ≡ 1) × Leading p q.kernel × Reports p q
  Copied p (running, q) = ⊥

  -- What a later copy has done counts for an earlier one, with the bytes moved in between.
  Copied-step :
      (p p' : Process S) (bs : List ℕ) (x : Outcome (Unit {0}) × Process S)
      → bs ++ unread p'.kernel ≡ unread p.kernel
      → stored p'.kernel ≡ stored p.kernel ++ bs
      → p'.log ≡ p.log
      → Copied p' x
      → Copied p x
  Copied-step p p' bs (done u, q) moved kept same (all, log) =
      (rw (all, kept, append_assoc, moved), log ∙ same)
  Copied-step p p' bs (exited status, q) moved kept same
        (code, (pre, rest, split, got), (message, told)) =
      (
        code,
        (bs ++ pre, rest, rw (append_assoc, split, moved), rw (got, kept, append_assoc)),
        (message, rw (told, same)),
      )
  Copied-step p p' bs (running, q) moved kept same h = h

  pub nothing-Leading : (p : Process S) (s : S) → stored s ≡ stored p.kernel → Leading p s
  nothing-Leading p s kept = ([], unread p.kernel, refl, rw (kept, append-nil))

  -- A copy that begins where no data has moved since `p`, and nothing was printed, counts for `p`.
  pub Copied-shift :
      (p p' : Process S) (x : Outcome (Unit {0}) × Process S)
      → unread p'.kernel ≡ unread p.kernel
      → stored p'.kernel ≡ stored p.kernel
      → p'.log ≡ p.log
      → Copied p' x
      → Copied p x
  Copied-shift p p' x same kept log = Copied-step p p' [] x same (rw (kept, append-nil)) log

module _ (K : FileSys) (ifd ofd : ℕ) (unread stored : K.State → List ℕ)
    (L : IsStream K ifd ofd unread stored) (size : ℕ) (pos : 0 < size) (msg : String) where
  -- What follows a read that gave the bytes `buf`: they are written, and `next` goes on.
  write-Copied :
      (next : Exec K.State (Unit {0})) (p : Process K.State) (buf : List ℕ) (s : K.State)
      → buf ++ unread s ≡ unread p.kernel
      → stored s ≡ stored p.kernel
      → ((q : Process K.State) → unread q.kernel ≡ unread s → Copied unread stored q (next q))
      → Copied unread stored p (
          (sys (K.write ofd buf) >>= check_write K msg (length buf) next) (record p { kernel = s }))
  write-Copied next p buf s moved kept ih =
      sys_rule (Copied unread stored p) (K.write ofd buf) (check_write K msg (length buf) next)
        (record p { kernel = s })
        (λ n s' wrote.
          let (some_of, added, same) =
            subst (WriteOk unread stored buf s) wrote (L.write-WriteOk buf s) in
          if_rule (Copied unread stored p) (n == length buf) next (die msg)
            (record p { kernel = s' })
            (λ all.
              let e : n ≡ length buf = (==_iff _ _).0 all in
              Copied-step unread stored p (record p { kernel = s' }) buf _ (rw (same, moved))
                (rw (added, e, take_all, kept)) refl (ih (record p { kernel = s' }) same))
            (λ short. (
              refl,
              (
                take n buf,
                drop n buf ++ unread s,
                rw (← append_assoc, take-append-drop, moved),
                rw (added, kept),
              ),
              (msg, refl),
            )))
        (λ e s' failed.
          let (kept', same) = subst (WriteOk unread stored buf s) failed (L.write-WriteOk buf s) in
          (refl, nothing-Leading unread stored p s' (kept' ∙ kept), (msg, refl)))

  -- Between two different regular files, with room for at least one byte in the buffer and more fuel
  -- than there are bytes to read, the loop ends: it returns with all of the input stored behind what
  -- the output held and nothing printed, or it exits with status 1, a leading part of the input stored
  -- and one perror line printed.
  pub pump-Copied :
      (fuel : ℕ) (p : Process K.State)
      → length (unread p.kernel) < fuel
      → Copied unread stored p (pump K size msg ifd ofd fuel p)
  unfolding pump
  pump-Copied zero p h = absurd (omega arith)
  pump-Copied (suc fuel) p h =
      sys_rule (Copied unread stored p) (K.read ifd size)
        (check_read K msg ofd (pump K size msg ifd ofd fuel)) p
        (λ buf s got.
          let (moved, fits, more, kept) =
            subst (ReadOk unread stored size p.kernel) got (L.read-ReadOk size p.kernel pos) in
          if_rule (Copied unread stored p) (length buf == 0) (pure tt)
            (sys (K.write ofd buf)
              >>= check_write K msg (length buf) (pump K size msg ifd ofd fuel))
            (record p { kernel = s })
            (λ eof. (rw (kept, empty (unread p.kernel) (ground arith), append-nil), refl))
            (λ data_left. write-Copied (pump K size msg ifd ofd fuel) p buf s moved kept (λ q same.
              pump-Copied fuel q
                (rw same (ground (arith, ap length moved, length-append buf (unread s)))))))
        (λ e s failed.
          let (same, kept) =
            subst (ReadOk unread stored size p.kernel) failed (L.read-ReadOk size p.kernel pos) in
          (refl, nothing-Leading unread stored p s kept, ("read error", refl)))
    where
      empty : (xs : List ℕ) → ¬ (0 < length xs) → xs ≡ []
      empty [] h = refl
      empty (x ∷ xs) h = absurd (h (omega arith))
