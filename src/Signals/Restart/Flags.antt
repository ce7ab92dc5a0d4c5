-- ===== src/Signals/Restart/Flags.antt =====
-- The restart sections of sigaction_semantics.c on a system that keeps to SA_RESTART.
use apue_code.Base.{ℕ, suc, ◌≡◌, ap, List, [], ◌∷◌, Call, ok, fail, eintr, Line, stdout, text}
use apue_code.Signals.Disposition.{Handler, Action, old_handler, sa_restart}
use apue_code.Signals.Restart.{Calls}

-- What the four sections print on such a system, with headers that have SA_RESTART.
abbrev pub restart_lines : List Line
restart_lines =
    stdout (text "* [DEFAULT] SIGALRM: blocking system calls NOT automatically restart\n" ∷ [])
    ∷ stdout (text "* [DEFAULT] OTHER:   blocking system calls NOT automatically restart\n" ∷ [])
    ∷ stdout (text "* [RESTART] SIGALRM: blocking system calls automatically restart\n" ∷ [])
    ∷ stdout (text "* [RESTART] OTHER:   blocking system calls automatically restart\n" ∷ [])
    ∷ []

-- `flags` are the flags of the action that was installed last, for the signal that the child then sends.
-- The calls before the read succeed, in the parent, and keep the flags; a read that the signal comes into
-- goes on with SA_RESTART, up to the byte of the child, and fails with EINTR with no flag.
module _ {S : Type 0} (c : Calls S) (sigaction : ℕ → Action → Call S Action) (flags : S → ℕ)
    (installs : (signo : ℕ) (a : Action) (s : S)
      → (old : Action) × (s' : S) × (sigaction signo a s ≡ (ok old, s')) × (flags s' ≡ a.sa_flags))
    (pipes : (s : S) → (fd : ℕ × ℕ) × (s' : S) × (c.pipe s ≡ (ok fd, s')) × (flags s' ≡ flags s))
    (forks : (s : S)
      → (pid : ℕ) × (s' : S) × (c.fork s ≡ (ok (suc pid), s')) × (flags s' ≡ flags s))
    (closes : (fd : ℕ) (s : S) → flags (c.close fd s).1 ≡ flags s)
    (restarts : (r : ℕ) (s : S) → flags s ≡ sa_restart → (s' : S) × (c.read r 1 s ≡ (ok 1, s')))
    (interrupts : (r : ℕ) (s : S)
      → flags s ≡ 0
      → (s' : S) × (c.read r 1 s ≡ (fail eintr, s'))) where
  installed :
      (signo : ℕ) (handler : Handler) (f : ℕ) (s : S)
      → let x =
          old_handler sigaction
            (sigaction signo (record { sa_handler = handler; sa_flags = f }) s) in
        (old : Handler) × (s' : S) × (x ≡ (ok old, s')) × (flags s' ≡ f)
  installed signo handler f s =
      let (old, s1, e, k) = installs signo (record { sa_handler = handler; sa_flags = f }) s in
      (old.sa_handler, s1, ap (old_handler sigaction) e, k)
