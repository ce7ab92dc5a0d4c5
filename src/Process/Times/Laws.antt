-- ===== src/Process/Times/Laws.antt =====
-- process_times.c: the rate of the clock is asked for only once.
use apue_code.Base.{
  ◌≢◌, ◌⊎◌, inl, inr, Result, ok, fail, Errno, ℕ, zero, suc, ◌==◌, ◌≡◌, refl, ap, ◌∙◌, false,
  String, List, [], ◌∷◌, Process, Outcome, done, exited, running, Exec, Call, stdout, text, must,
  pure, must_rule, go_on, arith, ◌>>=◌, ◌>>◌,
}
use apue_code.Process.Status.{pr_exit}
use apue_code.Process.Times.{Tms, Calls, pr_times, do_cmd, do_cmds, main}

-- The rate that a part of the program gives back, where it ends.
abbrev Yields : {S : Type 0} → (ℕ → Type 0) → Outcome ℕ × Process S → Type 0
Yields Q (done m, p) = Q m
Yields Q (exited status, p) = Unit
Yields Q (running, p) = Unit

go_on-Yields :
    {S B : Type 0} (Q : ℕ → Type 0) (f : ℕ → Exec S B) (g : ℕ → Exec S B)
    (x : Outcome ℕ × Process S)
    → Yields Q x
    → ((rate : ℕ) (p : Process S) → Q rate → f rate p ≡ g rate p)
    → go_on f x ≡ go_on g x
go_on-Yields Q f g (done m, p) q h = h m p q
go_on-Yields Q f g (exited status, p) q h = refl
go_on-Yields Q f g (running, p) q h = refl

answer :
    {A S : Type 0} (x : Result A × S)
    → ((a : A) × (s : S) × (x ≡ (ok a, s))) ⊎ ((n : Errno) × (s : S) × (x ≡ (fail n, s)))
answer (ok a, s) = inl (a, s, refl)
answer (fail n, s) = inr (n, s, refl)

pr_exit-done : {S : Type 0} (status : ℕ) (p : Process S) → (pr_exit status p).0 ≡ done tt
unfolding pr_exit
pr_exit-done status p = ground arith

module _ {S : Type 0} (c : Calls S) (seconds : ℕ → ℕ → ℕ → String) where
  told_exit :
      (Q : ℕ → Type 0) (rate : ℕ) (x : Outcome (Unit {0}) × Process S)
      → Q rate
      → x.0 ≡ done tt
      → Yields Q (go_on (λ u. pure rate) x)
  told_exit Q rate (done u, p) q e = q
  told_exit Q rate (exited n, p) q e = tt
  told_exit Q rate (running, p) q e = tt

  -- The rest of do_cmd behind its last, second and first call.
  abbrev ended : ℕ → ℕ × Tms → ℕ → ℕ × Tms → Exec S ℕ
  ended rate start status end = do
    clktck ← pr_times c seconds start end rate
    pr_exit status
    pure clktck

  abbrev ran : ℕ → ℕ × Tms → ℕ → Exec S ℕ
  ran rate start status = must "#2 times error" c.times >>= ended rate start status

  abbrev began : ℕ → String → ℕ × Tms → Exec S ℕ
  began rate cmd start = must "system() error" (c.system cmd) >>= ran rate start

  -- Where the rate is known, it stays.
  ended-known :
      (k status : ℕ) (start end : ℕ × Tms) (p : Process S)
      → Yields (λ m. m ≢ 0) (ended (suc k) start status end p)
  unfolding pr_times
  ended-known k status (start, tmsstart) (end, tmsend) p =
      let e : (suc k == 0) ≡ false = ground arith in
      rw e (told_exit (λ m. m ≢ 0) (suc k) (pr_exit status _) (λ z. cc) (pr_exit-done status _))

  -- Where it is not known, and sysconf does not give 0, one is found.
  ended-asks :
      (status : ℕ) (start end : ℕ × Tms) (p : Process S)
      → (c.sysconf p.kernel).0 ≢ ok 0
      → Yields (λ m. m ≢ 0) (ended 0 start status end p)
  unfolding pr_times
  ended-asks status (start, tmsstart) (end, tmsend) p h = elim (answer (c.sysconf p.kernel)) [
    | inl (a, s, e) ↦ rw e (
        told_exit (λ m. m ≢ 0) a (pr_exit status _) (λ z. h (ap (λ x. x.0) e ∙ ap ok z))
          (pr_exit-done status _))
    | inr (n, s, e) ↦ rw e tt
  ]

  ended-finds :
      ((s : S) → (c.sysconf s).0 ≢ ok 0)
      → (rate status : ℕ) (start end : ℕ × Tms) (p : Process S)
      → Yields (λ m. m ≢ 0) (ended rate start status end p)
  ended-finds h zero status start end p = ended-asks status start end p (h p.kernel)
  ended-finds h (suc k) status start end p = ended-known k status start end p

  must-Yields :
      {A : Type 0} (Q : ℕ → Type 0) (message : String) (call : Call S A) (f : A → Exec S ℕ)
      → ((a : A) (p : Process S) → Yields Q (f a p))
      → (p : Process S) → Yields Q ((must message call >>= f) p)
  must-Yields Q message call f h p =
      must_rule (Yields Q) message call f p (λ a s e. h a (record p { kernel = s })) (λ n s e. tt)

  -- Behind a command that ends the rate is known.
  do_cmd-Yields :
      ((s : S) → (c.sysconf s).0 ≢ ok 0)
      → (cmd : String) (rate : ℕ) (p : Process S)
      → Yields (λ m. m ≢ 0) (do_cmd c seconds cmd rate p)
  unfolding do_cmd
  do_cmd-Yields h cmd rate p =
      must-Yields Q "#1 times error" c.times (began rate cmd)
        (λ start. must-Yields Q "system() error" (c.system cmd) (ran rate start) (λ status.
          must-Yields Q "#2 times error" c.times (ended rate start status)
            (λ end. ended-finds h rate status start end)))
        (record p { log = stdout (text "\ncommand: " ∷ text cmd ∷ text "\n" ∷ []) ∷ p.log })
    where
      Q : ℕ → Type 0
      Q m = m ≢ 0

module _ {S : Type 0} (c : Calls S) (sysconf : Call S ℕ) (seconds : ℕ → ℕ → ℕ → String) where
  -- The same calls but for sysconf.
  abbrev pub asking : Calls S
  asking = record c { sysconf = sysconf }

  do_cmd-known :
      (cmd : String) (k : ℕ) (p : Process S)
      → do_cmd c seconds cmd (suc k) p ≡ do_cmd asking seconds cmd (suc k) p
  unfolding do_cmd pr_times
  do_cmd-known cmd k p = let e : (suc k == 0) ≡ false = ground arith in rw e refl

  do_cmds-known :
      ((s : S) → (c.sysconf s).0 ≢ ok 0)
      → (cmds : List String) (rate : ℕ) (p : Process S) → rate ≢ 0
      → do_cmds c seconds cmds rate p ≡ do_cmds asking seconds cmds rate p
  unfolding do_cmds
  do_cmds-known h cmds zero p n = absurd (n refl)
  do_cmds-known h [] (suc k) p n = refl
  do_cmds-known h (cmd ∷ cmds) (suc k) p n =
      go_on-Yields (λ m. m ≢ 0) (do_cmds c seconds cmds) (do_cmds asking seconds cmds)
        (do_cmd c seconds cmd (suc k) p) (do_cmd-Yields c seconds h cmd (suc k) p)
        (λ rate q m. do_cmds-known h cmds rate q m)
      ∙ ap (go_on (do_cmds asking seconds cmds)) (do_cmd-known cmd k p)

  -- Where sysconf never gives 0 for the rate of the clock, at most the first command of a run asks for
  -- it: the run is that of its first command, and then of the others with whatever else in place of
  -- sysconf.
  pub main-asks :
      ((s : S) → (c.sysconf s).0 ≢ ok 0)
      → (name cmd : String) (cmds : List String) (p : Process S)
      → main c seconds (name ∷ cmd ∷ cmds) p
        ≡ ((do_cmd c seconds cmd 0 >>= do_cmds asking seconds cmds) >> pure tt) p
  unfolding main do_cmds
  main-asks h name cmd cmds p = ap (go_on (λ u. pure tt)) (
      go_on-Yields (λ m. m ≢ 0) (do_cmds c seconds cmds) (do_cmds asking seconds cmds)
        (do_cmd c seconds cmd 0 p) (do_cmd-Yields c seconds h cmd 0 p)
        (λ rate q m. do_cmds-known h cmds rate q m))
