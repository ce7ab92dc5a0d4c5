-- ===== src/Signals/Child/Laws.antt =====
-- sigchld.c: the verdict on ignored children counts the waits that succeed.
use apue_code.Base.{
  refl, String, ◌==◌, if◌then◌else◌, ℕ, zero, suc, ◌+◌, ◌<◌, ◌≡◌, ap, ◌∙◌, [], ◌∷◌, arith, ok, fail,
  done, echild, Process, Outcome, stdout, text, sys_end, sys_ok, go_on, must_ok, ◌>>◌,
}
use apue_code.Signals.Disposition.{Handler, sig_ign}
use apue_code.Signals.Child.{
  Calls, sigchld, forked, fork_all, counted, wait_all, ignored_text, judge, ignored_verdict,
  wait_and_judge, ignoring,
}

-- The line for a number of waits that have succeeded.
abbrev pub told : ℕ → String
told n =
    if n == 0
    then "* SIGCHLD: SIG_IGN throw away child exit status\n"
    else "* SIGCHLD: SIG_IGN is equivalent to SIG_DFL\n"

ignored_text-told : (n : ℕ) → ignored_text n ≡ told n
ignored_text-told zero = refl
ignored_text-told (suc n) = ground arith

module _ {S : Type 0} (c : Calls S) where
  -- fork succeeds in the parent `n` times, and takes the system from `s` to `t`.
  abbrev pub Forks : ℕ → S → S → Type 0
  Forks zero s t = s ≡ t
  Forks (suc n) s t = (pid : ℕ) × (u : S) × (c.fork s ≡ (ok (suc pid), u)) × Forks n u t

  -- The same for wait.
  abbrev pub Waits : ℕ → S → S → Type 0
  Waits zero s t = s ≡ t
  Waits (suc n) s t = (pid : ℕ) × (u : S) × (c.wait s ≡ (ok pid, u)) × Waits n u t

  fork_all-Forks :
      (n i : ℕ) (p : Process S) (t : S)
      → Forks n p.kernel t
      → fork_all c n i p ≡ (done tt, record p { kernel = t })
  unfolding fork_all
  fork_all-Forks zero i p t same = ap (λ s. (done tt, record p { kernel = s })) same
  fork_all-Forks (suc n) i p t (pid, u, e, more) =
      sys_ok (λ x. x ≡ (done tt, record p { kernel = t })) c.fork
        (forked c i (fork_all c n (i + 1))) p (suc pid) u e
        (fork_all-Forks n (i + 1) (record p { kernel = u }) t more)

  wait_all-Waits :
      (fuel n count : ℕ) (p : Process S) (t u : S)
      → Waits n p.kernel t
      → c.wait t ≡ (fail echild, u)
      → n < fuel
      → wait_all c fuel count p ≡ (done (count + n), record p { kernel = u; errno = echild })
  unfolding wait_all
  wait_all-Waits zero n count p t u w e h = absurd (omega arith)
  wait_all-Waits (suc fuel) zero count p t u w e h =
      let none_more : count + 0 ≡ count = omega arith in
      rw none_more (
        ap (λ x. go_on (counted c (wait_all c fuel (count + 1)) count) (sys_end p x))
          (ap c.wait w ∙ e))
  wait_all-Waits (suc fuel) (suc n) count p t u (pid, v, f, w) e h =
      let one_more : count + suc n ≡ count + 1 + n = omega arith in
      rw one_more (
        ap (λ x. go_on (counted c (wait_all c fuel (count + 1)) count) (sys_end p x)) f
        ∙ wait_all-Waits fuel n (count + 1) (record p { kernel = v }) t u w e (omega arith))

  -- In the parent, where the three forks succeed, then `n` calls of wait, and the next one finds no
  -- child: the first part ends and prints one line. It says that the exit status was thrown away
  -- exactly if no call of wait has succeeded. More fuel than successful waits is enough.
  pub ignoring-tells :
      (fuel n : ℕ) (p : Process S) (old : Handler) (s t u v : S)
      → c.install sigchld sig_ign p.kernel ≡ (ok old, s)
      → Forks 3 s t
      → Waits n t u
      → c.wait u ≡ (fail echild, v)
      → n < fuel
      → ignoring c fuel p ≡ (
        done tt,
        record p { kernel = v; errno = echild; log = stdout (text (told n) ∷ []) ∷ p.log },
      )
  unfolding ignoring judge
  ignoring-tells fuel n p old s t u v installed forks waits over h =
      must_ok (λ x. x ≡ verdict) "Signal(SIGCHLD, SIG_IGN) error" (c.install sigchld sig_ign)
        (λ _. fork_all c 3 0 >> wait_and_judge c fuel) p old s installed
        (ap (go_on (λ _. wait_and_judge c fuel))
            (fork_all-Forks 3 0 (record p { kernel = s }) t forks)
          ∙ ap (go_on (ignored_verdict c))
              (wait_all-Waits fuel n 0 (record p { kernel = t }) u v waits over h)
          ∙ ap (λ k. judge c k echild (record p { kernel = v; errno = echild })) sum
          ∙ ap
              (λ l. (
                done tt,
                record p { kernel = v; errno = echild; log = stdout (text l ∷ []) ∷ p.log },
              ))
              (ignored_text-told n))
    where
      verdict : Outcome (Unit {0}) × Process S
      verdict = (
        done tt,
        record p { kernel = v; errno = echild; log = stdout (text (told n) ∷ []) ∷ p.log },
      )

      sum : 0 + n ≡ n
      sum = omega arith
