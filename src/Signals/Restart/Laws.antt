-- ===== src/Signals/Restart/Laws.antt =====
-- What a parent and a child of the restart sections print.
use mathlib.Core.Path.{subst}
use mathlib.Core.Option.{some-injective}
use apue_code.Base.{
  sys_skip, ℕ, zero, suc, ◌≡◌, refl, sym, ap, ◌∙◌, Option, none, some, List, [], ◌∷◌, Result, ok,
  fail, Errno, no_error, eintr, echild, eidrm, other, Process, Line, stdout, text, done, exited,
  running, Outcome, sys, sys_end, go_on, must_ok, says, pure, exit, ◌>>◌, ◌>>=◌,
}
use apue_code.Signals.Disposition.{Handler}
use apue_code.Signals.Restart.{
  Calls, Section, kill_parent, child, not_read, answered, parent, forked, piped, installed, section,
  sections,
}

-- The line for the answer of the read.
abbrev pub verdict : {S : Type 0} → Section S → Result ℕ → Option Line
verdict t (ok zero) = none
verdict t (ok (suc n)) = some (stdout (text t.restarted ∷ []))
verdict t (fail eintr) = some (stdout (text t.not_restarted ∷ []))
verdict t (fail no_error) = none
verdict t (fail echild) = none
verdict t (fail eidrm) = none
verdict t (fail (other n)) = none

-- The parent's calls in one section, from `s` to `s'`, with `l` for the answer of the read.
pub record Shows {S : Type 0} (c : Calls S) (t : Section S) (s : S) (l : Line) (s' : S)
    : Type 0 where
  pub old : Handler
  pub r : ℕ
  pub w : ℕ
  pub pid : ℕ
  pub answer : Result ℕ
  pub s1 : S
  pub s2 : S
  pub s3 : S
  pub s4 : S
  pub installs : t.install s ≡ (ok old, s1)
  pub pipes : c.pipe s1 ≡ (ok (r, w), s2)
  pub forks : c.fork s2 ≡ (ok (suc pid), s3)
  pub reads : c.read r 1 (c.close w s3).1 ≡ (answer, s4)
  pub verdict_is : verdict t answer ≡ some l
  pub ends : s' ≡ (c.close r s4).1

-- One section after the other.
abbrev pub ShowsAll : {S : Type 0} → Calls S → List (Section S) → S → List Line → S → Type 0
ShowsAll c [] s [] s' = s ≡ s'
ShowsAll c [] s (l ∷ ls) s' = ⊥
ShowsAll c (t ∷ ts) s [] s' = ⊥
ShowsAll {S} c (t ∷ ts) s (l ∷ ls) s' = (u : S) × Shows c t s l u × ShowsAll c ts u ls s'

module _ {S : Type 0} (c : Calls S) where
  -- The value, the state and the log, leaving `errno` aside.
  abbrev pub Prints : List Line → S → Process S → Outcome (Unit {0}) × Process S → Type 0
  Prints ls s p x = (x.0 ≡ done tt) × (x.1.kernel ≡ s) × (x.1.log ≡ says ls p.log)

  close-Prints :
      (l' : Line) (r : ℕ) (l : Line) (p : Process S) (s : S)
      → l' ≡ l
      → (e : Errno)
      → Prints
          (l ∷ [])
          (c.close r s).1
          p
          ((sys (c.close r) >> pure tt) (record { kernel = s; errno = e; log = l' ∷ p.log }))
  close-Prints l' r l p s same n =
      sys_skip (Prints (l ∷ []) (c.close r s).1 p) (c.close r) (pure tt)
        (record { kernel = s; errno = n; log = l' ∷ p.log })
        (λ e. (refl, refl, ap (λ x. x ∷ p.log) same))

  answered-Prints :
      (t : Section S) (r : ℕ) (answer : Result ℕ) (l : Line) (p : Process S) (s : S)
      → verdict t answer ≡ some l
      → Prints (l ∷ []) (c.close r s).1 p (go_on (answered c t r) (sys_end p (answer, s)))
  unfolding answered not_read
  answered-Prints t r (ok zero) l p s e = cc
  answered-Prints t r (ok (suc n)) l p s e = close-Prints _ r l p s (some-injective _ _ e) _
  answered-Prints t r (fail eintr) l p s e = close-Prints _ r l p s (some-injective _ _ e) _
  answered-Prints t r (fail no_error) l p s e = cc
  answered-Prints t r (fail echild) l p s e = cc
  answered-Prints t r (fail eidrm) l p s e = cc
  answered-Prints t r (fail (other n)) l p s e = cc

  section-Prints :
      (t : Section S) (p : Process S) (l : Line) (s : S)
      → Shows c t p.kernel l s
      → Prints (l ∷ []) s p (section c t p)
  unfolding section installed piped forked parent
  section-Prints t p l s h =
      must_ok P t.install_error t.install (installed c t) p h.old h.s1 h.installs (
        must_ok P "pipe error" c.pipe (piped c t) (record p { kernel = h.s1 }) (h.r, h.w) h.s2
          h.pipes
          (must_ok P "fork error" c.fork (forked c t (h.r, h.w)) (record p { kernel = h.s2 })
            (suc h.pid) h.s3 h.forks
            (sys_skip P (c.close h.w) (sys (c.read h.r 1) >>= answered c t h.r)
              (record p { kernel = h.s3 })
              (λ e.
                subst
                  (λ x. P (
                    go_on (answered c t h.r)
                      (sys_end (record p { kernel = (c.close h.w h.s3).1; errno = e }) x)))
                  (sym h.reads)
                  (subst
                    (λ u. Prints (l ∷ []) u p (
                      go_on (answered c t h.r) (
                        sys_end (record p { kernel = (c.close h.w h.s3).1; errno = e })
                          (h.answer, h.s4))))
                    (sym h.ends)
                    (answered-Prints t h.r h.answer l
                      (record p { kernel = (c.close h.w h.s3).1; errno = e }) h.s4
                      h.verdict_is))))))
    where
      P : Outcome (Unit {0}) × Process S → Type 0
      P = Prints (l ∷ []) s p

  -- A section, and the later ones from the state in which it ends.
  Prints-then :
      (ts : List (Section S)) (p : Process S) (l : Line) (ls : List Line) (u s : S)
      (x : Outcome (Unit {0}) × Process S)
      → Prints (l ∷ []) u p x
      → ((q : Process S) → q.kernel ≡ u → Prints ls s q (sections c ts q))
      → Prints (l ∷ ls) s p (go_on (λ _. sections c ts) x)
  Prints-then ts p l ls u s (done v, q) (e, k, log) rest =
      ((rest q k).0, (rest q k).1, (rest q k).2 ∙ ap (says ls) log)
  Prints-then ts p l ls u s (exited n, q) (e, k, log) rest = cc
  Prints-then ts p l ls u s (running, q) (e, k, log) rest = cc

  -- If in every section the calls before the read succeed, the process is the parent, and its read
  -- gives at least a byte or is interrupted, then the sections return and print one line each, in
  -- their order: that the read went on where it gave a byte, and that it did not where it failed
  -- with EINTR.
  pub sections-Prints :
      (ts : List (Section S)) (p : Process S) (ls : List Line) (s : S)
      → ShowsAll c ts p.kernel ls s
      → Prints ls s p (sections c ts p)
  unfolding sections
  sections-Prints [] p [] s h = (refl, h, refl)
  sections-Prints [] p (l ∷ ls) s h = elim h [ ]
  sections-Prints (t ∷ ts) p [] s h = elim h [ ]
  sections-Prints (t ∷ ts) p (l ∷ ls) s (u, h, hs) =
      Prints-then ts p l ls u s (section c t p) (section-Prints t p l u h)
        (λ q k. sections-Prints ts q ls s (subst (λ v. ShowsAll c ts v ls s) (sym k) hs))

  -- The states after the child's close and sleep, and after its kill.
  abbrev pub awake : ℕ → S → S
  awake r s = (c.sleep 2 (c.close r s).1).1

  abbrev pub signalled : Section S → S → S
  signalled t s = (c.kill (c.getppid s) t.signo s).1

  abbrev pub Quiet : S → Process S → Outcome (Unit {0}) × Process S → Type 0
  Quiet s p x = (x.0 ≡ exited 0) × (x.1.kernel ≡ s) × (x.1.log ≡ p.log)

  -- The child of a section prints nothing and leaves the program with status 0 whatever its calls
  -- answer: it closes its end, sleeps, signals its parent as it is then, and writes "a".
  pub child-Quiet :
      (t : Section S) (r w : ℕ) (p : Process S)
      → Quiet (c.write w "a" (signalled t (awake r p.kernel))).1 p (child c t (r, w) p)
  unfolding child
  child-Quiet t r w p =
      sys_skip P (c.close r)
        (sys (c.sleep 2) >> (kill_parent c t >> (sys (c.write w "a") >> exit 0))) p
        (λ e.
          sys_skip P (c.sleep 2) (kill_parent c t >> (sys (c.write w "a") >> exit 0))
            (record p { kernel = (c.close r p.kernel).1; errno = e })
            (λ e'.
              sys_skip P (c.kill (c.getppid (awake r p.kernel)) t.signo)
                (sys (c.write w "a") >> exit 0) (record p { kernel = awake r p.kernel; errno = e' })
                (λ n.
                  sys_skip P (c.write w "a") (exit 0)
                    (record p { kernel = signalled t (awake r p.kernel); errno = n })
                    (λ n'. (refl, refl, refl)))))
    where
      P : Outcome (Unit {0}) × Process S → Type 0
      P = Quiet (c.write w "a" (signalled t (awake r p.kernel))).1 p
