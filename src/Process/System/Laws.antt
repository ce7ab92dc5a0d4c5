-- ===== src/Process/System/Laws.antt =====
-- `system` waits through any number of interrupted calls, and its child never returns.
use mathlib.Core.Path.{subst}
use apue_code.Base.{
  ℕ, no_error, echild, eidrm, other, sym, ◌≢◌, zero, suc, ◌<◌, ◌≡◌, refl, ◌∙◌, ap, String, false,
  some, [], ◌∷◌, arith, ok, fail, done, exited, running, Outcome, Result, Process, eintr, ℤ, pos,
  negsuc, sys_end, go_on, sys_ok, exit,
}
use apue_code.Process.System.{Children, is_eintr, check_wait, wait_status, forked, system}

-- A result after which `system` stops waiting, and the value that it then gives.
abbrev pub IsFinal : Result ℕ → Type 0
IsFinal (ok status) = Unit
IsFinal (fail e) = is_eintr e ≡ false

abbrev pub value_of : Result ℕ → ℤ
value_of (ok status) = pos status
value_of (fail e) = negsuc 0

module _ {S : Type 0} (c : Children S) where
  -- waitpid is interrupted `n` times, from `s` to `t`.
  abbrev pub Interrupted : ℕ → ℕ → S → S → Type 0
  Interrupted pid zero s t = s ≡ t
  Interrupted pid (suc n) s t =
      (u : S) × (c.waitpid pid s ≡ (fail eintr, u)) × Interrupted pid n u t

  abbrev after : ℕ → ℕ → Process S → Result ℕ × S → Outcome ℤ × Process S
  after pid fuel p x = go_on (check_wait c (wait_status c pid fuel)) (sys_end p x)

  -- The value and the state, leaving `errno` aside.
  abbrev pub Gives : ℤ → S → Process S → Outcome ℤ × Process S → Type 0
  Gives value s p x = (x.0 ≡ done value) × (x.1.kernel ≡ s) × (x.1.log ≡ p.log)

  wait_final :
      (pid fuel : ℕ) (r : Result ℕ) (p : Process S) (u : S)
      → IsFinal r
      → Gives (value_of r) u p (after pid fuel p (r, u))
  wait_final pid fuel (ok status) p u h = (refl, refl, refl)
  wait_final pid fuel (fail eintr) p u h = cc
  wait_final pid fuel (fail no_error) p u h = (refl, refl, refl)
  wait_final pid fuel (fail echild) p u h = (refl, refl, refl)
  wait_final pid fuel (fail eidrm) p u h = (refl, refl, refl)
  wait_final pid fuel (fail (other n)) p u h = (refl, refl, refl)

  wait_status-Gives :
      (pid fuel n : ℕ) (r : Result ℕ) (p : Process S) (t u : S)
      → Interrupted pid n p.kernel t
      → c.waitpid pid t ≡ (r, u)
      → IsFinal r
      → n < fuel
      → Gives (value_of r) u p (wait_status c pid fuel p)
  unfolding wait_status
  wait_status-Gives pid zero n r p t u i e final h = absurd (omega arith)
  wait_status-Gives pid (suc fuel) zero r p t u i e final h =
      subst (λ x. Gives (value_of r) u p (after pid fuel p x)) (sym (ap (c.waitpid pid) i ∙ e))
        (wait_final pid fuel r p u final)
  wait_status-Gives pid (suc fuel) (suc n) r p t u (v, f, i) e final h =
      subst (λ x. Gives (value_of r) u p (after pid fuel p x)) (sym f)
        (wait_status-Gives pid fuel n r (record p { kernel = v; errno = eintr }) t u i e final
          (omega arith))

  -- In the parent `system` gives the status of the first waitpid that is not interrupted, or -1 if
  -- that one fails otherwise, however often waitpid was interrupted before; it prints nothing. One
  -- round of fuel more than interruptions is enough.
  pub system_parent :
      (fuel n pid : ℕ) (cmd : String) (r : Result ℕ) (p : Process S) (s t u : S)
      → c.fork p.kernel ≡ (ok (suc pid), s)
      → Interrupted (suc pid) n s t
      → c.waitpid (suc pid) t ≡ (r, u)
      → IsFinal r
      → n < fuel
      → Gives (value_of r) u p (system c fuel (some cmd) p)
  unfolding system forked
  system_parent fuel n pid cmd r p s t u in_parent i e final h =
      sys_ok (Gives (value_of r) u p) c.fork (forked c fuel cmd) p (suc pid) s in_parent
        (wait_status-Gives (suc pid) fuel n r (record p { kernel = s }) t u i e final h)

  no_value :
      (x : Outcome (Unit {0}) × Process S) (value : ℤ)
      → (go_on {B = ℤ} (λ _. exit 127) x).0 ≢ done value
  no_value (done a, q) value = λ e. cc
  no_value (exited status, q) value = λ e. cc
  no_value (running, q) value = λ e. cc

  -- In the child `system` does not return, whatever the command does.
  system_child :
      (fuel : ℕ) (cmd : String) (p : Process S) (s : S) (value : ℤ)
      → c.fork p.kernel ≡ (ok 0, s)
      → (system c fuel (some cmd) p).0 ≢ done value
  unfolding system forked
  system_child fuel cmd p s value in_child =
      let shell = c.execl "/bin/bash" ("bash" ∷ "-c" ∷ cmd ∷ []) in
      sys_ok (λ x. x.0 ≢ done value) c.fork (forked c fuel cmd) p 0 s in_child
        (no_value (shell (record p { kernel = s })) value)

  -- Where the shell cannot be started, the child exits with status 127.
  system_no_shell :
      (fuel : ℕ) (cmd : String) (p : Process S) (s : S) (q : Process S)
      → c.fork p.kernel ≡ (ok 0, s)
      → c.execl "/bin/bash" ("bash" ∷ "-c" ∷ cmd ∷ []) (record p { kernel = s }) ≡ (done tt, q)
      → system c fuel (some cmd) p ≡ (exited 127, q)
  unfolding system forked
  system_no_shell fuel cmd p s q in_child e =
      sys_ok (λ x. x ≡ (exited 127, q)) c.fork (forked c fuel cmd) p 0 s in_child
        (ap (go_on (λ _. exit 127)) e)
