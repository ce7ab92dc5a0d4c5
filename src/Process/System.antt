-- ===== src/Process/System.antt =====
-- process_control/system.c: `system` without signal handling, and the main that calls it three times.
pub mod Laws
use apue_code.Base.{
  ℕ, zero, suc, String, Bool, true, false, Option, none, some, List, [], ◌∷◌, ℤ, pos, negsuc, Errno,
  eintr, Exec, Call, Result, sys, get_errno, exit, exit_failure, pure, spin, die, ◌>>=◌, ◌>>◌,
}
use apue_code.Process.Status.{pr_exit}

-- fork gives 0 in the child and the child's number in the parent. execl is a program of its own: it
-- runs the new image to its end, or comes back if that cannot be started.
pub record Children (S : Type 0) : Type 0 where
  pub fork : Call S ℕ
  pub waitpid : ℕ → Call S ℕ
  pub execl : String → List String → Exec S (Unit {0})

abbrev pub is_eintr : Errno → Bool
is_eintr eintr = true
is_eintr e = false

module _ {S : Type 0} (c : Children S) where
  -- if (errno != EINTR) { status = -1; break; }
  abbrev pub retry : Exec S ℤ → Errno → Exec S ℤ
  retry next e = elim (is_eintr e) [ true ↦ next | false ↦ pure (negsuc 0) ]

  abbrev pub check_wait : Exec S ℤ → Option ℕ → Exec S ℤ
  check_wait next none = get_errno >>= retry next
  check_wait next (some status) = pure (pos status)

  -- while (waitpid(pid, &status, 0) < 0) ... return status;
  -- One unit of fuel is one call of waitpid.
  pub wait_status : ℕ → ℕ → Exec S ℤ
  wait_status pid zero = spin
  wait_status pid (suc fuel) = sys (c.waitpid pid) >>= check_wait (wait_status pid fuel)

  -- What follows fork, in the parent and in the child.
  pub forked : ℕ → String → Option ℕ → Exec S ℤ
  unfolding wait_status
  forked fuel cmd none = pure (negsuc 0)
  forked fuel cmd (some zero) = c.execl "/bin/bash" ("bash" ∷ "-c" ∷ cmd ∷ []) >> exit 127
  forked fuel cmd (some (suc n)) = wait_status (suc n) fuel

  -- `none` is the null pointer.
  unfoldable pub system : ℕ → Option String → Exec S ℤ
  unfolding forked
  system fuel none = pure (pos 1)
  system fuel (some cmd) = sys c.fork >>= forked fuel cmd

  -- if ((status = system(...)) < 0) { ... } pr_exit(status);
  abbrev report : String → ℤ → Exec S (Unit {0})
  report message (pos status) = pr_exit status
  report message (negsuc n) = die message

  unfoldable pub main : ℕ → Exec S (Unit {0})
  unfolding system
  main fuel = do
    status ← system fuel (some "date")
    report "#1 system() error" status
    status ← system fuel (some "nosuchcommand")
    report "#2 system() error" status
    status ← system fuel (some "who; exit 44")
    report "#3 system() error" status
