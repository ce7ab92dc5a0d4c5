-- ===== src/Signals/Child.antt =====
-- signals/sigchld.c: what becomes of the exit status of a child whose SIGCHLD is ignored, and whether a
-- handler runs at its installation for a child that has ended before. SIGCHLD is 17, SIGALRM 14.
pub mod Laws
use apue_code.Base.{
  ℕ, zero, suc, ◌+◌, String, Bool, if◌then◌else◌, ◌==◌, Option, none, some, List, [], ◌∷◌, pos,
  Exec, Call, Errno, no_error, eintr, echild, eidrm, other, Line, text, num, error_text, must, sys,
  get_errno, die, emit, stderr, printf, fprintf_err, exit, pure, spin, when, done, Process, Outcome,
  ◌>>=◌, ◌>>◌,
}
use apue_code.Signals.Disposition.{
  Handler, sig_dfl, sig_ign, catch, Action, sa_restart, old_handler,
}

module _ {S : Type 0} (sigaction : ℕ → Action → Call S Action) where
  -- `defined` says whether the headers have SA_RESTART.
  abbrev pub signal : Bool → ℕ → Handler → Call S Handler
  signal defined signo handler s =
      let flags : ℕ = if signo == 14 then 0 else if defined then sa_restart else 0 in
      old_handler sigaction (sigaction signo (record { sa_handler = handler; sa_flags = flags }) s)

-- `install` is Signal; fork gives 0 in the child. `delivered` asks the system whether it delivers a
-- SIGCHLD between the last installation and the last wait.
pub record Calls (S : Type 0) : Type 0 where
  pub install : ℕ → Handler → Call S Handler
  pub fork : Call S ℕ
  pub wait : Call S ℕ
  pub waitid : ℕ → Call S (Unit {0})
  pub delivered : S → Bool × S

abbrev pub sigchld : ℕ
sigchld = 17

abbrev pub ignored_text : ℕ → String
ignored_text zero = "* SIGCHLD: SIG_IGN throw away child exit status\n"
ignored_text (suc n) = "* SIGCHLD: SIG_IGN is equivalent to SIG_DFL\n"

module _ {S : Type 0} (c : Calls S) where
  -- psignal writes the text and the name of the signal to the standard error.
  pub sig_chld : Exec S (Unit {0})
  sig_chld = do
    fprintf_err (text "catch signal: Child exited\n" ∷ [])
    must "wait error" c.wait
    pure tt

  -- What follows a fork of the first loop: a failure, the child, or the next round.
  abbrev pub forked : ℕ → Exec S (Unit {0}) → Option ℕ → Exec S (Unit {0})
  forked i next none = do
    e ← get_errno
    fprintf_err (text "fork#" ∷ num (pos i) ∷ text " error: " ∷ error_text e ∷ text "\n" ∷ [])
    exit 1
  forked i next (some zero) = exit 0
  forked i next (some (suc pid)) = next

  -- The rounds from `i` on, as many as the first argument says.
  pub fork_all : ℕ → ℕ → Exec S (Unit {0})
  fork_all zero i = pure tt
  fork_all (suc n) i = sys c.fork >>= forked i (fork_all n (i + 1))

  abbrev pub counted : Exec S ℕ → ℕ → Option ℕ → Exec S ℕ
  counted next count none = pure count
  counted next count (some pid) = next

  -- while (wait(NULL) >= 0) ++count;
  -- One unit of fuel is one call of wait.
  pub wait_all : ℕ → ℕ → Exec S ℕ
  wait_all zero count = spin
  wait_all (suc fuel) count = sys c.wait >>= counted (wait_all fuel (count + 1)) count

  -- The test of errno behind the loop.
  pub judge : ℕ → Errno → Exec S (Unit {0})
  judge count echild = printf (text (ignored_text count) ∷ [])
  judge count no_error = die "wait error"
  judge count eintr = die "wait error"
  judge count eidrm = die "wait error"
  judge count (other n) = die "wait error"

  abbrev pub ignored_verdict : ℕ → Exec S (Unit {0})
  ignored_verdict count = get_errno >>= judge count

  abbrev pub wait_and_judge : ℕ → Exec S (Unit {0})
  wait_and_judge fuel = wait_all fuel 0 >>= ignored_verdict

  -- The first part of main.
  unfoldable pub ignoring : ℕ → Exec S (Unit {0})
  unfolding fork_all wait_all judge
  ignoring fuel =
      must "Signal(SIGCHLD, SIG_IGN) error" (c.install sigchld sig_ign)
      >> (fork_all 3 0 >> wait_and_judge fuel)

  pub last_error : Errno → Exec S (Unit {0})
  last_error echild =
      printf (text "* SIGCHLD: handler invoked immediately after established\n" ∷ [])
  last_error no_error = die "wait error"
  last_error eintr = die "wait error"
  last_error eidrm = die "wait error"
  last_error (other n) = die "wait error"

  abbrev last_verdict : Option ℕ → Exec S (Unit {0})
  last_verdict none = get_errno >>= last_error
  last_verdict (some pid) =
      printf (text "* SIGCHLD: handler NOT invoked immediately after established\n" ∷ [])

  -- The handler runs if the signal is delivered.
  abbrev handle : Exec S (Unit {0})
  handle p = let x = c.delivered p.kernel in when x.0 sig_chld (record p { kernel = x.1 })

  -- In the parent, behind the last fork.
  abbrev child_ended : ℕ → Exec S (Unit {0})
  child_ended zero = exit 0
  child_ended (suc pid) = do
    must "waitid error" (c.waitid (suc pid))
    must "Signal(SIGCHLD) error" (c.install sigchld (catch "sig_chld"))
    handle
    sys c.wait >>= last_verdict

  -- The second part of main.
  unfoldable pub handling : Exec S (Unit {0})
  unfolding sig_chld last_error
  handling = do
    must "Signal(SIGCHLD, SIG_DFL) error" (c.install sigchld sig_dfl)
    pid ← must "fork error" c.fork
    child_ended pid

  unfoldable pub main : ℕ → Exec S (Unit {0})
  unfolding ignoring handling
  main fuel = ignoring fuel >> handling
