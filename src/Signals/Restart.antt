-- ===== src/Signals/Restart.antt =====
-- The second half of main in signals/sigaction_semantics.c and signals/signal_semantics.c: whether a
-- blocked read goes on after a caught signal. Signal numbers are those of Linux.
pub mod Flags
pub mod Laws
use apue_code.Base.{
  ℕ, zero, suc, String, Bool, Option, none, some, List, [], ◌∷◌, Exec, Call, text, Errno, no_error,
  eintr, echild, eidrm, other, must, sys, get_errno, die, printf, fprintf_err, exit, pure, ◌>>=◌,
  ◌>>◌,
}
use apue_code.Signals.Disposition.{Handler, catch, Action, signal, signal_r}

-- The calls of the two programs.
pub record Calls (S : Type 0) : Type 0 where
  pub pipe : Call S (ℕ × ℕ)
  pub fork : Call S ℕ
  pub getppid : S → ℕ
  pub kill : ℕ → ℕ → Call S (Unit {0})
  pub sleep : ℕ → Call S ℕ
  pub close : ℕ → Call S (Unit {0})
  pub write : ℕ → String → Call S ℕ
  pub read : ℕ → ℕ → Call S ℕ

-- What the copies of the section differ in.
pub record Section (S : Type 0) : Type 0 where
  pub install : Call S Handler
  pub install_error : String
  pub signo : ℕ
  pub not_restarted : String
  pub restarted : String

module _ {S : Type 0} (c : Calls S) (t : Section S) where
  abbrev pub kill_parent : Exec S (Option (Unit {0}))
  kill_parent p = sys (c.kill (c.getppid p.kernel) t.signo) p

  -- The branch for the child, which returns from main.
  pub child : ℕ × ℕ → Exec S (Unit {0})
  child (r, w) = do sys (c.close r); sys (c.sleep 2); kill_parent; sys (c.write w "a"); exit 0

  -- The branch where errno is tested.
  pub not_read : ℕ → Errno → Exec S (Unit {0})
  not_read r eintr = do printf (text t.not_restarted ∷ []); sys (c.close r); pure tt
  not_read r no_error = die "read error"
  not_read r echild = die "read error"
  not_read r eidrm = die "read error"
  not_read r (other n) = die "read error"

  pub answered : ℕ → Option ℕ → Exec S (Unit {0})
  unfolding not_read
  answered r none = get_errno >>= not_read r
  answered r (some zero) = do fprintf_err (text "child process occurred unknown error" ∷ []); exit 1
  answered r (some (suc n)) = do printf (text t.restarted ∷ []); sys (c.close r); pure tt

  pub parent : ℕ × ℕ → Exec S (Unit {0})
  unfolding answered
  parent (r, w) = sys (c.close w) >> (sys (c.read r 1) >>= answered r)

  pub forked : ℕ × ℕ → ℕ → Exec S (Unit {0})
  unfolding child parent
  forked fd zero = child fd
  forked fd (suc pid) = parent fd

  pub piped : ℕ × ℕ → Exec S (Unit {0})
  unfolding forked
  piped fd = must "fork error" c.fork >>= forked fd

  pub installed : Handler → Exec S (Unit {0})
  unfolding piped
  installed old = must "pipe error" c.pipe >>= piped

  unfoldable pub section : Exec S (Unit {0})
  unfolding installed
  section = must t.install_error t.install >>= installed

module _ {S : Type 0} (c : Calls S) where
  unfoldable pub sections : List (Section S) → Exec S (Unit {0})
  sections [] = pure tt
  sections (t ∷ ts) = section c t >> sections ts

module _ {S : Type 0} where
  -- `defined` says whether the headers have SA_RESTART.
  abbrev pub sigaction_table : (ℕ → Action → Call S Action) → Bool → List (Section S)
  sigaction_table sigaction defined =
      record {
        install = signal sigaction 14 (catch "sig_alrm");
        install_error = "Signal(SIGALRM) error";
        signo = 14;
        not_restarted = "* [DEFAULT] SIGALRM: blocking system calls NOT automatically restart\n";
        restarted = "* [DEFAULT] SIGALRM: blocking system calls automatically restart\n";
      }
      ∷ record {
        install = signal sigaction 10 (catch "sig_usr1");
        install_error = "Signal(SIGUSR1) error";
        signo = 10;
        not_restarted = "* [DEFAULT] OTHER:   blocking system calls NOT automatically restart\n";
        restarted = "* [DEFAULT] OTHER:   blocking system calls automatically restart\n";
      }
      ∷ record {
        install = signal_r sigaction defined 14 (catch "sig_alrm");
        install_error = "Signal_r(SIGALRM) error";
        signo = 14;
        not_restarted = "* [RESTART] SIGALRM: blocking system calls NOT automatically restart\n";
        restarted = "* [RESTART] SIGALRM: blocking system calls automatically restart\n";
      }
      ∷ record {
        install = signal_r sigaction defined 10 (catch "sig_usr1");
        install_error = "Signal_r(SIGUSR1) error";
        signo = 10;
        not_restarted = "* [RESTART] OTHER:   blocking system calls NOT automatically restart\n";
        restarted = "* [RESTART] OTHER:   blocking system calls automatically restart\n";
      }
      ∷ []

  -- Of signal_semantics.c, which calls signal of the C library.
  abbrev pub signal_table : (ℕ → Handler → Call S Handler) → List (Section S)
  signal_table libc_signal =
      record {
        install = libc_signal 14 (catch "sig_alrm");
        install_error = "signal(SIGALRM) error";
        signo = 14;
        not_restarted = "* Signal SIGALRM: blocking system calls NOT automatically restart:\n";
        restarted = "* Signal SIGALRM: blocking system calls automatically restart\n";
      }
      ∷ record {
        install = libc_signal 10 (catch "sig_usr1");
        install_error = "signal(SIGUSR1) error";
        signo = 10;
        not_restarted = "* Signal other:   blocking system calls NOT automatically restart\n";
        restarted = "* Signal OTHER:   blocking system calls automatically restart\n";
      }
      ∷ []

  abbrev pub sigaction_restart : Calls S → (ℕ → Action → Call S Action) → Bool → Exec S (Unit {0})
  sigaction_restart c sigaction defined = sections c (sigaction_table sigaction defined)

  abbrev pub signal_restart : Calls S → (ℕ → Handler → Call S Handler) → Exec S (Unit {0})
  signal_restart c libc_signal = sections c (signal_table libc_signal)
