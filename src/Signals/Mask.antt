-- ===== src/Signals/Mask.antt =====
-- pr_mask of signals/sig_mask.c: prints the names of the blocked signals.
pub mod Laws
use Prim.Native.String.{◌++◌ as ◌<>◌}
use apue_code.Base.{
  ℕ, String, Bool, false, Option, none, some, List, [], ◌∷◌, Exec, Call, text, die, sys, printf,
  pure, when, if◌then◌else◌, ◌>>=◌, ◌>>◌,
}

-- A test of the source, under an #ifdef or not.
pub data Entry : Type 0 where
  always ifdef : String → Entry

-- The macros of <signal.h>: which are defined, and their numbers.
pub record Headers : Type 0 where
  pub defined : String → Bool
  pub signo : String → ℕ

-- The tests in their order.
abbrev pub entries : List Entry
entries =
    always "SIGABRT"
    ∷ always "SIGALRM"
    ∷ always "SIGBUS"
    ∷ ifdef "SIGCACEL"
    ∷ always "SIGCHLD"
    ∷ always "SIGCONT"
    ∷ ifdef "SIGEMT"
    ∷ always "SIGFPE"
    ∷ ifdef "SIGFREEZE"
    ∷ always "SIGHUP"
    ∷ always "SIGILL"
    ∷ ifdef "SIGINFO"
    ∷ always "SIGINT"
    ∷ always "SIGIO"
    ∷ always "SIGIOT"
    ∷ ifdef "SIGJVM1"
    ∷ ifdef "SIGJVM2"
    ∷ always "SIGKILL"
    ∷ ifdef "SIGLOST"
    ∷ ifdef "SIGLWP"
    ∷ always "SIGPIPE"
    ∷ ifdef "SIGPOLL"
    ∷ always "SIGPROF"
    ∷ ifdef "SIGPWR"
    ∷ always "SIGQUIT"
    ∷ always "SIGSEGV"
    ∷ ifdef "SIGSTKFLT"
    ∷ always "SIGSTOP"
    ∷ always "SIGSYS"
    ∷ always "SIGTERM"
    ∷ ifdef "SIGTHAW"
    ∷ ifdef "SIGTHR"
    ∷ always "SIGTRAP"
    ∷ always "SIGTSTP"
    ∷ always "SIGTTIN"
    ∷ always "SIGTTOU"
    ∷ always "SIGURG"
    ∷ always "SIGUSR1"
    ∷ always "SIGUSR2"
    ∷ always "SIGVTALRM"
    ∷ ifdef "SIGWAITING"
    ∷ always "SIGWINCH"
    ∷ always "SIGXCPU"
    ∷ always "SIGXFSZ"
    ∷ ifdef "SIGXRES"
    ∷ []

-- sigset_t, as sigismember answers.
abbrev pub SigSet : Type 0
SigSet = ℕ → Bool

module _ {S : Type 0} (h : Headers) where
  -- if (sigismember(&mask, SIG...)) printf(" SIG...");
  abbrev pub test : SigSet → String → Exec S (Unit {0})
  test mask name = when (mask (h.signo name)) (printf (text (" " <> name) ∷ []))

  abbrev pub print_entry : SigSet → Entry → Exec S (Unit {0})
  print_entry mask (always name) = test mask name
  print_entry mask (ifdef name) = when (h.defined name) (test mask name)

  pub print_entries : SigSet → List Entry → Exec S (Unit {0})
  print_entries mask [] = pure tt
  print_entries mask (e ∷ es) = print_entry mask e >> print_entries mask es

  -- The two branches behind sigprocmask.
  pub show_mask : String → Option SigSet → Exec S (Unit {0})
  unfolding print_entries
  show_mask str none = die "sigprocmask error"
  show_mask str (some mask) = do
    printf (text str ∷ text ":\n" ∷ [])
    print_entries mask entries
    printf (text "\n" ∷ [])

  -- `get_mask` is sigprocmask(0, NULL, &mask).
  unfoldable pub pr_mask : Call S SigSet → String → Exec S (Unit {0})
  unfolding show_mask
  pr_mask get_mask str = sys get_mask >>= show_mask str

  abbrev pub main : Call S SigSet → Exec S (Unit {0})
  main get_mask = pr_mask get_mask "default signal mask"
