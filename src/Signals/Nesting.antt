-- ===== src/Signals/Nesting.antt =====
-- main and sig_usr2 of signals/sigaction_semantics.c and signals/signal_semantics.c: whether a signal is
-- blocked while its handler runs. The child sends SIGUSR2 twice; the handler of the parent sleeps.
pub mod Laws
use apue_code.Base.{
  ℕ, zero, suc, ◌+◌, ◌<◌, ◌≡◌, ◌≢◌, ◌⊎◌, String, Bool, if◌then◌else◌, true, false, List, [], ◌∷◌,
  Errno, eintr, Line, stdout, perror_line, text, Reach,
}

-- Where the parent stands: in the loop of waitpid, in the sleep of its handler, or at its end behind
-- the verdict or a failed call.
pub data Pc : Type 0 where
  waiting asleep over died : Pc

-- `sent` is how many signals the child has sent; behind the second it ends.
pub record System : Type 0 where
  pub pc : Pc
  pub need_sleep : Bool
  pub left_to_sleep : ℕ
  pub pending : Bool
  pub sent : ℕ
  pub log : List Line

-- The child's sleep(2) lets the parent come to the sleep of its handler.
abbrev pub IsSettled : System → Type 0
IsSettled s = (s.pending ≡ false) × (s.sent ≡ 1 → s.pc ≡ asleep)

abbrev pub verdict_text : ℕ → String
verdict_text zero = "* Prevent received signal while the handler is excuting\n"
verdict_text (suc left) = "* NOT prevent received signal while the handler is excuting\n"

-- The handler up to its sleep, where it has one.
abbrev pub sig_usr2 : System → System
sig_usr2 s = if s.need_sleep then record s { need_sleep = false; pc = asleep } else s

-- `blocks` says whether the system blocks a signal while its handler runs, `install_error` is the
-- text of the handler for a failed installation. Where `timely` holds, the child's sleep lasts until
-- the parent sleeps in its handler, and that sleep lasts until the child has sent its second signal.
pub data Step (blocks timely : Bool) (install_error : String) (s : System) : System → Type 0 where
  sends :
      s.sent < 2
      → (timely ≡ true → IsSettled s)
      → Step blocks timely install_error s (record s { sent = s.sent + 1; pending = true })
  catches :
      s.pc ≡ waiting
      → s.pending ≡ true
      → Step blocks timely install_error s (sig_usr2 (record s { pending = false }))
  -- sig_usr2 within the sleep, which ends with some seconds left
  interrupts :
      (left : ℕ)
      → s.pc ≡ asleep
      → s.pending ≡ true
      → blocks ≡ false
      → 0 < left
      → Step blocks timely install_error s
          (record s { pending = false; left_to_sleep = left; pc = waiting })
  install_fails :
      (e : Errno)
      → (s.pc ≡ waiting) ⊎ ((s.pc ≡ asleep) × (blocks ≡ false))
      → s.pending ≡ true
      → Step blocks timely install_error s
          (record s { pc = died; log = perror_line install_error e ∷ s.log })
  wakes :
      s.pc ≡ asleep
      → (s.pending ≡ false) ⊎ (blocks ≡ true)
      → (timely ≡ true → s.sent ≡ 2)
      → Step blocks timely install_error s (record s { left_to_sleep = 0; pc = waiting })
  -- waitpid finds the child at its end; a call that fails with EINTR is made again
  collects :
      s.pc ≡ waiting
      → s.pending ≡ false
      → s.sent ≡ 2
      → Step blocks timely install_error s
          (record s { pc = over; log = stdout (text (verdict_text s.left_to_sleep) ∷ []) ∷ s.log })
  wait_fails :
      (e : Errno)
      → s.pc ≡ waiting
      → e ≢ eintr
      → Step blocks timely install_error s
          (record s { pc = died; log = perror_line "waitpid error" e ∷ s.log })

abbrev pub init : System
init = record {
  pc = waiting;
  need_sleep = true;
  left_to_sleep = 5;
  pending = false;
  sent = 0;
  log = [];
}

abbrev pub sigaction_error : String
sigaction_error = "Signal(SIGUSR2) error"

abbrev pub signal_error : String
signal_error = "signal(SIGUSR2) error"

-- The two programs, from the fork on.
abbrev pub SigactionRuns : Bool → Bool → System → Type 0
SigactionRuns blocks timely = Reach (Step blocks timely sigaction_error) init

abbrev pub SignalRuns : Bool → Bool → System → Type 0
SignalRuns blocks timely = Reach (Step blocks timely signal_error) init
