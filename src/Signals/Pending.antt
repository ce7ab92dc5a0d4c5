-- ===== src/Signals/Pending.antt =====
-- signals/sigpending.c: a signal that arrives while it is blocked is reported, and delivered behind the
-- unblocking. The signal may arrive at any time; one that is not blocked is delivered before the next
-- step of main.
pub mod Laws
use apue_code.Base.{
  ℕ, ◌==◌, ◌≡◌, String, Bool, true, false, List, [], ◌∷◌, Errno, Line, stdout, perror_line, text,
  if◌then◌else◌, Call, Reach,
}
use apue_code.Signals.Disposition.{Handler, sig_dfl, catch, Action, sa_restart, old_handler}

module _ {S : Type 0} (sigaction : ℕ → Action → Call S Action) where
  -- `defined` says whether the headers have SA_RESTART; SIGALRM is 14.
  abbrev pub signal : Bool → ℕ → Handler → Call S Handler
  signal defined signo handler s =
      let flags : ℕ = if signo == 14 then 0 else if defined then sa_restart else 0 in
      old_handler sigaction (sigaction signo (record { sa_handler = handler; sa_flags = flags }) s)

-- The next call of main, or how the process has ended: by a return, by the signal, or by exit(1).
pub data Pc : Type 0 where
  installing blocking first_sleep checking unblocking telling last_sleep returned killed failed : Pc

-- What the system knows of SIGQUIT, the program's `pendmask`, and what was printed.
pub record System : Type 0 where
  pub pc : Pc
  pub handler : Handler
  pub blocked : Bool
  pub pending : Bool
  pub pendmask : Bool
  pub log : List Line

abbrev pub IsAlive : Pc → Type 0
IsAlive returned = ⊥
IsAlive killed = ⊥
IsAlive failed = ⊥
IsAlive installing = Unit
IsAlive blocking = Unit
IsAlive first_sleep = Unit
IsAlive checking = Unit
IsAlive unblocking = Unit
IsAlive telling = Unit
IsAlive last_sleep = Unit

-- No signal is to be delivered.
abbrev pub IsQuiet : System → Type 0
IsQuiet s = s.pending ≡ true → s.blocked ≡ true

abbrev pub fails_with : System → String → Errno → System
fails_with s message e = record s { pc = failed; log = perror_line message e ∷ s.log }

abbrev pub reported : Bool → List Line → List Line
reported pending log = if pending then stdout (text "SIGQUIT is pending\n" ∷ []) ∷ log else log

-- The handler, which sets the default again.
abbrev pub sig_quit : System → System
sig_quit s = record s { handler = sig_dfl; log = stdout (text "catch SIGQUIT\n" ∷ []) ∷ s.log }

pub data Step (s : System) : System → Type 0 where
  arrives : IsAlive s.pc → Step s (record s { pending = true })
  kills :
      IsAlive s.pc
      → s.pending ≡ true
      → s.blocked ≡ false
      → s.handler ≡ sig_dfl
      → Step s (record s { pending = false; pc = killed })
  catches :
      IsAlive s.pc
      → s.pending ≡ true
      → s.blocked ≡ false
      → s.handler ≡ catch "sig_quit"
      → Step s (sig_quit (record s { pending = false }))
  catch_fails :
      (e : Errno)
      → IsAlive s.pc
      → s.pending ≡ true
      → s.blocked ≡ false
      → s.handler ≡ catch "sig_quit"
      → Step s (record s {
        pending = false;
        pc = failed;
        log =
            perror_line "Signal(SIGQUIT, SIG_DFL) error" e
            ∷ stdout (text "catch SIGQUIT\n" ∷ [])
            ∷ s.log;
      })
  installs :
      s.pc ≡ installing
      → IsQuiet s
      → Step s (record s { pc = blocking; handler = catch "sig_quit" })
  install_fails :
      (e : Errno) → s.pc ≡ installing → IsQuiet s → Step s (fails_with s "Signal(SIGQUIT) error" e)
  blocks : s.pc ≡ blocking → IsQuiet s → Step s (record s { pc = first_sleep; blocked = true })
  block_fails :
      (e : Errno) → s.pc ≡ blocking → IsQuiet s → Step s (fails_with s "sigprocmask#1 error" e)
  sleeps : s.pc ≡ first_sleep → IsQuiet s → Step s (record s { pc = checking })
  checks :
      s.pc ≡ checking
      → IsQuiet s
      → Step s (record s { pc = unblocking; pendmask = s.pending; log = reported s.pending s.log })
  check_fails :
      (e : Errno) → s.pc ≡ checking → IsQuiet s → Step s (fails_with s "sigpending error" e)
  unblocks : s.pc ≡ unblocking → IsQuiet s → Step s (record s { pc = telling; blocked = false })
  unblock_fails :
      (e : Errno) → s.pc ≡ unblocking → IsQuiet s → Step s (fails_with s "sigprocmask#2 error" e)
  tells :
      s.pc ≡ telling
      → IsQuiet s
      → Step s
          (record s { pc = last_sleep; log = stdout (text "SIGQUIT unblocked\n" ∷ []) ∷ s.log })
  returns : s.pc ≡ last_sleep → IsQuiet s → Step s (record s { pc = returned })

-- At the start of main the signal has its default and is not blocked.
abbrev pub init : System
init = record {
  pc = installing;
  handler = sig_dfl;
  blocked = false;
  pending = false;
  pendmask = false;
  log = [];
}

abbrev pub Runs : System → Type 0
Runs = Reach Step init
