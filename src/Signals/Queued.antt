-- ===== src/Signals/Queued.antt =====
-- signals/sig_queued.c: whether signals are queued. The child sends SIGQUIT four times and then SIGUSR2;
-- the handler of the parent counts, and at its first call waits for SIGUSR2.
pub mod Laws
pub mod Wait
use apue_code.Base.{
  spin, sys, ℕ, zero, suc, ◌+◌, ◌-◌, ◌<◌, ◌≡◌, ◌≢◌, ◌⊎◌, String, Bool, true, false, if◌then◌else◌,
  ◌==◌, List, [], ◌∷◌, pos, num, Errno, Exec, Call, must, pure, Line, stdout, perror_line, text,
  Reach, ◌>>=◌, ◌>>◌,
}
use apue_code.Signals.Disposition.{Handler, catch, Action, old_handler}

-- Signal, for headers without SA_INTERRUPTER and SA_RESTART; with one of them it does not compile, for
-- struct sigaction has no member act_flags.
module _ {S : Type 0} (sigaction : ℕ → Action → Call S Action) where
  abbrev pub signal : ℕ → Handler → Call S Handler
  signal signo handler s =
      old_handler sigaction (sigaction signo (record { sa_handler = handler; sa_flags = 0 }) s)

-- TELL_CHILD and TELL_PARENT, whose results are not tested.
module _ {S : Type 0} (kill : ℕ → ℕ → Call S (Unit {0})) where
  abbrev pub tell_child : ℕ → Exec S (Unit {0})
  tell_child pid = sys (kill pid 10) >> pure tt

  abbrev pub tell_parent : ℕ → Exec S (Unit {0})
  tell_parent pid = sys (kill pid 12) >> pure tt

-- TELL_WAIT: SIGUSR1 is 10, SIGUSR2 is 12, and both are blocked.
module _ {S : Type 0} (install : ℕ → Handler → Call S Handler)
    (block : List ℕ → Call S (Unit {0})) where
  unfoldable pub tell_wait : Exec S (Unit {0})
  tell_wait = do
    must "Signal(SIGUSR1) error" (install 10 (catch "sig_usr"))
    must "Signal(SIGUSR2) error" (install 12 (catch "sig_usr"))
    must "SIG_BLOCK error" (block (10 ∷ 12 ∷ []))

-- WAIT_PARENT, which nothing calls: WAIT_CHILD, whose steps are below, has the same lines. `suspend` is
-- sigsuspend(&zeromask), `flag` and `clear` read sigflag and set it to 0, and `restore` is sigprocmask
-- with `omask`.
module _ {S : Type 0} (suspend restore : Call S (Unit {0})) (flag : S → Bool) (clear : S → S) where
  unfoldable pub wait_parent : ℕ → Exec S (Unit {0})
  wait_parent zero p = spin p
  wait_parent (suc fuel) p = elim (flag p.kernel) [
    | true ↦ must "SIG_SETMASK error" restore (record p { kernel = clear p.kernel })
    | false ↦ (sys suspend >> wait_parent fuel) p
  ]

-- Where the parent stands: in sleep(5) of main, in WAIT_CHILD at its test or in sigsuspend, behind
-- the sleep, and at its end.
pub data Pc : Type 0 where
  sleeping checking suspended awake over died : Pc

-- `quits` and `usr` are the signals that are pending, `sent` is how many the child has sent.
pub record System : Type 0 where
  pub pc : Pc
  pub sigcount : ℕ
  pub waitflag : Bool
  pub sigflag : Bool
  pub quits : ℕ
  pub usr : Bool
  pub sent : ℕ
  pub log : List Line

-- The pending SIGQUITs when one more arrives, on a system that queues them or not.
abbrev pub arrive : Bool → ℕ → ℕ
arrive queues n = if queues then n + 1 else 1

-- The rest of main in the parent behind its sleep.
abbrev pub verdict : ℕ → List Line → List Line
verdict count log =
    if count == 2
    then stdout (text "Signal is NOT queued\n" ∷ []) ∷ log
    else if count == 4
    then stdout (text "Signal is queued\n" ∷ []) ∷ log
    else stdout (text "sigcount: " ∷ num (pos count) ∷ text "\n" ∷ [])
      ∷ stdout (text "Unknown error in handler\n" ∷ [])
      ∷ log

-- Where a handler that only counts comes back to: it ends a sleep and a sigsuspend.
abbrev pub resumed : Pc → Pc
resumed sleeping = awake
resumed suspended = checking
resumed checking = checking
resumed awake = awake
resumed over = over
resumed died = died

-- Where SIGQUIT is not blocked. Within its own handler it is blocked, but sigsuspend(&zeromask) lifts
-- all blocks while it waits.
abbrev pub IsOpen : Pc → Type 0
IsOpen sleeping = Unit
IsOpen suspended = Unit
IsOpen awake = Unit
IsOpen checking = ⊥
IsOpen over = ⊥
IsOpen died = ⊥

-- The child's sleep(1) lets the parent do what it can: it stands in one of its own waits, and no SIGQUIT
-- is pending that is not blocked there.
abbrev pub IsSettled : System → Type 0
IsSettled s = (s.pc ≢ checking) × ¬ (IsOpen s.pc × (0 < s.quits))

-- sig_quit up to WAIT_CHILD, if it is called, and else as a whole.
abbrev pub sig_quit : System → System
sig_quit s =
    if s.waitflag
    then record s {
      quits = s.quits - 1;
      sigcount = s.sigcount + 1;
      waitflag = false;
      pc = checking;
    }
    else record s { quits = s.quits - 1; sigcount = s.sigcount + 1; pc = resumed s.pc }

-- It ends the sigsuspend.
abbrev pub sig_usr : System → System
sig_usr s = record s { usr = false; sigflag = true; pc = checking }

-- A step of WAIT_CHILD.
pub data WaitStep (s : System) : System → Type 0 where
  suspends : s.pc ≡ checking → s.sigflag ≡ false → WaitStep s (record s { pc = suspended })
  restores :
      s.pc ≡ checking → s.sigflag ≡ true → WaitStep s (record s { sigflag = false; pc = awake })
  restore_fails :
      (e : Errno)
      → s.pc ≡ checking
      → s.sigflag ≡ true
      → WaitStep s
          (record s { sigflag = false; pc = died; log = perror_line "SIG_SETMASK error" e ∷ s.log })

-- Where `timely` holds, the sleeps of the two are long enough.
pub data Step (queues timely : Bool) (s : System) : System → Type 0 where
  kills :
      s.sent < 4
      → (timely ≡ true → IsSettled s)
      → Step queues timely s (record s { sent = s.sent + 1; quits = arrive queues s.quits })
  -- TELL_PARENT
  tells :
      s.sent ≡ 4
      → (timely ≡ true → IsSettled s)
      → Step queues timely s (record s { sent = 5; usr = true })
  times_out : s.pc ≡ sleeping → timely ≡ false → Step queues timely s (record s { pc = awake })
  catches : IsOpen s.pc → 0 < s.quits → Step queues timely s (sig_quit s)
  waits : {t : System} → WaitStep s t → Step queues timely s t
  flags : s.pc ≡ suspended → s.usr ≡ true → Step queues timely s (sig_usr s)
  prints :
      s.pc ≡ awake
      → s.quits ≡ 0
      → Step queues timely s (record s { pc = over; log = verdict s.sigcount s.log })

abbrev pub init : System
init = record {
  pc = sleeping;
  sigcount = 0;
  waitflag = true;
  sigflag = false;
  quits = 0;
  usr = false;
  sent = 0;
  log = [];
}
