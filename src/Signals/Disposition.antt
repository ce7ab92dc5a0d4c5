-- ===== src/Signals/Disposition.antt =====
-- Signal and Signal_r of signals/sigaction_semantics.c.
use apue_code.Base.{ℕ, String, Bool, if◌then◌else◌, ok, fail, Result, Call}

-- SIG_DFL, SIG_IGN, or a function of the program, by its name.
pub data Handler : Type 0 where
  sig_dfl sig_ign : Handler
  catch : String → Handler

-- struct sigaction; its mask is always empty here.
pub record Action : Type 0 where
  pub sa_handler : Handler
  pub sa_flags : ℕ

abbrev pub sa_restart : ℕ
sa_restart = 0x10000000

module _ {S : Type 0} (sigaction : ℕ → Action → Call S Action) where
  -- `return oact.sa_handler;` or `return SIG_ERR;`
  abbrev pub old_handler : Result Action × S → Result Handler × S
  old_handler (ok oact, s) = (ok oact.sa_handler, s)
  old_handler (fail e, s) = (fail e, s)

  abbrev pub signal : ℕ → Handler → Call S Handler
  signal signo handler s =
      old_handler (sigaction signo (record { sa_handler = handler; sa_flags = 0 }) s)

  -- `defined` says whether the headers have SA_RESTART.
  abbrev pub signal_r : Bool → ℕ → Handler → Call S Handler
  signal_r defined signo handler s = old_handler (
      sigaction signo
        (record { sa_handler = handler; sa_flags = if defined then sa_restart else 0 }) s)
