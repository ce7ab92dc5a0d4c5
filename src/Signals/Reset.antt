-- ===== src/Signals/Reset.antt =====
-- The start of main in signals/sigaction_semantics.c and signals/signal_semantics.c: whether a caught
-- signal resets its handler.
pub mod Laws
use apue_code.Base.{
  ℕ, String, Option, none, some, List, [], ◌∷◌, Exec, Call, text, must, sys, printf, pure, ◌>>=◌,
  ◌>>◌,
}
use package.text.Mathlib.Text.{◌==◌ as str_eq}
use apue_code.Base.{if◌then◌else◌}
use apue_code.Signals.Disposition.{Handler, sig_dfl, sig_ign, catch}

-- `install` is Signal or signal; getpid does not fail.
pub record Calls (S : Type 0) : Type 0 where
  pub install : ℕ → Handler → Call S Handler
  pub kill : ℕ → ℕ → Call S (Unit {0})
  pub getpid : S → ℕ

-- What the two sources differ in: the name of the function in their messages.
pub record Texts : Type 0 where
  pub usr1_error : String

abbrev pub sigaction_texts : Texts
sigaction_texts = record { usr1_error = "Signal(SIGUSR1) error" }

abbrev pub signal_texts : Texts
signal_texts = record { usr1_error = "signal(SIGUSR1) error" }

abbrev pub sigusr1 : ℕ
sigusr1 = 10

abbrev pub verdict_text : Option Handler → String
verdict_text none = "* UNKNOWN whether reset handler after invoked\n"
verdict_text (some sig_dfl) = "* Reset handler after invoked\n"
verdict_text (some sig_ign) = "* UNKNOWN whether reset handler after invoked\n"
verdict_text (some (catch name)) =
    if str_eq name "sig_usr1"
    then "* NOT reset handler after invoked\n"
    else "* UNKNOWN whether reset handler after invoked\n"

module _ {S : Type 0} (c : Calls S) where
  abbrev kill_self : Exec S (Option (Unit {0}))
  kill_self p = sys (c.kill (c.getpid p.kernel) sigusr1) p

  -- `none` is SIG_ERR, which is neither SIG_DFL nor sig_usr1.
  abbrev pub verdict : Option Handler → Exec S (Unit {0})
  verdict handler = printf (text (verdict_text handler) ∷ [])

  -- Behind the first installation.
  pub after_install : Handler → Exec S (Unit {0})
  after_install old = kill_self >> (sys (c.install sigusr1 sig_dfl) >>= verdict)

  unfoldable pub reset_test : Texts → Exec S (Unit {0})
  unfolding after_install
  reset_test t = must t.usr1_error (c.install sigusr1 (catch "sig_usr1")) >>= after_install

  abbrev pub sigaction_reset_test : Exec S (Unit {0})
  sigaction_reset_test = reset_test sigaction_texts

  abbrev pub signal_reset_test : Exec S (Unit {0})
  signal_reset_test = reset_test signal_texts
