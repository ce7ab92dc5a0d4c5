-- ===== src/Signals/Reset/Laws.antt =====
-- The reset test tells what the system does.
use mathlib.Core.Path.{subst}
use apue_code.Base.{
  ℕ, ◌≡◌, refl, ap, Bool, true, false, if◌then◌else◌, [], ◌∷◌, Result, ok, fail, Process, stdout,
  text, done, Outcome, must_ok, sys_skip, some, String, sys, sys_ok, ◌>>=◌,
}
use apue_code.Signals.Disposition.{Handler, sig_dfl, sig_ign, catch}
use apue_code.Signals.Reset.{
  Calls, Texts, sigusr1, verdict_text, verdict, after_install, reset_test,
}

-- The handler of a signal behind its delivery: a caught one is reset where the system resets.
abbrev pub delivered : Bool → Handler → Handler
delivered resets sig_dfl = sig_dfl
delivered resets sig_ign = sig_ign
delivered resets (catch name) = if resets then sig_dfl else catch name

abbrev pub told : Bool → String
told resets =
    if resets then "* Reset handler after invoked\n" else "* NOT reset handler after invoked\n"

verdict_text-told :
    (resets : Bool) → verdict_text (some (delivered resets (catch "sig_usr1"))) ≡ told resets
verdict_text-told true = refl
verdict_text-told false = refl

module _ {S : Type 0} (c : Calls S) (resets : Bool) (disposition : S → ℕ → Handler) where
  -- A successful installation gives the old handler and sets the new one.
  abbrev pub Installs : ℕ → Handler → S → Result Handler × S → Type 0
  Installs signo h s (ok old, s') = (old ≡ disposition s signo) × (disposition s' signo ≡ h)
  Installs signo h s (fail e, s') = Unit

  module _
      (install_law : (signo : ℕ) (h : Handler) (s : S) → Installs signo h s (c.install signo h s))
      (kill_law : (s : S)
        → disposition (c.kill (c.getpid s) sigusr1 s).1 sigusr1
          ≡ delivered resets (disposition s sigusr1)) where
    -- On a system that sets and gives handlers as sigaction(2) says, where both installations succeed,
    -- the test prints that the handler was reset exactly if the system resets the handler of a signal
    -- that it delivers, and else that it was not.
    reset_test-tells :
        (t : Texts) (p : Process S) (old last : Handler) (s s' : S)
        → c.install sigusr1 (catch "sig_usr1") p.kernel ≡ (ok old, s)
        → c.install sigusr1 sig_dfl (c.kill (c.getpid s) sigusr1 s).1 ≡ (ok last, s')
        → let x = reset_test c t p in
          (x.0 ≡ done tt) × (x.1.log ≡ stdout (text (told resets) ∷ []) ∷ p.log)
    unfolding reset_test after_install
    reset_test-tells t p old last s s' first second =
        must_ok P t.usr1_error (c.install sigusr1 (catch "sig_usr1")) (after_install c) p old s
          first
          (sys_skip P (c.kill (c.getpid s) sigusr1) (sys (c.install sigusr1 sig_dfl) >>= verdict c)
            (record p { kernel = s })
            (λ e.
              sys_ok P (c.install sigusr1 sig_dfl) (verdict c)
                (record p { kernel = (c.kill (c.getpid s) sigusr1 s).1; errno = e }) last s' second
                (refl, ap (λ x. stdout (text x ∷ []) ∷ p.log) said)))
      where
        P : Outcome (Unit {0}) × Process S → Type 0
        P x = (x.0 ≡ done tt) × (x.1.log ≡ stdout (text (told resets) ∷ []) ∷ p.log)

        installed : Installs sigusr1 (catch "sig_usr1") p.kernel (ok old, s)
        installed = subst (Installs sigusr1 (catch "sig_usr1") p.kernel) first (install_law _ _ _)

        read : Installs sigusr1 sig_dfl (c.kill (c.getpid s) sigusr1 s).1 (ok last, s')
        read =
            subst (Installs sigusr1 sig_dfl (c.kill (c.getpid s) sigusr1 s).1) second
              (install_law _ _ _)

        said : verdict_text (some last) ≡ told resets
        said = rw (read.0, kill_law s, installed.1) (verdict_text-told resets)
