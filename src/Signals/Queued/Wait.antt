-- ===== src/Signals/Queued/Wait.antt =====
-- WAIT_PARENT of sig_queued.c: it ends when the signal has come.
use apue_code.Base.{
  ℕ, zero, suc, ◌≡◌, ◌<◌, refl, Bool, true, false, Call, Process, Outcome, done, ok, sys_skip,
  arith,
}
use apue_code.Signals.Queued.{wait_parent}

-- The state behind a number of sigsuspends.
abbrev behind : {S : Type 0} → Call S (Unit {0}) → ℕ → S → S
behind suspend zero s = s
behind suspend (suc n) s = behind suspend n (suspend s).1

-- Where the n-th sigsuspend is the first behind which sigflag is set, and the mask can be restored, fuel for
-- n + 1 rounds is enough, and WAIT_PARENT returns with sigflag cleared and the mask restored. No signal is
-- waited for if the flag is set before.
wait_parent-returns :
    {S : Type 0} (suspend restore : Call S (Unit {0})) (flag : S → Bool) (clear : S → S)
    (n fuel : ℕ) (p : Process S) (t : S)
    → n < fuel
    → ((k : ℕ) → k < n → flag (behind suspend k p.kernel) ≡ false)
    → flag (behind suspend n p.kernel) ≡ true
    → restore (clear (behind suspend n p.kernel)) ≡ (ok tt, t)
    → let x = wait_parent suspend restore flag clear fuel p in
      (x.0 ≡ done tt) × (x.1.kernel ≡ t) × (x.1.log ≡ p.log)
unfolding wait_parent
wait_parent-returns suspend restore flag clear n zero p t lt unset set r = absurd (omega arith)
wait_parent-returns suspend restore flag clear zero (suc fuel) p t lt unset set r =
    rw (set, wait_parent, r) (refl, refl, refl)
wait_parent-returns {S} suspend restore flag clear (suc n) (suc fuel) p t lt unset set r =
    rw (unset 0 (omega arith), wait_parent)
      (sys_skip P suspend (wait_parent suspend restore flag clear fuel) p (λ e.
        wait_parent-returns suspend restore flag clear n fuel
          (record p { kernel = (suspend p.kernel).1; errno = e }) t (omega arith)
          (λ k h. unset (suc k) (omega arith)) set r))
  where
    P : Outcome (Unit {0}) × Process S → Type 0
    P x = (x.0 ≡ done tt) × (x.1.kernel ≡ t) × (x.1.log ≡ p.log)
