-- ===== src/Signals/Queued/Laws.antt =====
-- The verdict of sig_queued.c does not tell whether the system queues signals.
use apue_code.Base.{
  ℕ, zero, suc, ◌≢◌, ◌+◌, ◌<◌, ◌≡◌, ◌⊎◌, refl, Bool, true, false, [], ◌∷◌, stdout, text, arith,
  Reach, Reach-keeps,
}
use apue_code.Signals.Queued.{
  IsOpen, arrive, Pc, sleeping, checking, suspended, awake, over, died, System, Step, kills, tells,
  times_out, catches, waits, WaitStep, suspends, flags, restores, restore_fails, prints, init,
}

-- With the sleeps long enough: the signals are counted one by one.
abbrev InvAt : Pc → System → Type 0
InvAt sleeping s =
    (s.log ≡ [])
    × (s.sigcount ≡ 0)
    × (s.quits ≡ s.sent)
    × (s.sent < 2)
    × (s.waitflag ≡ true)
    × (s.sigflag ≡ false)
    × (s.usr ≡ false)
InvAt checking s =
    (s.log ≡ [])
    × (s.waitflag ≡ false)
    × (s.quits ≡ 0)
    × (s.usr ≡ false)
    × (((s.sigflag ≡ false) × (s.sigcount ≡ s.sent) × (0 < s.sent) × (s.sent < 5))
        ⊎ ((s.sigflag ≡ true) × (s.sigcount ≡ 4) × (s.sent ≡ 5)))
InvAt suspended s =
    (s.log ≡ [])
    × (s.waitflag ≡ false)
    × (s.sigflag ≡ false)
    × (s.quits < 2)
    × (0 < s.sent)
    × (((s.usr ≡ false) × (s.sigcount + s.quits ≡ s.sent) × (s.sent < 5))
        ⊎ ((s.usr ≡ true) × (s.quits ≡ 0) × (s.sigcount ≡ 4) × (s.sent ≡ 5)))
InvAt awake s = (s.log ≡ []) × (s.sigcount ≡ 4) × (s.quits ≡ 0) × (s.sent ≡ 5)
InvAt over s = (s.log ≡ stdout (text "Signal is queued\n" ∷ []) ∷ []) × (s.sent ≡ 5)
InvAt died s = s.sent ≡ 5

abbrev Inv : System → Type 0
Inv s = InvAt s.pc s

-- Where SIGQUIT is not blocked and the parent can do nothing, none is pending.
none_pending : {A : Type 0} {n : ℕ} → A → ¬ (A × (0 < n)) → n ≡ 0
none_pending {n = zero} a h = refl
none_pending {n = suc n} a h = absurd (h (a, omega arith))

WaitStep-Inv : (s t : System) → WaitStep s t → Inv s → Inv t
WaitStep-Inv s t (suspends at f) i = ground arith
WaitStep-Inv s t (restores at f) i = ground arith
WaitStep-Inv s t (restore_fails e at f) i = ground arith

module _ (queues : Bool) where
  kills-Inv :
      (pc : Pc) (s : System)
      → s.sent < 4
      → (pc ≢ checking) × ¬ (IsOpen pc × (0 < s.quits))
      → InvAt pc s
      → InvAt pc (record s { sent = s.sent + 1; quits = arrive queues s.quits })
  kills-Inv sleeping s lt (n, still) i = ground (arith, none_pending tt still)
  kills-Inv checking s lt (n, still) i = absurd (n refl)
  kills-Inv suspended s lt (n, still) i = ground (arith, none_pending tt still)
  kills-Inv awake s lt (n, still) i = ground arith
  kills-Inv over s lt (n, still) i = ground arith
  kills-Inv died s lt (n, still) i = ground arith

  tells-Inv :
      (pc : Pc) (s : System)
      → s.sent ≡ 4
      → (pc ≢ checking) × ¬ (IsOpen pc × (0 < s.quits))
      → InvAt pc s
      → InvAt pc (record s { sent = 5; usr = true })
  tells-Inv sleeping s four (n, still) i = ground arith
  tells-Inv checking s four (n, still) i = absurd (n refl)
  tells-Inv suspended s four (n, still) i = ground (arith, none_pending tt still)
  tells-Inv awake s four (n, still) i = ground arith
  tells-Inv over s four (n, still) i = ground arith
  tells-Inv died s four (n, still) i = ground arith

  Step-Inv : (s t : System) → Step queues true s t → Inv s → Inv t
  Step-Inv s t (kills lt settled) i = kills-Inv s.pc s lt (settled refl) i
  Step-Inv s t (tells four settled) i = tells-Inv s.pc s four (settled refl) i
  Step-Inv s t (times_out at late) i = cc
  Step-Inv s t (catches open_at some_quit) i = ground arith
  Step-Inv s t (waits st) i = WaitStep-Inv s t st i
  Step-Inv s t (flags at u) i = ground arith
  Step-Inv s t (prints at n) i = ground arith

  -- Where the sleeps are so long that before each signal the parent has come to a wait with no unblocked
  -- SIGQUIT pending, each run in which the parent comes to its verdict says that signals are queued, on a
  -- system that queues them and on one that does not.
  pub Runs-queued :
      {s : System}
      → Reach (Step queues true) init s
      → s.pc ≡ over
      → s.log ≡ stdout (text "Signal is queued\n" ∷ []) ∷ []
  Runs-queued {s} r at = ground (arith, Reach-keeps Inv Step-Inv start r)
    where
      start : Inv init
      start = ground arith
