-- ===== src/Signals/Nesting/Laws.antt =====
-- The verdict about blocked signals tells what the system does.
use apue_code.Base.{
  ℕ, ◌<◌, ◌≡◌, ◌⊎◌, inl, inr, refl, String, Bool, true, false, if◌then◌else◌, [], ◌∷◌, stdout, text,
  arith, Reach, Reach-keeps,
}
use apue_code.Signals.Nesting.{
  Pc, waiting, asleep, over, died, System, Step, sends, catches, interrupts, install_fails, wakes,
  collects, wait_fails, init, sig_usr2, SigactionRuns, SignalRuns, sigaction_error, signal_error,
}

abbrev pub told : Bool → String
told blocks =
    if blocks
    then "* Prevent received signal while the handler is excuting\n"
    else "* NOT prevent received signal while the handler is excuting\n"

-- What `left_to_sleep` holds behind the handler's sleep.
abbrev IsLeft : Bool → ℕ → Type 0
IsLeft true left = left ≡ 0
IsLeft false left = 0 < left

module _ (blocks : Bool) (install_error : String) where
  abbrev InvAt : Pc → System → Type 0
  InvAt waiting s =
      (s.log ≡ [])
      × (((s.need_sleep ≡ true) × (s.sent ≡ 0) × (s.pending ≡ false))
          ⊎ ((s.need_sleep ≡ true) × (s.sent ≡ 1) × (s.pending ≡ true))
          ⊎ ((s.need_sleep ≡ false) × (s.sent ≡ 2) × IsLeft blocks s.left_to_sleep))
  InvAt asleep s =
      (s.log ≡ [])
      × (s.need_sleep ≡ false)
      × (((s.sent ≡ 1) × (s.pending ≡ false)) ⊎ ((s.sent ≡ 2) × (s.pending ≡ true)))
  InvAt over s = (s.log ≡ stdout (text (told blocks) ∷ []) ∷ []) × (s.sent ≡ 2)
  InvAt died s = Unit

  abbrev Inv : System → Type 0
  Inv s = InvAt s.pc s

  caught :
      (s : System)
      → s.pc ≡ waiting
      → s.pending ≡ true
      → Inv s
      → Inv (sig_usr2 (record s { pending = false }))
  caught s at p i = ground arith

  Step-Inv : (s t : System) → Step blocks true install_error s t → Inv s → Inv t
  Step-Inv s t (sends lt settled) i = ground (arith, settled refl)
  Step-Inv s t (catches at p) i = caught s at p i
  Step-Inv s t (interrupts left at p b pos) i = ground arith
  Step-Inv s t (install_fails e at p) i = tt
  Step-Inv s t (wakes at p long) i = ground (arith, long refl)
  Step-Inv s t (collects at p two) i = ground arith
  Step-Inv s t (wait_fails e at n) i = tt

  told_at_end :
      {s : System}
      → Reach (Step blocks true install_error) init s
      → s.pc ≡ over
      → s.log ≡ stdout (text (told blocks) ∷ []) ∷ []
  told_at_end {s} r at = ground (arith, Reach-keeps Inv Step-Inv start r)
    where
      start : Inv init
      start = ground arith

-- Where the sleeps are long enough, each run of either program in which the parent comes to its verdict
-- prints one line, and says that a signal is prevented while its handler runs exactly if the system
-- blocks it then.
pub Runs-told :
    (blocks : Bool) {s : System}
    → SigactionRuns blocks true s ⊎ SignalRuns blocks true s
    → s.pc ≡ over
    → s.log ≡ stdout (text (told blocks) ∷ []) ∷ []
Runs-told blocks (inl r) at = told_at_end blocks sigaction_error r at
Runs-told blocks (inr r) at = told_at_end blocks signal_error r at
