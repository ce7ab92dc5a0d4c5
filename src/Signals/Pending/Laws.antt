-- ===== src/Signals/Pending/Laws.antt =====
-- sigpending.c: the report, the handler and the unblocking come in this order.
use apue_code.Base.{◌≡◌, ◌⊎◌, String, true, false, [], ◌∷◌, Line, stdout, text, arith, Reach-keeps}
use apue_code.Signals.Disposition.{sig_dfl, catch}
use apue_code.Signals.Pending.{
  Pc, installing, blocking, first_sleep, checking, unblocking, telling, last_sleep, returned,
  killed, failed, System, Step, arrives, kills, catches, catch_fails, installs, install_fails,
  blocks, block_fails, sleeps, checks, check_fails, unblocks, unblock_fails, tells, returns, init,
  Runs,
}

abbrev line : String → Line
line s = stdout (text s ∷ [])

abbrev pub reported_line : Line
reported_line = line "SIGQUIT is pending\n"

abbrev pub caught_line : Line
caught_line = line "catch SIGQUIT\n"

abbrev pub unblocked_line : Line
unblocked_line = line "SIGQUIT unblocked\n"

-- No signal was caught yet, or one was.
abbrev IsFresh : System → Type 0
IsFresh s =
    ((s.log ≡ []) × (s.handler ≡ catch "sig_quit"))
    ⊎ ((s.log ≡ caught_line ∷ []) × (s.handler ≡ sig_dfl))

abbrev InvAt : Pc → System → Type 0
InvAt installing s =
    (s.log ≡ []) × (s.handler ≡ sig_dfl) × (s.blocked ≡ false) × (s.pendmask ≡ false)
InvAt blocking s = IsFresh s × (s.blocked ≡ false) × (s.pendmask ≡ false)
InvAt first_sleep s = IsFresh s × (s.blocked ≡ true) × (s.pendmask ≡ false)
InvAt checking s = IsFresh s × (s.blocked ≡ true) × (s.pendmask ≡ false)
InvAt unblocking s =
    (s.blocked ≡ true)
    × ((s.pendmask ≡ false)
        ⊎ ((s.pending ≡ true)
            × (((s.log ≡ reported_line ∷ []) × (s.handler ≡ catch "sig_quit"))
                ⊎ (s.handler ≡ sig_dfl))))
InvAt telling s =
    (s.blocked ≡ false)
    × ((s.pendmask ≡ false)
        ⊎ ((s.pending ≡ true)
            × (((s.log ≡ reported_line ∷ []) × (s.handler ≡ catch "sig_quit"))
                ⊎ (s.handler ≡ sig_dfl)))
        ⊎ ((s.log ≡ caught_line ∷ reported_line ∷ []) × (s.handler ≡ sig_dfl)))
InvAt last_sleep s =
    (s.blocked ≡ false)
    × ((s.pendmask ≡ false)
        ⊎ ((s.log ≡ unblocked_line ∷ caught_line ∷ reported_line ∷ []) × (s.handler ≡ sig_dfl)))
InvAt returned s =
    (s.pendmask ≡ false) ⊎ (s.log ≡ unblocked_line ∷ caught_line ∷ reported_line ∷ [])
InvAt killed s = Unit
InvAt failed s = Unit

abbrev Inv : System → Type 0
Inv s = InvAt s.pc s

Step-Inv : (s t : System) → Step s t → Inv s → Inv t
Step-Inv s t (arrives a) i = ground arith
Step-Inv s t (kills a p b h) i = tt
Step-Inv s t (catches a p b h) i = ground arith
Step-Inv s t (catch_fails e a p b h) i = tt
Step-Inv s t (installs at q) i = ground arith
Step-Inv s t (install_fails e at q) i = tt
Step-Inv s t (blocks at q) i = ground arith
Step-Inv s t (block_fails e at q) i = tt
Step-Inv s t (sleeps at q) i = ground arith
Step-Inv s t (checks at q) i = ground arith
Step-Inv s t (check_fails e at q) i = tt
Step-Inv s t (unblocks at q) i = ground arith
Step-Inv s t (unblock_fails e at q) i = tt
Step-Inv s t (tells at q) i = ground arith
Step-Inv s t (returns at q) i = ground arith

-- If the process returns and has found SIGQUIT pending, it has printed three lines in this order:
-- that the signal is pending, that it is caught, and that it is unblocked. So the handler ran before
-- the restoring sigprocmask came back.
pub Runs-order :
    {s : System}
    → Runs s
    → s.pc ≡ returned
    → s.pendmask ≡ true
    → s.log ≡ unblocked_line ∷ caught_line ∷ reported_line ∷ []
Runs-order {s} r at found = ground (arith, Reach-keeps Inv Step-Inv start r)
  where
    start : Inv init
    start = ground arith
