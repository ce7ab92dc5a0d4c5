-- ===== src/Process/Status/Laws.antt =====
-- pr_exit tells how a child ended, for each way in which wait can report an end.
use apue_code.Base.{
  ℕ, ◌+◌, ◌*◌, ◌%◌, ◌<◌, ◌≡◌, refl, Bool, true, false, List, [], ◌∷◌, arith, pos, done, Process,
  Line, stdout, text, num, if◌then◌else◌,
}
use apue_code.Process.Status.{pr_exit}

-- How a child has ended, or why it stands still.
pub data Ending : Type 0 where
  exits : ℕ → Ending
  killed : ℕ → Bool → Ending
  stopped : ℕ → Ending
  continued : Ending

-- exit(n) gives its low eight bits; signal numbers lie below 127, and above 0 for a death.
abbrev pub IsEnding : Ending → Type 0
IsEnding (exits n) = Unit
IsEnding (killed signal core) = (0 < signal) × (signal < 127)
IsEnding (stopped signal) = signal < 256
IsEnding continued = Unit

-- The status that wait reports.
abbrev pub status_of : Ending → ℕ
status_of (exits n) = n % 256 * 256
status_of (killed signal core) = signal + (if core then 128 else 0)
status_of (stopped signal) = signal * 256 + 127
status_of continued = 0xffff

abbrev pub told : Ending → List Line → List Line
told (exits n) log =
    stdout (text "normal termination, exit status = " ∷ num (pos (n % 256)) ∷ text "\n" ∷ []) ∷ log
told (killed signal core) log =
    stdout (
      text "abnormal termination, signal number = "
      ∷ num (pos signal)
      ∷ text (if core then " (core file generated)" else "")
      ∷ text "\n"
      ∷ [])
    ∷ log
told (stopped signal) log =
    stdout (text "child stopped, signal number = " ∷ num (pos signal) ∷ text "\n" ∷ []) ∷ log
told continued log = log

-- pr_exit prints one line for an exit, with the low eight bits of the exit status, for a death by a
-- signal, with a remark if there is a core file, and for a stop; for a child that goes on it prints
-- nothing. It always returns.
pub pr_exit-told :
    {S : Type 0} (e : Ending) (p : Process S)
    → IsEnding e
    → pr_exit (status_of e) p ≡ (done tt, record p { log = told e p.log })
unfolding pr_exit
pr_exit-told (exits n) p h = ground arith
pr_exit-told (killed signal true) p h = ground arith
pr_exit-told (killed signal false) p h = ground arith
pr_exit-told (stopped signal) p h = ground arith
pr_exit-told continued p h = refl
