-- ===== src/Process/Times.antt =====
-- process_control/process_times.c: runs each argument as a command and prints its times. The static
-- variable of pr_times is given and returned. The pr_exit of this program has the text of the one in
-- system.c. `seconds` is the text that %7.2f gives for the difference of two times by the clock's rate.
pub mod Laws
use apue_code.Base.{
  ℕ, ◌==◌, if◌then◌else◌, String, List, [], ◌∷◌, Exec, Call, text, must, printf, pure, ◌>>=◌, ◌>>◌,
}
use apue_code.Process.Status.{pr_exit}

-- struct tms
pub record Tms : Type 0 where
  pub tms_utime : ℕ
  pub tms_stime : ℕ
  pub tms_cutime : ℕ
  pub tms_cstime : ℕ

-- `system` gives the wait status, and fails where the function of the C library gives -1.
pub record Calls (S : Type 0) : Type 0 where
  pub times : Call S (ℕ × Tms)
  pub system : String → Call S ℕ
  pub sysconf : Call S ℕ

module _ {S : Type 0} (c : Calls S) (seconds : ℕ → ℕ → ℕ → String) where
  abbrev pub pr_time : String → ℕ → ℕ → ℕ → Exec S (Unit {0})
  pr_time name end start clktck =
      printf (text name ∷ text (seconds end start clktck) ∷ text "\n" ∷ [])

  -- The first lines of pr_times: the rate is asked for where it is not known.
  abbrev pub clock_rate : ℕ → Exec S ℕ
  clock_rate clktck = if clktck == 0 then must "sysconf error" c.sysconf else pure clktck

  pub pr_times : ℕ × Tms → ℕ × Tms → ℕ → Exec S ℕ
  pr_times (start, tmsstart) (end, tmsend) rate = do
    clktck ← clock_rate rate
    pr_time " real:       " end start clktck
    pr_time " user:       " tmsend.tms_utime tmsstart.tms_utime clktck
    pr_time " sys:        " tmsend.tms_stime tmsstart.tms_stime clktck
    pr_time " child user: " tmsend.tms_cutime tmsstart.tms_cutime clktck
    pr_time " child sys:  " tmsend.tms_cstime tmsstart.tms_cstime clktck
    pure clktck

  unfoldable pub do_cmd : String → ℕ → Exec S ℕ
  unfolding pr_times
  do_cmd cmd rate = do
    printf (text "\ncommand: " ∷ text cmd ∷ text "\n" ∷ [])
    start ← must "#1 times error" c.times
    status ← must "system() error" (c.system cmd)
    end ← must "#2 times error" c.times
    clktck ← pr_times start end rate
    pr_exit status
    pure clktck

  unfoldable pub do_cmds : List String → ℕ → Exec S ℕ
  do_cmds [] rate = pure rate
  do_cmds (cmd ∷ cmds) rate = do_cmd cmd rate >>= do_cmds cmds

  -- setbuf has no result.
  abbrev pub arguments : List String → List String
  arguments [] = []
  arguments (name ∷ cmds) = cmds

  unfoldable pub main : List String → Exec S (Unit {0})
  unfolding do_cmds
  main argv = do_cmds (arguments argv) 0 >> pure tt
