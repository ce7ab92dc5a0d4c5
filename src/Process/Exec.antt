-- ===== src/Process/Exec.antt =====
-- process_control/execl.c and exec_interpreter.c: a child that becomes another program, and a parent that
-- waits for it; and the small programs beside them, echoall.c, system_error/show_id.c and
-- system_error/test.c.
use apue_code.Base.{
  ℕ, zero, suc, ◌+◌, String, List, [], ◌∷◌, pos, Option, none, some, Errno, Exec, Call, text, num,
  must, die, set_errno, exit, printf, fprintf_err, pure, program_name, ◌>>=◌, ◌>>◌,
}

-- fork gives 0 in the child. execl comes back only if it fails.
pub record Calls (S : Type 0) : Type 0 where
  pub fork : Call S ℕ
  pub execl : String → List String → S → Option Errno × S
  pub waitpid : ℕ → Call S (Unit {0})

module _ {S : Type 0} (c : Calls S) where
  -- Behind execl: where it has succeeded, the process runs another program, which ends with `status`.
  abbrev pub after_exec : ℕ → Option Errno → Exec S (Unit {0})
  after_exec status none = exit status
  after_exec status (some e) = do set_errno e; die "execl error"

  abbrev pub become : ℕ → String → List String → Exec S (Unit {0})
  become status path argv p =
      let x = c.execl path argv p.kernel in after_exec status x.0 (record p { kernel = x.1 })

  -- The two branches behind fork.
  abbrev pub forked : ℕ → String → List String → ℕ → Exec S (Unit {0})
  forked status path argv zero = become status path argv
  forked status path argv (suc pid) = must "waitpid error" (c.waitpid (suc pid))

  unfoldable pub execl_main : ℕ → Exec S (Unit {0})
  execl_main status = must "fork error" c.fork >>= forked status "a.out" ("a.out" ∷ [])

  unfoldable pub exec_interpreter_main : ℕ → Exec S (Unit {0})
  exec_interpreter_main status =
      must "fork error" c.fork
      >>= forked status "/home/Asu/Projects/apue/process_control/interpreter"
          ("interpreter" ∷ "exec_arg1" ∷ "exec_arg2" ∷ [])

module _ {S : Type 0} where
  -- The rounds of echoall.c from `i` on.
  unfoldable pub echo_from : ℕ → List String → Exec S (Unit {0})
  echo_from i [] = pure tt
  echo_from i (arg ∷ args) =
      printf (text "argv[" ∷ num (pos i) ∷ text "]: " ∷ text arg ∷ text "\n" ∷ [])
      >> echo_from (i + 1) args

  abbrev pub echoall_main : List String → Exec S (Unit {0})
  echoall_main argv = echo_from 0 argv

  abbrev pub show_id_main : (S → ℕ) → (S → ℕ) → Exec S (Unit {0})
  show_id_main getuid geteuid p =
      printf
        (text "uid: "
          ∷ num (pos (getuid p.kernel))
          ∷ text ", euid: "
          ∷ num (pos (geteuid p.kernel))
          ∷ text "\n"
          ∷ [])
        p

  -- `system` fails where the function of the C library gives a negative number.
  unfoldable pub test_main : (String → Call S ℕ) → List String → Exec S (Unit {0})
  test_main system (name ∷ command ∷ []) = do must "system error" (system command); pure tt
  test_main system argv = do
    fprintf_err (text "usage: " ∷ text (program_name argv) ∷ text " <command>\n" ∷ [])
    exit 1
