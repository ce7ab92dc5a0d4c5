-- ===== src/Process/Status.antt =====
-- The wait status, and its printing: pr_exit of process_control/system.c and process_times.c, and the
-- main of exit_status.c. The macros of <sys/wait.h> are those of glibc.
pub mod Laws
use apue_code.Base.{
  ℕ, ◌+◌, ◌*◌, ◌/◌, ◌%◌, ◌^◌, String, Bool, ◌&&◌, List, [], ◌∷◌, ℤ, pos, negsuc, pos_part, atoi,
  Exec, text, num, printf, fprintf_err, exit, exit_failure, pure, program_name, ltb, ◌==◌, ◌-◌,
  if◌then◌else◌, ◌>>◌,
}

-- status & 0x7f, status & 0xff, (status >> 8) & 0xff, status & 0x80
abbrev pub wtermsig : ℕ → ℕ
wtermsig status = status % 128

abbrev pub wifexited : ℕ → Bool
wifexited status = wtermsig status == 0

abbrev pub wexitstatus : ℕ → ℕ
wexitstatus status = status / 256 % 256

-- ((signed char) ((status & 0x7f) + 1) >> 1) > 0
abbrev pub wifsignaled : ℕ → Bool
wifsignaled status = ltb 0 (wtermsig status) && ltb (wtermsig status) 127

abbrev pub wcoredump : ℕ → Bool
wcoredump status = status / 128 % 2 == 1

abbrev pub wifstopped : ℕ → Bool
wifstopped status = status % 256 == 127

abbrev pub wstopsig : ℕ → ℕ
wstopsig status = wexitstatus status

-- The 32-bit pattern of an `int`.
abbrev pub int_bits : ℤ → ℕ
int_bits (pos n) = n % 2 ^ 32
int_bits (negsuc n) = 2 ^ 32 - 1 - n % 2 ^ 32

module _ {S : Type 0} where
  -- The status is an `int`, given by its 32-bit pattern.
  unfoldable pub pr_exit : ℕ → Exec S (Unit {0})
  pr_exit status =
      if wifexited status
      then printf (
          text "normal termination, exit status = "
          ∷ num (pos (wexitstatus status))
          ∷ text "\n"
          ∷ [])
      else if wifsignaled status
      then printf (
          text "abnormal termination, signal number = "
          ∷ num (pos (wtermsig status))
          ∷ text (if wcoredump status then " (core file generated)" else "")
          ∷ text "\n"
          ∷ [])
      else if wifstopped status
      then printf
          (text "child stopped, signal number = " ∷ num (pos (wstopsig status)) ∷ text "\n" ∷ [])
      else pure tt

  -- exit_status.c
  unfoldable pub main : List String → Exec S (Unit {0})
  unfolding pr_exit
  main (name ∷ status ∷ []) = pr_exit (int_bits (atoi status))
  main argv = do
    fprintf_err (text "usage: " ∷ text (program_name argv) ∷ text " <exit_status>\n" ∷ [])
    exit exit_failure
