-- ===== src/Files/Unlink.antt =====
-- files_and_directories/unlink.c: writes a large file and unlinks it while it is open.
use apue_code.Base.{
  ℕ, zero, suc, ◌/◌, ◌==◌, if◌then◌else◌, String, List, [], ◌∷◌, Exec, Call, text, error_text, must,
  sys, die, exit, get_errno, printf, fprintf_err, pure, program_name, Option, none, some, ◌>>=◌,
  ◌>>◌,
}

-- BUFSIZ of glibc, and FILE_SIZE.
abbrev pub bufsiz : ℕ
bufsiz = 8192

abbrev pub count : ℕ
count = 102400000 / bufsiz

-- `sigaction` installs the handler of SIGUSR1; `pause` ends behind it.
pub record Calls (S : Type 0) : Type 0 where
  pub sigaction : Call S (Unit {0})
  pub open_file : String → Call S ℕ
  pub write : ℕ → ℕ → Call S ℕ
  pub pause : Call S (Unit {0})
  pub unlink : String → Call S (Unit {0})

module _ {S : Type 0} (c : Calls S) where
  abbrev pub written : Exec S (Unit {0}) → Option ℕ → Exec S (Unit {0})
  written next none = die "write error"
  written next (some n) = if n == bufsiz then next else die "write error"

  -- The rounds of the loop.
  unfoldable pub write_all : ℕ → ℕ → Exec S (Unit {0})
  write_all fd zero = pure tt
  write_all fd (suc n) = sys (c.write fd bufsiz) >>= written (write_all fd n)

  abbrev pub opened : String → Option ℕ → Exec S (Unit {0})
  opened path none = do
    e ← get_errno
    fprintf_err (text "open(" ∷ text path ∷ text ") error: " ∷ error_text e ∷ text "\n" ∷ [])
    exit 1
  opened path (some fd) = do
    printf (text "open " ∷ text path ∷ text " success\n" ∷ [])
    write_all fd count
    printf (text "write " ∷ text path ∷ text " success\n" ∷ [])
    sys c.pause
    sys (c.unlink path)
    printf (text "unlink " ∷ text path ∷ text " success\n" ∷ [])
    sys c.pause
    printf (text "process exit\n" ∷ [])

  unfoldable pub main : List String → Exec S (Unit {0})
  main (name ∷ path ∷ []) = do
    must "sigaction error" c.sigaction
    sys (c.open_file path) >>= opened path
  main argv = do
    fprintf_err (text "Usage: " ∷ text (program_name argv) ∷ text " <filename>\n" ∷ [])
    exit 1
