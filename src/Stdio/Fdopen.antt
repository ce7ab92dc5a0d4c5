-- ===== src/Stdio/Fdopen.antt =====
-- standard_io_library/fdopen.c: whether fdopen sets the append mode of a descriptor.
use apue_code.Base.{
  ℕ, ◌==◌, if◌then◌else◌, String, List, [], ◌∷◌, Exec, Call, Option, none, some, text, must, sys,
  die, exit, printf, fprintf_err, program_name, ◌>>=◌, ◌>>◌,
}
use apue_code.FileIo.Flags.{o_rdwr, o_append, has}

-- `getfl` is fcntl(fd, F_GETFL); the write gives the number of bytes taken.
pub record Calls (S : Type 0) : Type 0 where
  pub open_file : String → ℕ → Call S ℕ
  pub getfl : ℕ → Call S ℕ
  pub fdopen : ℕ → String → Call S ℕ
  pub write : ℕ → String → Call S ℕ

abbrev pub mode_text : ℕ → String
mode_text mode = if has mode o_append then "file is append mode\n" else "file is not append mdoe\n"

module _ {S : Type 0} (c : Calls S) where
  abbrev pub show_mode : String → ℕ → Exec S (Unit {0})
  show_mode when fd = do
    mode ← must "fcntl error" (c.getfl fd)
    printf (text when ∷ [])
    printf (text (mode_text mode) ∷ [])

  -- if (write(...) != strlen(buf)) { ... }, where the text has seven bytes.
  abbrev pub written : Option ℕ → Exec S (Unit {0})
  written none = die "write error"
  written (some n) = if n == 7 then printf (text "write success\n" ∷ []) else die "write error"

  abbrev pub behind : ℕ → Exec S (Unit {0})
  behind fd = do
    must "fdopen error" (c.fdopen fd "a+")
    show_mode "after fdopen\n" fd
    sys (c.write fd " world!") >>= written

  unfoldable pub main : List String → Exec S (Unit {0})
  main (name ∷ path ∷ []) = do
    fd ← must "open error" (c.open_file path o_rdwr)
    show_mode "before fdopen\n" fd
    behind fd
  main argv = do
    fprintf_err (text "Usage: " ∷ text (program_name argv) ∷ text " <filename>\n" ∷ [])
    exit 1
