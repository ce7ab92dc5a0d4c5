-- ===== src/Files/Stat.antt =====
-- files_and_directories/file_stat.c: prints what stat(2) says of a file, in the manner of ls -l.
pub mod Laws
use apue_code.Base.{
  ℕ, String, Bool, ◌&&◌, ◌||◌, List, [], ◌∷◌, Exec, Call, text, num, pos, must, printf, fprintf_err,
  exit, exit_failure, pure, program_name, if◌then◌else◌, ◌>>=◌, ◌>>◌,
}
use apue_code.Mode.{
  has, s_isreg, s_islnk, s_isdir, s_ischr, s_isblk, s_isfifo, s_issock, s_isuid, s_isgid, s_isvtx,
  s_irusr, s_iwusr, s_ixusr, s_irgrp, s_iwgrp, s_ixgrp, s_iroth, s_iwoth, s_ixoth,
}

-- struct stat, as far as the program prints it
pub record FileStat : Type 0 where
  pub st_ino : ℕ
  pub st_mode : ℕ
  pub st_nlink : ℕ
  pub st_uid : ℕ
  pub st_gid : ℕ
  pub st_size : ℕ

unfoldable pub type_char : ℕ → String
type_char mode =
    if s_isreg mode
    then "-"
    else if s_islnk mode
    then "l"
    else if s_isdir mode
    then "d"
    else if s_ischr mode
    then "c"
    else if s_isblk mode
    then "b"
    else if s_isfifo mode
    then "f"
    else if s_issock mode
    then "s"
    else " "

-- if (mode & bit) printf(letter); else printf("-");
abbrev pub flag_char : ℕ → ℕ → String → String
flag_char mode bit letter = if has mode bit then letter else "-"

-- The execute place of the owner and of the group.
unfoldable pub exec_char : ℕ → ℕ → ℕ → String
exec_char mode x s =
    if has mode x || has mode s
    then (if has mode x && has mode s then "s" else if has mode x then "x" else "S")
    else "-"

-- The execute place of the others.
unfoldable pub other_exec_char : ℕ → String
other_exec_char mode =
    if has mode s_ixoth && has mode s_isvtx
    then (if has mode s_ixoth && has mode s_isvtx
        then "t"
        else if has mode s_ixoth
        then "x"
        else "T")
    else "-"

module _ {S : Type 0} where
  abbrev pub put : String → Exec S (Unit {0})
  put s = printf (text s ∷ [])

  -- The ten places of the mode.
  pub print_mode : ℕ → Exec S (Unit {0})
  unfolding type_char exec_char other_exec_char
  print_mode mode = do
    put (type_char mode)
    put (flag_char mode s_irusr "r")
    put (flag_char mode s_iwusr "w")
    put (exec_char mode s_ixusr s_isuid)
    put (flag_char mode s_irgrp "r")
    put (flag_char mode s_iwgrp "w")
    put (exec_char mode s_ixgrp s_isgid)
    put (flag_char mode s_iroth "r")
    put (flag_char mode s_iwoth "w")
    put (other_exec_char mode)

  -- From the first printf to the end of main.
  pub print_stat : FileStat → Exec S (Unit {0})
  unfolding print_mode
  print_stat buf = do
    printf (num (pos buf.st_ino) ∷ text " " ∷ [])
    print_mode buf.st_mode
    put "."
    printf (text " " ∷ num (pos buf.st_nlink) ∷ text " " ∷ [])
    printf (text " " ∷ num (pos buf.st_uid) ∷ text " " ∷ [])
    printf (text " " ∷ num (pos buf.st_gid) ∷ text " " ∷ [])
    printf (text " " ∷ num (pos buf.st_size) ∷ text " " ∷ [])
    put "\n"

  -- `stat path` is the system call.
  unfoldable pub main : (String → Call S FileStat) → List String → Exec S (Unit {0})
  unfolding print_stat
  main stat (name ∷ path ∷ []) = must "stat error" (stat path) >>= print_stat
  main stat argv = do
    fprintf_err (text "Usage: " ∷ text (program_name argv) ∷ text " <filename>\n" ∷ [])
    exit exit_failure
