-- ===== src/Files/Types.antt =====
-- files_and_directories/file_type.c: prints the type of each file that is named.
pub mod Laws
use apue_code.Base.{
  ℕ, String, List, [], ◌∷◌, Exec, Call, text, must, printf, fprintf_err, exit, exit_failure, pure,
  program_name, if◌then◌else◌, ◌>>=◌, ◌>>◌,
}
use apue_code.Mode.{s_isreg, s_islnk, s_isdir, s_ischr, s_isblk, s_isfifo, s_issock}

pub type_name : ℕ → String
type_name mode =
    if s_isreg mode
    then "regular\n"
    else if s_isdir mode
    then "directory\n"
    else if s_islnk mode
    then "symbolic link\n"
    else if s_ischr mode
    then "character special\n"
    else if s_isblk mode
    then "block special\n"
    else if s_issock mode
    then "socket\n"
    else if s_isfifo mode
    then "fifo\n"
    else "** unknow type **\n"

-- `lstat_mode path` is the mode that lstat(2) gives.
module _ {S : Type 0} (lstat_mode : String → Call S ℕ) where
  -- The loop over argv[1] and the arguments behind it.
  pub print_types : List String → Exec S (Unit {0})
  unfolding type_name
  print_types [] = pure tt
  print_types (path ∷ paths) = do
    printf (text path ∷ text ": " ∷ [])
    mode ← must "stat error" (lstat_mode path)
    printf (text (type_name mode) ∷ [])
    print_types paths

  unfoldable pub main : List String → Exec S (Unit {0})
  unfolding print_types
  main (name ∷ path ∷ paths) = print_types (path ∷ paths)
  main argv = do
    fprintf_err (text "Usage: " ∷ text (program_name argv) ∷ text " <path> ...\n" ∷ [])
    exit exit_failure
