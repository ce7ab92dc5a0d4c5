-- ===== src/Files/Access.antt =====
-- files_and_directories/access.c and chmod.c: a permission test, and setting the mode to 0744.
pub mod Laws
use apue_code.Base.{
  ℕ, String, List, [], ◌∷◌, Option, none, some, bit_or, codes, length, ◌==◌, Exec, Call, text, must,
  printf, fprintf_err, exit, exit_failure, pure, program_name, if◌then◌else◌, ◌>>=◌, ◌>>◌,
}
use apue_code.Mode.{s_irwxu, s_irgrp, s_iroth}

-- R_OK, W_OK and X_OK have the values 4, 2 and 1. `none` is the default case of the switch.
pub access_mode : ℕ → Option ℕ
access_mode c =
    if c == b'r' then some 4 else if c == b'w' then some 2 else if c == b'x' then some 1 else none

-- strlen(argv[2]) != 1, and the switch over argv[2][0].
pub letter_mode : List ℕ → Option ℕ
unfolding access_mode
letter_mode (c ∷ []) = access_mode c
letter_mode cs = none

-- #define ACCMODE S_IRWXU | S_IRGRP | S_IROTH
abbrev pub accmode : ℕ
accmode = bit_or (bit_or s_irwxu s_irgrp) s_iroth

module _ {S : Type 0} where
  abbrev usage : List String → Exec S (Unit {0})
  usage argv = do
    fprintf_err (text "Usage: " ∷ text (program_name argv) ∷ text " <filename> (r | w | x)\n" ∷ [])
    exit exit_failure

  -- `access path mode` is the system call.
  abbrev check :
      (String → ℕ → Call S (Unit {0})) → List String → String → Option ℕ → Exec S (Unit {0})
  check access argv path none = usage argv
  check access argv path (some mode) =
      must "access error" (access path mode) >> printf (text "access success\n" ∷ [])

  unfoldable pub access_main : (String → ℕ → Call S (Unit {0})) → List String → Exec S (Unit {0})
  unfolding letter_mode
  access_main access (name ∷ path ∷ letter ∷ []) =
      check access (name ∷ path ∷ letter ∷ []) path (letter_mode (codes letter))
  access_main access argv = usage argv

  -- `chmod path mode` is the system call.
  unfoldable pub chmod_main : (String → ℕ → Call S (Unit {0})) → List String → Exec S (Unit {0})
  chmod_main chmod (name ∷ path ∷ []) = do
    must "chmod error" (chmod path accmode)
    printf (text "chmod success\n" ∷ [])
    printf (text "new access mode: rwxr--r--\n" ∷ [])
  chmod_main chmod argv = do
    fprintf_err (text "Usage: " ∷ text (program_name argv) ∷ text " <filename>\n" ∷ [])
    exit exit_failure
