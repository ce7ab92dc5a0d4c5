-- ===== src/Files/Links.antt =====
-- files_and_directories/link.c, linkat.c, rename.c, renameat.c and symlink.c: one system call on two
-- paths each. `MODE` of linkat.c is AT_SYMLINK_FOLLOW if FOLLOW is defined, and 0 if not.
pub mod Laws
use apue_code.Base.{
  ℕ, ℤ, negsuc, String, Bool, List, [], ◌∷◌, Exec, Call, text, must, printf, fprintf_err, exit,
  exit_failure, pure, program_name, if◌then◌else◌, ◌>>=◌, ◌>>◌,
}

pub record LinkCalls (S : Type 0) : Type 0 where
  pub link : String → String → Call S (Unit {0})
  pub linkat : ℤ → String → ℤ → String → ℕ → Call S (Unit {0})
  pub rename : String → String → Call S (Unit {0})
  pub renameat : ℤ → String → ℤ → String → Call S (Unit {0})
  pub symlink : String → String → Call S (Unit {0})

-- linkat.c and renameat.c do not include <fcntl.h>, which declares this and the next one, and so do not
-- compile with glibc; this is what they do where it is included.
abbrev pub at_fdcwd : ℤ
at_fdcwd = negsuc 99

abbrev pub at_symlink_follow : ℕ
at_symlink_follow = 0x400

abbrev pub linkat_mode : Bool → ℕ
linkat_mode follow = if follow then at_symlink_follow else 0

module _ {S : Type 0} where
  abbrev usage : String → List String → Exec S (Unit {0})
  usage operands argv = do
    fprintf_err (text "Usage: " ∷ text (program_name argv) ∷ text operands ∷ [])
    exit exit_failure

  abbrev report : String → String → String → String → Exec S (Unit {0})
  report success from arrow to =
      printf (text success ∷ []) >> printf (text from ∷ text arrow ∷ text to ∷ text "\n" ∷ [])

module _ {S : Type 0} (c : LinkCalls S) where
  unfoldable pub link_main : List String → Exec S (Unit {0})
  link_main (name ∷ from ∷ to ∷ []) =
      must "link error" (c.link from to) >> report "link success\n" from " - " to
  link_main argv = usage " <exist_path> <new_path>\n" argv

  unfoldable pub linkat_main : Bool → List String → Exec S (Unit {0})
  linkat_main follow (name ∷ from ∷ to ∷ []) =
      must "linkat error" (c.linkat at_fdcwd from at_fdcwd to (linkat_mode follow))
      >> report "linkat success\n" from " - " to
  linkat_main follow argv = usage " <exist_path> <new_path>\n" argv

  unfoldable pub rename_main : List String → Exec S (Unit {0})
  rename_main (name ∷ from ∷ to ∷ []) =
      must "rename error" (c.rename from to) >> report "rename success\n" from " -> " to
  rename_main argv = usage " <old_file> <new_file>\n" argv

  unfoldable pub renameat_main : List String → Exec S (Unit {0})
  renameat_main (name ∷ from ∷ to ∷ []) =
      must "renameat error" (c.renameat at_fdcwd from at_fdcwd to)
      >> report "renameat success\n" from " -> " to
  renameat_main argv = usage " <old_file> <new_file>\n" argv

  unfoldable pub symlink_main : List String → Exec S (Unit {0})
  symlink_main (name ∷ from ∷ to ∷ []) = must "symlink error" (c.symlink from to)
  symlink_main argv = usage " <actualpath> <sympath>\n" argv
