-- ===== src/FileIo/StatusFlags.antt =====
-- file_io/file_status_flags.c: prints the access mode and some status flags of a descriptor.
pub mod Laws
use apue_code.Base.{
  ℕ, String, Bool, not, ◌&&◌, Option, none, some, List, [], ◌∷◌, bit_and, ◌==◌, if◌then◌else◌, Exec,
  Call, Errno, ℤ, atoi, text, num, error_text, sys, exit, exit_failure, printf, fprintf_err, when,
  get_errno, pure, program_name, false, ◌>>=◌, ◌>>◌,
}
use apue_code.FileIo.Flags.{
  o_rdonly, o_wronly, o_rdwr, o_accmode, o_append, o_nonblock, o_sync, has,
}

-- Whether _POSIX_C_SOURCE is defined, and the value of O_FSYNC if that is.
pub record Build : Type 0 where
  pub posix_c_source : Bool
  pub o_fsync : Option ℕ

-- #if !defined (_POSIX_C_SOURCE) && defined (O_FSYNC) && (OFSYNC != O_SYNC)
-- `OFSYNC` is no macro, so the preprocessor takes it for 0.
abbrev pub fsync_flag : Build → Option ℕ
fsync_flag b = if not b.posix_c_source && not (0 == o_sync) then b.o_fsync else none

module _ {S : Type 0} where
  -- The switch over `val & O_ACCMODE`.
  abbrev print_access : ℕ → Exec S (Unit {0})
  print_access mode =
      if mode == o_rdonly
      then printf (text "read only" ∷ [])
      else if mode == o_wronly
      then printf (text "write only" ∷ [])
      else if mode == o_rdwr
      then printf (text "read write" ∷ [])
      else (fprintf_err (text "unknown access mode\n" ∷ []) >> exit exit_failure)

  abbrev print_fsync : Option ℕ → ℕ → Exec S (Unit {0})
  print_fsync none val = pure tt
  print_fsync (some flag) val = when (has val flag) (printf (text ", synchronous writes" ∷ []))

  -- The conditional prints behind the switch.
  abbrev print_flags : Option ℕ → ℕ → Exec S (Unit {0})
  print_flags fsync val = do
    when (has val o_append) (printf (text ", append" ∷ []))
    when (has val o_nonblock) (printf (text ", nonblocking" ∷ []))
    when (has val o_sync) (printf (text ", synchronous writes" ∷ []))
    print_fsync fsync val
    printf (text "\n" ∷ [])

  -- From the switch to the end of main.
  pub describe : Build → ℕ → Exec S (Unit {0})
  describe b val = print_access (bit_and val o_accmode) >> print_flags (fsync_flag b) val

  -- What follows the call of fcntl.
  pub answer : Build → String → Option ℕ → Exec S (Unit {0})
  unfolding describe
  answer b fd none = do
    e ← get_errno
    fprintf_err
        (text "fcntl error for fd " ∷ num (atoi fd) ∷ text ": " ∷ error_text e ∷ text "\n" ∷ [])
    exit exit_failure
  answer b fd (some val) = describe b val

  -- `get_flags fd` is fcntl(fd, F_GETFL, 0), which the operating system answers.
  unfoldable pub main : (ℤ → Call S ℕ) → Build → List String → Exec S (Unit {0})
  unfolding answer
  main get_flags b (name ∷ fd ∷ []) = sys (get_flags (atoi fd)) >>= answer b fd
  main get_flags b argv = do
    fprintf_err (text "usage: " ∷ text (program_name argv) ∷ text " <descriptor#>\n" ∷ [])
    exit exit_failure
