-- ===== src/FileIo/DevFd.antt =====
-- file_io/dev_fd.c: copies /dev/fd/111 to /dev/fd/222, and then notes what /dev/fd/111 is.
pub mod Laws
use Prim.Native.Char.{code}
use apue_code.Base.{
  ℕ, ◌+◌, String, List, [], ◌∷◌, ◌++◌, Exec, some, none, Option, take, length, sys, must, die, pure,
  ◌==◌, if◌then◌else◌, ◌>>=◌, ◌>>◌,
}
use apue_code.Mode.{s_islnk}
use apue_code.FileIo.Flags.{o_rdonly, o_wronly}
use apue_code.FileIo.Kernel.{FileSys}
use apue_code.FileIo.Pump.{pump}

-- BUFSIZ and PATH_MAX of the C library on Linux.
abbrev pub bufsiz : ℕ
bufsiz = 8192

abbrev pub path_max : ℕ
path_max = 4096

-- The bytes of an ASCII text.
abbrev pub bytes : String → List ℕ
bytes String.[] = []
bytes (String.◌∷◌ c s) = code c ∷ bytes s

abbrev pub not_link : List ℕ
not_link = bytes "/dev/fd/n is not symbolic link\n"

module _ (K : FileSys) where
  -- if (write(ofd, buf, n) != n) { perror("write #2 error"); exit(EXIT_FAILURE); }
  abbrev check_note : ℕ → Option ℕ → Exec K.State (Unit {0})
  check_note n none = die "write #2 error"
  check_note n (some taken) = if taken == n then pure tt else die "write #2 error"

  -- The first `n` bytes of the buffer are written.
  abbrev write_note : ℕ → List ℕ → ℕ → Exec K.State (Unit {0})
  write_note ofd buf n = sys (K.write ofd (take n buf)) >>= check_note n

  -- link_file[n++] = '\n', and the write of it.
  abbrev write_link : ℕ → List ℕ → Exec K.State (Unit {0})
  write_link ofd link = write_note ofd (link ++ (10 ∷ [])) (length link + 1)

  -- The link's text with a newline behind it, or 30 bytes of a message.
  abbrev pub note : ℕ → ℕ → Exec K.State (Unit {0})
  note ofd mode =
      if s_islnk mode
      then (must "readlink errno" (K.readlink "/dev/fd/111" path_max) >>= write_link ofd)
      else write_note ofd not_link 30

  -- The part behind the two open calls.
  pub copy_and_note : ℕ → ℕ → ℕ → Exec K.State (Unit {0})
  copy_and_note fuel ifd ofd = do
    pump K bufsiz "write #1 error" ifd ofd fuel
    mode ← must "stat error" (K.lstat_mode "/dev/fd/111")
    note ofd mode

  unfoldable pub main : ℕ → Exec K.State (Unit {0})
  unfolding copy_and_note
  main fuel = do
    ifd ← must "open /dev/fd/111 error" (K.open_file "/dev/fd/111" o_rdonly)
    ofd ← must "open /dev/fd/222 error" (K.open_file "/dev/fd/222" o_wronly)
    copy_and_note fuel ifd ofd
