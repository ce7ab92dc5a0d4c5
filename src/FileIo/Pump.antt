-- ===== src/FileIo/Pump.antt =====
-- The loop of file_io/copy.c and file_io/dev_fd.c that copies until end of file.
pub mod Laws
use apue_code.Base.{
  ℕ, zero, suc, String, List, Option, none, some, pure, die, sys, spin, length, ◌==◌, if◌then◌else◌,
  Exec, ◌>>=◌,
}
use apue_code.FileIo.Kernel.{FileSys}

module _ (K : FileSys) where
  -- if (write(ofd, buf, n) != n) { perror(...); exit(EXIT_FAILURE); }, and then the next round.
  abbrev check_write : String → ℕ → Exec K.State (Unit {0}) → Option ℕ → Exec K.State (Unit {0})
  check_write write_error n next none = die write_error
  check_write write_error n next (some taken) = if taken == n then next else die write_error

  -- What follows the read: its result decides between the loop's body and what stands behind it.
  abbrev check_read :
      String → ℕ → Exec K.State (Unit {0}) → Option (List ℕ) → Exec K.State (Unit {0})
  check_read write_error ofd next none = die "read error"
  check_read write_error ofd next (some buf) =
      if length buf == 0
      then pure tt
      else (sys (K.write ofd buf) >>= check_write write_error (length buf) next)

  -- while ((n = read(ifd, buf, size)) > 0) { ... } if (n < 0) { ... }
  -- One unit of fuel is one round.
  unfoldable pub pump : ℕ → String → ℕ → ℕ → ℕ → Exec K.State (Unit {0})
  pump size write_error ifd ofd zero = spin
  pump size write_error ifd ofd (suc fuel) =
      sys (K.read ifd size) >>= check_read write_error ofd (pump size write_error ifd ofd fuel)
