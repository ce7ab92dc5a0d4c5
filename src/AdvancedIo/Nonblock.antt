-- ===== src/AdvancedIo/Nonblock.antt =====
-- advanced_io/nonblock_io.c: writes its input to a nonblocking output, as often as it takes. The
-- numbers of errors are those of Linux.
pub mod Laws
use apue_code.Base.{
  ℕ, zero, suc, ◌-◌, ◌^◌, Option, none, some, List, [], ◌∷◌, ℤ, pos, negsuc, bit_or, drop, length,
  Errno, no_error, eintr, echild, eidrm, other, Exec, text, num, sys, must, set_errno, get_errno,
  fprintf_err, pure, spin, ◌>>=◌, ◌>>◌,
}
use apue_code.FileIo.Flags.{o_nonblock}
use apue_code.FileIo.Kernel.{FileSys}

-- errno as `%d` prints it.
abbrev pub errno_number : Errno → ℕ
errno_number no_error = 0
errno_number eintr = 4
errno_number echild = 10
errno_number eidrm = 43
errno_number (other n) = n

-- The value that read or write returns.
abbrev pub count : Option ℕ → ℤ
count none = negsuc 0
count (some n) = pos n

-- The bytes in the buffer, and how many there are.
abbrev pub filled : Option (List ℕ) → List ℕ
filled none = []
filled (some buf) = buf

abbrev pub nread : Option (List ℕ) → ℤ
nread none = negsuc 0
nread (some buf) = pos (length buf)

-- `flags` after F_GETFL, by its 32-bit pattern: the program does not look for an error.
abbrev pub flags_of : Option ℕ → ℕ
flags_of none = 2 ^ 32 - 1
flags_of (some flags) = flags

-- if (nwrite > 0) { ptr += nwrite; ntowrite -= nwrite; }
abbrev pub advance : List ℕ → Option ℕ → List ℕ
advance buf none = buf
advance buf (some n) = drop n buf

module _ (K : FileSys) where
  abbrev pub report : Option ℕ → Exec K.State (Unit {0})
  report r = do
    e ← get_errno
    fprintf_err (
        text "nwrite = "
        ∷ num (count r)
        ∷ text ", errno = "
        ∷ num (pos (errno_number e))
        ∷ text "\n"
        ∷ [])

  -- The body of the loop behind the call of write, and the rounds behind it.
  abbrev pub wrote :
      (List ℕ → Exec K.State (Unit {0})) → List ℕ → Option ℕ → Exec K.State (Unit {0})
  wrote next buf r = report r >> next (advance buf r)

  -- while (ntowrite > 0) ... with the bytes that are still to write. One unit of fuel is one round.
  unfoldable pub write_rest : ℕ → List ℕ → Exec K.State (Unit {0})
  write_rest zero buf = spin
  write_rest (suc fuel) [] = pure tt
  write_rest (suc fuel) (b ∷ bs) =
      set_errno no_error >> (sys (K.write 1 (b ∷ bs)) >>= wrote (write_rest fuel) (b ∷ bs))

  -- What follows F_GETFL.
  abbrev pub set_nonblock : ℕ → List ℕ → Option ℕ → Exec K.State (Unit {0})
  set_nonblock fuel buf flags =
      must "fcntl error" (K.set_flags 1 (bit_or (flags_of flags) o_nonblock)) >>= λ _.
      write_rest fuel buf

  -- What follows the read.
  abbrev pub got : ℕ → Option (List ℕ) → Exec K.State (Unit {0})
  got fuel r =
      fprintf_err (text "read " ∷ num (nread r) ∷ text " bytes\n" ∷ [])
      >> (sys (K.get_flags 1) >>= set_nonblock fuel (filled r))

  unfoldable pub main : ℕ → Exec K.State (Unit {0})
  unfolding write_rest
  main fuel = sys (K.read 0 500000) >>= got fuel
