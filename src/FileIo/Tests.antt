-- ===== src/FileIo/Tests.antt =====
-- Runs of the programs of file_io/ over two files in memory, and their theorems at these.
use apue_code.Base.{
  ℕ, ◌≡◌, refl, String, true, some, List, [], ◌∷◌, ◌++◌, arith, ok, fail, done, exited, other,
  no_error, Process, Call, stdout, text, ℤ, pos, negsuc, atoi, ◌==◌, if◌then◌else◌,
}
use apue_code.FileIo.Flags.{o_sync}
use apue_code.FileIo.Memory.{Disk, disk, disk-IsStream}
use apue_code.FileIo.Pump.{pump}
use apue_code.FileIo.Pump.Laws.{Copied}
use apue_code.FileIo.Copy
use apue_code.FileIo.Copy.Laws.{main-Copied}
use apue_code.FileIo.DevFd
use apue_code.FileIo.DevFd.{bytes}
use apue_code.FileIo.DevFd.Laws.{Holds, note_of, main-Holds}
use apue_code.FileIo.StatusFlags
use apue_code.FileIo.StatusFlags.{describe}
use apue_code.FileIo.StatusFlags.Laws.{main_known}

-- Five bytes to copy, and room for as many as `n`.
abbrev before : ℕ → Process Disk
before n = record {
  kernel = record { left = bytes "hello"; taken = []; room = n };
  errno = no_error;
  log = [];
}

abbrev build : Copy.Build
build = record { sync = true; fcntl_sync = true }

abbrev argv : List String
argv = "copy" ∷ "in" ∷ "out" ∷ []

copy_run : (Copy.main disk build 2 argv (before 9)).1.kernel.taken ≡ bytes "hello"
unfolding Copy.main pump
copy_run = refl

copy_full : (Copy.main disk build 2 argv (before 4)).0 ≡ exited 1
unfolding Copy.main pump
copy_full = refl

main-Copied_example :
    Copied (λ d. d.left) (λ d. d.taken) (before 9) (Copy.main disk build 6 argv (before 9))
main-Copied_example =
    main-Copied disk 3 4 (λ d. d.left) (λ d. d.taken) disk-IsStream build 6 "copy" "in" "out"
      (before 9) (before 9).kernel (before 9).kernel refl refl (omega arith)

dev_fd_run :
    (DevFd.main disk 2 (before 90)).1.kernel.taken ≡ bytes "hello/dev/fd/n is not symbolic link"
unfolding DevFd.main pump
dev_fd_run = refl

main-Holds_example :
    Holds
      (λ d. d.taken)
      ((([] ++ bytes "hello")) ++ note_of 0o100644 (b'x' ∷ []))
      (DevFd.main disk 6 (before 90))
main-Holds_example =
    main-Holds disk 3 4 (λ d. d.left) (λ d. d.taken) disk-IsStream 0o100644 (b'x' ∷ []) (λ s. refl)
      (λ s. refl) 6 (before 90) (before 90).kernel (before 90).kernel refl refl (omega arith)

-- fcntl on a system where descriptor 1 is open for writing and appending, and 2 in no known mode.
flags_of : ℤ → Call ℕ ℕ
flags_of (pos n) s =
    if n == 1 then (ok 0o2001, s) else if n == 2 then (ok 3, s) else (fail (other 9), s)
flags_of (negsuc n) s = (fail (other 9), s)

abbrev posix : StatusFlags.Build
posix = record { posix_c_source = true; o_fsync = some o_sync }

abbrev idle : Process ℕ
idle = record { kernel = 0; errno = no_error; log = [] }

main_known_example : StatusFlags.main flags_of posix ("flags" ∷ "1" ∷ []) idle ≡ (
  done tt,
  record idle {
    log =
        stdout (text "\n" ∷ [])
        ∷ stdout (text ", append" ∷ [])
        ∷ stdout (text "write only" ∷ [])
        ∷ [];
  },
)
unfolding flags_of atoi
main_known_example = main_known flags_of posix "flags" "1" idle 0o2001 0 refl (omega arith) refl
