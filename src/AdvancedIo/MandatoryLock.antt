-- ===== src/AdvancedIo/MandatoryLock.antt =====
-- advanced_io/mandatory_lock.c: a parent locks a file and tells its child through a pipe, and the child
-- tries to lock and to read the file. After the fork each step of the model is one call.
pub mod Laws
use apue_code.Base.{
  ℕ, zero, suc, ◌+◌, ◌-◌, ◌<◌, ◌≡◌, String, Bool, true, false, not, if◌then◌else◌, ◌==◌, Option,
  none, some, List, [], ◌∷◌, pos, bit_and, bit_or, Exec, Call, Errno, Line, stdout, stderr,
  perror_line, text, num, must, sys, die, exit, fprintf_err, pure, program_name, Reach, ◌>>=◌, ◌>>◌,
}
use apue_code.FileIo.Flags.{o_rdwr, o_creat, o_trunc, o_nonblock}
use apue_code.Mode.{s_ixgrp, s_isgid}
use apue_code.AdvancedIo.Nonblock.{errno_number}

-- The calls before the fork.
pub record SetupCalls (S : Type 0) : Type 0 where
  pub open_file : String → ℕ → ℕ → Call S ℕ
  pub write : ℕ → String → Call S ℕ
  pub fstat_mode : ℕ → Call S ℕ
  pub fchmod : ℕ → ℕ → Call S (Unit {0})
  pub pipe : Call S (ℕ × ℕ)
  pub fork : Call S ℕ

-- mode & ~bit, for a `bit` that is a power of two
abbrev pub without : ℕ → ℕ → ℕ
without mode bit = if bit_and mode bit == 0 then mode else mode - bit

-- (mode & ~S_IXGRP) | S_ISGID
unfoldable pub lock_mode : ℕ → ℕ
lock_mode mode = bit_or (without mode s_ixgrp) s_isgid

module _ {S : Type 0} (c : SetupCalls S) where
  -- if (write(...) != 6) { ... }
  abbrev check_written : Option ℕ → Exec S (Unit {0})
  check_written none = die "write error"
  check_written (some n) = if n == 6 then pure tt else die "write error"

  pub tell_wait : Exec S (Unit {0})
  tell_wait = do must "pipe#1 error" c.pipe; must "pipe#2 error" c.pipe; pure tt

  -- main up to the fork: the file, and what fork gives.
  unfoldable pub set_up : List String → Exec S (ℕ × ℕ)
  unfolding tell_wait
  set_up (name ∷ path ∷ []) = do
    fd ← must "open error" (c.open_file path (bit_or (bit_or o_rdwr o_creat) o_trunc) 0o644)
    sys (c.write fd "abcdef") >>= check_written
    mode ← must "fstat error" (c.fstat_mode fd)
    must "fchmod error" (c.fchmod fd (lock_mode mode))
    tell_wait
    pid ← must "fork error" c.fork
    pure (fd, pid)
  set_up argv = do
    fprintf_err (text "Usage: " ∷ text (program_name argv) ∷ text " <filename>\n" ∷ [])
    exit 1

-- Where the parent stands; `ended` has the exit status.
pub data Parent : Type 0 where
  locking telling waiting : Parent
  ended : ℕ → Parent

-- Where the child stands. `granted` is its exit behind a read lock that it should not have got.
pub data Child : Type 0 where
  hearing getting_flags : Child
  setting_flags : ℕ → Child
  trying seeking reading granted : Child
  gone : ℕ → Child

-- `locked` says whether the parent holds its write lock; `sent` is the number of bytes in the pipe.
pub record System : Type 0 where
  pub parent : Parent
  pub child : Child
  pub locked : Bool
  pub sent : ℕ
  pub log : List Line

-- The processes that hold the writing end of the pipe: each of the two until it ends.
abbrev pub parent_writes : Parent → ℕ
parent_writes locking = 1
parent_writes telling = 1
parent_writes waiting = 1
parent_writes (ended status) = 0

abbrev pub child_writes : Child → ℕ
child_writes (gone status) = 0
child_writes granted = 0
child_writes hearing = 1
child_writes getting_flags = 1
child_writes (setting_flags flags) = 1
child_writes trying = 1
child_writes seeking = 1
child_writes reading = 1

abbrev pub writers : System → ℕ
writers s = parent_writes s.parent + child_writes s.child

-- The end of a process takes its locks away.
abbrev pub parent_dies : System → List Line → System
parent_dies s log = record s { parent = ended 1; locked = false; log = log }

abbrev pub child_dies : System → List Line → System
child_dies s log = record s { child = gone 1; log = log }

-- TELL_CHILD
pub data TellStep (s : System) : System → Type 0 where
  writes : s.parent ≡ telling → TellStep s (record s { parent = waiting; sent = s.sent + 1 })
  write_fails :
      (e : Errno)
      → s.parent ≡ telling
      → TellStep s (parent_dies s (perror_line "parent write error" e ∷ s.log))

-- A step of the parent. Each call may fail; waitpid succeeds only if the child has ended.
pub data ParentStep (s : System) : System → Type 0 where
  locks : s.parent ≡ locking → ParentStep s (record s { parent = telling; locked = true })
  lock_fails :
      (e : Errno)
      → s.parent ≡ locking
      → ParentStep s (parent_dies s (perror_line "write lock error" e ∷ s.log))
  tells : {t : System} → TellStep s t → ParentStep s t
  waits :
      s.parent ≡ waiting
      → child_writes s.child ≡ 0
      → ParentStep s (record s { parent = ended 0; locked = false })
  wait_fails :
      (e : Errno)
      → s.parent ≡ waiting
      → ParentStep s (parent_dies s (perror_line "waitpid error" e ∷ s.log))

-- WAIT_PARENT, whose read waits for a byte, or finds the end of the file when nobody can write any more.
pub data WaitStep (s : System) : System → Type 0 where
  hears :
      s.child ≡ hearing
      → 0 < s.sent
      → WaitStep s (record s { child = getting_flags; sent = s.sent - 1 })
  hear_fails :
      (e : Errno)
      → s.child ≡ hearing
      → WaitStep s (child_dies s (perror_line "child read error" e ∷ s.log))
  hears_end :
      s.child ≡ hearing
      → s.sent ≡ 0
      → writers s ≡ 0
      → WaitStep s (child_dies s (stderr (text "parent has an unknown error\n" ∷ []) ∷ s.log))

-- A step of the child. The read lock is granted only where the parent's lock is not held.
pub data ChildStep (s : System) : System → Type 0 where
  waits_parent : {t : System} → WaitStep s t → ChildStep s t
  gets_flags :
      (flags : ℕ)
      → s.child ≡ getting_flags
      → ChildStep s (record s { child = setting_flags (bit_or flags o_nonblock) })
  get_flags_fails :
      (e : Errno)
      → s.child ≡ getting_flags
      → ChildStep s (child_dies s (perror_line "fcntl error" e ∷ s.log))
  sets_flags :
      (flags : ℕ) → s.child ≡ setting_flags flags → ChildStep s (record s { child = trying })
  set_flags_fails :
      (flags : ℕ) (e : Errno)
      → s.child ≡ setting_flags flags
      → ChildStep s (child_dies s (perror_line "fcntl error" e ∷ s.log))
  is_granted :
      s.child ≡ trying
      → s.locked ≡ false
      → ChildStep s (record s {
        child = granted;
        log = stderr (text "child: read lock succeeded\n" ∷ []) ∷ s.log;
      })
  is_refused :
      (e : Errno)
      → s.child ≡ trying
      → ChildStep s (record s {
        child = seeking;
        log =
            stdout (
              text "read lock of already-locked region returns "
              ∷ num (pos (errno_number e))
              ∷ text "\n"
              ∷ [])
            ∷ s.log;
      })
  seeks : s.child ≡ seeking → ChildStep s (record s { child = reading })
  seek_fails :
      (e : Errno)
      → s.child ≡ seeking
      → ChildStep s (child_dies s (perror_line "lseek error" e ∷ s.log))
  reads :
      (buf : String)
      → s.child ≡ reading
      → ChildStep s (record s {
        child = gone 0;
        log =
            stdout (text "read OK (no mandatory locking), buf = " ∷ text buf ∷ text "\n" ∷ [])
            ∷ s.log;
      })
  read_fails :
      (e : Errno)
      → s.child ≡ reading
      → ChildStep s (record s {
        child = gone 0;
        log = perror_line "read failed (mandatory locking works)" e ∷ s.log;
      })

pub data Step (s : System) : System → Type 0 where
  by_parent : {t : System} → ParentStep s t → Step s t
  by_child : {t : System} → ChildStep s t → Step s t

-- Behind the fork.
abbrev pub init : System
init = record { parent = locking; child = hearing; locked = false; sent = 0; log = [] }

abbrev pub Runs : System → Type 0
Runs = Reach Step init
