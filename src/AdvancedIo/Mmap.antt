-- ===== src/AdvancedIo/Mmap.antt =====
-- advanced_io/mmap.c: a parent and a child count up an integer in shared memory, each under the same
-- semaphore. After the fork each step of the model is one access of the shared objects.
pub mod Invariant
pub mod Laws
use apue_code.Base.{
  ℕ, zero, suc, ◌+◌, ◌-◌, ◌%◌, ◌^◌, ◌≤◌, ◌<◌, ◌≡◌, String, Option, none, some, List, [], ◌∷◌, ℤ,
  int_of, pos_part, atoi, Exec, Call, Errno, Line, stdout, perror_line, text, num, must, sys, exit,
  fprintf_err, pure, program_name, Reach, ◌>>=◌, ◌>>◌,
}

pub data Who : Type 0 where
  parent child : Who

-- The calls before the loops; fork gives 0 in the child.
pub record SetupCalls (S : Type 0) : Type 0 where
  pub mmap : Call S (Unit {0})
  pub sem_open : String → ℕ → Call S (Unit {0})
  pub sem_unlink : String → Call S (Unit {0})
  pub setvbuf : Call S (Unit {0})
  pub fork : Call S ℕ

abbrev pub sem_name : String
sem_name = "/mysem"

module _ {S : Type 0} (c : SetupCalls S) where
  -- Which of the two loops a process runs.
  abbrev pub role : ℕ → Who
  role zero = child
  role (suc pid) = parent

  -- main up to the loops: the number of rounds, and who this process is. The semaphore is opened
  -- with the value 1. A negative number of rounds makes no round.
  unfoldable pub set_up : List String → Exec S (ℕ × Who)
  set_up (name ∷ nloop ∷ []) = do
    must "mmap error" c.mmap
    must "sem_open error" (c.sem_open sem_name 1)
    sys (c.sem_unlink sem_name)
    must "setvbuf error" c.setvbuf
    pid ← must "fork error" c.fork
    pure (pos_part (atoi nloop), role pid)
  set_up argv = do
    fprintf_err (text "Usage: " ∷ text (program_name argv) ∷ text " <#nloop>\n" ∷ [])
    exit 1

-- The shared integer by its 32-bit pattern, which wraps where the source overflows; the semaphore, and
-- what was printed, the newest first.
pub record Shared : Type 0 where
  pub counter : ℕ
  pub sem : ℕ
  pub printed : List (Who × ℤ)
  pub errors : List Line

-- Where a process stands, with its `i` and what it has read.
pub data Pc : Type 0 where
  head : ℕ → Pc  -- the test of the loop
  entered : ℕ → Pc  -- behind sem_wait
  loaded : ℕ → ℕ → Pc  -- behind the read of *ptr
  stored : ℕ → ℕ → Pc  -- behind the store of the sum
  told : ℕ → Pc  -- behind printf
  returned : Pc
  wait_failed : ℕ → Pc  -- exit(1)
  post_failed : ℕ → Pc  -- exit(1)

-- One step of one process, of `n` rounds. sem_wait blocks while the semaphore is 0.
pub data Move (n : ℕ) (who : Who) (m : Shared) : Pc → Shared → Pc → Type 0 where
  wait :
      {i : ℕ} → i < n → 0 < m.sem → Move n who m (head i) (record m { sem = m.sem - 1 }) (entered i)
  wait_fails :
      {i : ℕ} (e : Errno)
      → i < n
      → Move n who m
          (head i)
          (record m { errors = perror_line "sem_wait error" e ∷ m.errors })
          (wait_failed i)
  load : {i : ℕ} → Move n who m (entered i) m (loaded i m.counter)
  store :
      {i v : ℕ} → Move n who m (loaded i v) (record m { counter = (v + 1) % 2 ^ 32 }) (stored i v)
  print :
      {i v : ℕ}
      → Move n who m (stored i v) (record m { printed = (who, int_of v) ∷ m.printed }) (told i)
  post : {i : ℕ} → Move n who m (told i) (record m { sem = m.sem + 1 }) (head (suc i))
  post_fails :
      {i : ℕ} (e : Errno)
      → Move n who m
          (told i)
          (record m { errors = perror_line "sem_post error" e ∷ m.errors })
          (post_failed i)
  leave : {i : ℕ} → n ≤ i → Move n who m (head i) m returned

-- Both processes, in any order.
pub record System : Type 0 where
  pub mem : Shared
  pub pc_parent : Pc
  pub pc_child : Pc

pub data Step (n : ℕ) (s : System) : System → Type 0 where
  by_parent :
      {m : Shared} {p : Pc}
      → Move n parent s.mem s.pc_parent m p
      → Step n s (record { mem = m; pc_parent = p; pc_child = s.pc_child })
  by_child :
      {m : Shared} {p : Pc}
      → Move n child s.mem s.pc_child m p
      → Step n s (record { mem = m; pc_parent = s.pc_parent; pc_child = p })

-- Behind the fork: MAP_ANON memory is 0, and the semaphore has its first value.
abbrev pub init : System
init = record {
  mem = record { counter = 0; sem = 1; printed = []; errors = [] };
  pc_parent = head 0;
  pc_child = head 0;
}

abbrev pub Runs : ℕ → System → Type 0
Runs n = Reach (Step n) init
