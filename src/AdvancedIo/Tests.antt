-- ===== src/AdvancedIo/Tests.antt =====
-- Runs of the programs of advanced_io/, and their theorems at these.
use apue_code.AdvancedIo.Asynchronous
use apue_code.AdvancedIo.RecordLock
use apue_code.Base.{
  text, num, ℤ, pos, stdout, ℕ, zero, suc, ◌<◌, refl, List, [], ◌∷◌, ◌++◌, arith, length, take_all,
  ok, fail, Result, no_error, other, Process, ◌≡◌, ◌⊎◌, ◌+◌, ◌*◌, ◌≤◌, Errno, perror_line, true,
  Reach, here, next, steps,
}
use apue_code.FileIo.Kernel.{FileSys}
use apue_code.AdvancedIo.Nonblock.{main}
use apue_code.AdvancedIo.Nonblock.Laws.{Takes, Wrote, main-Wrote}
use apue_code.AdvancedIo.Mmap
use apue_code.AdvancedIo.Mmap.{Move, by_parent, by_child}
use apue_code.AdvancedIo.Mmap.Laws.{
  Tick, AllCalm, IsFinal, Runs-refines, Runs-bounded, Runs-progress,
}
use apue_code.AdvancedIo.MandatoryLock as Lock
use apue_code.AdvancedIo.MandatoryLock.{
  locks, tells, writes, waits_parent, wait_fails, hears, hear_fails, gets_flags, sets_flags,
  is_granted,
}
use apue_code.AdvancedIo.MandatoryLock.Laws.{Runs-ordered, Step-orphan}

-- What a terminal has shown, and how often it will still be busy.
record Terminal : Type 0 where
  shown : List ℕ
  waits : ℕ

-- EAGAIN is 11.
abbrev write_when : ℕ → List ℕ → Terminal → Result ℕ × Terminal
write_when zero bs t = (ok (length bs), record t { shown = t.shown ++ bs })
write_when (suc n) bs t = (fail (other 11), record t { waits = n })

abbrev terminal : FileSys
terminal = record {
  State = Terminal;
  open_file = λ path flags t. (ok 3, t);
  read = λ fd n t. (ok (b'h' ∷ b'i' ∷ []), t);
  write = λ fd bs t. write_when t.waits bs t;
  get_flags = λ fd t. (ok 2, t);
  set_flags = λ fd flags t. (ok tt, t);
  lstat_mode = λ path t. (ok 0, t);
  readlink = λ path n t. (ok [], t);
}

write_when-Takes :
    (bs : List ℕ) (shown : List ℕ) (n : ℕ)
    → 0 < length bs
    → Takes terminal
        (λ t. t.shown)
        (λ t. t.waits)
        bs
        (record { shown = shown; waits = n })
        (write_when n bs (record { shown = shown; waits = n }))
write_when-Takes bs shown zero h = (omega arith, rw (take_all), omega arith, omega arith)
write_when-Takes bs shown (suc n) h = (refl, omega arith)

abbrev start : Process Terminal
start = record { kernel = record { shown = []; waits = 2 }; errno = no_error; log = [] }

main-Wrote_example :
    Wrote terminal (λ t. t.shown) (λ t. t.waits) (b'h' ∷ b'i' ∷ []) (main terminal 5 start)
main-Wrote_example =
    main-Wrote terminal (λ t. t.shown) (λ t. t.waits)
      (λ bs t h. write_when-Takes bs t.shown t.waits h) 5 start (b'h' ∷ b'i' ∷ []) 2 start.kernel
      start.kernel start.kernel refl refl refl (omega arith)

-- The parent makes its one round while the child waits, then the child makes its own.
abbrev one_round : (s : Mmap.System) × Mmap.Runs 1 s
one_round =
    let r1 =
      next (next here (by_parent (Move.wait (omega arith) (omega arith)))) (by_parent Move.load) in
    let r2 = next (next r1 (by_parent Move.store)) (by_parent Move.print) in
    let r3 =
      next (next r2 (by_parent Move.post)) (by_child (Move.wait (omega arith) (omega arith))) in
    let r4 = next (next r3 (by_parent (Move.leave (omega arith)))) (by_child Move.load) in
    let r5 = next (next r4 (by_child Move.store)) (by_child Move.print) in
    (_, next (next r5 (by_child Move.post)) (by_child (Move.leave (omega arith))))

one_round_run : one_round.0.mem.printed ≡ (Mmap.child, pos 1) ∷ (Mmap.parent, pos 0) ∷ []
one_round_run = refl

Runs-refines_example : Reach Tick [] ((Mmap.child, pos 1) ∷ (Mmap.parent, pos 0) ∷ [])
Runs-refines_example = Runs-refines {n = 1} (omega arith) one_round.1

Runs-bounded_example : steps one_round.1 ≤ 10 * 1 + 2
Runs-bounded_example = Runs-bounded {n = 1} (omega arith) one_round.1

Runs-progress_example :
    ((t : Mmap.System) × Mmap.Step 1 Mmap.init t × AllCalm t) ⊎ IsFinal 1 Mmap.init
Runs-progress_example = Runs-progress {n = 1} (omega arith) here (tt, tt)

-- The parent locks the file and tells the child, which comes to its read lock.
abbrev trying_run : (s : Lock.System) × Lock.Runs s
trying_run =
    let r1 =
      next (next here (Lock.Step.by_parent (locks refl)))
        (Lock.Step.by_parent (tells (writes refl))) in
    let r2 = next r1 (Lock.Step.by_child (waits_parent (hears refl (omega arith)))) in
    let r3 = next r2 (Lock.Step.by_child (gets_flags 2 refl)) in
    (_, next r3 (Lock.Step.by_child (sets_flags _ refl)))

Runs-ordered_example : (trying_run.0.locked ≡ true) ⊎ (trying_run.0.parent ≡ Lock.Parent.ended 1)
Runs-ordered_example = Runs-ordered trying_run.1 refl

-- The parent does not get its lock.
abbrev orphaned : Lock.System
orphaned = Lock.parent_dies Lock.init []

Step-orphan_example :
    (e : Errno) × (Lock.child_dies orphaned (perror_line "child read error" (other 5) ∷ [])
      ≡ Lock.child_dies orphaned (perror_line "child read error" e ∷ []))
Step-orphan_example =
    Step-orphan {s = orphaned} 1 (Lock.Step.by_child (waits_parent (hear_fails (other 5) refl)))
      refl refl refl

-- The state is the last lock that was asked for, by its start.
abbrev locking_calls : RecordLock.Calls ℤ
locking_calls = record {
  open_file = λ path flags mode s. (ok 3, s);
  fcntl = λ fd cmd lock s. (ok tt, lock.l_start);
  clock = λ s. ("10:00:00 AM", s);
  getpid = λ s. 7;
  sleep = λ n s. (ok 0, s);
}

-- The release has the start that stood in `unlock` by chance.
release_run :
    (RecordLock.main locking_calls
      (pos 99, pos 1)
      ("lock" ∷ "f" ∷ "w" ∷ "5" ∷ [])
      (record { kernel = pos 0; errno = no_error; log = [] })).1.kernel
    ≡ pos 99
unfolding RecordLock.main
release_run = refl

-- A file of three bytes.
abbrev async_calls : Asynchronous.Calls ℕ
async_calls = record {
  open_file = λ path flags mode s. (ok 3, s);
  read = λ fd n s. (ok (1 ∷ 2 ∷ 3 ∷ []), s);
  aio_write = λ cb s. (ok tt, cb.aio_nbytes);
  aio_suspend = λ cbs s. (ok tt, s);
  aio_error = λ cb s. (0, s);
  aio_return = λ cb s. (ok s, s);
}

async_run :
    (Asynchronous.main async_calls
      ("aio" ∷ "a" ∷ "b" ∷ [])
      (record { kernel = 0; errno = no_error; log = [] })).1.log
    ≡ stdout (text "aio_write operation return " ∷ num (pos 3) ∷ text "\n" ∷ [])
      ∷ stdout (text "asynchronous write completion\n" ∷ [])
      ∷ []
unfolding Asynchronous.main
async_run = refl
