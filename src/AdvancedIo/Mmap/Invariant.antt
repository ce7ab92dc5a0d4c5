-- ===== src/AdvancedIo/Mmap/Invariant.antt =====
-- mmap.c: the semaphore and the two processes fit each other, in every state that is reached.
use apue_code.Base.{
  ℤ, int_of, ℕ, suc, ◌+◌, ◌^◌, ◌≤◌, ◌<◌, ◌≡◌, List, [], ◌∷◌, length, arith, Reach-keeps,
}
use apue_code.AdvancedIo.Mmap.{
  Who, Shared, Pc, head, entered, loaded, stored, told, returned, wait_failed, post_failed, Move,
  wait, wait_fails, load, store, print, post, post_fails, leave, System, Step, by_parent, by_child,
  init, Runs,
}

-- 1 from the return of sem_wait to the next sem_post, also where that fails.
abbrev pub holds : Pc → ℕ
holds (head i) = 0
holds (entered i) = 1
holds (loaded i v) = 1
holds (stored i v) = 1
holds (told i) = 1
holds returned = 0
holds (wait_failed i) = 0
holds (post_failed i) = 1

-- 1 where the sum is stored and not yet printed.
abbrev pub owes : Pc → ℕ
owes (stored i v) = 1
owes (head i) = 0
owes (entered i) = 0
owes (loaded i v) = 0
owes (told i) = 0
owes returned = 0
owes (wait_failed i) = 0
owes (post_failed i) = 0

-- How often a process has printed.
abbrev pub rounds : ℕ → Pc → ℕ
rounds n (head i) = i
rounds n (entered i) = i
rounds n (loaded i v) = i
rounds n (stored i v) = i
rounds n (told i) = suc i
rounds n returned = n
rounds n (wait_failed i) = i
rounds n (post_failed i) = suc i

-- Where the loop's variable is below its bound, or at most the bound.
abbrev pub IsWithin : ℕ → Pc → Type 0
IsWithin n (head i) = i ≤ n
IsWithin n (entered i) = i < n
IsWithin n (loaded i v) = i < n
IsWithin n (stored i v) = i < n
IsWithin n (told i) = i < n
IsWithin n returned = Unit
IsWithin n (wait_failed i) = i < n
IsWithin n (post_failed i) = i < n

-- What a process has read is what the memory holds, or held before its store.
abbrev pub IsFresh : ℕ → Pc → Type 0
IsFresh c (loaded i v) = v ≡ c
IsFresh c (stored i v) = suc v ≡ c
IsFresh c (head i) = Unit
IsFresh c (entered i) = Unit
IsFresh c (told i) = Unit
IsFresh c returned = Unit
IsFresh c (wait_failed i) = Unit
IsFresh c (post_failed i) = Unit

-- The numbers printed are those of 0, 1, 2, ... in their order.
abbrev pub Counts : List (Who × ℤ) → Type 0
Counts [] = Unit
Counts ((who, v) ∷ l) = (v ≡ int_of (length l)) × Counts l

-- A process at `p`, with the other one at `q`.
pub record Inv (n : ℕ) (m : Shared) (p q : Pc) : Type 0 where
  pub small : n < 2 ^ 31
  pub free : m.sem + holds p + holds q ≡ 1
  pub counted : m.counter ≡ length m.printed + owes p + owes q
  pub made : length m.printed ≡ rounds n p + rounds n q
  pub within : IsWithin n p
  pub within' : IsWithin n q
  pub fresh : IsFresh m.counter p
  pub fresh' : IsFresh m.counter q
  pub counts : Counts m.printed

pub Inv-swap : {n : ℕ} {m : Shared} {p q : Pc} → Inv n m p q → Inv n m q p
Inv-swap i = record {
  small = i.small;
  free = omega (arith, i.free);
  counted = omega (arith, i.counted);
  made = omega (arith, i.made);
  within = i.within';
  within' = i.within;
  fresh = i.fresh';
  fresh' = i.fresh;
  counts = i.counts;
}

Move-Inv :
    {n : ℕ} {who : Who} {m m' : Shared} {p p' : Pc} (q : Pc)
    → Move n who m p m' p'
    → Inv n m p q
    → Inv n m' p' q
Move-Inv q (wait lt free) i = ground arith
Move-Inv q (wait_fails e lt) i = ground arith
Move-Inv q load i = ground arith
Move-Inv q store i = ground arith
Move-Inv q print i = ground arith
Move-Inv q post i = ground arith
Move-Inv q (post_fails e) i = ground arith
Move-Inv q (leave ge) i = ground arith

-- With fewer than 2 ^ 31 rounds, as an `int` has, each step keeps the invariant.
pub Step-Inv :
    {n : ℕ} (s t : System)
    → Step n s t
    → Inv n s.mem s.pc_parent s.pc_child
    → Inv n t.mem t.pc_parent t.pc_child
Step-Inv s t (by_parent mv) i = Move-Inv s.pc_child mv i
Step-Inv s t (by_child mv) i = Inv-swap (Move-Inv s.pc_parent mv (Inv-swap i))

pub init-Inv : (n : ℕ) → n < 2 ^ 31 → Inv n init.mem init.pc_parent init.pc_child
init-Inv n h = ground arith

pub Runs-Inv : {n : ℕ} {s : System} → n < 2 ^ 31 → Runs n s → Inv n s.mem s.pc_parent s.pc_child
Runs-Inv {n} small r =
    Reach-keeps (λ s. Inv n s.mem s.pc_parent s.pc_child) Step-Inv (init-Inv n small) r
