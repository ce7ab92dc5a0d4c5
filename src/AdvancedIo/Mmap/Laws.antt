-- ===== src/AdvancedIo/Mmap/Laws.antt =====
-- mmap.c: the two loops behave as one counter, never wait for each other forever, and end.
use apue_code.Base.{
  ℤ, int_of, pos, ◌∙◌, ℕ, ◌+◌, ◌-◌, ◌*◌, ◌^◌, ◌≤◌, ◌<◌, ◌≡◌, ◌⊎◌, inl, inr, refl, List, [], ◌∷◌,
  length, arith, Reach, here, next, Reach-bounded, steps,
}
use native.Mathlib.Decide.{dec_lt}
use apue_code.AdvancedIo.Mmap.{
  Who, parent, child, Shared, Pc, head, entered, loaded, stored, told, returned, wait_failed,
  post_failed, Move, wait, wait_fails, load, store, print, post, post_fails, leave, System, Step,
  by_parent, by_child, Runs,
}
use apue_code.AdvancedIo.Mmap.Invariant.{
  holds, rounds, IsWithin, Counts, Inv, Inv-swap, Step-Inv, init-Inv, Runs-Inv,
}

-- The specification: a counter that gives each caller the next number at once.
pub data Tick (h : List (Who × ℤ)) : List (Who × ℤ) → Type 0 where
  tick : (who : Who) → Tick h ((who, pos (length h)) ∷ h)

int_of-small : (v : ℕ) → v < 2 ^ 31 → int_of v ≡ pos v
int_of-small v h = ground arith

Counts-Ticks : (l : List (Who × ℤ)) → length l ≤ 2 ^ 31 → Counts l → Reach Tick [] l
Counts-Ticks [] small h = here
Counts-Ticks ((who, v) ∷ l) small (e, h) =
    rw (e ∙ int_of-small (length l) (omega arith))
      (next (Counts-Ticks l (omega arith) h) (tick who))

rounds-bounded : (n : ℕ) (p : Pc) → IsWithin n p → rounds n p ≤ n
rounds-bounded n (head i) h = h
rounds-bounded n (entered i) h = omega arith
rounds-bounded n (loaded i v) h = omega arith
rounds-bounded n (stored i v) h = omega arith
rounds-bounded n (told i) h = omega arith
rounds-bounded n returned h = omega arith
rounds-bounded n (wait_failed i) h = omega arith
rounds-bounded n (post_failed i) h = omega arith

-- In every state that is reached, with fewer than 2 ^ 30 rounds, so that the integer does not overflow,
-- the numbers printed by the two processes are a run of a counter that gives each caller the next number
-- at once: however the reads and stores of the two interleave, no number is left out or printed twice.
pub Runs-refines : {n : ℕ} {s : System} → n < 2 ^ 30 → Runs n s → Reach Tick [] s.mem.printed
Runs-refines {n} {s} small r =
    let i : Inv n s.mem s.pc_parent s.pc_child = Runs-Inv (omega arith) r in
    Counts-Ticks s.mem.printed
      (omega (
        arith,
        i.made,
        rounds-bounded n s.pc_parent i.within,
        rounds-bounded n s.pc_child i.within',
      ))
      i.counts

-- With fewer than 2 ^ 31 rounds, in no state that is reached are both processes between the return of
-- sem_wait and that of sem_post.
Runs-exclusive :
    {n : ℕ} {s : System} → n < 2 ^ 31 → Runs n s → ¬ (holds s.pc_parent + holds s.pc_child ≡ 2)
Runs-exclusive small r both = omega (arith, (Runs-Inv small r).free)

-- The steps that a process has left.
abbrev pub left : ℕ → Pc → ℕ
left n (head i) = 5 * (n - i) + 1
left n (entered i) = 5 * (n - i)
left n (loaded i v) = 5 * (n - i) - 1
left n (stored i v) = 5 * (n - i) - 2
left n (told i) = 5 * (n - i) - 3
left n returned = 0
left n (wait_failed i) = 0
left n (post_failed i) = 0

Move-left :
    {n : ℕ} {who : Who} {m m' : Shared} {p p' : Pc} (q : Pc)
    → Move n who m p m' p'
    → Inv n m p q
    → left n p' < left n p
Move-left q (wait lt free) i = omega arith
Move-left q (wait_fails e lt) i = omega arith
Move-left q load i = omega (arith, i.within)
Move-left q store i = omega (arith, i.within)
Move-left q print i = omega (arith, i.within)
Move-left q post i = omega (arith, i.within)
Move-left q (post_fails e) i = omega (arith, i.within)
Move-left q (leave ge) i = omega arith

-- From a start with fewer than 2 ^ 31 rounds no run has more than 10 steps for each round and two
-- more, failing calls included: the two processes cannot go on forever.
pub Runs-bounded : {n : ℕ} {s : System} → n < 2 ^ 31 → (r : Runs n s) → steps r ≤ 10 * n + 2
Runs-bounded {n} small r = omega (
  arith,
  Reach-bounded (λ s. Inv n s.mem s.pc_parent s.pc_child)
      (λ s. left n s.pc_parent + left n s.pc_child) keep (init-Inv n small) r,
)
  where
    keep :
        (t u : System)
        → Step n t u
        → Inv n t.mem t.pc_parent t.pc_child
        → Inv n u.mem u.pc_parent u.pc_child
          × (left n u.pc_parent + left n u.pc_child < left n t.pc_parent + left n t.pc_child)
    keep t u (by_parent mv) i =
        (Step-Inv t u (by_parent mv) i, omega (arith, Move-left t.pc_child mv i))
    keep t u (by_child mv) i =
        (Step-Inv t u (by_child mv) i, omega (arith, Move-left t.pc_parent mv (Inv-swap i)))

-- No call of the process has failed.
abbrev pub IsCalm : Pc → Type 0
IsCalm (wait_failed i) = ⊥
IsCalm (post_failed i) = ⊥
IsCalm (head i) = Unit
IsCalm (entered i) = Unit
IsCalm (loaded i v) = Unit
IsCalm (stored i v) = Unit
IsCalm (told i) = Unit
IsCalm returned = Unit

-- A process can go on, or has returned, or waits for the semaphore.
data Outlook (n : ℕ) (who : Who) (m : Shared) (p : Pc) : Type 0 where
  goes : (m' : Shared) (p' : Pc) → Move n who m p m' p' → IsCalm p' → Outlook n who m p
  over : p ≡ returned → Outlook n who m p
  waits : (i : ℕ) → p ≡ head i → m.sem ≡ 0 → Outlook n who m p

outlook : (n : ℕ) (who : Who) (m : Shared) (p : Pc) → IsCalm p → Outlook n who m p
outlook n who m (head i) c = elim (dec_lt i n) [
  | yes lt ↦ elim (dec_lt 0 m.sem) [
    | yes free ↦ goes _ _ (wait lt free) tt
    | no taken ↦ waits i refl (omega arith)
  ]
  | no ge ↦ goes _ _ (leave (omega arith)) tt
]
outlook n who m (entered i) c = goes _ _ load tt
outlook n who m (loaded i v) c = goes _ _ store tt
outlook n who m (stored i v) c = goes _ _ print tt
outlook n who m (told i) c = goes _ _ post tt
outlook n who m returned c = over refl
outlook n who m (wait_failed i) c = elim c [ ]
outlook n who m (post_failed i) c = elim c [ ]

abbrev pub AllCalm : System → Type 0
AllCalm s = IsCalm s.pc_parent × IsCalm s.pc_child

-- Both processes have returned, the integer has been counted up once for each round of each, and
-- as many numbers were printed.
abbrev pub IsFinal : ℕ → System → Type 0
IsFinal n s =
    (s.pc_parent ≡ returned)
    × (s.pc_child ≡ returned)
    × (s.mem.counter ≡ 2 * n)
    × (length s.mem.printed ≡ 2 * n)

-- With fewer than 2 ^ 31 rounds, and while no call has failed, every state that is reached is final or
-- has a next step in which no call fails: the processes never wait for each other forever.
pub Runs-progress :
    {n : ℕ} {s : System}
    → n < 2 ^ 31
    → Runs n s
    → AllCalm s
    → ((t : System) × Step n s t × AllCalm t) ⊎ IsFinal n s
Runs-progress {n} {s} small r (c, c') =
    decide (outlook n parent s.mem s.pc_parent c) (outlook n child s.mem s.pc_child c')
  where
    i : Inv n s.mem s.pc_parent s.pc_child
    i = Runs-Inv small r

    decide :
        Outlook n parent s.mem s.pc_parent
        → Outlook n child s.mem s.pc_child
        → ((t : System) × Step n s t × AllCalm t) ⊎ IsFinal n s
    decide (goes m p mv calm) q = inl (_, by_parent mv, (calm, c'))
    decide (over e) (goes m p mv calm) = inl (_, by_child mv, (c, calm))
    decide (waits k e taken) (goes m p mv calm) = inl (_, by_child mv, (c, calm))
    decide (over e) (over e') = inr (e, e', ground (arith, i), ground (arith, i))
    decide (over e) (waits k e' taken) = ground (arith, i)
    decide (waits k e taken) (over e') = ground (arith, i)
    decide (waits k e taken) (waits k' e' taken') = ground (arith, i)
