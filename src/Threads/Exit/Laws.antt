-- ===== src/Threads/Exit/Laws.antt =====
-- pthread_exit.c: what main learns of its threads, that it does not get stuck before its last join, and
-- that it fails there.
use apue_code.Base.{
  ℕ, ◌≡◌, ◌≢◌, ◌≤◌, ◌<◌, ◌+◌, ◌-◌, refl, true, if◌then◌else◌, Option, none, some, List, [], ◌∷◌, ℤ,
  pos, length, Line, arith, steps, Reach-bounded, ◌⊎◌, inl, inr,
}
use apue_code.Threads.Slot.{Slot, SlotStep, prints, ends, is_cancelled}
use apue_code.Threads.Exit.{
  Pc, attr_init, attr_set, create1, create2, create3, create4, join1, join2, cancel3, join3, join4,
  returned, failed, tell1, tell2, tell3, tell4, System, MainStep, inits, sets, creates1, creates2,
  creates3, creates4, joins1, tells1, joins2, tells2, cancels3, joins3, tells3, joins4, tells4,
  IsAlive, ThreadStep, thread1, thread2, thread3, thread4, Step, by_main, by_thread, fails, Runs,
}
use apue_code.Threads.Exit.Invariant.{rank, Inv, Step-Inv, init-Inv, Runs-Inv}

-- The steps that a thread has left. Each thread prints one line and ends.
abbrev left_until : Option ℤ → ℕ → ℕ
left_until none n = n + 1
left_until (some v) n = 0

abbrev left_of : Slot → ℕ
left_of t = if t.started then left_until t.value (length t.left) else 2

abbrev left : System → ℕ
left s = (16 - rank s.pc) + left_of s.t1 + left_of s.t2 + left_of s.t3 + left_of s.t4

SlotStep-left : (s t : Slot) (l : Option Line) → SlotStep s l t → left_of t < left_of s
SlotStep-left s t l (prints x ls a n e) = ground arith
SlotStep-left s t l (ends v a n e h) = ground arith
SlotStep-left s t l (is_cancelled a n c) = ground arith

MainStep-left : (s t : System) → MainStep s t → Inv s → left t < left s
MainStep-left s t (inits e) i = ground arith
MainStep-left s t (sets e) i = ground arith
MainStep-left s t (creates1 e) i = ground arith
MainStep-left s t (creates2 e) i = ground arith
MainStep-left s t (creates3 e) i = ground arith
MainStep-left s t (creates4 e) i = ground arith
MainStep-left s t (joins1 v e d g) i = ground arith
MainStep-left s t (tells1 v e) i = ground arith
MainStep-left s t (joins2 v e d g) i = ground arith
MainStep-left s t (tells2 v e) i = ground arith
MainStep-left s t (cancels3 e) i = ground arith
MainStep-left s t (joins3 v e d g) i = ground arith
MainStep-left s t (tells3 v e) i = ground arith
MainStep-left s t (joins4 v e d g) i = ground arith
MainStep-left s t (tells4 v e) i = ground arith

ThreadStep-left : (s t : System) → ThreadStep s t → left t < left s
ThreadStep-left s u (thread1 {t} l st) = omega (arith, SlotStep-left s.t1 t l st)
ThreadStep-left s u (thread2 {t} l st) = omega (arith, SlotStep-left s.t2 t l st)
ThreadStep-left s u (thread3 {t} l st) = omega (arith, SlotStep-left s.t3 t l st)
ThreadStep-left s u (thread4 {t} l st) = omega (arith, SlotStep-left s.t4 t l st)

Step-left : (s t : System) → Step s t → Inv s → left t < left s
Step-left s t (by_main st) i = MainStep-left s t st i
Step-left s t (by_thread a st) i = ThreadStep-left s t st
Step-left s t (fails call e f) i = ground arith

-- Every run has at most 24 steps, however the threads are scheduled and whichever calls fail.
Runs-finite : {s : System} (r : Runs s) → steps r ≤ 24
Runs-finite r =
    omega (
      arith,
      Reach-bounded Inv left (λ t u st i. (Step-Inv t u st i, Step-left t u st i)) init-Inv r,
    )

-- A thread that has not ended can make a step: main has asked to cancel it, or its function goes on.
moves :
    (s : Slot)
    → s.started ≡ true
    → s.value ≡ none
    → (s.cancelled ≡ true) ⊎ ((v : ℤ) × (s.last ≡ some v))
    → (l : Option Line) × (t : Slot) × SlotStep s l t
moves s a n (inl c) = (none, _, is_cancelled a n c)
moves s a n (inr (v, e)) = by_left s.left refl
  where
    by_left : (ls : List Line) → s.left ≡ ls → (l : Option Line) × (t : Slot) × SlotStep s l t
    by_left [] g = (none, _, ends v a n g e)
    by_left (l ∷ ls) g = (some l, _, prints l ls a n g)

-- A step in which no call fails.
abbrev pub Goes : System → Type 0
Goes s = (t : System) × (MainStep s t ⊎ ThreadStep s t)

Option-cases : (o : Option ℤ) → (o ≡ none) ⊎ ((v : ℤ) × (o ≡ some v))
Option-cases none = inl refl
Option-cases (some v) = inr (v, refl)

Pc-Goes : (s : System) (p : Pc) → s.pc ≡ p → IsAlive p → p ≢ join4 → Inv s → Goes s
Pc-Goes s attr_init e a n i = (_, inl (inits e))
Pc-Goes s attr_set e a n i = (_, inl (sets e))
Pc-Goes s create1 e a n i = (_, inl (creates1 e))
Pc-Goes s create2 e a n i = (_, inl (creates2 e))
Pc-Goes s create3 e a n i = (_, inl (creates3 e))
Pc-Goes s create4 e a n i = (_, inl (creates4 e))
Pc-Goes s join1 e a n i = elim (Option-cases s.t1.value) [
  | inl g ↦
      let (l, t, st) = moves s.t1 (ground (arith, i)) g (inr (pos 1, ground (arith, i))) in
      (_, inr (thread1 l st))
  | inr (v, g) ↦ (_, inl (joins1 v e (ground (arith, i)) g))
]
Pc-Goes s (tell1 v) e a n i = (_, inl (tells1 v e))
Pc-Goes s join2 e a n i = elim (Option-cases s.t2.value) [
  | inl g ↦
      let (l, t, st) = moves s.t2 (ground (arith, i)) g (inr (pos 2, ground (arith, i))) in
      (_, inr (thread2 l st))
  | inr (v, g) ↦ (_, inl (joins2 v e (ground (arith, i)) g))
]
Pc-Goes s (tell2 v) e a n i = (_, inl (tells2 v e))
Pc-Goes s cancel3 e a n i = (_, inl (cancels3 e))
Pc-Goes s join3 e a n i = elim (Option-cases s.t3.value) [
  | inl g ↦
      let (l, t, st) = moves s.t3 (ground (arith, i)) g (inl (ground (arith, i))) in
      (_, inr (thread3 l st))
  | inr (v, g) ↦ (_, inl (joins3 v e (ground (arith, i)) g))
]
Pc-Goes s (tell3 v) e a n i = (_, inl (tells3 v e))
Pc-Goes s join4 e a n i = absurd (n refl)
Pc-Goes s (tell4 v) e a n i = (_, inl (tells4 v e))
Pc-Goes s returned e a n i = elim a [ ]
Pc-Goes s failed e a n i = elim a [ ]

-- Before the last join main never waits for good: in every state that is reached, while the process runs
-- and main does not stand before that join, some thread can make a step in which no call fails.
pub Runs-Goes : {s : System} → Runs s → IsAlive s.pc → s.pc ≢ join4 → Goes s
Runs-Goes {s} r a n = Pc-Goes s s.pc refl a n (Runs-Inv r)
