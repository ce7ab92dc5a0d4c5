-- ===== src/Threads/Exit/Invariant.antt =====
-- What holds in every state of pthread_exit.c.
use apue_code.Base.{
  not, ℕ, ◌≡◌, refl, Bool, true, false, if◌then◌else◌, some, List, [], ◌∷◌, pos, Line, arith,
  Reach-keeps, ltb,
}
use apue_code.Threads.Slot.{
  Slot, pthread_canceled, lines_by, Follows, absent-Follows, created-Follows, SlotStep-Follows,
  lines_by-same, lines_by-other, SlotStep-keeps, SlotStep-final,
}
use apue_code.Threads.Exit.{
  script1, script2, script3, script4, Pc, attr_init, attr_set, create1, create2, create3, create4,
  join1, join2, cancel3, join3, join4, returned, failed, tell1, tell2, tell3, tell4, System,
  exit_code, exit_code3, MainStep, inits, sets, creates1, creates2, creates3, creates4, joins1,
  tells1, joins2, tells2, cancels3, joins3, tells3, joins4, tells4, IsAlive, ThreadStep, thread1,
  thread2, thread3, thread4, Step, by_main, by_thread, fails, init, Runs,
}

-- How far main has come.
abbrev pub rank : Pc → ℕ
rank attr_init = 0
rank attr_set = 1
rank create1 = 2
rank create2 = 3
rank create3 = 4
rank create4 = 5
rank join1 = 6
rank (tell1 v) = 7
rank join2 = 8
rank (tell2 v) = 9
rank cancel3 = 10
rank join3 = 11
rank (tell3 v) = 12
rank join4 = 13
rank (tell4 v) = 14
rank returned = 15
rank failed = 16

-- What main has printed on its way, the newest first.
abbrev pub main_said : ℕ → List Line
main_said n =
    if ltb n 8
    then []
    else if ltb n 10
    then exit_code "thread 1" (pos 1) ∷ []
    else if ltb n 13
    then exit_code "thread 2" (pos 2) ∷ exit_code "thread 1" (pos 1) ∷ []
    else exit_code3 pthread_canceled
      ∷ exit_code "thread 2" (pos 2)
      ∷ exit_code "thread 1" (pos 1)
      ∷ []

-- The value that main is about to print.
abbrev pub Known : Pc → Type 0
Known (tell1 v) = v ≡ pos 1
Known (tell2 v) = v ≡ pos 2
Known (tell3 v) = v ≡ pthread_canceled
Known (tell4 v) = ⊥
Known returned = ⊥
Known failed = Unit
Known attr_init = Unit
Known attr_set = Unit
Known create1 = Unit
Known create2 = Unit
Known create3 = Unit
Known create4 = Unit
Known join1 = Unit
Known join2 = Unit
Known cancel3 = Unit
Known join3 = Unit
Known join4 = Unit

-- A thread that main has created is there, and is cancelled only where main has asked for it.
pub record IsOpen (from asked : ℕ) (detached : Bool) (n : ℕ) (t : Slot) : Type 0 where
  pub is_started : t.started ≡ not (ltb n from)
  pub is_detached : t.started ≡ true → t.detached ≡ detached
  pub is_asked : t.cancelled ≡ not (ltb n asked)

pub record Inv (s : System) : Type 0 where
  pub f1 : Follows script1 s.t1 (lines_by 1 s.log)
  pub f2 : Follows script2 s.t2 (lines_by 2 s.log)
  pub f3 : Follows script3 s.t3 (lines_by 3 s.log)
  pub f4 : Follows script4 s.t4 (lines_by 4 s.log)
  pub known : Known s.pc
  pub o1 : IsAlive s.pc → IsOpen 3 99 false (rank s.pc) s.t1
  pub o2 : IsAlive s.pc → IsOpen 4 99 false (rank s.pc) s.t2
  pub o3 : IsAlive s.pc → IsOpen 5 11 false (rank s.pc) s.t3
  pub o4 : IsAlive s.pc → IsOpen 6 99 true (rank s.pc) s.t4
  pub end1 : ltb 6 (rank s.pc) ≡ true → IsAlive s.pc → s.t1.value ≡ some (pos 1)
  pub end2 : ltb 8 (rank s.pc) ≡ true → IsAlive s.pc → s.t2.value ≡ some (pos 2)
  pub said : IsAlive s.pc → lines_by 0 s.log ≡ main_said (rank s.pc)

MainStep-Inv : (s t : System) → MainStep s t → Inv s → Inv t
MainStep-Inv s t (inits e) i = ground arith
MainStep-Inv s t (sets e) i = ground arith
MainStep-Inv s t (creates1 e) i =
    ground (arith, created-Follows script1 false s.t1 (lines_by 1 s.log) (ground arith) i.f1)
MainStep-Inv s t (creates2 e) i =
    ground (arith, created-Follows script2 false s.t2 (lines_by 2 s.log) (ground arith) i.f2)
MainStep-Inv s t (creates3 e) i =
    ground (arith, created-Follows script3 false s.t3 (lines_by 3 s.log) (ground arith) i.f3)
MainStep-Inv s t (creates4 e) i =
    ground (arith, created-Follows script4 true s.t4 (lines_by 4 s.log) (ground arith) i.f4)
MainStep-Inv s t (joins1 v e d g) i = ground (arith, i.f1.ended v g, i.f1.stopped v g)
MainStep-Inv s t (tells1 v e) i = ground arith
MainStep-Inv s t (joins2 v e d g) i = ground (arith, i.f2.ended v g, i.f2.stopped v g)
MainStep-Inv s t (tells2 v e) i = ground arith
MainStep-Inv s t (cancels3 e) i = ground arith
MainStep-Inv s t (joins3 v e d g) i = ground (arith, i.f3.ended v g, i.f3.stopped v g)
MainStep-Inv s t (tells3 v e) i = ground arith
MainStep-Inv s t (joins4 v e d g) i = ground (arith, i.f4.ended v g, i.f4.stopped v g)
MainStep-Inv s t (tells4 v e) i = ground arith

ThreadStep-Inv : (s t : System) → ThreadStep s t → Inv s → Inv t
ThreadStep-Inv s u (thread1 {t} l st) i = ground (
  arith,
  SlotStep-keeps s.t1 t l st,
  SlotStep-final s.t1 t l st,
  SlotStep-Follows script1 s.t1 t l (lines_by 1 s.log) st i.f1,
  lines_by-same 1 l s.log,
  lines_by-other 0 1 l s.log refl,
  lines_by-other 2 1 l s.log refl,
  lines_by-other 3 1 l s.log refl,
  lines_by-other 4 1 l s.log refl,
)
ThreadStep-Inv s u (thread2 {t} l st) i = ground (
  arith,
  SlotStep-keeps s.t2 t l st,
  SlotStep-final s.t2 t l st,
  SlotStep-Follows script2 s.t2 t l (lines_by 2 s.log) st i.f2,
  lines_by-same 2 l s.log,
  lines_by-other 0 2 l s.log refl,
  lines_by-other 1 2 l s.log refl,
  lines_by-other 3 2 l s.log refl,
  lines_by-other 4 2 l s.log refl,
)
ThreadStep-Inv s u (thread3 {t} l st) i = ground (
  arith,
  SlotStep-keeps s.t3 t l st,
  SlotStep-final s.t3 t l st,
  SlotStep-Follows script3 s.t3 t l (lines_by 3 s.log) st i.f3,
  lines_by-same 3 l s.log,
  lines_by-other 0 3 l s.log refl,
  lines_by-other 1 3 l s.log refl,
  lines_by-other 2 3 l s.log refl,
  lines_by-other 4 3 l s.log refl,
)
ThreadStep-Inv s u (thread4 {t} l st) i = ground (
  arith,
  SlotStep-keeps s.t4 t l st,
  SlotStep-final s.t4 t l st,
  SlotStep-Follows script4 s.t4 t l (lines_by 4 s.log) st i.f4,
  lines_by-same 4 l s.log,
  lines_by-other 0 4 l s.log refl,
  lines_by-other 1 4 l s.log refl,
  lines_by-other 2 4 l s.log refl,
  lines_by-other 3 4 l s.log refl,
)

pub Step-Inv : (s t : System) → Step s t → Inv s → Inv t
Step-Inv s t (by_main st) i = MainStep-Inv s t st i
Step-Inv s t (by_thread a st) i = ThreadStep-Inv s t st i
Step-Inv s t (fails call e f) i = ground arith

pub init-Inv : Inv init
init-Inv = record {
  f1 = absent-Follows script1;
  f2 = absent-Follows script2;
  f3 = absent-Follows script3;
  f4 = absent-Follows script4;
  known = tt;
  o1 = λ a. ground arith;
  o2 = λ a. ground arith;
  o3 = λ a. ground arith;
  o4 = λ a. ground arith;
  end1 = λ e. cc;
  end2 = λ e. cc;
  said = λ a. refl;
}

pub Runs-Inv : {s : System} → Runs s → Inv s
Runs-Inv r = Reach-keeps Inv Step-Inv init-Inv r
