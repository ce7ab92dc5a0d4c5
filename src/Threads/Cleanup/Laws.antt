-- ===== src/Threads/Cleanup/Laws.antt =====
-- pthread_cleanup.c: the order of the handlers, and what a finished run has printed.
use apue_code.Base.{
  String, ℕ, zero, suc, ◌≡◌, refl, true, false, if◌then◌else◌, ltb, some, List, [], ◌∷◌, ◌++◌, pos,
  Line, stdout, text,
}
use apue_code.Threads.Body.{Pushed, run}
use apue_code.Threads.Slot.{lines_by, Follows}
use apue_code.Threads.Cleanup.{
  cleanup, thr_fn2, Pc, create1, create2, join1, join2, returned, failed, tell1, tell2, System,
  exit_code, script1, script2,
}

abbrev pub line : String → Line
line s = stdout (text s ∷ [])

-- The handlers of a thread, the last pushed first.
abbrev pub handlers : String → String → List Pushed
handlers second first =
    record { routine = cleanup; arg = second } ∷ record { routine = cleanup; arg = first } ∷ []

-- The lines of the second thread's handlers, for its argument.
abbrev pub at_exit : ℕ → List Line
at_exit zero = []
at_exit (suc arg) = cleanup "thread 2 second handler" ++ cleanup "thread 2 first handler"

-- The second thread, left by pthread_exit with an argument other than 0, runs its handlers in the reverse
-- order of their pushes. With the argument 0 both were popped before, and none of them runs. It ends with
-- 2 in both cases.
pub thr_fn2_lem :
    (arg : ℕ)
    → run (thr_fn2 arg)
      ≡ (line "thread 2 start\n" ∷ line "thread 2 push complete\n" ∷ at_exit arg, some (pos 2))
unfolding thr_fn2
thr_fn2_lem zero = refl
thr_fn2_lem (suc arg) = refl

-- How far main has come.
abbrev rank : Pc → ℕ
rank create1 = 0
rank create2 = 1
rank join1 = 2
rank (tell1 v) = 3
rank join2 = 4
rank (tell2 v) = 5
rank returned = 6
rank failed = 7

-- What main has printed on its way, the newest first.
abbrev main_said : ℕ → List Line
main_said n =
    if ltb n 4
    then []
    else if ltb n 6
    then exit_code "thread 1" (pos 1) ∷ []
    else exit_code "thread 2" (pos 2) ∷ exit_code "thread 1" (pos 1) ∷ []

-- The value that main is about to print.
abbrev Known : Pc → Type 0
Known (tell1 v) = v ≡ pos 1
Known (tell2 v) = v ≡ pos 2
Known create1 = Unit
Known create2 = Unit
Known join1 = Unit
Known join2 = Unit
Known returned = Unit
Known failed = Unit

module _ (on_return : List Pushed → List Line) where
  record Inv (s : System) : Type 0 where
    f1 : Follows (script1 on_return) s.t1 (lines_by 1 s.log)
    f2 : Follows script2 s.t2 (lines_by 2 s.log)
    known : Known s.pc
    uncancelled : (s.t1.cancelled ≡ false) × (s.t2.cancelled ≡ false)
    there1 : ltb (rank s.pc) 7 ≡ true → s.t1.started ≡ ltb 0 (rank s.pc)
    there2 : ltb (rank s.pc) 7 ≡ true → s.t2.started ≡ ltb 1 (rank s.pc)
    end1 : ltb (rank s.pc) 7 ≡ true → ltb 2 (rank s.pc) ≡ true → s.t1.value ≡ some (pos 1)
    end2 : ltb (rank s.pc) 7 ≡ true → ltb 4 (rank s.pc) ≡ true → s.t2.value ≡ some (pos 2)
    said : ltb (rank s.pc) 7 ≡ true → lines_by 0 s.log ≡ main_said (rank s.pc)
