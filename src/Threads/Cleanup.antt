-- ===== src/Threads/Cleanup.antt =====
-- threads/pthread_cleanup.c: two threads that push cleanup handlers and leave, one by a return and one by
-- pthread_exit, and main, which joins them. Each step of the model is one call of one thread.
pub mod Laws
use apue_code.Base.{
  ℕ, zero, suc, ◌≡◌, String, Bool, true, false, Option, none, some, List, [], ◌∷◌, ◌++◌, ℤ, pos,
  Errno, Line, stdout, stderr, text, num, error_text, Reach,
}
use apue_code.Threads.Body.{
  Body, Pushed, printf, pthread_cleanup_push, pthread_cleanup_pop, pthread_exit, returns, run, ◌>>◌,
  ◌>>=◌,
}
use apue_code.Threads.Slot.{Slot, absent, created, SlotStep, Log, with_line}

abbrev pub cleanup : String → List Line
cleanup arg = stdout (text "cleanup: " ∷ text arg ∷ text "\n" ∷ []) ∷ []

module _ (on_return : List Pushed → List Line) where
  -- Behind `if (arg) return (void *)1;`
  abbrev after1 : ℕ → Body (Unit {0})
  after1 zero = do pthread_cleanup_pop false; pthread_cleanup_pop false; returns on_return (pos 1)
  after1 (suc arg) = returns on_return (pos 1)

  pub thr_fn1 : ℕ → Body (Unit {0})
  thr_fn1 arg = do
    printf (text "thread 1 start\n" ∷ [])
    pthread_cleanup_push cleanup "thread 1 first handler"
    pthread_cleanup_push cleanup "thread 1 second handler"
    printf (text "thread 1 push complete\n" ∷ [])
    after1 arg

-- Behind `if (arg) pthread_exit((void *)2);`
abbrev after2 : ℕ → Body (Unit {0})
after2 zero = do pthread_cleanup_pop false; pthread_cleanup_pop false; pthread_exit (pos 2)
after2 (suc arg) = pthread_exit (pos 2)

pub thr_fn2 : ℕ → Body (Unit {0})
thr_fn2 arg = do
  printf (text "thread 2 start\n" ∷ [])
  pthread_cleanup_push cleanup "thread 2 first handler"
  pthread_cleanup_push cleanup "thread 2 second handler"
  printf (text "thread 2 push complete\n" ∷ [])
  after2 arg

-- The next call of main. The process has ended by a return of main or by exit(1).
pub data Pc : Type 0 where
  create1 create2 join1 join2 returned failed : Pc
  tell1 tell2 : ℤ → Pc

pub record System : Type 0 where
  pub pc : Pc
  pub t1 : Slot
  pub t2 : Slot
  pub log : Log

abbrev pub exit_code : String → ℤ → Line
exit_code thread v = stdout (text thread ∷ text " exit code " ∷ num v ∷ text "\n" ∷ [])

abbrev pub main_line : Line → Log → Log
main_line l log = with_line 0 (some l) log

module _ (on_return : List Pushed → List Line) where
  -- What the threads do with the argument that main gives them.
  unfoldable pub script1 : List Line × Option ℤ
  unfolding thr_fn1
  script1 = run (thr_fn1 on_return 1)

unfoldable pub script2 : List Line × Option ℤ
unfolding thr_fn2
script2 = run (thr_fn2 1)

-- A step of main in which no call fails.
pub data MainStep (on_return : List Pushed → List Line) (s : System) : System → Type 0 where
  creates1 :
      s.pc ≡ create1
      → MainStep on_return s (record s { pc = create2; t1 = created false (script1 on_return) })
  creates2 :
      s.pc ≡ create2 → MainStep on_return s (record s { pc = join1; t2 = created false script2 })
  joins1 :
      (v : ℤ)
      → s.pc ≡ join1
      → s.t1.value ≡ some v
      → MainStep on_return s (record s { pc = tell1 v })
  tells1 :
      (v : ℤ)
      → s.pc ≡ tell1 v
      → MainStep on_return s
          (record s { pc = join2; log = main_line (exit_code "thread 1" v) s.log })
  joins2 :
      (v : ℤ)
      → s.pc ≡ join2
      → s.t2.value ≡ some v
      → MainStep on_return s (record s { pc = tell2 v })
  tells2 :
      (v : ℤ)
      → s.pc ≡ tell2 v
      → MainStep on_return s
          (record s { pc = returned; log = main_line (exit_code "thread 2" v) s.log })

-- The text for a failure of the next call, where it is one that may fail.
abbrev pub call_text : Pc → Option String
call_text create1 = some "pthread_create#1 error: "
call_text create2 = some "pthread_create#2 error: "
call_text join1 = some "pthread_join#1 error: "
call_text join2 = some "pthread_join#2 error: "
call_text (tell1 v) = none
call_text (tell2 v) = none
call_text returned = none
call_text failed = none

abbrev pub failure : String → Errno → Line
failure call e = stderr (text call ∷ error_text e ∷ text "\n" ∷ [])

abbrev pub IsAlive : Pc → Type 0
IsAlive returned = ⊥
IsAlive failed = ⊥
IsAlive create1 = Unit
IsAlive create2 = Unit
IsAlive join1 = Unit
IsAlive join2 = Unit
IsAlive (tell1 v) = Unit
IsAlive (tell2 v) = Unit

pub data Step (on_return : List Pushed → List Line) (s : System) : System → Type 0 where
  by_main : {t : System} → MainStep on_return s t → Step on_return s t
  thread1 :
      {t : Slot} (l : Option Line)
      → IsAlive s.pc
      → SlotStep s.t1 l t
      → Step on_return s (record s { t1 = t; log = with_line 1 l s.log })
  thread2 :
      {t : Slot} (l : Option Line)
      → IsAlive s.pc
      → SlotStep s.t2 l t
      → Step on_return s (record s { t2 = t; log = with_line 2 l s.log })
  fails :
      (call : String) (e : Errno)
      → call_text s.pc ≡ some call
      → Step on_return s (record s { pc = failed; log = main_line (failure call e) s.log })

abbrev pub init : System
init = record { pc = create1; t1 = absent; t2 = absent; log = [] }

abbrev pub Runs : (List Pushed → List Line) → System → Type 0
Runs on_return = Reach (Step on_return) init
