-- ===== src/Threads/Exit.antt =====
-- threads/pthread_exit.c: main creates four threads, joins two, cancels and joins the third, and tries to
-- join the fourth, which is detached. Each step of the model is one call of one thread.
pub mod Invariant
pub mod Laws
use apue_code.Base.{
  ℕ, suc, zero, ◌≡◌, String, Bool, true, false, if◌then◌else◌, Option, none, some, List, [], ◌∷◌,
  ◌++◌, ℤ, pos, negsuc, Errno, Line, stdout, stderr, text, num, error_text, Reach,
}
use apue_code.Threads.Body.{Body, printf, pthread_exit, returns, pause, run, ◌>>◌}
use apue_code.Threads.Slot.{Slot, absent, created, SlotStep, pthread_canceled, Log, with_line}

-- No cleanup handler is pushed here, so nothing is left open for a return.
abbrev thr_fn1 : Body (Unit {0})
thr_fn1 = do printf (text "thread 1 returning\n" ∷ []); returns (λ handlers. []) (pos 1)

abbrev thr_fn2 : Body (Unit {0})
thr_fn2 = do printf (text "thread 2 returning\n" ∷ []); pthread_exit (pos 2)

abbrev thr_fn3 : Body (Unit {0})
thr_fn3 = do printf (text "thread 3 canceled\n" ∷ []); pause; pthread_exit (pos 3)

abbrev thr_fn4 : Body (Unit {0})
thr_fn4 = do printf (text "thread 4 detached\n" ∷ []); pause; pthread_exit (pos 4)

abbrev pub script1 : List Line × Option ℤ
script1 = run thr_fn1

abbrev pub script2 : List Line × Option ℤ
script2 = run thr_fn2

abbrev pub script3 : List Line × Option ℤ
script3 = run thr_fn3

abbrev pub script4 : List Line × Option ℤ
script4 = run thr_fn4

-- The next call of main. The process has ended by a return of main or by exit(1).
pub data Pc : Type 0 where
  attr_init attr_set create1 create2 create3 create4 join1 join2 cancel3 join3 join4 returned
        failed :
      Pc
  tell1 tell2 tell3 tell4 : ℤ → Pc

pub record System : Type 0 where
  pub pc : Pc
  pub t1 : Slot
  pub t2 : Slot
  pub t3 : Slot
  pub t4 : Slot
  pub log : Log

abbrev pub main_line : Line → Log → Log
main_line l log = with_line 0 (some l) log

abbrev pub exit_code : String → ℤ → Line
exit_code thread v = stdout (text thread ∷ text " exit code " ∷ num v ∷ text "\n" ∷ [])

-- The line for the third thread tells PTHREAD_CANCELED.
abbrev pub is_canceled : ℤ → Bool
is_canceled (pos n) = false
is_canceled (negsuc zero) = true
is_canceled (negsuc (suc n)) = false

abbrev pub exit_code3 : ℤ → Line
exit_code3 v = stdout (
    text "thread 3"
    ∷ text " exit code "
    ∷ num v
    ∷ text (if is_canceled v then " (PTHREAD_CANCELED)" else "")
    ∷ text "\n"
    ∷ [])

-- A step of main in which no call fails. pthread_join waits for the end of a thread that is not detached.
pub data MainStep (s : System) : System → Type 0 where
  inits : s.pc ≡ attr_init → MainStep s (record s { pc = attr_set })
  sets : s.pc ≡ attr_set → MainStep s (record s { pc = create1 })
  creates1 : s.pc ≡ create1 → MainStep s (record s { pc = create2; t1 = created false script1 })
  creates2 : s.pc ≡ create2 → MainStep s (record s { pc = create3; t2 = created false script2 })
  creates3 : s.pc ≡ create3 → MainStep s (record s { pc = create4; t3 = created false script3 })
  creates4 : s.pc ≡ create4 → MainStep s (record s { pc = join1; t4 = created true script4 })
  joins1 :
      (v : ℤ)
      → s.pc ≡ join1
      → s.t1.detached ≡ false
      → s.t1.value ≡ some v
      → MainStep s (record s { pc = tell1 v })
  tells1 :
      (v : ℤ)
      → s.pc ≡ tell1 v
      → MainStep s (record s { pc = join2; log = main_line (exit_code "thread 1" v) s.log })
  joins2 :
      (v : ℤ)
      → s.pc ≡ join2
      → s.t2.detached ≡ false
      → s.t2.value ≡ some v
      → MainStep s (record s { pc = tell2 v })
  tells2 :
      (v : ℤ)
      → s.pc ≡ tell2 v
      → MainStep s (record s { pc = cancel3; log = main_line (exit_code "thread 2" v) s.log })
  cancels3 :
      s.pc ≡ cancel3 → MainStep s (record s { pc = join3; t3 = record s.t3 { cancelled = true } })
  joins3 :
      (v : ℤ)
      → s.pc ≡ join3
      → s.t3.detached ≡ false
      → s.t3.value ≡ some v
      → MainStep s (record s { pc = tell3 v })
  tells3 :
      (v : ℤ)
      → s.pc ≡ tell3 v
      → MainStep s (record s { pc = join4; log = main_line (exit_code3 v) s.log })
  joins4 :
      (v : ℤ)
      → s.pc ≡ join4
      → s.t4.detached ≡ false
      → s.t4.value ≡ some v
      → MainStep s (record s { pc = tell4 v })
  tells4 :
      (v : ℤ)
      → s.pc ≡ tell4 v
      → MainStep s (record s { pc = returned; log = main_line (exit_code "thread 4" v) s.log })

-- The text for a failure of the next call, where it is one that may fail.
abbrev pub call_text : Pc → Option String
call_text attr_init = some "pthread_attr_init error: "
call_text attr_set = some "pthread_attr_setdetachstate error: "
call_text create1 = some "pthread_create#1 error: "
call_text create2 = some "pthread_create#2 error: "
call_text create3 = some "pthread_create#3 error: "
call_text create4 = some "pthread_create#4 error: "
call_text join1 = some "pthread_join#1 error: "
call_text join2 = some "pthread_join#2 error: "
call_text cancel3 = some "pthread_cancel error: "
call_text join3 = some "pthread_join#3 error: "
call_text join4 = some "pthread_join#4 error: "
call_text returned = none
call_text failed = none
call_text (tell1 v) = none
call_text (tell2 v) = none
call_text (tell3 v) = none
call_text (tell4 v) = none

abbrev pub failure : String → Errno → Line
failure call e = stderr (text call ∷ error_text e ∷ text "\n" ∷ [])

abbrev pub IsAlive : Pc → Type 0
IsAlive returned = ⊥
IsAlive failed = ⊥
IsAlive attr_init = Unit
IsAlive attr_set = Unit
IsAlive create1 = Unit
IsAlive create2 = Unit
IsAlive create3 = Unit
IsAlive create4 = Unit
IsAlive join1 = Unit
IsAlive join2 = Unit
IsAlive cancel3 = Unit
IsAlive join3 = Unit
IsAlive join4 = Unit
IsAlive (tell1 v) = Unit
IsAlive (tell2 v) = Unit
IsAlive (tell3 v) = Unit
IsAlive (tell4 v) = Unit

-- A step of another thread. The end of the process is the end of all threads.
pub data ThreadStep (s : System) : System → Type 0 where
  thread1 :
      {t : Slot} (l : Option Line)
      → SlotStep s.t1 l t
      → ThreadStep s (record s { t1 = t; log = with_line 1 l s.log })
  thread2 :
      {t : Slot} (l : Option Line)
      → SlotStep s.t2 l t
      → ThreadStep s (record s { t2 = t; log = with_line 2 l s.log })
  thread3 :
      {t : Slot} (l : Option Line)
      → SlotStep s.t3 l t
      → ThreadStep s (record s { t3 = t; log = with_line 3 l s.log })
  thread4 :
      {t : Slot} (l : Option Line)
      → SlotStep s.t4 l t
      → ThreadStep s (record s { t4 = t; log = with_line 4 l s.log })

pub data Step (s : System) : System → Type 0 where
  by_main : {t : System} → MainStep s t → Step s t
  by_thread : {t : System} → IsAlive s.pc → ThreadStep s t → Step s t
  fails :
      (call : String) (e : Errno)
      → call_text s.pc ≡ some call
      → Step s (record s { pc = failed; log = main_line (failure call e) s.log })

abbrev pub init : System
init = record { pc = attr_init; t1 = absent; t2 = absent; t3 = absent; t4 = absent; log = [] }

abbrev pub Runs : System → Type 0
Runs = Reach Step init
