-- ===== src/Threads/Identification.antt =====
-- threads/pthread_identification.c: main and a second thread print their process and thread ids. main
-- does not wait for the thread, but sleeps.
pub mod Laws
use apue_code.Base.{
  ℕ, ◌≡◌, ◌≢◌, String, Bool, true, false, Option, none, some, List, [], ◌∷◌, ℤ, pos, Errno, Line,
  stdout, stderr, text, num, error_text, Piece, Reach,
}
use apue_code.Threads.Body.{Body, run, returns, printf, ◌>>◌}
use apue_code.Threads.Slot.{Slot, absent, created, SlotStep, Log, with_line}

-- getpid of the process, and pthread_self of main and of the thread; `hex` is the text that %lx gives.
pub record Ids : Type 0 where
  pub pid : ℕ
  pub main_tid : ℕ
  pub thread_tid : ℕ
  pub hex : ℕ → String

module _ (ids : Ids) where
  abbrev pub ids_text : String → ℕ → List Piece
  ids_text s tid =
      text s
      ∷ text " pid "
      ∷ num (pos ids.pid)
      ∷ text " tid "
      ∷ num (pos tid)
      ∷ text " (0x"
      ∷ text (ids.hex tid)
      ∷ text ")\n"
      ∷ []

  abbrev pub printids : String → ℕ → Line
  printids s tid = stdout (ids_text s tid)

  abbrev thr_fn : Body (Unit {0})
  thr_fn = do printf (ids_text "new thread: " ids.thread_tid); returns (λ handlers. []) (pos 0)

  abbrev pub script : List Line × Option ℤ
  script = run thr_fn

-- The next call of main; it has ended by its return or by exit(1).
pub data Pc : Type 0 where
  create telling sleeping returned failed : Pc

pub record System : Type 0 where
  pub pc : Pc
  pub t : Slot
  pub log : Log

abbrev pub IsAlive : Pc → Type 0
IsAlive create = Unit
IsAlive telling = Unit
IsAlive sleeping = Unit
IsAlive returned = ⊥
IsAlive failed = ⊥

abbrev pub failure : Errno → Line
failure e = stderr (text "pthread_create error: " ∷ error_text e ∷ text "\n" ∷ [])

-- Where `timely` holds, the sleep of main lasts until the thread has ended.
pub data Step (ids : Ids) (timely : Bool) (s : System) : System → Type 0 where
  creates :
      s.pc ≡ create → Step ids timely s (record s { pc = telling; t = created false (script ids) })
  create_fails :
      (e : Errno)
      → s.pc ≡ create
      → Step ids timely s (record s { pc = failed; log = with_line 0 (some (failure e)) s.log })
  tells :
      s.pc ≡ telling
      → Step ids timely s (record s {
        pc = sleeping;
        log = with_line 0 (some (printids ids "main thread: " ids.main_tid)) s.log;
      })
  returns_main :
      s.pc ≡ sleeping
      → (timely ≡ true → s.t.value ≢ none)
      → Step ids timely s (record s { pc = returned })
  by_thread :
      {u : Slot} (l : Option Line)
      → IsAlive s.pc
      → SlotStep s.t l u
      → Step ids timely s (record s { t = u; log = with_line 1 l s.log })

abbrev pub init : System
init = record { pc = create; t = absent; log = [] }

abbrev pub Runs : Ids → Bool → System → Type 0
Runs ids timely = Reach (Step ids timely) init
