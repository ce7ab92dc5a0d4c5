-- ===== src/Threads/Body.antt =====
-- The function of a thread in the programs of threads/: it prints, keeps a stack of cleanup handlers, and
-- ends by a return or by pthread_exit, or stops in pause for good.
use apue_code.Base.{
  String, Bool, if◌then◌else◌, Option, none, some, List, [], ◌∷◌, ◌++◌, ℤ, Line, Piece, stdout,
}

-- A handler with its argument. What a handler does here is to print.
pub record Pushed : Type 0 where
  pub routine : String → List Line
  pub arg : String

-- The handlers, the last pushed first, and the lines printed, the first one first.
pub record Thread : Type 0 where
  pub stack : List Pushed
  pub lines : List Line

-- How a part of the function comes out: it goes on, or the thread has ended with a value, or stops.
pub data Control (A : Type 0) : Type 0 where
  goes : A → Control A
  ends : ℤ → Control A
  stops : Control A

abbrev pub Body : Type 0 → Type 0
Body A = Thread → Control A × Thread

abbrev go_on : {A B : Type 0} → (A → Body B) → Control A × Thread → Control B × Thread
go_on f (r, t) = elim r [ goes a ↦ f a t | ends v ↦ (ends v, t) | stops ↦ (stops, t) ]

infixl 5 ◌>>=◌ ◌>>◌
abbrev pub ◌>>=◌ : {A B : Type 0} → Body A → (A → Body B) → Body B
◌>>=◌ m f t = go_on f (m t)

abbrev pub ◌>>◌ : {A B : Type 0} → Body A → Body B → Body B
m >> k = m >>= λ _. k

abbrev pub printf : List Piece → Body (Unit {0})
printf ps t = (goes tt, record t { lines = t.lines ++ (stdout ps ∷ []) })

abbrev pub pthread_cleanup_push : (String → List Line) → String → Body (Unit {0})
pthread_cleanup_push routine arg t =
    (goes tt, record t { stack = record { routine = routine; arg = arg } ∷ t.stack })

-- The lines of the handlers, from the top of the stack down.
abbrev pub unwind : List Pushed → List Line
unwind [] = []
unwind (h ∷ hs) = h.routine h.arg ++ unwind hs

abbrev pop : Bool → List Pushed → List Line → Control (Unit {0}) × Thread
pop execute [] lines = (goes tt, record { stack = []; lines = lines })
pop execute (h ∷ hs) lines =
    (goes tt, record { stack = hs; lines = if execute then lines ++ h.routine h.arg else lines })

abbrev pub pthread_cleanup_pop : Bool → Body (Unit {0})
pthread_cleanup_pop execute t = pop execute t.stack t.lines

abbrev pub pthread_exit : {A : Type 0} → ℤ → Body A
pthread_exit v t = (ends v, record { stack = []; lines = t.lines ++ unwind t.stack })

-- A return from the function. Between a push and its pop POSIX leaves open what it does: `on_return` are
-- the lines that it then prints.
abbrev pub returns : {A : Type 0} → (List Pushed → List Line) → ℤ → Body A
returns on_return v t = (ends v, record { stack = []; lines = t.lines ++ on_return t.stack })

-- No signal is caught, so pause does not come back.
abbrev pub pause : Body (Unit {0})
pause t = (stops, t)

abbrev value_of : {A : Type 0} → Control A → Option ℤ
value_of (goes a) = none
value_of (ends v) = some v
value_of stops = none

-- All lines of a thread that is left alone, and its value, if it ends.
abbrev pub run : {A : Type 0} → Body A → List Line × Option ℤ
run m = let x = m (record { stack = []; lines = [] }) in (x.1.lines, value_of x.0)
