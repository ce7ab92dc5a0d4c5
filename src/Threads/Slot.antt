-- ===== src/Threads/Slot.antt =====
-- A thread as the others see it, and what it may do between two calls of main.
use apue_code.Base.{
  ℕ, ◌==◌, ==_iff, ◌≡◌, Bool, true, false, if◌then◌else◌, Option, none, some, List, [], ◌∷◌, ℤ,
  negsuc, Line, says, ◌⊎◌, arith, refl,
}

pub record Slot : Type 0 where
  pub started : Bool
  pub detached : Bool
  pub cancelled : Bool
  pub left : List Line  -- the lines that it has still to print
  pub last : Option ℤ  -- the value with which it then ends, if it does
  pub value : Option ℤ  -- the value with which it has ended

abbrev pub absent : Slot
absent = record {
  started = false;
  detached = false;
  cancelled = false;
  left = [];
  last = none;
  value = none;
}

-- A new thread, with what its function does.
abbrev pub created : Bool → List Line × Option ℤ → Slot
created detached (lines, last) = record {
  started = true;
  detached = detached;
  cancelled = false;
  left = lines;
  last = last;
  value = none;
}

-- PTHREAD_CANCELED
abbrev pub pthread_canceled : ℤ
pthread_canceled = negsuc 0

-- A step of a thread that runs, with the line that it prints. A request to cancel it may take effect at
-- each of its calls, for POSIX allows that also for printf.
pub data SlotStep (s : Slot) : Option Line → Slot → Type 0 where
  prints :
      (l : Line) (ls : List Line)
      → s.started ≡ true
      → s.value ≡ none
      → s.left ≡ l ∷ ls
      → SlotStep s (some l) (record s { left = ls })
  ends :
      (v : ℤ)
      → s.started ≡ true
      → s.value ≡ none
      → s.left ≡ []
      → s.last ≡ some v
      → SlotStep s none (record s { value = some v })
  is_cancelled :
      s.started ≡ true
      → s.value ≡ none
      → s.cancelled ≡ true
      → SlotStep s none (record s { value = some pthread_canceled })

-- The lines printed by all, each with the number of its thread, the newest first. main has the number 0.
abbrev pub Log : Type 0
Log = List (ℕ × Line)

abbrev pub with_line : ℕ → Option Line → Log → Log
with_line who none log = log
with_line who (some l) log = (who, l) ∷ log

-- The lines of one of them, the newest first.
abbrev pub lines_by : ℕ → Log → List Line
lines_by who [] = []
lines_by who ((n, l) ∷ log) = let rest = lines_by who log in if n == who then l ∷ rest else rest

-- A thread with no request to cancel it has printed the first of its lines, and has ended only behind
-- the last one, with its value.
pub record Follows (script : List Line × Option ℤ) (s : Slot) (said : List Line) : Type 0 where
  pub fresh : s.started ≡ false → (said ≡ []) × (s.value ≡ none) × (s.cancelled ≡ false)
  pub lines : s.started ≡ true → s.cancelled ≡ false → says s.left said ≡ says script.0 []
  pub last : s.started ≡ true → s.last ≡ script.1
  pub ended : (v : ℤ) → s.value ≡ some v → s.cancelled ≡ false → (s.left ≡ []) × (script.1 ≡ some v)
  pub stopped : (v : ℤ) → s.value ≡ some v → (script.1 ≡ some v) ⊎ (v ≡ pthread_canceled)

pub absent-Follows : (script : List Line × Option ℤ) → Follows script absent []
absent-Follows script = ground arith

-- The creation of a thread in a slot that is free.
pub created-Follows :
    (script : List Line × Option ℤ) (detached : Bool) (s : Slot) (said : List Line)
    → s.started ≡ false
    → Follows script s said
    → Follows script (created detached script) said
created-Follows script detached s said e f = ground arith

pub SlotStep-keeps :
    (s t : Slot) (l : Option Line)
    → SlotStep s l t
    → (t.started ≡ s.started) × (t.detached ≡ s.detached) × (t.cancelled ≡ s.cancelled)
SlotStep-keeps s t l (prints x ls a n e) = (refl, refl, refl)
SlotStep-keeps s t l (ends v a n e h) = (refl, refl, refl)
SlotStep-keeps s t l (is_cancelled a n c) = (refl, refl, refl)

pub SlotStep-final : (s t : Slot) (l : Option Line) → SlotStep s l t → s.value ≡ none
SlotStep-final s t l (prints x ls a n e) = n
SlotStep-final s t l (ends v a n e h) = n
SlotStep-final s t l (is_cancelled a n c) = n

abbrev pub add : Option Line → List Line → List Line
add none said = said
add (some l) said = l ∷ said

pub SlotStep-Follows :
    (script : List Line × Option ℤ) (s t : Slot) (l : Option Line) (said : List Line)
    → SlotStep s l t
    → Follows script s said
    → Follows script t (add l said)
SlotStep-Follows script s t l said (prints x ls a n e) f = ground arith
SlotStep-Follows script s t l said (ends v a n e h) f = ground arith
SlotStep-Follows script s t l said (is_cancelled a n c) f = ground arith

pub lines_by-same :
    (who : ℕ) (l : Option Line) (log : Log)
    → lines_by who (with_line who l log) ≡ add l (lines_by who log)
lines_by-same who none log = refl
lines_by-same who (some l) log = rw ((==_iff who who).1 refl) refl

pub lines_by-other :
    (who n : ℕ) (l : Option Line) (log : Log)
    → (n == who) ≡ false
    → lines_by who (with_line n l log) ≡ lines_by who log
lines_by-other who n none log e = refl
lines_by-other who n (some l) log e = rw e refl
