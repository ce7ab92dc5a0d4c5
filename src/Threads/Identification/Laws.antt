-- ===== src/Threads/Identification/Laws.antt =====
-- pthread_identification.c: both lines are printed if the sleep is long enough.
use apue_code.Base.{
  ◌≡◌, ◌≢◌, refl, true, false, Option, none, some, [], ◌∷◌, ℤ, pos, arith, Reach-keeps,
}
use apue_code.Threads.Slot.{
  lines_by, Follows, absent-Follows, created-Follows, SlotStep-Follows, SlotStep-keeps,
  SlotStep-final, lines_by-same, lines_by-other,
}
use apue_code.Threads.Identification.{
  Ids, printids, script, Pc, create, telling, sleeping, returned, failed, System, Step, creates,
  create_fails, tells, returns_main, by_thread, init, Runs,
}

has_value : (o : Option ℤ) → o ≢ none → (v : ℤ) × (o ≡ some v)
has_value none n = absurd (n refl)
has_value (some v) n = (v, refl)

module _ (ids : Ids) where
  abbrev InvAt : Pc → System → Type 0
  InvAt create s = (s.t.started ≡ false) × (lines_by 0 s.log ≡ [])
  InvAt telling s = (s.t.started ≡ true) × (lines_by 0 s.log ≡ [])
  InvAt sleeping s =
      (s.t.started ≡ true) × (lines_by 0 s.log ≡ printids ids "main thread: " ids.main_tid ∷ [])
  InvAt returned s =
      (s.t.started ≡ true)
      × (s.t.value ≡ some (pos 0))
      × (lines_by 0 s.log ≡ printids ids "main thread: " ids.main_tid ∷ [])
  InvAt failed s = Unit

  record Inv (s : System) : Type 0 where
    follows : Follows (script ids) s.t (lines_by 1 s.log)
    uncancelled : s.t.cancelled ≡ false
    place : InvAt s.pc s

  Step-Inv : (s t : System) → Step ids true s t → Inv s → Inv t
  Step-Inv s t (creates e) i = ground (
    arith,
    created-Follows (script ids) false s.t (lines_by 1 s.log) (ground (arith, i)) i.follows,
  )
  Step-Inv s t (create_fails n e) i = ground arith
  Step-Inv s t (tells e) i = ground arith
  Step-Inv s t (returns_main e long) i =
      let (v, g) = has_value s.t.value (long refl) in ground (arith, i.follows.ended v g)
  Step-Inv s u (by_thread {u = t} l a st) i = ground (
    arith,
    SlotStep-keeps s.t t l st,
    SlotStep-final s.t t l st,
    SlotStep-Follows (script ids) s.t t l (lines_by 1 s.log) st i.follows,
    lines_by-same 1 l s.log,
    lines_by-other 0 1 l s.log refl,
  )

  -- If the sleep of main lasts until the thread has ended, main and the thread have each printed one line
  -- when main returns, with its own thread id.
  pub Runs-identified :
      {s : System}
      → Runs ids true s
      → s.pc ≡ returned
      → (lines_by 0 s.log ≡ printids ids "main thread: " ids.main_tid ∷ [])
        × (lines_by 1 s.log ≡ printids ids "new thread: " ids.thread_tid ∷ [])
  Runs-identified {s} r e =
      let i = Reach-keeps Inv Step-Inv start r in ground (arith, i, i.follows.ended (pos 0))
    where
      start : Inv init
      start = record {
        follows = absent-Follows (script ids);
        uncancelled = refl;
        place = (refl, refl);
      }
