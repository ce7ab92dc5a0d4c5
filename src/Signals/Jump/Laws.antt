-- ===== src/Signals/Jump/Laws.antt =====
-- The masks that sigsetjmp.c shows.
use mathlib.Core.Path.{subst}
use apue_code.Base.{◌≡◌, refl, Bool, true, false, List, [], ◌∷◌, arith, here, next, Reach-keeps}
use apue_code.Signals.Jump.{
  Mask2, free, Title, starting, finishing, in_alrm, ending, Place, alrm_begin, alrm_end, usr1_begin,
  usr1_loop, usr1_end, Frame, Jmpbuf, unset, without_mask, with_mask, Pc, setting, marking, pausing,
  at_end, ended, failed, wild, System, IsAlive, siglongjmp, HandlerStep, tells_alrm, returns,
  tells_start, tells_finish, jumps, pr_mask_fails, MainStep, sets, marks, tells_end, end_fails,
  Step, usr1_arrives, alrm_arrives, catches_usr1, catches_alrm, handles, goes_on, init, Runs,
}

-- The mask behind the jump: the one before, if it was saved, and else with SIGUSR1 blocked.
abbrev pub Restored : Bool → Mask2 → Type 0
Restored true m = (m.usr1 ≡ false) × (m.alrm ≡ false)
Restored false m = m.usr1 ≡ true

-- What a call of pr_mask shows.
abbrev pub Shows : Bool → Title × Mask2 → Type 0
Shows option (starting, m) = m.usr1 ≡ true
Shows option (finishing, m) = m.usr1 ≡ true
Shows option (in_alrm, m) = m.alrm ≡ true
Shows option (ending, m) = Restored option m

abbrev pub AllShow : Bool → List (Title × Mask2) → Type 0
AllShow option [] = Unit
AllShow option (x ∷ l) = Shows option x × AllShow option l

-- The signal of a handler is blocked while it runs.
abbrev Blocks : Place → Mask2 → Type 0
Blocks alrm_begin m = m.alrm ≡ true
Blocks alrm_end m = m.alrm ≡ true
Blocks usr1_begin m = m.usr1 ≡ true
Blocks usr1_loop m = m.usr1 ≡ true
Blocks usr1_end m = m.usr1 ≡ true

-- The mask of main, with no handler running.
abbrev MainMask : Bool → Pc → Mask2 → Type 0
MainMask option setting m = Restored true m
MainMask option marking m = Restored true m
MainMask option pausing m = Restored true m
MainMask option at_end m = Restored option m
MainMask option ended m = Unit
MainMask option failed m = Unit
MainMask option wild m = Unit

abbrev Masks : Bool → Pc → Mask2 → List Frame → Type 0
Masks option pc m [] = MainMask option pc m
Masks option pc m (f ∷ fs) = Blocks f.place m × Masks option pc f.old fs

abbrev BufferOf : Bool → Jmpbuf → Type 0
BufferOf option unset = Unit
BufferOf true without_mask = ⊥
BufferOf false without_mask = Unit
BufferOf true (with_mask m) = Restored true m
BufferOf false (with_mask m) = ⊥

pub record Inv (option : Bool) (s : System) : Type 0 where
  pub masks : IsAlive s.pc → Masks option s.pc s.mask s.frames
  pub buffer : BufferOf option s.jmpbuf
  pub shows : AllShow option s.shown

jump-Inv :
    (option : Bool) (b : Jmpbuf) (s : System)
    → s.mask.usr1 ≡ true
    → BufferOf option b
    → Inv option s
    → Inv option (siglongjmp b s)
jump-Inv option unset s e h i = record {
  masks = λ x. elim x [ ];
  buffer = i.buffer;
  shows = i.shows;
}
jump-Inv true without_mask s e h i = elim h [ ]
jump-Inv false without_mask s e h i = record { masks = λ x. e; buffer = i.buffer; shows = i.shows }
jump-Inv true (with_mask m) s e h i = record { masks = λ x. h; buffer = i.buffer; shows = i.shows }
jump-Inv false (with_mask m) s e h i = elim h [ ]

-- The innermost handler has its signal blocked, and the rest is as it will be behind its return.
innermost :
    (option : Bool) (s : System) (place : Place) (old : Mask2) (rest : List Frame)
    → IsAlive s.pc
    → s.frames ≡ record { place = place; old = old } ∷ rest
    → Inv option s
    → Blocks place s.mask × Masks option s.pc old rest
innermost option s place old rest a e i = subst (Masks option s.pc s.mask) e (i.masks a)

HandlerStep-Inv :
    (option : Bool) (s t : System) (place : Place) (old : Mask2) (rest : List Frame)
    → IsAlive s.pc
    → s.frames ≡ record { place = place; old = old } ∷ rest
    → HandlerStep place old rest s t
    → Inv option s
    → Inv option t
HandlerStep-Inv option s t place old rest a e (tells_alrm at) i =
    let m = innermost option s place old rest a e i in ground arith
HandlerStep-Inv option s t place old rest a e (returns at) i =
    let m = innermost option s place old rest a e i in
    record { masks = λ x. m.1; buffer = i.buffer; shows = i.shows }
HandlerStep-Inv option s t place old rest a e (tells_start at) i =
    let m = innermost option s place old rest a e i in ground arith
HandlerStep-Inv option s t place old rest a e (tells_finish at) i =
    let m = innermost option s place old rest a e i in ground arith
HandlerStep-Inv option s t place old rest a e (jumps at) i =
    let m = innermost option s place old rest a e i in
    jump-Inv option s.jmpbuf (record s { canjump = false }) (subst (λ p. Blocks p s.mask) at m.0)
      i.buffer (record { masks = i.masks; buffer = i.buffer; shows = i.shows })
HandlerStep-Inv option s t place old rest a e pr_mask_fails i = record {
  masks = λ x. elim x [ ];
  buffer = i.buffer;
  shows = i.shows;
}

MainStep-Inv :
    (option : Bool) (s t : System)
    → s.frames ≡ []
    → MainStep option s t
    → Inv option s
    → Inv option t
MainStep-Inv option s t e (sets at) i = ground arith
MainStep-Inv option s t e (marks at) i = ground arith
MainStep-Inv option s t e (tells_end at) i = ground arith
MainStep-Inv option s t e (end_fails at) i = ground arith

Step-Inv : (option : Bool) (s t : System) → Step option s t → Inv option s → Inv option t
Step-Inv option s t (usr1_arrives a) i = record {
  masks = i.masks;
  buffer = i.buffer;
  shows = i.shows;
}
Step-Inv option s t (alrm_arrives a) i = record {
  masks = i.masks;
  buffer = i.buffer;
  shows = i.shows;
}
Step-Inv option s t (catches_usr1 a p b) i = record {
  masks = λ x. (refl, i.masks x);
  buffer = i.buffer;
  shows = i.shows;
}
Step-Inv option s t (catches_alrm a p b) i = record {
  masks = λ x. (refl, i.masks x);
  buffer = i.buffer;
  shows = i.shows;
}
Step-Inv option s t (handles place old rest a e st) i =
    HandlerStep-Inv option s t place old rest a e st i
Step-Inv option s t (goes_on e st) i = MainStep-Inv option s t e st i

-- In every run each call of pr_mask shows what it should: SIGUSR1 is blocked at the start and at the end
-- of its handler, SIGALRM is blocked in its own, and at the end of main no signal is blocked if sigsetjmp
-- has saved the mask, while SIGUSR1 is still blocked if it has not.
pub Runs-Shows : (option : Bool) {s : System} → Runs option s → AllShow option s.shown
Runs-Shows option r = (Reach-keeps (Inv option) (Step-Inv option) start r).shows
  where
    start : Inv option init
    start = record { masks = λ x. (refl, refl); buffer = tt; shows = tt }

-- With either option there is a run that jumps through the buffer before it is set: the signal arrives
-- before sigsetjmp, and the test of its handler does not see that.
pub Runs-wild : (option : Bool) → (s : System) × Runs option s × (s.pc ≡ wild) × (s.canjump ≡ false)
Runs-wild option =
    let r1 = next (next here (usr1_arrives tt)) (catches_usr1 tt refl refl) in
    let r2 = next r1 (handles usr1_begin free [] tt refl (tells_start refl)) in
    let r3 = next r2 (handles usr1_loop free [] tt refl (tells_finish refl)) in
    (_, next r3 (handles usr1_end free [] tt refl (jumps refl)), refl, refl)
