-- ===== src/Signals/Jump.antt =====
-- signals/sigsetjmp.c: a handler that jumps back to main, and what the signal mask is then. From the call
-- of sigsetjmp on, signals may arrive at any time, also within a handler.
pub mod Laws
use apue_code.Base.{
  ℕ, ◌≡◌, ◌==◌, ◌&&◌, String, Bool, true, false, if◌then◌else◌, List, [], ◌∷◌, ℤ, pos, negsuc, atoi,
  Exec, Call, ok, text, must, exit, fprintf_err, pure, program_name, Reach, ◌>>=◌, ◌>>◌,
}
use apue_code.Signals.Disposition.{Handler, catch}
use apue_code.Signals.Mask
use apue_code.Signals.Mask.{Headers, SigSet}

-- Of the mask of the process, the two signals that the program deals with.
pub record Mask2 : Type 0 where
  pub usr1 : Bool
  pub alrm : Bool

abbrev pub free : Mask2
free = record { usr1 = false; alrm = false }

abbrev pub sigusr1 : ℕ
sigusr1 = 10

abbrev pub sigalrm : ℕ
sigalrm = 14

abbrev pub sigset : Mask2 → SigSet
sigset m signo = if signo == sigusr1 then m.usr1 else if signo == sigalrm then m.alrm else false

-- The calls of pr_mask.
pub data Title : Type 0 where
  starting finishing in_alrm ending : Title

abbrev pub title_text : Title → String
title_text starting = "starting sig_usr1"
title_text finishing = "finishing sig_usr1"
title_text in_alrm = "in sig_alrm"
title_text ending = "ending main"

module _ {S : Type 0} where
  -- What one of them prints under a mask.
  abbrev pub pr_mask : Headers → Title → Mask2 → Exec S (Unit {0})
  pr_mask h t m = Mask.pr_mask h (λ s. (ok (sigset m), s)) (title_text t)

  abbrev usage : List String → Exec S Bool
  usage argv = do
    fprintf_err (text "Usage: " ∷ text (program_name argv) ∷ text " [0|1]\n" ∷ [])
    exit 1

  abbrev option_of : List String → ℤ → Exec S Bool
  option_of argv (pos n) = if n == 0 then pure false else if n == 1 then pure true else usage argv
  option_of argv (negsuc n) = usage argv

  abbrev parse : List String → Exec S Bool
  parse (name ∷ option ∷ []) = option_of (name ∷ option ∷ []) (atoi option)
  parse [] = usage []
  parse (name ∷ []) = usage (name ∷ [])
  parse (name ∷ option ∷ other ∷ rest) = usage (name ∷ option ∷ other ∷ rest)

  -- main up to sigsetjmp; `install` is Signal.
  unfoldable pub set_up : (ℕ → Handler → Call S Handler) → List String → Exec S Bool
  set_up install argv = do
    option ← parse argv
    must "Signal(SIGUSR1) error" (install sigusr1 (catch "sig_usr1"))
    must "Signal(SIGALRM) error" (install sigalrm (catch "sig_alrm"))
    pure option

-- Where a handler stands: before its first pr_mask, in the loop of sig_usr1, and behind its last pr_mask.
pub data Place : Type 0 where
  alrm_begin alrm_end usr1_begin usr1_loop usr1_end : Place

-- A handler that runs, with the mask that its return restores.
pub record Frame : Type 0 where
  pub place : Place
  pub old : Mask2

-- The buffer, with the mask if sigsetjmp has saved one.
pub data Jmpbuf : Type 0 where
  unset without_mask : Jmpbuf
  with_mask : Mask2 → Jmpbuf

-- Where main stands; `wild` is behind a jump through a buffer that was never set, `failed` behind the
-- exit(1) of pr_mask.
pub data Pc : Type 0 where
  setting marking pausing at_end ended failed wild : Pc

-- `frames` are the handlers that run, the innermost first; `shown` are the calls of pr_mask, the newest
-- first, with the mask of each.
pub record System : Type 0 where
  pub pc : Pc
  pub frames : List Frame
  pub mask : Mask2
  pub jmpbuf : Jmpbuf
  pub canjump : Bool
  pub usr1_pending : Bool
  pub alrm_pending : Bool
  pub shown : List (Title × Mask2)

abbrev pub IsAlive : Pc → Type 0
IsAlive setting = Unit
IsAlive marking = Unit
IsAlive pausing = Unit
IsAlive at_end = Unit
IsAlive ended = ⊥
IsAlive failed = ⊥
IsAlive wild = ⊥

-- siglongjmp leaves all handlers.
abbrev pub siglongjmp : Jmpbuf → System → System
siglongjmp unset s = record s { pc = wild }
siglongjmp without_mask s = record s { pc = at_end; frames = [] }
siglongjmp (with_mask m) s = record s { pc = at_end; frames = []; mask = m }

abbrev pub sigsetjmp : Bool → Mask2 → Jmpbuf
sigsetjmp option m = if option then with_mask m else without_mask

-- A step of the innermost handler, which stands at `place` and restores `old`, above `rest`. The test
-- of sig_usr1 compares an array with 0, which never holds. The alarm that it sets may arrive later, as
-- any signal may.
pub data HandlerStep (place : Place) (old : Mask2) (rest : List Frame) (s : System)
    : System → Type 0 where
  tells_alrm :
      place ≡ alrm_begin
      → HandlerStep place old rest s (record s {
        frames = record { place = alrm_end; old = old } ∷ rest;
        shown = (in_alrm, s.mask) ∷ s.shown;
      })
  returns : place ≡ alrm_end → HandlerStep place old rest s (record s { frames = rest; mask = old })
  tells_start :
      place ≡ usr1_begin
      → HandlerStep place old rest s (record s {
        frames = record { place = usr1_loop; old = old } ∷ rest;
        shown = (starting, s.mask) ∷ s.shown;
      })
  tells_finish :
      place ≡ usr1_loop
      → HandlerStep place old rest s (record s {
        frames = record { place = usr1_end; old = old } ∷ rest;
        shown = (finishing, s.mask) ∷ s.shown;
      })
  jumps :
      place ≡ usr1_end
      → HandlerStep place old rest s (siglongjmp s.jmpbuf (record s { canjump = false }))
  pr_mask_fails : HandlerStep place old rest s (record s { pc = failed })

-- A step of main, with no handler running. A pause that goes on is no step.
pub data MainStep (option : Bool) (s : System) : System → Type 0 where
  sets :
      s.pc ≡ setting
      → MainStep option s (record s { pc = marking; jmpbuf = sigsetjmp option s.mask })
  marks : s.pc ≡ marking → MainStep option s (record s { pc = pausing; canjump = true })
  tells_end :
      s.pc ≡ at_end
      → MainStep option s (record s { pc = ended; shown = (ending, s.mask) ∷ s.shown })
  end_fails : s.pc ≡ at_end → MainStep option s (record s { pc = failed })

-- A signal that is caught is blocked while its handler runs.
pub data Step (option : Bool) (s : System) : System → Type 0 where
  usr1_arrives : IsAlive s.pc → Step option s (record s { usr1_pending = true })
  alrm_arrives : IsAlive s.pc → Step option s (record s { alrm_pending = true })
  catches_usr1 :
      IsAlive s.pc
      → s.usr1_pending ≡ true
      → s.mask.usr1 ≡ false
      → Step option s (record s {
        usr1_pending = false;
        frames = record { place = usr1_begin; old = s.mask } ∷ s.frames;
        mask = record { usr1 = true; alrm = s.mask.alrm };
      })
  catches_alrm :
      IsAlive s.pc
      → s.alrm_pending ≡ true
      → s.mask.alrm ≡ false
      → Step option s (record s {
        alrm_pending = false;
        frames = record { place = alrm_begin; old = s.mask } ∷ s.frames;
        mask = record { usr1 = s.mask.usr1; alrm = true };
      })
  handles :
      {t : System} (place : Place) (old : Mask2) (rest : List Frame)
      → IsAlive s.pc
      → s.frames ≡ record { place = place; old = old } ∷ rest
      → HandlerStep place old rest s t
      → Step option s t
  goes_on : {t : System} → s.frames ≡ [] → MainStep option s t → Step option s t

-- Before sigsetjmp, with both handlers installed.
abbrev pub init : System
init = record {
  pc = setting;
  frames = [];
  mask = free;
  jmpbuf = unset;
  canjump = false;
  usr1_pending = false;
  alrm_pending = false;
  shown = [];
}

abbrev pub Runs : Bool → System → Type 0
Runs option = Reach (Step option) init
