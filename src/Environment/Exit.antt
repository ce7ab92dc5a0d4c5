-- ===== src/Environment/Exit.antt =====
-- process_environment/exit.c: which of the functions registered by atexit run. They are a list, the last
-- registered first; exit runs it and flushes the streams, _exit and _Exit do not. The lines of a run are
-- those given to printf; on a line-buffered output, such as a terminal, each of them is written at once.
pub mod Laws
use apue_code.Base.{
  ℕ, zero, suc, String, List, [], ◌∷◌, ℤ, pos, negsuc, atoi, Exec, Call, Option, none, some, text,
  sys, exit, perror, printf, fprintf_err, program_name, ◌>>=◌, ◌>>◌,
}

-- What the program does with its file; `flush` is what becomes of the text that stands in the buffers of
-- streams when they are flushed at an exit.
pub record Calls (S : Type 0) : Type 0 where
  pub fopen : String → Call S ℕ
  pub fputs : ℕ → String → Call S (Unit {0})
  pub flush : S → S

module _ {S : Type 0} where
  abbrev pub fun1 : Exec S (Unit {0})
  fun1 = printf (text "this is fun1\n" ∷ [])

  abbrev pub fun2 : Exec S (Unit {0})
  fun2 = printf (text "this is fun2\n" ∷ [])

  abbrev pub atexit : Exec S (Unit {0}) → List (Exec S (Unit {0})) → List (Exec S (Unit {0}))
  atexit f fs = f ∷ fs

  -- The four calls of atexit.
  abbrev pub registered : List (Exec S (Unit {0}))
  registered = atexit fun2 (atexit fun1 (atexit fun2 (atexit fun1 [])))

module _ {S : Type 0} (c : Calls S) where
  -- exit: the functions, then the buffers of the streams, then the end.
  pub exit_running : List (Exec S (Unit {0})) → ℕ → Exec S (Unit {0})
  exit_running [] status p = exit status (record p { kernel = c.flush p.kernel })
  exit_running (f ∷ fs) status p = (f >> exit_running fs status) p

  -- _exit, _Exit or exit; the first two leave what is in the buffers unwritten.
  abbrev pub leave : ℤ → Exec S (Unit {0})
  leave (negsuc nr) = exit 0
  leave (pos (suc nr)) = exit 0
  leave (pos zero) = exit_running registered 0

  -- Behind fopen.
  abbrev pub opened : String → ℤ → Option ℕ → Exec S (Unit {0})
  opened path nr none = do perror "fopen error"; exit_running registered 1
  opened path nr (some fp) = do
    printf (text "fopen " ∷ text path ∷ text " success\n" ∷ [])
    sys (c.fputs fp "hello, world!\n")
    printf (text "write to " ∷ text path ∷ text " success\n" ∷ [])
    leave nr

  unfoldable pub main : List String → Exec S (Unit {0})
  unfolding exit_running
  main (name ∷ path ∷ nr ∷ []) = sys (c.fopen path) >>= opened path (atoi nr)
  main argv = do
    fprintf_err (text "usage: " ∷ text (program_name argv) ∷ text " <filename> <nr>\n" ∷ [])
    exit_running [] 1
