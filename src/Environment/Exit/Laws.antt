-- ===== src/Environment/Exit/Laws.antt =====
-- exit.c: exit runs the registered functions, the last first, and the other two ends run none.
use mathlib.Core.Path.{subst}
use apue_code.Base.{
  sym, some, none, sys_skip, printf, ◌>>◌, ℕ, zero, suc, ◌≡◌, refl, String, List, [], ◌∷◌, ◌++◌, ℤ,
  pos, negsuc, atoi, Process, Result, ok, fail, Outcome, exited, Line, stdout, text, perror_line,
  sys_rule,
}
use apue_code.Environment.Exit.{Calls, main, opened, leave, exit_running}

-- The lines of the functions as they come, the newest first.
abbrev pub goodbye : List Line
goodbye =
    stdout (text "this is fun1\n" ∷ [])
    ∷ stdout (text "this is fun2\n" ∷ [])
    ∷ stdout (text "this is fun1\n" ∷ [])
    ∷ stdout (text "this is fun2\n" ∷ [])
    ∷ []

-- What is said behind the work on the file, for a number.
abbrev pub last_words : ℤ → List Line
last_words (negsuc nr) = []
last_words (pos (suc nr)) = []
last_words (pos zero) = goodbye

abbrev pub work : String → List Line
work path =
    stdout (text "write to " ∷ text path ∷ text " success\n" ∷ [])
    ∷ stdout (text "fopen " ∷ text path ∷ text " success\n" ∷ [])
    ∷ []

module _ {S : Type 0} (c : Calls S) where
  left :
      (nr : ℤ) (p : Process S)
      → ((leave c nr p).0 ≡ exited 0) × ((leave c nr p).1.log ≡ last_words nr ++ p.log)
  unfolding exit_running
  left (negsuc nr) p = (refl, refl)
  left (pos (suc nr)) p = (refl, refl)
  left (pos zero) p = (refl, refl)

  -- What main comes to, by the result of fopen.
  abbrev pub Ends : String → ℤ → List Line → Result ℕ × S → Outcome (Unit {0}) × Process S → Type 0
  Ends path nr log (ok fp, s) x = (x.0 ≡ exited 0) × (x.1.log ≡ last_words nr ++ (work path ++ log))
  Ends path nr log (fail e, s) x =
      (x.0 ≡ exited 1) × (x.1.log ≡ goodbye ++ (perror_line "fopen error" e ∷ log))

  -- With two arguments the program exits with status 0 behind its work on the file, or with status 1 if
  -- the file cannot be opened. The four registered functions run in the reverse order of their
  -- registration in the second case, and in the first exactly if the number is 0.
  pub main-Ends :
      (name path nr : String) (p : Process S)
      → Ends path (atoi nr) p.log (c.fopen path p.kernel) (main c (name ∷ path ∷ nr ∷ []) p)
  unfolding main exit_running
  main-Ends name path nr p =
      sys_rule (Ends path (atoi nr) p.log (c.fopen path p.kernel)) (c.fopen path)
        (opened c path (atoi nr)) p
        (λ fp s e.
          subst
            (λ r.
              Ends path (atoi nr) p.log r
                (opened c path (atoi nr) (some fp) (record p { kernel = s })))
            (sym e)
            (sys_skip (Ends path (atoi nr) p.log (ok fp, s)) (c.fputs fp "hello, world!\n")
              (printf (text "write to " ∷ text path ∷ text " success\n" ∷ []) >> leave c (atoi nr))
              (record p {
                kernel = s;
                log = stdout (text "fopen " ∷ text path ∷ text " success\n" ∷ []) ∷ p.log;
              })
              (λ n. left (atoi nr) _)))
        (λ n s e.
          subst
            (λ r.
              Ends path (atoi nr) p.log r
                (opened c path (atoi nr) none (record p { kernel = s; errno = n })))
            (sym e) (refl, refl))
