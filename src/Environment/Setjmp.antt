-- ===== src/Environment/Setjmp.antt =====
-- process_environment/setjmp.c: the values of five variables behind longjmp. The C standard leaves open
-- what automatic variables hold then that are not volatile and were changed behind setjmp: `kept` is
-- what a compiler makes of their values at setjmp and at longjmp.
use apue_code.Base.{ℕ, List, [], ◌∷◌, pos, Exec, Piece, text, num, printf, ◌>>◌}

pub record Vars : Type 0 where
  pub globval : ℕ
  pub autoval : ℕ
  pub regival : ℕ
  pub volaval : ℕ
  pub statval : ℕ

abbrev pub before_setjmp : Vars
before_setjmp = record { globval = 1; autoval = 2; regival = 3; volaval = 4; statval = 5 }

abbrev pub before_longjmp : Vars
before_longjmp = record { globval = 95; autoval = 96; regival = 97; volaval = 98; statval = 99 }

abbrev pub values : Vars → List Piece
values v =
    text "globval = "
    ∷ num (pos v.globval)
    ∷ text ", autoval = "
    ∷ num (pos v.autoval)
    ∷ text ", regival = "
    ∷ num (pos v.regival)
    ∷ text ", volaval = "
    ∷ num (pos v.volaval)
    ∷ text ", statval = "
    ∷ num (pos v.statval)
    ∷ text "\n"
    ∷ []

module _ (kept : ℕ × ℕ → ℕ × ℕ → ℕ × ℕ) where
  -- The variables behind longjmp: globals, statics and volatile variables keep their values.
  abbrev pub longjmp : Vars → Vars → Vars
  longjmp first now =
      let k = kept (first.autoval, first.regival) (now.autoval, now.regival) in
      record now { autoval = k.0; regival = k.1 }

module _ {S : Type 0} where
  -- The branch of main behind the second return of setjmp.
  abbrev pub after_longjmp : Vars → Exec S (Unit {0})
  after_longjmp v = do printf (text "after longjmp:\n" ∷ []); printf (values v)

module _ {S : Type 0} (kept : ℕ × ℕ → ℕ × ℕ → ℕ × ℕ) where
  abbrev pub f2 : Vars → Exec S (Unit {0})
  f2 now = after_longjmp (longjmp kept before_setjmp now)

  abbrev pub f1 : Vars → Exec S (Unit {0})
  f1 now = do printf (text "in f1():\n" ∷ []); printf (values now); f2 now

  unfoldable pub main : Exec S (Unit {0})
  main = f1 before_longjmp
