-- ===== src/Process/Tree/Laws.antt =====
-- test_process_account.c: how many processes come about, and how they end.
use apue_code.Base.{ℕ, suc, ◌≡◌, ◌≢◌, Option, none, some, List, [], ◌∷◌, Errno, length, arith}
use apue_code.Process.Tree.{exited, Ended, main}

-- The forks that succeed before the first one that fails.
abbrev successes : List (Option Errno) → ℕ
successes [] = 0
successes (none ∷ fs) = suc (successes fs)
successes (some e ∷ fs) = 0

-- How often an exit with a status is among the ends.
abbrev Each : (Ended → Type 0) → List Ended → Type 0
Each P [] = Unit
Each P (x ∷ xs) = P x × Each P xs

-- There is one process more than forks that succeed before the first one that fails, and none of them
-- comes to the exit(6) behind the kill.
main-successes :
    (f1 f2 f3 f4 x : Option Errno)
    → (length (main f1 f2 f3 f4 x) ≡ suc (successes (f1 ∷ f2 ∷ f3 ∷ f4 ∷ [])))
      × Each (λ p. p.end ≢ exited 6) (main f1 f2 f3 f4 x)
unfolding main
main-successes (some e) f2 f3 f4 x = ground arith
main-successes none (some e) f3 f4 x = ground arith
main-successes none none (some e) f4 x = ground arith
main-successes none none none (some e) none = ground arith
main-successes none none none (some e) (some n) = ground arith
main-successes none none none none none = ground arith
main-successes none none none none (some n) = ground arith
