-- ===== src/Process/Tree.antt =====
-- process_control/test_process_account.c: five processes in a chain of four forks, each of which ends in a
-- way of its own. The model gives all processes that come about, the parent before its child.
pub mod Laws
use apue_code.Base.{ℕ, String, Option, none, some, List, [], ◌∷◌, ◌++◌, Errno, Line, perror_line}

-- How a process ends; `became` is behind a successful execl.
pub data End : Type 0 where
  exited : ℕ → End
  aborted killed : End
  became : String → List String → End

-- One process: the seconds that it sleeps, its message, and its end.
pub record Ended : Type 0 where
  pub slept : ℕ
  pub says : List Line
  pub end : End

abbrev pub quiet : ℕ → End → Ended
quiet n e = record { slept = n; says = []; end = e }

-- What a fork comes to: its error, or the parent's branch and what follows in the child.
abbrev pub forked : String → Option Errno → Ended → List Ended → List Ended
forked message none parent child = parent ∷ child
forked message (some e) parent child =
    record { slept = 0; says = perror_line message e ∷ []; end = exited 1 } ∷ []

-- The program dd, and exit(7) where execl comes back.
abbrev pub run_dd : Option Errno → Ended
run_dd none = quiet 0 (became "/bin/dd" ("dd" ∷ "if=/etc/passwd" ∷ "of=/dev/null" ∷ []))
run_dd (some e) = quiet 0 (exited 7)

-- The last child kills itself; SIGKILL cannot be caught, so it does not come to its exit(6).
abbrev pub last_child : List Ended
last_child = quiet 6 killed ∷ []

-- The results of the four calls of fork and of execl, for each fork a number if it fails.
unfoldable pub main :
    Option Errno → Option Errno → Option Errno → Option Errno → Option Errno → List Ended
main f1 f2 f3 f4 x = forked "#1 fork error" f1 (quiet 2 (exited 2)) (
    forked "#2 fork error" f2 (quiet 4 aborted) (
      forked "#3 fork error" f3 (run_dd x)
        (forked "#4 fork error" f4 (quiet 8 (exited 0)) last_child)))
