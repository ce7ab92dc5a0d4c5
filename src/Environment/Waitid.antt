-- ===== src/Environment/Waitid.antt =====
-- process_environment/waitid.c: whether waitid with WNOWAIT leaves a child to be waited for.
use apue_code.Base.{
  ℕ, zero, suc, [], ◌∷◌, Exec, Call, Errno, no_error, eintr, echild, eidrm, other, text, must, die,
  exit, get_errno, sys, printf, Option, none, some, ◌>>=◌, ◌>>◌,
}

-- fork gives 0 in the child.
pub record Calls (S : Type 0) : Type 0 where
  pub fork : Call S ℕ
  pub waitid : ℕ → Call S (Unit {0})
  pub wait : Call S ℕ

module _ {S : Type 0} (c : Calls S) where
  abbrev pub wait_failed : Errno → Exec S (Unit {0})
  wait_failed echild = printf (text "waitable status of child had been taken away\n" ∷ [])
  wait_failed no_error = die "wait error"
  wait_failed eintr = die "wait error"
  wait_failed eidrm = die "wait error"
  wait_failed (other n) = die "wait error"

  abbrev pub waited : Option ℕ → Exec S (Unit {0})
  waited none = get_errno >>= wait_failed
  waited (some pid) = printf (text "waitable status of child had not been taken away\n" ∷ [])

  abbrev pub forked : ℕ → Exec S (Unit {0})
  forked zero = exit 0
  forked (suc pid) = do must "waitid error" (c.waitid (suc pid)); sys c.wait >>= waited

  unfoldable pub main : Exec S (Unit {0})
  main = must "fork error" c.fork >>= forked
