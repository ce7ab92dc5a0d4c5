-- ===== src/Process/Priority.antt =====
-- process_control/setpriority.c: two changes of the priority, and the priority before and after each.
use apue_code.Base.{
  zero, suc, String, [], ◌∷◌, ℤ, pos, negsuc, ◌+ℤ◌, Exec, Call, Errno, no_error, eintr, echild,
  eidrm, other, text, num, must, die, get_errno, set_errno, sys, printf, pure, Option, none, some,
  ◌>>=◌, ◌>>◌,
}

-- The priority of the process itself; getpriority gives -1 also where it fails.
pub record Calls (S : Type 0) : Type 0 where
  pub getpriority : Call S ℤ
  pub setpriority : ℤ → Call S (Unit {0})

module _ {S : Type 0} (c : Calls S) where
  -- The test of errno where the result is -1.
  abbrev pub check_errno : Errno → Exec S ℤ
  check_errno no_error = pure (negsuc 0)
  check_errno eintr = die "getpriority error"
  check_errno echild = die "getpriority error"
  check_errno eidrm = die "getpriority error"
  check_errno (other n) = die "getpriority error"

  abbrev pub check_priority : Option ℤ → Exec S ℤ
  check_priority none = get_errno >>= check_errno
  check_priority (some (pos n)) = pure (pos n)
  check_priority (some (negsuc zero)) = get_errno >>= check_errno
  check_priority (some (negsuc (suc n))) = pure (negsuc (suc n))

  abbrev pub show : Exec S ℤ
  show = do
    priority ← sys c.getpriority >>= check_priority
    printf (text "current priority: " ∷ num priority ∷ text "\n" ∷ [])
    pure priority

  abbrev pub change : String → ℤ → ℤ → Exec S (Unit {0})
  change message priority more = do
    must message (c.setpriority (priority +ℤ more))
    printf (text "setpriority " ∷ num (priority +ℤ more) ∷ text " success\n" ∷ [])

  -- errno is not reset before the first getpriority.
  unfoldable pub main : Exec S (Unit {0})
  main = do
    priority ← show
    change "#1 setpriority error" priority (pos 5)
    set_errno no_error
    priority ← show
    change "#2 setpriority error" priority (pos 10)
    set_errno no_error
    show
    pure tt
