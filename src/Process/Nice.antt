-- ===== src/Process/Nice.antt =====
-- process_control/nice_influence.c: a parent and a child count for ten seconds, the child with another
-- nice value.
pub mod Laws
use apue_code.Base.{
  ℕ, zero, suc, ◌+◌, ◌%◌, ◌^◌, String, Bool, ◌&&◌, Option, none, some, List, [], ◌∷◌, ℤ, pos,
  negsuc, ◌+ℤ◌, Errno, no_error, must, false, true, Exec, Call, text, num, printf, fprintf_err,
  exit, exit_failure, pure, spin, die, sys, perror, get_errno, set_errno, atoi, leb, ◌==◌, when,
  if◌then◌else◌, done, Process, Outcome, ◌>>=◌, ◌>>◌,
}

pub record Timeval : Type 0 where
  pub tv_sec : ℕ
  pub tv_usec : ℕ

-- gettimeofday and nice, and fork, which gives 0 in the child. `nzero` is NZERO.
pub record NiceCalls (S : Type 0) : Type 0 where
  pub gettimeofday : S → Timeval × S
  pub nice : ℤ → Call S ℤ
  pub fork : Call S ℕ
  pub nzero : ℤ

-- tv.tv_sec >= end.tv_sec && tv.tv_usec >= end.tv_usec
unfoldable pub time_up : Timeval → Timeval → Bool
time_up tv end = leb end.tv_sec tv.tv_sec && leb end.tv_usec tv.tv_usec

-- The bound of `unsigned long long`.
abbrev pub ull_mod : ℕ
ull_mod = 2 ^ 64

module _ {S : Type 0} (c : NiceCalls S) where
  abbrev pub now_end : Process S → Timeval × S → Outcome Timeval × Process S
  now_end p (tv, s) = (done tv, record p { kernel = s })

  abbrev pub now : Exec S Timeval
  now p = now_end p (c.gettimeofday p.kernel)

  -- checktime, and `next` behind it.
  abbrev pub checktime : String → Timeval → ℕ → Exec S (Unit {0}) → Timeval → Exec S (Unit {0})
  checktime str end count next tv =
      if time_up tv end
      then (printf (text str ∷ text " count = " ∷ num (pos count) ∷ text "\n" ∷ []) >> exit 0)
      else next

  -- if (++count == 0) { ... } checktime(s);
  abbrev pub round : String → Timeval → ℕ → Exec S (Unit {0}) → Exec S (Unit {0})
  round str end count next =
      if count == 0
      then (fprintf_err (text str ∷ text " count wrap\n" ∷ []) >> exit exit_failure)
      else (now >>= checktime str end count next)

  -- for ( ; ; ) ... with `count` before the round. One unit of fuel is one round.
  unfoldable pub counting : String → Timeval → ℕ → ℕ → Exec S (Unit {0})
  unfolding time_up
  counting str end count zero = spin
  counting str end count (suc fuel) =
      let count' = (count + 1) % ull_mod in round str end count' (counting str end count' fuel)

  -- The value that `nice` returns, -1 if it fails.
  abbrev pub nice_value : Option ℤ → ℤ
  nice_value none = negsuc 0
  nice_value (some value) = value

  abbrev pub nice_of : ℤ → Exec S ℤ
  nice_of adj = sys (c.nice adj) >>= λ r. pure (nice_value r)

  abbrev is_minus_one : ℤ → Bool
  is_minus_one (pos n) = false
  is_minus_one (negsuc n) = n == 0

  abbrev pub is_error : Errno → Bool
  is_error no_error = false
  is_error e = true

  -- errno = 0; if ((ret = nice(adj)) == -1 && errno != 0) { ... } printf(...);
  pub adjust : ℤ → Exec S (Unit {0})
  adjust adj = do
    set_errno no_error
    ret ← nice_of adj
    e ← get_errno
    when (is_minus_one ret && is_error e) (die "child set scheduling priority")
    printf (text "now child nice value is " ∷ num (ret +ℤ c.nzero) ∷ text "\n" ∷ [])

  -- What follows fork.
  pub forked : ℕ → Timeval → ℤ → ℕ → Exec S (Unit {0})
  unfolding adjust counting
  forked fuel end adj zero = do
    current ← nice_of (pos 0)
    printf (
        text "current nice value in child is "
        ∷ num (current +ℤ c.nzero)
        ∷ text ", adjusting by "
        ∷ num adj
        ∷ text "\n"
        ∷ [])
    adjust adj
    counting "child" end 0 fuel
  forked fuel end adj (suc pid) = do
    current ← nice_of (pos 0)
    printf (text "current nice value in parent is " ∷ num (current +ℤ c.nzero) ∷ text "\n" ∷ [])
    counting "parent" end 0 fuel

  abbrev adjustment : List String → ℤ
  adjustment (name ∷ adj ∷ []) = atoi adj
  adjustment argv = pos 0

  -- strtol of the argument is taken for atoi.
  unfoldable pub main : ℕ → List String → Exec S (Unit {0})
  unfolding forked
  main fuel argv = do
    printf (text "NZERO = " ∷ num c.nzero ∷ text "\n" ∷ [])
    tv ← now
    pid ← must "fork error" c.fork
    forked fuel (record tv { tv_sec = tv.tv_sec + 10 }) (adjustment argv) pid
