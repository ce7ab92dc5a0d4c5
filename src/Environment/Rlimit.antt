-- ===== src/Environment/Rlimit.antt =====
-- process_environment/rlimit.c: prints the soft and the hard limit of each resource. The numbers have
-- the widths of Linux: rlim_t and unsigned long long have 64 bits.
pub mod Laws
use apue_code.Base.{
  ℕ, ◌-◌, ◌^◌, String, Bool, Option, none, some, List, [], ◌∷◌, ℤ, pos, negsuc, Exec, Call, text,
  num, error_text, sys, get_errno, printf, fprintf_err, exit, exit_failure, pure, when, ltb, ◌==◌,
  if◌then◌else◌, ◌>>=◌, ◌>>◌,
}

-- doit(name), under an #ifdef or not.
pub data Entry : Type 0 where
  always ifdef : String → Entry

-- The macros of <sys/resource.h>: which are defined, and their numbers.
pub record Headers : Type 0 where
  pub defined : String → Bool
  pub resource : String → ℕ

pub record Limit : Type 0 where
  pub rlim_cur : ℕ
  pub rlim_max : ℕ

-- The calls of doit in their order.
abbrev pub entries : List Entry
entries =
    ifdef "RLIMIT_AS"
    ∷ always "RLIMIT_CORE"
    ∷ always "RLIMIT_CPU"
    ∷ always "RLIMIT_DATA"
    ∷ always "RLIMIT_FSIZE"
    ∷ ifdef "RLIMIT_MEMLOCK"
    ∷ ifdef "RLIMIT_MSGQUEUE"
    ∷ ifdef "RLIMIT_NICE"
    ∷ always "RLIMIT_NOFILE"
    ∷ ifdef "RLIMIT_NPROC"
    ∷ ifdef "RLIMIT_NPTS"
    ∷ ifdef "RLIMIT_RSS"
    ∷ ifdef "RLIMIT_SBSIZE"
    ∷ ifdef "RLIMIT_SIGPENDING"
    ∷ always "RLIMIT_STACK"
    ∷ ifdef "RLIMIT_SWAP"
    ∷ ifdef "RLIMIT_VMEM"
    ∷ []

abbrev pub rlim_infinity : ℕ
rlim_infinity = 2 ^ 64 - 1

-- %lld takes the 64 bits of its argument as signed.
unfoldable pub lld : ℕ → ℤ
lld lim = if ltb lim (2 ^ 63) then pos lim else negsuc (2 ^ 64 - 1 - lim)

module _ {S : Type 0} where
  -- `after` is the text behind the number.
  abbrev pub print_limit : String → ℕ → Exec S (Unit {0})
  print_limit after lim =
      if lim == rlim_infinity
      then printf (text "(infinite)" ∷ text after ∷ [])
      else printf (num (lld lim) ∷ text after ∷ [])

  abbrev pub print_limits : String → Limit → Exec S (Unit {0})
  print_limits name limit = do
    printf (text name ∷ text " " ∷ [])
    print_limit " " limit.rlim_cur
    print_limit "" limit.rlim_max
    printf (text "\n" ∷ [])

  -- What follows getrlimit.
  abbrev pub got : String → Option Limit → Exec S (Unit {0})
  got name none = do
    e ← get_errno
    fprintf_err
        (text "getrlimit error for " ∷ text name ∷ text ": " ∷ error_text e ∷ text "\n" ∷ [])
    exit exit_failure
  got name (some limit) = print_limits name limit

module _ {S : Type 0} (h : Headers) (getrlimit : ℕ → Call S Limit) where
  unfoldable pub pr_limits : String → Exec S (Unit {0})
  pr_limits name = sys (getrlimit (h.resource name)) >>= got name

  abbrev pub doit : Entry → Exec S (Unit {0})
  doit (always name) = pr_limits name
  doit (ifdef name) = when (h.defined name) (pr_limits name)

  unfoldable pub doit_all : List Entry → Exec S (Unit {0})
  unfolding pr_limits
  doit_all [] = pure tt
  doit_all (e ∷ es) = doit e >> doit_all es

  abbrev pub main : Exec S (Unit {0})
  main = doit_all entries
