-- ===== src/Environment/Tests.antt =====
-- Runs of rlimit.c, exit.c, waitid.c and setjmp.c, and theorems at these.
use package.text.Mathlib.Text.{◌==◌ as str_eq}
use apue_code.Base.{
  atoi, stdout, exited, ◌++◌, ℕ, suc, ◌≡◌, refl, String, List, [], ◌∷◌, if◌then◌else◌, ok, done,
  no_error, Process, Call, text,
}
use apue_code.Environment.Exit
use apue_code.Environment.Exit.Laws.{goodbye, work, main-Ends}
use apue_code.Environment.Waitid
use apue_code.Environment.Setjmp
use apue_code.Environment.Rlimit.{Limit, main}
use apue_code.Environment.Rlimit.Laws.{all_lines, linux, main-linux}

abbrev start : Process ℕ
start = record { kernel = 0; errno = no_error; log = [] }

-- The stack has the number 3.
abbrev resource : String → ℕ
resource name = if str_eq name "RLIMIT_STACK" then 3 else 0

abbrev limit : Limit
limit = record { rlim_cur = 1024; rlim_max = 0xffffffffffffffff }

-- The state counts the calls.
abbrev answers : ℕ → Call ℕ Limit
answers number s = (ok limit, suc s)

abbrev all : List (String × Limit)
all =
    ("RLIMIT_AS", limit)
    ∷ ("RLIMIT_CORE", limit)
    ∷ ("RLIMIT_CPU", limit)
    ∷ ("RLIMIT_DATA", limit)
    ∷ ("RLIMIT_FSIZE", limit)
    ∷ ("RLIMIT_MEMLOCK", limit)
    ∷ ("RLIMIT_MSGQUEUE", limit)
    ∷ ("RLIMIT_NICE", limit)
    ∷ ("RLIMIT_NOFILE", limit)
    ∷ ("RLIMIT_NPROC", limit)
    ∷ ("RLIMIT_RSS", limit)
    ∷ ("RLIMIT_SIGPENDING", limit)
    ∷ ("RLIMIT_STACK", limit)
    ∷ []

main-linux_example :
    main (linux resource) answers start
    ≡ (done tt, record start { kernel = 13; log = all_lines all [] })
main-linux_example = main-linux resource answers all start 13 refl (
  1,
  refl,
  (
    2,
    refl,
    (
      3,
      refl,
      (
        4,
        refl,
        (
          5,
          refl,
          (
            6,
            refl,
            (7, refl, (8, refl, (9, refl, (10, refl, (11, refl, (12, refl, (13, refl, refl))))))),
          ),
        ),
      ),
    ),
  ),
)

abbrev files : Exit.Calls ℕ
files = record {
  fopen = λ path s. (ok 3, suc s);
  fputs = λ fp line s. (ok tt, suc s);
  flush = λ s. s;
}

main-Ends_example :
    let x = Exit.main files ("exit" ∷ "a" ∷ "0" ∷ []) start in
    (x.0 ≡ exited 0) × (x.1.log ≡ goodbye ++ (work "a" ++ []))
unfolding atoi
main-Ends_example = main-Ends files "exit" "a" "0" start

abbrev children : Waitid.Calls ℕ
children = record { fork = λ s. (ok 7, s); waitid = λ pid s. (ok tt, s); wait = λ s. (ok 7, s) }

waitid_run :
    (Waitid.main children start).1.log
    ≡ stdout (text "waitable status of child had not been taken away\n" ∷ []) ∷ []
unfolding Waitid.main
waitid_run = refl

-- A compiler that keeps automatic variables in memory.
setjmp_run :
    (Setjmp.main (λ old new. new) start).1.log
    ≡ stdout (Setjmp.values Setjmp.before_longjmp)
      ∷ stdout (text "after longjmp:\n" ∷ [])
      ∷ stdout (Setjmp.values Setjmp.before_longjmp)
      ∷ stdout (text "in f1():\n" ∷ [])
      ∷ []
unfolding Setjmp.main
setjmp_run = refl
