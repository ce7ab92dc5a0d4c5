-- ===== src/Process/Tests.antt =====
-- Runs of the programs of process_control/ on small systems, and their theorems at these.
use apue_code.Base.{
  fail, perror_line, if◌then◌else◌, ◌==◌, ◌≢◌, ◌>>=◌, ◌>>◌, ap, length, other, ◌+ℤ◌, ℤ, negsuc, ℕ,
  zero, suc, ◌*◌, ◌%◌, ◌^◌, ◌<◌, ◌≡◌, refl, true, Option, none, some, List, [], ◌∷◌, arith, ok,
  fail, done, exited, no_error, eintr, Process, Result, stdout, text, num, pos, pure,
}
use apue_code.Process.Account
use apue_code.Process.Account.{Acct, Flags, AcctFile, compt2ulong}
use apue_code.Process.Account.Laws.{line_of, compt2ulong_lem, main_prints}
use apue_code.Process.Priority
use apue_code.Process.Times
use apue_code.Process.Exec
use apue_code.Process.Tree
use apue_code.Process.Times.Laws.{asking, main-asks}
use apue_code.Process.Status.{pr_exit}
use apue_code.Process.Status.Laws.{killed, told, status_of, pr_exit-told}
use apue_code.Process.System.{Children, system}
use apue_code.Process.System.Laws.{Gives, system_parent}
use apue_code.Process.Nice.{Timeval, NiceCalls, counting}
use apue_code.Process.Nice.Laws.{counting_counts}

abbrev start : {S : Type 0} → S → Process S
start s = record { kernel = s; errno = no_error; log = [] }

compt2ulong_run : compt2ulong 0x2003 ≡ 24
unfolding compt2ulong
compt2ulong_run = refl

compt2ulong_lem_example :
    (compt2ulong 0xffff ≡ 0xffff % 8192 * 8 ^ 7) × (compt2ulong 0xffff < 2 ^ 34)
compt2ulong_lem_example = compt2ulong_lem 0xffff (omega arith)

-- A file that still has some records, and then cannot be read; EIO is 5.
abbrev next_acct : List Acct → Result (Option Acct) × List Acct
next_acct [] = (fail (other 5), [])
next_acct (a ∷ rest) = (ok (some a), rest)

abbrev acct_file : AcctFile (List Acct)
acct_file = record {
  fopen = λ path s. (ok 3, s);
  fread = λ fp s. next_acct s;
  ferror = λ fp s. true;
}

-- The first number is 7 * 8 ^ 7, the second 8191 * 8 ^ 7, which is no int.
abbrev shell_acct : Acct
shell_acct = record { ac_comm = "sh"; ac_etime = 0xe007; ac_io = 0xffff; ac_flag = 1 }

abbrev flags : Flags
flags = record { acore = 8; axsig = 0x10; afork = 1; asu = 2 }

main_prints_example :
    Account.main flags acct_file 3 ("show" ∷ "pacct" ∷ []) (start (shell_acct ∷ shell_acct ∷ []))
    ≡ (
      exited 1,
      record {
        kernel = [];
        errno = other 5;
        log =
            perror_line "fread error" (other 5)
            ∷ line_of flags shell_acct
            ∷ line_of flags shell_acct
            ∷ [];
      },
    )
main_prints_example =
    main_prints flags acct_file 3 3 "show" "pacct" (shell_acct ∷ shell_acct ∷ []) (some (other 5))
      (start (shell_acct ∷ shell_acct ∷ [])) (shell_acct ∷ shell_acct ∷ []) [] refl
      (shell_acct ∷ [], refl, ([], refl, refl)) (omega arith)

shell_line :
    Account.acct_line flags shell_acct
    ≡ stdout (
        text "sh"
        ∷ text " e = "
        ∷ num (pos 14680064)
        ∷ text ", chars = "
        ∷ num (negsuc 2097151)
        ∷ text ", "
        ∷ text " "
        ∷ text " "
        ∷ text " "
        ∷ text " "
        ∷ text "F"
        ∷ text " "
        ∷ text " "
        ∷ text "\n"
        ∷ [])
unfolding compt2ulong
shell_line = refl

pr_exit-told_example :
    pr_exit (status_of (killed 6 true)) (start tt)
    ≡ (done tt, record (start tt) { log = told (killed 6 true) [] })
pr_exit-told_example = pr_exit-told (killed 6 true) (start tt) (omega arith, omega arith)

-- waitpid with some interruptions left.
abbrev waits : ℕ → Result ℕ × ℕ
waits zero = (ok 0x2c00, zero)
waits (suc n) = (fail eintr, n)

abbrev children : ℕ → Children ℕ
children pid = record {
  fork = λ s. (ok pid, s);
  waitpid = λ pid s. waits s;
  execl = λ path argv. pure tt;
}

system_parent_example :
    Gives
      (children 7)
      (pos 0x2c00)
      0
      (start 2)
      (system (children 7) 5 (some "who; exit 44") (start 2))
system_parent_example =
    system_parent (children 7) 5 2 6 "who; exit 44" (ok 0x2c00) (start 2) 2 0 0 refl
      (1, refl, (0, refl, refl)) refl tt (omega arith)

abbrev usec_of : ℕ → ℕ
usec_of s = if s == 2 then 1 else 7

-- A clock that moves on by a second and loses some microseconds whenever it is read.
abbrev clock : NiceCalls ℕ
clock = record {
  gettimeofday = λ s. (record { tv_sec = s; tv_usec = usec_of s }, suc s);
  nice = λ adj s. (ok adj, s);
  fork = λ s. (ok 7, s);
  nzero = pos 20;
}

abbrev at : ℕ → ℕ → Timeval
at sec usec = record { tv_sec = sec; tv_usec = usec }

-- The end is missed in the second 2, and found in the next.
counting_counts_example : counting clock "parent" (at 2 5) 0 5 (start 1) ≡ (
  exited 0,
  record (start 4) {
    log = stdout (text "parent" ∷ text " count = " ∷ num (pos 3) ∷ text "\n" ∷ []) ∷ [];
  },
)
counting_counts_example =
    counting_counts clock "parent" (at 2 5) 5 2 0 (at 3 7) (start 1) 3 4
      (
        at 1 7,
        2,
        refl,
        (λ r. omega (arith, r.0)),
        (at 2 1, 3, refl, (λ r. omega (arith, r.1)), refl),
      )
      refl (omega arith, omega arith) (omega arith) (omega arith)

-- Two commands: the state counts the calls of sysconf.
abbrev timed : Times.Calls ℕ
timed = record {
  times = λ s. (ok (0, record { tms_utime = 0; tms_stime = 0; tms_cutime = 0; tms_cstime = 0 }), s);
  system = λ cmd s. (ok 0, s);
  sysconf = λ s. (ok 100, suc s);
}

sysconf_once :
    (Times.main timed (λ end start rate. "0.00") ("times" ∷ "date" ∷ "ls" ∷ []) (start 0)).1.kernel
    ≡ 1
unfolding Times.main Times.do_cmd pr_exit
sysconf_once = refl

-- The state is the priority; -1 is one of the results.
abbrev priorities : Priority.Calls ℤ
priorities = record { getpriority = λ s. (ok s, s); setpriority = λ n s. (ok tt, n) }

priority_run : (Priority.main priorities (start (negsuc 0))).1.kernel ≡ pos 14
unfolding Priority.main ◌+ℤ◌
priority_run = refl

abbrev rate_of : Result ℕ → ℕ
rate_of (ok n) = n
rate_of (fail e) = 0

answers_rate : (s : ℕ) → (timed.sysconf s).0 ≢ ok 0
answers_rate s e = omega (arith, ap rate_of e)

main-asks_example :
    Times.main timed (λ end start rate. "0.00") ("times" ∷ "date" ∷ "ls" ∷ []) (start 0)
    ≡ ((Times.do_cmd timed (λ end start rate. "0.00") "date" 0
            >>= Times.do_cmds
                (asking timed (λ s. (fail eintr, s)) (λ end start rate. "0.00"))
                (λ end start rate. "0.00")
                ("ls" ∷ []))
          >> pure tt)
        (start 0)
main-asks_example =
    main-asks timed (λ s. (fail eintr, s)) (λ end start rate. "0.00") answers_rate "times" "date"
      ("ls" ∷ []) (start 0)

-- The third fork fails.
tree_run : length (Tree.main none none (some eintr) none none) ≡ 3
unfolding Tree.main
tree_run = refl

-- execl fails in the child.
abbrev lost_child : Exec.Calls ℕ
lost_child = record {
  fork = λ s. (ok 0, s);
  execl = λ path argv s. (some (other 2), s);
  waitpid = λ pid s. (ok tt, s);
}

execl_run : (Exec.execl_main lost_child 0 (start 0)).0 ≡ exited 1
unfolding Exec.execl_main
execl_run = refl

echo_run :
    (Exec.echoall_main ("a" ∷ "b" ∷ []) (start {S = ℕ} 0)).1.log
    ≡ stdout (text "argv[" ∷ num (pos 1) ∷ text "]: " ∷ text "b" ∷ text "\n" ∷ [])
      ∷ stdout (text "argv[" ∷ num (pos 0) ∷ text "]: " ∷ text "a" ∷ text "\n" ∷ [])
      ∷ []
unfolding Exec.echo_from
echo_run = refl

test_run :
    (Exec.test_main (λ cmd s. (fail eintr, s)) ("test" ∷ "ls" ∷ []) (start {S = ℕ} 0)).0 ≡ exited 1
unfolding Exec.test_main
test_run = refl
