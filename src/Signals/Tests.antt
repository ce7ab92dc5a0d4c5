-- ===== src/Signals/Tests.antt =====
-- Runs of the programs of signals/ on small systems, and their theorems at these.
use package.text.Mathlib.Text.{◌==◌ as str_eq}
use apue_code.Base.{
  String, arith, ◌<◌, ◌-◌, ℕ, suc, ◌≡◌, ◌≢◌, refl, false, [], ◌∷◌, ◌==◌, if◌then◌else◌, ok, fail,
  done, no_error, eintr, Process, Result, Call, stdout, text, echild, true, inr, Reach, here, next,
}
use apue_code.Signals.Disposition.{Handler, Action, sig_dfl}
use apue_code.Signals.Mask.{SigSet, entries, pr_mask}
use apue_code.Signals.Mask.Laws.{blocked_lines, linux, pr_mask-linux}
use apue_code.Signals.Reset
use apue_code.Signals.Reset.{reset_test, sigaction_texts}
use apue_code.Signals.Reset.Laws.{delivered}
use apue_code.Signals.Nesting
use apue_code.Signals.Nesting.{catches, wakes, collects}
use apue_code.Signals.Nesting.Laws.{Runs-told}
use apue_code.Signals.Queued
use apue_code.Signals.Queued.{suspends, flags, restores}
use apue_code.Signals.Queued.Laws.{Runs-queued}
use apue_code.Signals.Pending
use apue_code.Signals.Pending.Laws.{unblocked_line, caught_line, reported_line, Runs-order}
use apue_code.Signals.Child
use apue_code.Signals.Child.{ignoring}
use apue_code.Signals.Child.Laws.{ignoring-tells}
use apue_code.Signals.Jump
use apue_code.Signals.Jump.{
  free, usr1_begin, usr1_loop, usr1_end, usr1_arrives, catches_usr1, handles, goes_on, marks,
  tells_start, tells_finish, jumps, tells_end,
}
use apue_code.Signals.Jump.Laws.{AllShow, Runs-Shows, Runs-wild}
use apue_code.Signals.Restart.{Calls}

abbrev start : Process ℕ
start = record { kernel = 0; errno = no_error; log = [] }

-- Only SIGUSR1 is blocked.
abbrev signo : String → ℕ
signo name = if str_eq name "SIGUSR1" then 10 else 0

abbrev usr1 : SigSet
usr1 signo = signo == 10

abbrev get_usr1 : Call ℕ SigSet
get_usr1 s = (ok usr1, s)

usr1_run : blocked_lines (linux signo) usr1 entries ≡ stdout (text " SIGUSR1" ∷ []) ∷ []
usr1_run = refl

pr_mask-linux_example : pr_mask (linux signo) get_usr1 "default signal mask" start ≡ (
  done tt,
  record start {
    log =
        stdout (text "\n" ∷ [])
        ∷ stdout (text " SIGUSR1" ∷ [])
        ∷ stdout (text "default signal mask" ∷ text ":\n" ∷ [])
        ∷ [];
  },
)
pr_mask-linux_example = pr_mask-linux signo get_usr1 "default signal mask" start usr1 0 refl

-- The state is the flags of the last action.
abbrev read_with : ℕ → Result ℕ × ℕ
read_with s = (if s == 0 then fail eintr else ok 1, s)

abbrev calls : Calls ℕ
calls = record {
  pipe = λ s. (ok (3, 4), s);
  fork = λ s. (ok 7, s);
  getppid = λ s. 6;
  kill = λ pid signo s. (ok tt, s);
  sleep = λ n s. (ok 0, s);
  close = λ fd s. (ok tt, s);
  write = λ fd text s. (ok 1, s);
  read = λ fd n s. read_with s;
}

abbrev no_action : Action
no_action = record { sa_handler = sig_dfl; sa_flags = 0 }

abbrev install : ℕ → Action → Call ℕ Action
install signo a s = (ok no_action, a.sa_flags)

-- A system whose state is the handler of SIGUSR1, and which resets it.
abbrev resetting : Reset.Calls Handler
resetting = record {
  install = λ signo h s. (ok s, h);
  kill = λ pid signo s. (ok tt, delivered true s);
  getpid = λ s. 7;
}

unsent : ◌≡◌ {A = ℕ} 0 1 → ⊥
unsent e = omega arith

-- A system that blocks a signal while its handler runs.
abbrev nested_run : (s : Nesting.System) × Nesting.SignalRuns true true s
nested_run =
    let r1 = next here (Nesting.Step.sends (omega arith) (λ t. (refl, λ e. absurd (unsent e)))) in
    let r2 = next r1 (catches refl refl) in
    let r3 = next r2 (Nesting.Step.sends (omega arith) (λ t. (refl, λ e. refl))) in
    let r4 = next r3 (wakes refl (inr refl) (λ t. refl)) in
    (_, next (next r4 (catches refl refl)) (collects refl refl refl))

Runs-told_example :
    nested_run.0.log
    ≡ stdout (text "* Prevent received signal while the handler is excuting\n" ∷ []) ∷ []
Runs-told_example = Runs-told true (inr nested_run.1) refl

not_checking1 : Queued.Pc.sleeping ≢ Queued.Pc.checking
not_checking1 e = cc

not_checking2 : Queued.Pc.suspended ≢ Queued.Pc.checking
not_checking2 e = cc

none_left : {A : Type 0} → ¬ (A × (0 < 0))
none_left (a, h) = omega arith

-- A system that does not queue signals, but counts four.
abbrev counted_run : (s : Queued.System) × Reach (Queued.Step false true) Queued.init s
counted_run =
    let r1 = next here (Queued.Step.kills (omega arith) (λ t. (not_checking1, none_left))) in
    let r2 =
      next (next r1 (Queued.Step.catches tt (omega arith)))
        (Queued.Step.waits (suspends refl refl)) in
    let r3 = next r2 (Queued.Step.kills (omega arith) (λ t. (not_checking2, none_left))) in
    let r4 =
      next (next r3 (Queued.Step.catches tt (omega arith)))
        (Queued.Step.waits (suspends refl refl)) in
    let r5 = next r4 (Queued.Step.kills (omega arith) (λ t. (not_checking2, none_left))) in
    let r6 =
      next (next r5 (Queued.Step.catches tt (omega arith)))
        (Queued.Step.waits (suspends refl refl)) in
    let r7 = next r6 (Queued.Step.kills (omega arith) (λ t. (not_checking2, none_left))) in
    let r8 =
      next (next r7 (Queued.Step.catches tt (omega arith)))
        (Queued.Step.waits (suspends refl refl)) in
    let r9 = next r8 (Queued.Step.tells refl (λ t. (not_checking2, none_left))) in
    (
      _,
      next (next (next r9 (flags refl refl)) (Queued.Step.waits (restores refl refl)))
          (Queued.Step.prints refl refl),
    )

Runs-queued_example : counted_run.0.log ≡ stdout (text "Signal is queued\n" ∷ []) ∷ []
Runs-queued_example = Runs-queued false counted_run.1 refl

-- SIGQUIT arrives in the first sleep.
abbrev pending_run : (s : Pending.System) × Pending.Runs s
pending_run =
    let r1 = next here (Pending.Step.installs refl (λ e. e)) in
    let r2 = next (next r1 (Pending.Step.blocks refl (λ e. e))) (Pending.Step.arrives tt) in
    let r3 =
      next (next r2 (Pending.Step.sleeps refl (λ e. refl)))
        (Pending.Step.checks refl (λ e. refl)) in
    let r4 = next r3 (Pending.Step.unblocks refl (λ e. refl)) in
    let r5 = next r4 (Pending.Step.catches tt refl refl refl) in
    (_, next (next r5 (Pending.Step.tells refl (λ e. e))) (Pending.Step.returns refl (λ e. e)))

Runs-order_example : pending_run.0.log ≡ unblocked_line ∷ caught_line ∷ reported_line ∷ []
Runs-order_example = Runs-order pending_run.1 refl refl

-- A system that throws away the exit status of ignored children.
abbrev throwing : Child.Calls ℕ
throwing = record {
  install = λ signo h s. (ok sig_dfl, s);
  fork = λ s. (ok (suc s), suc s);
  wait = λ s. (fail echild, s);
  waitid = λ pid s. (ok tt, s);
  delivered = λ s. (false, s);
}

ignoring-tells_example : ignoring throwing 1 start ≡ (
  done tt,
  record {
    kernel = 3;
    errno = echild;
    log = stdout (text "* SIGCHLD: SIG_IGN throw away child exit status\n" ∷ []) ∷ [];
  },
)
ignoring-tells_example =
    ignoring-tells throwing 1 0 start sig_dfl 0 3 3 3 refl
      (0, 1, refl, (1, 2, refl, (2, 3, refl, refl))) refl refl (omega arith)

-- SIGUSR1 is caught behind sigsetjmp, with the option 0, and main ends.
abbrev jump_run : (s : Jump.System) × Jump.Runs false s
jump_run =
    let r1 = next here (goes_on refl (Jump.MainStep.sets refl)) in
    let r2 = next (next r1 (goes_on refl (marks refl))) (usr1_arrives tt) in
    let r3 = next r2 (catches_usr1 tt refl refl) in
    let r4 = next r3 (handles usr1_begin free [] tt refl (tells_start refl)) in
    let r5 = next r4 (handles usr1_loop free [] tt refl (tells_finish refl)) in
    let r6 = next r5 (handles usr1_end free [] tt refl (jumps refl)) in
    (_, next r6 (goes_on refl (tells_end refl)))

Runs-Shows_example : AllShow false jump_run.0.shown
Runs-Shows_example = Runs-Shows false jump_run.1

jump_run_ended : jump_run.0.pc ≡ Jump.ended
jump_run_ended = refl

Runs-wild_example : (s : Jump.System) × Jump.Runs true s × (s.pc ≡ Jump.wild) × (s.canjump ≡ false)
Runs-wild_example = Runs-wild true

-- The state is how many times sigsuspend returns before SIGUSR1 comes, and 7 behind the loop.
wait_parent_run :
    Queued.wait_parent
      (λ n. (fail eintr, n - 1))
      (λ n. (ok tt, n))
      (λ n. n == 0)
      (λ n. 7)
      4
      (record { kernel = 3; errno = no_error; log = [] })
    ≡ (done tt, record { kernel = 7; errno = eintr; log = [] })
unfolding Queued.wait_parent
wait_parent_run = refl
