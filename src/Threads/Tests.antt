-- ===== src/Threads/Tests.antt =====
-- Runs of the programs of threads/, and their theorems at these.
use apue_code.Base.{
  ℕ, ℤ, ◌≡◌, ◌≢◌, refl, true, Option, none, some, [], ◌∷◌, pos, no_error, other, here, next,
}
use apue_code.Threads.Body.{run}
use apue_code.Threads.Slot.{pthread_canceled, lines_by, prints, ends, is_cancelled}
use apue_code.Threads.Exit
use apue_code.Threads.Exit.{by_main, by_thread, thread1, thread2, thread3}
use apue_code.Threads.Exit.Laws.{Goes, Runs-Goes}
use apue_code.Threads.Cleanup
use apue_code.Threads.Cleanup.{thr_fn2}
use apue_code.Threads.Cleanup.Laws.{line, at_exit, thr_fn2_lem}
use apue_code.Threads.Identification
use apue_code.Threads.Identification.{Ids, printids}
use apue_code.Threads.Identification.Laws.{Runs-identified}
use apue_code.Threads.Timedlock

-- All calls succeed, and the third thread is cancelled before it prints.
abbrev created_run : (s : Exit.System) × Exit.Runs s
created_run =
    let r1 =
      next (next here (by_main (Exit.MainStep.inits refl))) (by_main (Exit.MainStep.sets refl)) in
    let r2 = next r1 (by_main (Exit.MainStep.creates1 refl)) in
    let r3 = next r2 (by_main (Exit.MainStep.creates2 refl)) in
    let r4 = next r3 (by_main (Exit.MainStep.creates3 refl)) in
    (_, next r4 (by_main (Exit.MainStep.creates4 refl)))

abbrev last_run : (s : Exit.System) × Exit.Runs s
last_run =
    let r1 = next created_run.1 (by_thread tt (thread1 _ (prints _ [] refl refl refl))) in
    let r2 = next r1 (by_thread tt (thread1 none (ends (pos 1) refl refl refl refl))) in
    let r3 = next r2 (by_main (Exit.MainStep.joins1 (pos 1) refl refl refl)) in
    let r4 = next r3 (by_main (Exit.MainStep.tells1 (pos 1) refl)) in
    let r5 = next r4 (by_thread tt (thread2 _ (prints _ [] refl refl refl))) in
    let r6 = next r5 (by_thread tt (thread2 none (ends (pos 2) refl refl refl refl))) in
    let r7 = next r6 (by_main (Exit.MainStep.joins2 (pos 2) refl refl refl)) in
    let r8 = next r7 (by_main (Exit.MainStep.tells2 (pos 2) refl)) in
    let r9 = next r8 (by_main (Exit.MainStep.cancels3 refl)) in
    let r10 = next r9 (by_thread tt (thread3 none (is_cancelled refl refl refl))) in
    let r11 = next r10 (by_main (Exit.MainStep.joins3 pthread_canceled refl refl refl)) in
    (_, next r11 (by_main (Exit.MainStep.tells3 pthread_canceled refl)))

last_run_stands : last_run.0.pc ≡ Exit.join4
last_run_stands = refl

not_last : created_run.0.pc ≢ Exit.join4
not_last e = cc

Runs-Goes_example : Goes created_run.0
Runs-Goes_example = Runs-Goes created_run.1 tt not_last

thr_fn2_lem_example :
    run (thr_fn2 1)
    ≡ (line "thread 2 start\n" ∷ line "thread 2 push complete\n" ∷ at_exit 1, some (pos 2))
thr_fn2_lem_example = thr_fn2_lem 1

-- A platform on which a return runs no handler.
abbrev cleanup_run : (s : Cleanup.System) × Cleanup.Runs (λ hs. []) s
unfolding Cleanup.script1 Cleanup.script2
cleanup_run =
    let r1 =
      next (next here (Cleanup.Step.by_main (Cleanup.MainStep.creates1 refl)))
        (Cleanup.Step.by_main (Cleanup.MainStep.creates2 refl)) in
    let r2 = next r1 (Cleanup.Step.thread2 _ tt (prints _ _ refl refl refl)) in
    let r3 = next r2 (Cleanup.Step.thread1 _ tt (prints _ _ refl refl refl)) in
    let r4 = next r3 (Cleanup.Step.thread1 _ tt (prints _ [] refl refl refl)) in
    let r5 = next r4 (Cleanup.Step.thread1 none tt (ends (pos 1) refl refl refl refl)) in
    let r6 = next r5 (Cleanup.Step.by_main (Cleanup.MainStep.joins1 (pos 1) refl refl)) in
    let r7 = next r6 (Cleanup.Step.thread2 _ tt (prints _ _ refl refl refl)) in
    let r8 = next r7 (Cleanup.Step.by_main (Cleanup.MainStep.tells1 (pos 1) refl)) in
    let r9 = next r8 (Cleanup.Step.thread2 _ tt (prints _ _ refl refl refl)) in
    let r10 = next r9 (Cleanup.Step.thread2 _ tt (prints _ [] refl refl refl)) in
    let r11 = next r10 (Cleanup.Step.thread2 none tt (ends (pos 2) refl refl refl refl)) in
    let r12 = next r11 (Cleanup.Step.by_main (Cleanup.MainStep.joins2 (pos 2) refl refl)) in
    (_, next r12 (Cleanup.Step.by_main (Cleanup.MainStep.tells2 (pos 2) refl)))

abbrev ids : Ids
ids = record { pid = 7; main_tid = 1; thread_tid = 2; hex = λ n. "1" }

has_ended : ◌≢◌ {A = Option ℤ} (some (pos 0)) none
has_ended e = cc

-- The thread prints and ends while main sleeps.
abbrev identified_run : (s : Identification.System) × Identification.Runs ids true s
identified_run =
    let r1 = next here (Identification.Step.creates refl) in
    let r2 =
      next (next r1 (Identification.Step.tells refl))
        (Identification.Step.by_thread _ tt (prints _ [] refl refl refl)) in
    let r3 = next r2 (Identification.Step.by_thread none tt (ends (pos 0) refl refl refl refl)) in
    (_, next r3 (Identification.Step.returns_main refl (λ t. has_ended)))

Runs-identified_example :
    (lines_by 0 identified_run.0.log ≡ printids ids "main thread: " 1 ∷ [])
    × (lines_by 1 identified_run.0.log ≡ printids ids "new thread: " 2 ∷ [])
Runs-identified_example = Runs-identified ids identified_run.1 refl

-- The clock does not go on, and the second lock is refused.
abbrev held : Timedlock.Calls ℕ
held = record {
  clock = λ s. (100, s);
  time_text = λ n. "10:00:00 AM";
  mutex_lock = λ s. (none, s);
  mutex_timedlock = λ tout s. (some (other 110), tout);
}

timedlock_run :
    (Timedlock.main held (record { kernel = 0; errno = no_error; log = [] })).1.kernel ≡ 105
unfolding Timedlock.main
timedlock_run = refl
