-- ===== src/Ipc/Tests.antt =====
-- Runs of sv_msq.c, and its theorems at these.
use apue_code.Base.{ltb, length, ◌≡◌, ◌≢◌, refl, some, [], ◌∷◌, here, next}
use apue_code.Ipc.MessageQueue
use apue_code.Ipc.MessageQueue.{
  Receiver, calling, asleep, telling, by_sender, by_receiver, gets, gets_none, queues, hands_over,
  removes, joins, takes, sleeps, tells, wakes, Runs,
}
use apue_code.Ipc.MessageQueue.Complete.{Runs-complete}
use apue_code.Ipc.MessageQueue.Laws.{in_order, Account, Runs-Account}

-- A queue that holds two messages.
abbrev roomy : MessageQueue.Room
roomy q line = ltb (length q) 2

calling_awake : calling ≢ asleep
calling_awake e = cc

-- Two lines: one is sent and taken, the other is still to be read.
abbrev taken_run : (s : MessageQueue.System) × Runs roomy ("a" ∷ "b" ∷ []) s
taken_run =
    let r1 = next here (by_sender refl (gets "a" ("b" ∷ []) refl refl)) in
    let r2 = next r1 (by_sender refl (queues "a" [] refl refl refl calling_awake)) in
    (_, next r2 (by_receiver refl (takes "a" [] refl refl)))

taken_run_hand : taken_run.0.receiver ≡ telling "a"
taken_run_hand = refl

Runs-Account_example : Account ("a" ∷ "b" ∷ []) taken_run.0 (some [])
Runs-Account_example = Runs-Account taken_run.1

-- The only line is handed to the sleeping thread, which prints it and sleeps again until the removal.
abbrev whole_run : (s : MessageQueue.System) × Runs roomy ("a" ∷ []) s
whole_run =
    let r1 = next here (by_receiver refl (sleeps refl refl)) in
    let r2 = next r1 (by_sender refl (gets "a" [] refl refl)) in
    let r3 = next r2 (by_sender refl (hands_over "a" refl refl refl refl)) in
    let r4 = next r3 (by_receiver refl (tells "a" refl)) in
    let r5 = next r4 (by_receiver refl (sleeps refl refl)) in
    let r6 = next r5 (by_sender refl (gets_none refl refl)) in
    let r7 = next r6 (by_sender refl (removes refl)) in
    let r8 = next r7 (by_receiver refl (wakes refl refl)) in
    (_, next r8 (by_sender refl (joins refl refl)))

Runs-complete_example : in_order whole_run.0.printed ≡ "a" ∷ []
Runs-complete_example = Runs-complete whole_run.1 refl
