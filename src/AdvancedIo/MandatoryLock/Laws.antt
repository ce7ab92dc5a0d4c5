-- ===== src/AdvancedIo/MandatoryLock/Laws.antt =====
-- mandatory_lock.c: the child tries its lock only after the parent, and hears no end of the pipe.
use apue_code.Base.{
  ℕ, zero, suc, ◌+◌, ◌≤◌, ◌≡◌, ◌⊎◌, inl, inr, refl, Bool, true, false, ◌∷◌, Errno, perror_line,
  arith, Reach-keeps,
}
use apue_code.AdvancedIo.MandatoryLock.{
  Parent, locking, telling, waiting, ended, Child, hearing, getting_flags, setting_flags, trying,
  seeking, reading, granted, gone, System, child_writes, child_dies, ParentStep, locks, lock_fails,
  tells, TellStep, writes, write_fails, waits, wait_fails, ChildStep, WaitStep, waits_parent, hears,
  hear_fails, hears_end, gets_flags, get_flags_fails, sets_flags, set_flags_fails, is_granted,
  is_refused, seeks, seek_fails, reads, read_fails, Step, by_parent, by_child, Runs,
}

-- Whether the parent holds the lock.
abbrev pub holds : Parent → Bool
holds locking = false
holds telling = true
holds waiting = true
holds (ended status) = false

-- Whether the parent has not yet sent its byte, and is still there to send it.
abbrev pub IsEarly : Parent → Type 0
IsEarly locking = Unit
IsEarly telling = Unit
IsEarly waiting = ⊥
IsEarly (ended status) = ⊥

-- Whether the child has heard its byte and not ended.
abbrev pub heard : Child → ℕ
heard hearing = 0
heard getting_flags = 1
heard (setting_flags flags) = 1
heard trying = 1
heard seeking = 1
heard reading = 1
heard granted = 1
heard (gone status) = 0

-- The parent ends with 0 only behind the child, and else with 1.
abbrev pub EndsWell : Parent → Child → Type 0
EndsWell (ended zero) c = child_writes c ≡ 0
EndsWell (ended (suc zero)) c = Unit
EndsWell (ended (suc (suc n))) c = ⊥
EndsWell locking c = Unit
EndsWell telling c = Unit
EndsWell waiting c = Unit

pub record Inv (s : System) : Type 0 where
  pub locked_is : s.locked ≡ holds s.parent
  pub early : IsEarly s.parent → (s.sent ≡ 0) × (heard s.child ≡ 0)
  pub sent_one : s.sent + heard s.child ≤ 1
  pub ends : EndsWell s.parent s.child
  pub granted_late : s.child ≡ granted → s.parent ≡ ended 1

TellStep-Inv : (s t : System) → TellStep s t → Inv s → Inv t
TellStep-Inv s t (writes e) i = ground arith
TellStep-Inv s t (write_fails n e) i = ground arith

ParentStep-Inv : (s t : System) → ParentStep s t → Inv s → Inv t
ParentStep-Inv s t (locks e) i = ground arith
ParentStep-Inv s t (lock_fails n e) i = ground arith
ParentStep-Inv s t (tells st) i = TellStep-Inv s t st i
ParentStep-Inv s t (waits e g) i = ground arith
ParentStep-Inv s t (wait_fails n e) i = ground arith

WaitStep-Inv : (s t : System) → WaitStep s t → Inv s → Inv t
WaitStep-Inv s t (hears e g) i = ground arith
WaitStep-Inv s t (hear_fails n e) i = ground arith
WaitStep-Inv s t (hears_end e g w) i = ground arith

ChildStep-Inv : (s t : System) → ChildStep s t → Inv s → Inv t
ChildStep-Inv s t (waits_parent st) i = WaitStep-Inv s t st i
ChildStep-Inv s t (gets_flags f e) i = ground arith
ChildStep-Inv s t (get_flags_fails n e) i = ground arith
ChildStep-Inv s t (sets_flags f e) i = ground arith
ChildStep-Inv s t (set_flags_fails f n e) i = ground arith
ChildStep-Inv s t (is_granted e g) i = ground arith
ChildStep-Inv s t (is_refused n e) i = ground arith
ChildStep-Inv s t (seeks e) i = ground arith
ChildStep-Inv s t (seek_fails n e) i = ground arith
ChildStep-Inv s t (reads b e) i = ground arith
ChildStep-Inv s t (read_fails n e) i = ground arith

Step-Inv : (s t : System) → Step s t → Inv s → Inv t
Step-Inv s t (by_parent st) i = ParentStep-Inv s t st i
Step-Inv s t (by_child st) i = ChildStep-Inv s t st i

Runs-Inv : {s : System} → Runs s → Inv s
Runs-Inv r = Reach-keeps Inv Step-Inv (ground arith) r

while_trying :
    (p : Parent) (c : Child) (sent : ℕ)
    → c ≡ trying
    → (IsEarly p → (sent ≡ 0) × (heard c ≡ 0))
    → EndsWell p c
    → (holds p ≡ true) ⊎ (p ≡ ended 1)
while_trying locking c sent e early ends = let (none_sent, unheard) = early tt in ground arith
while_trying telling c sent e early ends = inl refl
while_trying waiting c sent e early ends = inl refl
while_trying (ended zero) c sent e early ends = ground arith
while_trying (ended (suc zero)) c sent e early ends = inr refl
while_trying (ended (suc (suc n))) c sent e early ends = elim ends [ ]

-- In every state that is reached the child tries its read lock only while the parent holds its write
-- lock, or where the parent has ended with status 1.
pub Runs-ordered :
    {s : System} → Runs s → s.child ≡ trying → (s.locked ≡ true) ⊎ (s.parent ≡ ended 1)
Runs-ordered {s} r at =
    let i = Runs-Inv r in rw (i.locked_is) (while_trying s.parent s.child s.sent at i.early i.ends)

-- In every state that is reached where the read lock was granted to the child, the parent has ended
-- with status 1: one of its calls has failed.
Runs-granted : {s : System} → Runs s → s.child ≡ granted → s.parent ≡ ended 1
Runs-granted r at = (Runs-Inv r).granted_late at

ParentStep-ended : {s t : System} (status : ℕ) → ParentStep s t → s.parent ≡ ended status → ⊥
ParentStep-ended status (locks e) h = cc
ParentStep-ended status (lock_fails n e) h = cc
ParentStep-ended status (tells (writes e)) h = cc
ParentStep-ended status (tells (write_fails n e)) h = cc
ParentStep-ended status (waits e g) h = cc
ParentStep-ended status (wait_fails n e) h = cc

ChildStep-hearing :
    (s t : System)
    → ChildStep s t
    → s.child ≡ hearing
    → s.sent ≡ 0
    → (e : Errno) × (t ≡ child_dies s (perror_line "child read error" e ∷ s.log))
ChildStep-hearing s t (waits_parent (hears e g)) at none_sent = ground arith
ChildStep-hearing s t (waits_parent (hear_fails n e)) at none_sent = (n, refl)
ChildStep-hearing s t (waits_parent (hears_end e g w)) at none_sent = ground arith
ChildStep-hearing s t (gets_flags f e) at none_sent = cc
ChildStep-hearing s t (get_flags_fails n e) at none_sent = cc
ChildStep-hearing s t (sets_flags f e) at none_sent = cc
ChildStep-hearing s t (set_flags_fails f n e) at none_sent = cc
ChildStep-hearing s t (is_granted e g) at none_sent = cc
ChildStep-hearing s t (is_refused n e) at none_sent = cc
ChildStep-hearing s t (seeks e) at none_sent = cc
ChildStep-hearing s t (seek_fails n e) at none_sent = cc
ChildStep-hearing s t (reads b e) at none_sent = cc
ChildStep-hearing s t (read_fails n e) at none_sent = cc

-- Where the parent has ended before it told the child, the only step left of any process is a read of
-- the child that fails. The end of the pipe is never found, since the child can itself still write to
-- the pipe that it reads.
pub Step-orphan :
    {s t : System} (status : ℕ)
    → Step s t
    → s.parent ≡ ended status
    → s.child ≡ hearing
    → s.sent ≡ 0
    → (e : Errno) × (t ≡ child_dies s (perror_line "child read error" e ∷ s.log))
Step-orphan status (by_parent st) over at none_sent = absurd (ParentStep-ended status st over)
Step-orphan {s} {t} status (by_child st) over at none_sent = ChildStep-hearing s t st at none_sent
