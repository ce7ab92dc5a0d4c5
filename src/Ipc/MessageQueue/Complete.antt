-- ===== src/Ipc/MessageQueue/Complete.antt =====
-- sv_msq.c: a run that ends well has lost nothing.
use apue_code.Base.{
  ◌≡◌, ◌≢◌, refl, String, none, some, List, [], ◌∷◌, ◌++◌, append-nil, arith, ◌⊎◌, inl, inr,
  Reach-keeps,
}
use apue_code.Ipc.MessageQueue.{
  Room, Sender, asking, sending, removing, joining, Receiver, calling, asleep, telling, finished,
  System, SenderStep, gets, gets_none, queues, hands_over, send_fails, removes, remove_fails, joins,
  ReceiverStep, malloc_fails, takes, sleeps, finds_none, call_fails, wakes, receive_fails, tells,
  Step, by_sender, by_receiver, init, Runs,
}
use apue_code.Ipc.MessageQueue.Laws.{in_order, Account, Step-Account}

-- A thread that sleeps in msgrcv has nothing left to take, also where the queue was removed meanwhile.
abbrev AtRest : List String → Receiver → System → Type 0
AtRest lines asleep s = (s.queue ≡ some []) ⊎ (in_order s.printed ≡ lines)
AtRest lines finished s = in_order s.printed ≡ lines
AtRest lines calling s = Unit
AtRest lines (telling line) s = Unit

-- The queue is removed behind the end of the input.
abbrev Spent : Sender → List String → Type 0
Spent removing input = input ≡ []
Spent joining input = input ≡ []
Spent asking input = Unit
Spent (sending line) input = Unit

record Inv (lines : List String) (s : System) : Type 0 where
  account : Account lines s s.queue
  rest : AtRest lines s.receiver s
  spent : Spent s.sender s.input
  well : s.ended ≡ some 0 → in_order s.printed ≡ lines

-- What the account says where nothing is left to send and to take.
all_printed :
    (lines : List String) (s : System)
    → s.sender ≡ removing
    → s.receiver ≡ asleep
    → s.queue ≡ some []
    → s.input ≡ []
    → Account lines s s.queue
    → in_order s.printed ≡ lines
all_printed lines s e r q i a = ground (arith, append-nil (in_order s.printed))

queued :
    (lines : List String) (r : Receiver) (s : System) (q : List String)
    → r ≢ asleep
    → AtRest lines r s
    → AtRest lines r (record s { sender = asking; queue = some q })
queued lines calling s q n a = tt
queued lines asleep s q n a = absurd (n refl)
queued lines (telling line) s q n a = tt
queued lines finished s q n a = a

removed :
    (lines : List String) (r : Receiver) (s : System)
    → s.sender ≡ removing
    → s.receiver ≡ r
    → s.input ≡ []
    → Account lines s s.queue
    → AtRest lines r s
    → AtRest lines r (record s { sender = joining; queue = none })
removed lines calling s e h i acc a = tt
removed lines asleep s e h i acc (inl q) = inr (all_printed lines s e h q i acc)
removed lines asleep s e h i acc (inr p) = inr p
removed lines (telling line) s e h i acc a = tt
removed lines finished s e h i acc a = a

SenderStep-Inv :
    {room : Room} (lines : List String) (s t : System)
    → s.ended ≡ none
    → SenderStep room s t
    → Inv lines s
    → Account lines t t.queue
    → Inv lines t
SenderStep-Inv lines s t n (gets line l e g) i a = ground arith
SenderStep-Inv lines s t n (gets_none e g) i a = ground arith
SenderStep-Inv lines s t n (queues line q e g fits h) i a = record {
  account = a;
  rest = queued lines s.receiver s (q ++ (line ∷ [])) h i.rest;
  spent = tt;
  well = i.well;
}
SenderStep-Inv lines s t n (hands_over line e g fits h) i a = ground arith
SenderStep-Inv lines s t n (send_fails line m e) i a = ground arith
SenderStep-Inv lines s t n (removes e) i a =
    let none_left : s.input ≡ [] = ground (arith, i) in
    record {
      account = a;
      rest = removed lines s.receiver s e refl none_left i.account i.rest;
      spent = none_left;
      well = i.well;
    }
SenderStep-Inv lines s t n (remove_fails m e) i a = ground arith
SenderStep-Inv lines s t n (joins e g) i a = ground arith

ReceiverStep-Inv :
    (lines : List String) (s t : System)
    → s.ended ≡ none
    → ReceiverStep s t
    → Inv lines s
    → Account lines t t.queue
    → Inv lines t
ReceiverStep-Inv lines s t n (malloc_fails m e g) i a = ground arith
ReceiverStep-Inv lines s t n (takes line q e g) i a = ground arith
ReceiverStep-Inv lines s t n (sleeps e g) i a = ground arith
ReceiverStep-Inv lines s t n (finds_none e g) i a = ground arith
ReceiverStep-Inv lines s t n (call_fails m e g) i a = ground arith
ReceiverStep-Inv lines s t n (wakes e g) i a = ground arith
ReceiverStep-Inv lines s t n (receive_fails m e g) i a = ground arith
ReceiverStep-Inv lines s t n (tells line e) i a = ground arith

Step-Inv :
    {room : Room} (lines : List String) (s t : System) → Step room s t → Inv lines s → Inv lines t
Step-Inv lines s t (by_sender n st) i =
    SenderStep-Inv lines s t n st i (Step-Account lines s t (by_sender n st) i.account)
Step-Inv {room} lines s t (by_receiver n st) i =
    ReceiverStep-Inv lines s t n st i
      (Step-Account {room = room} lines s t (by_receiver n st) i.account)

-- Where the process ends with status 0, every line of the input was printed, in the order of the input.
pub Runs-complete :
    {room : Room} {lines : List String} {s : System}
    → Runs room lines s
    → s.ended ≡ some 0
    → in_order s.printed ≡ lines
Runs-complete {lines = lines} r e = (Reach-keeps (Inv lines) (Step-Inv lines) start r).well e
  where
    start : Inv lines (init lines)
    start = ground arith
