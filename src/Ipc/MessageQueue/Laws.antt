-- ===== src/Ipc/MessageQueue/Laws.antt =====
-- sv_msq.c: lines are printed in the order of the input, and those in the queue at its removal are lost.
use apue_code.Base.{
  ◌≡◌, refl, String, true, Option, none, some, List, [], ◌∷◌, ◌++◌, append_assoc, arith,
  Reach-keeps,
}
use apue_code.Ipc.MessageQueue.{
  Room, Sender, asking, sending, removing, joining, Receiver, calling, asleep, telling, finished,
  System, SenderStep, gets, gets_none, queues, hands_over, send_fails, removes, remove_fails, joins,
  ReceiverStep, malloc_fails, takes, sleeps, finds_none, call_fails, wakes, receive_fails, tells,
  Step, by_sender, by_receiver, init, Runs,
}

-- What was printed, in order.
abbrev pub in_order : List String → List String
in_order [] = []
in_order (line ∷ lines) = in_order lines ++ (line ∷ [])

abbrev pub in_hand : Receiver → List String
in_hand (telling line) = line ∷ []
in_hand calling = []
in_hand asleep = []
in_hand finished = []

abbrev pub to_send : Sender → List String
to_send (sending line) = line ∷ []
to_send asking = []
to_send removing = []
to_send joining = []

-- The lines of the input are what was printed, what the receiver has in hand, what stands in the queue
-- and what is still to be sent, in this order; or, if the queue is gone, some lines that are lost.
abbrev pub Account : List String → System → Option (List String) → Type 0
Account lines s (some q) =
    in_order s.printed ++ (in_hand s.receiver ++ (q ++ (to_send s.sender ++ s.input))) ≡ lines
Account lines s none =
    (lost : List String) × (in_order s.printed ++ (in_hand s.receiver ++ lost) ≡ lines)

loses :
    (lines : List String) (s : System) (q : Option (List String))
    → Account lines s q
    → Account lines s none
loses lines s none a = a
loses lines s (some q) a = (q ++ (to_send s.sender ++ s.input), a)

told :
    (lines : List String) (s : System) (line : String) (q : Option (List String))
    → s.receiver ≡ telling line
    → Account lines s q
    → Account lines (record s { receiver = calling; printed = line ∷ s.printed }) q
told lines s line (some q) e a =
    ground
      (arith, append_assoc (in_order s.printed) (line ∷ []) (q ++ (to_send s.sender ++ s.input)))
told lines s line none e (lost, a) =
    (lost, ground (arith, append_assoc (in_order s.printed) (line ∷ []) lost))

SenderStep-Account :
    {room : Room} (lines : List String) (s t : System)
    → SenderStep room s t
    → Account lines s s.queue
    → Account lines t t.queue
SenderStep-Account lines s t (gets line rest e g) a = ground arith
SenderStep-Account lines s t (gets_none e g) a = ground arith
SenderStep-Account lines s t (queues line q e g fits h) a =
    ground (arith, append_assoc q (line ∷ []) s.input)
SenderStep-Account lines s t (hands_over line e g fits h) a = ground arith
SenderStep-Account lines s t (send_fails line n e) a = a
SenderStep-Account lines s t (removes e) a = loses lines s s.queue a
SenderStep-Account lines s t (remove_fails n e) a = a
SenderStep-Account lines s t (joins e g) a = a

ReceiverStep-Account :
    (lines : List String) (s t : System)
    → ReceiverStep s t
    → Account lines s s.queue
    → Account lines t t.queue
ReceiverStep-Account lines s t (malloc_fails n e g) a = a
ReceiverStep-Account lines s t (takes line q e g) a = ground arith
ReceiverStep-Account lines s t (sleeps e g) a = ground arith
ReceiverStep-Account lines s t (finds_none e g) a = a
ReceiverStep-Account lines s t (call_fails n e g) a = a
ReceiverStep-Account lines s t (wakes e g) a = ground arith
ReceiverStep-Account lines s t (receive_fails n e g) a = a
ReceiverStep-Account lines s t (tells line e) a = told lines s line s.queue e a

pub Step-Account :
    {room : Room} (lines : List String) (s t : System)
    → Step room s t
    → Account lines s s.queue
    → Account lines t t.queue
Step-Account lines s t (by_sender alive st) a = SenderStep-Account lines s t st a
Step-Account lines s t (by_receiver alive st) a = ReceiverStep-Account lines s t st a

-- In every state that is reached, until the queue is removed, the lines of the input are, in their
-- order, the lines printed, the one that the second thread has in hand, those in the queue, the one
-- that main has in hand and those not yet read. Once it is removed, they are the lines printed, the
-- one in hand, and lines that are lost.
pub Runs-Account :
    {room : Room} {lines : List String} {s : System} → Runs room lines s → Account lines s s.queue
Runs-Account {lines = lines} r =
    Reach-keeps (λ s. Account lines s s.queue) (Step-Account lines) refl r

-- main asks for the next line, and the second thread has not yet called msgrcv.
abbrev sent_of : List String → List String → System
sent_of rest q = record (init rest) { queue = some q }

-- The system has room for all the lines at once.
abbrev pub Fits : Room → List String → Type 0
Fits room lines =
    (q : List String) (line : String) (rest : List String)
    → q ++ (line ∷ rest) ≡ lines
    → room q line ≡ true
