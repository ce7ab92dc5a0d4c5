-- ===== src/Ipc/MessageQueue.antt =====
-- interprocess_communication/sv_msq.c: the main thread sends the lines of its input through a message
-- queue to a second thread, which prints them. From the creation of that thread on, each step of the
-- model is one call of one thread.
pub mod Laws
pub mod Complete
use apue_code.Base.{
  ℕ, ◌≡◌, ◌≢◌, String, Bool, true, Option, none, some, List, [], ◌∷◌, ◌++◌, ℤ, pos, negsuc, atoi,
  Exec, Call, Errno, eidrm, other, Line, stdout, stderr, perror_line, text, error_text, must, exit,
  fprintf_err, pure, program_name, Reach, ◌>>=◌, ◌>>◌,
}

-- The calls before the loops; `pthread_create` gives the number of an error.
pub record SetupCalls (S : Type 0) : Type 0 where
  pub setvbuf : Call S (Unit {0})
  pub malloc : Call S (Unit {0})
  pub ftok : String → ℤ → S → Option ℕ × S
  pub msgget : ℕ → Call S ℕ
  pub pthread_create : ℕ → S → Option Errno × S

module _ {S : Type 0} (c : SetupCalls S) where
  abbrev key_of : Option ℕ → Exec S ℕ
  key_of (some key) = pure key
  key_of none = fprintf_err (text "ftok error\n" ∷ []) >> exit 1

  abbrev make_key : String → ℤ → Exec S ℕ
  make_key path id p = let x = c.ftok path id p.kernel in key_of x.0 (record p { kernel = x.1 })

  abbrev created : ℕ → Option Errno → Exec S ℕ
  created msqid none = pure msqid
  created msqid (some err) =
      fprintf_err (text "pthread_create error: " ∷ error_text err ∷ text "\n" ∷ []) >> exit 1

  abbrev create : ℕ → Exec S ℕ
  create msqid p =
      let x = c.pthread_create msqid p.kernel in created msqid x.0 (record p { kernel = x.1 })

  -- main up to its loop: the number of the queue, which is new and empty.
  unfoldable pub set_up : List String → Exec S ℕ
  set_up (name ∷ path ∷ id ∷ []) = do
    must "setvbuf error" c.setvbuf
    must "malloc error" c.malloc
    key ← make_key path (atoi id)
    msqid ← must "msgget error" (c.msgget key)
    create msqid
  set_up argv = do
    fprintf_err (text "Usage: " ∷ text (program_name argv) ∷ text " <pathname> <project id>\n" ∷ [])
    exit 1

-- Where the main thread stands, with the text in its buffer.
pub data Sender : Type 0 where
  asking : Sender
  sending : String → Sender
  removing joining : Sender

-- Where the other thread stands: before msgrcv, asleep in it, or behind it with a text.
pub data Receiver : Type 0 where
  calling asleep : Receiver
  telling : String → Receiver
  finished : Receiver

-- The queue, until it is removed; the lines that fgets has still to give; what was printed, the newest
-- first; and the exit status of the process.
pub record System : Type 0 where
  pub sender : Sender
  pub receiver : Receiver
  pub queue : Option (List String)
  pub input : List String
  pub printed : List String
  pub log : List Line
  pub ended : Option ℕ

-- exit(1) in any thread ends the process.
abbrev pub dies : System → Line → System
dies s line = record s { log = line ∷ s.log; ended = some 1 }

-- Whether the system has room for a text behind the messages of a queue.
abbrev pub Room : Type 0
Room = List String → String → Bool

-- A step of main. A message goes to the end of the queue, or to a thread that sleeps for it. msgsnd
-- blocks where there is no room.
pub data SenderStep (room : Room) (s : System) : System → Type 0 where
  gets :
      (line : String) (rest : List String)
      → s.sender ≡ asking
      → s.input ≡ line ∷ rest
      → SenderStep room s (record s { sender = sending line; input = rest })
  gets_none : s.sender ≡ asking → s.input ≡ [] → SenderStep room s (record s { sender = removing })
  queues :
      (line : String) (q : List String)
      → s.sender ≡ sending line
      → s.queue ≡ some q
      → room q line ≡ true
      → s.receiver ≢ asleep
      → SenderStep room s (record s { sender = asking; queue = some (q ++ (line ∷ [])) })
  hands_over :
      (line : String)
      → s.sender ≡ sending line
      → s.queue ≡ some []
      → room [] line ≡ true
      → s.receiver ≡ asleep
      → SenderStep room s (record s { sender = asking; receiver = telling line })
  send_fails :
      (line : String) (e : Errno)
      → s.sender ≡ sending line
      → SenderStep room s (dies s (perror_line "msgsnd error" e))
  removes : s.sender ≡ removing → SenderStep room s (record s { sender = joining; queue = none })
  remove_fails :
      (e : Errno)
      → s.sender ≡ removing
      → SenderStep room s (dies s (perror_line "msgctl(IPC_RMID) error" e))
  joins :
      s.sender ≡ joining → s.receiver ≡ finished → SenderStep room s (record s { ended = some 0 })

-- EINVAL, which msgrcv gives for a queue that is no more.
abbrev pub einval : Errno
einval = other 22

-- A step of thr_func. msgrcv fails with EIDRM only where the queue is removed while it sleeps.
pub data ReceiverStep (s : System) : System → Type 0 where
  malloc_fails :
      (e : Errno)
      → s.receiver ≡ calling
      → s.printed ≡ []
      → ReceiverStep s (dies s (perror_line "msgptr error" e))
  takes :
      (line : String) (q : List String)
      → s.receiver ≡ calling
      → s.queue ≡ some (line ∷ q)
      → ReceiverStep s (record s { receiver = telling line; queue = some q })
  sleeps :
      s.receiver ≡ calling → s.queue ≡ some [] → ReceiverStep s (record s { receiver = asleep })
  finds_none :
      s.receiver ≡ calling
      → s.queue ≡ none
      → ReceiverStep s (dies s (perror_line "msgrcv error" einval))
  call_fails :
      (e : Errno)
      → s.receiver ≡ calling
      → e ≢ eidrm
      → ReceiverStep s (dies s (perror_line "msgrcv error" e))
  wakes :
      s.receiver ≡ asleep
      → s.queue ≡ none
      → ReceiverStep s
          (record s { receiver = finished; log = stderr (text "msgrcv over\n" ∷ []) ∷ s.log })
  receive_fails :
      (e : Errno)
      → s.receiver ≡ asleep
      → e ≢ eidrm
      → ReceiverStep s (dies s (perror_line "msgrcv error" e))
  tells :
      (line : String)
      → s.receiver ≡ telling line
      → ReceiverStep s (record s {
        receiver = calling;
        printed = line ∷ s.printed;
        log = stdout (text "msgrcv: " ∷ text line ∷ []) ∷ s.log;
      })

pub data Step (room : Room) (s : System) : System → Type 0 where
  by_sender : {t : System} → s.ended ≡ none → SenderStep room s t → Step room s t
  by_receiver : {t : System} → s.ended ≡ none → ReceiverStep s t → Step room s t

-- Behind the creation of the thread, with the lines of the standard input.
abbrev pub init : List String → System
init lines = record {
  sender = asking;
  receiver = calling;
  queue = some [];
  input = lines;
  printed = [];
  log = [];
  ended = none;
}

abbrev pub Runs : Room → List String → System → Type 0
Runs room lines = Reach (Step room) (init lines)
