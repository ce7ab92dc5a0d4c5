-- ===== src/AdvancedIo/RecordLock.antt =====
-- advanced_io/record_lock.c: takes a lock on the first byte of a file, holds it for a while, and releases
-- it. `garbage` is what stands in the fields of `unlock` that the program does not set;
-- off_t is signed.
use apue_code.Base.{
  ℕ, ◌==◌, if◌then◌else◌, String, List, [], ◌∷◌, ℤ, pos, atoi, Exec, Call, text, num, must, sys,
  exit, printf, fprintf_err, program_name, codes, bit_or, ◌>>=◌, ◌>>◌,
}
use apue_code.FileIo.Flags.{o_rdwr, o_creat}

-- struct flock
pub data LockType : Type 0 where
  f_rdlck f_wrlck f_unlck : LockType

pub record Flock : Type 0 where
  pub l_type : LockType
  pub l_whence : ℕ
  pub l_start : ℤ
  pub l_len : ℤ

pub data LockCmd : Type 0 where
  f_setlk f_setlkw : LockCmd

-- `clock` is the text of the time of day that clock_gettime, localtime and strftime give; `sleep` gives
-- the seconds left.
pub record Calls (S : Type 0) : Type 0 where
  pub open_file : String → ℕ → ℕ → Call S ℕ
  pub fcntl : ℕ → LockCmd → Flock → Call S (Unit {0})
  pub clock : S → String × S
  pub getpid : S → ℕ
  pub sleep : ℤ → Call S ℕ

abbrev pub seek_set : ℕ
seek_set = 0

abbrev pub type_text : LockType → String
type_text f_rdlck = "read"
type_text f_wrlck = "write"
type_text f_unlck = "write"

module _ {S : Type 0} (c : Calls S) where
  abbrev pub lock_reg : ℕ → LockCmd → LockType → ℤ → ℕ → ℤ → Call S (Unit {0})
  lock_reg fd cmd type offset whence len =
      c.fcntl fd cmd (record { l_type = type; l_whence = whence; l_start = offset; l_len = len })

  abbrev pub read_lock : ℕ → ℤ → ℕ → ℤ → Call S (Unit {0})
  read_lock fd offset whence len = lock_reg fd f_setlk f_rdlck offset whence len

  abbrev pub readw_lock : ℕ → ℤ → ℕ → ℤ → Call S (Unit {0})
  readw_lock fd offset whence len = lock_reg fd f_setlkw f_rdlck offset whence len

  abbrev pub write_lock : ℕ → ℤ → ℕ → ℤ → Call S (Unit {0})
  write_lock fd offset whence len = lock_reg fd f_setlk f_wrlck offset whence len

  abbrev pub writew_lock : ℕ → ℤ → ℕ → ℤ → Call S (Unit {0})
  writew_lock fd offset whence len = lock_reg fd f_setlkw f_wrlck offset whence len

  abbrev pub un_lock : ℕ → ℤ → ℕ → ℤ → Call S (Unit {0})
  un_lock fd offset whence len = lock_reg fd f_setlk f_unlck offset whence len

module _ {S : Type 0} (c : Calls S) (garbage : ℤ × ℤ) where
  abbrev usage : List String → Exec S (Unit {0})
  usage argv = do
    fprintf_err
        (text "Usage: " ∷ text (program_name argv) ∷ text " <filename> (r | w) <duration>\n" ∷ [])
    exit 1

  -- clock_gettime, localtime and strftime, and the line behind the lock or behind its release.
  abbrev pub tell : String → LockType → Exec S (Unit {0})
  tell did type p =
      let x = c.clock p.kernel in
      printf
        (text "process "
          ∷ num (pos (c.getpid x.1))
          ∷ text did
          ∷ text (type_text type)
          ∷ text " lock at: "
          ∷ text x.0
          ∷ text "\n"
          ∷ [])
        (record p { kernel = x.1 })

  -- The rest of main behind the test of the letter; the results of the calls are not tested.
  abbrev pub hold : ℕ → LockType → ℤ → Exec S (Unit {0})
  hold fd type sleep_tm = do
    sys (
        c.fcntl fd f_setlkw
          (record { l_type = type; l_whence = seek_set; l_start = pos 0; l_len = pos 1 }))
    tell " get " type
    sys (c.sleep sleep_tm)
    sys (
        c.fcntl fd f_setlk (record {
          l_type = f_unlck;
          l_whence = seek_set;
          l_start = garbage.0;
          l_len = garbage.1;
        }))
    tell " release " type

  abbrev pub by_type : List String → ℕ → ℕ → ℤ → Exec S (Unit {0})
  by_type argv fd letter sleep_tm =
      if letter == 114
      then hold fd f_rdlck sleep_tm
      else if letter == 119
      then hold fd f_wrlck sleep_tm
      else usage argv

  -- The second argument by its bytes: one letter, `r` or `w`. The file is opened before the letter is
  -- looked at.
  abbrev pub by_letter : List String → String → List ℕ → ℤ → Exec S (Unit {0})
  by_letter argv path (letter ∷ []) sleep_tm = do
    fd ← must "open error" (c.open_file path (bit_or o_creat o_rdwr) 0o644)
    by_type argv fd letter sleep_tm
  by_letter argv path [] sleep_tm = usage argv
  by_letter argv path (a ∷ b ∷ rest) sleep_tm = usage argv

  unfoldable pub main : List String → Exec S (Unit {0})
  main (name ∷ path ∷ letter ∷ duration ∷ []) =
      by_letter (name ∷ path ∷ letter ∷ duration ∷ []) path (codes letter) (atoi duration)
  main argv = usage argv
