-- ===== src/Threads/Timedlock.antt =====
-- threads/pthread_mutex_timedlock.c: a thread that holds a mutex asks for it again, for five seconds.
use apue_code.Base.{
  ℕ, ◌+◌, String, Option, none, some, Outcome, [], ◌∷◌, Errno, Exec, text, error_text, printf,
  ◌>>=◌, ◌>>◌,
}

-- `clock` gives the seconds of CLOCK_REALTIME, `time_text` is what localtime and strftime make of them.
-- A call on the mutex gives the number of an error, if there is one.
pub record Calls (S : Type 0) : Type 0 where
  pub clock : S → ℕ × S
  pub time_text : ℕ → String
  pub mutex_lock : S → Option Errno × S
  pub mutex_timedlock : ℕ → S → Option Errno × S

module _ {S : Type 0} (c : Calls S) where
  -- clock_gettime, localtime, strftime and the line with the time
  abbrev pub tell_time : String → Exec S ℕ
  tell_time what p =
      let x = c.clock p.kernel in
      let tell : Exec S (Unit {0}) = printf (text what ∷ text (c.time_text x.0) ∷ text "\n" ∷ []) in
      (tell >> λ q. (Outcome.done x.0, q)) (record p { kernel = x.1 })

  abbrev pub lock : Exec S (Option Errno)
  lock p = let x = c.mutex_lock p.kernel in (Outcome.done x.0, record p { kernel = x.1 })

  abbrev pub timedlock : ℕ → Exec S (Option Errno)
  timedlock tout p =
      let x = c.mutex_timedlock tout p.kernel in (Outcome.done x.0, record p { kernel = x.1 })

  abbrev pub verdict : Option Errno → Exec S (Unit {0})
  verdict none = printf (text "mutex locked again!\n" ∷ [])
  verdict (some err) = printf (text "can't lock mutex again: " ∷ error_text err ∷ text "\n" ∷ [])

  -- The result of the first lock is not tested.
  unfoldable pub main : Exec S (Unit {0})
  main = do
    lock
    printf (text "mutex is locked\n" ∷ [])
    now ← tell_time "current time is "
    err ← timedlock (now + 5)
    tell_time "the time is now "
    verdict err
