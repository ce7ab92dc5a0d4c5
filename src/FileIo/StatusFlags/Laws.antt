-- ===== src/FileIo/StatusFlags/Laws.antt =====
-- file_status_flags.c: the line that is printed, against a table of the flags.
use apue_code.Base.{
  ℕ, sys_ok, atoi, ◌<◌, ◌≡◌, refl, String, Bool, true, false, none, some, List, [], ◌∷◌, bit_and,
  arith, ok, done, exited, Call, Process, Line, stdout, stderr, text, ℤ, ap, ◌∙◌, go_on, Exec, when,
  printf, ◌>>=◌, Piece, ◌==◌, if◌then◌else◌,
}
use apue_code.FileIo.Flags.{o_accmode, o_append, o_nonblock, o_sync, has}
use apue_code.FileIo.StatusFlags.{
  Build, fsync_flag, print_access, print_flags, describe, answer, main,
}

abbrev pub access_text : ℕ → String
access_text mode =
    if mode == 0 then "read only" else if mode == 1 then "write only" else "read write"

-- The flags with their texts, in the order of printing.
abbrev pub flag_table : List (ℕ × String)
flag_table =
    (o_append, ", append") ∷ (o_nonblock, ", nonblocking") ∷ (o_sync, ", synchronous writes") ∷ []

-- One line for each flag of the table that is set.
abbrev pub flag_lines : List (ℕ × String) → ℕ → List Line → List Line
flag_lines [] val log = log
flag_lines ((flag, name) ∷ table) val log =
    flag_lines table val (if has val flag then stdout (text name ∷ []) ∷ log else log)

-- The log after `describe`, where the preprocessor left the last test out.
abbrev pub described : ℕ → List Line → List Line
described val log =
    stdout (text "\n" ∷ [])
    ∷ flag_lines flag_table val (stdout (text (access_text (bit_and val o_accmode)) ∷ []) ∷ log)

-- The same with a second line about synchronous writes.
abbrev pub described_twice : ℕ → List Line → List Line
described_twice val log =
    stdout (text "\n" ∷ [])
    ∷ stdout (text ", synchronous writes" ∷ [])
    ∷ flag_lines flag_table val (stdout (text (access_text (bit_and val o_accmode)) ∷ []) ∷ log)

module _ {S : Type 0} where
  print_access_known :
      (p : Process S) (mode : ℕ)
      → mode < 3
      → print_access mode p
        ≡ (done tt, record p { log = stdout (text (access_text mode) ∷ []) ∷ p.log })
  print_access_known p mode h = ground arith

  -- `when` prints its line, or leaves the log as it is.
  when-printf :
      (b : Bool) (l : List Piece) (f : Unit {0} → Exec S (Unit {0})) (p : Process S)
      → (when b (printf l) >>= f) p
        ≡ f tt (record p { log = if b then stdout l ∷ p.log else p.log })
  when-printf true l f p = refl
  when-printf false l f p = refl

  print_flags_table :
      (p : Process S) (val : ℕ)
      → print_flags none val p
        ≡ (done tt, record p { log = stdout (text "\n" ∷ []) ∷ flag_lines flag_table val p.log })
  print_flags_table p val = rw (when-printf, when-printf, when-printf)

  -- On a descriptor with one of the three access modes, if the second test of O_SYNC is left out.
  pub describe_known :
      (p : Process S) (b : Build) (val : ℕ)
      → bit_and val o_accmode < 3
      → fsync_flag b ≡ none
      → describe b val p ≡ (done tt, record p { log = described val p.log })
  unfolding describe
  describe_known p b val h off =
      ap (go_on (λ _. print_flags (fsync_flag b) val))
        (print_access_known p (bit_and val o_accmode) h)
      ∙ rw off (print_flags_table _ val)

  describe_unknown :
      (p : Process S) (b : Build) (val : ℕ)
      → bit_and val o_accmode ≡ 3
      → describe b val p
        ≡ (exited 1, record p { log = stderr (text "unknown access mode\n" ∷ []) ∷ p.log })
  unfolding describe
  describe_unknown p b val h = ground arith

  -- Where O_FSYNC is O_SYNC and is not hidden, as on Linux, a synchronous descriptor is said twice to
  -- have synchronous writes.
  describe_sync_twice :
      (p : Process S) (val : ℕ)
      → bit_and val o_accmode < 3
      → has val o_sync ≡ true
      → describe (record { posix_c_source = false; o_fsync = some o_sync }) val p
        ≡ (done tt, record p { log = described_twice val p.log })
  unfolding describe
  describe_sync_twice p val h sync =
      ap (go_on (λ _. print_flags (some o_sync) val))
        (print_access_known p (bit_and val o_accmode) h)
      ∙ rw (when-printf, when-printf, sync)

module _ {S : Type 0} (get_flags : ℤ → Call S ℕ) (b : Build) (name fd : String) (p : Process S)
    (val : ℕ) (s : S) (answered : get_flags (atoi fd) p.kernel ≡ (ok val, s)) where
  -- If fcntl answers with one of the three access modes, and the second test of O_SYNC is left out,
  -- the program prints the mode, each flag of the table that is set, once and in the table's order,
  -- and a newline, and returns 0.
  pub main_known :
      bit_and val o_accmode < 3
      → fsync_flag b ≡ none
      → main get_flags b (name ∷ fd ∷ []) p
        ≡ (done tt, record p { kernel = s; log = described val p.log })
  unfolding main answer
  main_known h off =
      sys_ok (λ x. x ≡ (done tt, record p { kernel = s; log = described val p.log }))
        (get_flags (atoi fd)) (answer b fd) p val s answered
        (describe_known (record p { kernel = s }) b val h off)

  -- If fcntl answers with the access mode 3, the program prints only an error and exits with 1.
  pub main_unknown :
      bit_and val o_accmode ≡ 3
      → main get_flags b (name ∷ fd ∷ []) p ≡ (
        exited 1,
        record p { kernel = s; log = stderr (text "unknown access mode\n" ∷ []) ∷ p.log },
      )
  unfolding main answer
  main_unknown h =
      sys_ok
        (λ x. x ≡ (
          exited 1,
          record p { kernel = s; log = stderr (text "unknown access mode\n" ∷ []) ∷ p.log },
        ))
        (get_flags (atoi fd)) (answer b fd) p val s answered
        (describe_unknown (record p { kernel = s }) b val h)
