-- ===== src/Process/Account/Laws.antt =====
-- The numbers that compt2ulong gives, and the lines for the records of a file.
use apue_code.Base.{
  ℕ, zero, suc, ◌*◌, ◌/◌, ◌%◌, ◌^◌, ◌<◌, ◌≡◌, refl, String, Bool, true, false, Option, none, some,
  List, [], ◌∷◌, arith, and_7, and_8191, length, done, exited, ok, Process, Line, perror_line, ap,
  ◌∙◌, sys_ok, die, pure, says, Outcome, go_on, if◌then◌else◌, Errno, Result, fail, bit_and, not,
  ◌==◌, int_of, stdout, text, num,
}
use apue_code.Process.Account.{
  times_eight, compt2ulong, Acct, Flags, AcctFile, acct_line, opened, check_record, record_end,
  print_records, main,
}

-- At most seven multiplications of a 13-bit fraction do not wrap.
times_eight_small :
    (e v : ℕ) → e < 8 → v < 8192 → (times_eight e v ≡ v * 8 ^ e) × (times_eight e v < 2 ^ 34)
unfolding times_eight
times_eight_small zero v h k = (omega arith, omega arith)
times_eight_small (suc zero) v h k = (omega arith, omega arith)
times_eight_small (suc (suc zero)) v h k = (omega arith, omega arith)
times_eight_small (suc (suc (suc zero))) v h k = (omega arith, omega arith)
times_eight_small (suc (suc (suc (suc zero)))) v h k = (omega arith, omega arith)
times_eight_small (suc (suc (suc (suc (suc zero))))) v h k = (omega arith, omega arith)
times_eight_small (suc (suc (suc (suc (suc (suc zero)))))) v h k = (omega arith, omega arith)
times_eight_small (suc (suc (suc (suc (suc (suc (suc zero))))))) v h k = (omega arith, omega arith)
times_eight_small (suc (suc (suc (suc (suc (suc (suc (suc e)))))))) v h k = absurd (omega arith)

-- Of a 16-bit comp_t the result is the fraction, its low 13 bits, times 8 to the power of the
-- exponent, its high 3 bits; it is below 2 ^ 34, so no multiplication wraps.
pub compt2ulong_lem :
    (c : ℕ) → c < 2 ^ 16 → (compt2ulong c ≡ c % 8192 * 8 ^ (c / 8192)) × (compt2ulong c < 2 ^ 34)
unfolding compt2ulong
compt2ulong_lem c h =
    let exp : c / 8192 % 8 ≡ c / 8192 = omega arith in
    rw (and_7, and_8191, exp) (times_eight_small (c / 8192) (c % 8192) (omega arith) (omega arith))

abbrev pub stopped : Option Errno → Result (Option Acct)
stopped none = ok none
stopped (some e) = fail e

-- errno behind the last fread.
abbrev pub errno_of : Errno → Option Errno → Errno
errno_of before none = before
errno_of before (some e) = e

-- The letter of a flag, if it is set, and else a space.
abbrev pub letter : Bool → String → String
letter set name = if set then name else " "

abbrev pub is_set : ℕ → ℕ → Bool
is_set ac_flag flag = not (bit_and ac_flag flag == 0)

-- The line for a record: D for a core, X for a signal, F for a fork without exec, S for the superuser.
abbrev pub line_of : Flags → Acct → Line
line_of flags a = stdout (
    text a.ac_comm
    ∷ text " e = "
    ∷ num (int_of (compt2ulong a.ac_etime % 2 ^ 32))
    ∷ text ", chars = "
    ∷ num (int_of (compt2ulong a.ac_io % 2 ^ 32))
    ∷ text ", "
    ∷ text (letter (is_set a.ac_flag flags.acore) "D")
    ∷ text " "
    ∷ text (letter (is_set a.ac_flag flags.axsig) "X")
    ∷ text " "
    ∷ text (letter (is_set a.ac_flag flags.afork) "F")
    ∷ text " "
    ∷ text (letter (is_set a.ac_flag flags.asu) "S")
    ∷ text "\n"
    ∷ [])

module _ {S : Type 0} (flags : Flags) (file : AcctFile S) where
  -- fread gives these records in turn, takes the file from `s` to `t`, and then gives none, at the end of
  -- the file or by an error.
  abbrev pub Reads : ℕ → List Acct → Option Errno → S → S → Type 0
  Reads fp [] stop s t = file.fread fp s ≡ (stopped stop, t)
  Reads fp (a ∷ records) stop s t =
      (u : S) × (file.fread fp s ≡ (ok (some a), u)) × Reads fp records stop u t

  -- The lines for some records, each with its two numbers converted.
  abbrev pub acct_lines : List Acct → List Line
  acct_lines [] = []
  acct_lines (a ∷ records) = line_of flags a ∷ acct_lines records

  -- The end of the run, by what ferror says.
  abbrev pub ended : Bool → Process S → Outcome (Unit {0}) × Process S
  ended true p = (exited 1, record p { log = perror_line "fread error" p.errno ∷ p.log })
  ended false p = (done tt, p)

  -- The run after the read of a record.
  abbrev after : ℕ → ℕ → Process S → Result (Option Acct) × S → Outcome (Unit {0}) × Process S
  after fuel fp p x =
      go_on (check_record flags file fp (print_records flags file fp fuel))
        (record_end flags file p x)

  check_error-ended :
      (b : Bool) (p : Process S) → (if b then die "fread error" else pure tt) p ≡ ended b p
  check_error-ended true p = refl
  check_error-ended false p = refl

  print_records-Reads :
      (fuel fp : ℕ) (records : List Acct) (stop : Option Errno) (p : Process S) (t : S)
      → Reads fp records stop p.kernel t
      → length records < fuel
      → print_records flags file fp fuel p
        ≡ ended (file.ferror fp t) (record p {
          kernel = t;
          errno = errno_of p.errno stop;
          log = says (acct_lines records) p.log;
        })
  unfolding print_records
  print_records-Reads zero fp records stop p t reads h = absurd (omega arith)
  print_records-Reads (suc fuel) fp [] none p t reads h =
      ap (after fuel fp p) reads ∙ check_error-ended (file.ferror fp t) (record p { kernel = t })
  print_records-Reads (suc fuel) fp [] (some e) p t reads h =
      ap (after fuel fp p) reads
      ∙ check_error-ended (file.ferror fp t) (record p { kernel = t; errno = e })
  print_records-Reads (suc fuel) fp (a ∷ records) stop p t (u, got, reads) h =
      ap (after fuel fp p) got
      ∙ print_records-Reads fuel fp records stop
          (record p { kernel = u; log = acct_line flags a ∷ p.log }) t reads (omega arith)

  -- If the file opens and fread gives some records and then none, at the end of the file or by an error,
  -- one line is printed for each of them, in order, with the two numbers cut to an int and a letter for
  -- each flag that is set; then the program returns 0, or reports errno, which is that of a failed fread,
  -- and exits with status 1, as ferror says. More rounds of fuel than records are enough.
  pub main_prints :
      (fuel fp : ℕ) (name path : String) (records : List Acct) (stop : Option Errno) (p : Process S)
      (s t : S)
      → file.fopen path p.kernel ≡ (ok fp, s)
      → Reads fp records stop s t
      → length records < fuel
      → main flags file fuel (name ∷ path ∷ []) p
        ≡ ended (file.ferror fp t) (record p {
          kernel = t;
          errno = errno_of p.errno stop;
          log = says (acct_lines records) p.log;
        })
  unfolding main
  main_prints fuel fp name path records stop p s t open_ok reads h =
      sys_ok
        (λ x.
          x
          ≡ ended (file.ferror fp t) (record p {
            kernel = t;
            errno = errno_of p.errno stop;
            log = says (acct_lines records) p.log;
          }))
        (file.fopen path) (opened flags file fuel path) p fp s open_ok
        (print_records-Reads fuel fp records stop (record p { kernel = s }) t reads h)
