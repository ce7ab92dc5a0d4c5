-- ===== src/Process/Account.antt =====
-- process_control/show_process_account.c, built without BSD and HAS_AC_STAT: the 16-bit floating
-- numbers of an accounting file, and one printed line for each of its records.
pub mod Laws
use apue_code.Base.{
  ℕ, zero, suc, ◌*◌, ◌/◌, ◌%◌, ◌^◌, String, Bool, Option, none, some, List, [], ◌∷◌, bit_and, Exec,
  Process, Outcome, done, Errno, Call, text, num, error_text, ℤ, int_of, Result, ok, fail, sys,
  emit, stdout, Line, fprintf_err, exit, exit_failure, get_errno, pure, spin, die, program_name,
  not, ◌==◌, if◌then◌else◌, ◌>>=◌, ◌>>◌,
}

-- The bound of `unsigned long`.
abbrev pub ulong_mod : ℕ
ulong_mod = 2 ^ 64

-- while (exp-- > 0) val *= 8;
pub times_eight : ℕ → ℕ → ℕ
times_eight zero val = val
times_eight (suc exp) val = times_eight exp (val * 8 % ulong_mod)

-- A comp_t: three bits of exponent to the base 8 above thirteen bits of fraction.
unfoldable pub compt2ulong : ℕ → ℕ
unfolding times_eight
compt2ulong comptime =
    let val = bit_and comptime 0x1fff in
    let exp = bit_and (comptime / 2 ^ 13) 7 in times_eight exp val

-- struct acct, as far as the program prints it
pub record Acct : Type 0 where
  pub ac_comm : String
  pub ac_etime : ℕ
  pub ac_io : ℕ
  pub ac_flag : ℕ

-- ACORE and AXSIG, which are 0 where the system has none of the name; AFORK and ASU.
pub record Flags : Type 0 where
  pub acore : ℕ
  pub axsig : ℕ
  pub afork : ℕ
  pub asu : ℕ

-- The calls of the C library on the accounting file. fread gives a record, none at the end of the file,
-- or sets errno; ferror is the indicator that it leaves.
pub record AcctFile (S : Type 0) : Type 0 where
  pub fopen : String → Call S ℕ
  pub fread : ℕ → Call S (Option Acct)
  pub ferror : ℕ → S → Bool

-- ac_flag & flag ? letter : ' '
abbrev pub column : ℕ → ℕ → String → String
column ac_flag flag letter = if not (bit_and ac_flag flag == 0) then letter else " "

-- An unsigned long that %61d and %71d take for an int: its low 32 bits, as gcc on Linux passes it.
abbrev pub as_int : ℕ → ℤ
as_int n = int_of (n % 2 ^ 32)

-- What is printed of a record; the widths of FMT are left out.
abbrev pub acct_line : Flags → Acct → Line
acct_line flags a = stdout (
    text a.ac_comm
    ∷ text " e = "
    ∷ num (as_int (compt2ulong a.ac_etime))
    ∷ text ", chars = "
    ∷ num (as_int (compt2ulong a.ac_io))
    ∷ text ", "
    ∷ text (column a.ac_flag flags.acore "D")
    ∷ text " "
    ∷ text (column a.ac_flag flags.axsig "X")
    ∷ text " "
    ∷ text (column a.ac_flag flags.afork "F")
    ∷ text " "
    ∷ text (column a.ac_flag flags.asu "S")
    ∷ text "\n"
    ∷ [])

module _ {S : Type 0} (flags : Flags) (file : AcctFile S) where
  -- A failing fread gives no record, and sets errno.
  abbrev pub record_end : Process S → Result (Option Acct) × S → Outcome (Option Acct) × Process S
  record_end p (ok r, s) = (done r, record p { kernel = s })
  record_end p (fail e, s) = (done none, record p { kernel = s; errno = e })

  abbrev pub next_record : ℕ → Exec S (Option Acct)
  next_record fp p = record_end p (file.fread fp p.kernel)

  abbrev check_error : ℕ → Exec S (Unit {0})
  check_error fp p = (if file.ferror fp p.kernel then die "fread error" else pure tt) p

  -- The loop's body and the rounds behind it, or what follows the loop.
  abbrev pub check_record : ℕ → Exec S (Unit {0}) → Option Acct → Exec S (Unit {0})
  check_record fp next none = check_error fp
  check_record fp next (some a) = emit (acct_line flags a) >> next

  -- while (fread(&acdata, sizeof(acdata), 1, fp) == 1) ... and the test of ferror behind it. One unit
  -- of fuel is one round.
  pub print_records : ℕ → ℕ → Exec S (Unit {0})
  print_records fp zero = spin
  print_records fp (suc fuel) = next_record fp >>= check_record fp (print_records fp fuel)

  -- What follows fopen.
  abbrev opened : ℕ → String → Option ℕ → Exec S (Unit {0})
  opened fuel path none = do
    e ← get_errno
    fprintf_err (text "can's open " ∷ text path ∷ text ": " ∷ error_text e ∷ text "\n" ∷ [])
    exit exit_failure
  opened fuel path (some fp) = print_records fp fuel

  unfoldable pub main : ℕ → List String → Exec S (Unit {0})
  unfolding print_records
  main fuel (name ∷ path ∷ []) = sys (file.fopen path) >>= opened fuel path
  main fuel argv = do
    fprintf_err (text "usage: " ∷ text (program_name argv) ∷ text " <filename>\n" ∷ [])
    exit exit_failure
