-- ===== src/Files/Tests.antt =====
-- Runs of the programs of files_and_directories/, and their theorems at concrete inputs.
use apue_code.Files.Unlink
use apue_code.Base.{
  ◌==◌, ℕ, suc, ◌↔◌, ◌≡◌, refl, String, true, List, [], ◌∷◌, ok, fail, done, exited, other,
  no_error, Process, Call, stdout, text, perror_line, says, if◌then◌else◌,
}
use package.text.Mathlib.Text.{◌==◌ as str_eq}
use apue_code.Mode.{has, s_ixoth, s_isvtx}
use apue_code.Files.Stat.{type_char, exec_char, other_exec_char}
use apue_code.Files.Stat.Laws.{mode_places, ls_other_char, other_exec_char-ls}
use apue_code.Files.Types.{type_name, print_types}
use apue_code.Files.Types.Laws.{type_lines, Stats, name_of, type_name-type_char, print_types_stops}
use apue_code.Files.Access.{chmod_main}
use apue_code.Files.Access.Laws.{chmod_main_ok}
use apue_code.Files.Links.{LinkCalls, linkat_main, renameat_main}

-- The system is a counter of the calls made of it.
abbrev start : Process ℕ
start = record { kernel = 0; errno = no_error; log = [] }

abbrev ls_places : List String
ls_places = "-" ∷ "r" ∷ "w" ∷ "s" ∷ "r" ∷ "-" ∷ "x" ∷ "r" ∷ "-" ∷ "-" ∷ []

-- A set-user-id program that all may execute: the last place shows "-".
mode_places_run :
    mode_places 0o104755 ≡ "-" ∷ "r" ∷ "w" ∷ "s" ∷ "r" ∷ "-" ∷ "x" ∷ "r" ∷ "-" ∷ "-" ∷ []
unfolding mode_places type_char exec_char other_exec_char
mode_places_run = refl

other_exec_char-ls_example :
    other_exec_char 0o100755 ≡ ls_other_char 0o100755 ↔ has 0o100755 s_ixoth ≡ has 0o100755 s_isvtx
other_exec_char-ls_example = other_exec_char-ls 0o100755

type_name-type_char_example : type_name 0o040755 ≡ name_of (type_char 0o040755)
type_name-type_char_example = type_name-type_char 0o040755

-- lstat that knows a directory and a fifo, and no other file.
abbrev lstat_mode : String → Call ℕ ℕ
lstat_mode path n =
    if str_eq path "etc"
    then (ok 0o040755, suc n)
    else if str_eq path "pipe"
    then (ok 0o010644, suc n)
    else (fail (other 2), suc n)

abbrev known : List (String × ℕ)
known = ("etc", 0o040755) ∷ ("pipe", 0o010644) ∷ []

known-Stats : Stats lstat_mode known 0 2
known-Stats = (1, refl, (2, refl, refl))

print_types_stops_example : print_types lstat_mode ("etc" ∷ "pipe" ∷ "gone" ∷ "etc" ∷ []) start ≡ (
  exited 1,
  record {
    kernel = 3;
    errno = other 2;
    log =
        perror_line "stat error" (other 2)
        ∷ stdout (text "gone" ∷ text ": " ∷ [])
        ∷ says (type_lines lstat_mode known) [];
  },
)
print_types_stops_example =
    print_types_stops lstat_mode known "gone" ("etc" ∷ []) start 2 3 (other 2) known-Stats refl

abbrev granted : String → ℕ → Call ℕ (Unit {0})
granted path mode n = (ok tt, mode)

abbrev after_access : Process ℕ
after_access = record start { kernel = 2; log = stdout (text "access success\n" ∷ []) ∷ [] }

chmod_main_ok_example : chmod_main granted ("chmod" ∷ "f" ∷ []) start ≡ (
  done tt,
  record start {
    kernel = 0o744;
    log =
        stdout (text "new access mode: rwxr--r--\n" ∷ [])
        ∷ stdout (text "chmod success\n" ∷ [])
        ∷ [];
  },
)
unfolding mode_places type_char exec_char other_exec_char
chmod_main_ok_example = chmod_main_ok granted "chmod" "f" start 0o744 refl

abbrev calls : LinkCalls ℕ
calls = record {
  link = λ from to n. (ok tt, suc n);
  linkat = λ from_dir from to_dir to mode n. (fail (other 2), suc n);
  rename = λ from to n. (ok tt, suc n);
  renameat = λ from_dir from to_dir to n. (ok tt, suc n);
  symlink = λ from to n. (ok tt, suc n);
}

linkat_run : linkat_main calls true ("prog" ∷ "a" ∷ "b" ∷ []) start ≡ (
  exited 1,
  record { kernel = 1; errno = other 2; log = perror_line "linkat error" (other 2) ∷ [] },
)
unfolding linkat_main
linkat_run = refl

renameat_run : renameat_main calls ("prog" ∷ "a" ∷ "b" ∷ []) start ≡ (
  done tt,
  record start {
    kernel = 1;
    log =
        stdout (text "a" ∷ text " -> " ∷ text "b" ∷ text "\n" ∷ [])
        ∷ stdout (text "renameat success\n" ∷ [])
        ∷ [];
  },
)
unfolding renameat_main
renameat_run = refl

-- The state counts the rounds; the third write is short.
abbrev filling : Unlink.Calls ℕ
filling = record {
  sigaction = λ s. (ok tt, s);
  open_file = λ path s. (ok 3, s);
  write = λ fd n s. (ok (if s == 2 then 100 else n), suc s);
  pause = λ s. (ok tt, s);
  unlink = λ path s. (ok tt, s);
}

two_writes : Unlink.write_all filling 3 2 start ≡ (done tt, record start { kernel = 2 })
unfolding Unlink.write_all
two_writes = refl

short_write : (Unlink.write_all filling 3 5 start).1.kernel ≡ 3
unfolding Unlink.write_all
short_write = refl
