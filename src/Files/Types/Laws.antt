-- ===== src/Files/Types/Laws.antt =====
-- file_type.c: it names the type that file_stat.c shows, and it stops at the first file that fails.
use package.text.Mathlib.Text.{◌==◌ as str_eq}
use apue_code.Base.{
  ℕ, bit_and, ◌>>◌, ◌≡◌, ◌∙◌, String, List, [], ◌∷◌, ◌++◌, ok, fail, done, exited, Process, Line,
  stdout, text, perror_line, Errno, Call, printf, must_ok, must_fail, ap, append-nil, says,
  if◌then◌else◌, ◌==◌, ==_iff, inl, inr, Bool-cases,
}
use apue_code.Mode.{s_ifmt, s_ifreg, s_ifdir, s_iflnk, s_ifchr, s_ifblk, s_ifsock, s_ififo}
use apue_code.Files.Stat.{type_char}
use apue_code.Files.Types.{type_name, print_types}

-- The name of the type that a letter of ls -l stands for.
abbrev pub name_of : String → String
name_of s =
    if str_eq s "-"
    then "regular\n"
    else if str_eq s "l"
    then "symbolic link\n"
    else if str_eq s "d"
    then "directory\n"
    else if str_eq s "c"
    then "character special\n"
    else if str_eq s "b"
    then "block special\n"
    else if str_eq s "f"
    then "fifo\n"
    else if str_eq s "s"
    then "socket\n"
    else "** unknow type **\n"

-- file_type.c and file_stat.c make their tests in different orders, and agree on every mode.
pub type_name-type_char : (mode : ℕ) → type_name mode ≡ name_of (type_char mode)
unfolding type_name type_char
type_name-type_char mode = elim (Bool-cases (bit_and mode s_ifmt == s_ifreg)) [
  | inl h ↦ rw ((==_iff (bit_and mode s_ifmt) s_ifreg).0 h)
  | inr n0 ↦ elim (Bool-cases (bit_and mode s_ifmt == s_ifdir)) [
    | inl h ↦ rw ((==_iff (bit_and mode s_ifmt) s_ifdir).0 h)
    | inr n1 ↦ elim (Bool-cases (bit_and mode s_ifmt == s_iflnk)) [
      | inl h ↦ rw ((==_iff (bit_and mode s_ifmt) s_iflnk).0 h)
      | inr n2 ↦ elim (Bool-cases (bit_and mode s_ifmt == s_ifchr)) [
        | inl h ↦ rw ((==_iff (bit_and mode s_ifmt) s_ifchr).0 h)
        | inr n3 ↦ elim (Bool-cases (bit_and mode s_ifmt == s_ifblk)) [
          | inl h ↦ rw ((==_iff (bit_and mode s_ifmt) s_ifblk).0 h)
          | inr n4 ↦ elim (Bool-cases (bit_and mode s_ifmt == s_ifsock)) [
            | inl h ↦ rw ((==_iff (bit_and mode s_ifmt) s_ifsock).0 h)
            | inr n5 ↦ elim (Bool-cases (bit_and mode s_ifmt == s_ififo)) [
              | inl h ↦ rw ((==_iff (bit_and mode s_ifmt) s_ififo).0 h)
              | inr n6 ↦ rw (n0, n1, n2, n3, n4, n5, n6)
            ]
          ]
        ]
      ]
    ]
  ]
]

module _ {S : Type 0} (lstat_mode : String → Call S ℕ) where
  -- The lines for files whose modes are known.
  abbrev pub type_lines : List (String × ℕ) → List Line
  type_lines [] = []
  type_lines ((path, mode) ∷ files) =
      stdout (text path ∷ text ": " ∷ []) ∷ stdout (text (type_name mode) ∷ []) ∷ type_lines files

  -- lstat gives these modes in turn, and takes the system from `s` to `t`.
  abbrev pub Stats : List (String × ℕ) → S → S → Type 0
  Stats [] s t = s ≡ t
  Stats ((path, mode) ∷ files) s t = (u : S) × (lstat_mode path s ≡ (ok mode, u)) × Stats files u t

  abbrev pub paths : List (String × ℕ) → List String
  paths [] = []
  paths ((path, mode) ∷ files) = path ∷ paths files

  print_types-append :
      (files : List (String × ℕ)) (rest : List String) (p : Process S) (t : S)
      → Stats files p.kernel t
      → print_types lstat_mode (paths files ++ rest) p
        ≡ print_types lstat_mode rest (record p { kernel = t; log = says (type_lines files) p.log })
  unfolding print_types
  print_types-append [] rest p t h =
      ap (λ k. print_types lstat_mode rest (record p { kernel = k })) h
  print_types-append ((path, mode) ∷ files) rest p t (u, e, h) =
      let said = record p { log = stdout (text path ∷ text ": " ∷ []) ∷ p.log } in
      must_ok
        (λ x.
          x
          ≡ print_types lstat_mode rest
              (record p { kernel = t; log = says (type_lines ((path, mode) ∷ files)) p.log }))
        "stat error" (lstat_mode path)
        (λ m. printf (text (type_name m) ∷ []) >> print_types lstat_mode (paths files ++ rest)) said
        mode u e
        (print_types-append files rest
          (record said { kernel = u; log = stdout (text (type_name mode) ∷ []) ∷ said.log }) t h)

  -- If lstat gives the modes of some files and fails for the next one, the program names the types of
  -- those files in order, begins the line of the next, reports the error and exits with status 1. The
  -- files behind it are not looked at.
  pub print_types_stops :
      (files : List (String × ℕ)) (bad : String) (rest : List String) (p : Process S) (t u : S)
      (e : Errno)
      → Stats files p.kernel t
      → lstat_mode bad t ≡ (fail e, u)
      → print_types lstat_mode (paths files ++ (bad ∷ rest)) p ≡ (
        exited 1,
        record {
          kernel = u;
          errno = e;
          log =
              perror_line "stat error" e
              ∷ stdout (text bad ∷ text ": " ∷ [])
              ∷ says (type_lines files) p.log;
        },
      )
  unfolding print_types
  print_types_stops files bad rest p t u e h failed =
      print_types-append files (bad ∷ rest) p t h
      ∙ must_fail "stat error" (lstat_mode bad)
          (λ m. printf (text (type_name m) ∷ []) >> print_types lstat_mode rest)
          (record p {
            kernel = t;
            log = stdout (text bad ∷ text ": " ∷ []) ∷ says (type_lines files) p.log;
          })
          e u failed

  -- If lstat gives the modes of all files, the program prints one line for each and returns 0.
  print_types_all :
      (files : List (String × ℕ)) (p : Process S) (t : S)
      → Stats files p.kernel t
      → print_types lstat_mode (paths files) p
        ≡ (done tt, record p { kernel = t; log = says (type_lines files) p.log })
  unfolding print_types
  print_types_all files p t h = rw (append-nil) at (print_types-append files [] p t h)
