-- ===== src/Stdio/Tmpnam.antt =====
-- standard_io_library/tmpnam.c: two names for temporary files, and a file with no name.
use apue_code.Base.{
  ℕ, String, [], ◌∷◌, Exec, Call, Option, none, some, text, must, sys, perror, exit, printf, ◌>>=◌,
  ◌>>◌,
}

-- tmpnam gives a name; fgets gives no text at the end of the file.
pub record Calls (S : Type 0) : Type 0 where
  pub tmpnam : S → String × S
  pub tmpfile : Call S ℕ
  pub fputs : String → ℕ → Call S (Unit {0})
  pub rewind : ℕ → Call S (Unit {0})
  pub fgets : ℕ → ℕ → S → Option String × S

abbrev pub maxline : ℕ
maxline = 512

module _ {S : Type 0} (c : Calls S) where
  abbrev pub print_name : Exec S (Unit {0})
  print_name p =
      let x = c.tmpnam p.kernel in printf (text x.0 ∷ text "\n" ∷ []) (record p { kernel = x.1 })

  abbrev pub print_line : Option String → Exec S (Unit {0})
  print_line none = do perror "fgets error"; exit 1
  print_line (some line) = printf (text line ∷ [])

  abbrev pub read_line : ℕ → Exec S (Unit {0})
  read_line fp p = let x = c.fgets maxline fp p.kernel in print_line x.0 (record p { kernel = x.1 })

  unfoldable pub main : Exec S (Unit {0})
  main = do
    print_name
    print_name
    fp ← must "tmpfile error" c.tmpfile
    sys (c.fputs "one line of output\n" fp)
    sys (c.rewind fp)
    read_line fp
