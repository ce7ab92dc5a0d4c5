-- ===== src/Files/Access/Laws.antt =====
-- access.c and chmod.c: when they succeed, and what they have then asked of the system.
use Prim.Native.String.{◌++◌ as ◌<>◌}
use apue_code.Base.{
  ℕ, ◌≡◌, refl, ◌⊎◌, String, List, [], ◌∷◌, arith, ok, done, Process, Call, stdout, text, Option,
  none, some, codes, Piece, ap, go_on, must_end, must, printf, bit_or, ◌>>◌,
}
use apue_code.Mode.{s_ifreg}
use apue_code.Files.Stat.{type_char, exec_char, other_exec_char}
use apue_code.Files.Stat.Laws.{mode_places}
use apue_code.Files.Access.{letter_mode, accmode, check, access_main, chmod_main}

-- The letters that are accepted, with R_OK, W_OK and X_OK.
abbrev pub Asks : List ℕ → ℕ → Type 0
Asks cs m =
    ((cs ≡ b'r' ∷ []) × (m ≡ 4)) ⊎ ((cs ≡ b'w' ∷ []) × (m ≡ 2)) ⊎ ((cs ≡ b'x' ∷ []) × (m ≡ 1))

letter_mode-Asks : (cs : List ℕ) (m : ℕ) → letter_mode cs ≡ some m → Asks cs m
unfolding letter_mode
letter_mode-Asks [] m h = cc
letter_mode-Asks (c ∷ []) m h = ground arith
letter_mode-Asks (c ∷ d ∷ cs) m h = cc

-- The nine places behind the type, joined.
abbrev join : List String → String
join [] = ""
join (s ∷ ss) = s <> join ss

abbrev pub permissions : List String → String
permissions [] = ""
permissions (first ∷ places) = join places

module _ {S : Type 0} where
  must_print_done :
      (message : String) (c : Call S (Unit {0})) (l : List Piece) (p q : Process S)
      → (must message c >> printf l) p ≡ (done tt, q)
      → c p.kernel ≡ (ok tt, q.kernel)
  must_print_done message c l p q h = ground arith

  check_success :
      (access : String → ℕ → Call S (Unit {0})) (argv : List String) (path : String) (o : Option ℕ)
      (p q : Process S)
      → check access argv path o p ≡ (done tt, q)
      → (m : ℕ) × (o ≡ some m) × (access path m p.kernel ≡ (ok tt, q.kernel))
  check_success access argv path none p q h = cc
  check_success access argv path (some m) p q h =
      (m, refl, must_print_done "access error" (access path m) _ p q h)

  -- A run of `access` that returns 0 had two arguments, the second of them one of the three letters;
  -- and the call with the path and that letter's mode has succeeded.
  access_main_success :
      (access : String → ℕ → Call S (Unit {0})) (argv : List String) (p q : Process S)
      → access_main access argv p ≡ (done tt, q)
      → (name : String) × (path : String) × (letter : String) × (m : ℕ) × (argv
          ≡ name ∷ path ∷ letter ∷ [])
        × Asks (codes letter) m
        × (access path m p.kernel ≡ (ok tt, q.kernel))
  unfolding access_main
  access_main_success access [] p q h = cc
  access_main_success access (a ∷ []) p q h = cc
  access_main_success access (a ∷ b ∷ []) p q h = cc
  access_main_success access (a ∷ b ∷ c ∷ []) p q h =
      let (m, asked, granted) =
        check_success access (a ∷ b ∷ c ∷ []) b (letter_mode (codes c)) p q h in
      (a, b, c, m, refl, letter_mode-Asks (codes c) m asked, granted)
  access_main_success access (a ∷ b ∷ c ∷ d ∷ argv) p q h = cc

  -- If chmod succeeds it was asked for the mode 0744, and the text that the program prints for the
  -- new mode is the one that file_stat.c prints for the permissions of such a regular file.
  pub chmod_main_ok :
      (chmod : String → ℕ → Call S (Unit {0})) (name path : String) (p : Process S) (s : S)
      → chmod path 0o744 p.kernel ≡ (ok tt, s)
      → chmod_main chmod (name ∷ path ∷ []) p ≡ (
        done tt,
        record p {
          kernel = s;
          log =
              stdout (
                text (
                  "new access mode: " <> permissions (mode_places (bit_or s_ifreg accmode)) <> "\n")
                ∷ [])
              ∷ stdout (text "chmod success\n" ∷ [])
              ∷ p.log;
        },
      )
  unfolding chmod_main mode_places type_char exec_char other_exec_char
  chmod_main_ok chmod name path p s h =
      ap
        (λ x.
          go_on
            (λ _.
              printf (text "chmod success\n" ∷ [])
              >> printf (text "new access mode: rwxr--r--\n" ∷ []))
            (must_end "chmod error" p x))
        h
