-- ===== src/Files/Links/Laws.antt =====
-- Each of the five programs makes its one call and reports how that ended.
use apue_code.Base.{
  ◌≡◌, refl, String, Bool, List, [], ◌∷◌, ok, fail, done, exited, Process, Outcome, Result, Call,
  Exec, stdout, text, Line, perror_line, says, must, must_end, go_on, ◌>>◌,
}
use apue_code.Files.Links.{
  at_fdcwd, LinkCalls, linkat_mode, link_main, linkat_main, rename_main, renameat_main,
  symlink_main,
}

module _ {S : Type 0} where
  -- The whole run, by how the call ended.
  abbrev Follows :
      String
      → List Line
      → Result (Unit {0}) × S
      → Process S
      → Outcome (Unit {0}) × Process S
      → Type 0
  Follows message lines (ok _, s) p x =
      x ≡ (done tt, record p { kernel = s; log = says lines p.log })
  Follows message lines (fail e, s) p x =
      x ≡ (exited 1, record { kernel = s; errno = e; log = perror_line message e ∷ p.log })

  -- A call and the prints behind it.
  must-Follows :
      (message : String) (lines : List Line) (c : Call S (Unit {0})) (rest : Exec S (Unit {0}))
      (p : Process S)
      → ((q : Process S) → rest q ≡ (done tt, record q { log = says lines q.log }))
      → Follows message lines (c p.kernel) p ((must message c >> rest) p)
  must-Follows message lines c rest p prints = go (c p.kernel)
    where
      go :
          (x : Result (Unit {0}) × S)
          → Follows message lines x p (go_on (λ _. rest) (must_end message p x))
      go (ok u, s) = prints (record p { kernel = s })
      go (fail e, s) = refl

  must_end-Follows :
      (message : String) (p : Process S) (x : Result (Unit {0}) × S)
      → Follows message [] x p (must_end message p x)
  must_end-Follows message p (ok u, s) = refl
  must_end-Follows message p (fail e, s) = refl

-- The two lines of a success.
abbrev pair_lines : String → String → String → String → List Line
pair_lines success from arrow to =
    stdout (text success ∷ []) ∷ stdout (text from ∷ text arrow ∷ text to ∷ text "\n" ∷ []) ∷ []

-- With two arguments each program makes one call, with these two paths. If the call succeeds the
-- program prints its two lines (symlink prints none) and returns 0. If not it prints the error and
-- exits with status 1.
mains-Follows :
    {S : Type 0} (c : LinkCalls S) (follow : Bool) (name from to : String) (p : Process S)
    → let argv : List String = name ∷ from ∷ to ∷ [] in
      let s = p.kernel in
      Follows "link error"
        (pair_lines "link success\n" from " - " to)
        (c.link from to s)
        p
        (link_main c argv p)
      × Follows "linkat error"
          (pair_lines "linkat success\n" from " - " to)
          (c.linkat at_fdcwd from at_fdcwd to (linkat_mode follow) s)
          p
          (linkat_main c follow argv p)
      × Follows "rename error"
          (pair_lines "rename success\n" from " -> " to)
          (c.rename from to s)
          p
          (rename_main c argv p)
      × Follows "renameat error"
          (pair_lines "renameat success\n" from " -> " to)
          (c.renameat at_fdcwd from at_fdcwd to s)
          p
          (renameat_main c argv p)
      × Follows "symlink error" [] (c.symlink from to s) p (symlink_main c argv p)
unfolding link_main linkat_main rename_main renameat_main symlink_main
mains-Follows c follow name from to p = (
  must-Follows "link error" (pair_lines "link success\n" from " - " to) (c.link from to) _ p
      (λ q. refl),
  must-Follows "linkat error" (pair_lines "linkat success\n" from " - " to)
      (c.linkat at_fdcwd from at_fdcwd to (linkat_mode follow)) _ p (λ q. refl),
  must-Follows "rename error" (pair_lines "rename success\n" from " -> " to) (c.rename from to) _ p
      (λ q. refl),
  must-Follows "renameat error" (pair_lines "renameat success\n" from " -> " to)
      (c.renameat at_fdcwd from at_fdcwd to) _ p (λ q. refl),
  must_end-Follows "symlink error" p (c.symlink from to p.kernel),
)
