-- ===== src/Environment/Rlimit/Laws.antt =====
-- rlimit.c prints a line for each resource, up to the first for which getrlimit fails.
use mathlib.Core.Path.{fun_ext}
use apue_code.Base.{
  ℤ, negsuc, ltb, ◌^◌, ◌-◌, pos, among, ℕ, ◌≡◌, ◌∙◌, refl, ap, sym, String, Bool, true, false, List,
  [], ◌∷◌, ◌++◌, append-nil, Exec, Call, ok, fail, Errno, text, num, error_text, sys_end, go_on,
  done, exited, Process, Line, stdout, stderr, printf, when, ◌==◌, if◌then◌else◌, ◌>>=◌,
}
use apue_code.Environment.Rlimit.{
  Entry, always, ifdef, Headers, Limit, entries, rlim_infinity, lld, print_limit, print_limits, got,
  pr_limits, doit_all, main,
}

-- The tests that are compiled in.
abbrev pub selected : Headers → List Entry → List String
selected h [] = []
selected h (always name ∷ es) = name ∷ selected h es
selected h (ifdef name ∷ es) =
    let rest = selected h es in if h.defined name then name ∷ rest else rest

-- The number that %lld shows of 64 bits.
abbrev pub as_signed : ℕ → ℤ
as_signed lim = if ltb lim (2 ^ 63) then pos lim else negsuc (2 ^ 64 - 1 - lim)

-- All 64 bits set stand for no limit.
abbrev pub limit_line : String → ℕ → Line
limit_line after lim =
    if lim == 2 ^ 64 - 1
    then stdout (text "(infinite)" ∷ text after ∷ [])
    else stdout (num (as_signed lim) ∷ text after ∷ [])

-- What is printed for a resource.
abbrev pub limit_lines : String → Limit → List Line → List Line
limit_lines name limit log =
    stdout (text "\n" ∷ [])
    ∷ limit_line "" limit.rlim_max
    ∷ limit_line " " limit.rlim_cur
    ∷ stdout (text name ∷ text " " ∷ [])
    ∷ log

abbrev pub names : List (String × Limit) → List String
names [] = []
names ((name, limit) ∷ rest) = name ∷ names rest

abbrev pub all_lines : List (String × Limit) → List Line → List Line
all_lines [] log = log
all_lines ((name, limit) ∷ rest) log = all_lines rest (limit_lines name limit log)

module _ {S : Type 0} where
  print_limit_line :
      (after : String) (lim : ℕ) (f : Unit {0} → Exec S (Unit {0})) (p : Process S)
      → (print_limit after lim >>= f) p ≡ f tt (record p { log = limit_line after lim ∷ p.log })
  unfolding lld
  print_limit_line after lim f p = go (lim == rlim_infinity)
    where
      go :
          (b : Bool)
          → ((if b
                  then printf (text "(infinite)" ∷ text after ∷ [])
                  else printf (num (lld lim) ∷ text after ∷ []))
                >>= f)
              p
            ≡ f tt (record p {
              log =
                  (if b
                    then stdout (text "(infinite)" ∷ text after ∷ [])
                    else stdout (num (as_signed lim) ∷ text after ∷ []))
                  ∷ p.log;
            })
      go true = refl
      go false = refl

  print_limits_lines :
      (name : String) (limit : Limit) (p : Process S)
      → print_limits name limit p ≡ (done tt, record p { log = limit_lines name limit p.log })
  print_limits_lines name limit p = rw (print_limit_line, print_limit_line)

module _ {S : Type 0} (h : Headers) (getrlimit : ℕ → Call S Limit) where
  -- getrlimit gives these limits in turn, from `s` to `t`.
  abbrev pub Limits : List (String × Limit) → S → S → Type 0
  Limits [] s t = s ≡ t
  Limits ((name, limit) ∷ rest) s t =
      (u : S) × (getrlimit (h.resource name) s ≡ (ok limit, u)) × Limits rest u t

  -- The loop over names instead of entries.
  abbrev each : List String → Exec S (Unit {0})
  each [] p = (done tt, p)
  each (name ∷ rest) p = go_on (λ _. each rest) (pr_limits h getrlimit name p)

  pr_limits_ok :
      (name : String) (limit : Limit) (p : Process S) (u : S)
      → getrlimit (h.resource name) p.kernel ≡ (ok limit, u)
      → pr_limits h getrlimit name p
        ≡ (done tt, record p { kernel = u; log = limit_lines name limit p.log })
  unfolding pr_limits
  pr_limits_ok name limit p u e =
      ap (λ x. go_on (got name) (sys_end p x)) e
      ∙ print_limits_lines name limit (record p { kernel = u })

  pr_limits_fail :
      (name : String) (p : Process S) (n : Errno) (u : S)
      → getrlimit (h.resource name) p.kernel ≡ (fail n, u)
      → pr_limits h getrlimit name p ≡ go_on (got name) (sys_end p (fail n, u))
  unfolding pr_limits
  pr_limits_fail name p n u e = ap (λ x. go_on (got name) (sys_end p x)) e

  when-each :
      (b : Bool) (name : String) (rest : List String) (p : Process S)
      → go_on (λ _. each rest) (when b (pr_limits h getrlimit name) p)
        ≡ each (if b then name ∷ rest else rest) p
  when-each true name rest p = refl
  when-each false name rest p = refl

  doit_all-each :
      (es : List Entry) (p : Process S) → doit_all h getrlimit es p ≡ each (selected h es) p
  unfolding doit_all
  doit_all-each [] p = refl
  doit_all-each (always name ∷ es) p =
      ap (λ k. go_on (λ _. k) (pr_limits h getrlimit name p)) (fun_ext (doit_all-each es))
  doit_all-each (ifdef name ∷ es) p =
      ap (λ k. go_on (λ _. k) (when (h.defined name) (pr_limits h getrlimit name) p))
        (fun_ext (doit_all-each es))
      ∙ when-each (h.defined name) name (selected h es) p

  -- The names that succeed, and what follows them.
  each-append :
      (ls : List (String × Limit)) (rest : List String) (p : Process S) (t : S)
      → Limits ls p.kernel t
      → each (names ls ++ rest) p ≡ each rest (record p { kernel = t; log = all_lines ls p.log })
  each-append [] rest p t same = ap (λ s. each rest (record p { kernel = s })) same
  each-append ((name, limit) ∷ ls) rest p t (u, e, more) =
      ap (go_on (λ _. each (names ls ++ rest))) (pr_limits_ok name limit p u e)
      ∙ each-append ls rest (record p { kernel = u; log = limit_lines name limit p.log }) t more

  -- If getrlimit answers for every resource that is compiled in, the program returns 0 and prints for
  -- each of them, in the order of the table, its name, its soft and its hard limit.
  main-Limits :
      (ls : List (String × Limit)) (p : Process S) (t : S)
      → selected h entries ≡ names ls
      → Limits ls p.kernel t
      → main h getrlimit p ≡ (done tt, record p { kernel = t; log = all_lines ls p.log })
  main-Limits ls p t all answers =
      doit_all-each entries p
      ∙ ap (λ l. each l p) (all ∙ sym (append-nil (names ls)))
      ∙ each-append ls [] p t answers

  -- If getrlimit answers for some first resources and fails for the next one, the program prints the
  -- limits of the first ones, reports the error of that one and exits with status 1.
  main_stops :
      (ls : List (String × Limit)) (name : String) (rest : List String) (p : Process S) (t u : S)
      (n : Errno)
      → selected h entries ≡ names ls ++ (name ∷ rest)
      → Limits ls p.kernel t
      → getrlimit (h.resource name) t ≡ (fail n, u)
      → main h getrlimit p ≡ (
        exited 1,
        record {
          kernel = u;
          errno = n;
          log =
              stderr (
                text "getrlimit error for " ∷ text name ∷ text ": " ∷ error_text n ∷ text "\n" ∷ [])
              ∷ all_lines ls p.log;
        },
      )
  main_stops ls name rest p t u n all answers fails =
      doit_all-each entries p
      ∙ ap (λ l. each l p) all
      ∙ each-append ls (name ∷ rest) p t answers
      ∙ ap (λ x. go_on (λ _. each rest) x) (pr_limits_fail name _ n u fails)

-- The resources of Linux by their names of getrlimit(2), but for RLIMIT_LOCKS, RLIMIT_RTPRIO and
-- RLIMIT_RTTIME, which are not in the program.
abbrev pub linux_resources : List String
linux_resources =
    "RLIMIT_AS" ∷ "RLIMIT_CORE" ∷ "RLIMIT_CPU" ∷ "RLIMIT_DATA" ∷ "RLIMIT_FSIZE" ∷ "RLIMIT_MEMLOCK"
    ∷ "RLIMIT_MSGQUEUE" ∷ "RLIMIT_NICE" ∷ "RLIMIT_NOFILE" ∷ "RLIMIT_NPROC" ∷ "RLIMIT_RSS"
    ∷ "RLIMIT_SIGPENDING" ∷ "RLIMIT_STACK" ∷ []

abbrev more_resources : List String
more_resources = "RLIMIT_LOCKS" ∷ "RLIMIT_RTPRIO" ∷ "RLIMIT_RTTIME" ∷ linux_resources

-- Headers that define all of them, with any numbers.
abbrev pub linux : (String → ℕ) → Headers
linux resource = record { defined = λ name. among name more_resources; resource = resource }

selected-linux : (resource : String → ℕ) → selected (linux resource) entries ≡ linux_resources
selected-linux resource = refl

-- With the headers of Linux, if getrlimit answers for each of its resources but RLIMIT_LOCKS,
-- RLIMIT_RTPRIO and RLIMIT_RTTIME, the program returns 0 and prints for each of these, in alphabetical
-- order, the name, the soft and the hard limit.
pub main-linux :
    {S : Type 0} (resource : String → ℕ) (getrlimit : ℕ → Call S Limit) (ls : List (String × Limit))
    (p : Process S) (t : S)
    → names ls ≡ linux_resources
    → Limits (linux resource) getrlimit ls p.kernel t
    → main (linux resource) getrlimit p
      ≡ (done tt, record p { kernel = t; log = all_lines ls p.log })
main-linux resource getrlimit ls p t all answers =
    main-Limits (linux resource) getrlimit ls p t (selected-linux resource ∙ sym all) answers
