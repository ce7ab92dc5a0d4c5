-- ===== src/Signals/Mask/Laws.antt =====
-- pr_mask lists the blocked signals, each name once, in the order of the table.
use Prim.Native.String.{◌++◌ as ◌<>◌}
use apue_code.Base.{
  ℕ, among, String, Bool, true, false, ◌&&◌, ◌≡◌, refl, ◌∙◌, List, [], ◌∷◌, done, ok, Process, Line,
  stdout, text, says, ap, go_on, sys_ok, printf, if◌then◌else◌, Call, arith,
}
use apue_code.Signals.Mask.{
  Entry, always, ifdef, Headers, entries, SigSet, print_entry, print_entries, show_mask, pr_mask,
}

-- Whether a test is compiled in, and finds its signal blocked.
abbrev pub blocked : Headers → SigSet → Entry → Bool
blocked h mask (always name) = mask (h.signo name)
blocked h mask (ifdef name) = h.defined name && mask (h.signo name)

abbrev pub name_of : Entry → String
name_of (always name) = name
name_of (ifdef name) = name

-- The names of the blocked signals, each once, in the order of the table.
abbrev pub blocked_lines : Headers → SigSet → List Entry → List Line
blocked_lines h mask [] = []
blocked_lines h mask (e ∷ es) =
    let rest = blocked_lines h mask es in
    if blocked h mask e then stdout (text (" " <> name_of e) ∷ []) ∷ rest else rest

says_if :
    (b : Bool) (line : Line) (lines log : List Line)
    → says lines (if b then line ∷ log else log) ≡ says (if b then line ∷ lines else lines) log
says_if true line lines log = refl
says_if false line lines log = refl

-- The names that the program tests, where some headers define them.
abbrev visible : Headers → List Entry → List String
visible h [] = []
visible h (always name ∷ es) = name ∷ visible h es
visible h (ifdef name ∷ es) =
    let rest = visible h es in if h.defined name then name ∷ rest else rest

-- A line for each of some names, if the signal of this name is blocked.
abbrev pub name_lines : (String → ℕ) → SigSet → List String → List Line
name_lines signo mask [] = []
name_lines signo mask (name ∷ names) =
    let rest = name_lines signo mask names in
    if mask (signo name) then stdout (text (" " <> name) ∷ []) ∷ rest else rest

blocked_lines-names :
    (h : Headers) (mask : SigSet) (es : List Entry)
    → blocked_lines h mask es ≡ name_lines h.signo mask (visible h es)
blocked_lines-names h mask [] = refl
blocked_lines-names h mask (always name ∷ es) =
    ap (λ rest. if mask (h.signo name) then stdout (text (" " <> name) ∷ []) ∷ rest else rest)
      (blocked_lines-names h mask es)
blocked_lines-names h mask (ifdef name ∷ es) =
    under (h.defined name) (blocked_lines h mask es) (visible h es) (blocked_lines-names h mask es)
  where
    under :
        (d : Bool) (lines : List Line) (names : List String)
        → lines ≡ name_lines h.signo mask names
        → (if d && mask (h.signo name) then stdout (text (" " <> name) ∷ []) ∷ lines else lines)
          ≡ name_lines h.signo mask (if d then name ∷ names else names)
    under true lines names e =
        ap (λ rest. if mask (h.signo name) then stdout (text (" " <> name) ∷ []) ∷ rest else rest) e
    under false lines names e = e

-- The standard signals of Linux by their names of signal(7), two of which have a second name.
abbrev pub linux_signals : List String
linux_signals =
    "SIGABRT" ∷ "SIGALRM" ∷ "SIGBUS" ∷ "SIGCHLD" ∷ "SIGCONT" ∷ "SIGFPE" ∷ "SIGHUP" ∷ "SIGILL"
    ∷ "SIGINT" ∷ "SIGIO" ∷ "SIGIOT" ∷ "SIGKILL" ∷ "SIGPIPE" ∷ "SIGPOLL" ∷ "SIGPROF" ∷ "SIGPWR"
    ∷ "SIGQUIT" ∷ "SIGSEGV" ∷ "SIGSTKFLT" ∷ "SIGSTOP" ∷ "SIGSYS" ∷ "SIGTERM" ∷ "SIGTRAP" ∷ "SIGTSTP"
    ∷ "SIGTTIN" ∷ "SIGTTOU" ∷ "SIGURG" ∷ "SIGUSR1" ∷ "SIGUSR2" ∷ "SIGVTALRM" ∷ "SIGWINCH"
    ∷ "SIGXCPU" ∷ "SIGXFSZ" ∷ []

-- Headers that define these, with any numbers.
abbrev pub linux : (String → ℕ) → Headers
linux signo = record { defined = λ name. among name linux_signals; signo = signo }

visible-linux : (signo : String → ℕ) → visible (linux signo) entries ≡ linux_signals
visible-linux signo = refl

module _ {S : Type 0} (h : Headers) where
  print_entry-blocked :
      (mask : SigSet) (e : Entry) (p : Process S)
      → print_entry h mask e p ≡ (
        done tt,
        record p {
          log = if blocked h mask e then stdout (text (" " <> name_of e) ∷ []) ∷ p.log else p.log;
        },
      )
  print_entry-blocked mask (always name) p = ground arith
  print_entry-blocked mask (ifdef name) p = ground arith

  print_entries-blocked :
      (mask : SigSet) (es : List Entry) (p : Process S)
      → print_entries h mask es p
        ≡ (done tt, record p { log = says (blocked_lines h mask es) p.log })
  unfolding print_entries
  print_entries-blocked mask [] p = refl
  print_entries-blocked mask (e ∷ es) p =
      ap (go_on (λ _. print_entries h mask es)) (print_entry-blocked mask e p)
      ∙ print_entries-blocked mask es _
      ∙ ap (λ log. (done tt, record p { log = log }))
          (says_if (blocked h mask e) (stdout (text (" " <> name_of e) ∷ []))
            (blocked_lines h mask es) p.log)

  -- Where sigprocmask gives the mask, pr_mask prints its argument with a colon, then the name of each
  -- blocked signal that the headers define, in the order of the table, and then a newline. Nothing
  -- but the output and the operating system's state changes.
  pr_mask_shows :
      (get_mask : Call S SigSet) (str : String) (p : Process S) (mask : SigSet) (s : S)
      → get_mask p.kernel ≡ (ok mask, s)
      → pr_mask h get_mask str p ≡ (
        done tt,
        record p {
          kernel = s;
          log =
              stdout (text "\n" ∷ [])
              ∷ says (blocked_lines h mask entries) (stdout (text str ∷ text ":\n" ∷ []) ∷ p.log);
        },
      )
  unfolding pr_mask show_mask
  pr_mask_shows get_mask str p mask s got =
      sys_ok
        (λ x. x ≡ (
          done tt,
          record p {
            kernel = s;
            log =
                stdout (text "\n" ∷ [])
                ∷ says (blocked_lines h mask entries) (stdout (text str ∷ text ":\n" ∷ []) ∷ p.log);
          },
        ))
        get_mask (show_mask h str) p mask s got
        (ap (go_on (λ _. printf (text "\n" ∷ []))) (
          print_entries-blocked mask entries
            (record p { kernel = s; log = stdout (text str ∷ text ":\n" ∷ []) ∷ p.log })))

-- With the headers of Linux, and where sigprocmask gives the mask, pr_mask prints its argument with a
-- colon, then the name of each blocked signal among the standard signals of Linux, in alphabetical order
-- and each name once, and then a newline. Other signals, such as the real-time signals, are not shown.
-- Nothing but the output and the operating system's state changes.
pub pr_mask-linux :
    {S : Type 0} (signo : String → ℕ) (get_mask : Call S SigSet) (str : String) (p : Process S)
    (mask : SigSet) (s : S)
    → get_mask p.kernel ≡ (ok mask, s)
    → pr_mask (linux signo) get_mask str p ≡ (
      done tt,
      record p {
        kernel = s;
        log =
            stdout (text "\n" ∷ [])
            ∷ says
                (name_lines signo mask linux_signals)
                (stdout (text str ∷ text ":\n" ∷ []) ∷ p.log);
      },
    )
pr_mask-linux signo get_mask str p mask s got =
    pr_mask_shows (linux signo) get_mask str p mask s got
    ∙ ap
        (λ lines. (
          done tt,
          record p {
            kernel = s;
            log =
                stdout (text "\n" ∷ []) ∷ says lines (stdout (text str ∷ text ":\n" ∷ []) ∷ p.log);
          },
        ))
        (blocked_lines-names (linux signo) mask entries
          ∙ ap (name_lines signo mask) (visible-linux signo))
