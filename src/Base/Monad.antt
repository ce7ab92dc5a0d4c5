-- ===== src/Base/Monad.antt =====
-- The monad of a running C program. A program sees the operating system only through calls that
-- return a value or -1 with `errno` set; it prints, and it returns or calls `exit`.
use Prim.Native.Nat.{ℕ}
use Prim.Native.String.{String}
use mathlib.Core.Path.{◌≡◌, refl, sym, ap, subst}
use mathlib.Core.Bool.{Bool, true, false}
use mathlib.Core.Option.{Option, none, some}
use mathlib.Core.List.{List, [], ◌∷◌}
use apue_code.Base.Int.{ℤ}
use apue_code.Base.Tests.{if◌then◌else◌}

-- The values of `errno` that some program tests by name, and all others.
pub data Errno : Type 0 where
  no_error eintr echild eidrm : Errno
  other : ℕ → Errno

-- A part of a formatted text: literal text, an integer that `%d`, `%lu` or `%lld` prints, or the text
-- that strerror gives for an error.
pub data Piece : Type 0 where
  text : String → Piece
  num : ℤ → Piece
  error_text : Errno → Piece

-- One call of printf, fprintf(stderr) or perror.
pub data Line : Type 0 where
  stdout : List Piece → Line
  stderr : List Piece → Line
  perror_line : String → Errno → Line

-- What a call into the operating system gives back.
pub data Result (A : Type 0) : Type 0 where
  ok : A → Result A
  fail : Errno → Result A

abbrev pub Call : Type 0 → Type 0 → Type 0
Call S A = S → Result A × S

-- The process: the operating system's state as far as it sees it, `errno`, and all it printed, the
-- newest line first.
pub record Process (S : Type 0) : Type 0 where
  pub kernel : S
  pub errno : Errno
  pub log : List Line

-- The log after some more lines, given in the order in which they are printed.
abbrev pub says : List Line → List Line → List Line
says [] log = log
says (line ∷ lines) log = says lines (line ∷ log)

-- `running` says that the fuel of a loop ran out while the program was still in it.
pub data Outcome (A : Type 0) : Type 0 where
  done : A → Outcome A
  exited : ℕ → Outcome A
  running : Outcome A

abbrev pub Exec : Type 0 → Type 0 → Type 0
Exec S A = Process S → Outcome A × Process S

abbrev pub exit_failure : ℕ
exit_failure = 1

module _ {S A : Type 0} where
  abbrev pub pure : A → Exec S A
  pure a p = (done a, p)

  abbrev pub exit : ℕ → Exec S A
  exit status p = (exited status, p)

  abbrev pub spin : Exec S A
  spin p = (running, p)

  -- The process after a call: `none` stands for the return value -1.
  abbrev pub sys_end : Process S → Result A × S → Outcome (Option A) × Process S
  sys_end p (r, s) = elim r [
    | ok a ↦ (done (some a), record p { kernel = s })
    | fail e ↦ (done none, record p { kernel = s; errno = e })
  ]

  abbrev pub sys : Call S A → Exec S (Option A)
  sys c p = sys_end p (c p.kernel)

-- The rest of a program behind a part of it.
abbrev pub go_on : {S A B : Type 0} → (A → Exec S B) → Outcome A × Process S → Outcome B × Process S
go_on f (r, p) = elim r [
  | done a ↦ f a p
  | exited status ↦ (exited status, p)
  | running ↦ (running, p)
]

infixl 5 ◌>>=◌ ◌>>◌
abbrev pub ◌>>=◌ : {S A B : Type 0} → Exec S A → (A → Exec S B) → Exec S B
◌>>=◌ m f p = go_on f (m p)

abbrev pub ◌>>◌ : {S A B : Type 0} → Exec S A → Exec S B → Exec S B
m >> k = m >>= λ _. k

module _ {S : Type 0} where
  abbrev pub emit : Line → Exec S (Unit {0})
  emit line p = (done tt, record p { log = line ∷ p.log })

  abbrev pub printf : List Piece → Exec S (Unit {0})
  printf ps = emit (stdout ps)

  abbrev pub fprintf_err : List Piece → Exec S (Unit {0})
  fprintf_err ps = emit (stderr ps)

  abbrev pub perror : String → Exec S (Unit {0})
  perror message p = emit (perror_line message p.errno) p

  abbrev pub set_errno : Errno → Exec S (Unit {0})
  set_errno e p = (done tt, record p { errno = e })

  abbrev pub get_errno : Exec S Errno
  get_errno p = (done p.errno, p)

  -- `if (c) { ... }` before the rest of the program.
  abbrev pub when : Bool → Exec S (Unit {0}) → Exec S (Unit {0})
  when b m = if b then m else pure tt

module _ {S A : Type 0} where
  -- perror(message); exit(EXIT_FAILURE);
  abbrev pub die : String → Exec S A
  die message = perror message >> exit exit_failure

  -- The process after such a call and its test.
  abbrev pub must_end : String → Process S → Result A × S → Outcome A × Process S
  must_end message p x = go_on (λ r. elim r [ none ↦ die message | some a ↦ pure a ]) (sys_end p x)

  -- if ((x = call(...)) < 0) { perror(message); exit(EXIT_FAILURE); }
  abbrev pub must : String → Call S A → Exec S A
  must message c p = must_end message p (c p.kernel)

-- To prove something of a program that begins with a call: prove it for each result of the call.
pub sys_rule {ℓ} :
    {S A B : Type 0} (P : Outcome B × Process S → Type ℓ) (c : Call S A) (f : Option A → Exec S B)
    (p : Process S)
    → ((a : A) (s : S) → c p.kernel ≡ (ok a, s) → P (f (some a) (record p { kernel = s })))
    → ((e : Errno) (s : S)
        → c p.kernel ≡ (fail e, s)
        → P (f none (record p { kernel = s; errno = e })))
    → P ((sys c >>= f) p)
sys_rule {S} {A} {B} P c f p good bad = go (c p.kernel) refl
  where
    go : (x : Result A × S) → c p.kernel ≡ x → P ((sys c >>= f) p)
    go (ok a, s) e = subst (λ x. P (go_on f (sys_end p x))) (sym e) (good a s e)
    go (fail n, s) e = subst (λ x. P (go_on f (sys_end p x))) (sym e) (bad n s e)

-- The same for a program that begins with a test.
pub if_rule {ℓ} :
    {S B : Type 0} (P : Outcome B × Process S → Type ℓ) (b : Bool) (m n : Exec S B) (p : Process S)
    → (b ≡ true → P (m p))
    → (b ≡ false → P (n p))
    → P ((if b then m else n) p)
if_rule P true m n p pos neg = pos refl
if_rule P false m n p pos neg = neg refl

-- The same for a call that the program cannot do without.
pub must_end_rule {ℓ} :
    {S A : Type 0} (P : Outcome A × Process S → Type ℓ) (message : String) (c : Call S A)
    (p : Process S)
    → ((a : A) (s : S) → c p.kernel ≡ (ok a, s) → P (done a, record p { kernel = s }))
    → ((e : Errno) (s : S)
        → c p.kernel ≡ (fail e, s)
        → P (
          exited exit_failure,
          record { kernel = s; errno = e; log = perror_line message e ∷ p.log },
        ))
    → P (must message c p)
must_end_rule {S} {A} P message c p good bad = go (c p.kernel) refl
  where
    after : Result A × S → Outcome A × Process S
    after x = must_end message p x

    go : (x : Result A × S) → c p.kernel ≡ x → P (must message c p)
    go (ok a, s) e = subst (λ x. P (after x)) (sym e) (good a s e)
    go (fail n, s) e = subst (λ x. P (after x)) (sym e) (bad n s e)

-- The same with the rest of the program behind it.
pub must_rule {ℓ} :
    {S A B : Type 0} (P : Outcome B × Process S → Type ℓ) (message : String) (c : Call S A)
    (f : A → Exec S B) (p : Process S)
    → ((a : A) (s : S) → c p.kernel ≡ (ok a, s) → P (f a (record p { kernel = s })))
    → ((e : Errno) (s : S)
        → c p.kernel ≡ (fail e, s)
        → P (
          exited exit_failure,
          record { kernel = s; errno = e; log = perror_line message e ∷ p.log },
        ))
    → P ((must message c >>= f) p)
must_rule P message c f p good bad = must_end_rule (λ x. P (go_on f x)) message c p good bad

-- Where the result of the call is known.
pub must_ok {ℓ} :
    {S A B : Type 0} (P : Outcome B × Process S → Type ℓ) (message : String) (c : Call S A)
    (f : A → Exec S B) (p : Process S) (a : A) (s : S)
    → c p.kernel ≡ (ok a, s)
    → P (f a (record p { kernel = s }))
    → P ((must message c >>= f) p)
must_ok P message c f p a s e h = subst (λ x. P (go_on f (must_end message p x))) (sym e) h

pub sys_ok {ℓ} :
    {S A B : Type 0} (P : Outcome B × Process S → Type ℓ) (c : Call S A) (f : Option A → Exec S B)
    (p : Process S) (a : A) (s : S)
    → c p.kernel ≡ (ok a, s)
    → P (f (some a) (record p { kernel = s }))
    → P ((sys c >>= f) p)
sys_ok P c f p a s e h = subst (λ x. P (go_on f (sys_end p x))) (sym e) h

-- A call whose result is not used.
pub sys_skip {ℓ} :
    {S A B : Type 0} (P : Outcome B × Process S → Type ℓ) (c : Call S A) (m : Exec S B)
    (p : Process S)
    → ((e : Errno) → P (m (record p { kernel = (c p.kernel).1; errno = e })))
    → P ((sys c >> m) p)
sys_skip {S} {A} {B} P c m p h = go (c p.kernel) h
  where
    go :
        (x : Result A × S)
        → ((e : Errno) → P (m (record p { kernel = x.1; errno = e })))
        → P (go_on (λ _. m) (sys_end p x))
    go (ok a, s) k = k p.errno
    go (fail n, s) k = k n

pub must_fail :
    {S A B : Type 0} (message : String) (c : Call S A) (f : A → Exec S B) (p : Process S)
    (n : Errno) (s : S)
    → c p.kernel ≡ (fail n, s)
    → (must message c >>= f) p
      ≡ (exited exit_failure, record { kernel = s; errno = n; log = perror_line message n ∷ p.log })
must_fail message c f p n s e = ap (λ x. go_on f (must_end message p x)) e

-- argv[0] as `%s` prints it; glibc prints a null pointer as "(null)".
abbrev pub program_name : List String → String
program_name [] = "(null)"
program_name (name ∷ args) = name
