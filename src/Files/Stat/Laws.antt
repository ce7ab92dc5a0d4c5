-- ===== src/Files/Stat/Laws.antt =====
-- file_stat.c: the ten places of the mode can be read back, but for the execute bit of the others.
use package.text.Mathlib.Text.{◌==◌ as str_eq}
use package.text.Mathlib.TextEquality.{eq_iff}
use apue_code.Base.{
  ℕ, arith, ◌↔◌, ◌≡◌, ◌≢◌, refl, String, Bool, true, false, not, ◌||◌, List, [], ◌∷◌, stdout, text,
  Line, if◌then◌else◌, ◌&&◌, ◌==◌,
}
use apue_code.Mode.{
  has, s_ifreg, s_iflnk, s_ifdir, s_ifchr, s_ifblk, s_ififo, s_ifsock, s_isuid, s_isgid, s_isvtx,
  s_irusr, s_iwusr, s_ixusr, s_irgrp, s_iwgrp, s_ixgrp, s_iroth, s_iwoth, s_ixoth,
}
use apue_code.Files.Stat.{type_char, flag_char, exec_char, other_exec_char}

-- The ten places, in the order of printing.
unfoldable pub mode_places : ℕ → List String
mode_places mode =
    type_char mode
    ∷ flag_char mode s_irusr "r"
    ∷ flag_char mode s_iwusr "w"
    ∷ exec_char mode s_ixusr s_isuid
    ∷ flag_char mode s_irgrp "r"
    ∷ flag_char mode s_iwgrp "w"
    ∷ exec_char mode s_ixgrp s_isgid
    ∷ flag_char mode s_iroth "r"
    ∷ flag_char mode s_iwoth "w"
    ∷ other_exec_char mode
    ∷ []

abbrev pub line_of : String → Line
line_of s = stdout (text s ∷ [])

-- What a reader takes from an execute place: may it be executed, and is the set-id bit on?
abbrev pub shows_exec : String → Bool
shows_exec s = str_eq s "x" || str_eq s "s"

abbrev pub shows_set_id : String → Bool
shows_set_id s = str_eq s "S" || str_eq s "s"

abbrev pub shows : String → Bool
shows s = not (str_eq s "-")

-- The type that a letter stands for: as in ls -l, but that it has p for a fifo.
abbrev pub type_of : String → ℕ
type_of s =
    if str_eq s "-"
    then s_ifreg
    else if str_eq s "l"
    then s_iflnk
    else if str_eq s "d"
    then s_ifdir
    else if str_eq s "c"
    then s_ifchr
    else if str_eq s "b"
    then s_ifblk
    else if str_eq s "f"
    then s_ififo
    else if str_eq s "s"
    then s_ifsock
    else 0

-- A letter of a known type is read as that type.
abbrev IsRead : ℕ → String → Type 0
IsRead n s = s ≢ " " → type_of s ≡ n

-- The bits that the ten places tell, in the order of the places; both bits of an execute place.
abbrev pub read_places : List String → List Bool
read_places (t ∷ ur ∷ uw ∷ ux ∷ gr ∷ gw ∷ gx ∷ or ∷ ow ∷ ox ∷ []) =
    shows ur
    ∷ shows uw
    ∷ shows_exec ux
    ∷ shows_set_id ux
    ∷ shows gr
    ∷ shows gw
    ∷ shows_exec gx
    ∷ shows_set_id gx
    ∷ shows or
    ∷ shows ow
    ∷ []
read_places places = []

abbrev pub held_bits : ℕ → List Bool
held_bits mode =
    has mode s_irusr
    ∷ has mode s_iwusr
    ∷ has mode s_ixusr
    ∷ has mode s_isuid
    ∷ has mode s_irgrp
    ∷ has mode s_iwgrp
    ∷ has mode s_ixgrp
    ∷ has mode s_isgid
    ∷ has mode s_iroth
    ∷ has mode s_iwoth
    ∷ []

-- The last place as ls -l shows it.
abbrev pub ls_other_char : ℕ → String
ls_other_char mode =
    if has mode s_ixoth
    then (if has mode s_isvtx then "t" else "x")
    else (if has mode s_isvtx then "T" else "-")

dash_x : ◌≢◌ {A = String} "-" "x"
dash_x = ground (arith, eq_iff "-" "x")

dash_t : ◌≢◌ {A = String} "-" "T"
dash_t = ground (arith, eq_iff "-" "T")

same_char :
    (a b : Bool)
    → ◌≡◌ {A = String}
        (if a && b then (if a && b then "t" else if a then "x" else "T") else "-")
        (if a then (if b then "t" else "x") else (if b then "T" else "-"))
      ↔ a ≡ b
same_char true true = (λ e. refl, λ e. refl)
same_char false false = (λ e. refl, λ e. refl)
same_char true false = (λ e. absurd (dash_x e), λ e. cc)
same_char false true = (λ e. absurd (dash_t e), λ e. cc)

-- The program shows the execute place of the others as ls -l does exactly if their execute bit and
-- the sticky bit are both set or both clear: an execute bit without the sticky bit, and a sticky bit
-- without the execute bit, are not shown.
pub other_exec_char-ls :
    (mode : ℕ) → other_exec_char mode ≡ ls_other_char mode ↔ has mode s_ixoth ≡ has mode s_isvtx
unfolding other_exec_char
other_exec_char-ls mode = same_char (has mode s_ixoth) (has mode s_isvtx)
