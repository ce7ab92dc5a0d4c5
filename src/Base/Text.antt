-- ===== src/Base/Text.antt =====
-- What the programs use of <stdlib.h> and <string.h> on their arguments.
use Prim.Native.Nat.{ℕ, zero, suc, ◌+◌, ◌-◌, ◌*◌}
use Prim.Native.Char.{code}
use Prim.Native.String.{String}
use package.text.Mathlib.Text.{◌==◌ as str_eq}
use mathlib.Core.Bool.{Bool, false, ◌&&◌, ◌||◌}
use mathlib.Core.List.{List, [], ◌∷◌}
use apue_code.Base.Int.{ℤ, pos, negsuc}
use apue_code.Base.Tests.{leb, ◌==◌, if◌then◌else◌}

-- The code points of a text: its bytes, if it is ASCII.
abbrev pub codes : String → List ℕ
codes String.[] = []
codes (String.◌∷◌ c s) = code c ∷ codes s

-- Whether a text is one of some texts.
abbrev pub among : String → List String → Bool
among s [] = false
among s (t ∷ ts) = str_eq s t || among s ts

abbrev digits_from : ℕ → List ℕ → ℕ
digits_from acc [] = acc
digits_from acc (c ∷ cs) =
    let rest = digits_from (acc * 10 + (c - b'0')) cs in
    if leb b'0' c && leb c b'9' then rest else acc

abbrev negative : ℕ → ℤ
negative zero = pos 0
negative (suc n) = negsuc n

abbrev signed_digits : List ℕ → ℤ
signed_digits [] = pos 0
signed_digits (c ∷ cs) =
    if c == b'-'
    then negative (digits_from 0 cs)
    else if c == b'+'
    then pos (digits_from 0 cs)
    else pos (digits_from 0 (c ∷ cs))

-- White space, an optional sign and the leading digits. A value beyond `int` is left as it is.
abbrev pub atoi_codes : List ℕ → ℤ
atoi_codes [] = pos 0
atoi_codes (c ∷ cs) =
    let rest = atoi_codes cs in
    if c == b' ' || (leb 9 c && leb c 13) then rest else signed_digits (c ∷ cs)

unfoldable pub atoi : String → ℤ
atoi s = atoi_codes (codes s)
