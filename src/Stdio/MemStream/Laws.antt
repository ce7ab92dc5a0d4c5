-- ===== src/Stdio/MemStream/Laws.antt =====
-- mem_stream.c: what the buffer shows.
use apue_code.Base.{
  ℕ, zero, suc, ◌≤◌, ◌<◌, ◌==◌, ◌≡◌, ◌≢◌, refl, ap, if◌then◌else◌, List, [], ◌∷◌, length, arith,
}
use apue_code.Stdio.MemStream.{memset, store, refill, c_string, strlen, show_mem}

length-memset : (byte n : ℕ) (buf : List ℕ) → length (memset byte n buf) ≡ length buf
unfolding memset
length-memset byte zero buf = refl
length-memset byte (suc n) [] = refl
length-memset byte (suc n) (b ∷ buf) = ap suc (length-memset byte n buf)

length-store : (i byte : ℕ) (buf : List ℕ) → length (store i byte buf) ≡ length buf
unfolding store
length-store i byte [] = refl
length-store zero byte (b ∷ buf) = refl
length-store (suc i) byte (b ∷ buf) = ap suc (length-store i byte buf)

-- A text in front of a 0 is what is printed, whatever stands behind.
c_string-store :
    (n byte : ℕ) (buf : List ℕ)
    → byte ≢ 0
    → n < length buf
    → length (c_string (store n 0 (memset byte n buf))) ≡ n
unfolding store memset c_string
c_string-store n byte [] h lt = absurd (omega arith)
c_string-store zero byte (b ∷ buf) h lt = refl
c_string-store (suc n) byte (b ∷ buf) h lt =
    ground (arith, c_string-store n byte buf h (omega arith))

-- A byte behind the first 0 does not matter.
c_string-behind :
    (i j byte : ℕ) (buf : List ℕ)
    → i < j
    → c_string (store j byte (store i 0 buf)) ≡ c_string (store i 0 buf)
unfolding store c_string
c_string-behind i j byte [] lt = refl
c_string-behind zero zero byte (b ∷ buf) lt = absurd (omega arith)
c_string-behind (suc i) zero byte (b ∷ buf) lt = absurd (omega arith)
c_string-behind zero (suc j) byte (b ∷ buf) lt = refl
c_string-behind (suc i) (suc j) byte (b ∷ buf) lt =
    ap (λ s. if b == 0 then [] else b ∷ s) (c_string-behind i j byte buf (omega arith))

-- Filling the buffer with a byte other than 0 keeps its length, and leaves a text of 46 bytes in it, one
-- byte less than there is room for.
strlen-refill :
    (byte : ℕ) (buf : List ℕ)
    → byte ≢ 0
    → 48 ≤ length buf
    → (length (refill byte buf) ≡ length buf) × (strlen (refill byte buf) ≡ 46)
unfolding refill
strlen-refill byte buf h room = (
  omega (
    arith,
    length-store 47 88 (store 46 0 (memset byte 46 buf)),
    length-store 46 0 (memset byte 46 buf),
    length-memset byte 46 buf,
  ),
  rw (c_string-behind 46 47 88 (memset byte 46 buf) (omega arith))
      (c_string-store 46 byte buf h (omega arith)),
)

-- show_mem shows each byte by one character, and never a 0.
show_mem-shows :
    (buf : List ℕ) → (length (show_mem buf) ≡ length buf) × (c_string (show_mem buf) ≡ show_mem buf)
unfolding show_mem c_string
show_mem-shows [] = (refl, refl)
show_mem-shows (b ∷ buf) = ground (arith, show_mem-shows buf)
