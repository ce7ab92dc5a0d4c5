-- ===== src/Stdio/MemStream.antt =====
-- standard_io_library/mem_stream.c: a stream whose file is a buffer of the program. The bytes of the
-- buffer are part of the system's state, as the stream writes to them.
pub mod Laws
use apue_code.Base.{
  ℕ, zero, suc, ◌+◌, ◌==◌, if◌then◌else◌, String, List, [], ◌∷◌, ◌++◌, pos, length, Exec, Call,
  Option, none, some, must, sys, pure, emit, Process, Piece, text, num, stdout, ◌>>=◌, ◌>>◌,
}

abbrev pub bsz : ℕ
bsz = 48

-- The first `n` bytes at `byte`, and the others as they were.
unfoldable pub memset : ℕ → ℕ → List ℕ → List ℕ
memset byte zero buf = buf
memset byte (suc n) [] = []
memset byte (suc n) (b ∷ buf) = byte ∷ memset byte n buf

-- buf[i] = byte, where `i` is within the buffer
unfoldable pub store : ℕ → ℕ → List ℕ → List ℕ
store i byte [] = []
store zero byte (b ∷ buf) = byte ∷ buf
store (suc i) byte (b ∷ buf) = b ∷ store i byte buf

-- The three statements before each use of the stream: 'X' is 88.
unfoldable pub refill : ℕ → List ℕ → List ℕ
refill byte buf = store 47 88 (store 46 0 (memset byte 46 buf))

-- The bytes that %s prints: those before the first 0.
unfoldable pub c_string : List ℕ → List ℕ
c_string [] = []
c_string (b ∷ buf) = let rest = c_string buf in if b == 0 then [] else b ∷ rest

abbrev pub strlen : List ℕ → ℕ
strlen buf = length (c_string buf)

-- show_mem shows a 0 as '-', which is 45.
abbrev pub shown : ℕ → ℕ
shown b = if b == 0 then 45 else b

unfoldable pub show_mem : List ℕ → List ℕ
show_mem [] = []
show_mem (b ∷ buf) = shown b ∷ show_mem buf

-- The calls on the stream, and the buffer in the state; `chars` is a text of these bytes.
pub record Calls (S : Type 0) : Type 0 where
  pub fmemopen : Call S ℕ
  pub fprintf : ℕ → String → Call S (Unit {0})
  pub fflush : ℕ → Call S (Unit {0})
  pub fseek : ℕ → ℕ → Call S (Unit {0})
  pub fclose : ℕ → Call S (Unit {0})
  pub buf : S → List ℕ
  pub set_buf : List ℕ → S → S
  pub chars : List ℕ → String

module _ {S : Type 0} (c : Calls S) where
  abbrev fill : ℕ → Exec S (Unit {0})
  fill byte p = pure tt (record p { kernel = c.set_buf (refill byte (c.buf p.kernel)) p.kernel })

  abbrev print : List Piece → Exec S (Unit {0})
  print ps = emit (stdout ps)

  abbrev tell_buf : String → Exec S (Unit {0})
  tell_buf what p =
      print (text what ∷ text (c.chars (c_string (c.buf p.kernel))) ∷ text "\n" ∷ []) p

  abbrev tell_len : Exec S (Unit {0})
  tell_len p =
      print (text "len of string in buf = " ∷ num (pos (strlen (c.buf p.kernel))) ∷ text "\n" ∷ [])
        p

  abbrev tell_mem : Exec S (Unit {0})
  tell_mem p = print (text (c.chars (show_mem (c.buf p.kernel))) ∷ text "\n" ∷ []) p

  unfoldable pub main : Exec S (Unit {0})
  main = do
    fill 97
    fp ← must "fmemeopen failed" c.fmemopen
    tell_buf "initial buffer contents: "
    print (text "before fprintf:" ∷ [])
    tell_mem
    sys (c.fprintf fp "hello, world")
    tell_buf "before flush: "
    sys (c.fflush fp)
    tell_buf "after fflush: "
    tell_len
    fill 98
    sys (c.fprintf fp "hello, world")
    sys (c.fseek fp 0)
    tell_buf "after fseek: "
    tell_len
    fill 99
    sys (c.fprintf fp "hello, world")
    sys (c.fclose fp)
    tell_buf "after fclose: "
    tell_len
