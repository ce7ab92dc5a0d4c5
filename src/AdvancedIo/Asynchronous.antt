-- ===== src/AdvancedIo/Asynchronous.antt =====
-- advanced_io/asynchronous_io.c: writes the first bytes of a file to another by one asynchronous write.
use apue_code.Base.{
  ℕ, ◌==◌, if◌then◌else◌, String, List, [], ◌∷◌, length, pos, Exec, Call, text, num, must, die,
  exit, printf, fprintf_err, pure, program_name, bit_or, ◌>>=◌, ◌>>◌,
}
use apue_code.FileIo.Flags.{o_rdonly, o_rdwr, o_creat, o_trunc}

-- struct aiocb, as far as it is set; the number of bytes is the length of the buffer.
pub record Aiocb : Type 0 where
  pub aio_fildes : ℕ
  pub aio_offset : ℕ
  pub aio_buf : List ℕ
  pub aio_nbytes : ℕ

-- `read` gives the bytes read; aio_error gives the number of an error, or 0.
pub record Calls (S : Type 0) : Type 0 where
  pub open_file : String → ℕ → ℕ → Call S ℕ
  pub read : ℕ → ℕ → Call S (List ℕ)
  pub aio_write : Aiocb → Call S (Unit {0})
  pub aio_suspend : List Aiocb → Call S (Unit {0})
  pub aio_error : Aiocb → S → ℕ × S
  pub aio_return : Aiocb → Call S ℕ

-- BUFSIZ of glibc
abbrev pub bufsiz : ℕ
bufsiz = 8192

module _ {S : Type 0} (c : Calls S) where
  abbrev pub aiocb : ℕ → List ℕ → Aiocb
  aiocb ofd buf = record {
    aio_fildes = ofd;
    aio_offset = 0;
    aio_buf = buf;
    aio_nbytes = length buf;
  }

  -- if (aio_error(&oaiocb) != 0) { ... }
  abbrev pub check_error : Aiocb → Exec S (Unit {0})
  check_error cb p =
      let x = c.aio_error cb p.kernel in
      let r : Exec S (Unit {0}) = if x.0 == 0 then pure tt else die "aio_error error" in
      r (record p { kernel = x.1 })

  abbrev pub write_async : Aiocb → Exec S (Unit {0})
  write_async cb = do
    must "aio_write error" (c.aio_write cb)
    must "aio_suspend error" (c.aio_suspend (cb ∷ []))
    check_error cb
    ret ← must "aio_return error" (c.aio_return cb)
    printf (text "asynchronous write completion\n" ∷ [])
    printf (text "aio_write operation return " ∷ num (pos ret) ∷ text "\n" ∷ [])

  unfoldable pub main : List String → Exec S (Unit {0})
  main (name ∷ input ∷ output ∷ []) = do
    ifd ← must "open error" (c.open_file input o_rdonly 0)
    ofd ← must "open error" (c.open_file output (bit_or (bit_or o_rdwr o_creat) o_trunc) 0o644)
    buf ← must "read error" (c.read ifd bufsiz)
    write_async (aiocb ofd buf)
  main argv = do
    fprintf_err
        (text "Usage: " ∷ text (program_name argv) ∷ text " <input file> <output file>\n" ∷ [])
    exit 1
