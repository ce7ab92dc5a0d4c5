-- ===== src/Stdio/StreamStat.antt =====
-- standard_io_library/stream_stat.c: how streams are buffered. The C library keeps this in the flags and
-- the buffer of a stream; the source has three branches for three libraries. Those for
-- headers with _IO_UNBUFFERED and with __SNBF are modelled; the third, for _IONBF, does not compile, as a
-- statement of it is not finished.
use apue_code.Base.{
  ℕ, ◌-◌, ◌==◌, not, Bool, if◌then◌else◌, String, [], ◌∷◌, pos, bit_and, Exec, Call, Option, none,
  some, text, num, must, perror, exit, printf, emit, stderr, pure, ◌>>=◌, ◌>>◌,
}

-- The part of FILE that is read, in one library and in the other: the flags, and the ends of the buffer
-- as addresses or its size.
pub data File : Type 0 where
  gnu_file : ℕ → ℕ → ℕ → File
  bsd_file : ℕ → ℕ → File

abbrev pub io_unbuffered : ℕ
io_unbuffered = 2

abbrev pub io_line_buf : ℕ
io_line_buf = 0x200

-- __SNBF and __SLBF
abbrev pub snbf : ℕ
snbf = 2

abbrev pub slbf : ℕ
slbf = 1

abbrev flag_set : ℕ → ℕ → Bool
flag_set flags flag = not (bit_and flags flag == 0)

abbrev pub bsd_is_unbuffered : ℕ → Bool
bsd_is_unbuffered flags = flag_set flags snbf

abbrev pub bsd_is_linebuffered : ℕ → Bool
bsd_is_linebuffered flags = flag_set flags slbf

abbrev pub bsd_buffer_size : ℕ → ℕ
bsd_buffer_size bf_size = bf_size

abbrev pub is_unbuffered : File → Bool
is_unbuffered (gnu_file flags buf_base buf_end) = flag_set flags io_unbuffered
is_unbuffered (bsd_file flags bf_size) = bsd_is_unbuffered flags

abbrev pub is_linebuffered : File → Bool
is_linebuffered (gnu_file flags buf_base buf_end) = flag_set flags io_line_buf
is_linebuffered (bsd_file flags bf_size) = bsd_is_linebuffered flags

abbrev pub buffer_size : File → ℕ
buffer_size (gnu_file flags buf_base buf_end) = buf_end - buf_base
buffer_size (bsd_file flags bf_size) = bsd_buffer_size bf_size

-- getchar and getc give `none` for EOF; `stream` is what a stream holds now.
pub record Calls (S : Type 0) : Type 0 where
  pub getc : ℕ → S → Option ℕ × S
  pub fopen : String → Call S ℕ
  pub stream : ℕ → S → File

abbrev pub stdin_no : ℕ
stdin_no = 0

abbrev pub stdout_no : ℕ
stdout_no = 1

abbrev pub stderr_no : ℕ
stderr_no = 2

abbrev pub buffering : File → String
buffering fp =
    if is_unbuffered fp
    then "unbuffered"
    else if is_linebuffered fp
    then "line buffered"
    else "fully buffered"

module _ {S : Type 0} (c : Calls S) where
  unfoldable pub pr_stdio : String → ℕ → Exec S (Unit {0})
  pr_stdio name fp p =
      let f = c.stream fp p.kernel in
      printf
        (text "stream = "
          ∷ text name
          ∷ text ", "
          ∷ text (buffering f)
          ∷ text ", buffer size = "
          ∷ num (pos (buffer_size f))
          ∷ text "\n"
          ∷ [])
        p

  abbrev got : String → Option ℕ → Exec S (Unit {0})
  got message none = do perror message; exit 1
  got message (some ch) = pure tt

  -- if (getc(fp) == EOF) { ... }
  abbrev must_getc : ℕ → String → Exec S (Unit {0})
  must_getc fp message p = let x = c.getc fp p.kernel in got message x.0 (record p { kernel = x.1 })

  unfoldable pub main : Exec S (Unit {0})
  unfolding pr_stdio
  main = do
    printf (text "enter any character\n" ∷ [])
    must_getc stdin_no "getchar error"
    emit (stderr (text "one line to standard error\n" ∷ []))
    pr_stdio "stdin" stdin_no
    pr_stdio "stdout" stdout_no
    pr_stdio "stderr" stderr_no
    fp ← must "fopen error" (c.fopen "/etc/passwd")
    must_getc fp "getc error"
    pr_stdio "/etc/passwd" fp
