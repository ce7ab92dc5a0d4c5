-- ===== src/Stdio/Tests.antt =====
-- Runs of the programs of standard_io_library/, and the theorem on mem_stream.c at one buffer.
use apue_code.Stdio.Fdopen
use apue_code.Stdio.Tmpnam
use apue_code.Stdio.MemStream
use apue_code.Stdio.MemStream.{refill, memset, store, strlen}
use apue_code.Base.{
  zero, suc, ◌+◌, List, ◌∷◌, stdout, text, ℕ, ◌≡◌, refl, [], ok, done, exited, no_error, Process,
  some, none, if◌then◌else◌, ◌==◌,
}
use apue_code.Stdio.StreamStat.{Calls, gnu_file, bsd_file, buffering, main}

abbrev start : Process ℕ
start = record { kernel = 0; errno = no_error; log = [] }

-- The standard error is unbuffered, a terminal line buffered, and a file fully buffered.
abbrev calls : Calls ℕ
calls = record {
  getc = λ fp s. (some 97, s);
  fopen = λ path s. (ok 3, s);
  stream = λ fp s.
      if fp == 2
      then gnu_file 2 4096 4097
      else if fp == 3
      then gnu_file 0 4096 8192
      else gnu_file 0x200 4096 5120;
}

main_run : (main calls start).0 ≡ done tt
unfolding main
main_run = refl

no_input : (main (record calls { getc = λ fp s. (none, s) }) start).0 ≡ exited 1
unfolding main
no_input = refl

bsd_run : buffering (bsd_file 1 1024) ≡ "line buffered"
bsd_run = refl

-- The flags are the state, and fdopen adds O_APPEND, which is 0o2000.
abbrev appending : Fdopen.Calls ℕ
appending = record {
  open_file = λ path flags s. (ok 3, flags);
  getfl = λ fd s. (ok s, s);
  fdopen = λ fd mode s. (ok 4, s + 0o2000);
  write = λ fd buf s. (ok 7, s);
}

fdopen_run :
    (Fdopen.main appending ("fdopen" ∷ "f" ∷ []) start).1.log
    ≡ stdout (text "write success\n" ∷ [])
      ∷ stdout (text "file is append mode\n" ∷ [])
      ∷ stdout (text "after fdopen\n" ∷ [])
      ∷ stdout (text "file is not append mdoe\n" ∷ [])
      ∷ stdout (text "before fdopen\n" ∷ [])
      ∷ []
unfolding Fdopen.main
fdopen_run = refl

abbrev temporary : Tmpnam.Calls ℕ
temporary = record {
  tmpnam = λ s. ("/tmp/a", suc s);
  tmpfile = λ s. (ok 3, s);
  fputs = λ line fp s. (ok tt, s);
  rewind = λ fp s. (ok tt, s);
  fgets = λ n fp s. (none, s);
}

tmpnam_run : (Tmpnam.main temporary start).0 ≡ exited 1
unfolding Tmpnam.main
tmpnam_run = refl

abbrev zeros : ℕ → List ℕ
zeros zero = []
zeros (suc n) = 0 ∷ zeros n

abbrev blank : List ℕ
blank = zeros 48

-- The stream writes nothing; the state is the buffer.
abbrev memory : MemStream.Calls (List ℕ)
memory = record {
  fmemopen = λ s. (ok 3, s);
  fprintf = λ fp what s. (ok tt, s);
  fflush = λ fp s. (ok tt, s);
  fseek = λ fp off s. (ok tt, s);
  fclose = λ fp s. (ok tt, s);
  buf = λ s. s;
  set_buf = λ b s. b;
  chars = λ s. "x";
}

mem_stream_run :
    strlen (MemStream.main memory (record { kernel = blank; errno = no_error; log = [] })).1.kernel
    ≡ 46
unfolding MemStream.main refill memset store MemStream.c_string
mem_stream_run = refl
