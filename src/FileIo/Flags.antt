-- ===== src/FileIo/Flags.antt =====
-- The flags of <fcntl.h>, with their values on Linux, and the test of a flag.
use apue_code.Base.{ℕ, Bool, not, bit_and, ◌==◌}

abbrev pub o_rdonly : ℕ
o_rdonly = 0

abbrev pub o_wronly : ℕ
o_wronly = 1

abbrev pub o_rdwr : ℕ
o_rdwr = 2

abbrev pub o_accmode : ℕ
o_accmode = 3

abbrev pub o_creat : ℕ
o_creat = 0o100

abbrev pub o_trunc : ℕ
o_trunc = 0o1000

abbrev pub o_append : ℕ
o_append = 0o2000

abbrev pub o_nonblock : ℕ
o_nonblock = 0o4000

abbrev pub o_sync : ℕ
o_sync = 0o4010000

-- `val & mask` as a condition
abbrev pub has : ℕ → ℕ → Bool
has val mask = not (bit_and val mask == 0)
