-- ===== src/Mode.antt =====
-- st_mode: the file types and permission bits of <sys/stat.h>, with the values that POSIX gives the
-- permissions and Linux gives the types.
use apue_code.Base.{ℕ, Bool, not, bit_and, ◌==◌}

abbrev pub s_ifmt : ℕ
s_ifmt = 0o170000

abbrev pub s_ifsock : ℕ
s_ifsock = 0o140000

abbrev pub s_iflnk : ℕ
s_iflnk = 0o120000

abbrev pub s_ifreg : ℕ
s_ifreg = 0o100000

abbrev pub s_ifblk : ℕ
s_ifblk = 0o060000

abbrev pub s_ifdir : ℕ
s_ifdir = 0o040000

abbrev pub s_ifchr : ℕ
s_ifchr = 0o020000

abbrev pub s_ififo : ℕ
s_ififo = 0o010000

abbrev pub s_isuid : ℕ
s_isuid = 0o4000

abbrev pub s_isgid : ℕ
s_isgid = 0o2000

abbrev pub s_isvtx : ℕ
s_isvtx = 0o1000

abbrev pub s_irwxu : ℕ
s_irwxu = 0o700

abbrev pub s_irusr : ℕ
s_irusr = 0o400

abbrev pub s_iwusr : ℕ
s_iwusr = 0o200

abbrev pub s_ixusr : ℕ
s_ixusr = 0o100

abbrev pub s_irgrp : ℕ
s_irgrp = 0o040

abbrev pub s_iwgrp : ℕ
s_iwgrp = 0o020

abbrev pub s_ixgrp : ℕ
s_ixgrp = 0o010

abbrev pub s_iroth : ℕ
s_iroth = 0o004

abbrev pub s_iwoth : ℕ
s_iwoth = 0o002

abbrev pub s_ixoth : ℕ
s_ixoth = 0o001

-- `mode & bits` as a condition
abbrev pub has : ℕ → ℕ → Bool
has mode bits = not (bit_and mode bits == 0)

abbrev pub s_isreg : ℕ → Bool
s_isreg mode = bit_and mode s_ifmt == s_ifreg

abbrev pub s_islnk : ℕ → Bool
s_islnk mode = bit_and mode s_ifmt == s_iflnk

abbrev pub s_isdir : ℕ → Bool
s_isdir mode = bit_and mode s_ifmt == s_ifdir

abbrev pub s_ischr : ℕ → Bool
s_ischr mode = bit_and mode s_ifmt == s_ifchr

abbrev pub s_isblk : ℕ → Bool
s_isblk mode = bit_and mode s_ifmt == s_ifblk

abbrev pub s_isfifo : ℕ → Bool
s_isfifo mode = bit_and mode s_ifmt == s_ififo

abbrev pub s_issock : ℕ → Bool
s_issock mode = bit_and mode s_ifmt == s_ifsock
