-- ===== src/FileIo/Kernel.antt =====
-- The file calls that the programs make of the operating system, which is not in the repository,
-- and what they rely on: the documented behaviour of read and write between two open files.
use apue_code.Base.{ℕ, ◌<◌, ◌≤◌, ◌≡◌, String, List, ◌++◌, take, length, Call, Result, ok, fail}

-- `stat` gives the mode of a file; `get_flags` and `set_flags` are fcntl's F_GETFL and F_SETFL.
pub record FileSys : Type 1 where
  pub State : Type 0
  -- open(path, flags)
  pub open_file : String → ℕ → Call State ℕ
  pub read : ℕ → ℕ → Call State (List ℕ)
  pub write : ℕ → List ℕ → Call State ℕ
  pub get_flags : ℕ → Call State ℕ
  pub set_flags : ℕ → ℕ → Call State (Unit {0})
  pub lstat_mode : String → Call State ℕ
  pub readlink : String → ℕ → Call State (List ℕ)

-- `unread` is what a reader of `ifd` has still to see; `stored` is what `ofd` has taken so far.
abbrev pub ReadOk :
    {S : Type 0} (unread stored : S → List ℕ) (n : ℕ) → S → Result (List ℕ) × S → Type 0
ReadOk unread stored n s (ok bs, s') =
    (bs ++ unread s' ≡ unread s)
    × (length bs ≤ n)
    × (0 < length (unread s) → 0 < length bs)
    × (stored s' ≡ stored s)
ReadOk unread stored n s (fail e, s') = (unread s' ≡ unread s) × (stored s' ≡ stored s)

-- A write takes a leading part of what it is given, or fails and takes nothing.
abbrev pub WriteOk :
    {S : Type 0} (unread stored : S → List ℕ) (bs : List ℕ) → S → Result ℕ × S → Type 0
WriteOk unread stored bs s (ok n, s') =
    (n ≤ length bs) × (stored s' ≡ stored s ++ take n bs) × (unread s' ≡ unread s)
WriteOk unread stored bs s (fail e, s') = (stored s' ≡ stored s) × (unread s' ≡ unread s)

-- A call that moves no data.
abbrev pub Keeps : {S A : Type 0} (unread stored : S → List ℕ) → S → Result A × S → Type 0
Keeps unread stored s x = (unread x.1 ≡ unread s) × (stored x.1 ≡ stored s)

-- `ifd` and `ofd` are open on two different regular files.
pub record IsStream (K : FileSys) (ifd ofd : ℕ) (unread stored : K.State → List ℕ) : Type 0 where
  pub read-ReadOk : (n : ℕ) (s : K.State) → 0 < n → ReadOk unread stored n s (K.read ifd n s)
  pub write-WriteOk : (bs : List ℕ) (s : K.State) → WriteOk unread stored bs s (K.write ofd bs s)
  pub get_flags-Keeps : (fd : ℕ) (s : K.State) → Keeps unread stored s (K.get_flags fd s)
  pub set_flags-Keeps :
      (fd flags : ℕ) (s : K.State) → Keeps unread stored s (K.set_flags fd flags s)
  pub lstat_mode-Keeps : (path : String) (s : K.State) → Keeps unread stored s (K.lstat_mode path s)
  pub readlink-Keeps :
      (path : String) (n : ℕ) (s : K.State) → Keeps unread stored s (K.readlink path n s)
