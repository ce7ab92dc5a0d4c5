-- ===== src/FileIo/Memory.antt =====
-- A concrete pair of files for the tests: an input with bytes left to read, and an output that takes
-- a write whole while it has room for it. It behaves as `IsStream` says.
use apue_code.Base.{
  ℕ, ◌-◌, ◌<◌, refl, List, [], ◌∷◌, ◌++◌, arith, take, drop, take_all, take-append-drop,
  length-take_le, length-take_pos, length, leb, ok, fail, other, Result, if◌then◌else◌,
}
use mathlib.Core.Bool.{◌||◌}
use text.Mathlib.Text.{◌==◌ as str_eq}
use apue_code.FileIo.Kernel.{FileSys, IsStream, ReadOk, WriteOk}

pub record Disk : Type 0 where
  pub left : List ℕ
  pub taken : List ℕ
  pub room : ℕ

abbrev read_disk : ℕ → ℕ → Disk → Result (List ℕ) × Disk
read_disk fd n s = (ok (take n s.left), record s { left = drop n s.left })

-- ENOSPC is 28.
abbrev write_disk : ℕ → List ℕ → Disk → Result ℕ × Disk
write_disk fd bs s =
    if leb (length bs) s.room
    then (ok (length bs), record s { taken = s.taken ++ bs; room = s.room - length bs })
    else (fail (other 28), s)

-- The input is descriptor 3, the output 4.
abbrev pub disk : FileSys
disk = record {
  State = Disk;
  open_file =
      λ path flags s. (ok (if str_eq path "out" || str_eq path "/dev/fd/222" then 4 else 3), s);
  read = read_disk;
  write = write_disk;
  get_flags = λ fd s. (ok 2, s);
  set_flags = λ fd flags s. (ok tt, s);
  lstat_mode = λ path s. (ok 0o100644, s);
  readlink = λ path n s. (ok (b'x' ∷ []), s);
}

read_disk-ReadOk :
    (n : ℕ) (s : Disk) → 0 < n → ReadOk (λ d. d.left) (λ d. d.taken) n s (read_disk 3 n s)
read_disk-ReadOk n s h =
    (take-append-drop n s.left, length-take_le n s.left, length-take_pos n s.left h, refl)

write_disk-WriteOk :
    (bs : List ℕ) (s : Disk) → WriteOk (λ d. d.left) (λ d. d.taken) bs s (write_disk 4 bs s)
write_disk-WriteOk bs s = ground (arith, take_all bs)

pub disk-IsStream : IsStream disk 3 4 (λ d. d.left) (λ d. d.taken)
disk-IsStream = record {
  read-ReadOk = read_disk-ReadOk;
  write-WriteOk = write_disk-WriteOk;
  get_flags-Keeps = λ fd s. (refl, refl);
  set_flags-Keeps = λ fd flags s. (refl, refl);
  lstat_mode-Keeps = λ path s. (refl, refl);
  readlink-Keeps = λ path n s. (refl, refl);
}
