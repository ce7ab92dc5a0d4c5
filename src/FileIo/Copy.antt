-- ===== src/FileIo/Copy.antt =====
-- file_io/copy.c: copies one file over another. The macros that it is compiled with are a record.
pub mod Laws
use apue_code.Base.{
  ℕ, String, Bool, List, [], ◌∷◌, bit_or, Exec, text, must, fprintf_err, exit, exit_failure, when,
  pure, program_name, if◌then◌else◌, ◌>>=◌, ◌>>◌,
}
use apue_code.FileIo.Flags.{o_rdwr, o_creat, o_trunc, o_sync}
use apue_code.FileIo.Kernel.{FileSys}
use apue_code.FileIo.Pump.{pump}

-- #ifdef SYNC, #ifdef FCNTL_SYNC
pub record Build : Type 0 where
  pub sync : Bool
  pub fcntl_sync : Bool

-- #define BUFSIZE 4096
abbrev pub bufsize : ℕ
bufsize = 4096

-- mode = O_RDWR | O_CREAT | O_TRUNC; mode |= O_SYNC;
abbrev pub out_mode : Build → ℕ
out_mode b =
    let mode = bit_or (bit_or o_rdwr o_creat) o_trunc in if b.sync then bit_or mode o_sync else mode

module _ (K : FileSys) where
  -- The part under #ifdef FCNTL_SYNC.
  pub set_sync : ℕ → Exec K.State (Unit {0})
  set_sync ofd = do
    flags ← must "fcntl(F_GETFL) error" (K.get_flags ofd)
    must "fcntl(F_SETFL) error" (K.set_flags ofd (bit_or flags o_sync))

  -- What follows the two open calls; `return 0` is `pure tt`.
  pub copy_files : Build → ℕ → ℕ → ℕ → Exec K.State (Unit {0})
  unfolding set_sync
  copy_files b fuel ifd ofd = do
    when b.fcntl_sync (set_sync ofd)
    pump K bufsize "write error" ifd ofd fuel

  unfoldable pub main : Build → ℕ → List String → Exec K.State (Unit {0})
  unfolding copy_files
  main b fuel (name ∷ infile ∷ outfile ∷ []) = do
    ifd ← must "open input file error" (K.open_file infile o_rdwr)
    ofd ← must "open output file error" (K.open_file outfile (out_mode b))
    copy_files b fuel ifd ofd
  main b fuel argv = do
    fprintf_err (text (program_name argv) ∷ text " <infile> <outfile>\n" ∷ [])
    exit exit_failure
