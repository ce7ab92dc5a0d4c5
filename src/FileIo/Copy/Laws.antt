-- ===== src/FileIo/Copy/Laws.antt =====
-- copy.c: a run that reaches its loop leaves a whole copy, or a leading part of one and a message.
use mathlib.Core.Path.{subst}
use apue_code.Base.{
  ℕ, ◌<◌, ◌≡◌, refl, String, List, [], ◌∷◌, arith, length, ok, Process, must, pure, must_rule,
  must_ok, if_rule, must_end_rule, go_on, Outcome, ◌∙◌, bit_or, ◌>>=◌, ◌>>◌,
}
use apue_code.FileIo.Flags.{o_rdwr, o_sync}
use apue_code.FileIo.Kernel.{FileSys, IsStream, Keeps}
use apue_code.FileIo.Pump.{pump}
use apue_code.FileIo.Pump.Laws.{Copied, nothing-Leading, Copied-shift, pump-Copied}
use apue_code.FileIo.Copy.{Build, bufsize, out_mode, set_sync, copy_files, main}

module _ (K : FileSys) (ifd ofd : ℕ) (unread stored : K.State → List ℕ)
    (L : IsStream K ifd ofd unread stored) where
  -- Switching O_SYNC on moves no data.
  sync-Copied :
      (fuel : ℕ) (p : Process K.State)
      → length (unread p.kernel) < fuel
      → Copied unread stored p ((set_sync K ofd >> pump K bufsize "write error" ifd ofd fuel) p)
  unfolding set_sync
  sync-Copied fuel p h =
      let rest = pump K bufsize "write error" ifd ofd fuel in
      let goal : Outcome (Unit {0}) × Process K.State → Type 0 =
        λ x. Copied unread stored p (go_on (λ _. rest) x) in
      must_rule goal "fcntl(F_GETFL) error" (K.get_flags ofd)
        (λ flags. must "fcntl(F_SETFL) error" (K.set_flags ofd (bit_or flags o_sync))) p
        (λ flags s got.
          let (same, kept) =
            subst (Keeps unread stored p.kernel) got (L.get_flags-Keeps ofd p.kernel) in
          must_end_rule goal "fcntl(F_SETFL) error" (K.set_flags ofd (bit_or flags o_sync))
            (record p { kernel = s })
            (λ u s' put.
              let (same', kept') = subst (Keeps unread stored s) put (L.set_flags-Keeps ofd _ s) in
              Copied-shift unread stored p (record p { kernel = s' }) _ (same' ∙ same)
                (kept' ∙ kept) refl
                (pump-Copied K ifd ofd unread stored L bufsize (omega arith) "write error" fuel
                  (record p { kernel = s' }) (rw (same', same) h)))
            (λ e s' failed.
              let (same', kept') =
                subst (Keeps unread stored s) failed (L.set_flags-Keeps ofd _ s) in
              (
                refl,
                nothing-Leading unread stored p s' (kept' ∙ kept),
                ("fcntl(F_SETFL) error", refl),
              )))
        (λ e s failed.
          let (same, kept) =
            subst (Keeps unread stored p.kernel) failed (L.get_flags-Keeps ofd p.kernel) in
          (refl, nothing-Leading unread stored p s kept, ("fcntl(F_GETFL) error", refl)))

  pub copy_files-Copied :
      (b : Build) (fuel : ℕ) (p : Process K.State)
      → length (unread p.kernel) < fuel
      → Copied unread stored p (copy_files K b fuel ifd ofd p)
  unfolding copy_files
  copy_files-Copied b fuel p h =
      if_rule
        (λ x. Copied unread stored p (go_on (λ _. pump K bufsize "write error" ifd ofd fuel) x))
        b.fcntl_sync (set_sync K ofd) (pure tt) p (λ _. sync-Copied fuel p h)
        (λ _. pump-Copied K ifd ofd unread stored L bufsize (omega arith) "write error" fuel p h)

  -- With two paths that open as two different regular files, and more fuel than there are bytes to
  -- read, `copy` ends: it returns 0 with all of the input stored behind what the output held and
  -- nothing printed, or it exits with status 1, a leading part of the input stored and one perror line
  -- printed.
  pub main-Copied :
      (b : Build) (fuel : ℕ) (name infile outfile : String) (p : Process K.State) (s s' : K.State)
      → K.open_file infile o_rdwr p.kernel ≡ (ok ifd, s)
      → K.open_file outfile (out_mode b) s ≡ (ok ofd, s')
      → length (unread s') < fuel
      → Copied unread stored
          (record p { kernel = s' })
          (main K b fuel (name ∷ infile ∷ outfile ∷ []) p)
  unfolding main
  main-Copied b fuel name infile outfile p s s' in_open out_open h =
      let goal = Copied unread stored (record p { kernel = s' }) in
      must_ok goal "open input file error" (K.open_file infile o_rdwr)
        (λ i.
          must "open output file error" (K.open_file outfile (out_mode b))
          >>= copy_files K b fuel i)
        p ifd s in_open
        (must_ok goal "open output file error" (K.open_file outfile (out_mode b))
          (copy_files K b fuel ifd) (record p { kernel = s }) ofd s' out_open
          (copy_files-Copied b fuel (record p { kernel = s' }) h))
