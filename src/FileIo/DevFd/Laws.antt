-- ===== src/FileIo/DevFd/Laws.antt =====
-- dev_fd.c: what stands in the output after a run that returns 0.
use mathlib.Core.Path.{subst}
use apue_code.Base.{
  ℕ, ◌+◌, Bool, sym, if◌then◌else◌, ◌<◌, ◌≡◌, refl, ◌∙◌, true, false, List, [], ◌∷◌, ◌++◌, arith,
  length, take, take_all, length-append, done, exited, running, Outcome, ok, Process, Exec, must,
  die, pure, must_rule, must_ok, sys_rule, if_rule, go_on, ==_iff, ◌==◌, ◌>>=◌,
}
use apue_code.Mode.{s_islnk}
use apue_code.FileIo.Flags.{o_rdonly, o_wronly}
use apue_code.FileIo.Kernel.{FileSys, IsStream, WriteOk, Keeps}
use apue_code.FileIo.Pump.{pump}
use apue_code.FileIo.Pump.Laws.{Copied, pump-Copied}
use apue_code.FileIo.DevFd.{
  bufsiz, path_max, bytes, not_link, check_note, write_note, write_link, note, copy_and_note, main,
}

-- The message of 31 characters is written with length 30: its newline is left out.
pub take-not_link : take 30 not_link ≡ bytes "/dev/fd/n is not symbolic link"
take-not_link = refl

-- The note that belongs to a file of this mode, whose link, if it is one, has this text.
abbrev pub note_of : ℕ → List ℕ → List ℕ
note_of mode link =
    if s_islnk mode then link ++ (10 ∷ []) else bytes "/dev/fd/n is not symbolic link"

take_more : (link : List ℕ) → take (length link + 1) (link ++ (10 ∷ [])) ≡ link ++ (10 ∷ [])
take_more link = rw (← length-append link (10 ∷ [])) (take_all (link ++ (10 ∷ [])))

module _ {S : Type 0} (stored : S → List ℕ) (whole : List ℕ) where
  -- The output is `whole`, or the program has exited with status 1.
  abbrev pub Holds : Outcome (Unit {0}) × Process S → Type 0
  Holds (done _, q) = stored q.kernel ≡ whole
  Holds (exited status, q) = status ≡ 1
  Holds (running, q) = ⊥

  Holds-after_copy :
      (unread : S → List ℕ) (p : Process S) (f : Unit {0} → Exec S (Unit {0}))
      (x : Outcome (Unit {0}) × Process S)
      → Copied unread stored p x
      → ((q : Process S) → stored q.kernel ≡ stored p.kernel ++ unread p.kernel → Holds (f tt q))
      → Holds (go_on f x)
  Holds-after_copy unread p f (done _, q) (all, log) h = h q all
  Holds-after_copy unread p f (exited status, q) c h = c.0
  Holds-after_copy unread p f (running, q) c h = c

module _ (K : FileSys) (ifd ofd : ℕ) (unread stored : K.State → List ℕ)
    (L : IsStream K ifd ofd unread stored) where
  write_note-Holds :
      (buf line : List ℕ) (n : ℕ) (p : Process K.State)
      → take n buf ≡ line
      → length line ≡ n
      → Holds stored (stored p.kernel ++ line) (write_note K ofd buf n p)
  write_note-Holds buf line n p whole size =
      sys_rule (Holds stored (stored p.kernel ++ line)) (K.write ofd (take n buf)) (check_note K n)
        p
        (λ taken s wrote.
          let (some_of, added, same) =
            subst (WriteOk unread stored (take n buf) p.kernel) wrote
              (L.write-WriteOk (take n buf) p.kernel) in
          if_rule (Holds stored (stored p.kernel ++ line)) (taken == n) (pure tt)
            (die "write #2 error") (record p { kernel = s })
            (λ all.
              let e : taken ≡ length line = (==_iff _ _).0 all ∙ sym size in
              rw (added, whole, e, take_all))
            (λ short. refl))
        (λ e s failed. refl)

  module _ (mode : ℕ) (link : List ℕ)
      (link_is : (s : K.State) → (K.readlink "/dev/fd/111" path_max s).0 ≡ ok link)
      (mode_is : (s : K.State) → (K.lstat_mode "/dev/fd/111" s).0 ≡ ok mode) where
    note_at :
        (b : Bool) (p : Process K.State)
        → Holds stored
            (stored p.kernel
              ++ (if b then link ++ (10 ∷ []) else bytes "/dev/fd/n is not symbolic link"))
            ((if b
                then (must "readlink errno" (K.readlink "/dev/fd/111" path_max)
                    >>= write_link K ofd)
                else write_note K ofd not_link 30)
              p)
    note_at true p =
        must_rule (Holds stored (stored p.kernel ++ (link ++ (10 ∷ [])))) "readlink errno"
          (K.readlink "/dev/fd/111" path_max) (write_link K ofd) p
          (λ read t got.
            let (same, kept) =
              subst (Keeps unread stored p.kernel) got (L.readlink-Keeps _ path_max p.kernel) in
            let e : read ≡ link = cc (got, link_is p.kernel) in
            rw (← kept, ← e)
              (write_note-Holds (read ++ (10 ∷ [])) (read ++ (10 ∷ [])) (length read + 1)
                (record p { kernel = t }) (take_more read) (length-append read (10 ∷ []))))
          (λ e t failed. refl)
    note_at false p = write_note-Holds not_link _ 30 p refl refl

    note-Holds :
        (p : Process K.State)
        → Holds stored (stored p.kernel ++ note_of mode link) (note K ofd mode p)
    note-Holds p = note_at (s_islnk mode) p

    -- A run of `dev_fd` whose two files open, with more fuel than there are bytes to read and a fixed
    -- mode and link text of the input, either exits with status 1, or leaves in the output
    -- what it held, all of the input, and a note: the text of the link and a newline, or the
    -- message that the file is no link, without the newline that the source gives it.
    pub main-Holds :
        (fuel : ℕ) (p : Process K.State) (s s' : K.State)
        → K.open_file "/dev/fd/111" o_rdonly p.kernel ≡ (ok ifd, s)
        → K.open_file "/dev/fd/222" o_wronly s ≡ (ok ofd, s')
        → length (unread s') < fuel
        → Holds stored ((stored s' ++ unread s') ++ note_of mode link) (main K fuel p)
    unfolding main
    main-Holds fuel p s s' in_open out_open h =
        let goal = Holds stored ((stored s' ++ unread s') ++ note_of mode link) in
        must_ok goal "open /dev/fd/111 error" (K.open_file "/dev/fd/111" o_rdonly)
          (λ i.
            must "open /dev/fd/222 error" (K.open_file "/dev/fd/222" o_wronly)
            >>= copy_and_note K fuel i)
          p ifd s in_open
          (must_ok goal "open /dev/fd/222 error" (K.open_file "/dev/fd/222" o_wronly)
            (copy_and_note K fuel ifd) (record p { kernel = s }) ofd s' out_open
            (Holds-after_copy stored ((stored s' ++ unread s') ++ note_of mode link) unread
              (record p { kernel = s' })
              (λ _. must "stat error" (K.lstat_mode "/dev/fd/111") >>= note K ofd)
              (pump K bufsiz "write #1 error" ifd ofd fuel (record p { kernel = s' }))
              (pump-Copied K ifd ofd unread stored L bufsiz (omega arith) "write #1 error" fuel
                (record p { kernel = s' }) h)
              (λ q all.
                must_rule goal "stat error" (K.lstat_mode "/dev/fd/111") (note K ofd) q
                  (λ m t got.
                    let (same, kept) =
                      subst (Keeps unread stored q.kernel) got (L.lstat_mode-Keeps _ q.kernel) in
                    let e : m ≡ mode = cc (got, mode_is q.kernel) in
                    subst (λ n. goal (note K ofd n (record q { kernel = t }))) (sym e)
                      (subst
                        (λ w.
                          Holds stored (w ++ note_of mode link)
                            (note K ofd mode (record q { kernel = t })))
                        (kept ∙ all) (note-Holds (record q { kernel = t }))))
                  (λ e t failed. refl))))
