-- ===== src/Process/Nice/Laws.antt =====
-- The counting loop: when it stops, what it prints, and the test of the time that it makes.
use apue_code.Base.{
  ℕ, zero, suc, ◌+◌, ◌%◌, ◌<◌, ◌≤◌, ◌≡◌, ◌≢◌, ◌⊎◌, ◌∙◌, ap, String, true, false, [], ◌∷◌, arith,
  pos, exited, running, Process, stdout, text, num, go_on, Exec, printf, fprintf_err, exit,
  exit_failure, if_rule, ◌==◌, ◌>>=◌, ◌>>◌,
}
use apue_code.Process.Nice.{
  Timeval, NiceCalls, time_up, ull_mod, now, now_end, checktime, round, counting,
}

-- The order of times.
abbrev pub NotBefore : Timeval → Timeval → Type 0
NotBefore tv end =
    (end.tv_sec < tv.tv_sec) ⊎ ((tv.tv_sec ≡ end.tv_sec) × (end.tv_usec ≤ tv.tv_usec))

-- Both the seconds and the microseconds have come to those of the end.
abbrev pub Reached : Timeval → Timeval → Type 0
Reached tv end = (end.tv_sec ≤ tv.tv_sec) × (end.tv_usec ≤ tv.tv_usec)

time_up-Reached : (tv end : Timeval) → Reached tv end → time_up tv end ≡ true
unfolding time_up
time_up-Reached tv end h = ground arith

time_up-not : (tv end : Timeval) → ¬ Reached tv end → time_up tv end ≡ false
unfolding time_up
time_up-not tv end h = ground arith

-- The test of checktime never passes before the end.
time_up_sound : (tv end : Timeval) → time_up tv end ≡ true → NotBefore tv end
unfolding time_up
time_up_sound tv end h = ground arith

-- The test of checktime fails, though the end is reached, at every later second whose microseconds
-- lie below those of the end.
time_up_misses :
    (tv end : Timeval)
    → end.tv_sec < tv.tv_sec
    → tv.tv_usec < end.tv_usec
    → NotBefore tv end × (time_up tv end ≡ false)
unfolding time_up
time_up_misses tv end h k = ground arith

module _ {S : Type 0} (c : NiceCalls S) (str : String) (end : Timeval) where
  -- The loop ends, at the latest where the count wraps to 0: it cannot run 2 ^ 64 rounds from 0.
  counting_ends :
      (fuel count : ℕ) (p : Process S)
      → count < ull_mod
      → ull_mod ≤ count + fuel
      → (counting c str end count fuel p).0 ≢ running
  unfolding counting
  counting_ends zero count p h k = absurd (omega arith)
  counting_ends (suc fuel) count p h k =
      if_rule (λ x. x.0 ≢ running) ((count + 1) % ull_mod == 0)
        (fprintf_err (text str ∷ text " count wrap\n" ∷ []) >> exit exit_failure)
        (now c
          >>= checktime c str end ((count + 1) % ull_mod)
              (counting c str end ((count + 1) % ull_mod) fuel))
        p (λ wrapped e. cc)
        (λ more.
          if_rule (λ x. x.0 ≢ running) (time_up (c.gettimeofday p.kernel).0 end)
            (printf
                (text str ∷ text " count = " ∷ num (pos ((count + 1) % ull_mod)) ∷ text "\n" ∷ [])
              >> exit 0)
            (counting c str end ((count + 1) % ull_mod) fuel)
            (record p { kernel = (c.gettimeofday p.kernel).1 }) (λ up e. cc)
            (λ down. counting_ends fuel ((count + 1) % ull_mod) _ (omega arith) (ground arith)))

  -- A round with the time up, and one without.
  round_up :
      (k : ℕ) (next : Exec S (Unit {0})) (tv : Timeval) (p : Process S) (u : S)
      → 0 < k
      → c.gettimeofday p.kernel ≡ (tv, u)
      → time_up tv end ≡ true
      → round c str end k next p ≡ (
        exited 0,
        record p {
          kernel = u;
          log = stdout (text str ∷ text " count = " ∷ num (pos k) ∷ text "\n" ∷ []) ∷ p.log;
        },
      )
  round_up k next tv p u h e up =
      let nonzero : (k == 0) ≡ false = ground arith in
      rw nonzero (ap (λ x. go_on (checktime c str end k next) (now_end c p x)) e ∙ rw up)

  round_down :
      (k : ℕ) (next : Exec S (Unit {0})) (tv : Timeval) (p : Process S) (u : S)
      → 0 < k
      → c.gettimeofday p.kernel ≡ (tv, u)
      → time_up tv end ≡ false
      → round c str end k next p ≡ next (record p { kernel = u })
  round_down k next tv p u h e down =
      let nonzero : (k == 0) ≡ false = ground arith in
      rw nonzero (ap (λ x. go_on (checktime c str end k next) (now_end c p x)) e ∙ rw down)

  -- The clock is read `n` times, from `s` to `t`, and each time its seconds or its microseconds lie below
  -- those of the end.
  abbrev pub Waits : ℕ → S → S → Type 0
  Waits zero s t = s ≡ t
  Waits (suc n) s t =
      (tv : Timeval) × (u : S) × (c.gettimeofday s ≡ (tv, u)) × ¬ Reached tv end × Waits n u t

  -- The loop goes on while the clock's seconds or its microseconds lie below those of the end, whichever
  -- of the two. Behind `n` such rounds, at the first reading where neither does, it exits with status 0
  -- and prints the count, which is `n` + 1 more than before, if that does not wrap.
  pub counting_counts :
      (fuel n count : ℕ) (tv : Timeval) (p : Process S) (t u : S)
      → Waits n p.kernel t
      → c.gettimeofday t ≡ (tv, u)
      → Reached tv end
      → n < fuel
      → count + n + 1 < ull_mod
      → counting c str end count fuel p ≡ (
        exited 0,
        record p {
          kernel = u;
          log =
              stdout (text str ∷ text " count = " ∷ num (pos (count + n + 1)) ∷ text "\n" ∷ [])
              ∷ p.log;
        },
      )
  unfolding counting
  counting_counts zero n count tv p t u w e up h k = absurd (omega arith)
  counting_counts (suc fuel) zero count tv p t u w e up h k =
      let same : (count + 1) % ull_mod ≡ count + 1 = omega arith in
      let plus : count + 0 + 1 ≡ count + 1 = omega arith in
      rw (same, plus)
        (round_up (count + 1) _ tv p u (omega arith) (ap c.gettimeofday w ∙ e)
          (time_up-Reached tv end up))
  counting_counts (suc fuel) (suc n) count tv p t u (tv', v, f, down, w) e up h k =
      let same : (count + 1) % ull_mod ≡ count + 1 = omega arith in
      let plus : count + suc n + 1 ≡ count + 1 + n + 1 = omega arith in
      rw (same, plus)
        (round_down (count + 1) _ tv' p v (omega arith) f (time_up-not tv' end down)
          ∙ counting_counts fuel n (count + 1) tv (record p { kernel = v }) t u w e up (omega arith)
              (omega arith))
