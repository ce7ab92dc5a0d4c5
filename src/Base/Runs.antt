-- ===== src/Base/Runs.antt =====
-- Runs of a step relation: what several processes do in some order.
use Prim.Native.Nat.{ℕ, suc, ◌+◌, ◌≤◌, ◌<◌}
use native.Mathlib.Omega.{arith}

pub data Reach {S : Type 0} (Step : S → S → Type 0) (s : S) : S → Type 0 where
  here : Reach Step s s
  next : {t u : S} → Reach Step s t → Step t u → Reach Step s u

module _ {S : Type 0} {Step : S → S → Type 0} where
  abbrev pub steps : {s t : S} → Reach Step s t → ℕ
  steps here = 0
  steps (next r st) = suc (steps r)

  -- What holds at the start and is kept by each step holds at the end of each run.
  pub Reach-keeps {ℓ} :
      (P : S → Type ℓ) {s : S}
      → ((t u : S) → Step t u → P t → P u)
      → P s
      → {t : S} → Reach Step s t
      → P t
  Reach-keeps P keep start here = start
  Reach-keeps P keep start (next {t} {u} r st) = keep t u st (Reach-keeps P keep start r)

  -- Where each step from a state with `P` makes a measure smaller, no run is longer than the measure
  -- at its start.
  pub Reach-bounded {ℓ} :
      (P : S → Type ℓ) (measure : S → ℕ) {s : S}
      → ((t u : S) → Step t u → P t → P u × (measure u < measure t))
      → P s
      → {t : S} (r : Reach Step s t) → steps r + measure t ≤ measure s
  Reach-bounded P measure keep start here = omega arith
  Reach-bounded P measure keep start (next {t} {u} r st) =
      let p = Reach-keeps P (λ t u st p. (keep t u st p).0) start r in
      omega (arith, Reach-bounded P measure keep start r, (keep t u st p).1)
