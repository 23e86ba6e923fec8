-- ===== src/Epochs/Quiet.antt =====
-- No memory that waits is forgotten.
use andsifr.Common.{
  ℕ, ◌<◌, ◌≤◌, ◌≡◌, inl, inr, List, [], ◌∷◌, ◌==◌, length, get_or, set, All, Bool-cases, arith,
  subst, sym, ap, get_or-set, get_or-set_self, length-set, All-get_or,
}
use andsifr.Epochs.{Shared, Phase, idle, running, Move, System, step, Reachable, begins, more}
use andsifr.Epochs.Count.{holds, count, holds-count, count_holder}
use andsifr.Epochs.Valid.{IsValid, step-IsValid, Reachable-IsValid}
use andsifr.Epochs.Sweep.{Sweeps, Waits, Passes, Move-Passes}

-- The head of the queue, while it is empty, has a call that collects it.
IsSwept : System → Type 0
IsSwept x =
    (e : ℕ) (q : List ℕ)
    → Waits x.shared e q
    → (i : ℕ) × (i < length x.calls) × Sweeps e (get_or x.calls i idle)

-- The call that collects is another than the one that moved.
other-Sweeps :
    (calls : List Phase) (i k e : ℕ) (p' : Phase)
    → i < length calls
    → (Sweeps e (get_or calls i idle) → ⊥)
    → Sweeps e (get_or calls k idle)
    → Sweeps e (get_or (set calls i p') k idle)
other-Sweeps calls i k e p' h not_it sweeps = elim (Bool-cases (i == k)) [
  | inl same ↦
      let eq : i ≡ k = ground arith in
      absurd (not_it (subst (λ n. Sweeps e (get_or calls n idle)) (sym eq) sweeps))
  | inr other ↦ rw (get_or-set calls i k p' idle h, other) sweeps
]

step-IsSwept :
    (s s' : Shared) (calls : List Phase) (i : ℕ) (p' : Phase)
    → i < length calls
    → Move s (get_or calls i idle) s' p'
    → IsValid (record { shared = s; calls = calls })
    → IsSwept (record { shared = s; calls = calls })
    → IsSwept (record { shared = s'; calls = set calls i p' })
unfolding IsSwept Passes
step-IsSwept s s' calls i p' h move v before e q w =
    let v' : IsValid (record { shared = s'; calls = set calls i p' }) =
      step-IsValid s s' calls i p' h move v in
    let now : get_or (set calls i p') i idle ≡ p' = get_or-set_self calls i p' idle h in
    let inside : i < length (set calls i p') = rw (length-set calls i p') h in
    let counted : holds e p' ≤ s'.active e =
      (let k : holds e (get_or (set calls i p') i idle) ≤ count e (set calls i p') =
          holds-count e (set calls i p') i inside in
        omega (arith, rw now at k, v'.counts e)) in
    elim (Move-Passes e q v.order counted move w) [
      | inl mover ↦ (i, inside, rw now mover)
      | inr (waited, not_it) ↦
          let (k, within, sweeps) = before e q waited in
          (k, rw (length-set calls i p') within, other-Sweeps calls i k e p' h not_it sweeps)
    ]

Reachable-IsSwept : (x : System) → Reachable x → IsSwept x
unfolding IsSwept
Reachable-IsSwept x (begins calls few all) e q w = absurd (let no : [] ≡ e ∷ q = w.head in cc)
Reachable-IsSwept x (more {x = y} r (step s s' calls i p' h move)) e q w =
    step-IsSwept s s' calls i p' h move (Reachable-IsValid y r) (Reachable-IsSwept y r) e q w

-- Calls of which none is between two atomic operations of the three methods.
pub data Quiet : Phase → Type 0 where
  at_rest : Quiet idle
  in_guest : (e : ℕ) → Quiet (running e)

Quiet-Sweeps : (e : ℕ) (p : Phase) → Quiet p → Sweeps e p → ⊥
Quiet-Sweeps e p at_rest h = h
Quiet-Sweeps e p (in_guest x) h = h

Quiet-holds : (e : ℕ) (p : Phase) → Quiet p → holds e p ≡ 1 → p ≡ running e
unfolding holds
Quiet-holds e p at_rest h = cc
Quiet-holds e p (in_guest x) h = ap running (ground arith)

-- In every reachable state in which each call is idle or runs guest code, the first of the epochs
-- that have memories to free is held by a call that runs in it: nothing waits that no call will
-- collect when it ends.
pub Quiet-queue :
    (x : System) (e : ℕ) (q : List ℕ)
    → Reachable x
    → All Quiet x.calls
    → x.shared.queue ≡ e ∷ q
    → (j : ℕ) × (j < length x.calls) × (get_or x.calls j idle ≡ running e)
unfolding IsSwept
Quiet-queue x e q r quiet here = elim (Bool-cases (x.shared.active e == 0)) [
  | inl empty ↦
      let (i, within, sweeps) =
        Reachable-IsSwept x r e q (record { head = here; empty = ground arith }) in
      absurd (
        Quiet-Sweeps e (get_or x.calls i idle) (All-get_or Quiet x.calls i idle quiet at_rest)
          sweeps)
  | inr busy ↦
      let counts : x.shared.active e ≡ count e x.calls = (Reachable-IsValid x r).counts e in
      let (j, within, holder) = count_holder e x.calls (ground arith) in
      (
        j,
        within,
        Quiet-holds e (get_or x.calls j idle) (All-get_or Quiet x.calls j idle quiet at_rest)
            holder,
      )
]
