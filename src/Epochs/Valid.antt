-- ===== src/Epochs/Valid.antt =====
-- Every step keeps the counters, the order of the epochs and the epochs of the calls.
use andsifr.Common.{
  ℕ, zero, suc, ◌+◌, ◌-◌, ◌^◌, ◌<◌, ◌≤◌, ◌≡◌, refl, inl, inr, Bool, true, false, Option, none, some,
  List, [], ◌∷◌, ◌==◌, if◌then◌else◌, length, get_or, set, All, Bool-cases, arith, subst, sym, ap,
  ◌∙◌, get_or-set, length-set,
}
use andsifr.Epochs.{
  Shared, Phase, idle, absent, loaded, pinned, confirmed, running, ending, emptied, sweeping,
  collecting, freeing, is_current, load_current, unpin, confirm, enter, released, compare_current,
  collect, sealed, fresh, Move, loads, creates, pins, confirms, enters, ends, releases, compares,
  locks, collects, frees, returns, retires, System, step, Reachable, begins, more,
}
use andsifr.Epochs.Count.{
  holds, holds-pinned, count, count-set, count-le, holds-count, count_idle, Move-active,
}
use andsifr.Epochs.Order.{IsOrdered, InEpoch, Move-IsOrdered, Move-InEpoch}

-- A call that BeginExecution has confirmed in the epoch.
abbrev pub Runs : ℕ → Phase → Type 0
Runs e idle = ⊥
Runs e absent = ⊥
Runs e (loaded x) = ⊥
Runs e (pinned x) = ⊥
Runs e (confirmed x) = x ≡ e
Runs e (running x) = x ≡ e
Runs e (ending x) = ⊥
Runs e (emptied x) = ⊥
Runs e sweeping = ⊥
Runs e (collecting got) = ⊥
Runs e (freeing got) = ⊥

pub record IsValid (x : System) : Type 0 where
  pub counts : (e : ℕ) → x.shared.active e ≡ count e x.calls
  pub order : IsOrdered x.shared
  pub held : (k e : ℕ) → k < length x.calls → Runs e (get_or x.calls k idle) → InEpoch x.shared e
  pub few : length x.calls < 2 ^ 64

pub Runs-holds : (e : ℕ) (p : Phase) → Runs e p → holds e p ≡ 1
unfolding holds
Runs-holds e idle h = absurd h
Runs-holds e absent h = absurd h
Runs-holds e (loaded x) h = absurd h
Runs-holds e (pinned x) h = absurd h
Runs-holds e (ending x) h = absurd h
Runs-holds e (emptied x) h = absurd h
Runs-holds e sweeping h = absurd h
Runs-holds e (collecting got) h = absurd h
Runs-holds e (freeing got) h = absurd h
Runs-holds e (confirmed x) h = rw h (ground arith)
Runs-holds e (running x) h = rw h (ground arith)

Runs-if :
    (e : ℕ) (b : Bool) (p q : Phase) (Q : Type 0)
    → (b ≡ true → Runs e p → Q)
    → (b ≡ false → Runs e q → Q)
    → Runs e (if b then p else q)
    → Q
Runs-if e true p q Q on off h = on refl h
Runs-if e false p q Q on off h = off refl h

load_current-Runs :
    (e : ℕ) (o : Option ℕ) → Runs e (elim o [ none ↦ absent | some x ↦ loaded x ]) → ⊥
load_current-Runs e none h = h
load_current-Runs e (some x) h = h

collect-Runs : (s : Shared) (got q : List ℕ) (e : ℕ) → Runs e (collect s got q).1 → ⊥
unfolding collect
collect-Runs s got [] e h = h
collect-Runs s got (x ∷ q) e h = elim (Bool-cases (s.active x == 0)) [
  | inl empty ↦ rw empty at h
  | inr busy ↦ rw busy at h
]

-- The call that moves is confirmed in an epoch that is there.
Move-Runs :
    {s s' : Shared} {p p' : Phase} (e : ℕ)
    → Move s p s' p'
    → (Runs e p → InEpoch s e)
    → Runs e p'
    → InEpoch s' e
unfolding load_current confirm enter released compare_current InEpoch
Move-Runs e (loads s) before h = absurd (load_current-Runs e s.current h)
Move-Runs e (pins s x) before h = absurd h
Move-Runs e (creates s) before h = absurd h
Move-Runs e (confirms s x) before h =
    Runs-if e (is_current s x) (confirmed x) (ending x) (InEpoch s e)
      (λ now same. inl (subst (λ y. is_current s y ≡ true) same now)) (λ off h'. absurd h') h
Move-Runs e (enters s x true) before h = absurd h
Move-Runs e (enters s x false) before h = before h
Move-Runs e (ends s x) before h = absurd h
Move-Runs e (releases s x) before h =
    Runs-if e ((unpin s x).active x == 0) (emptied x) idle _ (λ b h'. absurd h') (λ b h'. absurd h')
      h
Move-Runs e (compares s x) before h =
    Runs-if e (is_current s x) idle sweeping _ (λ b h'. absurd h') (λ b h'. absurd h') h
Move-Runs e (locks s free) before h = absurd h
Move-Runs e (collects s got) before h = absurd (collect-Runs s got s.queue e h)
Move-Runs e (frees s m rest) before h = absurd h
Move-Runs e (returns s) before h = absurd h
Move-Runs e (retires s m memories free) before h = absurd h

-- The counter after a step, from the number of calls that hold the epoch.
step-active :
    (s s' : Shared) (calls : List Phase) (i e : ℕ) (p' : Phase)
    → i < length calls
    → Move s (get_or calls i idle) s' p'
    → length calls < 2 ^ 64
    → s.active e ≡ count e calls
    → s'.active e ≡ count e (set calls i p')
step-active s s' calls i e p' h move few a =
    let p : Phase = get_or calls i idle in
    let n : ℕ = count e calls - holds e p in
    let here : holds e p ≤ count e calls = holds-count e calls i h in
    let others : count e (set calls i (pinned e)) + holds e p ≡ count e calls + 1 =
      count-set e calls i (pinned e) h ∙ ap (λ k. count e calls + k) (holds-pinned e) in
    let bound : count e (set calls i (pinned e)) ≤ length calls =
      subst (λ k. count e (set calls i (pinned e)) ≤ k) (length-set calls i (pinned e))
        (count-le e (set calls i (pinned e))) in
    let after : s'.active e ≡ n + holds e p' =
      Move-active e n (omega arith) (omega (arith, a)) move in
    omega (arith, after, count-set e calls i p' h)

step-held :
    (s s' : Shared) (calls : List Phase) (i k e : ℕ) (p' : Phase)
    → i < length calls
    → k < length calls
    → Move s (get_or calls i idle) s' p'
    → IsValid (record { shared = s; calls = calls })
    → Runs e (if i == k then p' else get_or calls k idle)
    → InEpoch s' e
step-held s s' calls i k e p' h within move v runs = elim (Bool-cases (i == k)) [
  | inl mover ↦ Move-Runs e move (v.held i e h) (rw mover at runs)
  | inr other ↦
      let before : Runs e (get_or calls k idle) = rw other at runs in
      Move-InEpoch e
        (omega (
          arith,
          v.counts e,
          Runs-holds e (get_or calls k idle) before,
          holds-count e calls k within,
        ))
        move (v.held k e within before)
]

pub step-IsValid :
    (s s' : Shared) (calls : List Phase) (i : ℕ) (p' : Phase)
    → i < length calls
    → Move s (get_or calls i idle) s' p'
    → IsValid (record { shared = s; calls = calls })
    → IsValid (record { shared = s'; calls = set calls i p' })
step-IsValid s s' calls i p' h move v = record {
  counts = λ e. step-active s s' calls i e p' h move v.few (v.counts e);
  order = Move-IsOrdered v.order move;
  held = λ k e within runs.
      step-held s s' calls i k e p' h (rw (length-set calls i p') at within) move v
        (rw (get_or-set calls i k p' idle h) at runs);
  few = rw (length-set calls i p') v.few;
}

idle-Runs :
    (calls : List Phase) (k e : ℕ) → All (λ p. p ≡ idle) calls → Runs e (get_or calls k idle) → ⊥
idle-Runs [] k e h runs = runs
idle-Runs (p ∷ calls) zero e h runs = rw h.0 at runs
idle-Runs (p ∷ calls) (suc k) e h runs = idle-Runs calls k e h.1 runs

-- In every reachable state the counter of each epoch is the number of calls between their Add(1)
-- and their Add(-1) on it, the sealed epochs are queued in the order of their allocation before
-- the current one, and the epoch of a confirmed call is the current one or queued.
pub Reachable-IsValid : (x : System) → Reachable x → IsValid x
unfolding sealed fresh
Reachable-IsValid x (begins calls few all) = record {
  counts = λ e. sym (count_idle e calls all);
  order = record { rising = tt; below = omega arith };
  held = λ k e within runs. absurd (idle-Runs calls k e all runs);
  few = few;
}
Reachable-IsValid x (more {x = y} r (step s s' calls i p' h move)) =
    step-IsValid s s' calls i p' h move (Reachable-IsValid y r)
