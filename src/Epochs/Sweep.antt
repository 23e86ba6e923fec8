-- ===== src/Epochs/Sweep.antt =====
-- The memories that wait are not forgotten: while the head of the queue is empty, a call is on its way
-- to collect it.
use andsifr.Common.{
  ℕ, ◌≤◌, ◌≡◌, ◌⊎◌, refl, inl, inr, false, List, [], ◌∷◌, ◌==◌, Bool-cases, Option-cases, arith,
  subst, sym, ap, ◌∙◌,
}
use andsifr.Epochs.{
  Shared, Phase, idle, absent, loaded, pinned, confirmed, running, ending, emptied, sweeping,
  collecting, freeing, is_current, create, pin, unpin, released, compare_current, collect, sealed,
  Move, loads, creates, pins, confirms, enters, ends, releases, compares, locks, collects, frees,
  returns, retires,
}
use andsifr.Epochs.Count.{holds}
use andsifr.Epochs.Order.{Rising, IsOrdered, is_current-sealed}

-- A call that will collect an epoch that is empty.
abbrev pub Sweeps : ℕ → Phase → Type 0
Sweeps e idle = ⊥
Sweeps e absent = ⊥
Sweeps e (loaded x) = ⊥
Sweeps e (pinned x) = ⊥
Sweeps e (confirmed x) = ⊥
Sweeps e (running x) = ⊥
Sweeps e (ending x) = ⊥
Sweeps e (emptied x) = x ≡ e
Sweeps e sweeping = Unit {0}
Sweeps e (collecting got) = Unit {0}
Sweeps e (freeing got) = ⊥

pub record Waits (s : Shared) (e : ℕ) (q : List ℕ) : Type 0 where
  pub head : s.queue ≡ e ∷ q
  pub empty : s.active e ≡ 0

-- The call that moved collects the head, or the head waited before and another call collects it.
unfoldable pub Passes : Shared → Phase → Phase → ℕ → List ℕ → Type 0
Passes s p p' e q = Sweeps e p' ⊎ (Waits s e q × (Sweeps e p → ⊥))

create-Waits : (s : Shared) (e : ℕ) (q : List ℕ) → Waits (create s) e q → Waits s e q
unfolding create
create-Waits s e q w = elim (Option-cases s.current) [
  | inl nothing ↦ record {
    head = rw (create, nothing) at w.head;
    empty = rw (create, nothing) at w.empty;
  }
  | inr (c, there) ↦ record {
    head = rw (create, there) at w.head;
    empty = rw (create, there) at w.empty;
  }
]

compare_current-Sweeps :
    (s : Shared) (e : ℕ) (q : List ℕ)
    → IsOrdered s
    → s.queue ≡ e ∷ q
    → Sweeps e (compare_current s e)
unfolding compare_current sealed
compare_current-Sweeps s e q o here = elim (Bool-cases (is_current s e)) [
  | inl now ↦
      let r : Rising (e ∷ q) (sealed s) = rw here at o.rising in
      absurd (omega (arith, r.0, is_current-sealed s e now))
  | inr sealed_off ↦ rw sealed_off tt
]

compare_other :
    (s : Shared) (x e : ℕ) (q : List ℕ)
    → IsOrdered s
    → Waits s e q
    → Passes s (emptied x) (compare_current s x) e q
unfolding Passes
compare_other s x e q o w = elim (Bool-cases (x == e)) [
  | inl same ↦
      let eq : x ≡ e = ground arith in
      inl (
        subst (λ y. Sweeps e (compare_current s y)) (sym eq)
          (compare_current-Sweeps s e q o w.head))
  | inr other ↦ inr (w, λ eq. ground arith)
]

collect-Sweeps :
    (s : Shared) (got l : List ℕ) (e : ℕ) (q : List ℕ)
    → s.queue ≡ l
    → Waits (collect s got l).0 e q
    → Sweeps e (collect s got l).1
unfolding collect
collect-Sweeps s got [] e q here w = absurd (let no : [] ≡ e ∷ q = sym here ∙ w.head in cc)
collect-Sweeps s got (x ∷ l) e q here w = elim (Bool-cases (s.active x == 0)) [
  | inl empty ↦ rw empty tt
  | inr busy ↦
      let w' : Waits (record s { locked = false }) e q = rw busy at w in
      let same : x ≡ e = (let heads : x ∷ l ≡ e ∷ q = sym here ∙ w'.head in cc) in
      absurd (let none_left : s.active x ≡ 0 = ap s.active same ∙ w'.empty in ground arith)
]

release-Passes :
    (s : Shared) (x e : ℕ) (q : List ℕ)
    → Waits (unpin s x) e q
    → Passes s (ending x) (released (unpin s x) x) e q
unfolding released unpin Passes
release-Passes s x e q w = elim (Bool-cases (e == x)) [
  | inl same ↦
      let eq : x ≡ e = ground arith in
      let zero_now : (unpin s x).active x ≡ 0 = ap (unpin s x).active eq ∙ w.empty in
      inl (rw zero_now eq)
  | inr other ↦ inr (record { head = w.head; empty = rw other at w.empty }, λ h. h)
]

pin-Passes :
    (s : Shared) (x e : ℕ) (q : List ℕ)
    → holds e (pinned x) ≤ (pin s x).active e
    → Waits (pin s x) e q
    → Passes s (loaded x) (pinned x) e q
unfolding pin Passes holds
pin-Passes s x e q h w = elim (Bool-cases (e == x)) [
  | inl same ↦ absurd (ground (arith, w.empty))
  | inr other ↦ inr (record { head = w.head; empty = rw other at w.empty }, λ k. k)
]

pub Move-Passes :
    {s s' : Shared} {p p' : Phase} (e : ℕ) (q : List ℕ)
    → IsOrdered s
    → holds e p' ≤ s'.active e
    → Move s p s' p'
    → Waits s' e q
    → Passes s p p' e q
unfolding Passes
Move-Passes e q o h (loads s) w = inr (w, λ k. k)
Move-Passes e q o h (creates s) w = inr (create-Waits s e q w, λ k. k)
Move-Passes e q o h (pins s x) w = pin-Passes s x e q h w
Move-Passes e q o h (confirms s x) w = inr (w, λ k. k)
Move-Passes e q o h (enters s x closed) w = inr (w, λ k. k)
Move-Passes e q o h (ends s x) w = inr (w, λ k. k)
Move-Passes e q o h (releases s x) w = release-Passes s x e q w
Move-Passes e q o h (compares s x) w = compare_other s x e q o w
Move-Passes e q o h (locks s free) w = inl tt
Move-Passes e q o h (collects s got) w = inl (collect-Sweeps s got s.queue e q refl w)
Move-Passes e q o h (frees s m rest) w = inr (record { head = w.head; empty = w.empty }, λ k. k)
Move-Passes e q o h (returns s) w = inr (w, λ k. k)
Move-Passes e q o h (retires s m memories free) w = inl tt
