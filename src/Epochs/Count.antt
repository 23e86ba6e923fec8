-- ===== src/Epochs/Count.antt =====
-- The counter of an epoch is the number of calls that hold it.
use andsifr.Common.{
  ℕ, zero, suc, ◌+◌, ◌^◌, ◌<◌, ◌≤◌, ◌≡◌, refl, inl, inr, Bool, true, false, Option, none, some,
  List, [], ◌∷◌, ◌==◌, if◌then◌else◌, length, get_or, set, All, Bool-cases, Option-cases, arith,
  sym, ap, ◌∙◌,
}
use andsifr.Epochs.{
  Shared, Phase, idle, absent, loaded, pinned, confirmed, running, ending, emptied, sweeping,
  collecting, freeing, is_current, load_current, create, pin, unpin, confirm, enter, released,
  compare_current, collect, retire, Move, loads, creates, pins, confirms, enters, ends, releases,
  compares, locks, collects, frees, returns, retires,
}

abbrev pub one_if : Bool → ℕ
one_if true = 1
one_if false = 0

-- 1 for a call between its Add(1) and its Add(-1) on the epoch.
unfoldable pub holds : ℕ → Phase → ℕ
holds e idle = 0
holds e absent = 0
holds e (loaded x) = 0
holds e (pinned x) = one_if (x == e)
holds e (confirmed x) = one_if (x == e)
holds e (running x) = one_if (x == e)
holds e (ending x) = one_if (x == e)
holds e (emptied x) = 0
holds e sweeping = 0
holds e (collecting got) = 0
holds e (freeing got) = 0

unfoldable pub count : ℕ → List Phase → ℕ
count e [] = 0
count e (p ∷ calls) = holds e p + count e calls

pub count-set :
    (e : ℕ) (calls : List Phase) (i : ℕ) (p : Phase)
    → i < length calls
    → count e (set calls i p) + holds e (get_or calls i idle) ≡ count e calls + holds e p
unfolding count
count-set e [] i p h = absurd (omega arith)
count-set e (q ∷ calls) zero p h = omega arith
count-set e (q ∷ calls) (suc i) p h = omega (arith, count-set e calls i p (omega arith))

pub holds-pinned : (e : ℕ) → holds e (pinned e) ≡ 1
unfolding holds
holds-pinned e = ground arith

one_if-le : (b : Bool) → one_if b ≤ 1
one_if-le true = omega arith
one_if-le false = omega arith

holds-le : (e : ℕ) (p : Phase) → holds e p ≤ 1
unfolding holds
holds-le e idle = omega arith
holds-le e absent = omega arith
holds-le e (loaded x) = omega arith
holds-le e (pinned x) = one_if-le (x == e)
holds-le e (confirmed x) = one_if-le (x == e)
holds-le e (running x) = one_if-le (x == e)
holds-le e (ending x) = one_if-le (x == e)
holds-le e (emptied x) = omega arith
holds-le e sweeping = omega arith
holds-le e (collecting got) = omega arith
holds-le e (freeing got) = omega arith

pub count-le : (e : ℕ) (calls : List Phase) → count e calls ≤ length calls
unfolding count
count-le e [] = omega arith
count-le e (p ∷ calls) = omega (arith, holds-le e p, count-le e calls)

pub holds-count :
    (e : ℕ) (calls : List Phase) (i : ℕ)
    → i < length calls
    → holds e (get_or calls i idle) ≤ count e calls
unfolding count
holds-count e [] i h = absurd (omega arith)
holds-count e (p ∷ calls) zero h = omega arith
holds-count e (p ∷ calls) (suc i) h = omega (arith, holds-count e calls i (omega arith))

pub count_holder :
    (e : ℕ) (calls : List Phase)
    → 1 ≤ count e calls
    → (i : ℕ) × (i < length calls) × (holds e (get_or calls i idle) ≡ 1)
unfolding count
count_holder e [] h = absurd (omega arith)
count_holder e (p ∷ calls) h = elim (Bool-cases (holds e p == 0)) [
  | inl none_here ↦
      let (i, within, holder) = count_holder e calls (ground arith) in (suc i, omega arith, holder)
  | inr here ↦ (0, omega arith, ground (arith, holds-le e p))
]

pub count_idle : (e : ℕ) (calls : List Phase) → All (λ p. p ≡ idle) calls → count e calls ≡ 0
unfolding count holds
count_idle e [] h = refl
count_idle e (p ∷ calls) h = rw h.0 (omega (arith, count_idle e calls h.1))

if-holds :
    (e k : ℕ) (b : Bool) (p q : Phase)
    → holds e p ≡ k
    → holds e q ≡ k
    → holds e (if b then p else q) ≡ k
if-holds e k true p q h h' = h
if-holds e k false p q h h' = h'

load_current-holds :
    (e : ℕ) (o : Option ℕ) → holds e (elim o [ none ↦ absent | some x ↦ loaded x ]) ≡ 0
unfolding holds
load_current-holds e none = refl
load_current-holds e (some x) = refl

create-active : (e : ℕ) (s : Shared) → (create s).active e ≡ s.active e
unfolding create
create-active e s = elim (Option-cases s.current) [
  | inl nothing ↦ rw (create, nothing) refl
  | inr (c, there) ↦ rw (create, there) refl
]

collect-active :
    (e : ℕ) (s : Shared) (got q : List ℕ)
    → ((collect s got q).0.active e ≡ s.active e) × (holds e (collect s got q).1 ≡ 0)
unfolding collect holds
collect-active e s got [] = (refl, refl)
collect-active e s got (x ∷ q) = elim (Bool-cases (s.active x == 0)) [
  | inl empty ↦ rw empty (refl, refl)
  | inr busy ↦ rw busy (refl, refl)
]

-- Where `n` other calls hold the epoch, a step keeps its counter right.
pub Move-active :
    {s s' : Shared} {p p' : Phase} (e n : ℕ)
    → n + 1 < 2 ^ 64
    → s.active e ≡ n + holds e p
    → Move s p s' p'
    → s'.active e ≡ n + holds e p'
unfolding holds load_current create pin unpin confirm enter released compare_current collect retire
Move-active e n few a (loads s) = a ∙ ap (λ k. n + k) (sym (load_current-holds e s.current))
Move-active e n few a (creates s) = create-active e s ∙ a
Move-active e n few a (pins s x) = elim (Bool-cases (x == e)) [
  | inl same ↦ (let eq : x ≡ e = ground arith in ground (arith, ap s.active eq))
  | inr differ ↦ ground arith
]
Move-active e n few a (confirms s x) =
    a
    ∙ ap (λ k. n + k)
        (sym (if-holds e (one_if (x == e)) (is_current s x) (confirmed x) (ending x) refl refl))
Move-active e n few a (enters s x true) = a
Move-active e n few a (enters s x false) = a
Move-active e n few a (ends s x) = a
Move-active e n few a (releases s x) =
    let gone : holds e (released (unpin s x) x) ≡ 0 =
      if-holds e 0 ((unpin s x).active x == 0) (emptied x) idle refl refl in
    elim (Bool-cases (x == e)) [
      | inl same ↦ (let eq : x ≡ e = ground arith in ground (arith, ap s.active eq, gone))
      | inr differ ↦ ground (arith, gone)
    ]
Move-active e n few a (compares s x) =
    a ∙ ap (λ k. n + k) (sym (if-holds e 0 (is_current s x) idle sweeping refl refl))
Move-active e n few a (locks s free) = a
Move-active e n few a (collects s got) =
    let (same, free) = collect-active e s got s.queue in omega (arith, same, free, a)
Move-active e n few a (frees s m rest) = a
Move-active e n few a (returns s) = a
Move-active e n few a (retires s m memories free) = a
