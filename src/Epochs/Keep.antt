-- ===== src/Epochs/Keep.antt =====
-- What a step frees and takes off the queue while a call is in flight.
use andsifr.Common.{
  ℕ, ◌<◌, ◌≤◌, ◌≡◌, ◌≢◌, ◌⊎◌, refl, inl, inr, Bool, true, false, Option, none, some, List, [], ◌∷◌,
  ◌++◌, ◌==◌, if◌then◌else◌, All, All-append, Bool-cases, Option-cases, arith, sym, ap, ◌∙◌,
}
use andsifr.Epochs.{
  Shared, Phase, idle, absent, loaded, pinned, confirmed, running, ending, emptied, sweeping,
  collecting, freeing, is_current, at, load_current, create, pin, unpin, confirm, enter, released,
  compare_current, collect, sealed, retire, Move, loads, creates, pins, confirms, enters, ends,
  releases, compares, locks, collects, frees, returns, retires,
}
use andsifr.Epochs.Order.{Rising, IsOrdered, In, InEpoch, is_current-sealed}

abbrev pub Without : ℕ → List ℕ → Type 0
Without m l = All (λ x. x ≢ m) l

-- A call that has not taken the memory off an epoch.
abbrev pub Lacks : ℕ → Phase → Type 0
Lacks m idle = Unit {0}
Lacks m absent = Unit {0}
Lacks m (loaded x) = Unit {0}
Lacks m (pinned x) = Unit {0}
Lacks m (confirmed x) = Unit {0}
Lacks m (running x) = Unit {0}
Lacks m (ending x) = Unit {0}
Lacks m (emptied x) = Unit {0}
Lacks m sweeping = Unit {0}
Lacks m (collecting got) = Without m got
Lacks m (freeing got) = Without m got

-- What is freed lacks the memory, and so do the epochs before `e`.
pub record Keeps (e m : ℕ) (s : Shared) : Type 0 where
  pub freed : Without m s.freed
  pub waiting : (x : ℕ) → In x s.queue → x < e → Without m (s.retired x)

if-Lacks : (m : ℕ) (b : Bool) (p q : Phase) → Lacks m p → Lacks m q → Lacks m (if b then p else q)
if-Lacks m true p q h k = h
if-Lacks m false p q h k = k

load_current-Lacks : (m : ℕ) (o : Option ℕ) → Lacks m (elim o [ none ↦ absent | some x ↦ loaded x ])
load_current-Lacks m none = tt
load_current-Lacks m (some x) = tt

Rising-In : (q : List ℕ) (e top : ℕ) → Rising q top → In e q → e < top
Rising-In [] e top r h = absurd h
Rising-In (x ∷ q) e top r (inl same) = omega (arith, r.0)
Rising-In (x ∷ q) e top r (inr h) = Rising-In q e top r.2 h

All-In : (q : List ℕ) (x e : ℕ) → All (λ y. x < y) q → In e q → x < e
All-In [] x e a h = absurd h
All-In (y ∷ q) x e a (inl same) = omega (arith, a.0)
All-In (y ∷ q) x e a (inr h) = All-In q x e a.1 h

In-append_last : (x : ℕ) (q : List ℕ) (t : ℕ) → In x (q ++ (t ∷ [])) → In x q ⊎ (t ≡ x)
In-append_last x [] t (inl h) = inr h
In-append_last x (y ∷ q) t (inl h) = inl (inl h)
In-append_last x (y ∷ q) t (inr h) = elim (In-append_last x q t h) [
  | inl there ↦ inl (inr there)
  | inr last ↦ inr last
]
In-append_last x [] t (inr h) = absurd h

-- The epoch of a call is not after the current one.
InEpoch-sealed : (s : Shared) (e : ℕ) → IsOrdered s → InEpoch s e → e ≤ sealed s
unfolding InEpoch
InEpoch-sealed s e o (inl now) = omega (arith, is_current-sealed s e now)
InEpoch-sealed s e o (inr there) = omega (arith, Rising-In s.queue e (sealed s) o.rising there)

-- An epoch at the head that no call holds is before the epoch of a call.
head_before :
    (s : Shared) (x e : ℕ) (q : List ℕ)
    → Rising (x ∷ q) (sealed s)
    → s.queue ≡ x ∷ q
    → 1 ≤ s.active e
    → s.active x ≡ 0
    → InEpoch s e
    → x < e
unfolding InEpoch
head_before s x e q r here held empty (inl now) = omega (arith, r.0, is_current-sealed s e now)
head_before s x e q r here held empty (inr there) = elim (rw here at there) [
  | inl same ↦
      absurd (let gone : s.active e ≡ 0 = ap s.active (sym same) ∙ empty in omega (arith, gone))
  | inr behind ↦ All-In q x e r.1 behind
]

Without-at :
    (m e : ℕ) (memories : List ℕ) (f : ℕ → List ℕ) (x : ℕ)
    → (x ≡ e → Without m memories)
    → Without m (f x)
    → Without m (at e memories f x)
Without-at m e memories f x new old = elim (Bool-cases (x == e)) [
  | inl same ↦ rw same (new (ground arith))
  | inr other ↦ rw other old
]

collect-Keeps :
    (e m : ℕ) (s : Shared) (got q : List ℕ)
    → s.queue ≡ q
    → Rising q (sealed s)
    → 1 ≤ s.active e
    → InEpoch s e
    → Keeps e m s
    → Without m got
    → Keeps e m (collect s got q).0 × Lacks m (collect s got q).1
unfolding collect
collect-Keeps e m s got [] here r held inside k lacks =
    (record { freed = k.freed; waiting = k.waiting }, lacks)
collect-Keeps e m s got (x ∷ q) here r held inside k lacks = elim (Bool-cases (s.active x == 0)) [
  | inl empty ↦
      let before : x < e = head_before s x e q r here held (ground arith) inside in
      rw empty (
        record {
          freed = k.freed;
          waiting = λ y there early.
              Without-at m x [] s.retired y (λ same. tt) (k.waiting y (rw here (inr there)) early);
        },
        All-append (λ y. y ≢ m) got (s.retired x) lacks (k.waiting x (rw here (inl refl)) before),
      )
  | inr busy ↦ rw busy (record { freed = k.freed; waiting = k.waiting }, lacks)
]

retire-Keeps :
    (e m : ℕ) (s : Shared) (memories : List ℕ)
    → IsOrdered s
    → InEpoch s e
    → Keeps e m s
    → Keeps e m (retire s memories)
unfolding retire
retire-Keeps e m s memories o inside k = record {
  freed = k.freed;
  waiting = λ x there early.
      let late : e ≤ sealed s = InEpoch-sealed s e o inside in
      Without-at m (sealed s) memories s.retired x (λ same. absurd (omega arith))
        (elim (In-append_last x s.queue (sealed s) there) [
          | inl before ↦ k.waiting x before early
          | inr last ↦ absurd (omega arith)
        ]);
}

create-Keeps : (e m : ℕ) (s : Shared) → Keeps e m s → Keeps e m (create s)
unfolding create
create-Keeps e m s k = elim (Option-cases s.current) [
  | inl nothing ↦ rw (create, nothing) (record { freed = k.freed; waiting = k.waiting })
  | inr (c, there) ↦ rw (create, there) k
]

pub Move-Keeps :
    {s s' : Shared} {p p' : Phase} (e m : ℕ)
    → IsOrdered s
    → 1 ≤ s.active e
    → InEpoch s e
    → Move s p s' p'
    → Keeps e m s
    → Lacks m p
    → Keeps e m s' × Lacks m p'
unfolding load_current pin unpin confirm enter released compare_current
Move-Keeps e m o held inside (loads s) k l = (k, load_current-Lacks m s.current)
Move-Keeps e m o held inside (creates s) k l = (create-Keeps e m s k, tt)
Move-Keeps e m o held inside (pins s x) k l = (record { freed = k.freed; waiting = k.waiting }, tt)
Move-Keeps e m o held inside (confirms s x) k l =
    (k, if-Lacks m (is_current s x) (confirmed x) (ending x) tt tt)
Move-Keeps e m o held inside (enters s x closed) k l =
    (k, if-Lacks m closed (ending x) (running x) tt tt)
Move-Keeps e m o held inside (ends s x) k l = (k, tt)
Move-Keeps e m o held inside (releases s x) k l = (
  record { freed = k.freed; waiting = k.waiting },
  if-Lacks m ((unpin s x).active x == 0) (emptied x) idle tt tt,
)
Move-Keeps e m o held inside (compares s x) k l =
    (k, if-Lacks m (is_current s x) idle sweeping tt tt)
Move-Keeps e m o held inside (locks s free) k l =
    (record { freed = k.freed; waiting = k.waiting }, tt)
Move-Keeps e m o held inside (collects s got) k l =
    collect-Keeps e m s got s.queue refl o.rising held inside k l
Move-Keeps e m o held inside (frees s x rest) k l =
    (record { freed = (l.0, k.freed); waiting = k.waiting }, l.1)
Move-Keeps e m o held inside (returns s) k l = (k, tt)
Move-Keeps e m o held inside (retires s x memories free) k l =
    (retire-Keeps e m s (x ∷ memories) o inside k, tt)
