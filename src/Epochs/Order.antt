-- ===== src/Epochs/Order.antt =====
-- The sealed epochs are queued in the order of their allocation, before the current one.
use andsifr.Common.{
  ℕ, ◌<◌, ◌≤◌, ◌≡◌, ◌⊎◌, refl, inl, inr, true, false, Option, none, some, List, [], ◌∷◌, ◌++◌, ◌==◌,
  All, All-append, Bool-cases, Option-cases, arith, subst, sym, ap, ◌∙◌,
}
use andsifr.Epochs.{
  Shared, Phase, is_current, create, pin, unpin, collect, sealed, fresh, retire, Move, loads,
  creates, pins, confirms, enters, ends, releases, compares, locks, collects, frees, returns,
  retires,
}

abbrev pub Rising : List ℕ → ℕ → Type 0
Rising [] top = Unit {0}
Rising (e ∷ q) top = (e < top) × All (λ x. e < x) q × Rising q top

All-above :
    (q : List ℕ) (e top : ℕ) → All (λ x. e < x) q → e < top → All (λ x. e < x) (q ++ (top ∷ []))
All-above q e top h k = All-append (λ x. e < x) q (top ∷ []) h (k, tt)

Rising-append :
    (q : List ℕ) (top top' : ℕ) → Rising q top → top < top' → Rising (q ++ (top ∷ [])) top'
Rising-append [] top top' r h = (h, tt, tt)
Rising-append (e ∷ q) top top' r h =
    (omega (arith, r.0), All-above q e top r.1 r.0, Rising-append q top top' r.2 h)

pub record IsOrdered (s : Shared) : Type 0 where
  pub rising : Rising s.queue (sealed s)
  pub below : sealed s < fresh s

create-IsOrdered : (s : Shared) → IsOrdered s → IsOrdered (create s)
unfolding create sealed fresh
create-IsOrdered s o = elim (Option-cases s.current) [
  | inl nothing ↦ record {
    rising = rw (create, nothing) (rw nothing at o.rising);
    below = rw (create, nothing) (omega arith);
  }
  | inr (c, there) ↦ record {
    rising = rw (create, there, there) (rw there at o.rising);
    below = rw (create, there, there) (rw there at o.below);
  }
]

collect-IsOrdered :
    (s : Shared) (got q : List ℕ)
    → Rising q (sealed s)
    → s.queue ≡ q
    → sealed s < fresh s
    → IsOrdered (collect s got q).0
unfolding collect sealed fresh
collect-IsOrdered s got [] r here h = record { rising = rw here tt; below = h }
collect-IsOrdered s got (e ∷ q) r here h = elim (Bool-cases (s.active e == 0)) [
  | inl empty ↦ rw empty (record { rising = r.2; below = h })
  | inr busy ↦ rw busy (record { rising = rw here r; below = h })
]

retire-IsOrdered : (s : Shared) (memories : List ℕ) → IsOrdered s → IsOrdered (retire s memories)
unfolding retire sealed fresh
retire-IsOrdered s memories o = record {
  rising = Rising-append s.queue (sealed s) (fresh s) o.rising o.below;
  below = omega arith;
}

pub Move-IsOrdered : {s s' : Shared} {p p' : Phase} → IsOrdered s → Move s p s' p' → IsOrdered s'
unfolding pin unpin sealed fresh
Move-IsOrdered o (loads s) = o
Move-IsOrdered o (creates s) = create-IsOrdered s o
Move-IsOrdered o (pins s x) = record { rising = o.rising; below = o.below }
Move-IsOrdered o (confirms s x) = o
Move-IsOrdered o (enters s x closed) = o
Move-IsOrdered o (ends s x) = o
Move-IsOrdered o (releases s x) = record { rising = o.rising; below = o.below }
Move-IsOrdered o (compares s x) = o
Move-IsOrdered o (locks s free) = record { rising = o.rising; below = o.below }
Move-IsOrdered o (collects s got) = collect-IsOrdered s got s.queue o.rising refl o.below
Move-IsOrdered o (frees s m rest) = record { rising = o.rising; below = o.below }
Move-IsOrdered o (returns s) = o
Move-IsOrdered o (retires s m memories free) = retire-IsOrdered s (m ∷ memories) o

-- An epoch that retired memories may wait for: the current one, or one that is queued.
abbrev pub In : ℕ → List ℕ → Type 0
In e [] = ⊥
In e (x ∷ q) = (x ≡ e) ⊎ In e q

unfoldable pub InEpoch : Shared → ℕ → Type 0
InEpoch s e = (is_current s e ≡ true) ⊎ In e s.queue

In-append : (e : ℕ) (q q' : List ℕ) → In e q → In e (q ++ q')
In-append e (x ∷ q) q' (inl h) = inl h
In-append e (x ∷ q) q' (inr h) = inr (In-append e q q' h)
In-append e [] q' h = absurd h

In-last : (e : ℕ) (q : List ℕ) → In e (q ++ (e ∷ []))
In-last e [] = inl refl
In-last e (x ∷ q) = inr (In-last e q)

current_sealed :
    (o : Option ℕ) (e n : ℕ)
    → elim o [ none ↦ false | some c ↦ c == e ] ≡ true
    → elim o [ none ↦ n | some c ↦ c ] ≡ e
current_sealed none e n h = cc
current_sealed (some c) e n h = ground arith

pub is_current-sealed : (s : Shared) (e : ℕ) → is_current s e ≡ true → sealed s ≡ e
unfolding is_current sealed
is_current-sealed s e h = current_sealed s.current e s.next h

create-InEpoch : (s : Shared) (e : ℕ) → InEpoch s e → InEpoch (create s) e
unfolding create InEpoch is_current
create-InEpoch s e h = elim (Option-cases s.current) [
  | inl nothing ↦
      rw (create, nothing)
        (elim h [
          | inl now ↦ absurd (let no : false ≡ true = rw nothing at now in cc)
          | inr there ↦ inr there
        ])
  | inr (c, there) ↦ rw (create, there) h
]

-- An epoch that is held is not taken off the queue.
collect-InEpoch :
    (s : Shared) (got q : List ℕ) (e : ℕ)
    → 1 ≤ s.active e
    → s.queue ≡ q
    → InEpoch s e
    → InEpoch (collect s got q).0 e
unfolding collect InEpoch is_current
collect-InEpoch s got [] e held here h = h
collect-InEpoch s got (x ∷ q) e held here h = elim (Bool-cases (s.active x == 0)) [
  | inl empty ↦ rw empty (elim h [
    | inl now ↦ inl now
    | inr there ↦ elim (rw here at there) [
      | inl same ↦
          absurd (
            let gone : s.active e ≡ 0 = ap s.active (sym same) ∙ ground arith in
            omega (arith, gone))
      | inr behind ↦ inr behind
    ]
  ])
  | inr busy ↦ rw busy h
]

retire-InEpoch :
    (s : Shared) (memories : List ℕ) (e : ℕ) → InEpoch s e → InEpoch (retire s memories) e
unfolding retire InEpoch
retire-InEpoch s memories e (inl now) = inr (
    subst (λ x. In x (s.queue ++ (sealed s ∷ []))) (is_current-sealed s e now)
      (In-last (sealed s) s.queue))
retire-InEpoch s memories e (inr there) = inr (In-append e s.queue (sealed s ∷ []) there)

pub Move-InEpoch :
    {s s' : Shared} {p p' : Phase} (e : ℕ)
    → 1 ≤ s.active e
    → Move s p s' p'
    → InEpoch s e
    → InEpoch s' e
unfolding pin unpin InEpoch is_current
Move-InEpoch e held (loads s) h = h
Move-InEpoch e held (creates s) h = create-InEpoch s e h
Move-InEpoch e held (pins s x) h = h
Move-InEpoch e held (confirms s x) h = h
Move-InEpoch e held (enters s x closed) h = h
Move-InEpoch e held (ends s x) h = h
Move-InEpoch e held (releases s x) h = h
Move-InEpoch e held (compares s x) h = h
Move-InEpoch e held (locks s free) h = h
Move-InEpoch e held (collects s got) h = collect-InEpoch s got s.queue e held refl h
Move-InEpoch e held (frees s m rest) h = h
Move-InEpoch e held (returns s) h = h
Move-InEpoch e held (retires s m memories free) h = retire-InEpoch s (m ∷ memories) e h
