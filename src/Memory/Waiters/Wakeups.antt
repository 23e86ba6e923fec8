-- ===== src/Memory/Waiters/Wakeups.antt =====
-- No wake-up is lost, and none is given to a call that does not wait at the offset.
use andsifr.Common.{
  ℕ, zero, suc, ◌≤◌, ◌<◌, ◌≡◌, refl, sym, ap, ◌∙◌, ◌⊎◌, inl, inr, Bool, true, some, List, [], ◌∷◌,
  ltb, length, take, drop, min, Bool-cases, Option-cases, arith,
}
use andsifr.Common.Outcome.{ok}
use andsifr.Memory.Waiters.{Waiters, queue, notify, System, Reachable}
use andsifr.Memory.Waiters.Account.{count, IsAccounted}
use andsifr.Memory.Waiters.Wake.{Notified, notify_lem, count-take-drop}
use andsifr.Memory.Waiters.Reach.{Fits-IsAccounted, Reachable-IsAccounted}

count-drop_all : (c k : ℕ) (l : List ℕ) → length l ≤ k → count c (drop k l) ≡ 0
count-drop_all c zero [] h = refl
count-drop_all c zero (x ∷ l) h = absurd (omega arith)
count-drop_all c (suc k) [] h = refl
count-drop_all c (suc k) (x ∷ l) h = count-drop_all c k l (omega arith)

-- In every reachable state Notify returns (it closes no channel twice), with the smaller of its
-- count and the number of waiters; it closes the channels of the first so many of the queue, and
-- takes these off, changing no other queue; and a channel that it closes belongs to a call
-- suspended at its offset.
pub notify_woken :
    (s : System) (offset k : ℕ)
    → Reachable s
    → (w : Waiters) × (notify s.waiters offset k ≡ ok (w, min k (length (queue s.waiters offset))))
      × Notified s.waiters w offset k
      × ((c : ℕ)
          → w.closed c ≡ true
          → (s.waiters.closed c ≡ true) ⊎ ((timed : Bool) × (s.blocked c ≡ some (offset, timed))))
notify_woken s offset k r =
    let a = Reachable-IsAccounted s r in
    let (w, run, p) = notify_lem s.waiters offset k (Fits-IsAccounted s offset a) in
    (
      w,
      run,
      p,
      λ c closed. elim (Bool-cases (ltb 0 (count c (take k (queue s.waiters offset))))) [
        | inl woken ↦ inr (waits c a (ground (arith, count-take-drop c k (queue s.waiters offset))))
        | inr other ↦ inl (sym (p.closed c ∙ rw other) ∙ closed)
      ],
    )
  where
    waits :
        (c : ℕ)
        → IsAccounted s
        → 0 < count c (queue s.waiters offset)
        → (timed : Bool) × (s.blocked c ≡ some (offset, timed))
    waits c a h = elim (Option-cases (s.blocked c)) [
      | inl free ↦ absurd (ground (arith, a.accounts offset c))
      | inr ((at, timed), b) ↦ (
        timed,
        let e : at ≡ offset = ground (arith, a.accounts offset c) in
            b ∙ ap (λ o. some (o, timed)) e,
      )
    ]

-- In every reachable state, when a call is suspended at an offset and a Notify there of at least
-- as many as wait returns, the channel of the call is closed.
pub no_lost_wakeup :
    (s : System) (offset k c n : ℕ) (timed : Bool) (w : Waiters)
    → Reachable s
    → s.blocked c ≡ some (offset, timed)
    → length (queue s.waiters offset) ≤ k
    → notify s.waiters offset k ≡ ok (w, n)
    → w.closed c ≡ true
no_lost_wakeup s offset k c n timed w r b all run =
    let a = Reachable-IsAccounted s r in
    let (w', run', p) = notify_lem s.waiters offset k (Fits-IsAccounted s offset a) in
    let same : w' ≡ w = cc in
    ap (λ (x : Waiters). x.closed c) (sym same)
    ∙ ground (
      arith,
      p.closed c,
      b,
      a.accounts offset c,
      count-take-drop c k (queue s.waiters offset),
      count-drop_all c k (queue s.waiters offset),
    )
