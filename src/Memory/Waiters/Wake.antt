-- ===== src/Memory/Waiters/Wake.antt =====
-- Notify closes the channels of the calls that wait longest, and takes them off the queue.
use andsifr.Common.{
  ℕ, zero, suc, ◌+◌, ◌-◌, ◌≤◌, ◌≡◌, refl, sym, ap, subst, ◌∙◌, inl, inr, Bool, true, false, Option,
  none, some, List, [], ◌∷◌, ltb, ◌==◌, if◌then◌else◌, length, take, drop, min, Bool-cases, arith,
}
use andsifr.Common.Outcome.{ok}
use andsifr.Memory.Waiters.{Waiters, update, list_of, queue, close, notify_loop, notify}
use andsifr.Memory.Waiters.Account.{count, list_of-update}

pub count-take-drop : (c k : ℕ) (l : List ℕ) → count c (take k l) + count c (drop k l) ≡ count c l
count-take-drop c zero l = omega arith
count-take-drop c (suc k) [] = omega arith
count-take-drop c (suc k) (x ∷ l) = ground (arith, count-take-drop c k l)

drop-nil {ℓ} : {A : Type ℓ} (k : ℕ) → drop {A = A} k [] ≡ []
drop-nil zero = refl
drop-nil (suc k) = refl

take-nil {ℓ} : {A : Type ℓ} (k : ℕ) → take {A = A} k [] ≡ []
take-nil zero = refl
take-nil (suc k) = refl

-- The channels of a list closed, one by one.
abbrev close_all : List ℕ → (ℕ → Bool) → ℕ → Bool
close_all [] f = f
close_all (x ∷ l) f = close_all l (update x true f)

close_all_lem :
    (l : List ℕ) (f : ℕ → Bool) (c : ℕ)
    → close_all l f c ≡ (if ltb 0 (count c l) then true else f c)
close_all_lem [] f c = refl
close_all_lem (x ∷ l) f c = ground (arith, close_all_lem l (update x true f) c)

-- No channel stands twice in the list, and none that is closed.
abbrev pub Fits : (ℕ → Bool) → List ℕ → Type 0
Fits f l = (c : ℕ) → count c l + (if f c then 1 else 0) ≤ 1

notify_loop_lem :
    (k res : ℕ) (f : ℕ → Bool) (l : List ℕ)
    → Fits f l
    → notify_loop k res f l
      ≡ ok (close_all (take (k - res) l) f, drop (k - res) l, res + min (k - res) (length l))
unfolding notify_loop close
notify_loop_lem k res f [] h =
    rw (take-nil {A = ℕ} (k - res), drop-nil {A = ℕ} (k - res))
      (ap (λ n. ok (f, [], n)) (omega arith))
notify_loop_lem k res f (x ∷ l) h = elim (Bool-cases (ltb res k)) [
  | inl more ↦
      let next : k - res ≡ suc (k - (res + 1)) = ground arith in
      let isopen : f x ≡ false = ground (arith, h x) in
      let rest : Fits (update x true f) l = λ c. ground (arith, h c) in
      let n : res + 1 + min (k - (res + 1)) (length l)
          ≡ res + min (suc (k - (res + 1))) (suc (length l)) =
        omega arith in
      rw (more, next, isopen)
        (notify_loop_lem k (res + 1) (update x true f) l rest
          ∙ ap
              (λ m.
                ok
                  (close_all (take (k - (res + 1)) l) (update x true f), drop (k - (res + 1)) l, m))
              n)
  | inr done ↦
      let over : k - res ≡ 0 = ground arith in
      rw (done, over) (ap (λ m. ok (f, x ∷ l, m)) (omega arith))
]

-- The state `w'` after a Notify of `k` waiters at `offset`.
pub record Notified (w w' : Waiters) (offset k : ℕ) : Type 0 where
  pub queues : (o : ℕ) → queue w' o ≡ (if offset == o then drop k (queue w offset) else queue w o)
  pub closed :
      (c : ℕ)
      → w'.closed c ≡ (if ltb 0 (count c (take k (queue w offset))) then true else w.closed c)
  pub next : w'.next ≡ w.next

unchanged-Notified : (w : Waiters) (offset k : ℕ) → queue w offset ≡ [] → Notified w w offset k
unchanged-Notified w offset k e = record {
  queues = λ o. elim (Bool-cases (offset == o)) [
    | inl same ↦
        let p : offset ≡ o = ground arith in
        rw (same, e, drop-nil {A = ℕ} k) (ap (queue w) (sym p) ∙ e)
    | inr other ↦ rw other
  ];
  closed = λ c. rw (e, take-nil {A = ℕ} k);
  next = refl;
}

-- Notify never closes a channel twice, counts what it wakes, and wakes the first in the queue.
pub notify_lem :
    (w : Waiters) (offset k : ℕ)
    → Fits w.closed (queue w offset)
    → (w' : Waiters) × (notify w offset k ≡ ok (w', min k (length (queue w offset))))
      × Notified w w' offset k
unfolding notify
notify_lem w offset k h = by_lists (w.lists offset) refl
  where
    by_lists :
        (o : Option (Option (List ℕ)))
        → w.lists offset ≡ o
        → (w' : Waiters) × (notify w offset k ≡ ok (w', min k (length (queue w offset))))
          × Notified w w' offset k
    by_lists none e = (
      w,
      rw (notify, e) (ap (λ n. ok (w, n)) (omega arith)),
      unchanged-Notified w offset k (ap list_of e),
    )
    by_lists (some none) e = (
      w,
      rw (notify, e) (ap (λ n. ok (w, n)) (omega arith)),
      unchanged-Notified w offset k (ap list_of e),
    )
    by_lists (some (some l)) e =
        let q : queue w offset ≡ l = ap list_of e in
        let run = notify_loop_lem k 0 w.closed l (subst (Fits w.closed) q h) in
        let all : k - 0 ≡ k = omega arith in
        let woken : 0 + min k (length l) ≡ min k (length l) = omega arith in
        (
          record w {
            lists = update offset (some (some (drop k l))) w.lists;
            closed = close_all (take k l) w.closed;
          },
          rw (notify, e, run, all, woken),
          record {
            queues = λ o. list_of-update w.lists offset o (drop k l) ∙ rw q;
            closed = λ c. close_all_lem (take k l) w.closed c ∙ rw q;
            next = refl;
          },
        )
