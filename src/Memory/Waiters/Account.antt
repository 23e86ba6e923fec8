-- ===== src/Memory/Waiters/Account.antt =====
-- Each suspended call whose channel is open stands exactly once in the queue of its offset, and
-- nothing else stands in a queue.
use andsifr.Common.{
  ℕ, suc, ◌+◌, ◌-◌, ◌^◌, ◌≤◌, ◌≡◌, ◌≢◌, refl, sym, ap, ◌∙◌, inl, inr, Bool, false, Option, none,
  some, List, [], ◌∷◌, ◌++◌, ◌==◌, if◌then◌else◌, length, Bool-cases, Option-cases, arith,
}
use andsifr.Common.Outcome.{Outcome, ok, panic}
use andsifr.Memory.Waiters.{
  Waiters, update, list_of, queue, get_waiters, returned, suspended, wait, wait32, wait64, remove,
  System,
}

abbrev pub count : ℕ → List ℕ → ℕ
count c [] = 0
count c (x ∷ l) = if x == c then suc (count c l) else count c l

pub count-append : (c : ℕ) (l r : List ℕ) → count c (l ++ r) ≡ count c l + count c r
count-append c [] r = omega arith
count-append c (x ∷ l) r = ground (arith, count-append c l r)

pub count-remove_self : (c : ℕ) (l : List ℕ) → count c (remove c l) ≡ count c l - 1
unfolding remove
count-remove_self c [] = refl
count-remove_self c (x ∷ l) = ground (arith, count-remove_self c l)

pub count-remove_ne : (c d : ℕ) (l : List ℕ) → c ≢ d → count d (remove c l) ≡ count d l
unfolding remove
count-remove_ne c d [] ne = refl
count-remove_ne c d (x ∷ l) ne = ground (arith, count-remove_ne c d l)

-- How often a call that is suspended as `b` says stands in the queue of `offset`.
abbrev pub due : Option (ℕ × Bool) → Bool → ℕ → ℕ
due none closed offset = 0
due (some (at, timed)) closed offset = if closed then 0 else if at == offset then 1 else 0

pub record IsAccounted (s : System) : Type 0 where
  pub accounts :
      (offset c : ℕ)
      → count c (queue s.waiters offset) ≡ due (s.blocked c) (s.waiters.closed c) offset
  pub fresh : (c : ℕ) → s.waiters.next ≤ c → (s.blocked c ≡ none) × (s.waiters.closed c ≡ false)

-- What a call does to the queues once it is suspended on the channel `c`.
pub record Suspends (w w' : Waiters) (offset c : ℕ) : Type 0 where
  pub channel : c ≡ w.next
  pub queues :
      (o : ℕ) → queue w' o ≡ (if offset == o then queue w offset ++ (c ∷ []) else queue w o)
  pub next : w'.next ≡ w.next + 1
  pub closed : w'.closed ≡ w.closed

pub list_of-update :
    (lists : ℕ → Option (Option (List ℕ))) (offset o : ℕ) (l : List ℕ)
    → list_of (update offset (some (some l)) lists o)
      ≡ (if offset == o then l else list_of (lists o))
list_of-update lists offset o l = ground arith

-- The state of `wait` behind its check.
abbrev pushed : Waiters → ℕ → Waiters
pushed w offset = record {
  lists = update offset (some (some (queue w offset ++ (w.next ∷ [])))) w.lists;
  next = w.next + 1;
  closed = w.closed;
}

pushed-Suspends :
    (w w' : Waiters) (offset c : ℕ) → pushed w offset ≡ w' → w.next ≡ c → Suspends w w' offset c
pushed-Suspends w w' offset c e n = record {
  channel = sym n;
  queues = λ o.
      ap (λ (x : Waiters). queue x o) (sym e)
      ∙ list_of-update w.lists offset o (queue w offset ++ (w.next ∷ []))
      ∙ ap (λ k. if offset == o then queue w offset ++ (k ∷ []) else queue w o) n;
  next = ap (λ (x : Waiters). x.next) (sym e);
  closed = ap (λ (x : Waiters). x.closed) (sym e);
}

wait-Suspends :
    (w w' : Waiters) (offset c : ℕ) → wait w offset ≡ ok (w', suspended c) → Suspends w w' offset c
unfolding wait
wait-Suspends w w' offset c h = elim (Bool-cases (length (queue w offset) + 1 == 2 ^ 32)) [
  | inl full ↦ absurd (let e : panic ≡ ok (w', suspended c) = rw full at h in cc)
  | inr room ↦
      let e : Outcome.ok (pushed w offset, suspended w.next) ≡ ok (w', suspended c) =
        rw room at h in
      let state : pushed w offset ≡ w' = cc in
      let channel : w.next ≡ c = cc in pushed-Suspends w w' offset c state channel
]

pub queue-get_waiters : (w : Waiters) (offset o : ℕ) → queue (get_waiters w offset) o ≡ queue w o
unfolding get_waiters
queue-get_waiters w offset o = elim (Option-cases (w.lists offset)) [
  | inl missing ↦
      rw (get_waiters, missing)
        (elim (Bool-cases (offset == o)) [
          | inl same ↦
              let e : offset ≡ o = ground arith in
              rw same (sym (ap list_of (sym (ap w.lists e) ∙ missing)))
          | inr other ↦ rw other
        ])
  | inr (l, found) ↦ rw (get_waiters, found)
]

pub get_waiters_rest :
    (w : Waiters) (offset : ℕ)
    → ((get_waiters w offset).next ≡ w.next) × ((get_waiters w offset).closed ≡ w.closed)
unfolding get_waiters
get_waiters_rest w offset = elim (Option-cases (w.lists offset)) [
  | inl missing ↦ rw (get_waiters, missing) (refl, refl)
  | inr (l, found) ↦ rw (get_waiters, found) (refl, refl)
]

-- Wait32 and Wait64 on one branch or the other.
get_waiters-Suspends :
    (w w' : Waiters) (offset c : ℕ)
    → Suspends (get_waiters w offset) w' offset c
    → Suspends w w' offset c
get_waiters-Suspends w w' offset c p =
    let rest = get_waiters_rest w offset in
    record {
      channel = p.channel ∙ rest.0;
      queues =
          λ o. p.queues o ∙ rw (queue-get_waiters w offset offset, queue-get_waiters w offset o);
      next = p.next ∙ ap (λ n. n + 1) rest.0;
      closed = p.closed ∙ rest.1;
    }

pub wait32-Suspends :
    (reader : ℕ → ℕ) (w w' : Waiters) (offset exp c : ℕ)
    → wait32 reader w offset exp ≡ ok (w', suspended c)
    → Suspends w w' offset c
unfolding wait32
wait32-Suspends reader w w' offset exp c h = elim (Bool-cases (reader offset == exp)) [
  | inl same ↦
      get_waiters-Suspends w w' offset c
        (wait-Suspends (get_waiters w offset) w' offset c (rw same at h))
  | inr differs ↦ absurd (
      let e : Outcome.ok (get_waiters w offset, returned 1) ≡ ok (w', suspended c) =
        rw differs at h in
      cc)
]

pub wait64-Suspends :
    (reader : ℕ → ℕ) (w w' : Waiters) (offset exp c : ℕ)
    → wait64 reader w offset exp ≡ ok (w', suspended c)
    → Suspends w w' offset c
unfolding wait64
wait64-Suspends reader w w' offset exp c h = elim (Bool-cases (reader offset == exp)) [
  | inl same ↦
      get_waiters-Suspends w w' offset c
        (wait-Suspends (get_waiters w offset) w' offset c (rw same at h))
  | inr differs ↦ absurd (
      let e : Outcome.ok (get_waiters w offset, returned 1) ≡ ok (w', suspended c) =
        rw differs at h in
      cc)
]

-- A call that returns at once changes no queue.
pub wait32_returned :
    (reader : ℕ → ℕ) (w w' : Waiters) (offset exp r : ℕ)
    → wait32 reader w offset exp ≡ ok (w', returned r)
    → (get_waiters w offset ≡ w') × (r ≡ 1)
unfolding wait32 wait
wait32_returned reader w w' offset exp r h = ground arith

pub wait64_returned :
    (reader : ℕ → ℕ) (w w' : Waiters) (offset exp r : ℕ)
    → wait64 reader w offset exp ≡ ok (w', returned r)
    → (get_waiters w offset ≡ w') × (r ≡ 1)
unfolding wait64 wait
wait64_returned reader w w' offset exp r h = ground arith
