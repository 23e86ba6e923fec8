-- ===== src/Memory/Waiters/Reach.antt =====
-- Every interleaving of waits, notifications, wake-ups and timeouts keeps the account.
use andsifr.Common.{
  ℕ, ◌≡◌, ◌≢◌, refl, subst, ◌∙◌, inl, inr, Bool, true, false, none, some, [], ◌∷◌, ◌==◌,
  if◌then◌else◌, Bool-cases, Option-cases, arith,
}
use andsifr.Memory.Waiters.{
  Waiters, update, queue, get_waiters, remove, ready, time_out, System, Step, waits32, waits64,
  differs32, differs64, notifies, resumes, expires, Reachable, start, more,
}
use andsifr.Memory.Waiters.Account.{
  count, count-append, count-remove_self, count-remove_ne, IsAccounted, Suspends, wait32-Suspends,
  wait64-Suspends, wait32_returned, wait64_returned, list_of-update, queue-get_waiters,
  get_waiters_rest,
}
use andsifr.Memory.Waiters.Wake.{Fits, Notified, notify_lem, count-take-drop}

suspend-IsAccounted :
    (s : System) (w : Waiters) (offset c : ℕ) (timed : Bool)
    → IsAccounted s
    → Suspends s.waiters w offset c
    → IsAccounted (record { waiters = w; blocked = update c (some (offset, timed)) s.blocked })
suspend-IsAccounted s w offset c timed a p = record {
  accounts = λ o d.
      let new : s.blocked c ≡ none = (a.fresh c (omega (arith, p.channel))).0 in
      let isopen : s.waiters.closed c ≡ false = (a.fresh c (omega (arith, p.channel))).1 in
      rw (p.queues o, p.closed)
        (ground (
          arith,
          a.accounts offset d,
          a.accounts o d,
          count-append d (queue s.waiters offset) (c ∷ []),
          new,
          isopen,
        ));
  fresh = λ d h. rw p.closed (ground (arith, p.next, p.channel, a.fresh d));
}

pub Fits-IsAccounted :
    (s : System) (offset : ℕ) → IsAccounted s → Fits s.waiters.closed (queue s.waiters offset)
Fits-IsAccounted s offset a c = ground (arith, a.accounts offset c, Option-cases (s.blocked c))

notify-IsAccounted :
    (s : System) (w : Waiters) (offset k : ℕ)
    → IsAccounted s
    → Notified s.waiters w offset k
    → IsAccounted (record s { waiters = w })
notify-IsAccounted s w offset k a p = record {
  accounts = λ o c. ground (
    arith,
    p.queues o,
    p.closed c,
    a.accounts o c,
    a.accounts offset c,
    count-take-drop c k (queue s.waiters offset),
    Option-cases (s.blocked c),
  );
  fresh = λ c h. ground (
    arith,
    p.next,
    p.closed c,
    a.fresh c,
    a.accounts offset c,
    count-take-drop c k (queue s.waiters offset),
  );
}

-- The call on the channel `c` goes on: the channel is closed, or taken off its queue.
leave-IsAccounted :
    (s : System) (w : Waiters) (c : ℕ)
    → IsAccounted s
    → (w.next ≡ s.waiters.next)
    → (w.closed ≡ s.waiters.closed)
    → ((o d : ℕ) → c ≢ d → count d (queue w o) ≡ count d (queue s.waiters o))
    → ((o : ℕ) → count c (queue w o) ≡ 0)
    → IsAccounted (record { waiters = w; blocked = update c none s.blocked })
leave-IsAccounted s w c a n f others gone = record {
  accounts = λ o d. elim (Bool-cases (c == d)) [
    | inl same ↦
        rw same (let e : c ≡ d = ground arith in subst (λ x. count x (queue w o) ≡ 0) e (gone o))
    | inr differs ↦ rw (differs, f) (others o d (ground arith) ∙ a.accounts o d)
  ];
  fresh = λ d h. rw f (ground (arith, n, a.fresh d));
}

queue-time_out :
    (w : Waiters) (offset c o : ℕ)
    → queue (time_out w offset c).0 o
      ≡ (if offset == o then remove c (queue w offset) else queue w o)
unfolding time_out
queue-time_out w offset c o = list_of-update w.lists offset o (remove c (queue w offset))

expire-IsAccounted :
    (s : System) (c offset : ℕ)
    → IsAccounted s
    → s.blocked c ≡ some (offset, true)
    → IsAccounted
        (record { waiters = (time_out s.waiters offset c).0; blocked = update c none s.blocked })
unfolding time_out
expire-IsAccounted s c offset a b =
    leave-IsAccounted s (time_out s.waiters offset c).0 c a refl refl
      (λ o d ne.
        rw (queue-time_out s.waiters offset c o)
          (ground (arith, count-remove_ne c d (queue s.waiters offset), ne)))
      (λ o. rw (queue-time_out s.waiters offset c o) (
        ground (
          arith,
          count-remove_self c (queue s.waiters offset),
          b,
          a.accounts offset c,
          a.accounts o c,
        )))

same_queues-IsAccounted :
    (s : System) (offset : ℕ) (w : Waiters)
    → IsAccounted s
    → get_waiters s.waiters offset ≡ w
    → IsAccounted (record s { waiters = w })
same_queues-IsAccounted s offset w a e =
    let rest = get_waiters_rest s.waiters offset in
    subst (λ x. IsAccounted (record s { waiters = x })) e
      (record {
        accounts = λ o c. rw (queue-get_waiters s.waiters offset o, rest.1) (a.accounts o c);
        fresh = λ c h. rw rest.1 (a.fresh c (omega (arith, rest.0)));
      })

pub Step-IsAccounted : (s s' : System) → IsAccounted s → Step s s' → IsAccounted s'
Step-IsAccounted _ _ a (waits32 s reader offset exp c timed w e) =
    suspend-IsAccounted s w offset c timed a (wait32-Suspends reader s.waiters w offset exp c e)
Step-IsAccounted _ _ a (waits64 s reader offset exp c timed w e) =
    suspend-IsAccounted s w offset c timed a (wait64-Suspends reader s.waiters w offset exp c e)
Step-IsAccounted _ _ a (differs32 s reader offset exp r w e) =
    same_queues-IsAccounted s offset w a (wait32_returned reader s.waiters w offset exp r e).0
Step-IsAccounted _ _ a (differs64 s reader offset exp r w e) =
    same_queues-IsAccounted s offset w a (wait64_returned reader s.waiters w offset exp r e).0
Step-IsAccounted _ _ a (notifies s offset k n w e) =
    let (w', run, p) = notify_lem s.waiters offset k (Fits-IsAccounted s offset a) in
    let same : w' ≡ w = cc in
    notify-IsAccounted s w offset k a (subst (λ x. Notified s.waiters x offset k) same p)
Step-IsAccounted _ _ a (resumes s c offset timed b e) =
    leave-IsAccounted s s.waiters c a refl refl (λ o d ne. refl)
      (λ o. unfold ready in (ground (arith, a.accounts o c, b, e)))
Step-IsAccounted _ _ a (expires s c offset b) = expire-IsAccounted s c offset a b

-- In every reachable state each suspended call whose channel is open stands exactly once in the
-- queue of its offset, no queue holds anything else, and channels that are not made yet are
-- unused.
pub Reachable-IsAccounted : (s : System) → Reachable s → IsAccounted s
Reachable-IsAccounted _ start = record { accounts = λ o c. refl; fresh = λ c h. (refl, refl) }
Reachable-IsAccounted _ (more r p) = Step-IsAccounted _ _ (Reachable-IsAccounted _ r) p
