-- ===== src/Memory/Waiters/Tests.antt =====
-- Two calls that wait at the offset 8, and who is woken.
use andsifr.Common.{ℕ, ◌≡◌, refl, ◌⊎◌, Bool, true, false, some, [], ◌∷◌, length, min, arith}
use andsifr.Common.Outcome.{ok}
use andsifr.Memory.Waiters.{
  Waiters, update, queue, get_waiters, returned, wait, wait32, close, notify_loop, notify, System,
  waits32, initial, Reachable, start, more,
}
use andsifr.Memory.Waiters.Account.{IsAccounted}
use andsifr.Memory.Waiters.Wake.{Notified}
use andsifr.Memory.Waiters.Reach.{Reachable-IsAccounted}
use andsifr.Memory.Waiters.Wakeups.{notify_woken, no_lost_wakeup}

abbrev first : Waiters
first = record {
  lists = update 8 (some (some (0 ∷ []))) (get_waiters initial.waiters 8).lists;
  next = 1;
  closed = λ c. false;
}

abbrev second : Waiters
second = record {
  lists = update 8 (some (some (0 ∷ 1 ∷ []))) (get_waiters first 8).lists;
  next = 2;
  closed = λ c. false;
}

abbrev two_blocked : System
two_blocked = record {
  waiters = second;
  blocked = update 1 (some (8, true)) (update 0 (some (8, false)) initial.blocked);
}

two_blocked-Reachable : Reachable two_blocked
unfolding wait32 wait get_waiters
two_blocked-Reachable =
    more (more start (waits32 initial (λ a. 5) 8 5 0 false first refl))
      (waits32 _ (λ a. 5) 8 5 1 true second refl)

value_differs : wait32 (λ a. 5) second 8 6 ≡ ok (second, returned 1)
unfolding wait32 get_waiters
value_differs = refl

Reachable-IsAccounted_example : IsAccounted two_blocked
Reachable-IsAccounted_example = Reachable-IsAccounted two_blocked two_blocked-Reachable

notify_woken_example :
    (w : Waiters) × (notify second 8 1 ≡ ok (w, min 1 (length (queue second 8))))
    × Notified second w 8 1
    × ((c : ℕ)
        → w.closed c ≡ true
        → (second.closed c ≡ true) ⊎ ((timed : Bool) × (two_blocked.blocked c ≡ some (8, timed))))
notify_woken_example = notify_woken two_blocked 8 1 two_blocked-Reachable

abbrev all_woken : Waiters
all_woken = record {
  lists = update 8 (some (some [])) second.lists;
  next = 2;
  closed = update 1 true (update 0 true second.closed);
}

notify_two : notify second 8 2 ≡ ok (all_woken, 2)
unfolding notify notify_loop close get_waiters
notify_two = refl

no_lost_wakeup_example : all_woken.closed 1 ≡ true
no_lost_wakeup_example =
    no_lost_wakeup two_blocked 8 2 1 2 true all_woken two_blocked-Reachable refl
      (unfold get_waiters in (omega arith)) notify_two
