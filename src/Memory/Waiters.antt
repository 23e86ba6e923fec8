-- ===== src/Memory/Waiters.antt =====
-- Wait32, Wait64, wait, getWaiters and Notify of internal/wasm/memory.go. A channel is a number. The
-- critical sections under the locks are single steps, and any number of threads interleave them.
pub mod Account
pub mod Wake
pub mod Reach
pub mod Wakeups
mod Tests
use andsifr.Common.{
  ℕ, zero, suc, ◌+◌, ◌*◌, ◌^◌, ◌≡◌, Bool, true, false, not, Option, none, some, List, [], ◌∷◌, ◌++◌,
  ltb, ◌==◌, if◌then◌else◌, length,
}
use andsifr.Common.Outcome.{Outcome, ok, panic, ◌>>=◌}

-- The map `waiters`, each entry with its list, `nil` at first; the channels that were made and which
-- of them are closed.
pub record Waiters : Type 0 where
  pub lists : ℕ → Option (Option (List ℕ))
  pub next : ℕ
  pub closed : ℕ → Bool

abbrev pub update {ℓ} : {A : Type ℓ} → ℕ → A → (ℕ → A) → ℕ → A
update k a f i = if k == i then a else f i

abbrev pub list_of : Option (Option (List ℕ)) → List ℕ
list_of (some (some l)) = l
list_of (some none) = []
list_of none = []

-- The channels that wait at an offset, the first to wait first.
abbrev pub queue : Waiters → ℕ → List ℕ
queue w offset = list_of (w.lists offset)

unfoldable pub get_waiters : Waiters → ℕ → Waiters
get_waiters w offset = elim (w.lists offset) [
  | some l ↦ w
  | none ↦ record w { lists = update offset (some none) w.lists }
]

-- How a call of Wait32 or Wait64 goes on from its critical section.
pub data Waiting : Type 0 where
  returned : ℕ → Waiting
  suspended : ℕ → Waiting

-- The section of `wait` up to its channel operation.
unfoldable pub wait : Waiters → ℕ → Outcome (Waiters × Waiting)
wait w offset =
    let l = queue w offset in
    if length l + 1 == 2 ^ 32
    then panic
    else ok (
      record {
        lists = update offset (some (some (l ++ (w.next ∷ [])))) w.lists;
        next = w.next + 1;
        closed = w.closed;
      },
      suspended w.next,
    )

unfoldable pub wait32 : (ℕ → ℕ) → Waiters → ℕ → ℕ → Outcome (Waiters × Waiting)
wait32 reader w offset exp =
    let w' = get_waiters w offset in
    if not (reader offset == exp) then ok (w', returned 1) else wait w' offset

unfoldable pub wait64 : (ℕ → ℕ) → Waiters → ℕ → ℕ → Outcome (Waiters × Waiting)
wait64 reader w offset exp =
    let w' = get_waiters w offset in
    if not (reader offset == exp) then ok (w', returned 1) else wait w' offset

-- `l.Remove(elem)`: of an element that was taken off before, nothing is left to remove.
unfoldable pub remove : ℕ → List ℕ → List ℕ
remove c [] = []
remove c (x ∷ l) = let rest = remove c l in if x == c then l else x ∷ rest

-- The two ends of `select`: the channel is closed, or the time is over. A notification between the
-- end of the time and the removal is a step before `time_out`, which may find the channel closed.
unfoldable pub ready : Waiters → ℕ → Bool
ready w c = w.closed c

unfoldable pub time_out : Waiters → ℕ → ℕ → Waiters × ℕ
time_out w offset c =
    (record w { lists = update offset (some (some (remove c (queue w offset)))) w.lists }, 2)

-- `close`, which panics on a channel that is closed.
unfoldable pub close : ℕ → (ℕ → Bool) → Outcome (ℕ → Bool)
close c closed = if closed c then panic else ok (update c true closed)

unfoldable pub notify_loop : ℕ → ℕ → (ℕ → Bool) → List ℕ → Outcome ((ℕ → Bool) × List ℕ × ℕ)
notify_loop count res closed [] = ok (closed, [], res)
notify_loop count res closed (c ∷ l) =
    let rest = λ (f : ℕ → Bool). notify_loop count (res + 1) f l in
    if ltb res count then (do f ← close c closed; rest f) else ok (closed, c ∷ l, res)

unfoldable pub notify : Waiters → ℕ → ℕ → Outcome (Waiters × ℕ)
notify w offset count = elim (w.lists offset) [
  | none ↦ ok (w, 0)
  | some none ↦ ok (w, 0)
  | some (some l) ↦ do
    (closed, rest, res) ← notify_loop count 0 w.closed l
    ok (record w { lists = update offset (some (some rest)) w.lists; closed = closed }, res)
]

-- The calls that are suspended, by their channels: at which offset, and whether with a timeout.
pub record System : Type 0 where
  pub waiters : Waiters
  pub blocked : ℕ → Option (ℕ × Bool)

pub data Step : System → System → Type 0 where
  waits32 :
      (s : System) (reader : ℕ → ℕ) (offset exp c : ℕ) (timed : Bool) (w : Waiters)
      → wait32 reader s.waiters offset exp ≡ ok (w, suspended c)
      → Step s (record { waiters = w; blocked = update c (some (offset, timed)) s.blocked })
  waits64 :
      (s : System) (reader : ℕ → ℕ) (offset exp c : ℕ) (timed : Bool) (w : Waiters)
      → wait64 reader s.waiters offset exp ≡ ok (w, suspended c)
      → Step s (record { waiters = w; blocked = update c (some (offset, timed)) s.blocked })
  differs32 :
      (s : System) (reader : ℕ → ℕ) (offset exp r : ℕ) (w : Waiters)
      → wait32 reader s.waiters offset exp ≡ ok (w, returned r)
      → Step s (record s { waiters = w })
  differs64 :
      (s : System) (reader : ℕ → ℕ) (offset exp r : ℕ) (w : Waiters)
      → wait64 reader s.waiters offset exp ≡ ok (w, returned r)
      → Step s (record s { waiters = w })
  notifies :
      (s : System) (offset count n : ℕ) (w : Waiters)
      → notify s.waiters offset count ≡ ok (w, n)
      → Step s (record s { waiters = w })
  resumes :
      (s : System) (c offset : ℕ) (timed : Bool)
      → s.blocked c ≡ some (offset, timed)
      → ready s.waiters c ≡ true
      → Step s (record s { blocked = update c none s.blocked })
  expires :
      (s : System) (c offset : ℕ)
      → s.blocked c ≡ some (offset, true)
      → Step s
          (record { waiters = (time_out s.waiters offset c).0; blocked = update c none s.blocked })

abbrev pub initial : System
initial = record {
  waiters = record { lists = λ o. none; next = 0; closed = λ c. false };
  blocked = λ c. none;
}

pub data Reachable : System → Type 0 where
  start : Reachable initial
  more : {s s' : System} → Reachable s → Step s s' → Reachable s'
