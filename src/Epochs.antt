-- ===== src/Epochs.antt =====
-- internal/wasm/execution.go: the epochs of guest calls, and the memories of closed modules that wait
-- for the calls in flight. The steps of a call are its atomic operations; what a call does under the
-- lock of guestExecutions and no other call can see before its end is one step. An epoch is the number
-- of its allocation, a memory is a number too.
pub mod Count
pub mod Order
pub mod Valid
pub mod Keep
pub mod Pins
pub mod Sweep
pub mod Quiet
pub mod Imports
pub mod Scan
pub mod Importers
mod Tests
use andsifr.Common.{
  ℕ, suc, ◌+◌, ◌-◌, ◌%◌, ◌^◌, ◌<◌, ◌≡◌, Bool, true, false, Option, none, some, List, [], ◌∷◌, ◌++◌,
  ◌==◌, if◌then◌else◌, length, get_or, set, All,
}

-- guestExecutions, and what the fields of each epoch hold. `queue` is the list from `head` along
-- `next`, `freed` the calls of Free that were made.
pub record Shared : Type 0 where
  pub current : Option ℕ
  pub next : ℕ
  pub active : ℕ → ℕ
  pub retired : ℕ → List ℕ
  pub queue : List ℕ
  pub locked : Bool
  pub freed : List ℕ

-- Where a call of BeginExecution, EndExecution or retireMemory stands.
pub data Phase : Type 0 where
  idle : Phase
  absent : Phase
  loaded : ℕ → Phase
  pinned : ℕ → Phase
  confirmed : ℕ → Phase
  running : ℕ → Phase
  ending : ℕ → Phase
  emptied : ℕ → Phase
  sweeping : Phase
  collecting : List ℕ → Phase
  freeing : List ℕ → Phase

unfoldable pub is_current : Shared → ℕ → Bool
is_current s e = elim s.current [ none ↦ false | some c ↦ c == e ]

abbrev pub at : {A : Type 0} → ℕ → A → (ℕ → A) → ℕ → A
at e v f x = if x == e then v else f x

-- `current.Load()` of BeginExecution.
unfoldable pub load_current : Shared → Phase
load_current s = elim s.current [ none ↦ absent | some e ↦ loaded e ]

-- `CompareAndSwap(nil, &executionEpoch{})`.
unfoldable pub create : Shared → Shared
create s = elim s.current [
  | none ↦ record s { current = some s.next; next = suc s.next }
  | some e ↦ s
]

-- `active.Add(1)` and `active.Add(-1)`, in 64 bits.
unfoldable pub pin : Shared → ℕ → Shared
pin s e = record s { active = at e ((s.active e + 1) % 2 ^ 64) s.active }

unfoldable pub unpin : Shared → ℕ → Shared
unpin s e = record s { active = at e ((s.active e + (2 ^ 64 - 1)) % 2 ^ 64) s.active }

-- The second load: an epoch that was sealed in between is let go.
unfoldable pub confirm : Shared → ℕ → Phase
confirm s e = if is_current s e then confirmed e else ending e

-- `m.Closed.Load()`.
unfoldable pub enter : Bool → ℕ → Phase
enter closed e = if closed then ending e else running e

-- What EndExecution goes on with behind its Add, and behind its Load.
unfoldable pub released : Shared → ℕ → Phase
released s e = if s.active e == 0 then emptied e else idle

unfoldable pub compare_current : Shared → ℕ → Phase
compare_current s e = if is_current s e then idle else sweeping

-- One round of collectRetiredMemory, under the lock, which its last round gives back.
unfoldable pub collect : Shared → List ℕ → List ℕ → Shared × Phase
collect s got [] = (record s { locked = false }, freeing got)
collect s got (e ∷ q) =
    if s.active e == 0
    then (record s { queue = q; retired = at e [] s.retired }, collecting (got ++ s.retired e))
    else (record s { locked = false }, freeing got)

-- The epoch that retireMemory seals: the current one, or else a new one.
unfoldable pub sealed : Shared → ℕ
sealed s = elim s.current [ none ↦ s.next | some e ↦ e ]

unfoldable pub fresh : Shared → ℕ
fresh s = elim s.current [ none ↦ suc s.next | some e ↦ s.next ]

-- The part of retireMemory that swaps the epoch and queues the sealed one, for the allocations
-- `memories`.
unfoldable pub retire : Shared → List ℕ → Shared
retire s memories = record s {
  current = some (fresh s);
  next = suc (fresh s);
  retired = at (sealed s) memories s.retired;
  queue = s.queue ++ (sealed s ∷ []);
  locked = true;
}

-- The steps of a call.
pub data Move : Shared → Phase → Shared → Phase → Type 0 where
  loads : (s : Shared) → Move s idle s (load_current s)
  creates : (s : Shared) → Move s absent (create s) idle
  pins : (s : Shared) (e : ℕ) → Move s (loaded e) (pin s e) (pinned e)
  confirms : (s : Shared) (e : ℕ) → Move s (pinned e) s (confirm s e)
  enters : (s : Shared) (e : ℕ) (closed : Bool) → Move s (confirmed e) s (enter closed e)
  ends : (s : Shared) (e : ℕ) → Move s (running e) s (ending e)
  releases : (s : Shared) (e : ℕ) → Move s (ending e) (unpin s e) (released (unpin s e) e)
  compares : (s : Shared) (e : ℕ) → Move s (emptied e) s (compare_current s e)
  locks :
      (s : Shared) → s.locked ≡ false → Move s sweeping (record s { locked = true }) (collecting [])
  collects :
      (s : Shared) (got : List ℕ)
      → Move s (collecting got) (collect s got s.queue).0 (collect s got s.queue).1
  frees :
      (s : Shared) (m : ℕ) (rest : List ℕ)
      → Move s (freeing (m ∷ rest)) (record s { freed = m ∷ s.freed }) (freeing rest)
  returns : (s : Shared) → Move s (freeing []) s idle
  retires :
      (s : Shared) (m : ℕ) (memories : List ℕ)
      → s.locked ≡ false
      → Move s idle (retire s (m ∷ memories)) (collecting [])

pub record System : Type 0 where
  pub shared : Shared
  pub calls : List Phase

pub data Step : System → System → Type 0 where
  step :
      (s s' : Shared) (calls : List Phase) (i : ℕ) (p' : Phase)
      → i < length calls
      → Move s (get_or calls i idle) s' p'
      → Step (record { shared = s; calls = calls }) (record { shared = s'; calls = set calls i p' })

abbrev pub start : Shared
start = record {
  current = none;
  next = 0;
  active = λ e. 0;
  retired = λ e. [];
  queue = [];
  locked = false;
  freed = [];
}

-- From any number of calls that the counter of 64 bits can count.
pub data Reachable : System → Type 0 where
  begins :
      (calls : List Phase)
      → length calls < 2 ^ 64
      → All (λ p. p ≡ idle) calls
      → Reachable (record { shared = start; calls = calls })
  more : {x y : System} → Reachable x → Step x y → Reachable y
