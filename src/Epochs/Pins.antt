-- ===== src/Epochs/Pins.antt =====
-- A call in flight keeps the memories that are retired while it runs.
use andsifr.Common.{
  ℕ, zero, suc, ◌<◌, ◌≤◌, ◌≡◌, refl, List, [], ◌∷◌, length, get_or, All, arith, length-set, All-set,
}
use andsifr.Epochs.{Phase, idle, running, System, Step, step, Reachable}
use andsifr.Epochs.Count.{holds-count}
use andsifr.Epochs.Order.{In, InEpoch}
use andsifr.Epochs.Valid.{IsValid, Runs, Runs-holds, step-IsValid, Reachable-IsValid}
use andsifr.Epochs.Keep.{Without, Lacks, Keeps, Move-Keeps}

-- No epoch, no call and no Free has had the memory.
pub record IsUnretired (m : ℕ) (x : System) : Type 0 where
  pub freed : Without m x.shared.freed
  pub carried : All (Lacks m) x.calls
  pub waiting : (e : ℕ) → In e x.shared.queue → Without m (x.shared.retired e)

-- Steps in all of which call `j` runs guest code in epoch `e`.
pub data During (j e : ℕ) : System → System → Type 0 where
  here : (x : System) → During j e x x
  later :
      {x y z : System}
      → During j e x y
      → Step y z
      → get_or z.calls j idle ≡ running e
      → During j e x z

pub record IsKept (j e m : ℕ) (x : System) : Type 0 where
  pub valid : IsValid x
  pub keeps : Keeps e m x.shared
  pub carried : All (Lacks m) x.calls
  pub within : j < length x.calls
  pub runs : get_or x.calls j idle ≡ running e

All-get_or :
    (m : ℕ) (calls : List Phase) (i : ℕ) → All (Lacks m) calls → Lacks m (get_or calls i idle)
All-get_or m [] i a = tt
All-get_or m (p ∷ calls) zero a = a.0
All-get_or m (p ∷ calls) (suc i) a = All-get_or m calls i a.1

step-IsKept :
    (j e m : ℕ) (y z : System)
    → IsKept j e m y
    → Step y z
    → get_or z.calls j idle ≡ running e
    → IsKept j e m z
step-IsKept j e m y z k (step s s' calls i p' h move) runs =
    let own : Runs e (get_or calls j idle) = rw k.runs refl in
    let held : 1 ≤ s.active e = omega (
      arith,
      k.valid.counts e,
      Runs-holds e (get_or calls j idle) own,
      holds-count e calls j k.within,
    ) in
    let inside : InEpoch s e = k.valid.held j e k.within own in
    let (keeps, lacks) =
      Move-Keeps e m k.valid.order held inside move k.keeps (All-get_or m calls i k.carried) in
    record {
      valid = step-IsValid s s' calls i p' h move k.valid;
      keeps = keeps;
      carried = All-set (Lacks m) calls i p' k.carried lacks;
      within = rw (length-set calls i p') k.within;
      runs = runs;
    }

During-IsKept : (j e m : ℕ) (x y : System) → IsKept j e m x → During j e x y → IsKept j e m y
During-IsKept j e m x y k (here x') = k
During-IsKept j e m x y k (later {y = y'} d s runs) =
    step-IsKept j e m y' y (During-IsKept j e m x y' k d) s runs

-- In every reachable state, for a call that runs guest code and a memory that is not yet retired:
-- as long as the call runs, through any steps of any calls, closing modules among them, the
-- memory is not freed, and no call has taken it off the queue to free it.
pub running_keeps :
    (x y : System) (j e m : ℕ)
    → Reachable x
    → j < length x.calls
    → get_or x.calls j idle ≡ running e
    → IsUnretired m x
    → During j e x y
    → Without m y.shared.freed × All (Lacks m) y.calls
running_keeps x y j e m r within runs new d =
    let k : IsKept j e m y =
      During-IsKept j e m x y
        (record {
          valid = Reachable-IsValid x r;
          keeps = record { freed = new.freed; waiting = λ h there early. new.waiting h there };
          carried = new.carried;
          within = within;
          runs = runs;
        })
        d in
    (k.keeps.freed, k.carried)
