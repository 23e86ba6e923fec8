-- ===== src/Epochs/Tests.antt =====
-- A guest call, and a module that is closed while it runs.
use andsifr.Common.{
  ℕ, Bool, Bool-cases, not, Option, none, ◌==◌, if◌then◌else◌, inl, inr, List, ◌<◌, ◌≡◌, refl, true,
  false, some, [], ◌∷◌, get_or, All, arith,
}
use andsifr.Epochs.{
  Shared, Phase, idle, absent, loaded, pinned, confirmed, running, ending, emptied, sweeping,
  collecting, freeing, is_current, at, load_current, create, pin, unpin, confirm, enter, released,
  compare_current, collect, sealed, fresh, retire, loads, creates, pins, confirms, enters, ends,
  releases, compares, locks, collects, frees, returns, retires, System, step, start, Reachable,
  begins, more,
}
use andsifr.Epochs.Valid.{IsValid, Reachable-IsValid}
use andsifr.Epochs.Keep.{Without, Lacks}
use andsifr.Epochs.Pins.{During, here, later, running_keeps}
use andsifr.Epochs.Imports.{Modules, unreferenced_closed_modules}
use andsifr.Epochs.Scan.{direct, through}
use andsifr.Epochs.Importers.{Answers, unreferenced-Answers}
use andsifr.Common.Outcome.{ok}
use andsifr.Epochs.Quiet.{at_rest, in_guest, Quiet-queue}

abbrev sys : Shared → Phase → Phase → System
sys s p q = record { shared = s; calls = p ∷ (q ∷ []) }

-- Call 0 enters the guest.
abbrev created : Shared
created = record start { current = some 0; next = 1 }

abbrev entered : Shared
entered = record created { active = at 0 1 start.active }

entered-Reachable : Reachable (sys entered (running 0) idle)
unfolding load_current create pin confirm is_current enter
entered-Reachable =
    let r0 : Reachable (sys start idle idle) =
      begins (idle ∷ (idle ∷ [])) (omega arith) (refl, (refl, tt)) in
    let r1 : Reachable (sys start absent idle) =
      more r0 (step _ _ _ 0 _ (omega arith) (loads start)) in
    let r2 : Reachable (sys created idle idle) =
      more r1 (step _ _ _ 0 _ (omega arith) (creates start)) in
    let r3 : Reachable (sys created (loaded 0) idle) =
      more r2 (step _ _ _ 0 _ (omega arith) (loads created)) in
    let r4 : Reachable (sys entered (pinned 0) idle) =
      more r3 (step _ _ _ 0 _ (omega arith) (pins created 0)) in
    let r5 : Reachable (sys entered (confirmed 0) idle) =
      more r4 (step _ _ _ 0 _ (omega arith) (confirms entered 0)) in
    more r5 (step _ _ _ 0 _ (omega arith) (enters entered 0 false))

-- Call 1 retires memory 7 and looks at the queue.
abbrev retired_once : Shared
retired_once = record entered {
  current = some 1;
  next = 2;
  retired = at 0 (7 ∷ []) start.retired;
  queue = 0 ∷ [];
  locked = true;
}

abbrev left : Shared
left = record retired_once { locked = false }

closes : During 0 0 (sys entered (running 0) idle) (sys left (running 0) (freeing []))
unfolding retire sealed fresh collect
closes =
    later (later (here _) (step _ _ _ 1 _ (omega arith) (retires entered 7 [] refl)) refl)
      (step _ _ _ 1 _ (omega arith) (collects retired_once [])) refl

running_keeps_example : Without 7 [] × All (Lacks 7) (running 0 ∷ (freeing [] ∷ []))
running_keeps_example =
    running_keeps (sys entered (running 0) idle) (sys left (running 0) (freeing [])) 0 0 7
      entered-Reachable (omega arith) refl
      (record { freed = tt; carried = (tt, (tt, tt)); waiting = λ e there. absurd there }) closes

left-Reachable : Reachable (sys left (running 0) idle)
unfolding retire sealed fresh collect
left-Reachable =
    let r1 : Reachable (sys retired_once (running 0) (collecting [])) =
      more entered-Reachable (step _ _ _ 1 _ (omega arith) (retires entered 7 [] refl)) in
    let r2 : Reachable (sys left (running 0) (freeing [])) =
      more r1 (step _ _ _ 1 _ (omega arith) (collects retired_once [])) in
    more r2 (step _ _ _ 1 _ (omega arith) (returns left))

Quiet-queue_example : (j : ℕ) × (j < 2) × (get_or (running 0 ∷ (idle ∷ [])) j idle ≡ running 0)
Quiet-queue_example =
    Quiet-queue (sys left (running 0) idle) 0 [] left-Reachable (in_guest 0, (at_rest, tt)) refl

Reachable-IsValid_example : IsValid (sys left (running 0) idle)
Reachable-IsValid_example = Reachable-IsValid (sys left (running 0) idle) left-Reachable

-- At the end of the call memory 7 is freed.
abbrev ended : Shared
ended = record left {
  active = at 0 0 (at 0 1 start.active);
  retired = at 0 [] left.retired;
  queue = [];
  freed = 7 ∷ [];
}

ended-Reachable : Reachable (sys ended (freeing []) idle)
unfolding unpin released compare_current is_current collect
ended-Reachable =
    let empty : Shared = record left { active = at 0 0 (at 0 1 start.active) } in
    let r1 : Reachable (sys left (ending 0) idle) =
      more left-Reachable (step _ _ _ 0 _ (omega arith) (ends left 0)) in
    let r2 : Reachable (sys empty (emptied 0) idle) =
      more r1 (step _ _ _ 0 _ (omega arith) (releases left 0)) in
    let r3 : Reachable (sys empty sweeping idle) =
      more r2 (step _ _ _ 0 _ (omega arith) (compares empty 0)) in
    let r4 : Reachable (sys (record empty { locked = true }) (collecting []) idle) =
      more r3 (step _ _ _ 0 _ (omega arith) (locks empty refl)) in
    let swept : Shared = record ended { locked = true; freed = [] } in
    let r5 : Reachable (sys swept (collecting (7 ∷ [])) idle) =
      more r4 (step _ _ _ 0 _ (omega arith) (collects (record empty { locked = true }) [])) in
    let unlocked : Shared = record swept { locked = false } in
    let r6 : Reachable (sys unlocked (freeing (7 ∷ [])) idle) =
      more r5 (step _ _ _ 0 _ (omega arith) (collects swept (7 ∷ []))) in
    more r6 (step _ _ _ 0 _ (omega arith) (frees unlocked 7 []))

-- Modules 0, 1 and 2 import each other in a circle.
abbrev circle : (ℕ → Bool) → Modules
circle closed = record {
  importers =
      λ x. if x == 0 then 1 ∷ [] else if x == 1 then 2 ∷ [] else if x == 2 then 0 ∷ [] else [];
  memory_closed = closed;
}

circle_small : (x : ℕ) → All (λ z. z < 3) ((circle (λ y. true)).importers x)
circle_small x = elim (Bool-cases (x == 0)) [
  | inl h ↦ rw h (omega arith, tt)
  | inr h0 ↦ rw h0 (elim (Bool-cases (x == 1)) [
    | inl h ↦ rw h (omega arith, tt)
    | inr h1 ↦
        rw h1 (elim (Bool-cases (x == 2)) [ inl h ↦ rw h (omega arith, tt) | inr h2 ↦ rw h2 tt ])
  ])
]

circle_released :
    unreferenced_closed_modules 3 (circle (λ y. true)) 0 ≡ ok (some (0 ∷ (1 ∷ (2 ∷ []))))
unfolding unreferenced_closed_modules andsifr.Epochs.Imports.search
    andsifr.Epochs.Imports.scan_importers
circle_released = refl

circle_live : unreferenced_closed_modules 3 (circle (λ y. not (y == 2))) 0 ≡ ok none
unfolding unreferenced_closed_modules andsifr.Epochs.Imports.search
    andsifr.Epochs.Imports.scan_importers
circle_live = refl

unreferenced-Answers_example :
    (r : Option (List ℕ)) × (unreferenced_closed_modules 3 (circle (λ y. true)) 0 ≡ ok r)
    × Answers (circle (λ y. true)) 0 2 r
unreferenced-Answers_example =
    unreferenced-Answers (circle (λ y. true)) 3 0 2 circle_small
      (through 1 2 (direct 1 (inl refl)) (inl refl))
