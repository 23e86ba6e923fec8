-- ===== src/Closing/Repeat.antt =====
-- What FailIfClosed does on a module that was closed asynchronously.
use andsifr.Common.{
  ℕ, ◌/◌, ◌^◌, ◌++◌, if◌then◌else◌, subst, sym, append_assoc, append-nil, ◌≡◌, ◌≢◌, refl, ap, ◌∙◌,
  Bool, true, false, Option, List, [], ◌∷◌, ◌==◌, bit_and, arith,
}
use andsifr.Closing.{
  Event, close_notified, fs_closed, memory_retired, code_closed, ModuleInstance, notify_close,
  retire_memory, close_sys, close_code, ensure_resources_closed, close_with_exit_code,
  close_in_store, close_without_resources, fail_if_closed, Call, close_call, store_call, async_call,
  check_call, step, run,
}
use andsifr.Closing.ExitCode.{closed-ensure, closed-set}

-- No resource is left to close.
pub record IsSpent (m : ModuleInstance) : Type 0 where
  pub notifier : m.close_notifier ≡ false
  pub sys : m.sys ≡ false
  pub code : m.code_closer ≡ false
  pub memory : m.memory_closed ≡ true

-- What closing still has to do, in its order.
abbrev owed_notice : Bool → ℕ → List Event
owed_notice there closed = if there then close_notified (closed / 2 ^ 32) ∷ [] else []

abbrev owed_sys : Bool → List Event
owed_sys there = if there then fs_closed ∷ [] else []

abbrev owed_memory : Bool → List Event
owed_memory gone = if gone then [] else memory_retired ∷ []

abbrev owed_code : Bool → List Event
owed_code there = if there then code_closed ∷ [] else []

abbrev pub owed : ModuleInstance → List Event
owed m =
    owed_notice m.close_notifier m.closed
    ++ (owed_sys m.sys ++ (owed_memory m.memory_closed ++ owed_code m.code_closer))

regroup : (a b c d e : List Event) → (((a ++ b) ++ c) ++ d) ++ e ≡ a ++ (b ++ (c ++ (d ++ e)))
regroup a b c d e =
    append_assoc ((a ++ b) ++ c) d e
    ∙ append_assoc (a ++ b) c (d ++ e)
    ∙ append_assoc a b (c ++ (d ++ e))

log-notify :
    (m : ModuleInstance) → (notify_close m).log ≡ m.log ++ owed_notice m.close_notifier m.closed
unfolding notify_close
log-notify m = ground (arith, append-nil m.log)

log-retire : (m : ModuleInstance) → (retire_memory m).log ≡ m.log ++ owed_memory m.memory_closed
unfolding retire_memory
log-retire m = ground (arith, append-nil m.log)

module _ {E : Type 0} (fs_error code_error : Option E) where
  log-close_sys : (m : ModuleInstance) → (close_sys fs_error m).0.log ≡ m.log ++ owed_sys m.sys
  unfolding close_sys
  log-close_sys m = ground (arith, append-nil m.log)

  log-close_code :
      (m : ModuleInstance) (err : Option E)
      → (close_code code_error m err).0.log ≡ m.log ++ owed_code m.code_closer
  unfolding close_code
  log-close_code m err = ground (arith, append-nil m.log)

  -- The fields that the earlier steps leave alone.
  kept_fields :
      (m : ModuleInstance)
      → let m1 = notify_close m in
        let m2 = (close_sys fs_error m1).0 in
        (m1.sys ≡ m.sys)
        × (m2.memory_closed ≡ m.memory_closed)
        × ((retire_memory m2).code_closer ≡ m.code_closer)
  unfolding notify_close retire_memory close_sys
  kept_fields m = (ground arith, ground arith, ground arith)

  ensure-IsSpent : (m : ModuleInstance) → IsSpent (ensure_resources_closed fs_error code_error m).0
  unfolding ensure_resources_closed notify_close retire_memory close_sys close_code
  ensure-IsSpent m = record {
    notifier = ground arith;
    sys = ground arith;
    code = ground arith;
    memory = ground arith;
  }

  log-ensure :
      (m : ModuleInstance) → (ensure_resources_closed fs_error code_error m).0.log ≡ m.log ++ owed m
  unfolding ensure_resources_closed
  log-ensure m =
      let m1 = notify_close m in
      let m2 = (close_sys fs_error m1).0 in
      let m3 = retire_memory m2 in
      let kept = kept_fields m in
      log-close_code m3 (close_sys fs_error m1).1
      ∙ ap (λ l. l ++ owed_code m3.code_closer) (log-retire m2)
      ∙ ap (λ l. (l ++ owed_memory m2.memory_closed) ++ owed_code m3.code_closer) (log-close_sys m1)
      ∙ ap
          (λ l.
            ((l ++ owed_sys m1.sys) ++ owed_memory m2.memory_closed) ++ owed_code m3.code_closer)
          (log-notify m)
      ∙ rw (kept.2, kept.1, kept.0)
          (regroup m.log (owed_notice m.close_notifier m.closed) (owed_sys m.sys)
            (owed_memory m.memory_closed) (owed_code m.code_closer))

  ensure_spent :
      (m : ModuleInstance) → IsSpent m → (ensure_resources_closed fs_error code_error m).0 ≡ m
  unfolding ensure_resources_closed notify_close retire_memory close_sys close_code
  ensure_spent m v = rw (
    ensure_resources_closed, notify_close, v.notifier, close_sys, v.sys, retire_memory, v.memory,
    close_code, v.code,
  )

  step_spent :
      (m : ModuleInstance) (c : Call) → m.closed ≢ 0 → IsSpent m → step fs_error code_error m c ≡ m
  unfolding step close_with_exit_code close_in_store close_without_resources fail_if_closed
  step_spent m (close_call k) h v =
      rw (step, close_with_exit_code, closed-set fs_error code_error m k 1 h)
  step_spent m (store_call k) h v =
      rw (step, close_in_store, closed-set fs_error code_error m k 1 h)
  step_spent m (async_call k) h v =
      rw (step, close_without_resources, closed-set fs_error code_error m k 2 h)
  step_spent m check_call h v = ground (arith, ensure_spent m v)

  run_spent :
      (m : ModuleInstance) (cs : List Call)
      → m.closed ≢ 0
      → IsSpent m
      → run fs_error code_error m cs ≡ m
  unfolding run
  run_spent m [] h v = refl
  run_spent m (c ∷ cs) h v =
      ap (λ x. run fs_error code_error x cs) (step_spent m c h v) ∙ run_spent m cs h v

  checked :
      (m : ModuleInstance)
      → bit_and m.closed 255 ≡ 2
      → m.closed ≢ 0
      → step fs_error code_error m check_call ≡ (ensure_resources_closed fs_error code_error m).0
  unfolding step fail_if_closed
  checked m pending h =
      let late : (m.closed == 0) ≡ false = ground arith in
      let left : (bit_and m.closed 255 == 2) ≡ true = ground arith in
      rw (step, fail_if_closed, late, left)

  -- On a module whose word says that it is closed with its resources left, the first FailIfClosed
  -- releases what there is, each once: it notifies the close with the exit code, then closes the
  -- file system, retires the memory and closes the code, and leaves no resource. After it no
  -- calls, further ones of FailIfClosed among them, change the module or add to its log.
  pub repeated_checks :
      (m : ModuleInstance) (cs : List Call)
      → bit_and m.closed 255 ≡ 2
      → m.closed ≢ 0
      → let after = step fs_error code_error m check_call in
        IsSpent after × (after.log ≡ m.log ++ owed m) × (run fs_error code_error after cs ≡ after)
  repeated_checks m cs pending h =
      let first = checked m pending h in
      let spent = subst IsSpent (sym first) (ensure-IsSpent m) in
      let word = ap (λ x. x.closed) first ∙ closed-ensure fs_error code_error m in
      (
        spent,
        ap (λ x. x.log) first ∙ log-ensure m,
        run_spent (step fs_error code_error m check_call) cs (λ z. h (sym word ∙ z)) spent,
      )
