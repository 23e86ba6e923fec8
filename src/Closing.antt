-- ===== src/Closing.antt =====
-- internal/wasm/module_instance.go: how a module is closed, at once or with its resources left for the
-- next call that looks. The calls to the host and to the store stand in a log, latest last.
pub mod Once
pub mod ExitCode
pub mod Repeat
mod Tests
use andsifr.Common.{
  ℕ, zero, suc, ◌+◌, ◌*◌, ◌/◌, ◌%◌, ◌^◌, Bool, true, false, not, Option, none, some, List, [], ◌∷◌,
  ◌++◌, ◌==◌, if◌then◌else◌, bit_and, bit_or,
}

pub data Event : Type 0 where
  close_notified : ℕ → Event
  fs_closed : Event
  memory_retired : Event
  code_closed : Event
  module_deleted : Event

-- The fields that closing uses; `false` is a nil pointer.
pub record ModuleInstance : Type 0 where
  pub closed : ℕ
  pub close_notifier : Bool
  pub sys : Bool
  pub code_closer : Bool
  pub memory_closed : Bool
  pub log : List Event

abbrev pub flag_mask : ℕ
flag_mask = 255

abbrev pub flag_resource_closed : ℕ
flag_resource_closed = 1

abbrev pub flag_resource_not_closed : ℕ
flag_resource_not_closed = 2

abbrev pub emit : Event → ModuleInstance → ModuleInstance
emit e m = record m { log = m.log ++ (e ∷ []) }

unfoldable pub is_closed : ModuleInstance → Bool
is_closed m = not (m.closed == 0)

-- `Closed.CompareAndSwap(0, closed)`
unfoldable pub set_exit_code : ModuleInstance → ℕ → ℕ → ModuleInstance × Bool
set_exit_code m exit_code flag =
    if m.closed == 0
    then (record m { closed = bit_or flag (exit_code * 2 ^ 32 % 2 ^ 64) }, true)
    else (m, false)

unfoldable pub close_without_resources : ModuleInstance → ℕ → ModuleInstance
close_without_resources m exit_code =
    let (m1, first) = set_exit_code m exit_code flag_resource_not_closed in
    if first then emit module_deleted m1 else m1

unfoldable pub notify_close : ModuleInstance → ModuleInstance
notify_close m =
    if m.close_notifier
    then record (emit (close_notified (m.closed / 2 ^ 32)) m) { close_notifier = false }
    else m

-- retireMemory, whose event stands for what it does behind its guard.
unfoldable pub retire_memory : ModuleInstance → ModuleInstance
retire_memory m =
    if m.memory_closed then m else record (emit memory_retired m) { memory_closed = true }

-- The errors that the file system and the code closer answer are parameters.
module _ {E : Type 0} (fs_error : Option E) where
  unfoldable pub close_sys : ModuleInstance → ModuleInstance × Option E
  close_sys m = if m.sys then (record (emit fs_closed m) { sys = false }, fs_error) else (m, none)

module _ {E : Type 0} (code_error : Option E) where
  unfoldable pub close_code : ModuleInstance → Option E → ModuleInstance × Option E
  close_code m err =
      if m.code_closer
      then (
        record (emit code_closed m) { code_closer = false },
        elim err [ some e ↦ some e | none ↦ code_error ],
      )
      else (m, err)

module _ {E : Type 0} (fs_error code_error : Option E) where
  unfoldable pub ensure_resources_closed : ModuleInstance → ModuleInstance × Option E
  ensure_resources_closed m =
      let (m1, err) = close_sys fs_error (notify_close m) in
      close_code code_error (retire_memory m1) err

  unfoldable pub close_with_exit_code : ModuleInstance → ℕ → ModuleInstance × Option E
  close_with_exit_code m exit_code =
      let (m1, first) = set_exit_code m exit_code flag_resource_closed in
      if first then ensure_resources_closed (emit module_deleted m1) else (m1, none)

  -- closeWithExitCode, which the store calls once it has taken the module off its list.
  unfoldable pub close_in_store : ModuleInstance → ℕ → ModuleInstance × Option E
  close_in_store m exit_code =
      let (m1, first) = set_exit_code m exit_code flag_resource_closed in
      if first then ensure_resources_closed m1 else (m1, none)

  -- The exit code of the error that it answers, if it answers one.
  unfoldable pub fail_if_closed : ModuleInstance → ModuleInstance × Option ℕ
  fail_if_closed m = if m.closed == 0 then (m, none) else (
    if bit_and m.closed flag_mask == flag_resource_not_closed
        then (ensure_resources_closed m).0
        else m,
    some (m.closed / 2 ^ 32 % 2 ^ 32),
  )

-- The calls on one module, in the order in which they come.
pub data Call : Type 0 where
  close_call : ℕ → Call
  store_call : ℕ → Call
  async_call : ℕ → Call
  check_call : Call

module _ {E : Type 0} (fs_error code_error : Option E) where
  unfoldable pub step : ModuleInstance → Call → ModuleInstance
  step m (close_call code) = (close_with_exit_code fs_error code_error m code).0
  step m (store_call code) = (close_in_store fs_error code_error m code).0
  step m (async_call code) = close_without_resources m code
  step m check_call = (fail_if_closed fs_error code_error m).0

  unfoldable pub run : ModuleInstance → List Call → ModuleInstance
  run m [] = m
  run m (c ∷ cs) = run (step m c) cs
