-- ===== src/Closing/Tests.antt =====
-- A module that times out and is then closed by the host.
use andsifr.Common.{
  ℕ, ◌+◌, ◌*◌, ◌^◌, ◌≤◌, ◌++◌, ◌≡◌, refl, true, false, none, some, List, [], ◌∷◌, arith,
}
use andsifr.Closing.{
  close_notified, fs_closed, memory_retired, code_closed, module_deleted, ModuleInstance,
  set_exit_code, notify_close, retire_memory, close_sys, close_code, ensure_resources_closed,
  close_with_exit_code, close_without_resources, fail_if_closed, Call, close_call, async_call,
  check_call, step, run,
}
use andsifr.Closing.Once.{times, notifies, closes_fs, closes_code, retires, run_once}
use andsifr.Closing.Repeat.{IsSpent, owed, repeated_checks}
use andsifr.Closing.ExitCode.{exit_code_lem}

abbrev alive : ModuleInstance
alive = record {
  closed = 0;
  close_notifier = true;
  sys = true;
  code_closer = true;
  memory_closed = false;
  log = [];
}

abbrev calls : List Call
calls = async_call 7 ∷ check_call ∷ close_call 0 ∷ check_call ∷ []

-- The first check after an asynchronous close closes the resources; the second finds none.
closes_on_check :
    (run {E = ℕ} none none alive calls).log
    ≡ module_deleted ∷ close_notified 7 ∷ fs_closed ∷ memory_retired ∷ code_closed ∷ []
unfolding run step set_exit_code notify_close retire_memory close_sys close_code
    ensure_resources_closed close_with_exit_code close_without_resources fail_if_closed
closes_on_check = refl

run_once_example :
    (times notifies (run {E = ℕ} none none alive calls).log ≤ 1)
    × (times closes_fs (run {E = ℕ} none none alive calls).log ≤ 1)
    × (times closes_code (run {E = ℕ} none none alive calls).log ≤ 1)
    × (times retires (run {E = ℕ} none none alive calls).log ≤ 1)
run_once_example = run_once none none alive calls refl

exit_code_lem_example :
    (fail_if_closed {E = ℕ} none none (run {E = ℕ} none none alive calls)).1 ≡ some 7
exit_code_lem_example =
    exit_code_lem none none alive (async_call 7) (check_call ∷ close_call 0 ∷ check_call ∷ []) 7
      refl (omega arith) refl

abbrev timed_out : ModuleInstance
timed_out = record alive { closed = 2 + 7 * 2 ^ 32 }

abbrev checked : ModuleInstance
checked = step {E = ℕ} none none timed_out check_call

repeated_checks_example :
    IsSpent checked
    × (checked.log ≡ timed_out.log ++ owed timed_out)
    × (run {E = ℕ} none none checked calls ≡ checked)
repeated_checks_example = repeated_checks none none timed_out calls refl (omega arith)
