-- ===== src/Closing/ExitCode.antt =====
-- The exit code of the first call that closes is the one that every later check answers.
use andsifr.Common.{
  ℕ, ◌+◌, ◌*◌, ◌/◌, ◌%◌, ◌^◌, ◌<◌, ◌≡◌, ◌≢◌, refl, sym, ap, ◌∙◌, true, false, Option, none, some,
  List, [], ◌∷◌, ◌==◌, arith,
}
use andsifr.Common.Bits.Masks.{or_shifted}
use andsifr.Closing.{
  ModuleInstance, set_exit_code, flag_resource_closed, flag_resource_not_closed, notify_close,
  retire_memory, close_sys, close_code, ensure_resources_closed, close_with_exit_code,
  close_in_store, close_without_resources, fail_if_closed, Call, close_call, store_call, async_call,
  check_call, step, run,
}

module _ {E : Type 0} (fs_error code_error : Option E) where
  pub closed-ensure :
      (m : ModuleInstance) → (ensure_resources_closed fs_error code_error m).0.closed ≡ m.closed
  unfolding ensure_resources_closed notify_close retire_memory close_sys close_code
  closed-ensure m = ground arith

  pub closed-set :
      (m : ModuleInstance) (code flag : ℕ) → m.closed ≢ 0 → set_exit_code m code flag ≡ (m, false)
  unfolding set_exit_code
  closed-set m code flag h =
      let late : (m.closed == 0) ≡ false = ground arith in rw (set_exit_code, late)

  closed-step :
      (m : ModuleInstance) (c : Call)
      → m.closed ≢ 0
      → (step fs_error code_error m c).closed ≡ m.closed
  unfolding step close_with_exit_code close_in_store close_without_resources fail_if_closed
  closed-step m (close_call code) h = rw (step, close_with_exit_code, closed-set m code 1 h)
  closed-step m (store_call code) h = rw (step, close_in_store, closed-set m code 1 h)
  closed-step m (async_call code) h = rw (step, close_without_resources, closed-set m code 2 h)
  closed-step m check_call h = ground (arith, closed-ensure m)

  closed-run :
      (m : ModuleInstance) (cs : List Call)
      → m.closed ≢ 0
      → (run fs_error code_error m cs).closed ≡ m.closed
  unfolding run
  closed-run m [] h = refl
  closed-run m (c ∷ cs) h =
      let same = closed-step m c h in
      closed-run (step fs_error code_error m c) cs (λ e. h (sym same ∙ e)) ∙ same

-- The exit code of a call that closes.
abbrev pub code_of : Call → Option ℕ
code_of (close_call code) = some code
code_of (store_call code) = some code
code_of (async_call code) = some code
code_of check_call = none

abbrev pub flag_of : Call → ℕ
flag_of (async_call code) = flag_resource_not_closed
flag_of other = flag_resource_closed

module _ {E : Type 0} (fs_error code_error : Option E) where
  set_fresh :
      (m : ModuleInstance) (code flag : ℕ)
      → m.closed ≡ 0
      → code < 2 ^ 32
      → flag < 2 ^ 32
      → set_exit_code m code flag ≡ (record m { closed = flag + code * 2 ^ 32 }, true)
  unfolding set_exit_code
  set_fresh m code flag h small low =
      let first : (m.closed == 0) ≡ true = ground arith in
      let wrap : code * 2 ^ 32 % 2 ^ 64 ≡ code * 2 ^ 32 = omega arith in
      rw (set_exit_code, first, wrap, or_shifted 32 flag code low)

  -- The word that the first call to close leaves.
  closed-first :
      (m : ModuleInstance) (c : Call) (code : ℕ)
      → m.closed ≡ 0
      → code < 2 ^ 32
      → code_of c ≡ some code
      → (step fs_error code_error m c).closed ≡ flag_of c + code * 2 ^ 32
  unfolding step close_with_exit_code close_in_store close_without_resources
  closed-first m (close_call k) code h small e =
      let same : k ≡ code = cc in
      rw (step, close_with_exit_code, same, set_fresh m code 1 h small (omega arith))
        (closed-ensure fs_error code_error _)
  closed-first m (store_call k) code h small e =
      let same : k ≡ code = cc in
      rw (step, close_in_store, same, set_fresh m code 1 h small (omega arith))
        (closed-ensure fs_error code_error _)
  closed-first m (async_call k) code h small e =
      let same : k ≡ code = cc in
      rw (step, close_without_resources, same, set_fresh m code 2 h small (omega arith))
  closed-first m check_call code h small e = cc

  flag_bounds : (c : Call) → (0 < flag_of c) × (flag_of c < 3)
  flag_bounds (close_call k) = (omega arith, omega arith)
  flag_bounds (store_call k) = (omega arith, omega arith)
  flag_bounds (async_call k) = (omega arith, omega arith)
  flag_bounds check_call = (omega arith, omega arith)

  fail-code :
      (m : ModuleInstance)
      → m.closed ≢ 0
      → (fail_if_closed fs_error code_error m).1 ≡ some (m.closed / 2 ^ 32 % 2 ^ 32)
  unfolding fail_if_closed
  fail-code m h = let late : (m.closed == 0) ≡ false = ground arith in rw (fail_if_closed, late)

  -- On a module that is not closed, let the first call be one of the three that close, with an
  -- exit code of 32 bits; then after any further calls, closing ones included, FailIfClosed
  -- answers that exit code.
  pub exit_code_lem :
      (m : ModuleInstance) (c : Call) (cs : List Call) (code : ℕ)
      → m.closed ≡ 0
      → code < 2 ^ 32
      → code_of c ≡ some code
      → (fail_if_closed fs_error code_error (run fs_error code_error m (c ∷ cs))).1 ≡ some code
  unfolding run
  exit_code_lem m c cs code h small e =
      let first = closed-first m c code h small e in
      let flag = flag_bounds c in
      let set : (step fs_error code_error m c).closed ≢ 0 = λ z. omega (arith, first, z, flag) in
      let kept = closed-run fs_error code_error (step fs_error code_error m c) cs set in
      let word = kept ∙ first in
      fail-code _ (λ z. set (sym kept ∙ z)) ∙ ap some (omega (arith, word, flag))
