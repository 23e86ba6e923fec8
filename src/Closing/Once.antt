-- ===== src/Closing/Once.antt =====
-- Whatever is called and how often, each resource of a module is closed once.
use andsifr.Common.{
  ℕ, ◌+◌, ◌/◌, ◌^◌, ◌≤◌, ◌≡◌, refl, inl, inr, Option, List, [], ◌∷◌, ◌++◌, ◌==◌, if◌then◌else◌,
  bit_and, Bool-cases, arith,
}
use andsifr.Closing.{
  Event, close_notified, fs_closed, memory_retired, code_closed, module_deleted, ModuleInstance,
  set_exit_code, flag_resource_closed, flag_resource_not_closed, emit, notify_close, retire_memory,
  close_sys, close_code, ensure_resources_closed, close_with_exit_code, close_in_store,
  close_without_resources, fail_if_closed, Call, close_call, store_call, async_call, check_call,
  step, run,
}

abbrev pub notifies : Event → ℕ
notifies (close_notified code) = 1
notifies other = 0

abbrev pub closes_fs : Event → ℕ
closes_fs fs_closed = 1
closes_fs other = 0

abbrev pub closes_code : Event → ℕ
closes_code code_closed = 1
closes_code other = 0

abbrev pub retires : Event → ℕ
retires memory_retired = 1
retires other = 0

abbrev pub times : (Event → ℕ) → List Event → ℕ
times f [] = 0
times f (e ∷ es) = f e + times f es

pub times-append : (f : Event → ℕ) (l r : List Event) → times f (l ++ r) ≡ times f l + times f r
times-append f [] r = omega arith
times-append f (e ∷ l) r = omega (arith, times-append f l r)

times-emit :
    (f : Event → ℕ) (e : Event) (m : ModuleInstance) → times f (emit e m).log ≡ times f m.log + f e
times-emit f e m = omega (arith, times-append f m.log (e ∷ []))

-- A resource that is still there was not closed, and none was closed twice.
pub record IsOnce (m : ModuleInstance) : Type 0 where
  pub notified : times notifies m.log + (if m.close_notifier then 1 else 0) ≤ 1
  pub fs : times closes_fs m.log + (if m.sys then 1 else 0) ≤ 1
  pub code : times closes_code m.log + (if m.code_closer then 1 else 0) ≤ 1
  pub memory : times retires m.log + (if m.memory_closed then 0 else 1) ≤ 1

emit-IsOnce :
    (e : Event) (m : ModuleInstance)
    → notifies e ≡ 0
    → closes_fs e ≡ 0
    → closes_code e ≡ 0
    → retires e ≡ 0
    → IsOnce m
    → IsOnce (emit e m)
emit-IsOnce e m a b c d v = record {
  notified = omega (arith, times-emit notifies e m, v.notified, a);
  fs = omega (arith, times-emit closes_fs e m, v.fs, b);
  code = omega (arith, times-emit closes_code e m, v.code, c);
  memory = omega (arith, times-emit retires e m, v.memory, d);
}

notify-IsOnce : (m : ModuleInstance) → IsOnce m → IsOnce (notify_close m)
unfolding notify_close
notify-IsOnce m v = elim (Bool-cases m.close_notifier) [
  | inl there ↦
      let e : Event = close_notified (m.closed / 2 ^ 32) in
      let had : times notifies m.log + 1 ≤ 1 = rw there at v.notified in
      rw (notify_close, there)
        (record {
          notified = omega (arith, times-emit notifies e m, had);
          fs = omega (arith, times-emit closes_fs e m, v.fs);
          code = omega (arith, times-emit closes_code e m, v.code);
          memory = omega (arith, times-emit retires e m, v.memory);
        })
  | inr gone ↦ rw (notify_close, gone) (rw gone at v)
]

retire-IsOnce : (m : ModuleInstance) → IsOnce m → IsOnce (retire_memory m)
unfolding retire_memory
retire-IsOnce m v = elim (Bool-cases m.memory_closed) [
  | inl gone ↦ rw (retire_memory, gone) (rw gone at v)
  | inr there ↦
      let had : times retires m.log + 1 ≤ 1 = rw there at v.memory in
      rw (retire_memory, there)
        (record {
          notified = omega (arith, times-emit notifies memory_retired m, v.notified);
          fs = omega (arith, times-emit closes_fs memory_retired m, v.fs);
          code = omega (arith, times-emit closes_code memory_retired m, v.code);
          memory = omega (arith, times-emit retires memory_retired m, had);
        })
]

module _ {E : Type 0} where
  close_sys-IsOnce :
      (fs_error : Option E) (m : ModuleInstance) → IsOnce m → IsOnce (close_sys fs_error m).0
  unfolding close_sys
  close_sys-IsOnce fs_error m v = elim (Bool-cases m.sys) [
    | inl there ↦
        let had : times closes_fs m.log + 1 ≤ 1 = rw there at v.fs in
        rw (close_sys, there)
          (record {
            notified = omega (arith, times-emit notifies fs_closed m, v.notified);
            fs = omega (arith, times-emit closes_fs fs_closed m, had);
            code = omega (arith, times-emit closes_code fs_closed m, v.code);
            memory = omega (arith, times-emit retires fs_closed m, v.memory);
          })
    | inr gone ↦ rw (close_sys, gone) (rw gone at v)
  ]

  close_code-IsOnce :
      (code_error : Option E) (m : ModuleInstance) (err : Option E)
      → IsOnce m
      → IsOnce (close_code code_error m err).0
  unfolding close_code
  close_code-IsOnce code_error m err v = elim (Bool-cases m.code_closer) [
    | inl there ↦
        let had : times closes_code m.log + 1 ≤ 1 = rw there at v.code in
        rw (close_code, there)
          (record {
            notified = omega (arith, times-emit notifies code_closed m, v.notified);
            fs = omega (arith, times-emit closes_fs code_closed m, v.fs);
            code = omega (arith, times-emit closes_code code_closed m, had);
            memory = omega (arith, times-emit retires code_closed m, v.memory);
          })
    | inr gone ↦ rw (close_code, gone) (rw gone at v)
  ]

module _ {E : Type 0} (fs_error code_error : Option E) where
  ensure-IsOnce :
      (m : ModuleInstance) → IsOnce m → IsOnce (ensure_resources_closed fs_error code_error m).0
  unfolding ensure_resources_closed
  ensure-IsOnce m v =
      close_code-IsOnce code_error _ _
        (retire-IsOnce _ (close_sys-IsOnce fs_error (notify_close m) (notify-IsOnce m v)))

  set-IsOnce :
      (m : ModuleInstance) (code flag : ℕ) → IsOnce m → IsOnce (set_exit_code m code flag).0
  unfolding set_exit_code
  set-IsOnce m code flag v = elim (Bool-cases (m.closed == 0)) [
    | inl fresh ↦
        rw (set_exit_code, fresh)
          (record { notified = v.notified; fs = v.fs; code = v.code; memory = v.memory })
    | inr done ↦ rw (set_exit_code, done) v
  ]

  step-IsOnce : (m : ModuleInstance) (c : Call) → IsOnce m → IsOnce (step fs_error code_error m c)
  unfolding step close_with_exit_code close_in_store close_without_resources fail_if_closed
  step-IsOnce m (close_call code) v =
      elim (Bool-cases (set_exit_code m code flag_resource_closed).1) [
        | inl first ↦
            rw (step, close_with_exit_code, first)
              (ensure-IsOnce _
                (emit-IsOnce module_deleted _ refl refl refl refl (set-IsOnce m code 1 v)))
        | inr late ↦ rw (step, close_with_exit_code, late) (set-IsOnce m code 1 v)
      ]
  step-IsOnce m (store_call code) v =
      elim (Bool-cases (set_exit_code m code flag_resource_closed).1) [
        | inl first ↦ rw (step, close_in_store, first) (ensure-IsOnce _ (set-IsOnce m code 1 v))
        | inr late ↦ rw (step, close_in_store, late) (set-IsOnce m code 1 v)
      ]
  step-IsOnce m (async_call code) v =
      elim (Bool-cases (set_exit_code m code flag_resource_not_closed).1) [
        | inl first ↦
            rw (step, close_without_resources, first)
              (emit-IsOnce module_deleted _ refl refl refl refl (set-IsOnce m code 2 v))
        | inr late ↦ rw (step, close_without_resources, late) (set-IsOnce m code 2 v)
      ]
  step-IsOnce m check_call v = elim (Bool-cases (m.closed == 0)) [
    | inl fresh ↦ rw (step, fail_if_closed, fresh) v
    | inr done ↦ elim (Bool-cases (bit_and m.closed 255 == 2)) [
      | inl pending ↦ rw (step, fail_if_closed, done, pending) (ensure-IsOnce m v)
      | inr other ↦ rw (step, fail_if_closed, done, other) v
    ]
  ]

  run-IsOnce :
      (m : ModuleInstance) (cs : List Call) → IsOnce m → IsOnce (run fs_error code_error m cs)
  unfolding run
  run-IsOnce m [] v = v
  run-IsOnce m (c ∷ cs) v = run-IsOnce (step fs_error code_error m c) cs (step-IsOnce m c v)

  -- From a module with an empty log, any sequence of the closing calls and FailIfClosed notifies
  -- the close at most once, closes the file system at most once and the code at most once, and
  -- retires the memory at most once.
  pub run_once :
      (m : ModuleInstance) (cs : List Call)
      → m.log ≡ []
      → let log = (run fs_error code_error m cs).log in
        (times notifies log ≤ 1)
        × (times closes_fs log ≤ 1)
        × (times closes_code log ≤ 1)
        × (times retires log ≤ 1)
  run_once m cs e =
      let start : IsOnce m = record {
        notified = rw e (ground arith);
        fs = rw e (ground arith);
        code = rw e (ground arith);
        memory = rw e (ground arith);
      } in
      let v = run-IsOnce m cs start in
      (
        omega (arith, v.notified),
        omega (arith, v.fs),
        omega (arith, v.code),
        omega (arith, v.memory),
      )
