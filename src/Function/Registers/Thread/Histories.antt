-- ===== src/Function/Registers/Thread/Histories.antt =====
-- The pointer to the reserved registers after any actions of a program's threads.
use mathlib.Core.Path.{subst}
use Prim.Native.String.{String}
use easy_just_in_time.Prelude.{
  ℕ, ◌≤◌, ◌<◌, ◌≡◌, ◌≢◌, inl, inr, refl, sym, ap, ◌∙◌, Bool, List, [], ◌∷◌, Option, none, some,
  Result, ok, err, >>=-eq-ok, length, ◌==◌, ==_iff, Bool-cases,
}
use easy_just_in_time.Context.{RawBytes}
use easy_just_in_time.Function.Registers.Reserved.{Reserves}
use easy_just_in_time.Function.Registers.Thread.{
  Method, call_method, ThreadFault, null_reserved_regs, dangling_reserved_regs,
  original_get_reserved_regs, Runtime, new_runtime, update, hook_get_reserved_regs,
  read_reserved_regs, call_hooked, get_reserved_regs, compile_in, jit_in, Action, construct,
  destroy, compile_action, jit_action, deserialize_action, failed_action, act, run,
}
use easy_just_in_time.Function.Registers.Thread.Runs.{
  IsRuntime, IsReady, hook-IsHooked, hook_keeps, get_reserved_regs-hooked, get_reserved_regs_fault,
  get_reserved_regs-Reserves, compile_in-Compiles, jit_in-Jits, read_dangling, read_null,
  update_self,
}

abbrev after : Runtime → Result ThreadFault (List Bool × Runtime) → Runtime
after r (ok answer) = answer.1
after r (err e) = r

update_other :
    (t other : ℕ) (v : Option ℕ) (g : ℕ → Option ℕ) → t ≢ other → update g t v other ≡ g other
update_other t other v g differs = elim (Bool-cases (t == other)) [
  | inl same ↦ absurd (differs ((==_iff t other).0 same))
  | inr no_match ↦ rw no_match refl
]

module _ (upper : String → String) (names : List String) (bits : List Bool) (pos : 0 < length names)
    (le : length names ≤ length bits) where
  call_original :
      (t : ℕ) (r : Runtime) (method : Method)
      → method ≡ original_get_reserved_regs
      → call_method upper names bits method t r ≡ ok (bits, r)
  call_original t r method e = rw e refl

  get_reserved_regs-IsRuntime :
      (t : ℕ) (r : Runtime) {answer : List Bool × Runtime}
      → IsRuntime upper names bits r
      → get_reserved_regs upper names bits t r ≡ ok answer
      → IsRuntime upper names bits answer.1
  unfolding get_reserved_regs call_hooked
  get_reserved_regs-IsRuntime t r {answer} (inl (entry, org), ready) e =
      let same : r ≡ answer.1 = ap (after r) (sym (call_original t r r.vtable_entry entry) ∙ e) in
      rw (← same) (inl (entry, org), ready)
  get_reserved_regs-IsRuntime t r {answer} (inr hooked, ready) e =
      let called = sym (get_reserved_regs-hooked upper names bits t r hooked) ∙ e in
      let (regs, read, rest) = >>=-eq-ok (read_reserved_regs t r) _ called in
      let (bits', table, ran, reserved, is) =
        get_reserved_regs-Reserves upper names bits pos le t regs r hooked ready read in
      let same : record r { reg_name_to_idx = table } ≡ answer.1 = ap (after r) (sym ran ∙ e) in
      rw (← same) (inr hooked, inr is)

  hook-IsRuntime :
      (r : Runtime)
      → IsRuntime upper names bits r
      → IsRuntime upper names bits (hook_get_reserved_regs r)
  hook-IsRuntime r (method, ready) =
      (inr (hook-IsHooked r method), subst (IsReady upper names bits) (sym (hook_keeps r).0) ready)

  compile_in-IsRuntime :
      (t a : ℕ) (r : Runtime) {answer : List Bool × Runtime}
      → IsRuntime upper names bits r
      → compile_in upper names bits t a r ≡ ok answer
      → IsRuntime upper names bits answer.1
  unfolding compile_in
  compile_in-IsRuntime t a r is e =
      let r1 = hook_get_reserved_regs r in
      get_reserved_regs-IsRuntime t
        (record r1 { reserved_regs = update r1.reserved_regs t (some a) }) (hook-IsRuntime r is) e

  act-IsRuntime :
      (action : Action) (r : Runtime) {r' : Runtime}
      → IsRuntime upper names bits r
      → act upper names bits action r ≡ ok r'
      → IsRuntime upper names bits r'
  unfolding act jit_in
  act-IsRuntime (construct a raw) r {r'} is e =
      let same : record r { contexts = update r.contexts a (some raw) } ≡ r' = cc e in
      rw (← same) is
  act-IsRuntime (destroy a) r {r'} is e =
      let same : record r { contexts = update r.contexts a none } ≡ r' = cc e in rw (← same) is
  act-IsRuntime (compile_action t a) r {r'} is e =
      let (answer, ran, e1) = >>=-eq-ok (compile_in upper names bits t a r) _ e in
      let same : answer.1 ≡ r' = cc e1 in rw (← same) (compile_in-IsRuntime t a r is ran)
  act-IsRuntime (jit_action t a raw) r {r'} is e =
      let r1 : Runtime = record r { contexts = update r.contexts a (some raw) } in
      let (answer, ran, e1) = >>=-eq-ok (jit_in upper names bits t a raw r) _ e in
      let (inner, compiled, e2) = >>=-eq-ok (compile_in upper names bits t a r1) _ ran in
      let last : record (inner.1) { contexts = update inner.1.contexts a none } ≡ answer.1 =
        ap (after r) e2 in
      let same : answer.1 ≡ r' = cc e1 in
      rw (← same) (rw (← last) (compile_in-IsRuntime t a r1 is compiled))
  act-IsRuntime (deserialize_action t) r {r'} is e =
      let (answer, ran, e1) = >>=-eq-ok (get_reserved_regs upper names bits t r) _ e in
      let same : answer.1 ≡ r' = cc e1 in rw (← same) (get_reserved_regs-IsRuntime t r is ran)
  act-IsRuntime failed_action r {r'} is e =
      let same : hook_get_reserved_regs r ≡ r' = cc e in rw (← same) (hook-IsRuntime r is)

  run-IsRuntime :
      (actions : List Action) (r : Runtime) {r' : Runtime}
      → IsRuntime upper names bits r
      → run upper names bits actions r ≡ ok r'
      → IsRuntime upper names bits r'
  unfolding run
  run-IsRuntime [] r {r'} is e = let same : r ≡ r' = cc e in rw (← same) is
  run-IsRuntime (action ∷ actions) r is e =
      let (r1, acted, e1) = >>=-eq-ok (act upper names bits action r) _ e in
      run-IsRuntime actions r1 (act-IsRuntime action r is acted) e1

  new_runtime-IsRuntime : IsRuntime upper names bits new_runtime
  new_runtime-IsRuntime = (inl (refl, refl), inl refl)

  -- Take a target with at least one register and a bit for each, and a program whose threads have done
  -- anything without a fault so far: made and destroyed contexts, compiled for them, called `easy::jit_`,
  -- read functions, and compiled in vain. Then a compilation in any thread for a context that lives does not
  -- fault: the hook calls the method that was there before it, and sets the bits of the registers that this
  -- context reserves and no others. From then on the thread's pointer leads to this context, and the other
  -- threads' pointers are as before.
  pub compile_in-Reserves :
      (actions : List Action) (t a : ℕ) (raw : RawBytes) {r : Runtime}
      → run upper names bits actions new_runtime ≡ ok r
      → r.contexts a ≡ some raw
      → (bits' : List Bool) × (r' : Runtime) × (compile_in upper names bits t a r ≡ ok (bits', r'))
        × Reserves upper names raw.reserved_regs bits bits'
        × (r'.reserved_regs ≡ update r.reserved_regs t (some a))
  compile_in-Reserves actions t a raw {r} ran living =
      let is = run-IsRuntime actions new_runtime new_runtime-IsRuntime ran in
      let (bits', r', compiled, reserved, hooked, ready, contexts, regs) =
        compile_in-Compiles upper names bits pos le t a raw r is living in
      (bits', r', compiled, reserved, regs)

  -- Take such a target and such a program, and a call of `easy::jit_` in a thread. It does not fault, and
  -- reserves its registers. But it leaves the thread a pointer into its context, which is gone: code that
  -- the thread generates next without compiling, as `Function::deserialize` does, reads it. And in a thread
  -- that has compiled nothing yet, it uses a null pointer.
  pub get_reserved_regs_after_jit :
      (actions : List Action) (t a other : ℕ) (raw : RawBytes) {r : Runtime}
      → run upper names bits actions new_runtime ≡ ok r
      → t ≢ other
      → r.reserved_regs other ≡ none
      → (bits' : List Bool) × (r' : Runtime) × (jit_in upper names bits t a raw r ≡ ok (bits', r'))
        × Reserves upper names raw.reserved_regs bits bits'
        × (get_reserved_regs upper names bits t r' ≡ err dangling_reserved_regs)
        × (get_reserved_regs upper names bits other r' ≡ err null_reserved_regs)
  get_reserved_regs_after_jit actions t a other raw {r} ran differs nothing =
      let is = run-IsRuntime actions new_runtime new_runtime-IsRuntime ran in
      let (bits', r', jitted, reserved, hooked, ready, gone, regs) =
        jit_in-Jits upper names bits pos le t a raw r is in
      let pointer : r'.reserved_regs t ≡ some a =
        ap (λ g. g t) regs ∙ update_self t a r.reserved_regs in
      let no_pointer : r'.reserved_regs other ≡ none =
        ap (λ g. g other) regs ∙ update_other t other (some a) r.reserved_regs differs ∙ nothing in
      (
        bits',
        r',
        jitted,
        reserved,
        get_reserved_regs_fault upper names bits t r' hooked (read_dangling t a r' pointer gone),
        get_reserved_regs_fault upper names bits other r' hooked (read_null other r' no_pointer),
      )
