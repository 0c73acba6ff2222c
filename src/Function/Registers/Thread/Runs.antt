-- ===== src/Function/Registers/Thread/Runs.antt =====
-- What the threads of a program find behind the pointer to the reserved registers, after whatever they did.
use Prim.Native.String.{String}
use mathlib.Core.Path.{subst}
use easy_just_in_time.Prelude.{
  ℕ, ◌≤◌, ◌<◌, ◌≡◌, ◌⊎◌, inl, inr, refl, sym, ap, ◌∙◌, Bool, true, List, [], Option, none, some, ok,
  err, length, ◌==◌, ==_iff,
}
use easy_just_in_time.Context.{RawBytes}
use easy_just_in_time.Function.Registers.{RegNameToIdx}
use easy_just_in_time.Function.Registers.Reserved.{
  Reserves, IsTable, hooked_get_reserved_regs-Reserves,
}
use easy_just_in_time.Function.Registers.Thread.{
  Method, original_get_reserved_regs, hooked_get_reserved_regs_type, ThreadFault,
  null_reserved_regs, dangling_reserved_regs, Runtime, update, hook_get_reserved_regs,
  read_reserved_regs, call_hooked, get_reserved_regs, compile_in, jit_in,
}

-- The virtual table has the original method, or the hook, which then calls the original.
abbrev pub IsHooked : Runtime → Type 0
IsHooked r =
    (r.vtable_entry ≡ hooked_get_reserved_regs_type)
    × (r.org_get_reserved_regs ≡ some original_get_reserved_regs)

abbrev pub IsUnhooked : Runtime → Type 0
IsUnhooked r = (r.vtable_entry ≡ original_get_reserved_regs) × (r.org_get_reserved_regs ≡ none)

pub hook-IsHooked : (r : Runtime) → IsUnhooked r ⊎ IsHooked r → IsHooked (hook_get_reserved_regs r)
unfolding hook_get_reserved_regs
hook-IsHooked r (inl (entry, org)) = rw org (refl, ap some entry)
hook-IsHooked r (inr (entry, org)) = rw org (entry, refl)

-- The hook changes only that.
pub hook_keeps :
    (r : Runtime)
    → ((hook_get_reserved_regs r).reg_name_to_idx ≡ r.reg_name_to_idx)
      × ((hook_get_reserved_regs r).contexts ≡ r.contexts)
      × ((hook_get_reserved_regs r).reserved_regs ≡ r.reserved_regs)
unfolding hook_get_reserved_regs
hook_keeps r = go r.org_get_reserved_regs refl
  where
    go :
        (o : Option Method)
        → r.org_get_reserved_regs ≡ o
        → ((hook_get_reserved_regs r).reg_name_to_idx ≡ r.reg_name_to_idx)
          × ((hook_get_reserved_regs r).contexts ≡ r.contexts)
          × ((hook_get_reserved_regs r).reserved_regs ≡ r.reserved_regs)
    go none e = rw e (refl, refl, refl)
    go (some method) e = rw e (refl, refl, refl)

pub update_self : (t a : ℕ) (g : ℕ → Option ℕ) → update g t (some a) t ≡ some a
update_self t a g = rw ((==_iff t t).1 refl) refl

-- What a thread reads.
read_living :
    (t a : ℕ) (r : Runtime) {raw : RawBytes}
    → r.reserved_regs t ≡ some a
    → r.contexts a ≡ some raw
    → read_reserved_regs t r ≡ ok raw.reserved_regs
unfolding read_reserved_regs
read_living t a r pointer living = rw (pointer, read_reserved_regs) (rw living refl)

pub read_dangling :
    (t a : ℕ) (r : Runtime)
    → r.reserved_regs t ≡ some a
    → r.contexts a ≡ none
    → read_reserved_regs t r ≡ err dangling_reserved_regs
unfolding read_reserved_regs
read_dangling t a r pointer gone = rw (pointer, read_reserved_regs) (rw gone refl)

pub read_null :
    (t : ℕ) (r : Runtime)
    → r.reserved_regs t ≡ none
    → read_reserved_regs t r ≡ err null_reserved_regs
unfolding read_reserved_regs
read_null t r pointer = rw (pointer, read_reserved_regs) refl

module _ (upper : String → String) (names : List String) (bits : List Bool) where
  abbrev pub IsReady : RegNameToIdx → Type 0
  IsReady table = (table ≡ []) ⊎ IsTable upper names table

  abbrev pub IsRuntime : Runtime → Type 0
  IsRuntime r = (IsUnhooked r ⊎ IsHooked r) × IsReady r.reg_name_to_idx

  pub get_reserved_regs-hooked :
      (t : ℕ) (r : Runtime)
      → IsHooked r
      → get_reserved_regs upper names bits t r
        ≡ call_hooked upper names bits (some original_get_reserved_regs) t r
  unfolding get_reserved_regs
  get_reserved_regs-hooked t r (entry, org) = rw (entry, org) refl

  -- A thread that has no registers to read gets a fault.
  pub get_reserved_regs_fault :
      (t : ℕ) (r : Runtime) {e : ThreadFault}
      → IsHooked r
      → read_reserved_regs t r ≡ err e
      → get_reserved_regs upper names bits t r ≡ err e
  unfolding call_hooked
  get_reserved_regs_fault t r hooked e = get_reserved_regs-hooked t r hooked ∙ rw e refl

  module _ (pos : 0 < length names) (le : length names ≤ length bits) where
    -- The answer to a thread that has registers to read.
    abbrev pub Answers : List String → ℕ → Runtime → Type 0
    Answers regs t r =
        (bits' : List Bool) × (table : RegNameToIdx) × (get_reserved_regs upper names bits t r
          ≡ ok (bits', record r { reg_name_to_idx = table }))
        × Reserves upper names regs bits bits'
        × IsTable upper names table

    pub get_reserved_regs-Reserves :
        (t : ℕ) (regs : List String) (r : Runtime)
        → IsHooked r
        → IsReady r.reg_name_to_idx
        → read_reserved_regs t r ≡ ok regs
        → Answers regs t r
    unfolding call_hooked
    get_reserved_regs-Reserves t regs r hooked ready read =
        let (bits', table, ran, reserved, is) =
          hooked_get_reserved_regs-Reserves upper names regs r.reg_name_to_idx bits ready pos le in
        (bits', table, get_reserved_regs-hooked t r hooked ∙ rw (read, ran) refl, reserved, is)

    -- A compilation for a living context.
    abbrev pub Compiles : ℕ → ℕ → RawBytes → Runtime → Type 0
    Compiles t a raw r =
        (bits' : List Bool) × (r' : Runtime) × (compile_in upper names bits t a r ≡ ok (bits', r'))
        × Reserves upper names raw.reserved_regs bits bits'
        × IsHooked r'
        × IsReady r'.reg_name_to_idx
        × (r'.contexts ≡ r.contexts)
        × (r'.reserved_regs ≡ update r.reserved_regs t (some a))

    pub compile_in-Compiles :
        (t a : ℕ) (raw : RawBytes) (r : Runtime)
        → IsRuntime r
        → r.contexts a ≡ some raw
        → Compiles t a raw r
    unfolding compile_in
    compile_in-Compiles t a raw r (method, ready) living =
        let r1 = hook_get_reserved_regs r in
        let (same_table, same_contexts, same_regs) = hook_keeps r in
        let r2 : Runtime = record r1 { reserved_regs = update r1.reserved_regs t (some a) } in
        let hooked : IsHooked r1 = hook-IsHooked r method in
        let here : r1.contexts a ≡ some raw = ap (λ c. c a) same_contexts ∙ living in
        let (bits', table, ran, reserved, is) =
          get_reserved_regs-Reserves t raw.reserved_regs r2 hooked
            (subst IsReady (sym same_table) ready)
            (read_living t a r2 (update_self t a r1.reserved_regs) here) in
        (
          bits',
          record r2 { reg_name_to_idx = table },
          ran,
          reserved,
          hooked,
          inr is,
          same_contexts,
          ap (λ g. update g t (some a)) same_regs,
        )

    -- A call of `easy::jit_`: afterwards its context is gone.
    abbrev pub Jits : ℕ → ℕ → RawBytes → Runtime → Type 0
    Jits t a raw r =
        (bits' : List Bool) × (r' : Runtime) × (jit_in upper names bits t a raw r ≡ ok (bits', r'))
        × Reserves upper names raw.reserved_regs bits bits'
        × IsHooked r'
        × IsReady r'.reg_name_to_idx
        × (r'.contexts a ≡ none)
        × (r'.reserved_regs ≡ update r.reserved_regs t (some a))

    pub jit_in-Jits : (t a : ℕ) (raw : RawBytes) (r : Runtime) → IsRuntime r → Jits t a raw r
    unfolding jit_in
    jit_in-Jits t a raw r is =
        let self : (a == a) ≡ true = (==_iff a a).1 refl in
        let r1 : Runtime = record r { contexts = update r.contexts a (some raw) } in
        let (bits', r', ran, reserved, hooked, ready, same_contexts, same_regs) =
          compile_in-Compiles t a raw r1 is (rw self refl) in
        (
          bits',
          record r' { contexts = update r'.contexts a none },
          rw ran refl,
          reserved,
          hooked,
          ready,
          rw self refl,
          same_regs,
        )
