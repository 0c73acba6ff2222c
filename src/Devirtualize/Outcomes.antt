-- ===== src/Devirtualize/Outcomes.antt =====
-- What the two passes do with a target that the program has not registered, or that cannot be linked.
use Prim.Native.String.{String}
use text.Mathlib.Text.{◌==◌ as str_eq}
use easy_just_in_time.Prelude.{
  ℕ, ◌≡◌, refl, sym, ap, ◌∙◌, inl, inr, true, false, none, some, List, [], ◌∷◌, ok, err, >>=-eq-ok,
  Bool-cases, Option-cases,
}
use easy_just_in_time.UnorderedMap.{find, is_some}
use easy_just_in_time.Llvm.{IrModule, Bitcode}
use easy_just_in_time.Tracker.{
  BitcodeTracker, bitcode_not_registered, has_global_mapping, get_name_and_global_mapping,
  get_module, nat_eq,
}
use easy_just_in_time.Devirtualize.{
  IrValue, call_inst, kind_at, exception, PassState, get_vtable_host_address,
  find_function_and_link_modules, devirtualize_instruction,
}
use easy_just_in_time.Devirtualize.Recast.{
  set_kind, called_value, call_of, constant_callee, indirect_call, indirect_calls,
  indirectcall_constant,
}

unregistered :
    (p : ℕ) (bt : BitcodeTracker)
    → has_global_mapping p bt ≡ false
    → get_name_and_global_mapping p bt ≡ err bitcode_not_registered
unfolding has_global_mapping get_name_and_global_mapping
unregistered p bt h = elim (Option-cases (find nat_eq p bt.functions)) [
  | inl e ↦ rw (e, get_name_and_global_mapping) refl
  | inr (info, e) ↦ absurd (cc (h, ap is_some e))
]

-- A virtual call of an object that is a constant, whose function the program has not registered, is not left
-- as it is: the exception of the tracker leaves the pass.
pub devirtualize_instruction_unregistered :
    (bc : Bitcode) (bt : BitcodeTracker) (strip : List IrValue → ℕ → ℕ) (memory : ℕ → ℕ)
    (cast_to : String → IrValue → IrValue) (i vtable location : ℕ) (s : PassState)
    → get_vtable_host_address strip s.table i ≡ some (vtable, location)
    → has_global_mapping (memory (memory location)) bt ≡ false
    → devirtualize_instruction bc bt strip memory cast_to i s
      ≡ err (exception bitcode_not_registered)
unfolding devirtualize_instruction find_function_and_link_modules
devirtualize_instruction_unregistered bc bt strip memory cast_to i vtable location s e h =
    rw
      (
        e,
        devirtualize_instruction,
        find_function_and_link_modules,
        unregistered (memory (memory location)) bt h,
      )
      refl

-- A call through a constant address, whose module the linker refuses, becomes a call of the null pointer.
pub indirect_call_null :
    (bc : Bitcode) (bt : BitcodeTracker) (strip : List IrValue → ℕ → ℕ) (sign_extended : ℕ → ℕ)
    (function_value : String → ℕ) (null i callee address : ℕ) (args : List ℕ) (s : PassState)
    (m : IrModule)
    → kind_at s.table i ≡ call_inst callee args
    → constant_callee s.table (strip s.table callee) ≡ some address
    → has_global_mapping (sign_extended address) bt ≡ true
    → get_module bc.parse_bitcode_file (sign_extended address) bt ≡ ok m
    → bc.link_modules s.ir_module m ≡ none
    → indirect_call bc bt strip sign_extended function_value null i s
      ≡ ok (record s { table = set_kind i (call_inst null args) s.table })
unfolding indirect_call find_function_and_link_modules has_global_mapping
    get_name_and_global_mapping
indirect_call_null bc bt strip sign_extended function_value null i callee address args s m is_call
      is_address registered parses refuses =
    elim (Option-cases (find nat_eq (sign_extended address) bt.functions)) [
      | inl e ↦ absurd (cc (registered, ap is_some e))
      | inr (info, e) ↦
          rw
            (
              is_call, indirect_call, is_address, find_function_and_link_modules,
              get_name_and_global_mapping, e, parses, refuses,
            )
            refl
    ]

indirect_call-changed :
    (bc : Bitcode) (bt : BitcodeTracker) (strip : List IrValue → ℕ → ℕ) (sign_extended : ℕ → ℕ)
    (function_value : String → ℕ) (null i : ℕ) (s t : PassState)
    → indirect_call bc bt strip sign_extended function_value null i s ≡ ok t
    → t.changed ≡ s.changed
unfolding indirect_call
indirect_call-changed bc bt strip sign_extended function_value null i s t eq =
    elim (Option-cases (call_of (kind_at s.table i))) [
      | inl e ↦
          let same : s ≡ t = cc (rw (e, indirect_call) at eq) in ap (λ x. x.changed) (sym same)
      | inr ((callee, args), e) ↦
          elim (Option-cases (constant_callee s.table (strip s.table callee))) [
            | inl e' ↦
                let same : s ≡ t = cc (rw (e, indirect_call, e') at eq) in
                ap (λ x. x.changed) (sym same)
            | inr (address, e') ↦
                let ((m, f), found, last) =
                  >>=-eq-ok
                    (find_function_and_link_modules bc bt s.ir_module (sign_extended address)) _
                    (rw (e, indirect_call, e') at eq) in
                let same : record s {
                  ir_module = m;
                  table = set_kind i (call_inst (called_value function_value null f) args) s.table;
                }
                    ≡ t =
                  cc last in
                ap (λ x. x.changed) (sym same)
          ]
    ]

indirect_calls-changed :
    (bc : Bitcode) (bt : BitcodeTracker) (strip : List IrValue → ℕ → ℕ) (sign_extended : ℕ → ℕ)
    (function_value : String → ℕ) (null : ℕ) (is : List ℕ) (s t : PassState)
    → indirect_calls bc bt strip sign_extended function_value null is s ≡ ok t
    → t.changed ≡ s.changed
unfolding indirect_calls
indirect_calls-changed bc bt strip sign_extended function_value null [] s t eq =
    let same : s ≡ t = cc eq in ap (λ x. x.changed) (sym same)
indirect_calls-changed bc bt strip sign_extended function_value null (i ∷ is) s t eq =
    let (u, first, rest) =
      >>=-eq-ok (indirect_call bc bt strip sign_extended function_value null i s)
        (λ u. indirect_calls bc bt strip sign_extended function_value null is u) eq in
    indirect_calls-changed bc bt strip sign_extended function_value null is u t rest
    ∙ indirect_call-changed bc bt strip sign_extended function_value null i s u first

-- Whatever it replaces, the pass on indirect calls answers that it changed nothing, if it returns.
pub indirectcall_constant_unreported :
    (bc : Bitcode) (bt : BitcodeTracker) (strip : List IrValue → ℕ → ℕ) (sign_extended : ℕ → ℕ)
    (function_value : String → ℕ) (null : ℕ) (target name : String) (is : List ℕ) (s t : PassState)
    → indirectcall_constant bc bt strip sign_extended function_value null target name is s ≡ ok t
    → t.changed ≡ false
unfolding indirectcall_constant
indirectcall_constant_unreported bc bt strip sign_extended function_value null target name is s t
      eq =
    elim (Bool-cases (str_eq name target)) [
      | inl e ↦
          indirect_calls-changed bc bt strip sign_extended function_value null is
            (record s { changed = false }) t (rw (e, indirectcall_constant) at eq)
      | inr e ↦
          let same : record s { changed = false } ≡ t = cc (rw (e, indirectcall_constant) at eq) in
          ap (λ x. x.changed) (sym same)
    ]
