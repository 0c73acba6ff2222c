-- ===== src/Tests/Behaviour.antt =====
-- The theorems on what a wrapper does, on the constant of a struct and on the threads' reserved registers, at
-- concrete inputs.
use Prim.Native.String.{String}
use easy_just_in_time.Prelude.{
  ℕ, length, get_elem?, zero, suc, ◌*◌, ◌<◌, ◌≡◌, refl, inl, inr, Bool, true, false, List, [], ◌∷◌,
  Option, none, some, Result, ok, err, arith,
}
use easy_just_in_time.Context.{RawBytes}
use easy_just_in_time.UnorderedMap.{find}
use easy_just_in_time.Llvm.{int_ty, struct_ty, array_ty, nil, cons, pointer_ty, LlvmType, IrModule}
use easy_just_in_time.Inline.{Fault}
use easy_just_in_time.Inline.Constants.{Constant, fp_bits, int_const, DataLayout}
use easy_just_in_time.Inline.Bind.Wrapper.{IsBound, run_on_module-std_bind}
use easy_just_in_time.Inline.Structs.{drop, get_global_struct}
use easy_just_in_time.Inline.Structs.Memory.{IsPlain, Holds, HasType}
use easy_just_in_time.Inline.Structs.Memory.Built.{get_global_struct-Holds}
use easy_just_in_time.Function.Registers.{
  hooked_get_reserved_regs, index_names, reserve, index_of, fill,
}
use easy_just_in_time.Function.Registers.Reserved.{Reserves}
use easy_just_in_time.Function.Registers.Thread.{
  Runtime, hooked_get_reserved_regs_type, original_get_reserved_regs, new_runtime, update, Action,
  construct, jit_action, run, compile_in, jit_in, get_reserved_regs, dangling_reserved_regs,
  null_reserved_regs, act, hook_get_reserved_regs, read_reserved_regs, call_hooked,
}
use easy_just_in_time.Function.Registers.Thread.Histories.{
  compile_in-Reserves, get_reserved_regs_after_jit,
}
use easy_just_in_time.Llvm.{IrFunction, double_ty}
use easy_just_in_time.Inline.{
  high_level_layout, layout_of, layout_args, get_new_layout, count_new_args, get_wrapper_ty,
}
use easy_just_in_time.Inline.Constants.{get_scalar_argument}
use easy_just_in_time.Inline.Args.{Wrapper, wrapper_param, constant, create_wrapper_fun}
use easy_just_in_time.Inline.Args.Forward.{AllForwarded}
use easy_just_in_time.Inline.Args.Attributes.{create_wrapper_fun_attributes}
use easy_just_in_time.Tests.{sample_params, sample_result, mapped_parameters}
use easy_just_in_time.Tests.Wrapper.{
  sample_conversions, lower, no_bytes, sample_args, sample_function, sample_context, sample_layout,
  sample_context-built, sample_data_layout,
}
use easy_just_in_time.Tracker.{get_name_and_global_mapping, get_module}
use easy_just_in_time.Function.{called_names, write_optimized_to_file}
use easy_just_in_time.Jit.Returns.{ReturnsBind, jit_raw_returns}
use easy_just_in_time.Tests.Compiled.{
  byte_text, sample_passes, sample_builder, opens_all, sample_bitcode, sample_tracker,
  sample_modules, plain_module, same_text,
}

abbrev pub same_constant : Constant ℕ → Constant ℕ
same_constant c = c

-- `easy::jit(f, _2, 7, _1)(2.0, 5)` calls `f(5, 7, 2.0)`.
run_on_module-std_bind_example :
    IsBound ⦃conv = sample_conversions⦄ lower
      (λ w s. refl)
      refl
      same_constant
      (fp_bits 64 2 ∷ int_const 32 5 ∷ [])
      sample_bitcode
      sample_tracker
      sample_data_layout
      sample_modules
      "f"
      sample_function
      (pointer_ty (int_ty 8))
      sample_context
      plain_module
      sample_params
      sample_args
      sample_result
unfolding find
run_on_module-std_bind_example =
    run_on_module-std_bind ⦃conv = sample_conversions⦄ lower (λ w s. refl) refl same_constant
      (fp_bits 64 2 ∷ int_const 32 5 ∷ []) sample_bitcode sample_tracker sample_data_layout
      sample_modules no_bytes sample_params sample_args "f" sample_function (pointer_ty (int_ty 8))
      plain_module (omega arith) refl refl refl sample_context-built mapped_parameters
      (omega arith, (omega arith, (omega arith, tt))) (((λ e. cc e), tt), (tt, tt))

-- `struct { int8_t a; int16_t b[2]; }` with a byte of padding.
abbrev pub padded_layout : DataLayout
padded_layout = record {
  type_store_size = λ t. 2;
  type_alloc_size = λ t. 2;
  element_offset = λ ts i. elim i [ zero ↦ 0 | suc (k → _) ↦ 2 ];
}

abbrev pub padded_struct : LlvmType
padded_struct = struct_ty (cons (int_ty 8) (cons (array_ty 2 (int_ty 16)) nil))

abbrev pub never_linked : ℕ → LlvmType → IrModule → Result Fault (IrModule × Option (Constant ℕ))
never_linked p t m = ok (m, none)

abbrev pub padded_bytes : List ℕ
padded_bytes = 7 ∷ 0 ∷ 1 ∷ 2 ∷ 3 ∷ 0 ∷ []

padded_elements :
    (i : ℕ) → i < 2 → IsPlain padded_layout (int_ty 16) (drop (i * 2) (1 ∷ 2 ∷ 3 ∷ 0 ∷ []))
padded_elements zero lt = (2, inr (inl refl), refl, omega arith)
padded_elements (suc zero) lt = (2, inr (inl refl), refl, omega arith)
padded_elements (suc (suc i)) lt = absurd (omega arith)

get_global_struct-Holds_example :
    (c : Constant ℕ) × (get_global_struct padded_layout never_linked padded_struct padded_bytes
        plain_module
      ≡ ok (plain_module, some c))
    × HasType padded_layout c padded_struct
    × Holds padded_layout c padded_bytes
get_global_struct-Holds_example =
    get_global_struct-Holds padded_layout never_linked padded_struct padded_bytes plain_module
      ((1, inl refl, refl, omega arith), (padded_elements, tt))

-- Two threads: the first one has called `easy::jit_`, which reserved a register.
abbrev reserves_ebx : RawBytes
reserves_ebx = record { bytes = []; reserved_regs = "EBX" ∷ [] }

abbrev two_names : List String
two_names = "EAX" ∷ "EBX" ∷ []

abbrev two_bits : List Bool
two_bits = true ∷ false ∷ []

abbrev jitted : List Action
jitted = jit_action 1 4096 reserves_ebx ∷ construct 8192 reserves_ebx ∷ []

abbrev jitted_runtime : Runtime
jitted_runtime = record {
  vtable_entry = hooked_get_reserved_regs_type;
  org_get_reserved_regs = some original_get_reserved_regs;
  reg_name_to_idx = ("EBX", 1) ∷ ("EAX", 0) ∷ [];
  reserved_regs = update (λ t. none) 1 (some 4096);
  contexts =
      update (update (update (λ a. none) 4096 (some reserves_ebx)) 4096 none) 8192
        (some reserves_ebx);
}

ran : run same_text two_names two_bits jitted new_runtime ≡ ok jitted_runtime
unfolding run act jit_in compile_in hook_get_reserved_regs get_reserved_regs call_hooked
    read_reserved_regs hooked_get_reserved_regs index_names reserve index_of fill find
ran = refl

compile_in-Reserves_example :
    (bits' : List Bool) × (r' : Runtime) × (compile_in same_text two_names two_bits 2 8192
        jitted_runtime
      ≡ ok (bits', r'))
    × Reserves same_text two_names ("EBX" ∷ []) two_bits bits'
    × (r'.reserved_regs ≡ update jitted_runtime.reserved_regs 2 (some 8192))
compile_in-Reserves_example =
    compile_in-Reserves same_text two_names two_bits (omega arith) (omega arith) jitted 2 8192
      reserves_ebx ran refl

get_reserved_regs_after_jit_example :
    (bits' : List Bool) × (r' : Runtime) × (jit_in same_text two_names two_bits 1 4096 no_bytes
        jitted_runtime
      ≡ ok (bits', r'))
    × Reserves same_text two_names [] two_bits bits'
    × (get_reserved_regs same_text two_names two_bits 1 r' ≡ err dangling_reserved_regs)
    × (get_reserved_regs same_text two_names two_bits 2 r' ≡ err null_reserved_regs)
get_reserved_regs_after_jit_example =
    get_reserved_regs_after_jit same_text two_names two_bits (omega arith) (omega arith) jitted 1
      4096 2 no_bytes ran (λ e. omega arith) refl

jit_raw_returns_example :
    ReturnsBind sample_passes sample_bitcode sample_tracker byte_text sample_data_layout
      sample_modules sample_builder opens_all ⦃conv = sample_conversions⦄ lower
      (λ w s. refl)
      refl
      same_constant
      (fp_bits 64 2 ∷ int_const 32 5 ∷ [])
      no_bytes
      sample_params
      16
      sample_args
      "f"
      (some (record { name = "g"; address = 5 } ∷ []))
      plain_module
      sample_context
      sample_result
unfolding find get_name_and_global_mapping get_module called_names write_optimized_to_file
jit_raw_returns_example =
    jit_raw_returns sample_passes sample_bitcode sample_tracker byte_text sample_data_layout
      sample_modules sample_builder opens_all ⦃conv = sample_conversions⦄ lower (λ w s. refl) refl
      same_constant (fp_bits 64 2 ∷ int_const 32 5 ∷ []) no_bytes sample_params 16 sample_args "f"
      (some (record { name = "g"; address = 5 } ∷ [])) plain_module [] (λ made. (0, refl)) refl refl
      refl tt sample_context-built refl refl refl refl (omega arith) mapped_parameters
      (omega arith, (omega arith, (omega arith, tt))) (((λ e. cc e), tt), (tt, tt))

-- The function with attributes: 5 on itself, 1 on its first and 3 on its third parameter.
abbrev attributed_function : IrFunction
attributed_function = record sample_function {
  fn_attrs = 5 ∷ [];
  param_attrs = (1 ∷ []) ∷ [] ∷ (3 ∷ []) ∷ [];
}

abbrev attributed_wrapper : Wrapper ℕ
attributed_wrapper = record {
  params = double_ty ∷ int_ty 32 ∷ [];
  return_type = int_ty 32;
  call_args = wrapper_param 1 ∷ constant (some (int_const 64 7)) ∷ wrapper_param 0 ∷ [];
  struct_ret = false;
  fn_attrs = 5 ∷ [];
  param_attrs = (0, 3 ∷ []) ∷ (1, 1 ∷ []) ∷ [];
}

attributed_wrapper_made :
    create_wrapper_fun sample_bitcode sample_tracker sample_data_layout sample_modules
      attributed_function sample_layout sample_context plain_module
    ≡ ok (plain_module, attributed_wrapper)
unfolding create_wrapper_fun get_new_layout get_scalar_argument get_wrapper_ty
attributed_wrapper_made = refl

attributed_laid_out : high_level_layout attributed_function ≡ ok sample_layout
unfolding high_level_layout layout_of layout_args
attributed_laid_out = refl

both_forwarded : AllForwarded sample_context.argument_mapping sample_layout.args
unfolding count_new_args
both_forwarded zero lt = (_, refl)
both_forwarded (suc zero) lt = (_, refl)
both_forwarded (suc (suc j)) lt = absurd (omega arith)

create_wrapper_fun_attributes_example :
    (attributed_wrapper.fn_attrs ≡ attributed_function.fn_attrs)
    × (length attributed_wrapper.param_attrs ≡ count_new_args 0 sample_context.argument_mapping)
    × (get_elem? attributed_wrapper.param_attrs 0 ≡ some (0, 3 ∷ []))
create_wrapper_fun_attributes_example =
    create_wrapper_fun_attributes sample_bitcode sample_tracker sample_data_layout sample_modules
      attributed_function sample_context plain_module 0 attributed_laid_out attributed_wrapper_made
      both_forwarded refl
