-- ===== src/Tests/Wrapper.antt =====
-- The theorems on bound arguments and wrappers at concrete inputs, for the function `int f(int, unsigned
-- long, double)`.
use easy_just_in_time.Prelude.{
  ℕ, zero, suc, inl, inr, ◌≡◌, refl, true, false, not, List, [], ◌∷◌, none, some, ok, err, ◌==◌,
  arith, map,
}
use easy_just_in_time.Meta.{
  CppType, void_type, boolean, integral, floating, pointer, reference, class_type,
}
use easy_just_in_time.Context.{
  Argument, forward_argument, int_argument, Context, RawBytes, new_context, set_arg,
  set_parameter_int, set_parameter_index, set_opt_level, set_raw_bytes,
}
use easy_just_in_time.Params.{
  Conversions, int_value, opt_level, Arg, placeholder_arg, option_arg, plain, set_param,
  get_context_for_raw, set_parameters, set_options, handle, set_param_plain, as_integral,
  convert_int,
}
use easy_just_in_time.Params.Bound.{Bound, get_context_for_raw-Bound}
use easy_just_in_time.Tests.{sample_params, sample_result, mapped_parameters}
use easy_just_in_time.Llvm.{
  LlvmType, int_ty, double_ty, pointer_ty, void_ty, other_ty, IrModule, IrFunction,
}
use easy_just_in_time.Utils.{get_entry_function_name, mark_as_entry, unmark_entry, no_metadata}
use easy_just_in_time.Utils.Entry.{get_entry_function_name-mark_as_entry}
use easy_just_in_time.Inline.{
  parameter_out_of_range, position_not_found, layout_of, layout_args, keep_forwarded, set_param_idx,
  HighLevelLayout, high_level_layout, get_new_layout, get_wrapper_ty, count_new_args,
}
use easy_just_in_time.Inline.NewLayout.{high_level_layout_struct_ret}
use easy_just_in_time.Inline.Args.{
  wrapper_param, constant, find_position, get_forward_args, fields_from_raw,
}
use easy_just_in_time.Inline.Args.Forward.{AllForwarded, get_forward_args_lem}
use easy_just_in_time.Inline.Constants.{DataLayout, int_const, get_scalar_argument}
use easy_just_in_time.Inline.Constants.Scalars.{
  get_scalar_argument-set_param, fields_from_raw-field_bytes,
}
use easy_just_in_time.Inline.Signature.{get_wrapper_ty-parameter_list}

abbrev pub sample_conversions : Conversions ℕ
sample_conversions = record {
  from_int = λ signed n. suc n;
  to_int64 = λ d. d;
  is_nonzero = λ d. not (d == 0);
  round = λ w d. d;
}

abbrev pub lower : CppType → LlvmType
lower void_type = void_ty
lower boolean = int_ty 1
lower (integral w signed) = int_ty w
lower (floating w) = double_ty
lower (pointer t) = pointer_ty (int_ty 8)
lower (reference t) = pointer_ty (int_ty 8)
lower (class_type t) = other_ty t

abbrev pub sample_function : IrFunction
sample_function = record {
  params = int_ty 32 ∷ int_ty 64 ∷ double_ty ∷ [];
  return_type = int_ty 32;
  struct_ret = false;
  fn_attrs = [];
  param_attrs = [];
}

-- `easy::jit(f, _2, 7, _1, opt_level(3, 0))`
abbrev pub sample_args : List (Arg ℕ)
sample_args =
    placeholder_arg 1
    ∷ plain (int_value true 7) 4096 (7 ∷ 0 ∷ 0 ∷ 0 ∷ [])
    ∷ placeholder_arg 0
    ∷ option_arg (opt_level 3 0) 8192 []
    ∷ []

abbrev pub no_bytes : RawBytes
no_bytes = record { bytes = []; reserved_regs = [] }

abbrev pub sample_context : Context ℕ
sample_context = record new_context {
  argument_mapping = forward_argument 1 ∷ int_argument 7 ∷ forward_argument 0 ∷ [];
  opt_level = 3;
}

pub sample_context-built :
    get_context_for_raw ⦃conv = sample_conversions⦄ no_bytes sample_params sample_args
    ≡ ok sample_context
unfolding get_context_for_raw set_parameters set_raw_bytes set_param set_options handle
    set_opt_level set_param_plain as_integral convert_int set_parameter_int set_parameter_index
    set_arg
sample_context-built = refl

get_context_for_raw-Bound_example :
    Bound ⦃conv = sample_conversions⦄ sample_params sample_args sample_context.argument_mapping
    × (sample_context.raw_bytes ≡ no_bytes)
    × (sample_context.argument_layout ≡ [])
get_context_for_raw-Bound_example =
    get_context_for_raw-Bound ⦃conv = sample_conversions⦄ no_bytes sample_params sample_args
      sample_context-built

get_wrapper_ty-parameter_list_example :
    (hll : HighLevelLayout) × (new : HighLevelLayout) × (high_level_layout sample_function ≡ ok hll)
    × (get_new_layout sample_context hll ≡ ok new)
    × (get_wrapper_ty new ≡ map lower sample_result)
get_wrapper_ty-parameter_list_example =
    get_wrapper_ty-parameter_list ⦃conv = sample_conversions⦄ lower no_bytes sample_params
      sample_args sample_function (omega arith) refl refl sample_context-built
      (refl, (refl, (refl, tt))) (omega arith, (tt, (omega arith, (tt, tt)))) mapped_parameters

high_level_layout_struct_ret_example :
    high_level_layout (record sample_function { struct_ret = true }) ≡ err parameter_out_of_range
high_level_layout_struct_ret_example =
    high_level_layout_struct_ret (record sample_function { struct_ret = true }) (omega arith) refl

-- The layout of `sample_function`, and a wrapper for `f(_2, _1, _1)`.
abbrev pub sample_layout : HighLevelLayout
sample_layout = record {
  struct_return = none;
  args =
      record {
        position = 0;
        first_param_idx = 0;
        types = int_ty 32 ∷ [];
        struct_by_pointer = false;
      }
      ∷ record {
        position = 1;
        first_param_idx = 1;
        types = int_ty 64 ∷ [];
        struct_by_pointer = false;
      }
      ∷ record {
        position = 2;
        first_param_idx = 2;
        types = double_ty ∷ [];
        struct_by_pointer = false;
      }
      ∷ [];
  return_type = int_ty 32;
}

abbrev repeated_context : Context ℕ
repeated_context = record new_context {
  argument_mapping = forward_argument 1 ∷ forward_argument 0 ∷ forward_argument 0 ∷ [];
}

abbrev repeated_layout : HighLevelLayout
repeated_layout = record sample_layout {
  args =
      record {
        position = 1;
        first_param_idx = 0;
        types = int_ty 64 ∷ [];
        struct_by_pointer = false;
      }
      ∷ record {
        position = 0;
        first_param_idx = 1;
        types = int_ty 32 ∷ [];
        struct_by_pointer = false;
      }
      ∷ [];
}

all_forwarded : AllForwarded repeated_context.argument_mapping sample_layout.args
unfolding count_new_args
all_forwarded zero lt = (_, refl)
all_forwarded (suc zero) lt = (_, refl)
all_forwarded (suc (suc j)) lt = absurd (omega arith)

pub laid_out : high_level_layout sample_function ≡ ok sample_layout
unfolding high_level_layout layout_of layout_args
laid_out = refl

wrapped : get_new_layout repeated_context sample_layout ≡ ok repeated_layout
unfolding get_new_layout count_new_args keep_forwarded set_param_idx
wrapped = refl

get_forward_args_lem_example :
    get_forward_args {D = ℕ}
      (record {
        position = 1;
        first_param_idx = 1;
        types = int_ty 64 ∷ [];
        struct_by_pointer = false;
      })
      sample_layout
      repeated_layout
    ≡ ok (wrapper_param 0 ∷ [])
get_forward_args_lem_example =
    get_forward_args_lem sample_function repeated_context 1 0 laid_out wrapped all_forwarded refl
      refl refl

-- The last argument, which is forwarded to the same index as the one before it.
repeated_forward :
    get_forward_args {D = ℕ}
      (record {
        position = 2;
        first_param_idx = 2;
        types = double_ty ∷ [];
        struct_by_pointer = false;
      })
      sample_layout
      repeated_layout
    ≡ err position_not_found
unfolding get_forward_args find_position
repeated_forward = refl

-- Constants
abbrev pub sample_data_layout : DataLayout
sample_data_layout = record {
  type_store_size = λ t. 8;
  type_alloc_size = λ t. 8;
  element_offset = λ ts i. 8;
}

get_scalar_argument-set_param_example :
    ((x : Argument ℕ) × (set_param ⦃conv = sample_conversions⦄
          (integral 8 true)
          (plain (int_value true 300) 64 [])
          new_context
        ≡ ok (set_arg x new_context))
      × (get_scalar_argument x (int_ty 8) ≡ ok (some (int_const 8 44))))
    × ((x : Argument ℕ) × (set_param ⦃conv = sample_conversions⦄ boolean
            (plain (int_value true 300) 64 [])
            new_context
          ≡ ok (set_arg x new_context))
        × (get_scalar_argument x (int_ty 1) ≡ ok (some (int_const 1 1))))
get_scalar_argument-set_param_example =
    get_scalar_argument-set_param ⦃conv = sample_conversions⦄ 8 true true 300 64 [] new_context
      (omega arith)

fields_from_raw-field_bytes_example :
    fields_from_raw {D = ℕ} sample_data_layout (int_ty 32 ∷ int_ty 8 ∷ []) (1 ∷ 2 ∷ 0 ∷ 0 ∷ 9 ∷ [])
    ≡ ok (constant (some (int_const 32 513)) ∷ constant (some (int_const 8 9)) ∷ [])
fields_from_raw-field_bytes_example =
    fields_from_raw-field_bytes sample_data_layout ((4, 513) ∷ (1, 9) ∷ [])
      (inr (inr (inl refl)), omega arith, (inl refl, omega arith, tt))

-- A module's entry
abbrev sample_module : IrModule
sample_module = record { symbols = []; nodes = none }

get_entry_function_name-mark_as_entry_example :
    (get_entry_function_name (mark_as_entry "f" sample_module) ≡ ok "f")
    × (get_entry_function_name (unmark_entry sample_module) ≡ err no_metadata)
    × (get_entry_function_name (mark_as_entry "f" (unmark_entry sample_module)) ≡ ok "f")
unfolding get_entry_function_name
get_entry_function_name-mark_as_entry_example =
    get_entry_function_name-mark_as_entry sample_module "f"
