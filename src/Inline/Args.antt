-- ===== src/Inline/Args.antt =====
-- runtime/pass/InlineParameters.cpp: the arguments of the call in the wrapper, the wrapper's attributes,
-- and the pass. `functions` gives the module of a compiled function.
pub mod Forward
pub mod Calls
pub mod Attributes
use Prim.Native.String.{String}
use easy_just_in_time.Prelude.{
  ℕ, zero, suc, ◌+◌, Bool, true, false, List, [], ◌∷◌, ◌++◌, Option, none, some, Result, ok, err,
  ◌>>=◌, ◌>>◌, guard, length, get_elem?, ◌==◌, if◌then◌else◌,
}
use text.Mathlib.Text.{◌==◌ as str_eq}
use easy_just_in_time.UnorderedMap.{is_some}
use easy_just_in_time.Context.{
  Context, Argument, forward_argument, int_argument, float_argument, ptr_argument, struct_argument,
  module_argument,
}
use easy_just_in_time.Tracker.{BitcodeTracker}
use easy_just_in_time.Utils.{
  EntryFault, get_entry_function_name, clone_module_with_context, unmark_entry, mark_as_entry,
}
use easy_just_in_time.Llvm.{
  LlvmType, pointer_ty, IrModule, IrFunction, Bitcode, Symbol, function_symbol, external_linkage,
}
use easy_just_in_time.Inline.{
  Fault, position_not_found, assertion_failed, argument_out_of_range, link_failed, missing_symbol,
  entry_fault, HighLevelArg, HighLevelLayout, return_params, high_level_layout, get_new_layout,
  get_wrapper_ty,
}
use easy_just_in_time.Inline.Constants.{
  Constant, DataLayout, get_scalar_argument, get_constant_from_raw,
}
use easy_just_in_time.Inline.Link.{
  is_function, link_pointer_if_possible, get_named_value, make_private,
}
use easy_just_in_time.Inline.Structs.{drop, get_global_struct}

-- An argument of the call in the wrapper: a parameter of the wrapper, a constant, the address of a new
-- constant global with its initializer, or a function of the module.
pub data Operand (D : Type 0) : Type 0 where
  wrapper_param : ℕ → Operand D
  constant : Option (Constant D) → Operand D
  new_global : Option (Constant D) → Operand D
  function_operand : String → Operand D

-- `std::find_if` by the position.
unfoldable pub find_position : ℕ → List HighLevelArg → Option HighLevelArg
find_position position [] = none
find_position position (a ∷ rest) =
    if a.position == position then some a else find_position position rest

-- `n` parameters of the wrapper from `i` on.
unfoldable pub params_from : {D : Type 0} → ℕ → List LlvmType → List (Operand D)
params_from i [] = []
params_from i (t ∷ types) = wrapper_param i ∷ params_from (suc i) types

-- `GetForwardArgs`, which reads the entry that it looked for without asking whether there is one.
unfoldable pub get_forward_args :
    {D : Type 0}
    → HighLevelArg
    → HighLevelLayout
    → HighLevelLayout
    → Result Fault (List (Operand D))
unfolding find_position params_from
get_forward_args in_f fhll wrapper_hll = elim (find_position in_f.position wrapper_hll.args) [
  | none ↦ err position_not_found
  | some in_wrapper ↦
      ok (params_from (in_wrapper.first_param_idx + return_params fhll.struct_return) in_f.types)
]

-- `ArgInF.Types_[0]`
abbrev pub first_type_of : HighLevelArg → Result Fault LlvmType
first_type_of a = elim a.types [ [] ↦ err argument_out_of_range | t ∷ types ↦ ok t ]

-- `StructPtrTy->getContainedType(0)`
abbrev pub pointee : LlvmType → Result Fault LlvmType
pointee (pointer_ty t) = ok t
pointee _ = err argument_out_of_range

-- The fields of a struct that is passed by value.
unfoldable pub fields_from_raw :
    {D : Type 0} → DataLayout → List LlvmType → List ℕ → Result Fault (List (Operand D))
fields_from_raw dl [] raw = ok []
fields_from_raw dl (t ∷ types) raw = do
  (c, size) ← get_constant_from_raw dl t raw
  rest ← fields_from_raw dl types (drop size raw)
  ok (constant c ∷ rest)

abbrev pub or_entry_fault : {A : Type 0} → Result EntryFault A → Result Fault A
or_entry_fault (ok a) = ok a
or_entry_fault (err e) = err (entry_fault e)

unfoldable pub unnamed : String → List (String × Symbol) → List (String × Symbol)
unnamed target [] = []
unnamed target ((name, s) ∷ symbols) =
    (if str_eq name target then "" else name, s) ∷ unnamed target symbols

-- `takeName`: the function's symbol is left without a name, and the wrapper's has it.
unfoldable pub take_name : String → LlvmType → IrModule → IrModule
take_name target ty m = record m {
  symbols =
      (target, record { symbol_kind = function_symbol; ty = ty; linkage = external_linkage })
      ∷ unnamed target m.symbols;
}

-- What one argument adds: the module afterwards and the operands.
abbrev pub Inlined : Type 0 → Type 0
Inlined D = Result Fault (IrModule × List (Operand D))

module _ {D : Type 0} (bc : Bitcode) (bt : BitcodeTracker) (dl : DataLayout)
    (functions : ℕ → IrModule) where
  -- The case of a compiled function: its module is copied and linked in.
  unfoldable pub inline_module : ℕ → HighLevelArg → IrModule → Inlined D
  inline_module f a m = do
    guard (length a.types == 1) assertion_failed
    name ← or_entry_fault (get_entry_function_name (functions f))
    elim (clone_module_with_context bc (functions f)) [
      | none ↦ err assertion_failed
      | some copy ↦ elim (bc.link_modules m (unmark_entry copy)) [
        | none ↦ err link_failed
        | some linked ↦ elim (get_named_value name linked) [
          | none ↦ err missing_symbol
          | some s ↦ ok (make_private name linked, function_operand name ∷ [])
        ]
      ]
    ]

  -- The cases of the switch of `GetInlineArgs`, for the argument and its layout.
  unfoldable pub inline_arg :
      Argument D → HighLevelArg → HighLevelLayout → HighLevelLayout → IrModule → Inlined D
  unfolding get_forward_args inline_module fields_from_raw
  inline_arg (forward_argument k) a fhll wrapper_hll m = do
    ops ← get_forward_args a fhll wrapper_hll
    ok (m, ops)
  inline_arg (int_argument n) a fhll wrapper_hll m = do
    t ← first_type_of a
    c ← get_scalar_argument (int_argument n) t
    ok (m, constant c ∷ [])
  inline_arg (float_argument d) a fhll wrapper_hll m = do
    t ← first_type_of a
    c ← get_scalar_argument (float_argument d) t
    ok (m, constant c ∷ [])
  inline_arg (ptr_argument p) a fhll wrapper_hll m = do
    t ← first_type_of a
    c ← get_scalar_argument (ptr_argument p) t
    (m', linked) ← link_pointer_if_possible bc bt p t m
    ok (m', constant (elim linked [ none ↦ c | some l ↦ some l ]) ∷ [])
  inline_arg (struct_argument bytes) a fhll wrapper_hll m =
      if a.struct_by_pointer
      then (do
        t ← first_type_of a
        struct_type ← pointee t
        (m', c) ← get_global_struct dl (link_pointer_if_possible bc bt) struct_type bytes m
        ok (m', new_global c ∷ []))
      else (do ops ← fields_from_raw dl a.types bytes; ok (m, ops))
  inline_arg (module_argument f) a fhll wrapper_hll m = inline_module f a m

  -- The loop of `GetInlineArgs`, over the arguments and their layouts.
  unfoldable pub inline_args :
      List (Argument D)
      → List HighLevelArg
      → HighLevelLayout
      → HighLevelLayout
      → IrModule
      → Inlined D
  inline_args [] hs fhll wrapper_hll m = ok (m, [])
  inline_args (a ∷ as') [] fhll wrapper_hll m = err argument_out_of_range
  inline_args (a ∷ as') (h ∷ hs) fhll wrapper_hll m = do
    (m', ops) ← inline_arg a h fhll wrapper_hll m
    (m'', rest) ← inline_args as' hs fhll wrapper_hll m'
    ok (m'', ops ++ rest)

  -- `GetInlineArgs`: the return slot, if there is one, and then the arguments.
  unfoldable pub get_inline_args :
      Context D → HighLevelLayout → HighLevelLayout → IrModule → Inlined D
  unfolding inline_args inline_arg
  get_inline_args c fhll wrapper_hll m = do
    (m', ops) ← inline_args c.argument_mapping fhll.args fhll wrapper_hll m
    ok (m', (elim fhll.struct_return [ none ↦ ops | some t ↦ wrapper_param 0 ∷ ops ]))

-- `RemapAttributes`: the attribute sets that are added to the wrapper's parameters, with their indices,
-- for the fields of one argument and for all of them.
unfoldable pub remap_fields : List (List ℕ) → List LlvmType → ℕ → ℕ → List (ℕ × List ℕ)
remap_fields attrs [] new org = []
remap_fields attrs (t ∷ types) new org =
    (new, elim (get_elem? attrs org) [ none ↦ [] | some set ↦ set ])
    ∷ remap_fields attrs types (suc new) (suc org)

unfoldable pub remap_attributes :
    List (List ℕ) → List HighLevelArg → List HighLevelArg → Result Fault (List (ℕ × List ℕ))
unfolding remap_fields
remap_attributes attrs args' [] = ok []
remap_attributes attrs args' (new ∷ rest) = elim (get_elem? args' new.position) [
  | none ↦ err argument_out_of_range
  | some org ↦ do
    added ← remap_attributes attrs args' rest
    ok (remap_fields attrs new.types new.first_param_idx org.first_param_idx ++ added)
]

-- The wrapper: its parameters and return type, the arguments with which it calls the function, whether
-- its first parameter is a return slot, and its attributes.
pub record Wrapper (D : Type 0) : Type 0 where
  pub params : List LlvmType
  pub return_type : LlvmType
  pub call_args : List (Operand D)
  pub struct_ret : Bool
  pub fn_attrs : List ℕ
  pub param_attrs : List (ℕ × List ℕ)

module _ {D : Type 0} (bc : Bitcode) (bt : BitcodeTracker) (dl : DataLayout)
    (functions : ℕ → IrModule) where
  unfoldable pub create_wrapper_fun :
      IrFunction → HighLevelLayout → Context D → IrModule → Result Fault (IrModule × Wrapper D)
  unfolding get_inline_args remap_attributes
  create_wrapper_fun f hll c m = do
    new ← get_new_layout c hll
    (m', ops) ← get_inline_args bc bt dl functions c hll new m
    added ← remap_attributes f.param_attrs hll.args new.args
    ok (
      m',
      record {
        params = get_wrapper_ty new;
        return_type = new.return_type;
        call_args = ops;
        struct_ret = (elim hll.struct_return [ none ↦ false | some t ↦ true ]);
        fn_attrs = f.fn_attrs;
        param_attrs = added;
      },
    )

  -- `InlineParameters::runOnModule`, for the function `f` that the target's name stands for: it becomes
  -- private and loses its name to the wrapper, which is marked as the entry.
  unfoldable pub run_on_module :
      String → IrFunction → LlvmType → Context D → IrModule → Result Fault (IrModule × Wrapper D)
  unfolding create_wrapper_fun
  run_on_module target f wrapper_ptr_ty c m = do
    guard (is_function (get_named_value target m)) missing_symbol
    hll ← high_level_layout f
    (m', wrapper) ← create_wrapper_fun f hll c m
    ok (mark_as_entry target (take_name target wrapper_ptr_ty (make_private target m')), wrapper)
