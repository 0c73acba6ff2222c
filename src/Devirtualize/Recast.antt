-- ===== src/Devirtualize/Recast.antt =====
-- `RecastCalls` of DevirtualizeConstant.cpp: a call through a cast becomes a call of what is cast, with its
-- arguments cast instead; and `runOnFunction` of both passes.
use Prim.Native.String.{String}
use text.Mathlib.Text.{◌==◌ as str_eq}
use mathlib.Core.Bool.{decide}
use easy_just_in_time.Prelude.{
  ℕ, Bool, true, false, not, ◌&&◌, ◌||◌, Option, none, some, List, [], ◌∷◌, ◌++◌, length, get_elem?,
  set, ◌==◌, Result, ok, err, ◌>>=◌, if◌then◌else◌,
}
use easy_just_in_time.Llvm.{LlvmType, void_ty, is_pointer_ty, Bitcode}
use easy_just_in_time.Tracker.{BitcodeTracker}
use easy_just_in_time.Inline.Link.{LlvmType-discrete}
use easy_just_in_time.Devirtualize.{
  IrKind, call_inst, pointer_cast_inst, int_to_ptr_expr, constant_int, FunctionType, IrValue,
  kind_at, PassError, no_function_type, parameter_out_of_range, PassState, devirtualize,
  find_function_and_link_modules,
}

abbrev pub same_type : LlvmType → LlvmType → Bool
same_type a b = decide (LlvmType-discrete a b)

abbrev pub params_castable : List LlvmType → List LlvmType → Bool
params_castable [] [] = true
params_castable (c ∷ cs) (u ∷ us) =
    (same_type c u || (is_pointer_ty c && is_pointer_ty u)) && params_castable cs us
params_castable [] (u ∷ us) = false
params_castable (c ∷ cs) [] = false

abbrev pub bool_eq : Bool → Bool → Bool
bool_eq true b = b
bool_eq false b = not b

unfoldable pub cast_call_with_pointer_casts : FunctionType → FunctionType → Bool
cast_call_with_pointer_casts called uncasted =
    same_type called.return_type uncasted.return_type
    && ((length called.params == length uncasted.params)
        && (bool_eq called.var_arg uncasted.var_arg
            && params_castable called.params uncasted.params))

abbrev pub type_at : List IrValue → ℕ → LlvmType
type_at table v = elim (get_elem? table v) [ none ↦ void_ty | some value ↦ value.ty ]

-- `CreatePointerCast`
abbrev pub pointer_cast : ℕ → LlvmType → IrValue
pointer_cast arg t = record {
  kind = pointer_cast_inst arg;
  ty = t;
  function_type = none;
  users = [];
}

-- The loop over the arguments; the type of the parameter is read for every one.
unfoldable pub recast_args :
    List ℕ → List LlvmType → List IrValue → Result PassError (List IrValue × List ℕ)
recast_args [] params table = ok (table, [])
recast_args (a ∷ args) [] table = err parameter_out_of_range
recast_args (a ∷ args) (t ∷ params) table =
    if is_pointer_ty (type_at table a) && not (same_type (type_at table a) t)
    then (recast_args args params (table ++ (pointer_cast a t ∷ [])) >>= λ (later, rest).
        ok (later, length table ∷ rest))
    else (recast_args args params table >>= λ (later, rest). ok (later, a ∷ rest))

abbrev pub function_type_at : List IrValue → ℕ → Result PassError FunctionType
function_type_at table v = elim (get_elem? table v) [
  | none ↦ err no_function_type
  | some value ↦ elim value.function_type [ none ↦ err no_function_type | some t ↦ ok t ]
]

abbrev pub set_kind : ℕ → IrKind → List IrValue → List IrValue
set_kind i kind table = elim (get_elem? table i) [
  | none ↦ table
  | some value ↦ set table i (record value { kind = kind })
]

module _ (strip : List IrValue → ℕ → ℕ) where
  unfoldable pub recast_call : ℕ → List IrValue → Result PassError (List IrValue)
  recast_call i table = elim (kind_at table i) [
    | call_inst callee args ↦
        let uncasted = strip table callee in
        if callee == uncasted
        then ok table
        else (function_type_at table callee >>= λ called_type.
            function_type_at table uncasted >>= λ uncasted_type.
            if cast_call_with_pointer_casts called_type uncasted_type
            then (recast_args args uncasted_type.params table >>= λ (later, recast).
                ok (set_kind i (call_inst uncasted recast) later))
            else ok table)
    | _ ↦ ok table
  ]

  unfoldable pub recast_calls : List ℕ → List IrValue → Result PassError (List IrValue)
  recast_calls [] table = ok table
  recast_calls (i ∷ is) table = recast_call i table >>= λ later. recast_calls is later

-- `DevirtualizeConstant::runOnFunction` of the function with this name and these instructions.
unfoldable pub devirtualize_constant :
    Bitcode
    → BitcodeTracker
    → (List IrValue → ℕ → ℕ)
    → (ℕ → ℕ)
    → (String → IrValue → IrValue)
    → (target name : String) → List ℕ
    → PassState
    → Result PassError PassState
devirtualize_constant bc bt strip memory cast_to target name is s =
    if str_eq name target
    then (devirtualize bc bt strip memory cast_to is s >>= λ t.
        if t.changed
        then (recast_calls strip is t.table >>= λ table. ok (record t { table = table }))
        else ok t)
    else ok s

abbrev pub called_value : (String → ℕ) → ℕ → Option String → ℕ
called_value function_value null none = null
called_value function_value null (some name) = function_value name

-- The callee and the arguments of a call, and the address that a callee is.
abbrev pub call_of : IrKind → Option (ℕ × List ℕ)
call_of (call_inst callee args) = some (callee, args)
call_of _ = none

abbrev pub constant_callee : List IrValue → ℕ → Option ℕ
constant_callee table stripped = elim (kind_at table stripped) [
  | int_to_ptr_expr operand ↦ elim (kind_at table operand) [
    | constant_int address ↦ some address
    | _ ↦ none
  ]
  | _ ↦ none
]

-- `IndirectcallConstant::runOnFunction`: one instruction. `null` is the number of the null pointer, and
-- `function_value` the one of a function of the module.
unfoldable pub indirect_call :
    Bitcode
    → BitcodeTracker
    → (List IrValue → ℕ → ℕ)
    → (sign_extended : ℕ → ℕ) → (function_value : String → ℕ) → (null : ℕ) → ℕ
    → PassState
    → Result PassError PassState
indirect_call bc bt strip sign_extended function_value null i s =
    elim (call_of (kind_at s.table i)) [
      | none ↦ ok s
      | some (callee, args) ↦ elim (constant_callee s.table (strip s.table callee)) [
        | none ↦ ok s
        | some address ↦
            find_function_and_link_modules bc bt s.ir_module (sign_extended address) >>= λ (m, f).
            ok (record s {
              ir_module = m;
              table = set_kind i (call_inst (called_value function_value null f) args) s.table;
            })
      ]
    ]

unfoldable pub indirect_calls :
    Bitcode
    → BitcodeTracker
    → (List IrValue → ℕ → ℕ)
    → (sign_extended : ℕ → ℕ) → (function_value : String → ℕ) → (null : ℕ) → List ℕ
    → PassState
    → Result PassError PassState
indirect_calls bc bt strip sign_extended function_value null [] s = ok s
indirect_calls bc bt strip sign_extended function_value null (i ∷ is) s =
    indirect_call bc bt strip sign_extended function_value null i s >>= λ t.
    indirect_calls bc bt strip sign_extended function_value null is t

-- What the pass answers is `changed`, which no round sets.
unfoldable pub indirectcall_constant :
    Bitcode
    → BitcodeTracker
    → (List IrValue → ℕ → ℕ)
    → (sign_extended : ℕ → ℕ) → (function_value : String → ℕ) → (null : ℕ) → (target name : String)
    → List ℕ
    → PassState
    → Result PassError PassState
indirectcall_constant bc bt strip sign_extended function_value null target name is s =
    if str_eq name target
    then indirect_calls bc bt strip sign_extended function_value null is
        (record s { changed = false })
    else ok (record s { changed = false })
