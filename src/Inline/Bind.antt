-- ===== src/Inline/Bind.antt =====
-- What the wrapper does when it is called, against `std::bind`, whose arguments `easy::jit` takes. The
-- arguments are placeholders, numbers and pointers that the program has not registered.
pub mod Arguments
pub mod Placeholders
pub mod Wrapper
use easy_just_in_time.Prelude.{
  ℕ, zero, suc, ◌+◌, ◌^◌, ◌%◌, ◌≤◌, ◌<◌, ◌≡◌, ◌≢◌, refl, sym, ap, ◌∙◌, Bool, true, false, List, [],
  ◌∷◌, ◌++◌, Option, none, some, Result, ok, err, ◌>>=◌, get_elem?, length, map, ◌==◌,
  if◌then◌else◌, arith,
}
use mathlib.Core.Option
use easy_just_in_time.Meta.{
  CppType, void_type, boolean, integral, floating, pointer, reference, class_type,
}
use easy_just_in_time.Context.{
  Argument, forward_argument, int_argument, float_argument, ptr_argument,
}
use easy_just_in_time.Params.{
  Conversions, BindError, Value, int_value, fp_value, ptr_value, object_value, Arg, placeholder_arg,
  wrapper_arg, option_arg, plain, convert_int, as_bool, as_integral, as_floating, as_pointer,
}
use easy_just_in_time.Params.Bound.{Bound, bound_argument}
use easy_just_in_time.Tracker.{BitcodeTracker, has_global_mapping}
use easy_just_in_time.Llvm.{LlvmType, int_ty, IrModule, Bitcode}
use easy_just_in_time.Inline.{HighLevelArg, HighLevelLayout}
use easy_just_in_time.Inline.NewLayout.{Reads}
use easy_just_in_time.Inline.Constants.{
  Constant, int_const, fp_const, int_to_ptr, DataLayout, get_scalar_argument, get_int,
}
use easy_just_in_time.Inline.Constants.Scalars.{convert_int-low}
use easy_just_in_time.Inline.Link.{link_pointer_if_possible}
use easy_just_in_time.Inline.Args.{
  Operand, wrapper_param, constant, new_global, function_operand, get_forward_args, inline_arg,
  inline_args,
}

module _ {D : Type 0} ⦃conv : Conversions D⦄ (lower : CppType → LlvmType) where
  -- A value, converted as the language does it to the type of a parameter, as a constant; of an
  -- argument for a reference, its address.
  abbrev pub converted : CppType → Value D → ℕ → Option (Constant D)
  converted boolean (int_value s n) a = some (int_const 1 (if n == 0 then 0 else 1))
  converted boolean (fp_value d) a = some (int_const 1 (if conv.is_nonzero d then 1 else 0))
  converted boolean (ptr_value p) a = some (int_const 1 (if p == 0 then 0 else 1))
  converted (integral w s) (int_value s' n) a = some (int_const w (n % 2 ^ w))
  converted (integral w s) (fp_value d) a = some (int_const w (conv.to_int64 d % 2 ^ w))
  converted (floating w) (int_value s n) a =
      some (fp_const (lower (floating w)) (conv.round w (conv.from_int s n)))
  converted (floating w) (fp_value d) a = some (fp_const (lower (floating w)) (conv.round w d))
  converted (pointer t) (ptr_value p) a = some (int_to_ptr (lower (pointer t)) (p % 2 ^ 64))
  converted (reference t) v a = some (int_to_ptr (lower (reference t)) (a % 2 ^ 64))
  converted _ _ _ = none

  module _ {V : Type 0} (value_of : Constant D → V) (xs : List V) where
    -- `std::bind(f, args...)(xs...)`: what `f` is called with. A placeholder stands for one of `xs`.
    abbrev pub bound_value : CppType → Arg D → Option V
    bound_value p (placeholder_arg k) = get_elem? xs k
    bound_value p (plain v a b) = Option.map value_of (converted p v a)
    bound_value p _ = none

    abbrev pub std_bind : List CppType → List (Arg D) → List (Option V)
    std_bind (p ∷ pl) (a ∷ args) = bound_value p a ∷ std_bind pl args
    std_bind _ _ = []

-- What an operand of the call in the wrapper stands for when the wrapper is called with `xs`.
abbrev pub operand_value : {D V : Type 0} → (Constant D → V) → List V → Operand D → Option V
operand_value value_of xs (wrapper_param i) = get_elem? xs i
operand_value value_of xs (constant c) = Option.map value_of c
operand_value value_of xs _ = none

abbrev pub bound_to : {D : Type 0} → Argument D → Result BindError (Argument D)
bound_to x = ok x

-- An argument that is a placeholder, a number of up to 64 bits, or a pointer that is not registered.
abbrev pub IsScalar : {D : Type 0} → BitcodeTracker → CppType → Arg D → Type 0
IsScalar bt p (placeholder_arg k) = k + 1 < 2 ^ 32
IsScalar bt boolean (plain v a b) = Unit {0}
IsScalar bt (integral w s) (plain v a b) = w ≤ 64
IsScalar bt (floating w) (plain v a b) = w ≤ 64
IsScalar bt (pointer t) (plain (ptr_value q) a b) = has_global_mapping q bt ≡ false
IsScalar bt (reference t) (plain v a b) = has_global_mapping a bt ≡ false
IsScalar bt _ _ = ⊥

abbrev pub AreScalars : {D : Type 0} → BitcodeTracker → List CppType → List (Arg D) → Type 0
AreScalars bt (p ∷ pl) (a ∷ args) = IsScalar bt p a × AreScalars bt pl args
AreScalars bt _ _ = Unit {0}

module _ {D : Type 0} ⦃conv : Conversions D⦄ where
  -- Where no parameter is left, all arguments are options.
  pub no_more : (opts : List (Arg D)) (as' : List (Argument D)) → Bound [] opts as' → as' ≡ []
  no_more [] [] bound = refl
  no_more [] (x ∷ as') bound = elim bound [ ]
  no_more (option_arg o a b ∷ opts) as' bound = no_more opts as' bound
  no_more (placeholder_arg k ∷ opts) as' bound = elim bound [ ]
  no_more (wrapper_arg t f ∷ opts) as' bound = elim bound [ ]
  no_more (plain v a b ∷ opts) as' bound = elim bound [ ]
