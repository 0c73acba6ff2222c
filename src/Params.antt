-- ===== src/Params.antt =====
-- include/easy/param.h, include/easy/options.h and the context of include/easy/jit.h: from the
-- arguments of `easy::jit` to a context. Overload resolution is a function by cases on the parameter's
-- type, and what does not compile is an error value. The language's conversions of floating-point
-- values are parameters.
pub mod Bound
use Prim.Native.String.{String}
use easy_just_in_time.Prelude.{
  ℕ, suc, ◌+◌, ◌-◌, ◌*◌, ◌^◌, ◌%◌, Bool, true, false, not, ◌||◌, List, [], ◌∷◌, Result, ok, err,
  ◌>>=◌, ◌>>◌, guard, length, ltb, leb, ◌==◌, if◌then◌else◌, map,
}
use easy_just_in_time.Meta.{
  CppType, void_type, boolean, integral, floating, pointer, reference, class_type, ArgType,
  placeholder, option_type, value_type, is_placeholder,
}
use easy_just_in_time.Context.{
  Context, RawBytes, new_context, set_parameter_index, set_parameter_int, set_parameter_float,
  set_parameter_pointer, set_parameter_struct, set_parameter_module, set_opt_level, set_debug_file,
  set_raw_bytes,
}

-- The language's conversions from and to `double`.
pub record Conversions (D : Type 0) : Type 0 where
  pub from_int : Bool → ℕ → D
  pub to_int64 : D → ℕ
  pub is_nonzero : D → Bool
  pub round : ℕ → D → D

-- A value of an argument: an integer as its 64 bits, and whether its type is signed; a floating-point
-- number; a pointer, which a function becomes too; or an object of a class.
pub data Value (D : Type 0) : Type 0 where
  int_value : Bool → ℕ → Value D
  fp_value : D → Value D
  ptr_value : ℕ → Value D
  object_value : Value D

-- `easy::options`
pub data JitOption : Type 0 where
  opt_level : ℕ → ℕ → JitOption
  dump_ir : String → JitOption

-- An argument of `easy::jit`. A function wrapper has the function type that it is a wrapper of and its
-- compiled function; an option and a plain argument have an address and the bytes of the object.
pub data Arg (D : Type 0) : Type 0 where
  placeholder_arg : ℕ → Arg D
  wrapper_arg : ℕ → ℕ → Arg D
  option_arg : JitOption → ℕ → List ℕ → Arg D
  plain : Value D → ℕ → List ℕ → Arg D

-- What the program is refused for.
pub data BindError : Type 0 where
  no_overload incompatible_composition option_expected not_enough_arguments : BindError

-- The type of an argument, for meta.h.
abbrev pub arg_type : {D : Type 0} → Arg D → ArgType
arg_type (placeholder_arg k) = placeholder k
arg_type (wrapper_arg t f) = value_type 0
arg_type (option_arg o a b) = option_type 0
arg_type (plain v a b) = value_type 1

-- `function_wrapper_specialization_is_possible`: the function converts to the parameter, or to what it points
-- to.
abbrev pub specialization_is_possible : CppType → ℕ → Bool
specialization_is_possible (pointer t) s = t == s
specialization_is_possible (reference t) s = t == s
specialization_is_possible boolean s = true
specialization_is_possible _ s = false

-- The low `w` bits of a value, extended to 64 bits by the sign of the type.
unfoldable pub convert_int : ℕ → Bool → ℕ → ℕ
convert_int w signed n =
    let low = n % 2 ^ w in
    if signed then (if ltb (2 * low) (2 ^ w) then low else low + 2 ^ 64 - 2 ^ w) else low

module _ {D : Type 0} ⦃conv : Conversions D⦄ where
  -- `Param arg_as_param = arg;` for an integral, a floating and a pointer parameter.
  unfoldable pub as_bool : Value D → Result BindError ℕ
  as_bool (int_value s n) = ok (if n == 0 then 0 else 1)
  as_bool (fp_value d) = ok (if conv.is_nonzero d then 1 else 0)
  as_bool (ptr_value p) = ok (if p == 0 then 0 else 1)
  as_bool object_value = err no_overload

  unfoldable pub as_integral : ℕ → Bool → Value D → Result BindError ℕ
  unfolding convert_int
  as_integral w signed (int_value s n) = ok (convert_int w signed n)
  as_integral w signed (fp_value d) = ok (convert_int w signed (conv.to_int64 d))
  as_integral w signed _ = err no_overload

  -- `setParameterFloat` takes a `double`, to which a wider number is narrowed.
  abbrev pub to_double : ℕ → D → D
  to_double w d = if ltb 64 w then conv.round 64 d else d

  unfoldable pub as_floating : ℕ → Value D → Result BindError D
  as_floating w (int_value s n) = ok (to_double w (conv.round w (conv.from_int s n)))
  as_floating w (fp_value d) = ok (to_double w (conv.round w d))
  as_floating w _ = err no_overload

  unfoldable pub as_pointer : Value D → Result BindError ℕ
  as_pointer (ptr_value p) = ok p
  as_pointer _ = err no_overload

  -- `set_parameter_helper<false>::set_param`, chosen by the parameter's type. For a class it copies
  -- `sizeof` the argument's own type from its address, whatever that type is.
  unfoldable pub set_param_plain :
      CppType → Value D → ℕ → List ℕ → Context D → Result BindError (Context D)
  unfolding as_bool as_integral as_floating as_pointer
  set_param_plain boolean v a b c = do n ← as_bool v; ok (set_parameter_int n c)
  set_param_plain (integral w s) v a b c = do n ← as_integral w s v; ok (set_parameter_int n c)
  set_param_plain (floating w) v a b c = do d ← as_floating w v; ok (set_parameter_float d c)
  set_param_plain (pointer t) v a b c = do p ← as_pointer v; ok (set_parameter_pointer p c)
  set_param_plain (reference t) v a b c = ok (set_parameter_pointer a c)
  set_param_plain (class_type t) v a b c = ok (set_parameter_struct b c)
  set_param_plain void_type v a b c = err no_overload

  -- `set_parameter<Param, Arg>::help::set_param`. No conversion takes an option's object elsewhere than
  -- to a reference or a class.
  unfoldable pub set_param : CppType → Arg D → Context D → Result BindError (Context D)
  unfolding set_param_plain
  set_param p (placeholder_arg k) c = ok (set_parameter_index (suc k - 1) c)
  set_param p (wrapper_arg t f) c = do
    guard (specialization_is_possible p t) incompatible_composition
    ok (set_parameter_module f c)
  set_param p (option_arg o a b) c = set_param_plain p object_value a b c
  set_param p (plain v a b) c = set_param_plain p v a b c

module _ {D : Type 0} where
  -- `handle` of an option
  unfoldable pub handle : JitOption → Context D → Context D
  unfolding set_opt_level set_debug_file
  handle (opt_level level size) = set_opt_level level size
  handle (dump_ir file) = set_debug_file file

  unfoldable pub set_options : List (Arg D) → Context D → Result BindError (Context D)
  set_options [] c = ok c
  set_options (option_arg o a b ∷ opts) c = set_options opts (handle o c)
  set_options (a ∷ opts) c = err option_expected

module _ {D : Type 0} ⦃conv : Conversions D⦄ where
  unfoldable pub set_parameters :
      List CppType → List (Arg D) → Context D → Result BindError (Context D)
  unfolding set_param set_options
  set_parameters [] opts c = set_options opts c
  set_parameters (p ∷ ps) [] c = err not_enough_arguments
  set_parameters (p ∷ ps) (a ∷ args) c = set_param p a c >>= set_parameters ps args

  unfoldable pub get_context_for : List CppType → List (Arg D) → Result BindError (Context D)
  unfolding set_parameters
  get_context_for params args = do
    guard (leb (length params) (length args)) not_enough_arguments
    set_parameters params args new_context

  -- `get_context_for_`
  unfoldable pub get_context_for_raw :
      RawBytes → List CppType → List (Arg D) → Result BindError (Context D)
  unfolding set_parameters set_raw_bytes
  get_context_for_raw raw params args = do
    guard (leb (length params) (length args)) not_enough_arguments
    set_parameters params args (set_raw_bytes raw new_context)
