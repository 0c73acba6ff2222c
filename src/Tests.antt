-- ===== src/Tests.antt =====
-- The theorems at concrete inputs: calls of `easy::jit` and of the cache, registrations, and modules. A
-- `double` is a number here, and 0 stands for NaN.
pub mod Wrapper
pub mod Compiled
pub mod Keys
pub mod Plugin
pub mod Passes
pub mod Whole
pub mod Jitted
pub mod Behaviour
pub mod Exported
pub mod Structs
pub mod Linked
use easy_just_in_time.Prelude.{
  ℕ, zero, suc, ◌+◌, ◌^◌, ◌%◌, ◌<◌, ◌≤◌, ◌⊎◌, ◌≡◌, ◌↔◌, refl, Bool, true, false, not, List, [], ◌∷◌,
  Option, none, some, Result, ok, err, length, get_elem?, ◌==◌, if◌then◌else◌, arith, All, map,
  ℕ_discrete,
}
use easy_just_in_time.UnorderedMap.{is_some, find, emplace}
use mathlib.Core.Bool.{decide}
use easy_just_in_time.Meta.{
  map_helper, max_placeholder_from, ArgType-discrete, CppType-discrete, map_done, has_trait, at,
  CppType, integral, floating, boolean, ArgType, placeholder, value_type, option_type,
  discard_options, max_placeholder, map_placeholder_to_type, parameter_list,
}
use easy_just_in_time.Meta.Rounds.{first_at}
use easy_just_in_time.Meta.Mapping.{map_placeholder_to_type-first_at}
use easy_just_in_time.Context.{
  Double, StdHash, Argument, forward_argument, int_argument, float_argument, Context, RawBytes,
  new_context, context_eq, context_hash, set_arg, arguments_eq, argument_eq,
}
use easy_just_in_time.Context.Equality.{
  IsPartialEquality, SameArguments, IsComparable, context_eq_iff, context_eq_equivalence,
  context_eq_refl_iff,
}
use easy_just_in_time.Context.Hash.{IsHashOf, context_hash-context_eq}
use easy_just_in_time.Tracker.{
  FunctionInfo, Registration, easy_register, easy_register_layout, register, register_all,
  new_tracker, get_address, get_name_and_global_mapping, has_global_mapping, get_layout_info,
}
use easy_just_in_time.Tracker.Registered.{
  first_info, first_address, first_layout, expected_mapping, expected_layout, register_all-first,
  get_address-registered,
}
use easy_just_in_time.Cache.{null_wrapper, moved, is_valid, Cache, jit, has}
use easy_just_in_time.Cache.Laws.{
  IsPartialEquivalence, jit_all, first_outcome, expected_answer, jit-first_outcome, jit_irreflexive,
}

-- Doubles
abbrev number_eq : ℕ → ℕ → Bool
number_eq a b = if a == 0 then false else a == b

abbrev pub sample_double : Double ℕ
sample_double = record { eq = number_eq }

abbrev pub sample_std : StdHash ℕ
sample_std = record {
  hash_unsigned = λ n. n;
  hash_int64 = λ n. n;
  hash_double = λ n. n;
  hash_pointer = λ n. n;
}

number_eq_sym : (a b : ℕ) → number_eq a b ≡ true → number_eq b a ≡ true
number_eq_sym a b h = ground arith

number_eq_trans : (a b c : ℕ) → number_eq a b ≡ true → number_eq b c ≡ true → number_eq a c ≡ true
number_eq_trans a b c h g = ground arith

pub sample_double-IsPartialEquality : IsPartialEquality sample_double
sample_double-IsPartialEquality = record { eq_sym = number_eq_sym; eq_trans = number_eq_trans }

number_keys : IsPartialEquivalence number_eq
number_keys = record { eq_sym = number_eq_sym; eq_trans = number_eq_trans }

pub sample_hash : IsHashOf sample_double sample_std
sample_hash = record { hash_double_eq = λ d e h. ground arith }

-- Contexts
abbrev pub bound_three : Context ℕ
bound_three =
    set_arg (float_argument 3) (set_arg (forward_argument 0) (set_arg (int_argument 7) new_context))

context_eq_iff_example : (context_eq ⦃double = sample_double⦄ bound_three bound_three ≡ true) ↔ (
    (bound_three.opt_level ≡ bound_three.opt_level)
    × (bound_three.opt_size ≡ bound_three.opt_size)
    × SameArguments ⦃double = sample_double⦄ bound_three.argument_mapping
        bound_three.argument_mapping)
context_eq_iff_example = context_eq_iff ⦃double = sample_double⦄ bound_three bound_three

context_hash-context_eq_example :
    context_hash ⦃std = sample_std⦄ bound_three ≡ context_hash ⦃std = sample_std⦄ bound_three
unfolding context_eq set_arg arguments_eq argument_eq
context_hash-context_eq_example =
    context_hash-context_eq ⦃double = sample_double⦄ ⦃std = sample_std⦄ sample_hash bound_three
      bound_three refl

-- The cache. Key 0 is not equal to itself.
abbrev sample_calls : List (ℕ × Result ℕ ℕ)
sample_calls = (1, ok 10) ∷ (2, err 99) ∷ (1, ok 11) ∷ []

jit-first_outcome_example :
    ((jit {E = ℕ} number_eq 1 (ok 12) (jit_all number_eq [] sample_calls)).1 ≡ ok (moved 10))
    × (has number_eq 1 (jit_all number_eq [] sample_calls) ≡ true)
jit-first_outcome_example = jit-first_outcome number_eq number_keys sample_calls 1 (ok 12)

jit_irreflexive_example :
    (jit {F = ℕ} {E = ℕ} number_eq 0 (ok 5) [] ≡ ((0, moved 5) ∷ [], ok (moved 5)))
    × (has number_eq 0 (jit {F = ℕ} {E = ℕ} number_eq 0 (ok 5) []).0 ≡ false)
jit_irreflexive_example = jit_irreflexive {F = ℕ} {E = ℕ} number_eq number_keys [] 0 (ok 5) refl

-- The placeholders of `f(_2, 7, _1)`.
abbrev pub sample_params : List CppType
sample_params = integral 32 true ∷ integral 64 false ∷ floating 64 ∷ []

abbrev pub sample_bind : List ArgType
sample_bind = placeholder 1 ∷ value_type 1 ∷ placeholder 0 ∷ []

abbrev pub sample_result : List CppType
sample_result = floating 64 ∷ integral 32 true ∷ []

mapped : map_placeholder_to_type sample_params sample_bind ≡ ok sample_result
unfolding map_placeholder_to_type map_helper max_placeholder_from decide ArgType-discrete
    CppType-discrete map_done has_trait ℕ_discrete at
mapped = refl

-- The same with an option after the arguments.
pub mapped_parameters :
    parameter_list sample_params (placeholder 1 ∷ value_type 1 ∷ placeholder 0 ∷ option_type 0 ∷ [])
    ≡ ok sample_result
unfolding parameter_list discard_options
mapped_parameters = mapped

map_placeholder_to_type-first_at_example :
    (length sample_result ≡ max_placeholder sample_bind)
    × ((k : ℕ) → get_elem? sample_result k ≡ first_at k sample_params 0 sample_bind)
map_placeholder_to_type-first_at_example =
    map_placeholder_to_type-first_at sample_params sample_bind mapped

-- Registrations
abbrev sample_info : FunctionInfo
sample_info = record { name = "f"; globals = none; bitcode = 1 ∷ [] }

abbrev sample_registrations : List Registration
sample_registrations =
    easy_register 16 sample_info ∷ easy_register_layout 3 2 ∷ easy_register 32 sample_info ∷ []

register_all-first_example :
    (get_name_and_global_mapping 16 (register_all new_tracker sample_registrations)
      ≡ ok ("f", none))
    × (has_global_mapping 16 (register_all new_tracker sample_registrations) ≡ true)
    × (get_address "f" (register_all new_tracker sample_registrations) ≡ some 16)
    × (get_layout_info 3 (register_all new_tracker sample_registrations) ≡ ok 2)
register_all-first_example = register_all-first sample_registrations 16 "f" 3
