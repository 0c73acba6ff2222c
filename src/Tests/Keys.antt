-- ===== src/Tests/Keys.antt =====
-- The theorems on the cache's own keys at concrete inputs.
use easy_just_in_time.Prelude.{ℕ, ◌⊎◌, ◌≡◌, refl, true, false, List, [], ◌∷◌, Result, ok}
use easy_just_in_time.Context.{set_arg, set_parameter_int, set_parameter_index, set_opt_level}
use easy_just_in_time.Params.{
  set_param, get_context_for, set_parameters, set_options, handle, set_param_plain, as_integral,
  convert_int,
}
use easy_just_in_time.Tests.{sample_double, sample_params, sample_double-IsPartialEquality}
use easy_just_in_time.Cache.{Answer, Cache}
use easy_just_in_time.Cache.Laws.{jit_all, answer, entry}
use easy_just_in_time.Cache.Auto.{
  AutoKey, auto_key_eq, auto_jit, auto_has, Compiled, auto_jit-Compiled,
}
use easy_just_in_time.Tests.Wrapper.{sample_conversions, sample_args, sample_context}

-- A key, and a cache after one call with it.
abbrev sample_key : AutoKey ℕ
sample_key = record { fun_ptr = 16; context = sample_context }

abbrev sample_calls : List (AutoKey ℕ × Result ℕ ℕ)
sample_calls = (sample_key, ok 10) ∷ []

sample_context_auto :
    get_context_for ⦃conv = sample_conversions⦄ sample_params sample_args ≡ ok sample_context
unfolding get_context_for set_parameters set_param set_options handle set_opt_level set_param_plain
    as_integral convert_int set_parameter_int set_parameter_index set_arg
sample_context_auto = refl

auto_jit-Compiled_example :
    (cache' : Cache (AutoKey ℕ) ℕ) × (a : Answer ℕ ℕ) × (auto_jit ⦃conv = sample_conversions⦄
        ⦃double = sample_double⦄ 16 sample_params sample_args
        (ok 12)
        (jit_all (auto_key_eq ⦃double = sample_double⦄) [] sample_calls)
      ≡ ok (cache', a))
    × (((auto_has ⦃conv = sample_conversions⦄ ⦃double = sample_double⦄ 16 sample_params sample_args
              (jit_all (auto_key_eq ⦃double = sample_double⦄) [] sample_calls)
            ≡ ok false)
          × (a ≡ answer (ok 12)))
        ⊎ ((r : Result ℕ ℕ) × (auto_has ⦃conv = sample_conversions⦄ ⦃double = sample_double⦄ 16
                sample_params sample_args
                (jit_all (auto_key_eq ⦃double = sample_double⦄) [] sample_calls)
              ≡ ok true)
            × Compiled ⦃double = sample_double⦄ sample_key r sample_calls
            × (a ≡ ok (entry r))))
auto_jit-Compiled_example =
    auto_jit-Compiled ⦃conv = sample_conversions⦄ ⦃double = sample_double⦄
      sample_double-IsPartialEquality sample_calls 16 sample_params sample_args (ok 12)
      sample_context_auto
