-- ===== src/Tests/Jitted.antt =====
-- The theorem on a call of `easy::jit_` at the function of Tests.Compiled and the arguments of Tests.Wrapper.
use easy_just_in_time.Prelude.{◌≡◌, ok}
use easy_just_in_time.Cache.{moved}
use easy_just_in_time.Jit.{jit_with_context, jit_raw}
use easy_just_in_time.Jit.Composed.{IsJitted, jit_raw-IsJitted}
use easy_just_in_time.Tests.{sample_params}
use easy_just_in_time.Tests.Wrapper.{
  sample_conversions, no_bytes, sample_args, sample_context-built, sample_data_layout,
}
use easy_just_in_time.Tests.Compiled.{
  byte_text, sample_bitcode, sample_tracker, sample_passes, sample_builder, sample_modules,
  opens_all, compiled_function, sample_compiled,
}

sample_jitted :
    jit_raw sample_passes sample_bitcode sample_tracker byte_text sample_data_layout sample_modules
      sample_builder opens_all ⦃conv = sample_conversions⦄ no_bytes sample_params 16 sample_args
    ≡ ok (moved compiled_function)
unfolding jit_raw jit_with_context
sample_jitted = rw (sample_context-built, sample_compiled)

jit_raw-IsJitted_example :
    IsJitted sample_builder ⦃conv = sample_conversions⦄ sample_passes sample_bitcode sample_tracker
      byte_text sample_data_layout sample_modules opens_all no_bytes sample_params 16 sample_args
      (moved compiled_function)
jit_raw-IsJitted_example =
    jit_raw-IsJitted sample_builder ⦃conv = sample_conversions⦄ sample_passes sample_bitcode
      sample_tracker byte_text sample_data_layout sample_modules opens_all no_bytes sample_params 16
      sample_args sample_jitted
