-- ===== src/Jit.antt =====
-- include/easy/jit.h and include/easy/function_wrapper.h: the calls `easy::jit` and `easy::jit_`, from the
-- arguments to the wrapper. A function is given by the list of its parameters and its address. The
-- wrapper's call operator jumps to its raw pointer.
pub mod Composed
pub mod Exported
pub mod Returns
use Prim.Native.String.{String}
use easy_just_in_time.Prelude.{ℕ, Bool, List, [], Option, none, some, Result, ok, err, ◌>>=◌}
use easy_just_in_time.Meta.{CppType}
use easy_just_in_time.Context.{Context, RawBytes}
use easy_just_in_time.Params.{Conversions, Arg, BindError, get_context_for, get_context_for_raw}
use easy_just_in_time.Tracker.{BitcodeTracker}
use easy_just_in_time.Llvm.{IrModule, Bitcode}
use easy_just_in_time.Inline.Constants.{DataLayout}
use easy_just_in_time.Cache.{FunctionWrapperBase, moved}
use easy_just_in_time.Function.{
  FunctionFault, EngineBuilder, Passes, Function, compile, serialize, deserialize,
}

-- What keeps a call of `easy::jit` from returning: it does not compile, or it throws.
pub data JitFault : Type 0 where
  bind_fault : BindError → JitFault
  function_fault : FunctionFault → JitFault

abbrev pub or_bind_fault : {A : Type 0} → Result BindError A → Result JitFault A
or_bind_fault (ok a) = ok a
or_bind_fault (err e) = err (bind_fault e)

abbrev pub or_function_fault : {A : Type 0} → Result FunctionFault A → Result JitFault A
or_function_fault (ok a) = ok a
or_function_fault (err e) = err (function_fault e)

module _ {E : Type 0} where
  -- `getRawPointer`; `none` is the use of the null object's pointer.
  unfoldable pub get_raw_pointer : FunctionWrapperBase (Function E) → Option ℕ
  get_raw_pointer fw = elim fw.fun [ none ↦ none | some f ↦ some f.address ]

  -- `FunctionWrapperBase::serialize`
  unfoldable pub serialize_wrapper : Bitcode → FunctionWrapperBase (Function E) → Option (List ℕ)
  serialize_wrapper bc fw = elim fw.fun [ none ↦ none | some f ↦ some (serialize bc f) ]

  -- `FunctionWrapperBase::deserialize`
  unfoldable pub deserialize_wrapper :
      Bitcode
      → EngineBuilder E
      → BitcodeTracker
      → List String
      → List ℕ
      → Result FunctionFault (FunctionWrapperBase (Function E))
  deserialize_wrapper bc builder bt reserved buf =
      deserialize bc builder bt reserved buf >>= λ f. ok (record { fun = f })

module _ {D E : Type 0} (passes : Passes D) (bc : Bitcode) (bt : BitcodeTracker)
    (to_string : ℕ → String) (dl : DataLayout) (functions : ℕ → IrModule)
    (builder : EngineBuilder E) (opens : String → Bool) where
  unfoldable pub jit_with_context :
      Context D → ℕ → Result FunctionFault (FunctionWrapperBase (Function E))
  jit_with_context c fun =
      compile passes bc bt to_string dl functions builder opens fun c >>= λ f. ok (moved f)

  module _ ⦃conv : Conversions D⦄ where
    unfoldable pub jit :
        List CppType → ℕ → List (Arg D) → Result JitFault (FunctionWrapperBase (Function E))
    unfolding jit_with_context
    jit params fun args = do
      c ← or_bind_fault (get_context_for params args)
      or_function_fault (jit_with_context c fun)

    -- `jit_`
    unfoldable pub jit_raw :
        RawBytes
        → List CppType
        → ℕ
        → List (Arg D)
        → Result JitFault (FunctionWrapperBase (Function E))
    unfolding jit_with_context
    jit_raw raw params fun args = do
      c ← or_bind_fault (get_context_for_raw raw params args)
      or_function_fault (jit_with_context c fun)
