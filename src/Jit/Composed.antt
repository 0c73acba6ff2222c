-- ===== src/Jit/Composed.antt =====
-- What a call of `easy::jit` puts together: the context of its arguments, the function that is registered,
-- and the engine.
use Prim.Native.String.{String}
use easy_just_in_time.Prelude.{
  ℕ, ◌≡◌, refl, sym, ap, Bool, List, [], Option, none, some, Result, ok, err, >>=-eq-ok,
  Option-cases, inl, inr,
}
use easy_just_in_time.Meta.{CppType}
use easy_just_in_time.Context.{Context, RawBytes, set_raw_bytes}
use easy_just_in_time.Params.{Conversions, Arg, BindError, get_context_for, get_context_for_raw}
use easy_just_in_time.Params.Bound.{Bound, get_context_for_raw-Bound}
use easy_just_in_time.Tracker.{
  GlobalMapping, BitcodeTracker, get_address, get_name_and_global_mapping,
}
use easy_just_in_time.Llvm.{IrModule, Bitcode}
use easy_just_in_time.Inline.Constants.{DataLayout}
use easy_just_in_time.Cache.{FunctionWrapperBase, moved}
use easy_just_in_time.Function.{
  FunctionFault, EngineBuilder, Passes, Function, map_globals, compile_and_wrap, compile, serialize,
}
use easy_just_in_time.Function.Serialize.{compile-eq-ok, deserialize-serialize}
use easy_just_in_time.Utils.{get_entry_function_name}
use easy_just_in_time.Jit.{
  or_bind_fault, or_function_fault, get_raw_pointer, serialize_wrapper, deserialize_wrapper,
  jit_with_context, jit, jit_raw,
}

or_bind_fault-eq-ok :
    {A : Type 0} (r : Result BindError A) {a : A} → or_bind_fault r ≡ ok a → r ≡ ok a
or_bind_fault-eq-ok (ok a) h = cc
or_bind_fault-eq-ok (err e) h = cc

or_function_fault-eq-ok :
    {A : Type 0} (r : Result FunctionFault A) {a : A} → or_function_fault r ≡ ok a → r ≡ ok a
or_function_fault-eq-ok (ok a) h = cc
or_function_fault-eq-ok (err e) h = cc

module _ {E : Type 0} (builder : EngineBuilder E) where
  -- An engine with the globals of a function.
  abbrev pub with_globals : Option (List GlobalMapping) → E → E
  with_globals none ee = ee
  with_globals (some gs) ee = map_globals builder ee gs

  -- The function is what an engine for its module, told of these globals, finds by the name.
  abbrev pub IsLoaded : List String → String → Option (List GlobalMapping) → Function E → Type 0
  IsLoaded reserved name globals f =
      (ee : E) × (builder.create f.llvm_module ≡ some ee)
      × (f.engine ≡ with_globals globals ee)
      × (f.address ≡ builder.get_function_address reserved name f.engine)

  compile_and_wrap-IsLoaded :
      (reserved : List String) (name : String) (globals : Option (List GlobalMapping))
      (m : IrModule) {f : Function E}
      → compile_and_wrap builder reserved name globals m ≡ ok f
      → IsLoaded reserved name globals f
  unfolding compile_and_wrap
  compile_and_wrap-IsLoaded reserved name none m {f} h = elim (Option-cases (builder.create m)) [
    | inl failed ↦ cc (rw (failed, compile_and_wrap) at h)
    | inr (ee, made) ↦
        let e : record {
          address = builder.get_function_address reserved name ee;
          engine = ee;
          llvm_module = m;
        }
            ≡ f =
          cc (rw (made, compile_and_wrap) at h) in
        rw (← e) (ee, made, refl, refl)
  ]
  compile_and_wrap-IsLoaded reserved name (some gs) m {f} h =
      elim (Option-cases (builder.create m)) [
        | inl failed ↦ cc (rw (failed, compile_and_wrap) at h)
        | inr (ee, made) ↦
            let e : record {
              address = builder.get_function_address reserved name (map_globals builder ee gs);
              engine = map_globals builder ee gs;
              llvm_module = m;
            }
                ≡ f =
              cc (rw (made, compile_and_wrap) at h) in
            rw (← e) (ee, made, refl, refl)
      ]

  module _ {D : Type 0} ⦃conv : Conversions D⦄ (passes : Passes D) (bc : Bitcode)
      (bt : BitcodeTracker) (to_string : ℕ → String) (dl : DataLayout) (functions : ℕ → IrModule)
      (opens : String → Bool) where
    -- What stands behind the wrapper that a call returns.
    abbrev pub IsJitted :
        RawBytes → List CppType → ℕ → List (Arg D) → FunctionWrapperBase (Function E) → Type 0
    IsJitted raw params fun args fw =
        (c : Context D) × (f : Function E) × (name : String) × (globals : Option
          (List GlobalMapping))
        × Bound params args c.argument_mapping
        × (compile passes bc bt to_string dl functions builder opens fun c ≡ ok f)
        × (get_name_and_global_mapping fun bt ≡ ok (name, globals))
        × IsLoaded raw.reserved_regs name globals f
        × (fw ≡ moved f)
        × (get_raw_pointer fw ≡ some f.address)

    -- A call of `easy::jit_` that returns gives a wrapper that is not null. Its function is compiled for a
    -- context that binds each parameter, in order, to what its argument becomes; and its raw pointer is the
    -- address that an engine for the compiled module, told of the globals that the function was registered
    -- with, finds by the registered name, while the registers of the given raw bytes are reserved.
    pub jit_raw-IsJitted :
        (raw : RawBytes) (params : List CppType) (fun : ℕ) (args : List (Arg D))
        {fw : FunctionWrapperBase (Function E)}
        → jit_raw passes bc bt to_string dl functions builder opens raw params fun args ≡ ok fw
        → IsJitted raw params fun args fw
    unfolding jit_raw jit_with_context get_raw_pointer
    jit_raw-IsJitted raw params fun args {fw} h =
        let (c, built, h1) = >>=-eq-ok (or_bind_fault (get_context_for_raw raw params args)) _ h in
        let (bound, raw_kept, _) =
          get_context_for_raw-Bound raw params args (or_bind_fault-eq-ok _ built) in
        let (f, compiled, h2) =
          >>=-eq-ok (compile passes bc bt to_string dl functions builder opens fun c) _ (
            or_function_fault-eq-ok
              (jit_with_context passes bc bt to_string dl functions builder opens c fun) h1) in
        let same : moved f ≡ fw = cc h2 in
        let (name, globals, known, wrapped) =
          compile-eq-ok builder passes bc bt to_string dl functions opens fun c compiled in
        let loaded : IsLoaded raw.reserved_regs name globals f = rw raw_kept at (
          compile_and_wrap-IsLoaded c.raw_bytes.reserved_regs name globals f.llvm_module wrapped) in
        (
          c,
          f,
          name,
          globals,
          bound,
          compiled,
          known,
          loaded,
          sym same,
          ap get_raw_pointer (sym same),
        )

    -- A call without raw bytes.
    jit-jit_raw :
        (params : List CppType) (fun : ℕ) (args : List (Arg D))
        → jit passes bc bt to_string dl functions builder opens params fun args
          ≡ jit_raw passes bc bt to_string dl functions builder opens
              (record { bytes = []; reserved_regs = [] })
              params
              fun
              args
    unfolding jit jit_raw get_context_for get_context_for_raw set_raw_bytes
    jit-jit_raw params fun args = refl

    -- Under the conditions of `deserialize-serialize`, what `jit_with_context` returns can be written, and
    -- the thread that compiled it reads back the same wrapper while the context lives.
    deserialize_wrapper-serialize_wrapper :
        (fun : ℕ) (c : Context D) (name : String) {globals : Option (List GlobalMapping)}
        {f : Function E}
        → compile passes bc bt to_string dl functions builder opens fun c ≡ ok f
        → get_name_and_global_mapping fun bt ≡ ok (name, globals)
        → get_address name bt ≡ some fun
        → get_entry_function_name f.llvm_module ≡ ok name
        → bc.parse_bitcode_file (bc.write_bitcode f.llvm_module) ≡ some f.llvm_module
        → (fw : FunctionWrapperBase (Function E)) × (buf : List ℕ) × (jit_with_context passes bc bt
              to_string dl functions builder opens c fun
            ≡ ok fw)
          × (serialize_wrapper bc fw ≡ some buf)
          × (deserialize_wrapper bc builder bt c.raw_bytes.reserved_regs buf ≡ ok fw)
    unfolding jit_with_context serialize_wrapper deserialize_wrapper
    deserialize_wrapper-serialize_wrapper fun c name {f = f} compiled known address entry reads =
        let again =
          deserialize-serialize builder passes bc bt to_string dl functions opens fun c name
            compiled known address entry reads in
        (moved f, serialize bc f, rw compiled, refl, rw again)
