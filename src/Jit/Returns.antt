-- ===== src/Jit/Returns.antt =====
-- A call of `easy::jit_` from its arguments to the wrapper, where nothing stands in its way.
use Prim.Native.String.{String}
use easy_just_in_time.Prelude.{
  ℕ, ◌<◌, ◌≡◌, refl, ap, ◌∙◌, Bool, true, false, List, [], ◌∷◌, Option, none, some, ok, length, map,
  All,
}
use easy_just_in_time.Meta.{CppType, boolean, integral, parameter_list}
use easy_just_in_time.Context.{Context, RawBytes}
use easy_just_in_time.Params.{Conversions, Arg, arg_type, get_context_for_raw}
use easy_just_in_time.Tracker.{
  GlobalMapping, BitcodeTracker, get_address, get_name_and_global_mapping, get_module,
}
use easy_just_in_time.Llvm.{LlvmType, int_ty, IrModule, Bitcode}
use easy_just_in_time.Utils.{mark_as_entry}
use easy_just_in_time.EmitCodes.{Instruction, run_on_function}
use easy_just_in_time.Inline.Constants.{Constant, DataLayout}
use easy_just_in_time.Inline.Link.{is_function, get_named_value, make_private}
use easy_just_in_time.Inline.Args.{Wrapper, take_name, run_on_module}
use easy_just_in_time.Inline.Bind.{std_bind, operand_value, AreScalars}
use easy_just_in_time.Inline.Bind.Placeholders.{UsedOnce}
use easy_just_in_time.Inline.Bind.Wrapper.{run_on_module-std_bind}
use easy_just_in_time.Cache.{moved}
use easy_just_in_time.Function.{
  EngineBuilder, Passes, Function, compile_and_wrap, called_names, link_called, link_all,
  resolve_module, optimize, write_optimized_to_file, compile,
}
use easy_just_in_time.Jit.Composed.{with_globals}
use easy_just_in_time.Params.Bound.{get_context_for_raw-Bound}
use easy_just_in_time.Jit.{jit_with_context, jit_raw}

-- A function that calls no registered one by name keeps its module.
abbrev pub Unregistered : BitcodeTracker → String → Type 0
Unregistered bt name = get_address name bt ≡ none

link_all-Unregistered :
    (bc : Bitcode) (bt : BitcodeTracker) (names : List String) (m : IrModule)
    → All (Unregistered bt) names
    → link_all bc bt names m ≡ ok m
unfolding link_all link_called
link_all-Unregistered bc bt [] m free = refl
link_all-Unregistered bc bt (name ∷ names) m (free, rest) =
    rw (free, link_all, link_called) (link_all-Unregistered bc bt names m rest)

module _ {D : Type 0} (passes : Passes D) (bc : Bitcode) (bt : BitcodeTracker)
    (to_string : ℕ → String) (dl : DataLayout) (functions : ℕ → IrModule) where
  resolve_module-Unregistered :
      (name : String) (code : List Instruction) (m : IrModule)
      → passes.body name m ≡ some code
      → All (Unregistered bt) (called_names code)
      → resolve_module passes bc bt name m ≡ ok m
  unfolding resolve_module
  resolve_module-Unregistered name code m body free =
      rw (body, resolve_module) (link_all-Unregistered bc bt (called_names code) m free)

  -- The module after the pass on inline assembly, and after the pass that makes the wrapper and the
  -- standard passes.
  abbrev pub emitted : String → Context D → List Instruction → IrModule → IrModule
  emitted name c code m = passes.with_body name (run_on_function to_string name c name code).0 m

  abbrev pub optimized : String → Context D → Wrapper D → IrModule → IrModule
  optimized name c w m = passes.populate_module_pass_manager false c.opt_level c.opt_size (
      passes.populate_module_pass_manager true c.opt_level c.opt_size (
        passes.with_wrapper name w
          (mark_as_entry name (take_name name passes.wrapper_ptr_ty (make_private name m)))))

  optimize-optimized :
      (name : String) (c : Context D) (code : List Instruction) (m : IrModule) (w : Wrapper D)
      → passes.body name m ≡ some code
      → run_on_module bc bt dl functions name
          (passes.signature name (emitted name c code m))
          passes.wrapper_ptr_ty
          c
          (emitted name c code m)
        ≡ ok (
          mark_as_entry name
              (take_name name passes.wrapper_ptr_ty (make_private name (emitted name c code m))),
          w,
        )
      → optimize passes bc bt to_string dl functions name c c.opt_level c.opt_size m
        ≡ ok (optimized name c w (emitted name c code m))
  unfolding optimize
  optimize-optimized name c code m w body made = rw body (rw made refl)

  module _ {E : Type 0} (builder : EngineBuilder E) (opens : String → Bool) where
    -- Each step of a compilation returns.
    compile_steps :
        (addr : ℕ) (c : Context D) (name : String) (globals : Option (List GlobalMapping))
        (m m' : IrModule) {f : Function E}
        → get_name_and_global_mapping addr bt ≡ ok (name, globals)
        → get_module bc.parse_bitcode_file addr bt ≡ ok m
        → resolve_module passes bc bt name m ≡ ok m
        → optimize passes bc bt to_string dl functions name c c.opt_level c.opt_size m ≡ ok m'
        → write_optimized_to_file opens c.debug_file ≡ ok tt
        → compile_and_wrap builder c.raw_bytes.reserved_regs name globals m' ≡ ok f
        → compile passes bc bt to_string dl functions builder opens addr c ≡ ok f
    unfolding compile
    compile_steps addr c name globals m m' known read resolved done wrote wrapped =
        rw known (rw read (rw resolved (rw done (rw wrote wrapped))))

    -- The function that an engine has for a module.
    abbrev pub loaded :
        List String → String → Option (List GlobalMapping) → IrModule → E → Function E
    loaded reserved name globals m ee = record {
      address = builder.get_function_address reserved name (with_globals builder globals ee);
      engine = with_globals builder globals ee;
      llvm_module = m;
    }

    compile_and_wrap-loaded :
        (reserved : List String) (name : String) (globals : Option (List GlobalMapping))
        (m : IrModule) (ee : E)
        → builder.create m ≡ some ee
        → compile_and_wrap builder reserved name globals m ≡ ok (loaded reserved name globals m ee)
    unfolding compile_and_wrap
    compile_and_wrap-loaded reserved name none m ee made = rw (made, compile_and_wrap) refl
    compile_and_wrap-loaded reserved name (some gs) m ee made = rw (made, compile_and_wrap) refl

    module _ ⦃conv : Conversions D⦄ (lower : CppType → LlvmType)
        (lower_integral : (w : ℕ) (s : Bool) → lower (integral w s) ≡ int_ty w)
        (lower_boolean : lower boolean ≡ int_ty 1) {V : Type 0} (value_of : Constant D → V)
        (xs : List V) where
      -- What a call of `easy::jit_` gives: its wrapper's function, in an engine.
      abbrev pub ReturnsBind :
          RawBytes
          → List CppType
          → ℕ
          → List (Arg D)
          → String
          → Option (List GlobalMapping)
          → IrModule
          → Context D
          → List CppType
          → Type 0
      ReturnsBind raw pl fun args name globals m c r =
          (w : Wrapper D) × (ee : E) × (builder.create (optimized name c w m) ≡ some ee)
          × (jit_raw passes bc bt to_string dl functions builder opens raw pl fun args
              ≡ ok (moved (loaded raw.reserved_regs name globals (optimized name c w m) ee)))
          × (w.params ≡ map lower r)
          × (w.return_type ≡ (passes.signature name m).return_type)
          × (map (operand_value value_of xs) w.call_args ≡ std_bind lower value_of xs pl args)

      -- Take an engine that can be created for every module, and a function that the program has registered,
      -- whose bitcode parses. Let its code be there and call no registered function by name, and let the
      -- module, with its raw bytes emitted, have the function's symbol; and let the file for the module, if
      -- one is asked for, open. Take a call of `easy::jit_` for it under the conditions of
      -- `run_on_module-std_bind`. Then the call returns, with the function that the engine has for the module with
      -- the wrapper and the standard passes run twice; and this wrapper calls the function as `std::bind`
      -- does.
      pub jit_raw_returns :
          (raw : RawBytes) (pl : List CppType) (fun : ℕ) (args : List (Arg D)) (name : String)
          (globals : Option (List GlobalMapping)) (m : IrModule) (code : List Instruction)
          {c : Context D} {r : List CppType}
          → ((made : IrModule) → (ee : E) × (builder.create made ≡ some ee))
          → get_name_and_global_mapping fun bt ≡ ok (name, globals)
          → get_module bc.parse_bitcode_file fun bt ≡ ok m
          → passes.body name m ≡ some code
          → All (Unregistered bt) (called_names code)
          → get_context_for_raw raw pl args ≡ ok c
          → is_function (get_named_value name (emitted name c code m)) ≡ true
          → (passes.signature name (emitted name c code m)).params ≡ map lower pl
          → (passes.signature name (emitted name c code m)).struct_ret ≡ false
          → write_optimized_to_file opens c.debug_file ≡ ok tt
          → 0 < length pl
          → parameter_list pl (map arg_type args) ≡ ok r
          → AreScalars bt pl args
          → UsedOnce args
          → ReturnsBind raw pl fun args name globals (emitted name c code m) c r
      unfolding jit_raw jit_with_context
      jit_raw_returns raw pl fun args name globals m code {c} {r} engines known read body free built
            named params no_ret wrote pos typed scalars once =
          let (w, made, same_params, same_return, values) =
            run_on_module-std_bind lower lower_integral lower_boolean value_of xs bc bt dl functions
              raw pl args name (passes.signature name (emitted name c code m)) passes.wrapper_ptr_ty
              (emitted name c code m) pos named params no_ret built typed scalars once in
          let last : IrModule = optimized name c w (emitted name c code m) in
          let (ee, created) = engines last in
          let kept : c.raw_bytes ≡ raw = (get_context_for_raw-Bound raw pl args built).1 in
          let wrapped : compile_and_wrap builder c.raw_bytes.reserved_regs name globals last
              ≡ ok (loaded raw.reserved_regs name globals last ee) =
            ap (λ b. compile_and_wrap builder b.reserved_regs name globals last) kept
            ∙ compile_and_wrap-loaded raw.reserved_regs name globals last ee created in
          let compiled =
            compile_steps fun c name globals m last known read
              (resolve_module-Unregistered name code m body free)
              (optimize-optimized name c code m w body made) wrote wrapped in
          (w, ee, created, rw (built, compiled) refl, same_params, same_return, values)
