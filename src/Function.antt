-- ===== src/Function.antt =====
-- runtime/Function.cpp: a registered function is compiled for a context, and a compiled one is written and
-- read again. The execution engine, LLVM's passes and the file system are parameters. A module that the
-- linker refuses is taken to leave the destination as it was.
pub mod Linked
pub mod Registers
pub mod Serialize
use Prim.Native.String.{String}
use mathlib.Core.List.{foldl}
use text.Mathlib.Text.{◌==◌ as str_eq}
use easy_just_in_time.Prelude.{
  ℕ, Bool, true, false, List, [], ◌∷◌, Option, none, some, Result, ok, err, ◌>>=◌, ◌>>◌, guard,
  if◌then◌else◌,
}
use easy_just_in_time.Context.{Context}
use easy_just_in_time.Tracker.{
  GlobalMapping, BitcodeTracker, TrackerError, get_address, get_name_and_global_mapping, get_module,
}
use easy_just_in_time.Llvm.{
  LlvmType, IrModule, IrFunction, Bitcode, Symbol, function_symbol, variable_symbol, alias_symbol,
}
use easy_just_in_time.Utils.{EntryFault, get_entry_function_name}
use easy_just_in_time.EmitCodes.{
  Instruction, asm_call, direct_call, indirect_call, no_call, run_on_function,
}
use easy_just_in_time.Inline.{Fault}
use easy_just_in_time.Inline.Constants.{DataLayout}
use easy_just_in_time.Inline.Link.{get_named_value, make_private}
use easy_just_in_time.Inline.Args.{Wrapper, run_on_module}

-- The exceptions, and the uses of null pointers.
pub data FunctionFault : Type 0 where
  engine_create_error : String → FunctionFault
  could_not_open_file : String → FunctionFault
  tracker_fault : TrackerError → FunctionFault
  entry_fault : EntryFault → FunctionFault
  inline_fault : Fault → FunctionFault
  missing_function missing_value : FunctionFault

abbrev pub or_tracker_fault : {A : Type 0} → Result TrackerError A → Result FunctionFault A
or_tracker_fault (ok a) = ok a
or_tracker_fault (err e) = err (tracker_fault e)

abbrev pub or_entry_fault : {A : Type 0} → Result EntryFault A → Result FunctionFault A
or_entry_fault (ok a) = ok a
or_entry_fault (err e) = err (entry_fault e)

abbrev pub or_inline_fault : {A : Type 0} → Result Fault A → Result FunctionFault A
or_inline_fault (ok a) = ok a
or_inline_fault (err e) = err (inline_fault e)

-- The engine. Generating code for a function reads the reserved registers of the thread.
pub record EngineBuilder (E : Type 0) : Type 0 where
  pub create : IrModule → Option E
  pub add_global_mapping : String → ℕ → E → E
  pub get_function_address : List String → String → E → ℕ

-- What the passes read of a module and write to it, and the standard passes for an optimisation and a
-- size level, with an inliner or without one.
pub record Passes (D : Type 0) : Type 0 where
  pub body : String → IrModule → Option (List Instruction)
  pub with_body : String → List Instruction → IrModule → IrModule
  pub signature : String → IrModule → IrFunction
  pub with_wrapper : String → Wrapper D → IrModule → IrModule
  pub wrapper_ptr_ty : LlvmType
  pub populate_module_pass_manager : (inliner : Bool) → ℕ → ℕ → IrModule → IrModule

-- `Function`, with what its holder holds.
pub record Function (E : Type 0) : Type 0 where
  pub address : ℕ
  pub engine : E
  pub llvm_module : IrModule

module _ {E : Type 0} (builder : EngineBuilder E) where
  unfoldable pub map_globals : E → List GlobalMapping → E
  map_globals ee [] = ee
  map_globals ee (gm ∷ globals) =
      map_globals (builder.add_global_mapping gm.name gm.address ee) globals

  -- `GetEngine` and `CompileAndWrap`, for the reserved registers of the thread.
  unfoldable pub compile_and_wrap :
      List String
      → String
      → Option (List GlobalMapping)
      → IrModule
      → Result FunctionFault (Function E)
  unfolding map_globals
  compile_and_wrap reserved name globals m = elim (builder.create m) [
    | none ↦ err (engine_create_error name)
    | some ee ↦
        let mapped : E = elim globals [ none ↦ ee | some gs ↦ map_globals ee gs ] in
        ok (record {
          address = builder.get_function_address reserved name mapped;
          engine = mapped;
          llvm_module = m;
        })
  ]

-- `WriteOptimizedToFile`; `opens` says whether the file can be opened.
unfoldable pub write_optimized_to_file : (String → Bool) → String → Result FunctionFault (Unit {0})
write_optimized_to_file opens file =
    if str_eq file "" then ok tt else guard (opens file) (could_not_open_file file)

-- `ToDo`: the functions that are called by name.
unfoldable pub called_names : List Instruction → List String
called_names [] = []
called_names (direct_call name ∷ code) =
    let names = called_names code in if str_eq name "" then names else name ∷ names
called_names (i ∷ code) = called_names code

module _ (bc : Bitcode) (bt : BitcodeTracker) where
  -- The linkage of what was linked: an alias keeps its own.
  unfoldable pub privatize : String → IrModule → Result FunctionFault IrModule
  privatize name m = elim (get_named_value name m) [
    | none ↦ err missing_value
    | some s ↦ ok (elim s.symbol_kind [
      | alias_symbol ↦ m
      | variable_symbol ↦ make_private name m
      | function_symbol ↦ make_private name m
    ])
  ]

  -- `LinkPointerIfPossible` of a name.
  unfoldable pub link_called : String → IrModule → Result FunctionFault IrModule
  unfolding privatize
  link_called name m = elim (get_address name bt) [
    | none ↦ ok m
    | some ptr ↦ do
      lm ← or_tracker_fault (get_module bc.parse_bitcode_file ptr bt)
      elim (bc.link_modules m lm) [ none ↦ ok m | some linked ↦ privatize name linked ]
  ]

  unfoldable pub link_all : List String → IrModule → Result FunctionFault IrModule
  unfolding link_called
  link_all [] m = ok m
  link_all (name ∷ names) m = link_called name m >>= link_all names

module _ {D : Type 0} (passes : Passes D) (bc : Bitcode) (bt : BitcodeTracker) where
  unfoldable pub resolve_module : String → IrModule → Result FunctionFault IrModule
  unfolding called_names link_all
  resolve_module name m = elim (passes.body name m) [
    | none ↦ err missing_function
    | some code ↦ link_all bc bt (called_names code) m
  ]

  module _ (to_string : ℕ → String) (dl : DataLayout) (functions : ℕ → IrModule) where
    -- `Optimize`: the target's inline assembly, then its wrapper, then the standard passes, which are
    -- added twice: the builder hands its inliner over the first time. The verifier changes no module.
    unfoldable pub optimize : String → Context D → ℕ → ℕ → IrModule → Result FunctionFault IrModule
    optimize name c level size m = do
      let emitted : IrModule = elim (passes.body name m) [
        | none ↦ m
        | some code ↦ passes.with_body name (run_on_function to_string name c name code).0 m
      ]
      (inlined, wrapper) ← or_inline_fault (
          run_on_module bc bt dl functions name (passes.signature name emitted)
            passes.wrapper_ptr_ty c emitted)
      let wrapped = passes.with_wrapper name wrapper inlined
      ok (
          passes.populate_module_pass_manager false level size
            (passes.populate_module_pass_manager true level size wrapped))

    module _ {E : Type 0} (builder : EngineBuilder E) (opens : String → Bool) where
      -- `Function::Compile`
      unfoldable pub compile : ℕ → Context D → Result FunctionFault (Function E)
      unfolding resolve_module optimize write_optimized_to_file compile_and_wrap
      compile addr c = do
        (name, globals) ← or_tracker_fault (get_name_and_global_mapping addr bt)
        m ← or_tracker_fault (get_module bc.parse_bitcode_file addr bt)
        resolved ← resolve_module name m
        optimized ← optimize name c c.opt_level c.opt_size resolved
        write_optimized_to_file opens c.debug_file
        compile_and_wrap builder c.raw_bytes.reserved_regs name globals optimized

-- The globals of the function of that name, if it is registered.
unfoldable pub globals_of :
    BitcodeTracker → String → Result FunctionFault (Option (List GlobalMapping))
globals_of bt name = elim (get_address name bt) [
  | none ↦ ok none
  | some ptr ↦ do
    (ignored, globals) ← or_tracker_fault (get_name_and_global_mapping ptr bt)
    ok globals
]

module _ {E : Type 0} (bc : Bitcode) where
  -- `Function::serialize`
  unfoldable pub serialize : Function E → List ℕ
  serialize f = bc.write_bitcode f.llvm_module

  -- `Function::deserialize`; `none` is the null pointer. The reserved registers are those that the thread
  -- has from an earlier compilation.
  unfoldable pub deserialize :
      EngineBuilder E
      → BitcodeTracker
      → List String
      → List ℕ
      → Result FunctionFault (Option (Function E))
  unfolding globals_of compile_and_wrap
  deserialize builder bt reserved buf = elim (bc.parse_bitcode_file buf) [
    | none ↦ ok none
    | some m ↦ do
      name ← or_entry_fault (get_entry_function_name m)
      globals ← globals_of bt name
      f ← compile_and_wrap builder reserved name globals m
      ok (some f)
  ]
