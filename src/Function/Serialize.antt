-- ===== src/Function/Serialize.antt =====
-- A compiled function that is written and read again.
use Prim.Native.String.{String}
use easy_just_in_time.Prelude.{
  ℕ, ◌≡◌, refl, sym, ap, ◌∙◌, Bool, List, Option, some, Result, ok, err, >>=-eq-ok, Option-cases,
  inl, inr,
}
use easy_just_in_time.Context.{Context}
use easy_just_in_time.Tracker.{
  GlobalMapping, BitcodeTracker, TrackerError, get_address, get_name_and_global_mapping, get_module,
}
use easy_just_in_time.Llvm.{IrModule, Bitcode}
use easy_just_in_time.Utils.{get_entry_function_name}
use easy_just_in_time.Inline.Constants.{DataLayout}
use easy_just_in_time.Function.{
  FunctionFault, or_tracker_fault, EngineBuilder, Passes, Function, compile_and_wrap,
  resolve_module, optimize, write_optimized_to_file, compile, serialize, globals_of, deserialize,
}

or_tracker_fault-eq-ok :
    {A : Type 0} (r : Result TrackerError A) {a : A} → or_tracker_fault r ≡ ok a → r ≡ ok a
or_tracker_fault-eq-ok (ok a) h = cc
or_tracker_fault-eq-ok (err e) h = cc

abbrev module_of : {E : Type 0} → IrModule → Result FunctionFault (Function E) → IrModule
module_of m (ok f) = f.llvm_module
module_of m (err e) = m

module _ {E : Type 0} (builder : EngineBuilder E) where
  compile_and_wrap-llvm_module :
      (reserved : List String) (name : String) (globals : Option (List GlobalMapping))
      (m : IrModule) {f : Function E}
      → compile_and_wrap builder reserved name globals m ≡ ok f
      → f.llvm_module ≡ m
  unfolding compile_and_wrap
  compile_and_wrap-llvm_module reserved name globals m {f} h =
      elim (Option-cases (builder.create m)) [
        | inl failed ↦ cc (rw (failed, compile_and_wrap) at h)
        | inr (ee, made) ↦ sym (ap (module_of m) (rw (made, compile_and_wrap) at h))
      ]

  module _ {D : Type 0} (passes : Passes D) (bc : Bitcode) (bt : BitcodeTracker)
      (to_string : ℕ → String) (dl : DataLayout) (functions : ℕ → IrModule)
      (opens : String → Bool) where
    -- What a compilation that succeeds has put together.
    pub compile-eq-ok :
        (addr : ℕ) (c : Context D) {f : Function E}
        → compile passes bc bt to_string dl functions builder opens addr c ≡ ok f
        → (name : String) × (globals : Option (List GlobalMapping)) × (get_name_and_global_mapping
              addr bt
            ≡ ok (name, globals))
          × (compile_and_wrap builder c.raw_bytes.reserved_regs name globals f.llvm_module ≡ ok f)
    unfolding compile
    compile-eq-ok addr c {f} h =
        let ((name, globals), found, h1) =
          >>=-eq-ok (or_tracker_fault (get_name_and_global_mapping addr bt)) _ h in
        let (m, read, h2) =
          >>=-eq-ok (or_tracker_fault (get_module bc.parse_bitcode_file addr bt)) _ h1 in
        let (resolved, linked, h3) = >>=-eq-ok (resolve_module passes bc bt name m) _ h2 in
        let (optimized, done, h4) =
          >>=-eq-ok
            (optimize passes bc bt to_string dl functions name c c.opt_level c.opt_size resolved) _
            h3 in
        let (written, wrote, h5) = >>=-eq-ok (write_optimized_to_file opens c.debug_file) _ h4 in
        let same =
          compile_and_wrap-llvm_module c.raw_bytes.reserved_regs name globals optimized h5 in
        (
          name,
          globals,
          or_tracker_fault-eq-ok (get_name_and_global_mapping addr bt) found,
          ap (compile_and_wrap builder c.raw_bytes.reserved_regs name globals) same ∙ h5,
        )

    -- Take a function that compiled for a context, whose name stands for its address in the tracker, and
    -- whose compiled module names it as its entry; and let the bitcode reader read back this module from
    -- what the writer wrote. Then, in the thread that compiled it and while its context lives, writing it and
    -- reading it again gives the same function: the module, an engine with the same globals, and the address that this engine has for it.
    pub deserialize-serialize :
        (addr : ℕ) (c : Context D) (name : String) {globals : Option (List GlobalMapping)}
        {f : Function E}
        → compile passes bc bt to_string dl functions builder opens addr c ≡ ok f
        → get_name_and_global_mapping addr bt ≡ ok (name, globals)
        → get_address name bt ≡ some addr
        → get_entry_function_name f.llvm_module ≡ ok name
        → bc.parse_bitcode_file (bc.write_bitcode f.llvm_module) ≡ some f.llvm_module
        → deserialize bc builder bt c.raw_bytes.reserved_regs (serialize bc f) ≡ ok (some f)
    unfolding deserialize serialize globals_of
    deserialize-serialize addr c name {globals} {f} compiled known address entry reads =
        let (name', globals', known', wrapped) = compile-eq-ok addr c compiled in
        let same_name : name' ≡ name = cc (known, known') in
        let same_globals : globals' ≡ globals = cc (known, known') in
        let wrapped' : compile_and_wrap builder c.raw_bytes.reserved_regs name globals f.llvm_module
            ≡ ok f =
          rw (same_name, same_globals) at wrapped in
        rw (serialize, deserialize, reads, entry, globals_of, address, known) (rw wrapped' refl)
