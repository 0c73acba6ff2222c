-- ===== src/Jit/Exported.antt =====
-- From the compiler plugin to the wrapper: a call of `easy::jit_` for a function that the pass of
-- pass/Easy.cpp exported, in the program that the pass registered it in.
use Prim.Native.String.{String, ◌++◌ as str_append}
use easy_just_in_time.Prelude.{
  sym, inl, inr, ℕ, ◌<◌, ◌≡◌, ◌≢◌, ap, ◌∙◌, Bool, true, false, List, [], ◌∷◌, Option, some, ok,
  length, map, All, refl,
}
use easy_just_in_time.Search.{◌∈◌}
use easy_just_in_time.UnorderedMap.{find}
use easy_just_in_time.Tracker.Registered.{find-register_all}
use easy_just_in_time.Meta.{CppType, boolean, integral, parameter_list}
use easy_just_in_time.Context.{Context, RawBytes}
use easy_just_in_time.Params.{Conversions, Arg, arg_type, get_context_for_raw}
use easy_just_in_time.Tracker.{
  BitcodeTracker, nat_eq, get_address, new_tracker, register_all, get_name_and_global_mapping,
  get_module,
}
use easy_just_in_time.Llvm.{LlvmType, int_ty, IrModule, Bitcode}
use easy_just_in_time.EmitCodes.{Instruction}
use easy_just_in_time.Inline.Constants.{Constant, DataLayout}
use easy_just_in_time.Inline.Link.{is_function, get_named_value}
use easy_just_in_time.Inline.Bind.{AreScalars}
use easy_just_in_time.Inline.Bind.Placeholders.{UsedOnce}
use easy_just_in_time.Function.{EngineBuilder, Passes, called_names, write_optimized_to_file}
use easy_just_in_time.Jit.Returns.{Unregistered, emitted, ReturnsBind, jit_raw_returns}
use easy_just_in_time.Plugin.{Global, SourceModule}
use easy_just_in_time.Plugin.Clean.{clean_module}
use easy_just_in_time.Plugin.Clean.Fixed.{HasNoAlias, AddsNoAlias}
use easy_just_in_time.Plugin.Register.{PluginLibrary, RegisterCall, register_objects}
use easy_just_in_time.Plugin.Register.Calls.{execute, mapping_of}
use easy_just_in_time.Plugin.Register.Calls.Embedded.{
  IsLeftFor, EmbedsFor, AllLeft, AllNamed, with_bitcode,
}
use easy_just_in_time.Plugin.Register.Calls.Executed.{registrations, register_objects_returns}
use easy_just_in_time.Plugin.Register.Calls.Loaded.{
  Separates, first_info-registrations, get_address-exported,
}

-- The tracker of the program, once the constructor that the pass made has run.
abbrev pub tracker_of : (ℕ → ℕ) → SourceModule → List RegisterCall → BitcodeTracker
tracker_of address n calls = register_all new_tracker (map (execute address n.values) calls)

-- No object that is exported has the name.
abbrev pub Unexported : List Global → String → Type 0
Unexported objs name = All (λ g. g.name ≢ name) objs

IsLeftFor-unique :
    (lib : PluginLibrary) (m : SourceModule) (g : Global) (left other : SourceModule)
    (is : IsLeftFor lib m g left) (is' : IsLeftFor lib m g other)
    → (left ≡ other) × (is.entry ≡ is'.entry)
IsLeftFor-unique lib m g left other is is' =
    let entry : is.entry ≡ is'.entry = cc (is.named, is'.named) in
    let cleaned : is.cleaned ≡ is'.cleaned =
      cc (is.cleans, is'.cleans, ap (λ x. clean_module lib.passes x m) entry) in
    (
      is.is_left
          ∙ ap {A = SourceModule} (λ c. record c { identifier = str_append g.name "_bitcode" })
              cleaned
          ∙ sym is'.is_left,
      entry,
    )

-- There is one module that is embedded for a global.
EmbedsFor-unique :
    (lib : PluginLibrary) (m : SourceModule) (objs : List Global) (g : Global)
    (left other : SourceModule)
    → EmbedsFor lib m objs g left
    → EmbedsFor lib m objs g other
    → left ≡ other
EmbedsFor-unique lib m [] g left other e e' = elim e [ ]
EmbedsFor-unique lib m (h ∷ hs) g left other (inl (same, is)) (inl (same', is')) =
    (IsLeftFor-unique lib m g left other is is').0
EmbedsFor-unique lib m (h ∷ hs) g left other (inl (same, is)) (inr (differs, l, rest, e)) =
    absurd (differs same)
EmbedsFor-unique lib m (h ∷ hs) g left other (inr (differs, l, rest, e)) (inl (same, is)) =
    absurd (differs same)
EmbedsFor-unique lib m (h ∷ hs) g left other (inr (differs, l, is, e))
      (inr (differs', l', is', e')) =
    let (same, entry) = IsLeftFor-unique lib m h l l' is is' in
    EmbedsFor-unique lib (with_bitcode lib is.entry l m) hs g left other e
      (rw (sym same, sym entry) at e')

module _ (lib : PluginLibrary) (objs locals : List Global) (m : SourceModule) (address : ℕ → ℕ)
    (strips : AddsNoAlias lib.passes.strip_debug_info)
    (extracts : (kept : List ℕ) → AddsNoAlias (lib.passes.extract kept))
    (none_there : HasNoAlias m.globals) (named : AllNamed m objs) {n : SourceModule}
    {calls : List RegisterCall}
    (registers : register_objects lib objs locals m ≡ ok (n, calls)) where
  -- The tracker knows the exported objects by their registrations.
  tracker_of-registrations :
      (lefts : List SourceModule) × AllLeft lib m objs lefts
      × (tracker_of address n calls
          ≡ register_all new_tracker (
              registrations address
                (map (mapping_of address) locals)
                objs
                (map lib.write_bitcode lefts)))
  tracker_of-registrations =
      let (n', calls', lefts, ends, all, executed) =
        register_objects_returns lib objs locals m strips extracts none_there named in
      let same : ◌≡◌ {A = SourceModule × List RegisterCall} (n, calls) (n', calls') =
        cc (registers, ends) in
      (
        lefts,
        all,
        ap (λ p. tracker_of address p.0 p.1) same
            ∙ ap (register_all new_tracker) (executed address),
      )

  get_address-Unexported :
      (name : String) → Unexported objs name → Unregistered (tracker_of address n calls) name
  get_address-Unexported name others =
      let (lefts, all, registered) = tracker_of-registrations in
      ap (get_address name) registered
      ∙ get_address-exported lib m address (map (mapping_of address) locals) objs
          (map lib.write_bitcode lefts) name others

  called-Unexported :
      (names : List String)
      → All (Unexported objs) names
      → All (Unregistered (tracker_of address n calls)) names
  called-Unexported [] free = tt
  called-Unexported (name ∷ names) (free, rest) =
      (get_address-Unexported name free, called-Unexported names rest)

  -- What the runtime looks up of an exported object.
  module _ (g : Global) (apart : Separates address objs) (i : g ∈ objs) where
    find-exported :
        (left : SourceModule) × EmbedsFor lib m objs g left
        × (find nat_eq (address g.value) (tracker_of address n calls).functions
            ≡ some (record {
              name = g.name;
              globals = some (map (mapping_of address) locals);
              bitcode = lib.write_bitcode left;
            }))
    unfolding find
    find-exported =
        let (lefts, all, registered) = tracker_of-registrations in
        let mapping = map (mapping_of address) locals in
        let (left, embeds, found) =
          first_info-registrations lib m address mapping objs lefts g all apart i in
        (
          left,
          embeds,
          ap (λ bt. find nat_eq (address g.value) bt.functions) registered
              ∙ find-register_all (address g.value) new_tracker
                  (registrations address mapping objs (map lib.write_bitcode lefts))
              ∙ found,
        )

    get_module-exported :
        {M : Type 0} (parse : List ℕ → Option M) (left : SourceModule) (read : M)
        → EmbedsFor lib m objs g left
        → parse (lib.write_bitcode left) ≡ some read
        → (get_name_and_global_mapping (address g.value) (tracker_of address n calls)
            ≡ ok (g.name, some (map (mapping_of address) locals)))
          × (get_module parse (address g.value) (tracker_of address n calls) ≡ ok read)
    unfolding get_name_and_global_mapping get_module
    get_module-exported parse left read embeds reads =
        let (other, embeds', found) = find-exported in
        let same = EmbedsFor-unique lib m objs g left other embeds embeds' in
        (
          rw (get_name_and_global_mapping, found) refl,
          rw (get_module, found, sym same) (rw reads refl),
        )

    module _ {D : Type 0} (passes : Passes D) (bc : Bitcode) (to_string : ℕ → String)
        (dl : DataLayout) (functions : ℕ → IrModule) {E : Type 0} (builder : EngineBuilder E)
        (opens : String → Bool) ⦃conv : Conversions D⦄ (lower : CppType → LlvmType)
        (lower_integral : (w : ℕ) (s : Bool) → lower (integral w s) ≡ int_ty w)
        (lower_boolean : lower boolean ≡ int_ty 1) {V : Type 0} (value_of : Constant D → V)
        (xs : List V) where
      -- Take a function that the pass exported, under the conditions of `register_objects_returns`, with the
      -- exported objects at different addresses, in the program whose constructor has run; and let the
      -- runtime's reader read what the plugin's writer wrote of any module as what the runtime sees of that
      -- module. Take a call of `easy::jit_` for the function's address under the conditions of
      -- `jit_raw_returns` on the engine, the file and the arguments, and on what the runtime sees of the
      -- module that the pass embedded for the function, where the code calls no exported object by name. Then
      -- the call returns with the function that the engine has for this module, mapped to the program's
      -- local variables, with the wrapper and the standard passes run; and this wrapper calls the function
      -- as `std::bind` does.
      pub exported_functions_are_jitted :
          (raw : RawBytes) (pl : List CppType) (args : List (Arg D))
          (view : SourceModule → IrModule) (left : SourceModule) (code : List Instruction)
          {c : Context D} {r : List CppType}
          → ((source : SourceModule)
              → bc.parse_bitcode_file (lib.write_bitcode source) ≡ some (view source))
          → EmbedsFor lib m objs g left
          → ((made : IrModule) → (ee : E) × (builder.create made ≡ some ee))
          → passes.body g.name (view left) ≡ some code
          → All (Unexported objs) (called_names code)
          → get_context_for_raw raw pl args ≡ ok c
          → is_function (
              get_named_value g.name (
                emitted passes bc
                  (tracker_of address n calls)
                  to_string
                  dl
                  functions
                  g.name
                  c
                  code
                  (view left)))
            ≡ true
          → (passes.signature g.name (
              emitted passes bc
                (tracker_of address n calls)
                to_string
                dl
                functions
                g.name
                c
                code
                (view left))).params
            ≡ map lower pl
          → (passes.signature g.name (
              emitted passes bc
                (tracker_of address n calls)
                to_string
                dl
                functions
                g.name
                c
                code
                (view left))).struct_ret
            ≡ false
          → write_optimized_to_file opens c.debug_file ≡ ok tt
          → 0 < length pl
          → parameter_list pl (map arg_type args) ≡ ok r
          → AreScalars (tracker_of address n calls) pl args
          → UsedOnce args
          → ReturnsBind passes bc
              (tracker_of address n calls)
              to_string
              dl
              functions
              builder
              opens
              lower
              lower_integral
              lower_boolean
              value_of
              xs
              raw
              pl
              (address g.value)
              args
              g.name
              (some (map (mapping_of address) locals))
              (emitted passes bc
                (tracker_of address n calls)
                to_string
                dl
                functions
                g.name
                c
                code
                (view left))
              c
              r
      exported_functions_are_jitted raw pl args view left code reads embeds engines body free built
            has_value params no_ret wrote pos typed scalars once =
          let (known, read_from) =
            get_module-exported bc.parse_bitcode_file left (view left) embeds (reads left) in
          jit_raw_returns passes bc (tracker_of address n calls) to_string dl functions builder
            opens lower lower_integral lower_boolean value_of xs raw pl (address g.value) args
            g.name (some (map (mapping_of address) locals)) (view left) code engines known read_from
            body (called-Unexported (called_names code) free) built has_value params no_ret wrote
            pos typed scalars once
