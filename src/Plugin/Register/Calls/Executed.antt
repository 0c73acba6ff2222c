-- ===== src/Plugin/Register/Calls/Executed.antt =====
-- The constructor registers each exported object under its name, with its cleaned module and the mapping.
use Prim.Native.String.{◌++◌ as str_append}
use easy_just_in_time.Prelude.{
  ℕ, ◌-◌, ◌≡◌, refl, ap, ◌∙◌, inl, inr, Option-cases, some, List, [], ◌∷◌, ◌++◌, map, length, ok,
  take, take-append, length-append, arith,
}
use easy_just_in_time.Tracker.{GlobalMapping, Registration, easy_register}
use easy_just_in_time.Plugin.{
  Value, function_value, constant_array, string_data, Global, SourceModule,
}
use easy_just_in_time.Plugin.Clean.Fixed.{HasNoAlias, AddsNoAlias}
use easy_just_in_time.Plugin.Register.{
  PluginLibrary, RegisterCall, get_string_global, new_variable, get_global_mapping, mapping_entries,
  declare_register_bitcode, register_bitcode, register_objects, get_function,
}
use easy_just_in_time.Plugin.Register.Memory.{
  Holds, Grows, Grows-refl, Grows-trans, Holds-Grows, Holds-initial, new_constant-IsA,
  new_variable-Holds,
}
use easy_just_in_time.Plugin.Register.Calls.Embedded.{
  AllNamed, embed_bitcode_returns, Stored, Stored-Grows, AllLeft, AllLeft-length,
}
use easy_just_in_time.Plugin.Register.Calls.{execute, mapping_of, read_entries, mapping_entries_lem}

-- The expected registrations.
abbrev pub registrations :
    (ℕ → ℕ) → List GlobalMapping → List Global → List (List ℕ) → List Registration
registrations address mapping [] cs = []
registrations address mapping (g ∷ gs) [] = []
registrations address mapping (g ∷ gs) (c ∷ cs) =
    easy_register (address g.value) (record { name = g.name; globals = some mapping; bitcode = c })
    ∷ registrations address mapping gs cs

take_bytes : (c : List ℕ) → take (length (c ++ (0 ∷ [])) - 1) (c ++ (0 ∷ [])) ≡ c
take_bytes c =
    let size : length (c ++ (0 ∷ [])) - 1 ≡ length c = omega (arith, length-append c (0 ∷ [])) in
    rw size (take-append c (0 ∷ []))

register_bitcode_lem :
    (lib : PluginLibrary) (address : ℕ → ℕ) (mapping callee : ℕ) (entries : List ℕ)
    (gs : List Global) (vs : List ℕ) (cs : List (List ℕ)) (m : SourceModule)
    → length gs ≡ length cs
    → Stored m.values vs cs
    → Holds m.values mapping (constant_array entries)
    → Grows m.values (register_bitcode lib gs vs mapping callee m).0.values
      × ((later : List Value)
          → Grows (register_bitcode lib gs vs mapping callee m).0.values later
          → map (execute address later) (register_bitcode lib gs vs mapping callee m).1
            ≡ registrations address (read_entries address later entries) gs cs)
unfolding register_bitcode get_string_global
register_bitcode_lem lib address mapping callee entries [] vs cs m same s h =
    (Grows-refl m.values, λ later g. refl)
register_bitcode_lem lib address mapping callee entries (g ∷ gs) vs [] m same s h =
    absurd (omega arith)
register_bitcode_lem lib address mapping callee entries (g ∷ gs) [] (c ∷ cs) m same s h = elim s [ ]
register_bitcode_lem lib address mapping callee entries (g ∷ gs) (v ∷ vs) (c ∷ cs) m same (holds, s)
      h =
    let (m', name) = get_string_global lib g.name m in
    let (grows, is_name) =
      new_variable-Holds lib (str_append g.name "_name") (string_data g.name) m in
    let (grows', rest) =
      register_bitcode_lem lib address mapping callee entries gs vs cs m' (omega arith)
        (Stored-Grows vs cs grows s) (Holds-Grows grows h) in
    (
      Grows-trans grows grows',
      λ later g'.
          let all = Grows-trans grows (Grows-trans grows' g') in
          rw
            (
              Holds-initial (Holds-Grows (Grows-trans grows' g') is_name),
              Holds-initial (Holds-Grows all h),
              Holds-initial (Holds-Grows all holds),
              Holds-initial holds,
              rest later g',
            )
            (rw (take_bytes c) refl),
    )

declare_register_bitcode-Grows :
    (lib : PluginLibrary) (m : SourceModule)
    → Grows m.values (declare_register_bitcode lib m).0.values
unfolding declare_register_bitcode
declare_register_bitcode-Grows lib m =
    elim (Option-cases (get_function "easy_register" m.globals)) [
      | inl e ↦ rw (e, declare_register_bitcode) (new_constant-IsA (function_value [] []) m).0
      | inr (f, e) ↦ rw (e, declare_register_bitcode) (Grows-refl m.values)
    ]

-- Where the module has no alias, LLVM's passes add none, and the objects are found by their names, the objects
-- are registered. The bitcode embedded for each is the writer's of what `cleanModule` leaves of a copy of the
-- module, with the variables for the objects before it and nothing else added, under the object's name
-- followed by "_bitcode"; and wherever the program is loaded, the calls of the constructor register in order
-- each object's address with its name, its bitcode and the names and addresses of the local variables.
pub register_objects_returns :
    (lib : PluginLibrary) (objs locals : List Global) (m : SourceModule)
    → AddsNoAlias lib.passes.strip_debug_info
    → ((kept : List ℕ) → AddsNoAlias (lib.passes.extract kept))
    → HasNoAlias m.globals
    → AllNamed m objs
    → (n : SourceModule) × (calls : List RegisterCall) × (lefts : List SourceModule)
      × (register_objects lib objs locals m ≡ ok (n, calls))
      × AllLeft lib m objs lefts
      × ((address : ℕ → ℕ)
          → map (execute address n.values) calls
            ≡ registrations address
                (map (mapping_of address) locals)
                objs
                (map lib.write_bitcode lefts))
unfolding register_objects get_global_mapping
register_objects_returns lib objs locals m strips extracts none_there named =
    let (embedded, vs, lefts, ends, grows, stored, all) =
      embed_bitcode_returns lib objs m strips extracts none_there named in
    let (mapped, entries) = mapping_entries lib locals embedded in
    let (mapping_grows, reads) = mapping_entries_lem lib (λ v. v) locals embedded in
    let (with_mapping, mapping) =
      new_variable lib "global_mapping" (constant_array entries) mapped in
    let (mapping_added, holds) =
      new_variable-Holds lib "global_mapping" (constant_array entries) mapped in
    let (declared, callee) = declare_register_bitcode lib with_mapping in
    let is_declared = declare_register_bitcode-Grows lib with_mapping in
    let after = Grows-trans mapping_added is_declared in
    let result = register_bitcode lib objs vs mapping callee declared in
    (
      result.0,
      result.1,
      lefts,
      rw (ends, register_objects) refl,
      all,
      λ address.
          let (registered, executed) =
            register_bitcode_lem lib address mapping callee entries objs vs
              (map lib.write_bitcode lefts) declared (AllLeft-length lib m objs lefts all)
              (Stored-Grows vs (map lib.write_bitcode lefts) (Grows-trans mapping_grows after)
                stored)
              (Holds-Grows is_declared holds) in
          executed result.0.values (Grows-refl result.0.values)
          ∙ ap (λ entries. registrations address entries objs (map lib.write_bitcode lefts))
              ((mapping_entries_lem lib address locals embedded).1 result.0.values
                (Grows-trans after registered)),
    )
