-- ===== src/Plugin/Register/Calls.antt =====
-- What the calls in the constructor register once the compiled program runs: a call reads the constants that
-- the pass added, where `address` is where the program is loaded.
pub mod Callee
pub mod Embedded
pub mod Executed
pub mod Loaded
use Prim.Native.String.{String, ◌++◌ as str_append}
use easy_just_in_time.Prelude.{
  ℕ, zero, suc, ◌≡◌, refl, sym, ap, ◌∙◌, Option, none, some, List, [], ◌∷◌, ◌++◌, map, length,
  Result, ok, err, ◌>>=◌, take,
}
use easy_just_in_time.Tracker.{GlobalMapping, FunctionInfo, Registration, easy_register}
use easy_just_in_time.Plugin.{
  ValueKind, Value, value_at, constant_array, constant_struct, null_value, string_data, byte_data,
  Global, SourceModule,
}
use easy_just_in_time.Plugin.Clean.{clean_module}
use easy_just_in_time.Plugin.Register.{
  PluginLibrary, RegisterCall, initial, get_named_value, get_string_global, new_constant,
  mapping_entries, new_variable,
}
use easy_just_in_time.Plugin.Register.Memory.{
  IsA, Holds, Grows, Grows-refl, Grows-trans, IsA-Grows, Holds-Grows, IsA-kind, Holds-initial,
  new_constant-IsA, new_variable-Holds,
}

abbrev text : ValueKind → String
text (string_data s) = s
text _ = ""

abbrev elements : ValueKind → List ℕ
elements (byte_data bytes) = bytes
elements _ = []

module _ (address : ℕ → ℕ) (values : List Value) where
  -- Up to the entry with a null name.
  abbrev pub read_entries : List ℕ → List GlobalMapping
  read_entries [] = []
  read_entries (e ∷ es) =
      let rest = read_entries es in
      elim (value_at values e).kind [
        | constant_struct (name ∷ global ∷ []) ↦
            record { name = text (initial values name); address = address global } ∷ rest
        | _ ↦ []
      ]

  abbrev read_mapping : ValueKind → List GlobalMapping
  read_mapping (constant_array entries) = read_entries entries
  read_mapping _ = []

  abbrev pub execute : RegisterCall → Registration
  execute call = easy_register (address call.fun) (record {
    name = text (initial values call.name);
    globals = some (read_mapping (initial values call.mapping));
    bitcode = take call.size (elements (initial values call.bitcode));
  })

abbrev pub mapping_of : (ℕ → ℕ) → Global → GlobalMapping
mapping_of address g = record { name = g.name; address = address g.value }

-- The entries are read as the names and the addresses of the variables.
pub mapping_entries_lem :
    (lib : PluginLibrary) (address : ℕ → ℕ) (gs : List Global) (m : SourceModule)
    → Grows m.values (mapping_entries lib gs m).0.values
      × ((later : List Value)
          → Grows (mapping_entries lib gs m).0.values later
          → read_entries address later (mapping_entries lib gs m).1 ≡ map (mapping_of address) gs)
unfolding mapping_entries get_string_global
mapping_entries_lem lib address [] m =
    let (grows, is_null) = new_constant-IsA null_value m in
    (grows, λ later g. rw (IsA-kind (IsA-Grows g is_null), read_entries) refl)
mapping_entries_lem lib address (g ∷ gs) m =
    let (named, name) = get_string_global lib g.name m in
    let (grows, holds) =
      new_variable-Holds lib (str_append g.name "_name") (string_data g.name) m in
    let (grows', entry) = new_constant-IsA (constant_struct (name ∷ g.value ∷ [])) named in
    let added = (new_constant (constant_struct (name ∷ g.value ∷ [])) named).0 in
    let (grows'', rest) = mapping_entries_lem lib address gs added in
    (
      Grows-trans grows (Grows-trans grows' grows''),
      λ later g'.
          let all = Grows-trans grows'' g' in
          rw
            (
              IsA-kind (IsA-Grows all entry),
              Holds-initial (Holds-Grows (Grows-trans grows' all) holds),
              rest later g',
              read_entries,
            )
            refl,
    )
