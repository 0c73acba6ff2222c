-- ===== src/Plugin/Register.antt =====
-- pass/Easy.cpp: `runOnModule` of the pass, which embeds the bitcode of the exported objects and the code that
-- registers it.
mod Globals
pub mod Memory
pub mod Calls
pub mod Names
pub mod Whole
pub use Globals.{
  PluginLibrary, names, is_variable, has_local_linkage, collect_local_globals, name_globals,
  private_variable, insert_variable, find_named, get_named_value,
}
unfoldable pub use Globals.{new_constant, new_variable, get_string_global}
use Prim.Native.String.{String, ◌++◌ as str_append}
use text.Mathlib.Text.{◌==◌ as str_eq}
use easy_just_in_time.Prelude.{
  ℕ, zero, suc, ◌+◌, ◌-◌, Bool, true, false, not, ◌&&◌, ◌||◌, Option, none, some, List, [], ◌∷◌,
  ◌++◌, map, length, ◌==◌, Result, ok, err, ◌>>=◌, if◌then◌else◌,
}
use easy_just_in_time.Search.Members.{keep}
use easy_just_in_time.Llvm.{function_symbol, variable_symbol, alias_symbol}
use easy_just_in_time.Plugin.{
  ValueKind, Value, value_at, function_value, global_variable, constant_array, constant_struct,
  null_value, string_data, byte_data, Global, GlobalLinkage, internal_global, private_global,
  external_global, SourceModule, is_function, is_object,
}
use easy_just_in_time.Plugin.Clean.{
  PluginError, no_global_with_that_name, too_few_rounds, CleaningPasses, clean_module,
}
use easy_just_in_time.Plugin.Export.{collect_objects_to_jit}

module _ (lib : PluginLibrary) where
  unfoldable pub write_module_to_global : SourceModule → String → SourceModule → SourceModule × ℕ
  write_module_to_global embed name =
      new_variable lib name (byte_data (lib.write_bitcode embed ++ (0 ∷ [])))

  -- `embedBitcode` of one object, and of all. The copy of the module is the module.
  unfoldable pub embed_object : Global → SourceModule → Result PluginError (SourceModule × ℕ)
  embed_object g m = elim (get_named_value g.name m.globals) [
    | none ↦ err no_global_with_that_name
    | some entry ↦ clean_module lib.passes entry m >>= λ embed. ok (
        write_module_to_global (record embed { identifier = str_append g.name "_bitcode" })
          (str_append entry.name "_bitcode") m)
  ]

  unfoldable pub embed_bitcode :
      List Global → SourceModule → Result PluginError (SourceModule × List ℕ)
  embed_bitcode [] m = ok (m, [])
  embed_bitcode (g ∷ gs) m = embed_object g m >>= λ (m', variable).
      embed_bitcode gs m' >>= λ (m'', variables). ok (m'', variable ∷ variables)

  -- The entries of the mapping, and the null one.
  unfoldable pub mapping_entries : List Global → SourceModule → SourceModule × List ℕ
  mapping_entries [] m = let (m', end) = new_constant null_value m in (m', end ∷ [])
  mapping_entries (g ∷ gs) m =
      let (named, name) = get_string_global lib g.name m in
      let (added, entry) = new_constant (constant_struct (name ∷ g.value ∷ [])) named in
      let (rest, entries) = mapping_entries gs added in (rest, entry ∷ entries)

  unfoldable pub get_global_mapping : List Global → SourceModule → SourceModule × ℕ
  get_global_mapping gs m =
      let (m', entries) = mapping_entries gs m in
      new_variable lib "global_mapping" (constant_array entries) m'

-- `Module::getFunction`
abbrev pub get_function : String → List Global → Option Global
get_function name [] = none
get_function name (g ∷ gs) =
    if is_function g && str_eq g.name name then some g else get_function name gs

-- A call in the constructor: the function, and the five arguments.
pub record RegisterCall : Type 0 where
  pub callee : ℕ
  pub fun : ℕ
  pub name : ℕ
  pub mapping : ℕ
  pub bitcode : ℕ
  pub size : ℕ

-- The value that a variable is initialised with.
abbrev pub initial : List Value → ℕ → ValueKind
initial values v = elim (value_at values v).kind [
  | global_variable (some i) ↦ (value_at values i).kind
  | _ ↦ null_value
]

abbrev pub num_elements : ValueKind → ℕ
num_elements (byte_data elements) = length elements
num_elements _ = 0

module _ (lib : PluginLibrary) where
  -- Functions stand first.
  unfoldable pub declare_register_bitcode : SourceModule → SourceModule × ℕ
  declare_register_bitcode m = elim (get_function "easy_register" m.globals) [
    | some f ↦ (m, f.value)
    | none ↦
        let (m', number) = new_constant (function_value [] []) m in
        let declared : Global = record {
          value = number;
          symbol_kind = function_symbol;
          name = lib.unique_name (names m.globals) "easy_register";
          section = "";
          constant = false;
          declaration = true;
          linkage = external_global;
          default_visibility = true;
          comdat = false;
          no_inline = false;
          optimize_none = false;
        } in
        (record m' { globals = declared ∷ m.globals }, number)
  ]

  unfoldable pub register_bitcode :
      List Global → List ℕ → (mapping callee : ℕ) → SourceModule → SourceModule × List RegisterCall
  register_bitcode (g ∷ gs) (bitcode ∷ bitcodes) mapping callee m =
      let (m', name) = get_string_global lib g.name m in
      let (m'', calls) = register_bitcode gs bitcodes mapping callee m' in
      (
        m'',
        record {
          callee = callee;
          fun = g.value;
          name = name;
          mapping = mapping;
          bitcode = bitcode;
          size = num_elements (initial m.values bitcode) - 1;
        }
            ∷ calls,
      )
  register_bitcode [] bitcodes mapping callee m = (m, [])
  register_bitcode (g ∷ gs) [] mapping callee m = (m, [])

  -- The part of `runOnModule` after the naming: the module, and the calls in its constructor.
  unfoldable pub register_objects :
      List Global
      → List Global
      → SourceModule
      → Result PluginError (SourceModule × List RegisterCall)
  register_objects objs locals m = embed_bitcode lib objs m >>= λ (embedded, bitcodes).
      let (mapped, mapping) = get_global_mapping lib locals embedded in
      let (declared, callee) = declare_register_bitcode mapped in
      ok (register_bitcode objs bitcodes mapping callee declared)

-- The object that a collected pointer stands for, after the naming.
abbrev pub renamed : List Global → Global → Global
renamed [] o = o
renamed (g ∷ gs) o = if g.value == o.value then g else renamed gs o

-- `none` is no change, where no object is exported.
unfoldable pub register_bitcode_pass :
    PluginLibrary
    → (strip : ℕ → ℕ) → (regex : String) → (String → Bool)
    → SourceModule
    → Result PluginError (Option (SourceModule × List RegisterCall))
register_bitcode_pass lib strip regex matches m =
    elim (collect_objects_to_jit strip regex matches m) [
      | none ↦ err too_few_rounds
      | some (collected, []) ↦ ok none
      | some (collected, o ∷ os) ↦
          let gs = name_globals lib.unique_name (names collected.globals) collected.globals in
          register_objects lib (map (renamed gs) (o ∷ os)) (collect_local_globals gs)
            (record collected { globals = gs })
          >>= λ registered. ok (some registered)
    ]
