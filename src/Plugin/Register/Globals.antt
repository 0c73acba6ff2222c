-- ===== src/Plugin/Register/Globals.antt =====
-- pass/Easy.cpp: the globals that the pass names and adds. A constant that it makes has no users in the table,
-- which nothing reads after it.
use Prim.Native.String.{String, ◌++◌ as str_append}
use text.Mathlib.Text.{◌==◌ as str_eq}
use easy_just_in_time.Prelude.{
  ℕ, Bool, true, false, ◌&&◌, Option, none, some, List, [], ◌∷◌, ◌++◌, map, length, if◌then◌else◌,
}
use easy_just_in_time.Search.Members.{keep}
use easy_just_in_time.Llvm.{variable_symbol}
use easy_just_in_time.Plugin.{
  ValueKind, global_variable, string_data, Global, GlobalLinkage, internal_global, private_global,
  SourceModule, is_object,
}
use easy_just_in_time.Plugin.Clean.{CleaningPasses}

-- LLVM: the name that a new global value gets in place of one that others have, the cleaning passes, and the
-- bitcode writer.
pub record PluginLibrary : Type 0 where
  pub unique_name : List String → String → String
  pub passes : CleaningPasses
  pub write_bitcode : SourceModule → List ℕ

abbrev pub names : List Global → List String
names = map (λ g. g.name)

abbrev pub is_variable : Global → Bool
is_variable g = elim g.symbol_kind [ variable_symbol ↦ true | _ ↦ false ]

abbrev pub has_local_linkage : GlobalLinkage → Bool
has_local_linkage internal_global = true
has_local_linkage private_global = true
has_local_linkage _ = false

abbrev pub collect_local_globals : List Global → List Global
collect_local_globals = keep (λ g. is_variable g && has_local_linkage g.linkage)

-- `nameGlobals` of the local variables, in the module; `used` are the names that are taken.
abbrev pub name_globals :
    (List String → String → String) → (used : List String) → List Global → List Global
name_globals unique used [] = []
name_globals unique used (g ∷ gs) =
    if (is_variable g && has_local_linkage g.linkage) && str_eq g.name ""
    then (let name = unique used "unnamed_local_global" in
        record g { name = name } ∷ name_globals unique (name ∷ used) gs)
    else g ∷ name_globals unique used gs

-- A constant, and its number.
unfoldable pub new_constant : ValueKind → SourceModule → SourceModule × ℕ
new_constant kind m =
    (record m { values = m.values ++ (record { kind = kind; users = [] } ∷ []) }, length m.values)

abbrev pub private_variable : ℕ → String → Global
private_variable number name = record {
  value = number;
  symbol_kind = variable_symbol;
  name = name;
  section = "";
  constant = true;
  declaration = false;
  linkage = private_global;
  default_visibility = true;
  comdat = false;
  no_inline = false;
  optimize_none = false;
}

-- Variables stand before the aliases.
abbrev pub insert_variable : Global → List Global → List Global
insert_variable v [] = v ∷ []
insert_variable v (g ∷ gs) =
    let rest = insert_variable v gs in if is_object g then g ∷ rest else v ∷ g ∷ gs

-- The globals that have a name, in the module's table of symbols.
abbrev pub find_named : String → List Global → Option Global
find_named name [] = none
find_named name (g ∷ gs) = if str_eq g.name name then some g else find_named name gs

-- `Module::getNamedValue`: no global is found by an empty name.
abbrev pub get_named_value : String → List Global → Option Global
get_named_value name gs = if str_eq name "" then none else find_named name gs

module _ (lib : PluginLibrary) where
  -- `new GlobalVariable`, private and constant.
  unfoldable pub new_variable : String → ValueKind → SourceModule → SourceModule × ℕ
  new_variable name init m =
      let (with_init, number) = new_constant init m in
      let (with_variable, variable) = new_constant (global_variable (some number)) with_init in
      (
        record with_variable {
          globals =
              insert_variable (private_variable variable (lib.unique_name (names m.globals) name))
                m.globals;
        },
        variable,
      )

  unfoldable pub get_string_global : String → SourceModule → SourceModule × ℕ
  get_string_global name = new_variable (str_append name "_name") (string_data name)
