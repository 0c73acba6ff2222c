-- ===== src/Plugin/Clean.antt =====
-- pass/Easy.cpp: `cleanModule` and `fixLinkages`, which leave the exported object alone in the copy of its
-- module.
pub mod Fixed
use text.Mathlib.Text.{starts_with}
use easy_just_in_time.Prelude.{
  ℕ, ◌≡◌, ◌≢◌, ◌↔◌, ◌⊎◌, inl, inr, refl, sym, ap, ◌∙◌, Bool, true, false, not, ◌&&◌, ◌||◌, Option,
  none, some, List, [], ◌∷◌, ◌++◌, map, ◌==◌, ==_iff, set, Result, ok, err, ◌>>=◌, >>=-eq-ok, arith,
  if◌then◌else◌, Bool-cases,
}
use easy_just_in_time.Llvm.{SymbolKind, function_symbol, variable_symbol, alias_symbol}
use easy_just_in_time.Search.{◌∈◌}
use easy_just_in_time.Plugin.{
  Value, value_at, global_variable, Global, SourceModule, GlobalLinkage, external_global,
  internal_global, private_global, other_global, is_function, is_object,
}
use easy_just_in_time.Search.Members.{in_map}
use easy_just_in_time.Plugin.References.{
  get_referenced_from_entry, get_referenced_from_entry_returns,
}

-- A fatal error or a failed `assert`; `too_few_rounds` is none of the code's.
pub data PluginError : Type 0 where
  aliases_not_implemented no_global_with_that_name too_few_rounds : PluginError

-- LLVM's passes on a module: `StripDebugInfo`, and the four that `cleanModule` runs with the values to keep.
pub record CleaningPasses : Type 0 where
  pub strip_debug_info : SourceModule → SourceModule
  pub extract : List ℕ → SourceModule → SourceModule

abbrev pub is_private : GlobalLinkage → Bool
is_private private_global = true
is_private _ = false

-- The branch for functions; the entry is a value.
abbrev pub fix_function : ℕ → Global → Global
fix_function entry f =
    if f.optimize_none
    then f
    else if f.value == entry
    then record f { no_inline = false }
    else if not f.declaration && (not f.default_visibility || not (is_private f.linkage))
    then record f { no_inline = false; default_visibility = true; linkage = private_global }
    else record f { no_inline = false }

abbrev pub is_llvm_name : Global → Bool
is_llvm_name g = starts_with g.name "llvm."

abbrev pub fix_by_kind : SymbolKind → ℕ → Global → Result PluginError Global
fix_by_kind variable_symbol entry g = ok (record g {
  comdat = false;
  declaration = true;
  default_visibility = true;
  linkage = external_global;
})
fix_by_kind function_symbol entry g = ok (fix_function entry (record g { comdat = false }))
fix_by_kind alias_symbol entry g = err aliases_not_implemented

unfoldable pub fix_linkage : ℕ → Global → Result PluginError Global
fix_linkage entry g = if is_llvm_name g then ok g else fix_by_kind g.symbol_kind entry g

unfoldable pub fix_globals : ℕ → List Global → Result PluginError (List Global)
fix_globals entry [] = ok []
fix_globals entry (g ∷ gs) =
    fix_linkage entry g >>= λ fixed. fix_globals entry gs >>= λ rest. ok (fixed ∷ rest)

abbrev is_fixed_variable : Global → Bool
is_fixed_variable g =
    not (is_llvm_name g) && elim g.symbol_kind [ variable_symbol ↦ true | _ ↦ false ]

-- `setInitializer(nullptr)`
abbrev pub drop_initializers : List Global → List Value → List Value
drop_initializers [] values = values
drop_initializers (g ∷ gs) values =
    let rest = drop_initializers gs values in
    if is_fixed_variable g
    then set rest g.value (record (value_at rest g.value) { kind = global_variable none })
    else rest

unfoldable pub fix_linkages : ℕ → SourceModule → Result PluginError SourceModule
fix_linkages entry m = fix_globals entry m.globals >>= λ gs.
    ok (record m { globals = gs; values = drop_initializers m.globals m.values })

abbrev pub make_external : ℕ → Global → Global
make_external entry g = if g.value == entry then record g { linkage = external_global } else g

module _ (passes : CleaningPasses) where
  -- The entry is referenced from itself too, so that it is passed to the extraction twice when it is a
  -- function.
  unfoldable pub clean_module : Global → SourceModule → Result PluginError SourceModule
  clean_module entry m =
      let stripped = passes.strip_debug_info m in
      elim (get_referenced_from_entry stripped.values entry.value) [
        | none ↦ err too_few_rounds
        | some referenced ↦
            let kept = referenced ++ (entry.value ∷ []) in
            if is_function entry
            then fix_linkages entry.value (
                passes.extract kept
                  (record stripped { globals = map (make_external entry.value) stripped.globals }))
            else ok (passes.extract kept stripped)
      ]
