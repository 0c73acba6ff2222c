-- ===== src/Plugin/Clean/Fixed.antt =====
-- What `cleanModule` leaves of a module.
use easy_just_in_time.Prelude.{
  ℕ, ◌≡◌, ◌≢◌, inl, inr, refl, sym, ap, ◌∙◌, true, false, List, [], ◌∷◌, ◌++◌, map, ◌==◌, ==_iff,
  ok, arith, Bool-cases,
}
use easy_just_in_time.Llvm.{SymbolKind, function_symbol, variable_symbol, alias_symbol}
use easy_just_in_time.Search.{◌∈◌}
use easy_just_in_time.Plugin.{
  Global, SourceModule, external_global, private_global, is_function, is_object,
}
use easy_just_in_time.Search.Members.{in_map}
use easy_just_in_time.Plugin.References.{get_referenced_from_entry_returns}
use easy_just_in_time.Plugin.Clean.{
  CleaningPasses, fix_function, is_llvm_name, fix_by_kind, fix_linkage, fix_globals,
  drop_initializers, fix_linkages, make_external, clean_module,
}

-- What is left of a global that is none of LLVM's: variables are declared only, and of the functions that
-- may be optimised, one but the entry is private if it is defined, and none is kept from inlining.
pub record IsFixed (entry : ℕ) (g : Global) : Type 0 where
  pub object : is_object g ≡ true
  pub comdat : g.comdat ≡ false
  pub variable : is_function g ≡ false → (g.declaration ≡ true) × (g.linkage ≡ external_global)
  pub inlined : is_function g ≡ true → g.optimize_none ≡ false → g.no_inline ≡ false
  pub hidden :
      is_function g ≡ true
      → g.optimize_none ≡ false
      → g.declaration ≡ false
      → g.value ≢ entry
      → (g.linkage ≡ private_global)

fix_function-IsFixed :
    (entry : ℕ) (g : Global)
    → g.symbol_kind ≡ function_symbol
    → IsFixed entry (fix_function entry (record g { comdat = false }))
fix_function-IsFixed entry g kind = record {
  object = ground (arith, kind);
  comdat = ground arith;
  variable = ground (arith, kind);
  inlined = ground (arith, kind);
  hidden = ground (arith, kind, ==_iff g.value entry);
}

fix_by_kind-IsFixed :
    (kind : SymbolKind) (entry : ℕ) (g h : Global)
    → g.symbol_kind ≡ kind
    → fix_by_kind kind entry g ≡ ok h
    → IsFixed entry h
fix_by_kind-IsFixed variable_symbol entry g h kind eq =
    let same : record g {
      comdat = false;
      declaration = true;
      default_visibility = true;
      linkage = external_global;
    }
        ≡ h =
      cc eq in
    rw (sym same) (record {
      object = rw kind refl;
      comdat = refl;
      variable = λ f. (refl, refl);
      inlined = λ f. absurd (cc (rw kind at f));
      hidden = λ f. absurd (cc (rw kind at f));
    })
fix_by_kind-IsFixed function_symbol entry g h kind eq =
    let same : fix_function entry (record g { comdat = false }) ≡ h = cc eq in
    rw (sym same) (fix_function-IsFixed entry g kind)
fix_by_kind-IsFixed alias_symbol entry g h kind eq = cc (eq)

-- Without aliases, all linkages are fixed.
abbrev pub HasNoAlias : List Global → Type 0
HasNoAlias gs = (g : Global) → g ∈ gs → is_object g ≡ true

fix_linkage-IsFixed :
    (entry : ℕ) (g : Global)
    → is_object g ≡ true
    → (h : Global) × (fix_linkage entry g ≡ ok h) × (is_llvm_name h ≡ false → IsFixed entry h)
unfolding fix_linkage
fix_linkage-IsFixed entry g object = elim (Bool-cases (is_llvm_name g)) [
  | inl llvm ↦ (g, rw (llvm, fix_linkage) refl, λ other. absurd (cc (llvm, other)))
  | inr other ↦ by_kind g.symbol_kind refl (rw (other, fix_linkage) refl)
]
  where
    by_kind :
        (kind : SymbolKind)
        → g.symbol_kind ≡ kind
        → fix_linkage entry g ≡ fix_by_kind g.symbol_kind entry g
        → (h : Global) × (fix_linkage entry g ≡ ok h) × (is_llvm_name h ≡ false → IsFixed entry h)
    by_kind variable_symbol e same =
        let fixed = record g {
          comdat = false;
          declaration = true;
          default_visibility = true;
          linkage = external_global;
        } in
        (
          fixed,
          same ∙ ap (λ k. fix_by_kind k entry g) e,
          λ name. fix_by_kind-IsFixed variable_symbol entry g fixed e refl,
        )
    by_kind function_symbol e same =
        let fixed = fix_function entry (record g { comdat = false }) in
        (
          fixed,
          same ∙ ap (λ k. fix_by_kind k entry g) e,
          λ name. fix_by_kind-IsFixed function_symbol entry g fixed e refl,
        )
    by_kind alias_symbol e same = absurd (cc (rw e at object))

fix_globals-IsFixed :
    (entry : ℕ) (gs : List Global)
    → HasNoAlias gs
    → (hs : List Global) × (fix_globals entry gs ≡ ok hs)
      × ((h : Global) → h ∈ hs → is_llvm_name h ≡ false → IsFixed entry h)
unfolding fix_globals
fix_globals-IsFixed entry [] none_there = ([], refl, λ h m. elim m [ ])
fix_globals-IsFixed entry (g ∷ gs) none_there =
    let (h, first, fixed) = fix_linkage-IsFixed entry g (none_there g (inl refl)) in
    let (hs, rest, all) = fix_globals-IsFixed entry gs (λ x m. none_there x (inr m)) in
    (
      h ∷ hs,
      rw (first, rest, fix_globals) refl,
      λ x m name. elim m [ inl e ↦ rw (sym e) (fixed (rw (sym e) at name)) | inr i ↦ all x i name ],
    )

-- A pass that adds no alias.
abbrev pub AddsNoAlias : (SourceModule → SourceModule) → Type 0
AddsNoAlias pass = (m : SourceModule) → HasNoAlias m.globals → HasNoAlias (pass m).globals

make_external-object : (entry : ℕ) (g : Global) → is_object (make_external entry g) ≡ is_object g
make_external-object entry g = elim (Bool-cases (g.value == entry)) [
  | inl e ↦ simp e
  | inr e ↦ simp e
]

-- For an exported function of a module without aliases, where LLVM's passes add none, `cleanModule` returns.
-- In the module that is left, of the globals whose name does not begin with "llvm.", all are out of their
-- comdat, the variables are external declarations, no function is kept from inlining unless it must not be
-- optimised, and of the functions that may be optimised and are defined only the exported one is not private.
pub clean_module_returns :
    (passes : CleaningPasses) (entry : Global) (m : SourceModule)
    → AddsNoAlias passes.strip_debug_info
    → ((kept : List ℕ) → AddsNoAlias (passes.extract kept))
    → HasNoAlias m.globals
    → is_function entry ≡ true
    → (c : SourceModule) × (clean_module passes entry m ≡ ok c)
      × ((g : Global) → g ∈ c.globals → is_llvm_name g ≡ false → IsFixed entry.value g)
unfolding clean_module fix_linkages
clean_module_returns passes entry m strips extracts none_there function =
    let stripped = passes.strip_debug_info m in
    let (referenced, found, more, once) =
      get_referenced_from_entry_returns stripped.values entry.value in
    let external = record stripped { globals = map (make_external entry.value) stripped.globals } in
    let left = passes.extract (referenced ++ (entry.value ∷ [])) external in
    let (gs, fixed, all) = fix_globals-IsFixed entry.value left.globals (
      extracts (referenced ++ (entry.value ∷ [])) external (λ g i.
        let (h, j, e) = (in_map (make_external entry.value) stripped.globals g).0 i in
        rw (sym e) (make_external-object entry.value h ∙ strips m none_there h j))) in
    (
      record left { globals = gs; values = drop_initializers left.globals left.values },
      rw (found, clean_module) (rw function (rw (fixed, fix_linkages) refl)),
      all,
    )

-- `cleanModule` returns for an exported variable too.
pub clean_module_ok :
    (passes : CleaningPasses) (entry : Global) (m : SourceModule)
    → AddsNoAlias passes.strip_debug_info
    → ((kept : List ℕ) → AddsNoAlias (passes.extract kept))
    → HasNoAlias m.globals
    → (c : SourceModule) × (clean_module passes entry m ≡ ok c)
unfolding clean_module
clean_module_ok passes entry m strips extracts none_there = elim (Bool-cases (is_function entry)) [
  | inl function ↦
      let (c, cleans, fixed) =
        clean_module_returns passes entry m strips extracts none_there function in
      (c, cleans)
  | inr variable ↦
      let stripped = passes.strip_debug_info m in
      let (referenced, found, more, once) =
        get_referenced_from_entry_returns stripped.values entry.value in
      (
        passes.extract (referenced ++ (entry.value ∷ [])) stripped,
        rw (found, clean_module) (rw variable refl),
      )
]
