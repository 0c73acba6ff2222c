-- ===== src/Function/Linked.antt =====
-- Function.cpp, where the code of a function calls registered functions: `ResolveModule` and
-- `LinkPointerIfPossible` of a name.
use Prim.Native.String.{String}
use easy_just_in_time.Prelude.{
  ℕ, ◌≡◌, refl, sym, ap, ◌∙◌, inl, inr, true, List, [], ◌∷◌, some, ok, Option-cases, arith,
}
use mathlib.Core.Path.{subst}
use text.Mathlib.Text.{◌==◌ as str_eq}
use easy_just_in_time.Search.{◌∈◌}
use easy_just_in_time.UnorderedMap.{find, is_some}
use easy_just_in_time.Tracker.{
  BitcodeTracker, FunctionInfo, Registration, new_tracker, register_all, get_address, get_module,
}
use easy_just_in_time.Tracker.Registered.{
  first_info, first_address, register_all-first, find-register_all, get_address-registered,
}
use easy_just_in_time.Llvm.{
  IrModule, Bitcode, Symbol, SymbolKind, alias_symbol, variable_symbol, function_symbol,
}
use easy_just_in_time.EmitCodes.{Instruction}
use easy_just_in_time.Inline.Link.{get_named_value, make_private, set_private}
use easy_just_in_time.Function.{
  Passes, privatize, called_names, link_called, link_all, resolve_module,
}

abbrev pub Has : String → IrModule → Type 0
Has name m = is_some (get_named_value name m) ≡ true

abbrev pub Extends : IrModule → IrModule → Type 0
Extends m m' = (name : String) → Has name m → Has name m'

-- The bitcode of every registered address is read as a module that has the registered name.
abbrev pub AllRead : Bitcode → List Registration → Type 0
AllRead bc rs =
    (a : ℕ) (info : FunctionInfo)
    → first_info a rs ≡ some info
    → (lm : IrModule) × (bc.parse_bitcode_file info.bitcode ≡ some lm) × Has info.name lm

-- A name stands for an address that is registered under this name first.
abbrev pub SameNames : List Registration → Type 0
SameNames rs =
    (name : String) (a : ℕ) (info : FunctionInfo)
    → first_address name rs ≡ some a
    → first_info a rs ≡ some info
    → info.name ≡ name

-- The linker accepts any two modules, and what it makes of them has the names of both.
abbrev pub Links : Bitcode → Type 0
Links bc =
    (m lm : IrModule)
    → (linked : IrModule) × (bc.link_modules m lm ≡ some linked)
      × Extends m linked
      × Extends lm linked

set_private-is_some :
    (name other : String) (symbols : List (String × Symbol))
    → is_some (find str_eq other (set_private name symbols)) ≡ is_some (find str_eq other symbols)
unfolding set_private find
set_private-is_some name other [] = refl
set_private-is_some name other ((first, s) ∷ symbols) =
    ground (arith, set_private-is_some name other symbols)

make_private-Extends : (name : String) (m : IrModule) → Extends m (make_private name m)
make_private-Extends name m other has = set_private-is_some name other m.symbols ∙ has

privatize_total :
    (bc : Bitcode) (bt : BitcodeTracker) (name : String) (m : IrModule)
    → Has name m
    → (m' : IrModule) × (privatize bc bt name m ≡ ok m') × Extends m m'
unfolding privatize
privatize_total bc bt name m there = elim (Option-cases (get_named_value name m)) [
  | inl e ↦ absurd (cc (there, ap is_some e))
  | inr (s, e) ↦ (
    elim s.symbol_kind [
      | alias_symbol ↦ m
      | variable_symbol ↦ make_private name m
      | function_symbol ↦ make_private name m
    ],
    rw (e, privatize) refl,
    extends s.symbol_kind,
  )
]
  where
    extends :
        (kind : SymbolKind)
        → Extends m (elim kind [
          | alias_symbol ↦ m
          | variable_symbol ↦ make_private name m
          | function_symbol ↦ make_private name m
        ])
    extends alias_symbol = λ other has. has
    extends variable_symbol = make_private-Extends name m
    extends function_symbol = make_private-Extends name m

module _ (bc : Bitcode) (rs : List Registration) (reads : AllRead bc rs) (same : SameNames rs)
    (links : Links bc) where
  get_module-registered :
      (a : ℕ) (info : FunctionInfo) (lm : IrModule)
      → first_info a rs ≡ some info
      → bc.parse_bitcode_file info.bitcode ≡ some lm
      → get_module bc.parse_bitcode_file a (register_all new_tracker rs) ≡ ok lm
  unfolding get_module find
  get_module-registered a info lm first read =
      rw (get_module, find-register_all a new_tracker rs, first, read) refl

  -- The names of the module stay, and the name is there if it is registered.
  link_called_total :
      (name : String) (m : IrModule)
      → (m' : IrModule) × (link_called bc (register_all new_tracker rs) name m ≡ ok m')
        × Extends m m'
        × (is_some (get_address name (register_all new_tracker rs)) ≡ true → Has name m')
  unfolding link_called
  link_called_total name m = elim (Option-cases (get_address name (register_all new_tracker rs))) [
    | inl e ↦ (m, rw (e, link_called) refl, (λ other has. has), λ h. absurd (cc (h, ap is_some e)))
    | inr (a, e) ↦
        let (info, first, known) = get_address-registered rs name e in
        let (lm, read, there) = reads a info first in
        let named : info.name ≡ name =
          same name a info (sym (register_all-first rs a name 0).2 ∙ e) first in
        let found = get_module-registered a info lm first read in
        let (linked, is_linked, keeps, adds) = links m lm in
        let has : Has name linked = adds name (rw named at there) in
        let (m', ends, extends) =
          privatize_total bc (register_all new_tracker rs) name linked has in
        (
          m',
          rw (e, link_called, found, is_linked) ends,
          (λ other h. extends other (keeps other h)),
          λ h. extends name has,
        )
  ]

  link_all_total :
      (names : List String) (m : IrModule)
      → (m' : IrModule) × (link_all bc (register_all new_tracker rs) names m ≡ ok m')
        × Extends m m'
        × ((name : String)
            → name ∈ names
            → is_some (get_address name (register_all new_tracker rs)) ≡ true
            → Has name m')
  unfolding link_all
  link_all_total [] m = (m, refl, (λ name has. has), λ name i. elim i [ ])
  link_all_total (called ∷ names) m =
      let (linked, first, keeps, has) = link_called_total called m in
      let (m', rest, keeps', all) = link_all_total names linked in
      (
        m',
        rw first rest,
        (λ name h. keeps' name (keeps name h)),
        λ name i registered. elim i [
          | inl e ↦
              subst (λ x. is_some (get_address x (register_all new_tracker rs)) ≡ true → Has x m') e
                (λ h. keeps' called (has h)) registered
          | inr j ↦ all name j registered
        ],
      )

  -- Let the bitcode of every registered address be read as a module that has the registered name, let no
  -- address be registered under two names, and let the linker accept any two modules and keep the names of
  -- both. Then the modules of the functions that a function's code calls by name are linked without a
  -- fault: `ResolveModule` returns, with a module that has all names the module had, and the name of every
  -- registered function that the code calls.
  pub resolve_module_returns :
      {D : Type 0} (passes : Passes D) (name : String) (code : List Instruction) (m : IrModule)
      → passes.body name m ≡ some code
      → (m' : IrModule) × (resolve_module passes bc (register_all new_tracker rs) name m ≡ ok m')
        × Extends m m'
        × ((called : String)
            → called ∈ called_names code
            → is_some (get_address called (register_all new_tracker rs)) ≡ true
            → Has called m')
  unfolding resolve_module
  resolve_module_returns passes name code m body =
      let (m', ends, extends, all) = link_all_total (called_names code) m in
      (m', rw (body, resolve_module) ends, extends, all)
