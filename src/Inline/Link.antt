-- ===== src/Inline/Link.antt =====
-- `LinkPointerIfPossible` of runtime/pass/InlineParametersHelper.cpp: a bound pointer that the program has
-- registered becomes a symbol of the wrapper's module. A module that the linker refuses is taken to
-- leave the destination as it was.
use Prim.Native.String.{String}
use text.Mathlib.Text.{◌==◌ as str_eq}
use mathlib.Core.Bool.{decide}
use easy_just_in_time.Prelude.{
  ℕ, Bool, true, false, List, [], ◌∷◌, Option, none, some, Result, ok, err, ◌>>=◌, if◌then◌else◌,
  ℕ_discrete,
}
use easy_just_in_time.UnorderedMap.{find}
use easy_just_in_time.Tracker.{
  BitcodeTracker, TrackerError, has_global_mapping, get_name_and_global_mapping, get_module,
}
use easy_just_in_time.Llvm.{
  LlvmType, Symbol, function_symbol, variable_symbol, alias_symbol, private_linkage, IrModule,
  Bitcode,
}
use easy_just_in_time.Inline.{Fault, exception, missing_symbol, unsupported_symbol}
use easy_just_in_time.Inline.Constants.{Constant, symbol_ref, symbol_cast}

pub LlvmType-discrete : Discrete LlvmType
LlvmType-discrete = hlevel ℕ_discrete

-- An exception of the tracker passes through.
abbrev pub or_exception : {A : Type 0} → Result TrackerError A → Result Fault A
or_exception (ok a) = ok a
or_exception (err e) = err (exception e)

-- `getNamedValue` and `setLinkage(PrivateLinkage)`
abbrev pub get_named_value : String → IrModule → Option Symbol
get_named_value name m = find str_eq name m.symbols

-- `getFunction`: the name is one of a function.
abbrev pub is_function : Option Symbol → Bool
is_function none = false
is_function (some s) = elim s.symbol_kind [ function_symbol ↦ true | _ ↦ false ]

unfoldable pub set_private : String → List (String × Symbol) → List (String × Symbol)
set_private name [] = []
set_private name ((other, s) ∷ symbols) =
    if str_eq other name
    then (other, record s { linkage = private_linkage }) ∷ symbols
    else (other, s) ∷ set_private name symbols

abbrev pub make_private : String → IrModule → IrModule
make_private name m = record m { symbols = set_private name m.symbols }

module _ {D : Type 0} (bc : Bitcode) (bt : BitcodeTracker) where
  -- What is done with the symbol of the linked module.
  unfoldable pub use_symbol :
      String → LlvmType → IrModule → Option Symbol → Result Fault (IrModule × Option (Constant D))
  use_symbol name ptr_ty m none = err missing_symbol
  use_symbol name ptr_ty m (some s) = elim s.symbol_kind [
    | variable_symbol ↦ ok (
      make_private name m,
      some (
          if decide (LlvmType-discrete s.ty ptr_ty)
          then symbol_ref name
          else symbol_cast name ptr_ty),
    )
    | function_symbol ↦ ok (make_private name m, some (symbol_ref name))
    | alias_symbol ↦ err unsupported_symbol
  ]

  unfoldable pub link_pointer_if_possible :
      ℕ → LlvmType → IrModule → Result Fault (IrModule × Option (Constant D))
  unfolding use_symbol
  link_pointer_if_possible ptr ptr_ty m =
      if has_global_mapping ptr bt
      then (do
        (name, globals) ← or_exception (get_name_and_global_mapping ptr bt)
        lm ← or_exception (get_module bc.parse_bitcode_file ptr bt)
        elim (bc.link_modules m lm) [
          | none ↦ ok (m, none)
          | some linked ↦ use_symbol name ptr_ty linked (get_named_value name linked)
        ])
      else ok (m, none)
