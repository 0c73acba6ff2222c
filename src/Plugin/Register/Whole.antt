-- ===== src/Plugin/Register/Whole.antt =====
-- `runOnModule` as a whole: the collection, the naming, and the registration.
use Prim.Native.String.{String}
use text.Mathlib.Text.{◌==◌ as str_eq}
use easy_just_in_time.Prelude.{ℕ, ◌≡◌, Bool, true, false, List, ◌==◌}
use easy_just_in_time.Search.{◌∈◌}
use easy_just_in_time.Plugin.{Global, SourceModule, is_object}
use easy_just_in_time.Plugin.Export.Marked.{Exported}
use easy_just_in_time.Plugin.Register.Names.{unnamed_local}

-- A global that has no name is a local variable, as LLVM names no other.
abbrev pub OnlyLocalsUnnamed : List Global → Type 0
OnlyLocalsUnnamed gs = (g : Global) → g ∈ gs → g.name ≡ "" → unnamed_local g ≡ true

-- An object of the module is exported, and is defined.
abbrev pub IsExported : (ℕ → ℕ) → String → (String → Bool) → SourceModule → Global → Type 0
IsExported strip regex matches m g =
    (g ∈ m.globals)
    × ((is_object g ≡ true) × (g.declaration ≡ false) × Exported strip regex matches m g)
