-- ===== src/Plugin/Register/Calls/Callee.antt =====
-- Which function the constructor calls.
use Prim.Native.String.{String}
use text.Mathlib.Text.{◌==◌ as str_eq}
use easy_just_in_time.Prelude.{◌≡◌, ◌⊎◌, true, List}
use easy_just_in_time.Plugin.{Global, is_function}
use easy_just_in_time.Plugin.Register.{PluginLibrary}

-- The function that `declareRegisterBitcode` looks up, or declares under a name that LLVM makes of it.
abbrev pub IsRegister : PluginLibrary → Global → Type 0
IsRegister lib f =
    (is_function f ≡ true)
    × ((f.name ≡ "easy_register")
        ⊎ ((used : List String) × (f.name ≡ lib.unique_name used "easy_register")))
