-- ===== src/Tests/Linked.antt =====
-- A function whose code calls a registered function, which is linked.
use Prim.Native.String.{String}
use text.Mathlib.Text.{◌==◌ as str_eq}
use text.Mathlib.TextEquality.{eq_iff}
use easy_just_in_time.Prelude.{
  ℕ, ◌≡◌, refl, sym, ap, ◌∙◌, inl, inr, true, List, [], ◌∷◌, ◌++◌, some, none, ok, Bool-cases,
  arith,
}
use easy_just_in_time.Search.{◌∈◌}
use easy_just_in_time.UnorderedMap.{find, is_some}
use easy_just_in_time.Tracker.{
  FunctionInfo, Registration, easy_register, new_tracker, register_all, get_address,
}
use easy_just_in_time.Tracker.Registered.{first_info}
use easy_just_in_time.Llvm.{IrModule, Bitcode, Symbol}
use easy_just_in_time.EmitCodes.{direct_call}
use easy_just_in_time.Function.{Passes, called_names, resolve_module}
use easy_just_in_time.Function.Linked.{
  Has, Extends, AllRead, SameNames, Links, resolve_module_returns,
}
use easy_just_in_time.Tests.Compiled.{sample_passes, plain_module}

-- A linker that puts the symbols of one module behind the other's.
abbrev joined : IrModule → IrModule → IrModule
joined m lm = record m { symbols = m.symbols ++ lm.symbols }

abbrev joining_bitcode : Bitcode
joining_bitcode = record {
  parse_bitcode_file = λ bytes. some plain_module;
  write_bitcode = λ m. [];
  link_modules = λ m lm. some (joined m lm);
}

find-append :
    (name : String) (a b : List (String × Symbol))
    → (is_some (find str_eq name a) ≡ true → is_some (find str_eq name (a ++ b)) ≡ true)
      × (is_some (find str_eq name b) ≡ true → is_some (find str_eq name (a ++ b)) ≡ true)
unfolding find
find-append name [] b = ((λ h. absurd (cc h)), λ h. h)
find-append name ((other, s) ∷ a) b =
    ((λ h. ground (arith, find-append name a b, h)), λ h. ground (arith, find-append name a b, h))

joining_bitcode-Links : Links joining_bitcode
joining_bitcode-Links m lm = (
  joined m lm,
  refl,
  (λ name. (find-append name m.symbols lm.symbols).0),
  λ name. (find-append name m.symbols lm.symbols).1,
)

abbrev called_info : FunctionInfo
called_info = record { name = "f"; globals = none; bitcode = 1 ∷ [] }

abbrev called_registrations : List Registration
called_registrations = easy_register 16 called_info ∷ []

only_info :
    (a : ℕ) (info : FunctionInfo)
    → first_info a called_registrations ≡ some info
    → called_info ≡ info
only_info a info h = ground (arith, h)

called-AllRead : AllRead joining_bitcode called_registrations
unfolding find
called-AllRead a info h =
    (plain_module, refl, rw (sym (ap (λ x. x.name) (only_info a info h))) refl)

called-SameNames : SameNames called_registrations
called-SameNames name a info h h' = elim (Bool-cases (str_eq "f" name)) [
  | inl e ↦ ap (λ x. x.name) (sym (only_info a info h')) ∙ (eq_iff "f" name).0 e
  | inr e ↦ absurd (cc (rw e at h))
]

abbrev calling_passes : Passes ℕ
calling_passes = record sample_passes { body = λ name m. some (direct_call "f" ∷ []) }

abbrev empty_module : IrModule
empty_module = record { symbols = []; nodes = none }

resolve_module_returns_example :
    (m' : IrModule) × (resolve_module calling_passes joining_bitcode
        (register_all new_tracker called_registrations)
        "g"
        empty_module
      ≡ ok m')
    × Extends empty_module m'
    × ((called : String)
        → called ∈ called_names (direct_call "f" ∷ [])
        → is_some (get_address called (register_all new_tracker called_registrations)) ≡ true
        → Has called m')
resolve_module_returns_example =
    resolve_module_returns joining_bitcode called_registrations called-AllRead called-SameNames
      joining_bitcode-Links calling_passes "g" (direct_call "f" ∷ []) empty_module refl
