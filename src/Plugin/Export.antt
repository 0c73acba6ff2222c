-- ===== src/Plugin/Export.antt =====
-- pass/Easy.cpp: which objects of a module are exported, `collectObjectsToJIT` and what it calls.
-- `strip` stands for `Value::stripPointerCastsNoFollowAliases` and `matches` for `Regex::match` with the
-- expression of the option "easy-export".
pub mod Marks
pub mod Marked
pub mod Collected
pub mod Kept
use Prim.Native.String.{String}
use text.Mathlib.Text.{◌==◌ as str_eq}
use easy_just_in_time.Prelude.{
  ℕ, Bool, true, false, not, ◌&&◌, ◌||◌, Option, none, some, List, [], ◌∷◌, map, if◌then◌else◌,
}
use easy_just_in_time.Plugin.{
  ValueKind, call_inst, Value, value_at, Global, SourceModule, ci_section, jit_section, is_function,
  is_object,
}
use easy_just_in_time.Plugin.Tracer.{trace, count}

-- A loop that changes the module.
unfoldable pub each : {A S : Type 0} → (A → S → Option S) → List A → S → Option S
each f [] s = some s
each f (a ∷ items) s = elim (f a s) [ none ↦ none | some t ↦ each f items t ]

abbrev pub set_section : String → Global → Global
set_section section g = record g { section = section }

-- `canExtractBitcode`
abbrev pub can_extract_bitcode : Global → Bool
can_extract_bitcode g = not g.declaration

abbrev pub compiler_interface : List Global → List Global
compiler_interface [] = []
compiler_interface (g ∷ gs) =
    let rest = compiler_interface gs in
    if is_function g && str_eq g.section ci_section then g ∷ rest else rest

abbrev pub is_constant : Global → Bool
is_constant g = is_function g || g.constant

-- `CallSite::args`, of nothing where the user is no call.
abbrev pub call_args : ValueKind → List ℕ
call_args (call_inst is_memcpy callee args) = args
call_args _ = []

-- Marks the objects that may be read at run time and are counted.
abbrev pub mark_if : (ℕ → Bool) → Global → Global
mark_if counted g =
    if is_object g && (is_constant g && counted g.value) then set_section jit_section g else g

module _ (strip : ℕ → ℕ) (values : List Value) where
  abbrev pub deduce_from_argument : ℕ → List Global → Option (List Global)
  deduce_from_argument o gs = elim (trace values (strip o)) [
    | none ↦ none
    | some os ↦ some (map (mark_if (count os)) gs)
  ]

  abbrev pub deduce_from_user : ℕ → List Global → Option (List Global)
  deduce_from_user u = each deduce_from_argument (call_args (value_at values u).kind)

  abbrev pub deduce_from_function : Global → List Global → Option (List Global)
  deduce_from_function f = each deduce_from_user (value_at values f.value).users

  unfoldable pub deduce_objects_to_jit : List Global → Option (List Global)
  deduce_objects_to_jit gs = each deduce_from_function (compiler_interface gs) gs

abbrev pub regex_mark : (String → Bool) → Global → Global
regex_mark matches g = if is_object g && matches g.name then set_section jit_section g else g

unfoldable pub regex_functions_to_jit :
    (regex : String) → (String → Bool) → List Global → List Global
regex_functions_to_jit regex matches gs =
    if str_eq regex "" then gs else map (regex_mark matches) gs

-- The loop at the end: the globals, and the collected objects.
unfoldable pub collect_marked : List Global → List Global × List Global
collect_marked [] = ([], [])
collect_marked (g ∷ gs) =
    let (rest, objs) = collect_marked gs in
    if is_object g && str_eq g.section jit_section
    then if can_extract_bitcode g
      then (set_section "" g ∷ rest, set_section "" g ∷ objs)
      else (set_section "" g ∷ rest, objs)
    else (g ∷ rest, objs)

unfoldable pub collect_objects_to_jit :
    (ℕ → ℕ)
    → (regex : String) → (String → Bool)
    → SourceModule
    → Option (SourceModule × List Global)
collect_objects_to_jit strip regex matches m =
    elim (deduce_objects_to_jit strip m.values m.globals) [
      | none ↦ none
      | some gs ↦
          let (globals, objs) = collect_marked (regex_functions_to_jit regex matches gs) in
          some (record m { globals = globals }, objs)
    ]
