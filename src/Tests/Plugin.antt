-- ===== src/Tests/Plugin.antt =====
-- The theorems on the compiler plugin at concrete inputs: a module in which the address of a function is stored
-- to a variable that is passed to the interface.
use easy_just_in_time.Prelude.{
  if◌then◌else◌, Option, none, ℕ, ◌+◌, ◌/◌, ◌≡◌, ◌≢◌, ◌↔◌, refl, sym, ◌∙◌, inl, inr, true, false,
  some, List, [], ◌∷◌, ok, map, arith,
}
use easy_just_in_time.Search.{◌∈◌, visit}
use easy_just_in_time.Search.Reached.{Reach}
use easy_just_in_time.Search.Worklist.{Distinct}
use easy_just_in_time.Llvm.{
  LlvmType, LlvmTypes, nil, cons, struct_ty, int_ty, pointer_ty, function_symbol, variable_symbol,
}
use easy_just_in_time.Tracker.{
  new_tracker, register_all, get_name_and_global_mapping, get_module, get_layout_info,
}
use easy_just_in_time.Plugin.{
  function_value, global_variable, call_inst, store_inst, alloca_inst, other_user, Value, Global,
  SourceModule, internal_global, external_global, ci_section, jit_section, is_object,
}
use easy_just_in_time.Plugin.Tracer.{trace, next, count, trace_returns, LeadsTo, IsObject}
use easy_just_in_time.Plugin.Tracer.Stored.{its_address, stored_functions_are_traced}
use easy_just_in_time.Plugin.References.{
  get_referenced_from_entry, to_visit, IsFunction, get_referenced_from_entry_returns,
}
use easy_just_in_time.Plugin.Export.{
  collect_objects_to_jit, set_section, deduce_objects_to_jit, each, collect_marked,
  regex_functions_to_jit,
}
use easy_just_in_time.Plugin.Export.Collected.{collect_objects_to_jit_returns}
use easy_just_in_time.Plugin.Export.Marked.{Exported}
use easy_just_in_time.Plugin.Clean.{CleaningPasses, clean_module, is_llvm_name}
use easy_just_in_time.Plugin.Clean.Fixed.{HasNoAlias, IsFixed, clean_module_returns}
use easy_just_in_time.Plugin.Register.{PluginLibrary, RegisterCall, find_named, register_objects}
use easy_just_in_time.UnorderedMap.{is_some}
use easy_just_in_time.Plugin.Register.Calls.{execute, mapping_of}
use easy_just_in_time.Plugin.Register.Calls.Embedded.{AllNamed, AllLeft, EmbedsFor}
use easy_just_in_time.Plugin.Register.Calls.Executed.{registrations, register_objects_returns}
use easy_just_in_time.Plugin.Register.Calls.Loaded.{Separates, parsed, exported_objects_are_found}
use easy_just_in_time.Layout.{
  LayoutFunction, SerializeFunction, SerializeBody, LayoutCall, other_operand, function_operand,
  bit_cast_of_function, define_serialize_struct, register_layouts, get_serialize_struct,
}
use easy_just_in_time.Layout.Bounds.{HasRoom, StoresFit, define_serialize_struct-StoresFit}
use easy_just_in_time.Layout.Found.{AreFunctions, layouts_are_found}
use easy_just_in_time.Layout.Found.{execute as execute_layout}

-- 0 is the function, 1 the interface, 2 the variable that is passed by 4, 3 the store, and 5 a counter.
abbrev pub sample_values : List Value
sample_values =
    record { kind = function_value ((5 ∷ []) ∷ []) []; users = 3 ∷ [] }
    ∷ record { kind = function_value [] []; users = 4 ∷ [] }
    ∷ record { kind = alloca_inst 6; users = 3 ∷ 4 ∷ [] }
    ∷ record { kind = store_inst 0 2; users = [] }
    ∷ record { kind = call_inst false 1 (2 ∷ []); users = [] }
    ∷ record { kind = global_variable (some 6); users = [] }
    ∷ record { kind = other_user []; users = [] }
    ∷ []

abbrev pub exported_function : Global
exported_function = record {
  value = 0;
  symbol_kind = function_symbol;
  name = "f";
  section = "";
  constant = false;
  declaration = false;
  linkage = external_global;
  default_visibility = true;
  comdat = true;
  no_inline = true;
  optimize_none = false;
}

abbrev pub interface_function : Global
interface_function = record exported_function { value = 1; name = "jit"; section = ci_section }

abbrev pub counter : Global
counter = record exported_function {
  value = 5;
  symbol_kind = variable_symbol;
  name = "counter";
  linkage = internal_global;
  comdat = false;
}

abbrev pub sample_module : SourceModule
sample_module = record {
  identifier = "sample";
  values = sample_values;
  globals = exported_function ∷ interface_function ∷ counter ∷ [];
}

abbrev pub sample_passes : CleaningPasses
sample_passes = record { strip_debug_info = λ m. m; extract = λ kept m. m }

abbrev pub sample_library : PluginLibrary
sample_library = record {
  unique_name = λ used name. name;
  passes = sample_passes;
  write_bitcode = λ m. if is_some (find_named "f" m.globals) then 1 ∷ [] else 0 ∷ [];
}

trace_returns_example :
    (os : List ℕ) × (trace sample_values 2 ≡ some os)
    × ((v : ℕ) → (count os v ≡ true) ↔ (LeadsTo sample_values 2 v × IsObject sample_values v))
trace_returns_example = trace_returns sample_values 2

get_referenced_from_entry_returns_example :
    (fs : List ℕ) × (get_referenced_from_entry sample_values 4 ≡ some fs)
    × ((f : ℕ) → (f ∈ fs) ↔ (Reach (to_visit sample_values) 4 f × IsFunction sample_values f))
    × Distinct fs
get_referenced_from_entry_returns_example = get_referenced_from_entry_returns sample_values 4

collect_objects_to_jit_returns_example :
    (n : SourceModule) × (objs : List Global) × (collect_objects_to_jit
        (λ v. v)
        ""
        (λ name. false)
        sample_module
      ≡ some (n, objs))
    × ((x : Global)
        → (x ∈ objs) ↔ (
            (g : Global) × (g ∈ sample_module.globals)
            × ((is_object g ≡ true)
                × (g.declaration ≡ false)
                × Exported (λ v. v) "" (λ name. false) sample_module g)
            × (set_section "" g ≡ x)))
    × ((x : Global) → x ∈ n.globals → is_object x ≡ true → x.section ≢ jit_section)
collect_objects_to_jit_returns_example =
    collect_objects_to_jit_returns (λ v. v) "" (λ name. false) sample_module

-- The function that is stored is exported.
collected_test :
    collect_objects_to_jit (λ v. v) "" (λ name. false) sample_module
    ≡ some (sample_module, exported_function ∷ [])
unfolding collect_objects_to_jit deduce_objects_to_jit each trace visit next collect_marked
    regex_functions_to_jit count
collected_test = refl

traced_test : trace sample_values 2 ≡ some (0 ∷ [])
unfolding trace visit next
traced_test = refl

pub sample-HasNoAlias : HasNoAlias sample_module.globals
sample-HasNoAlias g i = elim i [
  | inl e ↦ rw (sym e) refl
  | inr (inl e) ↦ rw (sym e) refl
  | inr (inr (inl e)) ↦ rw (sym e) refl
  | inr (inr (inr z)) ↦ elim z [ ]
]

clean_module_returns_example :
    (c : SourceModule) × (clean_module sample_passes exported_function sample_module ≡ ok c)
    × ((g : Global) → g ∈ c.globals → is_llvm_name g ≡ false → IsFixed 0 g)
clean_module_returns_example =
    clean_module_returns sample_passes exported_function sample_module (λ m h. h) (λ kept m h. h)
      sample-HasNoAlias refl

pub sample-AllNamed : AllNamed sample_module (exported_function ∷ [])
sample-AllNamed g i = elim i [ inl e ↦ (exported_function, rw (sym e) refl) | inr z ↦ elim z [ ] ]

register_objects_returns_example :
    (n : SourceModule) × (calls : List RegisterCall) × (lefts : List SourceModule)
    × (register_objects sample_library (exported_function ∷ []) (counter ∷ []) sample_module
        ≡ ok (n, calls))
    × AllLeft sample_library sample_module (exported_function ∷ []) lefts
    × ((address : ℕ → ℕ)
        → map (execute address n.values) calls
          ≡ registrations address
              (map (mapping_of address) (counter ∷ []))
              (exported_function ∷ [])
              (map sample_library.write_bitcode lefts))
register_objects_returns_example =
    register_objects_returns sample_library (exported_function ∷ []) (counter ∷ []) sample_module
      (λ m h. h) (λ kept m h. h) sample-HasNoAlias sample-AllNamed

abbrev pub loaded_at : ℕ → ℕ
loaded_at v = 4096 + v

pub sample-Separates : Separates loaded_at (exported_function ∷ [])
sample-Separates g h i j e = elim i [
  | inl a ↦ elim j [ inl b ↦ sym a ∙ b | inr z ↦ elim z [ ] ]
  | inr z ↦ elim z [ ]
]

abbrev first_byte : List ℕ → Option ℕ
first_byte [] = none
first_byte (b ∷ bytes) = some b

exported_objects_are_found_example :
    (n : SourceModule) × (calls : List RegisterCall) × (left : SourceModule) × (register_objects
        sample_library
        (exported_function ∷ [])
        (counter ∷ [])
        sample_module
      ≡ ok (n, calls))
    × EmbedsFor sample_library sample_module (exported_function ∷ []) exported_function left
    × (get_name_and_global_mapping 4096
          (register_all new_tracker (map (execute loaded_at n.values) calls))
        ≡ ok ("f", some (map (mapping_of loaded_at) (counter ∷ []))))
    × (get_module first_byte 4096
          (register_all new_tracker (map (execute loaded_at n.values) calls))
        ≡ parsed "f" (first_byte (sample_library.write_bitcode left)))
exported_objects_are_found_example =
    exported_objects_are_found sample_library first_byte (exported_function ∷ []) (counter ∷ [])
      sample_module loaded_at exported_function (λ m h. h) (λ kept m h. h) sample-HasNoAlias
      sample-AllNamed sample-Separates (inl refl)

-- A data layout in which a struct is packed.
abbrev mutual
  size : LlvmType → ℕ
  size (struct_ty ts) = sizes ts
  size (int_ty w) = (w + 7) / 8
  size t = 8

  sizes : LlvmTypes → ℕ
  sizes nil = 0
  sizes (cons t ts) = size t + sizes ts

size-HasRoom : HasRoom size
size-HasRoom nil = omega arith
size-HasRoom (cons t ts) = omega (arith, size-HasRoom ts)

-- `struct { char; char; }` behind a pointer that is passed by value
abbrev serialize_pair : SerializeFunction
serialize_pair = record {
  value = 7;
  params = pointer_ty (struct_ty (cons (int_ty 8) (cons (int_ty 8) nil))) ∷ [];
  by_val = true;
  declaration = true;
}

define_serialize_struct-StoresFit_example :
    (body : SerializeBody) × (define_serialize_struct size serialize_pair ≡ ok (some body))
    × StoresFit size body
define_serialize_struct-StoresFit_example =
    define_serialize_struct-StoresFit size serialize_pair size-HasRoom refl
      (cons (int_ty 8) (cons (int_ty 8) nil), refl, (refl, (refl, tt))) (omega arith)

abbrev layout_function : LayoutFunction
layout_function = record {
  section = "layout";
  instructions =
      (true, function_operand (record serialize_pair { value = 9 }) ∷ [])
      ∷ (false, other_operand ∷ bit_cast_of_function serialize_pair ∷ [])
      ∷ [];
}

layout-SerializesWith : get_serialize_struct layout_function.instructions ≡ ok serialize_pair
unfolding get_serialize_struct
layout-SerializesWith = refl

layout-AreFunctions : AreFunctions loaded_at (layout_function ∷ [])
layout-AreFunctions f g s t i j with_s with_t e = elim i [
  | inl a ↦ elim j [ inl b ↦ cc (a, b, with_s, with_t) | inr z ↦ elim z [ ] ]
  | inr z ↦ elim z [ ]
]

layouts_are_found_example :
    (calls : List LayoutCall) × (register_layouts size [] (layout_function ∷ []) ≡ ok calls)
    × (get_layout_info 4103 (register_all new_tracker (map (execute_layout loaded_at) calls))
        ≡ ok 1)
layouts_are_found_example =
    layouts_are_found size loaded_at (layout_function ∷ []) layout_function serialize_pair
      (λ g i. elim i [
        | inl e ↦ (
          serialize_pair,
          rw (sym e) layout-SerializesWith,
          (cons (int_ty 8) (cons (int_ty 8) nil), refl, (refl, (refl, tt))),
        )
        | inr z ↦ elim z [ ]
      ])
      layout-AreFunctions (inl refl) layout-SerializesWith

stored_functions_are_traced_example :
    (os : List ℕ) × (trace sample_values 2 ≡ some os) × (count os 0 ≡ true)
stored_functions_are_traced_example =
    stored_functions_are_traced sample_values 2 6 2 3 2 0 ((5 ∷ []) ∷ []) [] refl its_address
      (inl refl) refl refl
