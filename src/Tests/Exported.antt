-- ===== src/Tests/Exported.antt =====
-- The path from the plugin to the wrapper, at a module with one exported function.
use easy_just_in_time.Prelude.{
  zero, suc, Option, none, inr, set, Bool-cases, if◌then◌else◌, ◌≡◌, refl, inl, true, false, List,
  [], ◌∷◌, ◌++◌, some, ok, map, arith,
}
use easy_just_in_time.UnorderedMap.{find, is_some}
use easy_just_in_time.Search.{walk}
use easy_just_in_time.Llvm.{IrModule, Bitcode}
use easy_just_in_time.Inline.Constants.{fp_bits, int_const}
use easy_just_in_time.Function.{called_names, write_optimized_to_file}
use easy_just_in_time.Jit.Returns.{ReturnsBind}
use easy_just_in_time.Jit.Exported.{tracker_of, exported_functions_are_jitted}
use easy_just_in_time.Plugin.{
  external_global, private_global, Value, function_value, global_variable, constant_array,
  constant_struct, null_value, string_data, byte_data, Global, SourceModule, table,
}
use easy_just_in_time.Plugin.Clean.{clean_module, fix_linkages, fix_linkage, fix_globals}
use easy_just_in_time.Plugin.References.{get_referenced_from_entry, to_visit}
use easy_just_in_time.Plugin.Register.Calls.Embedded.{EmbedsFor}
use easy_just_in_time.Plugin.Register.{
  find_named, RegisterCall, private_variable, declare_register_bitcode, register_bitcode,
  register_objects, embed_bitcode, embed_object, write_module_to_global, get_global_mapping,
  mapping_entries, get_string_global, new_constant, new_variable,
}
use easy_just_in_time.Plugin.Register.Calls.{mapping_of}
use easy_just_in_time.Tests.{sample_params, sample_result, mapped_parameters}
use easy_just_in_time.Tests.Behaviour.{same_constant}
use easy_just_in_time.Tests.Compiled.{
  byte_text, sample_passes, sample_builder, opens_all, sample_bitcode, sample_modules, plain_module,
}
use easy_just_in_time.Tests.Plugin.{
  sample_values, exported_function, interface_function, counter, sample_module, sample_library,
  sample-HasNoAlias, sample-AllNamed, loaded_at, sample-Separates,
}
use easy_just_in_time.Tests.Wrapper.{
  sample_conversions, lower, no_bytes, sample_args, sample_context, sample_context-built,
  sample_data_layout,
}

-- What the pass adds: the bitcode, the mapping of the counter, and the declaration and the name that the
-- registration uses.
abbrev added_values : List Value
added_values =
    record { kind = byte_data (1 ∷ 0 ∷ []); users = [] }
    ∷ record { kind = global_variable (some 7); users = [] }
    ∷ record { kind = string_data "counter"; users = [] }
    ∷ record { kind = global_variable (some 9); users = [] }
    ∷ record { kind = constant_struct (10 ∷ 5 ∷ []); users = [] }
    ∷ record { kind = null_value; users = [] }
    ∷ record { kind = constant_array (11 ∷ 12 ∷ []); users = [] }
    ∷ record { kind = global_variable (some 13); users = [] }
    ∷ record { kind = function_value [] []; users = [] }
    ∷ record { kind = string_data "f"; users = [] }
    ∷ record { kind = global_variable (some 16); users = [] }
    ∷ []

abbrev declared_function : Global
declared_function = record exported_function {
  value = 15;
  name = "easy_register";
  declaration = true;
  comdat = false;
  no_inline = false;
}

abbrev registered_module : SourceModule
registered_module = record sample_module {
  values = sample_values ++ added_values;
  globals =
      declared_function
      ∷ exported_function
      ∷ interface_function
      ∷ counter
      ∷ private_variable 8 "f_bitcode"
      ∷ private_variable 10 "counter_name"
      ∷ private_variable 14 "global_mapping"
      ∷ private_variable 17 "f_name"
      ∷ [];
}

abbrev registered_calls : List RegisterCall
registered_calls =
    record { callee = 15; fun = 0; name = 17; mapping = 14; bitcode = 8; size = 1 } ∷ []

registered :
    register_objects sample_library (exported_function ∷ []) (counter ∷ []) sample_module
    ≡ ok (registered_module, registered_calls)
unfolding register_objects embed_bitcode embed_object write_module_to_global clean_module
    fix_linkages fix_linkage fix_globals get_referenced_from_entry to_visit get_global_mapping
    mapping_entries declare_register_bitcode register_bitcode get_string_global new_constant
    new_variable walk table
registered = refl

-- What `cleanModule` leaves for the function, under its new identifier.
abbrev left_module : SourceModule
left_module = record {
  identifier = "f_bitcode";
  values = set sample_values 5 (record { kind = global_variable none; users = [] });
  globals =
      record exported_function { comdat = false; no_inline = false }
      ∷ record interface_function { comdat = false; no_inline = false; linkage = private_global }
      ∷ record counter { declaration = true; linkage = external_global }
      ∷ [];
}

left_for_f :
    EmbedsFor sample_library sample_module (exported_function ∷ []) exported_function left_module
unfolding clean_module fix_linkages fix_linkage fix_globals get_referenced_from_entry to_visit walk
    table
left_for_f = inl (
  refl,
  record {
    entry = exported_function;
    named = refl;
    cleaned = record left_module { identifier = "sample" };
    cleans = refl;
    is_left = refl;
  },
)

-- The runtime sees the function of a module that has it, and the reader tells the modules apart.
abbrev view_of : SourceModule → IrModule
view_of m =
    if is_some (find_named "f" m.globals)
    then plain_module
    else record { symbols = []; nodes = none }

abbrev reading_bitcode : Bitcode
reading_bitcode = record sample_bitcode {
  parse_bitcode_file = λ bytes. elim bytes as (λ x. Option IrModule) [
    | [] ↦ none
    | b ∷ (bs → _) ↦ elim b as (λ x. Option IrModule) [
      | zero ↦ some (record { symbols = []; nodes = none })
      | suc (n → _) ↦ some plain_module
    ]
  ];
}

reads_back :
    (m : SourceModule)
    → reading_bitcode.parse_bitcode_file (sample_library.write_bitcode m) ≡ some (view_of m)
reads_back m = elim (Bool-cases (is_some (find_named "f" m.globals))) [
  | inl e ↦ rw e refl
  | inr e ↦ rw e refl
]

exported_functions_are_jitted_example :
    ReturnsBind sample_passes reading_bitcode
      (tracker_of loaded_at registered_module registered_calls)
      byte_text
      sample_data_layout
      sample_modules
      sample_builder
      opens_all
      ⦃conv = sample_conversions⦄
      lower
      (λ w s. refl)
      refl
      same_constant
      (fp_bits 64 2 ∷ int_const 32 5 ∷ [])
      no_bytes
      sample_params
      4096
      sample_args
      "f"
      (some (map (mapping_of loaded_at) (counter ∷ [])))
      plain_module
      sample_context
      sample_result
unfolding find called_names write_optimized_to_file
exported_functions_are_jitted_example =
    exported_functions_are_jitted sample_library (exported_function ∷ []) (counter ∷ [])
      sample_module loaded_at (λ m h. h) (λ kept m h. h) sample-HasNoAlias sample-AllNamed
      {n = registered_module} {calls = registered_calls} registered exported_function
      sample-Separates (inl refl) sample_passes reading_bitcode byte_text sample_data_layout
      sample_modules sample_builder opens_all ⦃conv = sample_conversions⦄ lower (λ w s. refl) refl
      same_constant (fp_bits 64 2 ∷ int_const 32 5 ∷ []) no_bytes sample_params sample_args view_of
      left_module [] reads_back left_for_f (λ made. (0, refl)) refl tt sample_context-built refl
      refl refl refl (omega arith) mapped_parameters (omega arith, (omega arith, (omega arith, tt)))
      (((λ e. cc e), tt), (tt, tt))
