-- ===== src/Tests/Compiled.antt =====
-- The theorems on compiled functions at concrete inputs: a function `f` at address 16, with an engine that
-- counts.
use Prim.Native.String.{String}
use text.Mathlib.Text.{◌==◌ as str_eq}
use easy_just_in_time.Prelude.{
  map, ℕ, zero, suc, ◌+◌, ◌≡◌, inl, refl, Bool, true, false, List, [], ◌∷◌, Option, none, some, ok,
  arith,
}
use easy_just_in_time.Tracker.{BitcodeTracker}
use easy_just_in_time.Llvm.{
  LlvmType, int_ty, pointer_ty, IrModule, Bitcode, function_symbol, external_linkage,
  private_linkage,
}
use easy_just_in_time.Tracker.{get_name_and_global_mapping, get_module, get_address}
use easy_just_in_time.UnorderedMap.{find}
use easy_just_in_time.Utils.{mark_as_entry, get_entry_function_name}
use easy_just_in_time.Inline.{high_level_layout, get_new_layout}
use easy_just_in_time.Inline.Args.{run_on_module, take_name, unnamed}
use easy_just_in_time.Inline.Constants.{get_scalar_argument}
use easy_just_in_time.Inline.Link.{set_private}
use easy_just_in_time.EmitCodes.{Instruction, asm_call, no_call, run_on_function}
use easy_just_in_time.EmitCodes.Laws.{asm_strings, unmarked, run_on_function_lem}
use easy_just_in_time.Context.{Context}
use easy_just_in_time.Function.{
  called_names, EngineBuilder, Passes, Function, compile, serialize, deserialize,
}
use easy_just_in_time.Function.Serialize.{deserialize-serialize}
use easy_just_in_time.Function.Registers.{RegNameToIdx, hooked_get_reserved_regs}
use easy_just_in_time.Function.Registers.Reserved.{
  Reserves, IsTable, hooked_get_reserved_regs-Reserves,
}
use easy_just_in_time.Tests.Wrapper.{sample_function, sample_context, sample_data_layout}

abbrev pub byte_text : ℕ → String
byte_text n = "1"

-- Two raw bytes
abbrev byte_context : Context ℕ
byte_context = record sample_context {
  raw_bytes = record { bytes = 144 ∷ 15 ∷ []; reserved_regs = [] };
}

abbrev sample_code : List Instruction
sample_code =
    no_call
    ∷ asm_call (record { asm_string = ".byte 0x90\n\t"; side_effects = true; rest = 0 })
    ∷ []

run_on_function_lem_example :
    (str_eq "f" "f" ≡ true
      → (asm_strings (run_on_function byte_text "f" byte_context "f" sample_code).0
          ≡ map (unmarked ".byte 1;.byte 1;") (".byte 0x90\n\t" ∷ []))
        × (called_names (run_on_function byte_text "f" byte_context "f" sample_code).0
            ≡ called_names sample_code)
        × ((run_on_function byte_text "f" byte_context "f" sample_code).1 ≡ true))
    × (str_eq "f" "f" ≡ false
        → run_on_function byte_text "f" byte_context "f" sample_code ≡ (sample_code, false))
run_on_function_lem_example = run_on_function_lem byte_text "f" byte_context "f" sample_code

abbrev pub same_text : String → String
same_text s = s

-- Of the registers EAX and EBX, EBX and an unknown one are to be reserved.
hooked_get_reserved_regs-Reserves_example :
    (bits' : List Bool) × (table' : RegNameToIdx) × (hooked_get_reserved_regs same_text
        ("EAX" ∷ "EBX" ∷ [])
        ("EBX" ∷ "EXX" ∷ [])
        []
        (false ∷ false ∷ [])
      ≡ ok (bits', table'))
    × Reserves same_text ("EAX" ∷ "EBX" ∷ []) ("EBX" ∷ "EXX" ∷ []) (false ∷ false ∷ []) bits'
    × IsTable same_text ("EAX" ∷ "EBX" ∷ []) table'
hooked_get_reserved_regs-Reserves_example =
    hooked_get_reserved_regs-Reserves same_text ("EAX" ∷ "EBX" ∷ []) ("EBX" ∷ "EXX" ∷ []) []
      (false ∷ false ∷ []) (inl refl) (omega arith) (omega arith)

abbrev pointer_type : LlvmType
pointer_type = pointer_ty (int_ty 8)

-- The module of `f`, before and after.
abbrev pub plain_module : IrModule
plain_module = record {
  symbols =
      ("f", record { symbol_kind = function_symbol; ty = pointer_type; linkage = external_linkage })
      ∷ [];
  nodes = none;
}

abbrev wrapped_module : IrModule
wrapped_module = record {
  symbols =
      ("f", record { symbol_kind = function_symbol; ty = pointer_type; linkage = external_linkage })
      ∷ ("", record { symbol_kind = function_symbol; ty = pointer_type; linkage = private_linkage })
      ∷ [];
  nodes = some ((some "entry" ∷ some "f" ∷ []) ∷ []);
}

abbrev pub sample_bitcode : Bitcode
sample_bitcode = record {
  parse_bitcode_file = λ bytes. elim bytes as (λ x. Option IrModule) [
    | [] ↦ none
    | b ∷ (bs → _) ↦ elim b as (λ x. Option IrModule) [
      | zero ↦ some plain_module
      | suc (n → _) ↦ some wrapped_module
    ]
  ];
  write_bitcode = λ m. elim m.nodes as (λ x. List ℕ) [ none ↦ 0 ∷ [] | some nodes ↦ 1 ∷ [] ];
  link_modules = λ m lm. some m;
}

abbrev pub sample_tracker : BitcodeTracker
sample_tracker = record {
  functions =
      (
        16,
        record {
          name = "f";
          globals = some (record { name = "g"; address = 5 } ∷ []);
          bitcode = 0 ∷ [];
        },
      )
      ∷ [];
  name_to_address = ("f", 16) ∷ [];
  layouts = [];
}

abbrev pub sample_passes : Passes ℕ
sample_passes = record {
  body = λ name m. some [];
  with_body = λ name code m. m;
  signature = λ name m. sample_function;
  with_wrapper = λ name w m. m;
  wrapper_ptr_ty = pointer_type;
  populate_module_pass_manager = λ inliner level size m. m;
}

abbrev pub sample_builder : EngineBuilder ℕ
sample_builder = record {
  create = λ m. some 0;
  add_global_mapping = λ name address ee. ee + address;
  get_function_address = λ reserved name ee. 4096 + ee;
}

abbrev pub sample_modules : ℕ → IrModule
sample_modules n = plain_module

abbrev pub opens_all : String → Bool
opens_all file = true

abbrev pub compiled_function : Function ℕ
compiled_function = record { address = 4101; engine = 5; llvm_module = wrapped_module }

pub sample_compiled :
    compile sample_passes sample_bitcode sample_tracker byte_text sample_data_layout sample_modules
      sample_builder opens_all 16 sample_context
    ≡ ok compiled_function
unfolding compile get_name_and_global_mapping find get_module run_on_module high_level_layout
    get_new_layout get_scalar_argument mark_as_entry take_name unnamed set_private
sample_compiled = refl

deserialize-serialize_example :
    deserialize sample_bitcode sample_builder sample_tracker []
      (serialize sample_bitcode compiled_function)
    ≡ ok (some compiled_function)
unfolding get_name_and_global_mapping find get_address get_entry_function_name
deserialize-serialize_example =
    deserialize-serialize sample_builder sample_passes sample_bitcode sample_tracker byte_text
      sample_data_layout sample_modules opens_all 16 sample_context "f" sample_compiled refl refl
      refl refl
