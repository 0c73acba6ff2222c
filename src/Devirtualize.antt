-- ===== src/Devirtualize.antt =====
-- runtime/pass/DevirtualizeConstant.cpp and IndirectcallConstant.cpp: calls through a table of virtual
-- functions, or through a pointer, that is a constant. `strip` stands for `stripPointerCasts` and `memory` for
-- the pointers in the memory of the program.
pub mod Recast
pub mod Typed
pub mod Outcomes
use Prim.Native.String.{String}
use text.Mathlib.Text.{◌==◌ as str_eq}
use easy_just_in_time.Prelude.{
  ℕ, Bool, true, false, Option, none, some, List, [], ◌∷◌, ◌++◌, map, length, get_elem?, ◌==◌,
  Result, ok, err, ◌>>=◌, if◌then◌else◌,
}
use easy_just_in_time.Llvm.{LlvmType, function_symbol, IrModule, Bitcode}
use easy_just_in_time.Tracker.{
  BitcodeTracker, TrackerError, get_name_and_global_mapping, get_module,
}
use easy_just_in_time.Inline.Link.{get_named_value, make_private}

-- `load_inst` says if it is tagged as an access to a table of virtual functions.
pub data IrKind : Type 0 where
  load_inst : (pointer : ℕ) (vtable_access : Bool) → IrKind
  call_inst : (callee : ℕ) (args : List ℕ) → IrKind
  pointer_cast_inst : (operand : ℕ) → IrKind
  constant_int : ℕ → IrKind
  int_to_ptr_expr : (operand : ℕ) → IrKind
  pointer_cast_expr : (operand : ℕ) → IrKind
  function_constant : String → IrKind
  other_constant other_value : IrKind

pub record FunctionType : Type 0 where
  pub return_type : LlvmType
  pub params : List LlvmType
  pub var_arg : Bool

-- `function_type` is what the value points to, if that is a function.
pub record IrValue : Type 0 where
  pub kind : IrKind
  pub ty : LlvmType
  pub function_type : Option FunctionType
  pub users : List ℕ

abbrev pub kind_at : List IrValue → ℕ → IrKind
kind_at table v = elim (get_elem? table v) [ none ↦ other_value | some value ↦ value.kind ]

abbrev pub users_at : List IrValue → ℕ → List ℕ
users_at table v = elim (get_elem? table v) [ none ↦ [] | some value ↦ value.users ]

-- Exceptions, failed assertions and casts, and uses of a null pointer.
pub data PassError : Type 0 where
  exception : TrackerError → PassError
  missing_symbol symbol_is_no_function no_function_type parameter_out_of_range : PassError

abbrev pub or_exception : {A : Type 0} → Result TrackerError A → Result PassError A
or_exception (ok a) = ok a
or_exception (err e) = err (exception e)

-- The number of a constant integer, and its value: an `inttoptr` is looked through.
abbrev pub constant_location : List IrValue → ℕ → Option (ℕ × ℕ)
constant_location table location = elim (kind_at table location) [
  | constant_int n ↦ some (location, n)
  | int_to_ptr_expr operand ↦ elim (kind_at table operand) [
    | constant_int n ↦ some (operand, n)
    | _ ↦ none
  ]
  | _ ↦ none
]

-- `getVTableHostAddress`; the other file does not look at the tag.
unfoldable pub get_vtable_host_address : (List IrValue → ℕ → ℕ) → List IrValue → ℕ → Option (ℕ × ℕ)
get_vtable_host_address strip table v = elim (kind_at table v) [
  | load_inst pointer true ↦ constant_location table (strip table pointer)
  | _ ↦ none
]

-- What is done with the symbol of the linked module.
abbrev pub use_function : String → IrModule → Result PassError (IrModule × Option String)
use_function name m = elim (get_named_value name m) [
  | none ↦ err missing_symbol
  | some s ↦ elim s.symbol_kind [
    | function_symbol ↦ ok (make_private name m, some name)
    | _ ↦ err symbol_is_no_function
  ]
]

-- The linked function, by its name; `none` is null.
unfoldable pub find_function_and_link_modules :
    Bitcode
    → BitcodeTracker
    → IrModule
    → (host_value : ℕ) → Result PassError (IrModule × Option String)
find_function_and_link_modules bc bt m host_value =
    or_exception (get_name_and_global_mapping host_value bt) >>= λ (name, globals).
    or_exception (get_module bc.parse_bitcode_file host_value bt) >>= λ lm.
    elim (bc.link_modules m lm) [ none ↦ ok (m, none) | some linked ↦ use_function name linked ]

abbrev replaced : ℕ → ℕ → ℕ → ℕ
replaced old new v = if v == old then new else v

-- `replaceAllUsesWith`
abbrev pub replace_in : ℕ → ℕ → IrKind → IrKind
replace_in old new (load_inst pointer tag) = load_inst (replaced old new pointer) tag
replace_in old new (call_inst callee args) =
    call_inst (replaced old new callee) (map (replaced old new) args)
replace_in old new (pointer_cast_inst operand) = pointer_cast_inst (replaced old new operand)
replace_in old new kind = kind

abbrev pub replace_all_uses : ℕ → ℕ → List IrValue → List IrValue
replace_all_uses old new [] = []
replace_all_uses old new (value ∷ table) =
    record value { kind = replace_in old new value.kind } ∷ replace_all_uses old new table

-- The loads from the table that a pointer was loaded from are replaced by the function.
unfoldable pub replace_loads : (called : ℕ) → List ℕ → List IrValue → List IrValue
replace_loads called [] table = table
replace_loads called (u ∷ us) table = elim (kind_at table u) [
  | load_inst pointer tag ↦ replace_loads called us (replace_all_uses u called table)
  | _ ↦ replace_loads called us table
]

-- The pointers to tables that are loaded from the constant location; the function is cast to what they
-- point to.
unfoldable pub replace_called : (cast_to : IrValue → IrValue) → List ℕ → List IrValue → List IrValue
replace_called cast_to [] table = table
replace_called cast_to (p ∷ ps) table = elim (get_elem? table p) [
  | none ↦ replace_called cast_to ps table
  | some pointer ↦ elim pointer.kind [
    | load_inst location tag ↦
        replace_called cast_to ps
          (replace_loads (length table) pointer.users (table ++ (cast_to pointer ∷ [])))
    | _ ↦ replace_called cast_to ps table
  ]
]

abbrev is_constant_expr : IrKind → Bool
is_constant_expr (int_to_ptr_expr operand) = true
is_constant_expr (pointer_cast_expr operand) = true
is_constant_expr _ = false

unfoldable pub replace_users :
    (List IrValue → ℕ → ℕ) → (cast_to : IrValue → IrValue) → List ℕ → List IrValue → List IrValue
replace_users strip cast_to [] table = table
replace_users strip cast_to (u ∷ us) table =
    let int_to_ptr = strip table u in
    let here =
      if is_constant_expr (kind_at table int_to_ptr)
      then replace_called cast_to (users_at table int_to_ptr) table
      else table in
    replace_users strip cast_to us here

-- The state of the pass: the module it links into, the values, and `Changed`.
pub record PassState : Type 0 where
  pub ir_module : IrModule
  pub table : List IrValue
  pub changed : Bool

module _ (bc : Bitcode) (bt : BitcodeTracker) (strip : List IrValue → ℕ → ℕ) (memory : ℕ → ℕ)
    (cast_to : String → IrValue → IrValue) where
  -- One round of `Devirtualize`: the first entry of the table is read.
  unfoldable pub devirtualize_instruction : ℕ → PassState → Result PassError PassState
  devirtualize_instruction i s = elim (get_vtable_host_address strip s.table i) [
    | none ↦ ok s
    | some (vtable, location) ↦
        find_function_and_link_modules bc bt s.ir_module (memory (memory location)) >>= λ (m, f).
        elim f [
          | none ↦ ok (record s { ir_module = m })
          | some name ↦ ok (record {
            ir_module = m;
            changed = true;
            table = replace_users strip (cast_to name) (users_at s.table vtable) s.table;
          })
        ]
  ]

  unfoldable pub devirtualize : List ℕ → PassState → Result PassError PassState
  devirtualize [] s = ok s
  devirtualize (i ∷ is) s = devirtualize_instruction i s >>= λ t. devirtualize is t
