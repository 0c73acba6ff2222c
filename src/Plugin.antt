-- ===== src/Plugin.antt =====
-- The module that the compiler plugin of pass/ works on, kept to what the plugin reads and writes of
-- LLVM's data. A value is a number, an index into the module's table of values; one outside the table is
-- neither a user of others nor used.
pub mod Tracer
pub mod References
pub mod Clean
pub mod Export
pub mod Register
use Prim.Native.String.{String}
use easy_just_in_time.Prelude.{
  ℕ, zero, suc, ◌<◌, ◌≡◌, ◌⊎◌, inl, inr, refl, arith, length, Bool, true, false, Option, none, some,
  List, [], ◌∷◌, ◌++◌, map, get_elem?,
}
use easy_just_in_time.Search.{◌∈◌}
use easy_just_in_time.Llvm.{SymbolKind, function_symbol, variable_symbol, alias_symbol}

-- `function_value` has the operands of each instruction and its own; `global_variable` its initializer;
-- `call_inst` says if it is the memcpy intrinsic; `store_inst` has the value and the pointer,
-- `select_inst` the condition and the two values, `element_ptr_inst` and `element_ptr_expr` the pointer and
-- the indices. `call_inst` is a call or an invoke; a `string_data` has a null character at its end, and a
-- `byte_data` has its elements.
pub data ValueKind : Type 0 where
  function_value : (instructions : List (List ℕ)) (operands : List ℕ) → ValueKind
  global_variable : (initializer : Option ℕ) → ValueKind
  call_inst : (is_memcpy : Bool) (callee : ℕ) (args : List ℕ) → ValueKind
  store_inst : (value pointer : ℕ) → ValueKind
  alloca_inst : (array_size : ℕ) → ValueKind
  element_ptr_inst : (pointer : ℕ) (indices : List ℕ) → ValueKind
  bit_cast_inst : (operand : ℕ) → ValueKind
  phi_node : (operands : List ℕ) → ValueKind
  select_inst : (condition on_true on_false : ℕ) → ValueKind
  element_ptr_expr : (pointer : ℕ) (indices : List ℕ) → ValueKind
  bit_cast_expr : (operand : ℕ) → ValueKind
  constant_array : (operands : List ℕ) → ValueKind
  other_user : (operands : List ℕ) → ValueKind
  constant_struct : (operands : List ℕ) → ValueKind
  null_value : ValueKind
  string_data : String → ValueKind
  byte_data : (elements : List ℕ) → ValueKind
  not_a_user : ValueKind

pub record Value : Type 0 where
  pub kind : ValueKind
  pub users : List ℕ

abbrev pub no_value : Value
no_value = record { kind = not_a_user; users = [] }

abbrev pub value_at : List Value → ℕ → Value
value_at values v = elim (get_elem? values v) [ none ↦ no_value | some value ↦ value ]

-- `User::operands`
abbrev pub operands : ValueKind → List ℕ
operands (function_value instructions ops) = ops
operands (global_variable none) = []
operands (global_variable (some init)) = init ∷ []
operands (call_inst is_memcpy callee args) = args ++ (callee ∷ [])
operands (store_inst value pointer) = value ∷ pointer ∷ []
operands (alloca_inst array_size) = array_size ∷ []
operands (element_ptr_inst pointer indices) = pointer ∷ indices
operands (bit_cast_inst operand) = operand ∷ []
operands (phi_node ops) = ops
operands (select_inst condition on_true on_false) = condition ∷ on_true ∷ on_false ∷ []
operands (element_ptr_expr pointer indices) = pointer ∷ indices
operands (bit_cast_expr operand) = operand ∷ []
operands (constant_array ops) = ops
operands (other_user ops) = ops
operands (constant_struct ops) = ops
operands null_value = []
operands (string_data text) = []
operands (byte_data elements) = []
operands not_a_user = []

pub data GlobalLinkage : Type 0 where
  external_global internal_global private_global other_global : GlobalLinkage

-- A global value. `value` is its number, an empty name is no name, and `constant` is for variables.
pub record Global : Type 0 where
  pub value : ℕ
  pub symbol_kind : SymbolKind
  pub name : String
  pub section : String
  pub constant : Bool
  pub declaration : Bool
  pub linkage : GlobalLinkage
  pub default_visibility : Bool
  pub comdat : Bool
  pub no_inline : Bool
  pub optimize_none : Bool

-- `globals` are in the order of `Module::global_values`: functions, variables, aliases.
pub record SourceModule : Type 0 where
  pub identifier : String
  pub values : List Value
  pub globals : List Global

-- The sections of include/easy/attributes.h.
abbrev pub ci_section : String
ci_section = "compiler-interface"

abbrev pub jit_section : String
jit_section = "easy-jit"

abbrev pub layout_section : String
layout_section = "layout"

-- `isa<Function>`, and `isa<GlobalObject>`, which aliases are not.
abbrev pub is_function : Global → Bool
is_function g = elim g.symbol_kind [ function_symbol ↦ true | _ ↦ false ]

abbrev pub is_object : Global → Bool
is_object g = elim g.symbol_kind [ alias_symbol ↦ false | _ ↦ true ]

pub get_elem?-missing :
    {A : Type 0} (xs : List A) (i : ℕ) → (get_elem? xs i ≡ none) ⊎ (i < length xs)
get_elem?-missing [] i = inl refl
get_elem?-missing (x ∷ xs) zero = inr (omega arith)
get_elem?-missing (x ∷ xs) (suc i) = elim (get_elem?-missing xs i) [
  | inl e ↦ inl e
  | inr lt ↦ inr (omega arith)
]

pub value_at-missing :
    (values : List Value) (v : ℕ) → get_elem? values v ≡ none → value_at values v ≡ no_value
value_at-missing values v missing = rw (missing, value_at) refl

-- The numbers of the values in a table of so many.
unfoldable pub table : ℕ → List ℕ
table zero = []
table (suc n) = n ∷ table n

pub in_table : (n v : ℕ) → v < n → v ∈ table n
unfolding table
in_table zero v lt = absurd (omega arith)
in_table (suc n) v lt = ground (arith, in_table n v)
