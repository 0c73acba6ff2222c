-- ===== src/Llvm.antt =====
-- The part of LLVM's intermediate representation that the runtime reads and writes: types, symbols,
-- named metadata and functions. This is LLVM's data, kept to what the code looks at; LLVM's own
-- operations are parameters.
use Prim.Native.String.{String}
use easy_just_in_time.Prelude.{ℕ, Bool, true, false, List, Option}

mutual
  pub data LlvmType : Type 0 where
    void_ty : LlvmType
    float_ty : LlvmType
    double_ty : LlvmType
    int_ty : ℕ → LlvmType
    pointer_ty : LlvmType → LlvmType
    function_ty : LlvmTypes → LlvmType
    struct_ty : LlvmTypes → LlvmType
    array_ty : ℕ → LlvmType → LlvmType
    other_fp_ty : ℕ → LlvmType
    other_ty : ℕ → LlvmType

  pub data LlvmTypes : Type 0 where
    nil : LlvmTypes
    cons : LlvmType → LlvmTypes → LlvmTypes

abbrev pub is_pointer_ty : LlvmType → Bool
is_pointer_ty (pointer_ty t) = true
is_pointer_ty _ = false

pub data Linkage : Type 0 where
  external_linkage private_linkage other_linkage : Linkage

pub data SymbolKind : Type 0 where
  function_symbol variable_symbol alias_symbol : SymbolKind

-- A global value: `ty` is its type, a pointer.
pub record Symbol : Type 0 where
  pub symbol_kind : SymbolKind
  pub ty : LlvmType
  pub linkage : Linkage

-- `nodes` are the operands of the module's named metadata "easy::jit", if it has any; the operands of a
-- node are strings or others.
pub record IrModule : Type 0 where
  pub symbols : List (String × Symbol)
  pub nodes : Option (List (List (Option String)))

-- A function whose arguments are still to be bound. `struct_ret` is the attribute of the first one.
pub record IrFunction : Type 0 where
  pub params : List LlvmType
  pub return_type : LlvmType
  pub struct_ret : Bool
  pub fn_attrs : List ℕ
  pub param_attrs : List (List ℕ)

-- The bitcode reader and writer, and the linker: `none` is an error.
pub record Bitcode : Type 0 where
  pub parse_bitcode_file : List ℕ → Option IrModule
  pub write_bitcode : IrModule → List ℕ
  pub link_modules : IrModule → IrModule → Option IrModule
