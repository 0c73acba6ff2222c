-- ===== src/Layout.antt =====
-- pass/Layout.cpp: the pass that defines the functions that serialise arguments, and registers how many
-- parameters each has. `type_store_size` is of LLVM's data layout.
pub mod Bounds
pub mod Found
use Prim.Native.String.{String}
use text.Mathlib.Text.{◌==◌ as str_eq}
use easy_just_in_time.Prelude.{
  ℕ, suc, ◌+◌, ◌%◌, ◌^◌, ◌==◌, Bool, true, false, not, ◌&&◌, Option, none, some, List, [], ◌∷◌,
  ◌++◌, length, map, Result, ok, err, ◌>>=◌, if◌then◌else◌,
}
use easy_just_in_time.Search.Members.{keep}
use easy_just_in_time.Llvm.{LlvmType, LlvmTypes, nil, cons, pointer_ty, struct_ty, int_ty}
use easy_just_in_time.Plugin.{layout_section}
use easy_just_in_time.Plugin.Tracer.{count}

-- A failed `assert` or `cast`.
pub data LayoutError : Type 0 where
  unreachable no_argument not_a_pointer_to_a_struct store_type_mismatch : LayoutError

-- A store to the buffer: its index, an unsigned number of 32 bits, and what is stored: the argument `path`, or
-- what the path leads to from the pointer.
pub record BufferStore : Type 0 where
  pub offset : ℕ
  pub path : List ℕ
  pub stored : LlvmType

-- The code that is built: the argument of malloc, the number that is stored first, and the other stores.
pub record SerializeBody : Type 0 where
  pub malloc_size : ℕ
  pub size_stored : ℕ
  pub stores : List BufferStore

-- A function that serialises arguments: `by_val` is the attribute of its first one.
pub record SerializeFunction : Type 0 where
  pub value : ℕ
  pub params : List LlvmType
  pub by_val : Bool
  pub declaration : Bool

pub data LayoutOperand : Type 0 where
  function_operand bit_cast_of_function : SerializeFunction → LayoutOperand
  other_operand : LayoutOperand

-- An instruction is an intrinsic or not, with its operands.
pub record LayoutFunction : Type 0 where
  pub section : String
  pub instructions : List (Bool × List LayoutOperand)

abbrev pub collect_layouts : List LayoutFunction → List LayoutFunction
collect_layouts = keep (λ f. str_eq f.section layout_section)

abbrev pub operand_function : List LayoutOperand → Option SerializeFunction
operand_function [] = none
operand_function (function_operand f ∷ ops) = some f
operand_function (bit_cast_of_function f ∷ ops) = some f
operand_function (other_operand ∷ ops) = operand_function ops

unfoldable pub get_serialize_struct :
    List (Bool × List LayoutOperand) → Result LayoutError SerializeFunction
get_serialize_struct [] = err unreachable
get_serialize_struct ((intrinsic, ops) ∷ instructions) =
    let rest = get_serialize_struct instructions in
    if intrinsic then rest else elim (operand_function ops) [ none ↦ rest | some f ↦ ok f ]

abbrev pub to_list : LlvmTypes → List LlvmType
to_list nil = []
to_list (cons t ts) = t ∷ to_list ts

-- A call of `easy_register_layout` in the constructor, after the body that was defined for it, if any.
pub record LayoutCall : Type 0 where
  pub body : Option SerializeBody
  pub id : ℕ
  pub n : ℕ

module _ (type_store_size : LlvmType → ℕ) where
  abbrev pub get_struct_size : List LlvmType → ℕ
  get_struct_size [] = 0
  get_struct_size (t ∷ ts) = type_store_size t + get_struct_size ts

  abbrev pub buffer_store : List ℕ → ℕ → LlvmType → BufferStore
  buffer_store path offset t = record { offset = offset % 2 ^ 32; path = path; stored = t }

  -- The pointer to the byte is not cast, so that LLVM's assertion on the types of a store holds for bytes only.
  abbrev pub store_at : List ℕ → ℕ → LlvmType → Result LayoutError (List BufferStore × ℕ)
  store_at path offset (int_ty w) =
      if w == 8
      then ok (buffer_store path offset (int_ty w) ∷ [], offset + type_store_size (int_ty w))
      else err store_type_mismatch
  store_at path offset t = err store_type_mismatch

  -- The stores, and `Offset` after them.
  unfoldable mutual
    pub serialize_struct : List ℕ → ℕ → LlvmType → Result LayoutError (List BufferStore × ℕ)
    serialize_struct path offset (struct_ty ts) = serialize_fields path 0 offset ts
    serialize_struct path offset t = store_at path offset t

    pub serialize_fields : List ℕ → ℕ → ℕ → LlvmTypes → Result LayoutError (List BufferStore × ℕ)
    serialize_fields path index offset nil = ok ([], offset)
    serialize_fields path index offset (cons t ts) =
        serialize_struct (path ++ (index ∷ [])) offset t >>= λ (stores, next).
        serialize_fields path (suc index) next ts >>= λ (rest, end). ok (stores ++ rest, end)

  unfoldable pub serialize_arguments :
      (arg : ℕ) → (offset : ℕ) → List LlvmType → List BufferStore × ℕ
  serialize_arguments arg offset [] = ([], offset)
  serialize_arguments arg offset (t ∷ ts) =
      let (rest, end) = serialize_arguments (suc arg) (offset + type_store_size t) ts in
      (buffer_store (arg ∷ []) offset t ∷ rest, end)

  -- The argument of malloc has 64 bits, and the size that is stored has 32.
  abbrev pub body_of : ℕ → List BufferStore → SerializeBody
  body_of arg_size stores = record {
    malloc_size = (type_store_size (int_ty 32) + arg_size) % 2 ^ 64;
    size_stored = arg_size % 2 ^ 32;
    stores = stores;
  }

  abbrev pub pointer_body : LlvmTypes → Result LayoutError SerializeBody
  pointer_body fields =
      serialize_struct (0 ∷ []) (type_store_size (int_ty 32)) (struct_ty fields)
      >>= λ (stores, end). ok (body_of (get_struct_size (to_list fields)) stores)

  abbrev pub arguments_body : List LlvmType → SerializeBody
  arguments_body params =
      body_of (get_struct_size params)
        (serialize_arguments 0 (type_store_size (int_ty 32)) params).0

  unfoldable pub define_body : (by_val : Bool) → List LlvmType → Result LayoutError SerializeBody
  define_body by_val [] = err no_argument
  define_body false (t ∷ ts) = ok (arguments_body (t ∷ ts))
  define_body true (t ∷ ts) = elim t [
    | pointer_ty u ↦ elim u [
      | struct_ty fields ↦ pointer_body fields
      | _ ↦ err not_a_pointer_to_a_struct
    ]
    | _ ↦ err not_a_pointer_to_a_struct
  ]

  -- `DefineSerializeStruct`; `none` is a function that has a body.
  unfoldable pub define_serialize_struct :
      SerializeFunction → Result LayoutError (Option SerializeBody)
  define_serialize_struct f =
      if f.declaration then (define_body f.by_val f.params >>= λ body. ok (some body)) else ok none

  -- `defined` are the functions that the loop has given a body.
  unfoldable pub register_layouts :
      (defined : List ℕ) → List LayoutFunction → Result LayoutError (List LayoutCall)
  register_layouts defined [] = ok []
  register_layouts defined (f ∷ fs) = get_serialize_struct f.instructions >>= λ s.
      define_serialize_struct
        (record s { declaration = s.declaration && not (count defined s.value) })
      >>= λ body. register_layouts (s.value ∷ defined) fs >>= λ calls.
          ok (record { body = body; id = s.value; n = length s.params } ∷ calls)

-- `runOnModule`; `none` is no change.
unfoldable pub register_layout_pass :
    (LlvmType → ℕ) → List LayoutFunction → Result LayoutError (Option (List LayoutCall))
register_layout_pass type_store_size functions = elim (collect_layouts functions) [
  | [] ↦ ok none
  | f ∷ fs ↦ register_layouts type_store_size [] (f ∷ fs) >>= λ calls. ok (some calls)
]
