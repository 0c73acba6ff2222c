-- ===== src/Inline/Constants.antt =====
-- runtime/pass/InlineParametersHelper.cpp: bound values and the bytes of bound structs as constants of the
-- wrapper. The data layout of the module is a parameter. `other_ty` is neither an integer nor a
-- floating-point type, and `other_fp_ty` is one that is neither `float` nor `double`; memory is little endian.
pub mod Scalars
use Prim.Native.String.{String}
use easy_just_in_time.Prelude.{
  ℕ, zero, suc, ◌+◌, ◌-◌, ◌*◌, ◌^◌, ◌%◌, ◌/◌, Bool, true, false, not, ◌&&◌, ◌||◌, List, [], ◌∷◌,
  ◌++◌, Option, none, some, Result, ok, err, ◌>>=◌, ◌>>◌, guard, length, ◌==◌, if◌then◌else◌,
}
use easy_just_in_time.UnorderedMap.{find, emplace}
use easy_just_in_time.Tracker.{nat_eq}
use easy_just_in_time.Context.{
  Argument, forward_argument, int_argument, float_argument, ptr_argument, struct_argument,
  module_argument,
}
use easy_just_in_time.Llvm.{
  LlvmType, LlvmTypes, void_ty, float_ty, double_ty, int_ty, pointer_ty, function_ty, struct_ty,
  array_ty, other_fp_ty, other_ty,
}
use easy_just_in_time.Inline.{Fault, argument_out_of_range, assertion_failed}

-- Constants: an integer of a width, a floating-point number as its bits, a `double` of the context at a
-- type, a pointer from an address, the bytes of a value (a bitcast vector, which `IntToPtr` makes a
-- pointer at a pointer type), a symbol of the module, cast to a type if its own is another, a null
-- pointer, and structs and arrays.
mutual
  pub data Constant (D : Type 0) : Type 0 where
    int_const : ℕ → ℕ → Constant D
    fp_bits : ℕ → ℕ → Constant D
    fp_const : LlvmType → D → Constant D
    int_to_ptr : LlvmType → ℕ → Constant D
    bytes_const : LlvmType → List ℕ → Constant D
    symbol_ref : String → Constant D
    symbol_cast : String → LlvmType → Constant D
    null_pointer : LlvmType → Constant D
    aggregate : LlvmType → Constants D → Constant D

  pub data Constants (D : Type 0) : Type 0 where
    no_more : Constants D
    field : Constant D → Constants D → Constants D

pub record DataLayout : Type 0 where
  pub type_store_size : LlvmType → ℕ
  pub type_alloc_size : LlvmType → ℕ
  pub element_offset : LlvmTypes → ℕ → ℕ

-- `ConstantInt::get(T, v, true)`: the low bits, at an integer type.
unfoldable pub get_int : {D : Type 0} → LlvmType → ℕ → Result Fault (Constant D)
get_int (int_ty w) v = ok (int_const w (v % 2 ^ w))
get_int _ v = err assertion_failed

-- `GetScalarArgument`, `none` for the null pointer.
unfoldable pub get_scalar_argument :
    {D : Type 0} → Argument D → LlvmType → Result Fault (Option (Constant D))
unfolding get_int
get_scalar_argument (int_argument v) t = do c ← get_int t v; ok (some c)
get_scalar_argument (float_argument d) t = ok (some (fp_const t d))
get_scalar_argument (ptr_argument p) t = ok (some (int_to_ptr t (p % 2 ^ 64)))
get_scalar_argument _ t = ok none

-- `n` bytes of memory, and a little-endian number in them.
unfoldable pub read_bytes : ℕ → List ℕ → Result Fault (List ℕ)
read_bytes zero raw = ok []
read_bytes (suc n) [] = err argument_out_of_range
read_bytes (suc n) (b ∷ raw) = do rest ← read_bytes n raw; ok (b ∷ rest)

unfoldable pub from_bytes : List ℕ → ℕ
from_bytes [] = 0
from_bytes (b ∷ bs) = b + 256 * from_bytes bs

-- The bits of a `float` that is converted to `double` and back: a signalling NaN becomes a quiet one.
abbrev pub quieted : ℕ → ℕ
quieted n =
    if (n / 2 ^ 23 % 256 == 255) && (not (n % 2 ^ 23 == 0) && (n % 2 ^ 23 / 2 ^ 22 == 0))
    then n + 2 ^ 22
    else n

abbrev pub Raw : Type 0 → Type 0
Raw D = Result Fault (Option (Constant D) × ℕ)

module _ {D : Type 0} where
  abbrev pub read_number : (ℕ → Constant D) → ℕ → List ℕ → Raw D
  read_number make n raw = do bs ← read_bytes n raw; ok (some (make (from_bytes bs)), n)

  -- `GetConstantFromRaw`: the constant and the number of bytes that it takes.
  unfoldable pub get_constant_from_raw : DataLayout → LlvmType → List ℕ → Raw D
  unfolding read_bytes from_bytes
  get_constant_from_raw dl (int_ty w) raw =
      if w == 8
      then read_number (int_const 8) 1 raw
      else (if w == 16
          then read_number (int_const 16) 2 raw
          else (if w == 32
              then read_number (int_const 32) 4 raw
              else (if w == 64 then read_number (int_const 64) 8 raw else ok (none, 0))))
  get_constant_from_raw dl float_ty raw = read_number (λ n. fp_bits 32 (quieted n)) 4 raw
  get_constant_from_raw dl double_ty raw = read_number (fp_bits 64) 8 raw
  get_constant_from_raw dl (other_fp_ty k) raw = ok (none, 0)
  get_constant_from_raw dl t raw = do
    bs ← read_bytes (dl.type_store_size t) raw
    ok (some (bytes_const t bs), dl.type_store_size t)
