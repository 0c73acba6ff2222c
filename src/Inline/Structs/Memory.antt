-- ===== src/Inline/Structs/Memory.antt =====
-- runtime/pass/InlineParametersHelper.cpp, `GetGlobalStruct`: the constant for the bytes of a struct, against
-- the bytes themselves. Structs and arrays nest; their elements are numbers, and values that are neither
-- pointers nor structs.
pub mod Built
use native.Mathlib.Nat.{mul_comm}
use easy_just_in_time.Prelude.{
  ℕ, zero, suc, ◌+◌, ◌*◌, ◌/◌, ◌≤◌, ◌<◌, ◌≡◌, ◌⊎◌, inl, inr, refl, sym, ap, ◌∙◌, Bool, true, false,
  List, [], ◌∷◌, Option, none, some, Result, ok, err, ◌>>=◌, >>=-eq-ok, length, take, ◌==◌,
  if◌then◌else◌, arith,
}
use easy_just_in_time.Llvm.{
  LlvmType, LlvmTypes, void_ty, float_ty, double_ty, int_ty, pointer_ty, function_ty, struct_ty,
  array_ty, other_fp_ty, other_ty, nil, cons, IrModule,
}
use easy_just_in_time.Inline.{Fault}
use easy_just_in_time.Inline.Constants.{
  Constant, Constants, int_const, fp_bits, bytes_const, aggregate, no_more, field, DataLayout,
  quieted, from_bytes, read_number, get_constant_from_raw,
}
use easy_just_in_time.Inline.Constants.Scalars.{IsSize, get_constant_from_raw_int}
use easy_just_in_time.Inline.Structs.{
  drop, Funcs, Linking, prepare, prepare_fields, prepare_elements, prepare_scalar, append_constant,
  elements_as_global, scalar_as_global, as_global, fields_as_global, get_global_struct,
}

-- The offset of an element.
abbrev pub offset_in : DataLayout → LlvmType → ℕ → ℕ
offset_in dl (struct_ty ts) i = dl.element_offset ts i
offset_in dl (array_ty n t) i = i * dl.type_alloc_size t
offset_in dl _ i = 0

-- What a `float` or a `double` becomes.
abbrev pub fp_value : ℕ → ℕ → ℕ
fp_value w n = if w == 32 then quieted n else n

-- Enough bytes for a value of the type, at the offsets of its elements.
abbrev mutual
  pub IsPlain : DataLayout → LlvmType → List ℕ → Type 0
  IsPlain dl (struct_ty ts) raw = ArePlain dl ts (dl.element_offset ts) 0 raw
  IsPlain dl (array_ty n t) raw =
      (i : ℕ) → i < n → IsPlain dl t (drop (i * dl.type_alloc_size t) raw)
  IsPlain dl (int_ty w) raw = (n : ℕ) × IsSize n × (w ≡ 8 * n) × (n ≤ length raw)
  IsPlain dl float_ty raw = 4 ≤ length raw
  IsPlain dl double_ty raw = 8 ≤ length raw
  IsPlain dl (other_ty k) raw = dl.type_store_size (other_ty k) ≤ length raw
  IsPlain dl void_ty raw = ⊥
  IsPlain dl (other_fp_ty k) raw = ⊥
  IsPlain dl (pointer_ty t) raw = ⊥
  IsPlain dl (function_ty ts) raw = ⊥

  pub ArePlain : DataLayout → LlvmTypes → (ℕ → ℕ) → ℕ → List ℕ → Type 0
  ArePlain dl nil offset i raw = Unit {0}
  ArePlain dl (cons t ts) offset i raw =
      IsPlain dl t (drop (offset i) raw) × ArePlain dl ts offset (suc i) raw

module _ {D : Type 0} where
  -- A constant in memory: the bytes that start with it.
  abbrev mutual
    pub Holds : DataLayout → Constant D → List ℕ → Type 0
    Holds dl (int_const w v) raw = (w / 8 ≤ length raw) × (from_bytes (take (w / 8) raw) ≡ v)
    Holds dl (fp_bits w v) raw =
        (w / 8 ≤ length raw) × (fp_value w (from_bytes (take (w / 8) raw)) ≡ v)
    Holds dl (bytes_const t bs) raw = take (length bs) raw ≡ bs
    Holds dl (aggregate t cs) raw = HoldAll dl cs (offset_in dl t) 0 raw
    Holds dl _ raw = ⊥

    pub HoldAll : DataLayout → Constants D → (ℕ → ℕ) → ℕ → List ℕ → Type 0
    HoldAll dl no_more offset i raw = Unit {0}
    HoldAll dl (field c cs) offset i raw =
        Holds dl c (drop (offset i) raw) × HoldAll dl cs offset (suc i) raw

  -- The type of a constant, down to its elements.
  abbrev mutual
    pub HasType : DataLayout → Constant D → LlvmType → Type 0
    HasType dl (int_const w v) t = t ≡ int_ty w
    HasType dl (fp_bits w v) t = t ≡ (if w == 32 then float_ty else double_ty)
    HasType dl (bytes_const t' bs) t = (t ≡ t') × (length bs ≡ dl.type_store_size t)
    HasType dl (aggregate t' cs) (struct_ty ts) = (t' ≡ struct_ty ts) × HaveTypes dl cs ts
    HasType dl (aggregate t' cs) (array_ty n t) = (t' ≡ array_ty n t) × AllHaveType dl cs n t
    HasType dl _ t = ⊥

    pub HaveTypes : DataLayout → Constants D → LlvmTypes → Type 0
    HaveTypes dl no_more nil = Unit {0}
    HaveTypes dl (field c cs) (cons t ts) = HasType dl c t × HaveTypes dl cs ts
    HaveTypes dl _ _ = ⊥

    pub AllHaveType : DataLayout → Constants D → ℕ → LlvmType → Type 0
    AllHaveType dl no_more zero t = Unit {0}
    AllHaveType dl (field c cs) (suc n) t = HasType dl c t × AllHaveType dl cs n t
    AllHaveType dl _ _ t = ⊥
