-- ===== src/Inline/Structs.antt =====
-- `StoreStructFieldPrepare`, `StoreStructFieldAsGlobal` and `GetGlobalStruct` of
-- runtime/pass/InlineParametersHelper.cpp: the bytes of a bound struct as a constant global. The first
-- walk links the functions that the struct points to; the second one builds the constant.
pub mod Memory
pub mod Stored
use easy_just_in_time.Prelude.{
  ℕ, zero, suc, ◌*◌, List, [], ◌∷◌, Option, none, some, Result, ok, err, ◌>>=◌, ◌==◌, if◌then◌else◌,
}
use easy_just_in_time.UnorderedMap.{find}
use easy_just_in_time.Tracker.{nat_eq}
use easy_just_in_time.Llvm.{
  LlvmType, LlvmTypes, pointer_ty, function_ty, struct_ty, array_ty, nil, cons, IrModule,
}
use easy_just_in_time.Inline.{Fault, null_constant, assertion_failed}
use easy_just_in_time.Inline.Constants.{
  Constant, Constants, no_more, field, null_pointer, aggregate, DataLayout, read_bytes, from_bytes,
  get_constant_from_raw,
}

abbrev pub drop : ℕ → List ℕ → List ℕ
drop zero raw = raw
drop (suc n) [] = []
drop (suc n) (b ∷ raw) = drop n raw

-- `Funcs`, and `operator[]` of `std::map`: assignment, and reading, which is null for a new key.
abbrev pub Funcs : Type 0 → Type 0
Funcs D = List (ℕ × Option (Constant D))

abbrev pub func_at : {D : Type 0} → ℕ → Funcs D → Option (Constant D)
func_at p funcs = elim (find nat_eq p funcs) [ none ↦ none | some c ↦ c ]

-- `*(void**)Raw`, `*(int64_t*)Raw`
abbrev pub read_pointer : List ℕ → Result Fault ℕ
read_pointer raw = read_bytes 8 raw >>= λ bs. ok (from_bytes bs)

module _ {D : Type 0} (dl : DataLayout)
    (link : ℕ → LlvmType → IrModule → Result Fault (IrModule × Option (Constant D))) where
  abbrev pub Linking : Type 0
  Linking = IrModule × Funcs D

  -- One round for each element of an array.
  unfoldable pub prepare_elements :
      ℕ → ℕ → (ℕ → Linking → Result Fault Linking) → Linking → Result Fault Linking
  prepare_elements zero i element s = ok s
  prepare_elements (suc n) i element s = element i s >>= prepare_elements n (suc i) element

  -- A function pointer: linked, unless it is null.
  unfoldable pub prepare_function : LlvmType → List ℕ → Linking → Result Fault Linking
  prepare_function ty raw (m, funcs) = do
    p ← read_pointer raw
    let linked = link p ty m
    if p == 0 then ok (m, funcs) else (do (m', c) ← linked; ok (m', (p, c) ∷ funcs))

  -- A scalar is read, and the constant dropped.
  unfoldable pub prepare_scalar : LlvmType → List ℕ → Linking → Result Fault Linking
  prepare_scalar ty raw s = do (c, size) ← get_constant_from_raw {D = D} dl ty raw; ok s

  -- `StoreStructFieldPrepare`, and its loop over the fields of a struct.
  unfoldable mutual
    pub prepare : LlvmType → List ℕ → Linking → Result Fault Linking
    prepare (struct_ty ts) raw s = prepare_fields ts (dl.element_offset ts) 0 raw s
    prepare (array_ty n t) raw s =
        prepare_elements n 0 (λ i. prepare t (drop (dl.type_alloc_size t * i) raw)) s
    prepare (pointer_ty (function_ty sig)) raw s =
        prepare_function (pointer_ty (function_ty sig)) raw s
    prepare (pointer_ty t) raw s = ok s
    prepare t raw s = prepare_scalar t raw s

    pub prepare_fields : LlvmTypes → (ℕ → ℕ) → ℕ → List ℕ → Linking → Result Fault Linking
    prepare_fields nil offset i raw s = ok s
    prepare_fields (cons t ts) offset i raw s =
        prepare t (drop (offset i) raw) s >>= prepare_fields ts offset (suc i) raw

module _ {D : Type 0} (dl : DataLayout) (funcs : Funcs D) where
  -- `CurConstant` after a walk; `none` is null.
  abbrev pub Built : Type 0
  Built = Result Fault (Option (Constant D))

  -- A constant of a struct or an array, whose elements may not be null.
  unfoldable pub append_constant : Built → Result Fault (Constants D) → Result Fault (Constants D)
  append_constant (ok (some c)) rest = rest >>= λ cs. ok (field c cs)
  append_constant (ok none) rest = rest >>= λ cs. err null_constant
  append_constant (err e) rest = err e

  unfoldable pub elements_as_global : ℕ → ℕ → (ℕ → Built) → Result Fault (Constants D)
  unfolding append_constant
  elements_as_global zero i element = ok no_more
  elements_as_global (suc n) i element =
      append_constant (element i) (elements_as_global n (suc i) element)

  unfoldable pub function_as_global : LlvmType → List ℕ → Built
  function_as_global ty raw = do
    p ← read_pointer raw
    ok (if p == 0 then some (null_pointer ty) else func_at p funcs)

  -- A data pointer: `ConstantInt::get` fails an assertion at a pointer type.
  unfoldable pub address_as_global : LlvmType → List ℕ → Built
  address_as_global ty raw = read_pointer raw >>= λ p. err assertion_failed

  unfoldable pub scalar_as_global : LlvmType → List ℕ → Built
  scalar_as_global ty raw = do (c, size) ← get_constant_from_raw dl ty raw; ok c

  abbrev pub as_aggregate : LlvmType → Result Fault (Constants D) → Built
  as_aggregate ty cs = cs >>= λ all. ok (some (aggregate ty all))

  -- `StoreStructFieldAsGlobal`, and its loop over the fields of a struct.
  unfoldable mutual
    pub as_global : LlvmType → List ℕ → Built
    as_global (struct_ty ts) raw =
        as_aggregate (struct_ty ts) (fields_as_global ts (dl.element_offset ts) 0 raw)
    as_global (array_ty n t) raw =
        as_aggregate (array_ty n t)
          (elements_as_global n 0 (λ i. as_global t (drop (i * dl.type_alloc_size t) raw)))
    as_global (pointer_ty (function_ty sig)) raw =
        function_as_global (pointer_ty (function_ty sig)) raw
    as_global (pointer_ty t) raw = address_as_global (pointer_ty t) raw
    as_global t raw = scalar_as_global t raw

    pub fields_as_global : LlvmTypes → (ℕ → ℕ) → ℕ → List ℕ → Result Fault (Constants D)
    fields_as_global nil offset i raw = ok no_more
    fields_as_global (cons t ts) offset i raw =
        append_constant (as_global t (drop (offset i) raw)) (fields_as_global ts offset (suc i) raw)

module _ {D : Type 0} (dl : DataLayout)
    (link : ℕ → LlvmType → IrModule → Result Fault (IrModule × Option (Constant D))) where
  -- `GetGlobalStruct`: the module with the functions linked, and the initializer of the new global, which may be null.
  unfoldable pub get_global_struct :
      LlvmType → List ℕ → IrModule → Result Fault (IrModule × Option (Constant D))
  get_global_struct struct_type raw m = do
    (m', funcs) ← prepare dl link struct_type raw (m, [])
    c ← as_global dl funcs struct_type raw
    ok (m', c)
