-- ===== src/Inline/Structs/Stored.antt =====
-- `StoreStructField` and `GetStructAlloc` of runtime/pass/InlineParametersHelper.cpp: the bytes of a bound
-- struct, stored element by element to a local variable. No part of the program calls `GetStructAlloc`;
-- `GetGlobalStruct` has taken its place.
pub mod Packed
use easy_just_in_time.Prelude.{
  ℕ, zero, suc, ◌+◌, List, [], ◌∷◌, ◌++◌, Option, none, some, Result, ok, err, ◌>>=◌, ◌==◌,
  if◌then◌else◌,
}
use easy_just_in_time.Llvm.{
  LlvmType, LlvmTypes, pointer_ty, function_ty, struct_ty, array_ty, nil, cons, IrModule,
}
use easy_just_in_time.Inline.{Fault, null_constant}
use easy_just_in_time.Inline.Constants.{Constant, DataLayout, get_constant_from_raw}
use easy_just_in_time.Inline.Structs.{drop, read_pointer}

-- The stores so far, each with the indices of the element in the variable (`GEP`) and the constant; and the
-- module, into which functions are linked.
abbrev pub Stores : Type 0 → Type 0
Stores D = List (List ℕ × Constant D)

abbrev pub Storing : Type 0 → Type 0
Storing D = IrModule × Stores D

-- With the number of bytes that were read.
abbrev pub Walk : Type 0 → Type 0
Walk D = Result Fault (Storing D × ℕ)

-- `CreateStore`; a null constant may not be stored.
abbrev pub create_store : {D : Type 0} → Option (Constant D) → ℕ → List ℕ → Storing D → Walk D
create_store none size path s = err null_constant
create_store (some c) size path (m, stores) = ok ((m, stores ++ ((path, c) ∷ [])), size)

module _ {D : Type 0} (dl : DataLayout)
    (link : ℕ → LlvmType → IrModule → Result Fault (IrModule × Option (Constant D))) where
  -- The loop over the elements of an array, from an element and an offset on.
  unfoldable pub store_elements : ℕ → ℕ → ℕ → (ℕ → ℕ → Storing D → Walk D) → Storing D → Walk D
  store_elements zero i offset element s = ok (s, offset)
  store_elements (suc n) i offset element s =
      element i offset s >>= λ (t, size). store_elements n (suc i) (offset + size) element t

  unfoldable pub store_scalar : LlvmType → List ℕ → List ℕ → Storing D → Walk D
  store_scalar ty raw path s =
      get_constant_from_raw dl ty raw >>= λ (c, size). create_store c size path s

  -- A function pointer: a null one is stored as a scalar.
  unfoldable pub store_function : LlvmType → List ℕ → List ℕ → Storing D → Walk D
  unfolding store_scalar
  store_function ty raw path (m, stores) = read_pointer raw >>= λ p.
      let scalar = store_scalar ty raw path (m, stores) in
      let linked = link p ty m >>= λ (m', c). create_store c 8 path (m', stores) in
      if p == 0 then scalar else linked

  -- `StoreStructField`, and its loop over the fields of a struct.
  unfoldable mutual
    pub store_struct_field : LlvmType → List ℕ → List ℕ → Storing D → Walk D
    store_struct_field (struct_ty ts) raw path s = store_fields ts 0 0 raw path s
    store_struct_field (array_ty n t) raw path s =
        store_elements n 0 0 (λ i offset. store_struct_field t (drop offset raw) (path ++ (i ∷ [])))
          s
    store_struct_field (pointer_ty (function_ty sig)) raw path s =
        store_function (pointer_ty (function_ty sig)) raw path s
    store_struct_field (pointer_ty t) raw path s = store_scalar (pointer_ty t) raw path s
    store_struct_field t raw path s = store_scalar t raw path s

    pub store_fields : LlvmTypes → ℕ → ℕ → List ℕ → List ℕ → Storing D → Walk D
    store_fields nil i offset raw path s = ok (s, offset)
    store_fields (cons t ts) i offset raw path s =
        store_struct_field t (drop offset raw) (path ++ (i ∷ [])) s >>= λ (u, size).
        store_fields ts (suc i) (offset + size) raw path u

  -- `GetStructAlloc`: the module, and the stores to the new variable.
  unfoldable pub get_struct_alloc : LlvmType → List ℕ → IrModule → Result Fault (Storing D)
  get_struct_alloc struct_type raw m =
      store_struct_field struct_type raw (0 ∷ []) (m, []) >>= λ (s, size). ok s
