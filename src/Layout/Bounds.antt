-- ===== src/Layout/Bounds.antt =====
-- The stores of the serialising functions lie in the buffer.
use easy_just_in_time.Prelude.{
  ℕ, suc, ◌+◌, ◌%◌, ◌^◌, ◌<◌, ◌≤◌, ◌≡◌, Result, refl, Bool, true, false, some, List, [], ◌∷◌, ◌++◌,
  ok, arith,
}
use easy_just_in_time.Llvm.{
  LlvmType, LlvmTypes, nil, cons, void_ty, float_ty, double_ty, int_ty, pointer_ty, function_ty,
  struct_ty, array_ty, other_fp_ty, other_ty,
}
use easy_just_in_time.Layout.{
  LayoutError, BufferStore, SerializeBody, SerializeFunction, to_list, get_struct_size,
  buffer_store, store_at, serialize_struct, serialize_fields, serialize_arguments, body_of,
  arguments_body, define_body, define_serialize_struct,
}

-- Structs of bytes.
abbrev mutual
  pub IsBytes : LlvmType → Type 0
  IsBytes (struct_ty ts) = AreBytes ts
  IsBytes (int_ty w) = w ≡ 8
  IsBytes _ = ⊥

  pub AreBytes : LlvmTypes → Type 0
  AreBytes nil = Unit {0}
  AreBytes (cons t ts) = IsBytes t × AreBytes ts

module _ (type_store_size : LlvmType → ℕ) where
  -- Stores of consecutive bytes, from an offset up to another.
  abbrev pub Consecutive : ℕ → ℕ → List BufferStore → Type 0
  Consecutive start end [] = start ≡ end
  Consecutive start end (s ∷ ss) =
      (s.offset ≡ start) × Consecutive (start + type_store_size s.stored) end ss

  Consecutive-append :
      (start middle end : ℕ) (ss ts : List BufferStore)
      → Consecutive start middle ss
      → Consecutive middle end ts
      → Consecutive start end (ss ++ ts)
  Consecutive-append start middle end [] ts first second = rw first second
  Consecutive-append start middle end (s ∷ ss) ts (here, first) second =
      (here, Consecutive-append (start + type_store_size s.stored) middle end ss ts first second)

  Consecutive-le : (start end : ℕ) (ss : List BufferStore) → Consecutive start end ss → start ≤ end
  Consecutive-le start end [] c = omega arith
  Consecutive-le start end (s ∷ ss) (here, c) =
      omega (arith, Consecutive-le (start + type_store_size s.stored) end ss c)

  -- A struct takes at least the bytes of its elements.
  abbrev pub HasRoom : Type 0
  HasRoom =
      (ts : LlvmTypes)
      → get_struct_size type_store_size (to_list ts) ≤ type_store_size (struct_ty ts)

  -- What a walk over a struct leaves: it returns, and its stores are consecutive, if their indices fit.
  abbrev pub Serializes : ℕ → ℕ → Result LayoutError (List BufferStore × ℕ) → Type 0
  Serializes offset size r =
      (stores : List BufferStore) × (end : ℕ) × (r ≡ ok (stores, end))
      × (offset ≤ end)
      × (HasRoom → end ≤ offset + size)
      × (end < 2 ^ 31 → Consecutive offset end stores)

  buffer_store-offset : (offset : ℕ) → offset < 2 ^ 31 → offset % 2 ^ 32 ≡ offset
  buffer_store-offset offset lt = omega (arith, lt)

  store_at-Serializes :
      (path : List ℕ) (offset w : ℕ)
      → w ≡ 8
      → Serializes offset
          (type_store_size (int_ty w))
          (store_at type_store_size path offset (int_ty w))
  store_at-Serializes path offset w byte = (
    buffer_store type_store_size path offset (int_ty w) ∷ [],
    offset + type_store_size (int_ty w),
    rw byte refl,
    omega arith,
    (λ room. omega arith),
    λ lt. (buffer_store-offset offset (omega (arith, lt)), refl),
  )

  fields-Serializes :
      (path : List ℕ) (index offset : ℕ) (t : LlvmType) (ts : LlvmTypes)
      → Serializes offset
          (type_store_size t)
          (serialize_struct type_store_size (path ++ (index ∷ [])) offset t)
      → ((next : ℕ)
          → Serializes next
              (get_struct_size type_store_size (to_list ts))
              (serialize_fields type_store_size path (suc index) next ts))
      → Serializes offset
          (get_struct_size type_store_size (to_list (cons t ts)))
          (serialize_fields type_store_size path index offset (cons t ts))
  unfolding serialize_struct
  fields-Serializes path index offset t ts (stores, next, first, le, within, here) rest =
      let (stores', end, ends, le', within', there) = rest next in
      (
        stores ++ stores',
        end,
        rw (first, ends) refl,
        omega (arith, le, le'),
        (λ room. omega (arith, within room, within' room)),
        λ lt.
            Consecutive-append offset next end stores stores' (here (omega (arith, lt, le')))
              (there lt),
      )

  mutual
    unfolding serialize_struct

    serialize_struct-Serializes :
        (path : List ℕ) (offset : ℕ) (t : LlvmType)
        → IsBytes t
        → Serializes offset (type_store_size t) (serialize_struct type_store_size path offset t)
    serialize_struct-Serializes path offset (struct_ty ts) bytes =
        let (stores, end, ends, le, within, here) =
          serialize_fields-Serializes path 0 offset ts bytes in
        (stores, end, ends, le, (λ room. omega (arith, within room, room ts)), here)
    serialize_struct-Serializes path offset (int_ty w) bytes =
        store_at-Serializes path offset w bytes
    serialize_struct-Serializes path offset void_ty bytes = elim bytes [ ]
    serialize_struct-Serializes path offset float_ty bytes = elim bytes [ ]
    serialize_struct-Serializes path offset double_ty bytes = elim bytes [ ]
    serialize_struct-Serializes path offset (pointer_ty t) bytes = elim bytes [ ]
    serialize_struct-Serializes path offset (function_ty ts) bytes = elim bytes [ ]
    serialize_struct-Serializes path offset (array_ty n t) bytes = elim bytes [ ]
    serialize_struct-Serializes path offset (other_fp_ty n) bytes = elim bytes [ ]
    serialize_struct-Serializes path offset (other_ty n) bytes = elim bytes [ ]

    serialize_fields-Serializes :
        (path : List ℕ) (index offset : ℕ) (ts : LlvmTypes)
        → AreBytes ts
        → Serializes offset
            (get_struct_size type_store_size (to_list ts))
            (serialize_fields type_store_size path index offset ts)
    serialize_fields-Serializes path index offset nil bytes =
        ([], offset, refl, omega arith, (λ room. omega arith), λ lt. refl)
    serialize_fields-Serializes path index offset (cons t ts) (byte, bytes) =
        fields-Serializes path index offset t ts
          (serialize_struct-Serializes (path ++ (index ∷ [])) offset t byte)
          (λ next. serialize_fields-Serializes path (suc index) next ts bytes)

  serialize_arguments_lem :
      (arg offset : ℕ) (ts : List LlvmType)
      → offset + get_struct_size type_store_size ts < 2 ^ 31
      → Consecutive offset
          (offset + get_struct_size type_store_size ts)
          (serialize_arguments type_store_size arg offset ts).0
  unfolding serialize_arguments
  serialize_arguments_lem arg offset [] lt = omega arith
  serialize_arguments_lem arg offset (t ∷ ts) lt =
      let same : (offset + type_store_size t) + get_struct_size type_store_size ts
          ≡ offset + (type_store_size t + get_struct_size type_store_size ts) =
        omega arith in
      let rest =
        serialize_arguments_lem (suc arg) (offset + type_store_size t) ts (omega (arith, lt)) in
      (buffer_store-offset offset (omega (arith, lt)), rw same at rest)

  -- All stores are after the size that is stored first and before the end of what malloc returns, each
  -- right after the one before.
  abbrev pub StoresFit : SerializeBody → Type 0
  StoresFit body =
      (end : ℕ) × Consecutive (type_store_size (int_ty 32)) end body.stores
      × (end ≤ body.malloc_size)
      × (body.malloc_size ≡ type_store_size (int_ty 32) + body.size_stored)

-- There is an argument, and if it is passed by value, it points to a struct of bytes.
abbrev pub IsSerializable : (by_val : Bool) → List LlvmType → Type 0
IsSerializable by_val [] = ⊥
IsSerializable false (t ∷ ts) = Unit
IsSerializable true (t ∷ ts) =
    (fields : LlvmTypes) × (t ≡ pointer_ty (struct_ty fields)) × AreBytes fields

-- What is serialised.
abbrev pub serialized_types : (by_val : Bool) → List LlvmType → List LlvmType
serialized_types false ts = ts
serialized_types true [] = []
serialized_types true (t ∷ ts) = elim t [
  | pointer_ty u ↦ elim u [ struct_ty fields ↦ to_list fields | _ ↦ [] ]
  | _ ↦ []
]

-- The buffer has less than 2 GiB.
abbrev pub IsSmall : (LlvmType → ℕ) → SerializeFunction → Type 0
IsSmall type_store_size f =
    type_store_size (int_ty 32)
      + get_struct_size type_store_size (serialized_types f.by_val f.params)
    < 2 ^ 31

pub define_body_returns :
    (type_store_size : LlvmType → ℕ) (by_val : Bool) (params : List LlvmType)
    → IsSerializable by_val params
    → (body : SerializeBody) × (define_body type_store_size by_val params ≡ ok body)
      × (HasRoom type_store_size
          → type_store_size (int_ty 32)
              + get_struct_size type_store_size (serialized_types by_val params)
            < 2 ^ 31
          → StoresFit type_store_size body)
unfolding define_body serialize_struct
define_body_returns type_store_size by_val [] s = elim s [ ]
define_body_returns type_store_size false (t ∷ ts) s =
    let size = type_store_size (int_ty 32) in
    (
      arguments_body type_store_size (t ∷ ts),
      refl,
      λ room lt. (
        size + get_struct_size type_store_size (t ∷ ts),
        serialize_arguments_lem type_store_size 0 size (t ∷ ts) lt,
        omega (arith, lt),
        omega (arith, lt),
      ),
    )
define_body_returns type_store_size true (t ∷ ts) (fields, e, bytes) =
    let size = type_store_size (int_ty 32) in
    let (stores, end, ends, le, within, here) =
      serialize_fields-Serializes type_store_size (0 ∷ []) 0 size fields bytes in
    (
      body_of type_store_size (get_struct_size type_store_size (to_list fields)) stores,
      rw (e, define_body) (rw ends refl),
      λ room lt.
          let small : size + get_struct_size type_store_size (to_list fields) < 2 ^ 31 =
            rw e at lt in
          (
            end,
            here (omega (arith, within room, small)),
            omega (arith, within room, small),
            omega (arith, small),
          ),
    )

-- A function without a body whose arguments can be serialised, as those of a struct of bytes that is passed by
-- value can, gets one. Where the store size of a struct is at least the sum of its elements' and the buffer
-- has less than 2 GiB, the stores of that body lie one right after the other in the allocated buffer, behind
-- the number of bytes that is stored first, by which and by its own size the buffer is large.
pub define_serialize_struct-StoresFit :
    (type_store_size : LlvmType → ℕ) (f : SerializeFunction)
    → HasRoom type_store_size
    → f.declaration ≡ true
    → IsSerializable f.by_val f.params
    → IsSmall type_store_size f
    → (body : SerializeBody) × (define_serialize_struct type_store_size f ≡ ok (some body))
      × StoresFit type_store_size body
unfolding define_serialize_struct
define_serialize_struct-StoresFit type_store_size f room declared s small =
    let (body, defined, fit) = define_body_returns type_store_size f.by_val f.params s in
    (body, simp (declared, define_serialize_struct, defined), fit room small)
