-- ===== src/Inline/Structs/Stored/Packed.antt =====
-- Where a struct has no padding, the stores to a variable give its elements what the constant global has.
use mathlib.Core.List.{append_assoc, append-nil}
use easy_just_in_time.Prelude.{
  ℕ, zero, suc, ◌+◌, ◌*◌, ◌/◌, ◌≤◌, ◌<◌, ◌≡◌, refl, sym, ◌∙◌, List, [], ◌∷◌, ◌++◌, Option, some,
  Result, ok, length, take, arith,
}
use easy_just_in_time.Llvm.{
  LlvmType, LlvmTypes, void_ty, float_ty, double_ty, int_ty, pointer_ty, function_ty, struct_ty,
  array_ty, other_fp_ty, other_ty, nil, cons, IrModule,
}
use easy_just_in_time.Inline.{Fault}
use easy_just_in_time.Inline.Constants.{
  Constant, Constants, int_const, fp_bits, bytes_const, aggregate, no_more, field, DataLayout,
  quieted, from_bytes, get_constant_from_raw,
}
use easy_just_in_time.Inline.Constants.Scalars.{IsSize, get_constant_from_raw_int}
use easy_just_in_time.Inline.Structs.{
  drop, Funcs, append_constant, elements_as_global, scalar_as_global, as_global, fields_as_global,
  get_global_struct,
}
use easy_just_in_time.Inline.Structs.Memory.{IsPlain, ArePlain}
use easy_just_in_time.Inline.Structs.Memory.Built.{read_bytes-take, prepare_plain}
use easy_just_in_time.Inline.Structs.Stored.{
  Stores, Storing, Walk, store_elements, store_scalar, store_struct_field, store_fields,
  get_struct_alloc,
}

-- The bytes of the elements of a type.
abbrev mutual
  pub packed_size : DataLayout → LlvmType → ℕ
  packed_size dl (struct_ty ts) = packed_sizes dl ts
  packed_size dl (array_ty n t) = n * packed_size dl t
  packed_size dl (int_ty w) = w / 8
  packed_size dl float_ty = 4
  packed_size dl double_ty = 8
  packed_size dl t = dl.type_store_size t

  pub packed_sizes : DataLayout → LlvmTypes → ℕ
  packed_sizes dl nil = 0
  packed_sizes dl (cons t ts) = packed_size dl t + packed_sizes dl ts

-- Every element starts where the one before it ends.
abbrev mutual
  pub IsPacked : DataLayout → LlvmType → Type 0
  IsPacked dl (struct_ty ts) = ArePacked dl ts (dl.element_offset ts) 0 0
  IsPacked dl (array_ty n t) = (dl.type_alloc_size t ≡ packed_size dl t) × IsPacked dl t
  IsPacked dl _ = Unit {0}

  pub ArePacked : DataLayout → LlvmTypes → (ℕ → ℕ) → ℕ → ℕ → Type 0
  ArePacked dl nil offset i start = Unit {0}
  ArePacked dl (cons t ts) offset i start =
      (offset i ≡ start) × IsPacked dl t × ArePacked dl ts offset (suc i) (start + packed_size dl t)

-- The elements of a constant that are no aggregates, with their indices.
abbrev mutual
  pub leaves : {D : Type 0} → List ℕ → Constant D → Stores D
  leaves path (aggregate t cs) = leaves_from path 0 cs
  leaves path c = (path, c) ∷ []

  pub leaves_from : {D : Type 0} → List ℕ → ℕ → Constants D → Stores D
  leaves_from path i no_more = []
  leaves_from path i (field c cs) = leaves (path ++ (i ∷ [])) c ++ leaves_from path (suc i) cs

module _ {D : Type 0} (dl : DataLayout)
    (link : ℕ → LlvmType → IrModule → Result Fault (IrModule × Option (Constant D)))
    (funcs : Funcs D) where
  -- The walk to the constant returns, and the walk to the variable stores its elements.
  abbrev Agrees : LlvmType → List ℕ → Type 0
  Agrees t raw =
      (c : Constant D) × (as_global dl funcs t raw ≡ ok (some c))
      × ((path : List ℕ) (m : IrModule) (stores : Stores D)
          → store_struct_field dl link t raw path (m, stores)
            ≡ ok ((m, stores ++ leaves path c), packed_size dl t))

  abbrev AgreeScalars : LlvmType → List ℕ → Type 0
  AgreeScalars t raw =
      (c : Constant D) × (scalar_as_global dl funcs t raw ≡ ok (some c))
      × ((path : List ℕ) (m : IrModule) (stores : Stores D)
          → store_scalar dl link t raw path (m, stores)
            ≡ ok ((m, stores ++ leaves path c), packed_size dl t))

  int_ty-AgreeScalars :
      (w n : ℕ) (raw : List ℕ) → IsSize n → w ≡ 8 * n → n ≤ length raw → AgreeScalars (int_ty w) raw
  unfolding scalar_as_global store_scalar
  int_ty-AgreeScalars w n raw size width le =
      let read = (read_bytes-take n raw le).0 in
      let bytes : w / 8 ≡ n = omega (arith, width) in
      (
        int_const (8 * n) (from_bytes (take n raw)),
        rw (width, get_constant_from_raw_int dl n raw size, read) refl,
        λ path m stores. rw (bytes, width, get_constant_from_raw_int dl n raw size, read) refl,
      )

  other_ty-AgreeScalars :
      (k : ℕ) (raw : List ℕ)
      → dl.type_store_size (other_ty k) ≤ length raw
      → AgreeScalars (other_ty k) raw
  unfolding scalar_as_global store_scalar get_constant_from_raw
  other_ty-AgreeScalars k raw le =
      let read = (read_bytes-take (dl.type_store_size (other_ty k)) raw le).0 in
      (
        bytes_const (other_ty k) (take (dl.type_store_size (other_ty k)) raw),
        rw read refl,
        λ path m stores. rw read refl,
      )

  double_ty-AgreeScalars :
      (raw : List ℕ)
      → (4 ≤ length raw → AgreeScalars float_ty raw) × (8 ≤ length raw → AgreeScalars double_ty raw)
  unfolding scalar_as_global store_scalar get_constant_from_raw
  double_ty-AgreeScalars raw = (
    (λ le.
        let read = (read_bytes-take 4 raw le).0 in
        (
          fp_bits 32 (quieted (from_bytes (take 4 raw))),
          rw read refl,
          λ path m stores. rw read refl,
        )),
    λ le.
        let read = (read_bytes-take 8 raw le).0 in
        (fp_bits 64 (from_bytes (take 8 raw)), rw read refl, λ path m stores. rw read refl),
  )

  counted : (s : Storing D) {a b : ℕ} → a ≡ b → ◌≡◌ {A = Walk D} (ok (s, a)) (ok (s, b))
  counted s e = rw e refl

  -- The stores of a walk that continues another one, and the bytes that both have read.
  continued :
      (m : IrModule) (stores here rest : Stores D) {a b : ℕ}
      → a ≡ b
      → ◌≡◌ {A = Walk D}
          (ok ((m, (stores ++ here) ++ rest), a))
          (ok ((m, stores ++ (here ++ rest)), b))
  continued m stores here rest e = rw (append_assoc stores here rest, e) refl

  -- An array from the element `i` on, whose bytes are read from `start` on.
  abbrev ElementsAgree : LlvmType → List ℕ → ℕ → ℕ → ℕ → Type 0
  ElementsAgree t raw n i start =
      (cs : Constants D) × (elements_as_global dl funcs n i
          (λ j. as_global dl funcs t (drop (j * packed_size dl t) raw))
        ≡ ok cs)
      × ((path : List ℕ) (m : IrModule) (stores : Stores D)
          → store_elements dl link n i start
              (λ j offset. store_struct_field dl link t (drop offset raw) (path ++ (j ∷ [])))
              (m, stores)
            ≡ ok ((m, stores ++ leaves_from path i cs), start + n * packed_size dl t))

  elements_as_global-ElementsAgree :
      (t : LlvmType) (raw : List ℕ) (n i start : ℕ)
      → start ≡ i * packed_size dl t
      → ((j : ℕ) → j < i + n → Agrees t (drop (j * packed_size dl t) raw))
      → ElementsAgree t raw n i start
  unfolding elements_as_global append_constant store_elements
  elements_as_global-ElementsAgree t raw zero i start begins agree =
      (no_more, refl, λ path m stores. rw (append-nil stores) (counted (m, stores) (omega arith)))
  elements_as_global-ElementsAgree t raw (suc n) i start begins agree =
      let (c, built, stored) = agree i (omega arith) in
      let (cs, all_built, all_stored) =
        elements_as_global-ElementsAgree t raw n (suc i) (start + packed_size dl t)
          (omega (arith, begins)) (λ j lt. agree j (omega arith)) in
      (
        field c cs,
        rw (built, all_built) refl,
        λ path m stores.
            rw (begins, stored (path ++ (i ∷ [])) m stores, sym begins)
              (all_stored path m (stores ++ leaves (path ++ (i ∷ [])) c)
                ∙ continued m stores (leaves (path ++ (i ∷ [])) c) (leaves_from path (suc i) cs)
                    (omega arith)),
      )

  array_ty-Agrees :
      (t : LlvmType) (raw : List ℕ) (n : ℕ)
      → dl.type_alloc_size t ≡ packed_size dl t
      → ElementsAgree t raw n 0 0
      → Agrees (array_ty n t) raw
  unfolding as_global store_struct_field
  array_ty-Agrees t raw n alloc (cs, built, stored) = (
    aggregate (array_ty n t) cs,
    rw (alloc, built) refl,
    λ path m stores.
        stored path m stores ∙ counted (m, stores ++ leaves_from path 0 cs) (omega arith),
  )

  abbrev FieldsAgree : LlvmTypes → (ℕ → ℕ) → ℕ → ℕ → List ℕ → Type 0
  FieldsAgree ts offset i start raw =
      (cs : Constants D) × (fields_as_global dl funcs ts offset i raw ≡ ok cs)
      × ((path : List ℕ) (m : IrModule) (stores : Stores D)
          → store_fields dl link ts i start raw path (m, stores)
            ≡ ok ((m, stores ++ leaves_from path i cs), start + packed_sizes dl ts))

  cons-FieldsAgree :
      (t : LlvmType) (ts : LlvmTypes) (offset : ℕ → ℕ) (i start : ℕ) (raw : List ℕ)
      → offset i ≡ start
      → Agrees t (drop (offset i) raw)
      → FieldsAgree ts offset (suc i) (start + packed_size dl t) raw
      → FieldsAgree (cons t ts) offset i start raw
  unfolding as_global store_struct_field append_constant
  cons-FieldsAgree t ts offset i start raw begins (c, built, stored) (cs, all_built, all_stored) = (
    field c cs,
    rw (built, all_built) refl,
    λ path m stores. rw (rw begins at (stored (path ++ (i ∷ [])) m stores)) (
        all_stored path m (stores ++ leaves (path ++ (i ∷ [])) c)
        ∙ continued m stores (leaves (path ++ (i ∷ [])) c) (leaves_from path (suc i) cs)
            (omega arith)),
  )

  mutual
    unfolding as_global store_struct_field append_constant

    as_global-Agrees :
        (t : LlvmType) (raw : List ℕ) → IsPlain dl t raw → IsPacked dl t → Agrees t raw
    as_global-Agrees (struct_ty ts) raw is packed =
        let (cs, built, stored) =
          fields_as_global-FieldsAgree ts (dl.element_offset ts) 0 0 raw is packed in
        (
          aggregate (struct_ty ts) cs,
          rw built refl,
          λ path m stores.
              stored path m stores ∙ counted (m, stores ++ leaves_from path 0 cs) (omega arith),
        )
    as_global-Agrees (array_ty n t) raw is (alloc, packed) = array_ty-Agrees t raw n alloc (
        elements_as_global-ElementsAgree t raw n 0 0 (omega arith) (λ j lt.
          as_global-Agrees t (drop (j * packed_size dl t) raw) (rw alloc at (is j (omega arith)))
            packed))
    as_global-Agrees (int_ty w) raw (n, size, width, le) packed =
        int_ty-AgreeScalars w n raw size width le
    as_global-Agrees float_ty raw is packed = (double_ty-AgreeScalars raw).0 is
    as_global-Agrees double_ty raw is packed = (double_ty-AgreeScalars raw).1 is
    as_global-Agrees (other_ty k) raw is packed = other_ty-AgreeScalars k raw is
    as_global-Agrees void_ty raw is packed = elim is [ ]
    as_global-Agrees (other_fp_ty k) raw is packed = elim is [ ]
    as_global-Agrees (pointer_ty t) raw is packed = elim is [ ]
    as_global-Agrees (function_ty ts) raw is packed = elim is [ ]

    fields_as_global-FieldsAgree :
        (ts : LlvmTypes) (offset : ℕ → ℕ) (i start : ℕ) (raw : List ℕ)
        → ArePlain dl ts offset i raw
        → ArePacked dl ts offset i start
        → FieldsAgree ts offset i start raw
    fields_as_global-FieldsAgree nil offset i start raw is packed =
        (no_more, refl, λ path m stores. rw (append-nil stores) (counted (m, stores) (omega arith)))
    fields_as_global-FieldsAgree (cons t ts) offset i start raw (is, all)
          (begins, packed, all_packed) =
        cons-FieldsAgree t ts offset i start raw begins
          (as_global-Agrees t (drop (offset i) raw) is packed)
          (fields_as_global-FieldsAgree ts offset (suc i) (start + packed_size dl t) raw all
            all_packed)

-- Take the bytes of a struct, or of another value, under the conditions of `get_global_struct-Holds`, where in
-- every struct each element starts where the elements before it end, and in every array the elements are as
-- far apart as they have bytes. Then `GetStructAlloc` returns and links nothing, and what it stores to the
-- new variable are the elements of the constant that `GetGlobalStruct` makes of the bytes, one by one in
-- their order, each at its indices.
pub get_struct_alloc-get_global_struct :
    {D : Type 0} (dl : DataLayout)
    (link : ℕ → LlvmType → IrModule → Result Fault (IrModule × Option (Constant D))) (t : LlvmType)
    (raw : List ℕ) (m : IrModule)
    → IsPlain dl t raw
    → IsPacked dl t
    → (c : Constant D) × (get_global_struct dl link t raw m ≡ ok (m, some c))
      × (get_struct_alloc dl link t raw m ≡ ok (m, leaves (0 ∷ []) c))
unfolding get_global_struct get_struct_alloc
get_struct_alloc-get_global_struct dl link t raw m is packed =
    let (c, built, stored) = as_global-Agrees dl link [] t raw is packed in
    (c, rw (prepare_plain dl link t raw (m, []) is) (rw built refl), rw (stored (0 ∷ []) m []) refl)
