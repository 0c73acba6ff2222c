-- ===== src/Tests/Structs.antt =====
-- The stores of `GetStructAlloc` for a packed and for a padded struct.
use easy_just_in_time.Prelude.{
  ℕ, zero, suc, ◌*◌, ◌<◌, ◌≡◌, refl, inl, inr, List, [], ◌∷◌, some, ok, arith,
}
use easy_just_in_time.Llvm.{int_ty}
use easy_just_in_time.Inline.Constants.{
  Constant, int_const, DataLayout, get_constant_from_raw, read_bytes, from_bytes,
}
use easy_just_in_time.Inline.Structs.{drop, get_global_struct}
use easy_just_in_time.Inline.Structs.Memory.{IsPlain}
use easy_just_in_time.Inline.Structs.Stored.{
  get_struct_alloc, store_struct_field, store_elements, store_scalar,
}
use easy_just_in_time.Inline.Structs.Stored.Packed.{leaves, get_struct_alloc-get_global_struct}
use easy_just_in_time.Tests.Behaviour.{padded_layout, padded_struct, padded_bytes, never_linked}
use easy_just_in_time.Tests.Compiled.{plain_module}

-- `struct { int8_t a; int16_t b[2]; } __attribute__((packed))`
abbrev packed_layout : DataLayout
packed_layout = record padded_layout {
  element_offset = λ ts i. elim i [ zero ↦ 0 | suc (k → _) ↦ 1 ];
}

abbrev packed_bytes : List ℕ
packed_bytes = 7 ∷ 1 ∷ 2 ∷ 3 ∷ 0 ∷ []

packed_elements :
    (i : ℕ) → i < 2 → IsPlain packed_layout (int_ty 16) (drop (i * 2) (1 ∷ 2 ∷ 3 ∷ 0 ∷ []))
packed_elements zero lt = (2, inr (inl refl), refl, omega arith)
packed_elements (suc zero) lt = (2, inr (inl refl), refl, omega arith)
packed_elements (suc (suc i)) lt = absurd (omega arith)

get_struct_alloc-get_global_struct_example :
    (c : Constant ℕ) × (get_global_struct packed_layout never_linked padded_struct packed_bytes
        plain_module
      ≡ ok (plain_module, some c))
    × (get_struct_alloc packed_layout never_linked padded_struct packed_bytes plain_module
        ≡ ok (plain_module, leaves (0 ∷ []) c))
get_struct_alloc-get_global_struct_example =
    get_struct_alloc-get_global_struct packed_layout never_linked padded_struct packed_bytes
      plain_module ((1, inl refl, refl, omega arith), (packed_elements, tt))
      (refl, tt, (refl, (refl, tt), tt))

-- In the padded struct, the padding is read as the first byte of the array.
padded_test :
    get_struct_alloc padded_layout never_linked padded_struct padded_bytes plain_module
    ≡ ok (
      plain_module,
      (0 ∷ 0 ∷ [], int_const 8 7)
          ∷ (0 ∷ 1 ∷ 0 ∷ [], int_const 16 256)
          ∷ (0 ∷ 1 ∷ 1 ∷ [], int_const 16 770)
          ∷ [],
    )
unfolding get_struct_alloc store_struct_field store_elements store_scalar get_constant_from_raw
    read_bytes from_bytes
padded_test = refl
