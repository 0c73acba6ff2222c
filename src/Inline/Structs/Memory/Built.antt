-- ===== src/Inline/Structs/Memory/Built.antt =====
-- The two walks over a struct of `GetGlobalStruct`, and what they leave.
use native.Mathlib.Nat.{mul_comm}
use easy_just_in_time.Prelude.{
  ℕ, zero, suc, ◌+◌, ◌*◌, ◌/◌, ◌≤◌, ◌<◌, ◌≡◌, refl, ap, List, [], ◌∷◌, Option, some, Result, ok,
  >>=-eq-ok, length, take, arith,
}
use easy_just_in_time.Llvm.{
  LlvmType, LlvmTypes, void_ty, float_ty, double_ty, int_ty, pointer_ty, function_ty, struct_ty,
  array_ty, other_fp_ty, other_ty, nil, cons, IrModule,
}
use easy_just_in_time.Inline.{Fault}
use easy_just_in_time.Inline.Constants.{
  Constant, Constants, int_const, fp_bits, bytes_const, aggregate, no_more, field, DataLayout,
  read_bytes, quieted, from_bytes, get_constant_from_raw,
}
use easy_just_in_time.Inline.Constants.Scalars.{IsSize, get_constant_from_raw_int}
use easy_just_in_time.Inline.Structs.{
  drop, Funcs, Linking, prepare, prepare_fields, prepare_elements, prepare_scalar, append_constant,
  elements_as_global, scalar_as_global, as_global, fields_as_global, get_global_struct,
}
use easy_just_in_time.Inline.Structs.Memory.{
  IsPlain, ArePlain, Holds, HoldAll, HasType, HaveTypes, AllHaveType,
}

-- As many bytes as are there can be read, and they are the first ones.
pub read_bytes-take :
    (n : ℕ) (raw : List ℕ)
    → n ≤ length raw
    → (read_bytes n raw ≡ ok (take n raw)) × (length (take n raw) ≡ n)
unfolding read_bytes
read_bytes-take zero raw le = (refl, refl)
read_bytes-take (suc n) [] le = absurd (omega arith)
read_bytes-take (suc n) (b ∷ raw) le =
    let (read, len) = read_bytes-take n raw (omega arith) in (rw read refl, ap suc len)

module _ {D : Type 0} (dl : DataLayout) (funcs : Funcs D) where
  -- The constant that a walk builds is of the type and is what the bytes hold.
  abbrev pub Builds : LlvmType → List ℕ → Result Fault (Option (Constant D)) → Type 0
  Builds t raw r = (c : Constant D) × (r ≡ ok (some c)) × HasType dl c t × Holds dl c raw

  abbrev BuildsAll : LlvmTypes → (ℕ → ℕ) → ℕ → List ℕ → Type 0
  BuildsAll ts offset i raw =
      (cs : Constants D) × (fields_as_global dl funcs ts offset i raw ≡ ok cs)
      × HaveTypes dl cs ts
      × HoldAll dl cs offset i raw

  int_as_global :
      (n : ℕ) (raw : List ℕ)
      → IsSize n
      → n ≤ length raw
      → Builds (int_ty (8 * n)) raw (scalar_as_global dl funcs (int_ty (8 * n)) raw)
  unfolding scalar_as_global
  int_as_global n raw size le =
      let (read, len) = read_bytes-take n raw le in
      let bits : 8 * n / 8 ≡ n = omega arith in
      (
        int_const (8 * n) (from_bytes (take n raw)),
        rw (get_constant_from_raw_int dl n raw size, read) refl,
        refl,
        (rw bits le, rw bits refl),
      )

  as_global-other :
      (k : ℕ) (raw : List ℕ)
      → dl.type_store_size (other_ty k) ≤ length raw
      → Builds (other_ty k) raw (scalar_as_global dl funcs (other_ty k) raw)
  unfolding scalar_as_global get_constant_from_raw
  as_global-other k raw le =
      let (read, len) = read_bytes-take (dl.type_store_size (other_ty k)) raw le in
      (
        bytes_const (other_ty k) (take (dl.type_store_size (other_ty k)) raw),
        rw read refl,
        (refl, len),
        rw len refl,
      )

  fp_as_global :
      (raw : List ℕ)
      → (4 ≤ length raw → Builds float_ty raw (scalar_as_global dl funcs float_ty raw))
        × (8 ≤ length raw → Builds double_ty raw (scalar_as_global dl funcs double_ty raw))
  unfolding scalar_as_global get_constant_from_raw
  fp_as_global raw = (
    (λ le. (
      fp_bits 32 (quieted (from_bytes (take 4 raw))),
      rw (read_bytes-take 4 raw le).0 refl,
      refl,
      (le, refl),
    )),
    λ le. (
      fp_bits 64 (from_bytes (take 8 raw)),
      rw (read_bytes-take 8 raw le).0 refl,
      refl,
      (le, refl),
    ),
  )

  -- An array, from the element `i` on, if each element is built.
  elements_as_global-AllHaveType :
      (t : LlvmType) (raw : List ℕ) (offset : ℕ → ℕ)
      (element : ℕ → Result Fault (Option (Constant D))) (n i : ℕ)
      → ((j : ℕ) → i ≤ j → j < i + n → Builds t (drop (offset j) raw) (element j))
      → (cs : Constants D) × (elements_as_global dl funcs n i element ≡ ok cs)
        × AllHaveType dl cs n t
        × HoldAll dl cs offset i raw
  unfolding elements_as_global append_constant
  elements_as_global-AllHaveType t raw offset element zero i built = (no_more, refl, tt, tt)
  elements_as_global-AllHaveType t raw offset element (suc n) i built =
      let (c, here, typed, held) = built i (omega arith) (omega arith) in
      let (cs, rest, all_typed, all_held) =
        elements_as_global-AllHaveType t raw offset element n (suc i)
          (λ j le lt. built j (omega arith) (omega arith)) in
      (field c cs, rw (here, rest) refl, (typed, all_typed), (held, all_held))

  fields_step :
      (t : LlvmType) (ts : LlvmTypes) (offset : ℕ → ℕ) (i : ℕ) (raw : List ℕ)
      → Builds t (drop (offset i) raw) (as_global dl funcs t (drop (offset i) raw))
      → BuildsAll ts offset (suc i) raw
      → BuildsAll (cons t ts) offset i raw
  unfolding as_global append_constant
  fields_step t ts offset i raw (c, here, typed, held) (cs, rest, all_typed, all_held) =
      (field c cs, rw (here, rest) refl, (typed, all_typed), (held, all_held))

  as_global-int :
      (w n : ℕ) (raw : List ℕ)
      → IsSize n
      → w ≡ 8 * n
      → n ≤ length raw
      → Builds (int_ty w) raw (scalar_as_global dl funcs (int_ty w) raw)
  as_global-int w n raw size width le = rw width (int_as_global n raw size le)

  mutual
    unfolding as_global

    as_global-Builds :
        (t : LlvmType) (raw : List ℕ) → IsPlain dl t raw → Builds t raw (as_global dl funcs t raw)
    as_global-Builds (struct_ty ts) raw is =
        let (cs, built, typed, held) =
          fields_as_global-BuildsAll ts (dl.element_offset ts) 0 raw is in
        (aggregate (struct_ty ts) cs, rw built refl, (refl, typed), held)
    as_global-Builds (array_ty n t) raw is =
        let (cs, built, typed, held) =
          elements_as_global-AllHaveType t raw (λ i. i * dl.type_alloc_size t)
            (λ i. as_global dl funcs t (drop (i * dl.type_alloc_size t) raw)) n 0
            (λ j le lt.
              as_global-Builds t (drop (j * dl.type_alloc_size t) raw) (is j (omega arith))) in
        (aggregate (array_ty n t) cs, rw built refl, (refl, typed), held)
    as_global-Builds (int_ty w) raw (n, size, width, le) = as_global-int w n raw size width le
    as_global-Builds float_ty raw is = (fp_as_global raw).0 is
    as_global-Builds double_ty raw is = (fp_as_global raw).1 is
    as_global-Builds (other_ty k) raw is = as_global-other k raw is
    as_global-Builds void_ty raw is = elim is [ ]
    as_global-Builds (other_fp_ty k) raw is = elim is [ ]
    as_global-Builds (pointer_ty t) raw is = elim is [ ]
    as_global-Builds (function_ty ts) raw is = elim is [ ]

    fields_as_global-BuildsAll :
        (ts : LlvmTypes) (offset : ℕ → ℕ) (i : ℕ) (raw : List ℕ)
        → ArePlain dl ts offset i raw
        → BuildsAll ts offset i raw
    fields_as_global-BuildsAll nil offset i raw is = (no_more, refl, tt, tt)
    fields_as_global-BuildsAll (cons t ts) offset i raw is =
        fields_step t ts offset i raw (as_global-Builds t (drop (offset i) raw) is.0)
          (fields_as_global-BuildsAll ts offset (suc i) raw is.1)

module _ {D : Type 0} (dl : DataLayout)
    (link : ℕ → LlvmType → IrModule → Result Fault (IrModule × Option (Constant D))) where
  elements_unchanged :
      (n i : ℕ) (element : ℕ → Linking dl link → Result Fault (Linking dl link))
      (s : Linking dl link)
      → ((j : ℕ) → i ≤ j → j < i + n → element j s ≡ ok s)
      → prepare_elements dl link n i element s ≡ ok s
  unfolding prepare_elements
  elements_unchanged zero i element s each = refl
  elements_unchanged (suc n) i element s each =
      rw (each i (omega arith) (omega arith))
        (elements_unchanged n (suc i) element s (λ j le lt. each j (omega arith) (omega arith)))

  -- What can be built can be read.
  prepare_scalar_lem :
      (t : LlvmType) (raw : List ℕ) (s : Linking dl link)
      → Builds {D = D} dl [] t raw (scalar_as_global dl [] t raw)
      → prepare_scalar dl link t raw s ≡ ok s
  unfolding prepare_scalar scalar_as_global
  prepare_scalar_lem t raw s (c, built, typed, held) =
      let (read, e, rest) = >>=-eq-ok (get_constant_from_raw {D = D} dl t raw) _ built in rw e refl

  -- Without function pointers, nothing is linked.
  mutual
    unfolding prepare as_global

    pub prepare_plain :
        (t : LlvmType) (raw : List ℕ) (s : Linking dl link)
        → IsPlain dl t raw
        → prepare dl link t raw s ≡ ok s
    prepare_plain (struct_ty ts) raw s is =
        prepare_plain_fields ts (dl.element_offset ts) 0 raw s is
    prepare_plain (array_ty n t) raw s is =
        elements_unchanged n 0 (λ i. prepare dl link t (drop (dl.type_alloc_size t * i) raw)) s
          (λ j le lt.
            rw (mul_comm (dl.type_alloc_size t) j)
              (prepare_plain t (drop (j * dl.type_alloc_size t) raw) s (is j (omega arith))))
    prepare_plain (int_ty w) raw s is =
        prepare_scalar_lem (int_ty w) raw s (as_global-Builds dl [] (int_ty w) raw is)
    prepare_plain float_ty raw s is =
        prepare_scalar_lem float_ty raw s (as_global-Builds dl [] float_ty raw is)
    prepare_plain double_ty raw s is =
        prepare_scalar_lem double_ty raw s (as_global-Builds dl [] double_ty raw is)
    prepare_plain (other_ty k) raw s is =
        prepare_scalar_lem (other_ty k) raw s (as_global-Builds dl [] (other_ty k) raw is)
    prepare_plain void_ty raw s is = elim is [ ]
    prepare_plain (other_fp_ty k) raw s is = elim is [ ]
    prepare_plain (pointer_ty t) raw s is = elim is [ ]
    prepare_plain (function_ty ts) raw s is = elim is [ ]

    prepare_plain_fields :
        (ts : LlvmTypes) (offset : ℕ → ℕ) (i : ℕ) (raw : List ℕ) (s : Linking dl link)
        → ArePlain dl ts offset i raw
        → prepare_fields dl link ts offset i raw s ≡ ok s
    prepare_plain_fields nil offset i raw s is = refl
    prepare_plain_fields (cons t ts) offset i raw s is =
        rw (prepare_plain t (drop (offset i) raw) s is.0)
          (prepare_plain_fields ts offset (suc i) raw s is.1)

  -- Take the bytes of a struct, or of another value, whose elements are numbers of 8, 16, 32 or 64 bits,
  -- numbers of type `float` and `double`, values that are neither numbers nor pointers, and structs and arrays
  -- of such; and let there be bytes enough at every offset. Then `GetGlobalStruct` returns and links nothing. The initializer
  -- of the new global has the type of the struct, down to its elements; and each number and value in it is
  -- what the bytes at its offset hold, where a signalling NaN of type `float` has become a quiet one.
  pub get_global_struct-Holds :
      (t : LlvmType) (raw : List ℕ) (m : IrModule)
      → IsPlain dl t raw
      → (c : Constant D) × (get_global_struct dl link t raw m ≡ ok (m, some c))
        × HasType dl c t
        × Holds dl c raw
  unfolding get_global_struct
  get_global_struct-Holds t raw m is =
      let (c, built, typed, held) = as_global-Builds dl [] t raw is in
      (c, rw (prepare_plain t raw (m, []) is) (rw built refl), typed, held)
