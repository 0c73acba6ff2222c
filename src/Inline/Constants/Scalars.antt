-- ===== src/Inline/Constants/Scalars.antt =====
-- Integers as constants of the wrapper: bound ones (include/easy/param.h and `GetScalarArgument`), and those
-- in the bytes of a struct (`GetConstantFromRaw`).
use native.Mathlib.Nat.{add-mul-mod_self_right, mod-mod, pow-suc, div-add-mod}
use easy_just_in_time.Prelude.{
  ℕ, zero, suc, ◌⊎◌, inl, inr, ◌+◌, ◌-◌, ◌*◌, ◌^◌, ◌%◌, ◌/◌, ◌≤◌, ◌<◌, ◌≡◌, refl, ap, ◌∙◌, Bool,
  List, [], ◌∷◌, ◌++◌, some, ok, ◌==◌, if◌then◌else◌, arith,
}
use easy_just_in_time.Meta.{boolean, integral}
use easy_just_in_time.Context.{Context, Argument, int_argument, set_arg, set_parameter_int}
use easy_just_in_time.Params.{Conversions, int_value, plain, convert_int, set_param}
use easy_just_in_time.Llvm.{LlvmType, int_ty}
use easy_just_in_time.Inline.Constants.{
  int_const, DataLayout, get_scalar_argument, read_bytes, from_bytes, get_constant_from_raw,
  read_number,
}
use easy_just_in_time.Inline.Structs.{drop}
use easy_just_in_time.Inline.Args.{Operand, constant, fields_from_raw}

pow_split : (w d : ℕ) → (q : ℕ) × (2 ^ (w + d) ≡ suc q * 2 ^ w)
pow_split w zero =
    let e : 2 ^ (w + 0) ≡ 2 ^ w = ap (λ k. 2 ^ k) {x = w + 0} {y = w} (omega arith) in
    (0, omega (arith, e))
pow_split w (suc d) =
    let (q, e) = pow_split w d in
    let step : 2 ^ (w + suc d) ≡ 2 ^ (w + d) * 2 =
      ap (λ k. 2 ^ k) {x = w + suc d} {y = suc (w + d)} (omega arith) ∙ pow-suc 2 (w + d) in
    (suc q + q, grind (arith, e, step))

low_bits : (low q m : ℕ) → (low + suc q * m - m) % m ≡ low % m
low_bits low q m =
    let e : low + suc q * m - m ≡ low + q * m = grind arith in rw e (add-mul-mod_self_right low q m)

-- Extended to 64 bits, a number keeps its low bits.
pub convert_int-low :
    (w : ℕ) (signed : Bool) (n : ℕ) → w ≤ 64 → convert_int w signed n % 2 ^ w ≡ n % 2 ^ w
unfolding convert_int
convert_int-low w signed n le =
    let (q, e) = pow_split w (64 - w) in
    let split : 2 ^ 64 ≡ suc q * 2 ^ w =
      ap (λ k. 2 ^ k) {x = 64} {y = w + (64 - w)} (omega (arith, le)) ∙ e in
    let high : (n % 2 ^ w + 2 ^ 64 - 2 ^ w) % 2 ^ w ≡ n % 2 ^ w =
      ap (λ k. (n % 2 ^ w + k - 2 ^ w) % 2 ^ w) split
      ∙ low_bits (n % 2 ^ w) q (2 ^ w)
      ∙ mod-mod n (2 ^ w) in
    let low = mod-mod n (2 ^ w) in ground (arith, high, low)

-- `n` bytes of a number, the lowest first.
abbrev pub to_bytes : ℕ → ℕ → List ℕ
to_bytes zero v = []
to_bytes (suc n) v = v % 256 ∷ to_bytes n (v / 256)

from_bytes-to_bytes : (n v : ℕ) → v < 256 ^ n → from_bytes (to_bytes n v) ≡ v
unfolding from_bytes
from_bytes-to_bytes zero v lt = omega arith
from_bytes-to_bytes (suc n) v lt =
    let e : from_bytes (to_bytes n (v / 256)) ≡ v / 256 =
      from_bytes-to_bytes n (v / 256) (omega (arith, lt, pow-suc 256 n, div-add-mod v 256)) in
    rw e (omega (arith, div-add-mod v 256))

read_bytes-to_bytes :
    (n v : ℕ) (rest : List ℕ) → read_bytes n (to_bytes n v ++ rest) ≡ ok (to_bytes n v)
unfolding read_bytes
read_bytes-to_bytes zero v rest = refl
read_bytes-to_bytes (suc n) v rest = rw (read_bytes-to_bytes n (v / 256) rest) refl

-- A byte, two, four or eight.
abbrev pub IsSize : ℕ → Type 0
IsSize n = (n ≡ 1) ⊎ (n ≡ 2) ⊎ (n ≡ 4) ⊎ (n ≡ 8)

module _ {D : Type 0} where
  pub get_constant_from_raw_int :
      (dl : DataLayout) (n : ℕ) (raw : List ℕ)
      → IsSize n
      → get_constant_from_raw {D = D} dl (int_ty (8 * n)) raw
        ≡ read_number (int_const (8 * n)) n raw
  unfolding get_constant_from_raw
  get_constant_from_raw_int dl n raw (inl e) = rw e refl
  get_constant_from_raw_int dl n raw (inr (inl e)) = rw e refl
  get_constant_from_raw_int dl n raw (inr (inr (inl e))) = rw e refl
  get_constant_from_raw_int dl n raw (inr (inr (inr e))) = rw e refl

  get_constant_from_raw-to_bytes :
      (dl : DataLayout) (n v : ℕ) (rest : List ℕ)
      → IsSize n
      → v < 256 ^ n
      → get_constant_from_raw {D = D} dl (int_ty (8 * n)) (to_bytes n v ++ rest)
        ≡ ok (some (int_const (8 * n) v), n)
  get_constant_from_raw-to_bytes dl n v rest size lt =
      get_constant_from_raw_int dl n (to_bytes n v ++ rest) size
      ∙ rw (read_bytes-to_bytes n v rest, from_bytes-to_bytes n v lt) refl

drop-to_bytes : (n v : ℕ) (rest : List ℕ) → drop n (to_bytes n v ++ rest) ≡ rest
drop-to_bytes zero v rest = refl
drop-to_bytes (suc n) v rest = drop-to_bytes n (v / 256) rest

-- Integers, each with its number of bytes: their types, their bytes one after the other, and their
-- constants.
abbrev pub AreFields : List (ℕ × ℕ) → Type 0
AreFields [] = Unit {0}
AreFields ((n, v) ∷ fields) = IsSize n × (v < 256 ^ n) × AreFields fields

abbrev pub field_types : List (ℕ × ℕ) → List LlvmType
field_types [] = []
field_types ((n, v) ∷ fields) = int_ty (8 * n) ∷ field_types fields

abbrev pub field_bytes : List (ℕ × ℕ) → List ℕ
field_bytes [] = []
field_bytes ((n, v) ∷ fields) = to_bytes n v ++ field_bytes fields

abbrev pub field_constants : {D : Type 0} → List (ℕ × ℕ) → List (Operand D)
field_constants [] = []
field_constants ((n, v) ∷ fields) = constant (some (int_const (8 * n) v)) ∷ field_constants fields

-- A struct that is passed by value as integers of 1, 2, 4 or 8 bytes becomes, field by field, constants
-- of the numbers that its bytes hold, if the fields lie in the bytes without padding.
pub fields_from_raw-field_bytes :
    {D : Type 0} (dl : DataLayout) (fields : List (ℕ × ℕ))
    → AreFields fields
    → fields_from_raw {D = D} dl (field_types fields) (field_bytes fields)
      ≡ ok (field_constants fields)
unfolding fields_from_raw
fields_from_raw-field_bytes dl [] are = refl
fields_from_raw-field_bytes {D = D} dl ((n, v) ∷ fields) (size, lt, are) =
    rw (get_constant_from_raw-to_bytes dl n v (field_bytes fields) size lt) (
      rw (drop-to_bytes n v (field_bytes fields)) (
        let rest = fields_from_raw-field_bytes {D = D} dl fields are in
        rw (fields_from_raw, rest) refl))

-- The arguments that the parameters' types make of integers.
module _ {D : Type 0} ⦃conv : Conversions D⦄ where
  -- An integer argument of an integral parameter of up to 64 bits is bound to an argument whose constant, at
  -- the integer type of that width, holds the integer's low bits, whatever the signs of the types are.
  -- For a `bool` parameter it is 0 or 1.
  pub get_scalar_argument-set_param :
      (w : ℕ) (signed from_signed : Bool) (n a : ℕ) (b : List ℕ) (c : Context D)
      → w ≤ 64
      → ((x : Argument D) × (set_param (integral w signed) (plain (int_value from_signed n) a b) c
            ≡ ok (set_arg x c))
          × (get_scalar_argument x (int_ty w) ≡ ok (some (int_const w (n % 2 ^ w)))))
        × ((x : Argument D) × (set_param boolean (plain (int_value from_signed n) a b) c
              ≡ ok (set_arg x c))
            × (get_scalar_argument x (int_ty 1)
                ≡ ok (some (int_const 1 (if n == 0 then 0 else 1)))))
  unfolding set_param set_parameter_int get_scalar_argument
  get_scalar_argument-set_param w signed from_signed n a b c le = (
    (int_argument (convert_int w signed n), refl, rw (convert_int-low w signed n le) refl),
    (int_argument (if n == 0 then 0 else 1), refl, ground arith),
  )
