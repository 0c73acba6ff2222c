-- ===== src/Tests/Passes.antt =====
-- The theorems on the passes for constant calls at concrete inputs: the call of `int f(char*)` through a cast to a
-- function that takes an `int*`, a virtual call, and a call of a constant address.
use easy_just_in_time.Prelude.{
  ℕ, ◌≡◌, refl, true, false, none, some, List, [], ◌∷◌, ok, ◌==◌, if◌then◌else◌, arith,
}
use easy_just_in_time.Llvm.{int_ty, pointer_ty, other_ty}
use easy_just_in_time.Devirtualize.{
  call_inst, pointer_cast_expr, function_constant, other_value, FunctionType, IrValue, kind_at,
}
use easy_just_in_time.Devirtualize.Recast.{cast_call_with_pointer_casts, recast_call}
use easy_just_in_time.Devirtualize.Typed.{same_type_refl, HaveTypes, recast_call-HaveTypes}

abbrev takes_bytes : FunctionType
takes_bytes = record {
  return_type = int_ty 32;
  params = pointer_ty (int_ty 8) ∷ [];
  var_arg = false;
}

abbrev takes_ints : FunctionType
takes_ints = record takes_bytes { params = pointer_ty (int_ty 32) ∷ [] }

-- The function, the cast, the argument, and the call.
abbrev cast_table : List IrValue
cast_table =
    record {
      kind = function_constant "f";
      ty = other_ty 0;
      function_type = some takes_bytes;
      users = 1 ∷ [];
    }
    ∷ record {
      kind = pointer_cast_expr 0;
      ty = other_ty 1;
      function_type = some takes_ints;
      users = 3 ∷ [];
    }
    ∷ record {
      kind = other_value;
      ty = pointer_ty (int_ty 32);
      function_type = none;
      users = 3 ∷ [];
    }
    ∷ record { kind = call_inst 1 (2 ∷ []); ty = int_ty 32; function_type = none; users = [] }
    ∷ []

abbrev strip_cast : List IrValue → ℕ → ℕ
strip_cast table v = if v == 1 then 0 else v

cast_is_castable : cast_call_with_pointer_casts takes_ints takes_bytes ≡ true
unfolding cast_call_with_pointer_casts
cast_is_castable = ground (arith, same_type_refl (int_ty 32))

recast_call-HaveTypes_example :
    (later : List IrValue) × (recast : List ℕ) × (recast_call strip_cast 3 cast_table ≡ ok later)
    × (kind_at later 3 ≡ call_inst 0 recast)
    × HaveTypes later recast (pointer_ty (int_ty 8) ∷ [])
recast_call-HaveTypes_example =
    recast_call-HaveTypes strip_cast 3 1 (2 ∷ []) cast_table takes_ints takes_bytes refl
      (λ e. omega arith) refl refl
      (
        record {
          value = record {
            kind = other_value;
            ty = pointer_ty (int_ty 32);
            function_type = none;
            users = 3 ∷ [];
          };
          there = refl;
          typed = refl;
        },
        tt,
      )
      cast_is_castable
