-- ===== src/Plugin/Tracer/Stored.antt =====
-- What the tracer is for: the functions that a program stores behind a pointer that it passes.
use easy_just_in_time.Prelude.{ℕ, ◌≡◌, refl, inl, inr, true, some, List, map}
use easy_just_in_time.Search.{◌∈◌}
use easy_just_in_time.Search.Members.{in_map}
use easy_just_in_time.Search.Reached.{Reach, here, step}
use easy_just_in_time.Plugin.{
  Value, value_at, alloca_inst, element_ptr_inst, bit_cast_inst, store_inst, function_value,
}
use easy_just_in_time.Plugin.Tracer.{
  stored, loaded, next, trace, count, trace_returns, may_alias_with_stored_values,
  may_alias_with_loaded_values,
}

-- A pointer into a local variable: its address, an element's address, or either of another type.
pub data PointsInto (values : List Value) (variable : ℕ) : ℕ → Type 0 where
  its_address : PointsInto values variable variable
  element :
      {p q pointer : ℕ} {indices : List ℕ}
      → PointsInto values variable p
      → q ∈ (value_at values p).users
      → (value_at values q).kind ≡ element_ptr_inst pointer indices
      → PointsInto values variable q
  cast :
      {p q operand : ℕ}
      → PointsInto values variable p
      → q ∈ (value_at values p).users
      → (value_at values q).kind ≡ bit_cast_inst operand
      → PointsInto values variable q

-- The users of a pointer are looked at.
abbrev PassesOn : List Value → ℕ → Type 0
PassesOn values p = next values (stored p) ≡ map stored (value_at values p).users

PassesOn-PointsInto :
    (values : List Value) {variable array_size p : ℕ}
    → (value_at values variable).kind ≡ alloca_inst array_size
    → PointsInto values variable p
    → PassesOn values p
unfolding next
PassesOn-PointsInto values e its_address = rw (e, next, may_alias_with_stored_values) refl
PassesOn-PointsInto values e (element i q eq) = rw (eq, next, may_alias_with_stored_values) refl
PassesOn-PointsInto values e (cast i q eq) = rw (eq, next, may_alias_with_stored_values) refl

reaches_users :
    (values : List Value) {variable array_size p u : ℕ}
    → (value_at values variable).kind ≡ alloca_inst array_size
    → PointsInto values variable p
    → Reach (next values) (loaded variable) (stored p)
    → u ∈ (value_at values p).users
    → Reach (next values) (loaded variable) (stored u)
reaches_users values {variable} {array_size} {p} {u} e i r m = step r (
    rw (PassesOn-PointsInto values e i)
      ((in_map stored (value_at values p).users (stored u)).1 (u, m, refl)))

reaches_pointers :
    (values : List Value) {variable array_size p : ℕ}
    → (value_at values variable).kind ≡ alloca_inst array_size
    → PointsInto values variable p
    → Reach (next values) (loaded variable) (stored p)
unfolding next
reaches_pointers values e its_address =
    step here (rw (e, next, may_alias_with_loaded_values) (inl refl))
reaches_pointers values e (element i m eq) =
    reaches_users values e i (reaches_pointers values e i) m
reaches_pointers values e (cast i m eq) = reaches_users values e i (reaches_pointers values e i) m

-- A function that is stored to a local variable, through any pointer into it, is counted when the address of the
-- variable is traced.
pub stored_functions_are_traced :
    (values : List Value) (variable array_size p s pointer f : ℕ) (instructions : List (List ℕ))
    (operands : List ℕ)
    → (value_at values variable).kind ≡ alloca_inst array_size
    → PointsInto values variable p
    → s ∈ (value_at values p).users
    → (value_at values s).kind ≡ store_inst f pointer
    → (value_at values f).kind ≡ function_value instructions operands
    → (os : List ℕ) × (trace values variable ≡ some os) × (count os f ≡ true)
unfolding next
stored_functions_are_traced values variable array_size p s pointer f instructions ops e i m is_store
      is_function =
    let (os, ends, iff) = trace_returns values variable in
    let at_store = reaches_users values e i (reaches_pointers values e i) m in
    (
      os,
      ends,
      (iff f).1 (
        inr (step at_store (rw (is_store, next, may_alias_with_stored_values) (inl refl))),
        rw is_function refl,
      ),
    )
