-- ===== src/Params/Bound.antt =====
-- The context that the arguments of `easy::jit` give: one entry for each parameter, in order.
use mathlib.Core.List.{append-nil, append_assoc}
use easy_just_in_time.Prelude.{
  ℕ, suc, ◌-◌, ◌^◌, ◌%◌, ◌≡◌, refl, sym, ◌∙◌, List, [], ◌∷◌, ◌++◌, Result, ok, err, ◌>>=◌, ◌>>◌,
  guard, guard-eq-ok, >>=-eq-ok, length, leb, arith,
}
use easy_just_in_time.Meta.{
  CppType, void_type, boolean, integral, floating, pointer, reference, class_type,
}
use easy_just_in_time.Context.{
  Argument, forward_argument, int_argument, float_argument, ptr_argument, struct_argument,
  module_argument, Context, RawBytes, new_context, set_arg, set_parameter_index, set_parameter_int,
  set_parameter_float, set_parameter_pointer, set_parameter_struct, set_parameter_module,
  set_raw_bytes,
}
use easy_just_in_time.Params.{
  Conversions, Value, object_value, Arg, placeholder_arg, wrapper_arg, option_arg, plain, opt_level,
  dump_ir, BindError, no_overload, incompatible_composition, not_enough_arguments,
  specialization_is_possible, as_bool, as_integral, as_floating, as_pointer, set_param_plain,
  set_param, handle, set_options, set_parameters, get_context_for_raw,
}

module _ {D : Type 0} ⦃conv : Conversions D⦄ where
  -- What a parameter of a type is bound to by a plain argument, and by any.
  abbrev pub plain_argument : CppType → Value D → ℕ → List ℕ → Result BindError (Argument D)
  plain_argument boolean v a b = as_bool v >>= λ n. ok (int_argument n)
  plain_argument (integral w s) v a b = as_integral w s v >>= λ n. ok (int_argument n)
  plain_argument (floating w) v a b = as_floating w v >>= λ d. ok (float_argument d)
  plain_argument (pointer t) v a b = as_pointer v >>= λ p. ok (ptr_argument p)
  plain_argument (reference t) v a b = ok (ptr_argument a)
  plain_argument (class_type t) v a b = ok (struct_argument b)
  plain_argument void_type v a b = err no_overload

  abbrev pub bound_argument : CppType → Arg D → Result BindError (Argument D)
  bound_argument p (placeholder_arg k) = ok (forward_argument (k % 2 ^ 32))
  bound_argument p (wrapper_arg t f) =
      guard (specialization_is_possible p t) incompatible_composition >> ok (module_argument f)
  bound_argument p (option_arg o a b) = plain_argument p object_value a b
  bound_argument p (plain v a b) = plain_argument p v a b

  -- The entries are what the parameters are bound to, and the arguments that are left are options.
  abbrev pub Bound : List CppType → List (Arg D) → List (Argument D) → Type 0
  Bound [] (option_arg o a b ∷ opts) xs = Bound [] opts xs
  Bound [] [] [] = Unit
  Bound (p ∷ ps) (a ∷ args) (x ∷ xs) = (bound_argument p a ≡ ok x) × Bound ps args xs
  Bound _ _ _ = ⊥

  set_param_plain-bound :
      (p : CppType) (v : Value D) (a : ℕ) (b : List ℕ) (c : Context D)
      → set_param_plain p v a b c ≡ (plain_argument p v a b >>= λ x. ok (set_arg x c))
  unfolding set_param_plain set_parameter_int set_parameter_float set_parameter_pointer
      set_parameter_struct
  set_param_plain-bound boolean v a b c = ground arith
  set_param_plain-bound p v a b c = ground arith

  set_param-bound :
      (p : CppType) (a : Arg D) (c : Context D)
      → set_param p a c ≡ (bound_argument p a >>= λ x. ok (set_arg x c))
  unfolding set_param set_parameter_index set_parameter_module
  set_param-bound p (placeholder_arg k) c = let e : suc k - 1 ≡ k = omega arith in rw e
  set_param-bound p (wrapper_arg t f) c = ground arith
  set_param-bound p (option_arg o a b) c = set_param_plain-bound p object_value a b c
  set_param-bound p (plain v a b) c = set_param_plain-bound p v a b c

  -- What no argument and no option changes.
  abbrev KeepsRest : Context D → Context D → Type 0
  KeepsRest c c' = (c'.raw_bytes ≡ c.raw_bytes) × (c'.argument_layout ≡ c.argument_layout)

  abbrev Extends : List CppType → List (Arg D) → Context D → Context D → Type 0
  Extends ps args c c' =
      (xs : List (Argument D)) × (c'.argument_mapping ≡ c.argument_mapping ++ xs)
      × Bound ps args xs
      × KeepsRest c c'

  set_options-Extends :
      (opts : List (Arg D)) (c : Context D) {c' : Context D}
      → set_options opts c ≡ ok c'
      → Extends [] opts c c'
  unfolding set_options handle
  set_options-Extends [] c {c'} h =
      let e : c ≡ c' = cc h in rw (← e) ([], sym (append-nil c.argument_mapping), tt, (refl, refl))
  set_options-Extends (option_arg (opt_level m n) a b ∷ opts) c h =
      set_options-Extends opts (handle (opt_level m n) c) h
  set_options-Extends (option_arg (dump_ir f) a b ∷ opts) c h =
      set_options-Extends opts (handle (dump_ir f) c) h
  set_options-Extends (placeholder_arg k ∷ opts) c h = cc
  set_options-Extends (wrapper_arg t f ∷ opts) c h = cc
  set_options-Extends (plain v a b ∷ opts) c h = cc

  set_param-step :
      (p : CppType) (a : Arg D) (c : Context D) (ps : List CppType) (args : List (Arg D))
      {c' : Context D}
      → (set_param p a c >>= set_parameters ps args) ≡ ok c'
      → (x : Argument D) × (bound_argument p a ≡ ok x)
        × (set_parameters ps args (set_arg x c) ≡ ok c')
  set_param-step p a c ps args h =
      let (c1, e1, h1) = >>=-eq-ok (set_param p a c) (set_parameters ps args) h in
      let (x, bound, e2) =
        >>=-eq-ok (bound_argument p a) (λ x. ok (set_arg x c)) (sym (set_param-bound p a c) ∙ e1) in
      let e3 : set_arg x c ≡ c1 = cc e2 in (x, bound, rw (← e3) at h1)

  set_parameters-Extends :
      (ps : List CppType) (args : List (Arg D)) (c : Context D) {c' : Context D}
      → set_parameters ps args c ≡ ok c'
      → Extends ps args c c'
  unfolding set_parameters set_arg
  set_parameters-Extends [] opts c h = set_options-Extends opts c h
  set_parameters-Extends (p ∷ ps) [] c h = cc
  set_parameters-Extends (p ∷ ps) (a ∷ args) c {c'} h =
      let (x, bound, h1) = set_param-step p a c ps args h in
      let (xs, mapping, rest, kept) = set_parameters-Extends ps args (set_arg x c) h1 in
      (x ∷ xs, mapping ∙ append_assoc c.argument_mapping (x ∷ []) xs, (bound, rest), kept)

  -- The context of a call of `easy::jit` binds each parameter, in order, to what its argument becomes;
  -- all further arguments are options; and it holds the raw bytes that were given.
  pub get_context_for_raw-Bound :
      (raw : RawBytes) (params : List CppType) (args : List (Arg D)) {c : Context D}
      → get_context_for_raw raw params args ≡ ok c
      → Bound params args c.argument_mapping × (c.raw_bytes ≡ raw) × (c.argument_layout ≡ [])
  unfolding get_context_for_raw set_raw_bytes
  get_context_for_raw-Bound raw params args h =
      let start : Context D = set_raw_bytes raw new_context in
      let (_, h1) =
        guard-eq-ok (leb (length params) (length args)) not_enough_arguments
          (set_parameters params args start) h in
      let (xs, mapping, bound, kept) = set_parameters-Extends params args start h1 in
      (rw mapping bound, kept.0, kept.1)
