-- ===== src/Inline/Bind/Arguments.antt =====
-- `GetInlineArgs` of InlineParameters.cpp: what one argument and all of them become in the wrapper's call.
use easy_just_in_time.Prelude.{
  ℕ, suc, ◌^◌, ◌%◌, ◌≤◌, ◌<◌, ◌≡◌, refl, sym, ap, ◌∙◌, Bool, false, List, [], ◌∷◌, none, some, ok,
  get_elem?, map, ◌==◌, if◌then◌else◌, ltb, arith,
}
use easy_just_in_time.Meta.{
  CppType, void_type, boolean, integral, floating, pointer, reference, class_type,
}
use easy_just_in_time.Context.{
  Argument, forward_argument, int_argument, float_argument, ptr_argument,
}
use easy_just_in_time.Params.{
  Conversions, Value, int_value, fp_value, ptr_value, object_value, Arg, placeholder_arg,
  wrapper_arg, option_arg, plain, convert_int, as_bool, as_integral, as_floating, as_pointer,
}
use easy_just_in_time.Params.Bound.{Bound, bound_argument}
use easy_just_in_time.Tracker.{BitcodeTracker, has_global_mapping}
use easy_just_in_time.Llvm.{LlvmType, int_ty, IrModule, Bitcode}
use easy_just_in_time.Inline.{HighLevelArg, HighLevelLayout}
use easy_just_in_time.Inline.NewLayout.{Reads}
use easy_just_in_time.Inline.Constants.{
  Constant, int_const, fp_const, int_to_ptr, DataLayout, get_scalar_argument, get_int,
}
use easy_just_in_time.Inline.Constants.Scalars.{convert_int-low}
use easy_just_in_time.Inline.Link.{link_pointer_if_possible}
use easy_just_in_time.Inline.Args.{
  Operand, wrapper_param, constant, get_forward_args, inline_arg, inline_args,
}
use easy_just_in_time.Inline.Bind.{
  converted, bound_value, std_bind, operand_value, bound_to, IsScalar, AreScalars, no_more,
}

module _ {D : Type 0} ⦃conv : Conversions D⦄ (lower : CppType → LlvmType)
    (lower_integral : (w : ℕ) (s : Bool) → lower (integral w s) ≡ int_ty w)
    (lower_boolean : lower boolean ≡ int_ty 1) {V : Type 0} (value_of : Constant D → V)
    (xs : List V) (bc : Bitcode) (bt : BitcodeTracker) (dl : DataLayout) (functions : ℕ → IrModule)
    (fhll new : HighLevelLayout) (m : IrModule) where
  -- One argument becomes one operand, which stands for what `std::bind` passes.
  abbrev Passes : CppType → Arg D → Argument D → HighLevelArg → Type 0
  Passes p a x h =
      (op : Operand D) × (inline_arg bc bt dl functions x h fhll new m ≡ ok (m, op ∷ []))
      × (operand_value value_of xs op ≡ bound_value lower value_of xs p a)

  -- Each forwarded argument is the parameter of its index.
  abbrev pub Forwards : List (Argument D) → List HighLevelArg → Type 0
  Forwards as' hs =
      (i k : ℕ) (h : HighLevelArg)
      → get_elem? as' i ≡ some (forward_argument k)
      → get_elem? hs i ≡ some h
      → get_forward_args {D = D} h fhll new ≡ ok (wrapper_param k ∷ [])

  unregistered :
      (q : ℕ) (t : LlvmType)
      → has_global_mapping q bt ≡ false
      → link_pointer_if_possible {D = D} bc bt q t m ≡ ok (m, none)
  unfolding link_pointer_if_possible
  unregistered q t h = rw h

  -- The constants that the arguments become.
  inline_ptr :
      (q : ℕ) (t : LlvmType) (h : HighLevelArg)
      → h.types ≡ t ∷ []
      → has_global_mapping q bt ≡ false
      → inline_arg {D = D} bc bt dl functions (ptr_argument q) h fhll new m
        ≡ ok (m, constant (some (int_to_ptr t (q % 2 ^ 64))) ∷ [])
  unfolding inline_arg get_scalar_argument
  inline_ptr q t h one free = rw (one, inline_arg) (rw (unregistered q t free) refl)

  inline_int :
      (w n : ℕ) (h : HighLevelArg)
      → h.types ≡ int_ty w ∷ []
      → inline_arg {D = D} bc bt dl functions (int_argument n) h fhll new m
        ≡ ok (m, constant (some (int_const w (n % 2 ^ w))) ∷ [])
  unfolding inline_arg get_scalar_argument get_int
  inline_int w n h one = rw (one, inline_arg) refl

  inline_float :
      (t : LlvmType) (d : D) (h : HighLevelArg)
      → h.types ≡ t ∷ []
      → inline_arg bc bt dl functions (float_argument d) h fhll new m
        ≡ ok (m, constant (some (fp_const t d)) ∷ [])
  unfolding inline_arg get_scalar_argument
  inline_float t d h one = rw (one, inline_arg) refl

  -- An argument whose constant is known.
  passes_constant :
      (p : CppType) (v : Value D) (a : ℕ) (b : List ℕ) (x' x : Argument D) (h : HighLevelArg)
      (c : Constant D)
      → bound_to x' ≡ ok x
      → inline_arg bc bt dl functions x' h fhll new m ≡ ok (m, constant (some c) ∷ [])
      → converted lower p v a ≡ some c
      → Passes p (plain v a b) x h
  passes_constant p v a b x' x h c bound inlined e =
      let same : x' ≡ x = cc bound in rw (← same) (constant (some c), inlined, rw e refl)

  inline_bit :
      (n : ℕ) (h : HighLevelArg)
      → h.types ≡ lower boolean ∷ []
      → n < 2
      → inline_arg {D = D} bc bt dl functions (int_argument n) h fhll new m
        ≡ ok (m, constant (some (int_const 1 n)) ∷ [])
  inline_bit n h one lt =
      let low : n % 2 ^ 1 ≡ n = omega arith in
      inline_int 1 n h (one ∙ ap (λ t. t ∷ []) lower_boolean)
      ∙ ap (λ k. ok (m, constant (some (int_const 1 k)) ∷ [])) low

  inline_low :
      (w n : ℕ) (s : Bool) (h : HighLevelArg)
      → h.types ≡ lower (integral w s) ∷ []
      → w ≤ 64
      → inline_arg {D = D} bc bt dl functions (int_argument (convert_int w s n)) h fhll new m
        ≡ ok (m, constant (some (int_const w (n % 2 ^ w))) ∷ [])
  inline_low w n s h one le =
      inline_int w (convert_int w s n) h (one ∙ ap (λ t. t ∷ []) (lower_integral w s))
      ∙ ap (λ k. ok (m, constant (some (int_const w k)) ∷ [])) (convert_int-low w s n le)

  bit_lt : (b : Bool) → (if b then 0 else 1) < 2
  bit_lt b = ground arith

  is_double : (w : ℕ) → w ≤ 64 → ltb 64 w ≡ false
  is_double w small = ground (arith, small)

  inline_plain :
      (p : CppType) (v : Value D) (a : ℕ) (b : List ℕ) (x : Argument D) (h : HighLevelArg)
      → h.types ≡ lower p ∷ []
      → IsScalar bt p (plain v a b)
      → bound_argument p (plain v a b) ≡ ok x
      → Passes p (plain v a b) x h
  unfolding as_bool as_integral as_floating as_pointer
  inline_plain boolean (int_value s n) a b x h one scalar e =
      passes_constant boolean (int_value s n) a b _ x h _ e (inline_bit _ h one (bit_lt (n == 0)))
        refl
  inline_plain boolean (fp_value d) a b x h one scalar e =
      passes_constant boolean (fp_value d) a b _ x h _ e (inline_bit _ h one (ground arith)) refl
  inline_plain boolean (ptr_value q) a b x h one scalar e =
      passes_constant boolean (ptr_value q) a b _ x h _ e (inline_bit _ h one (bit_lt (q == 0)))
        refl
  inline_plain (integral w s) (int_value s' n) a b x h one scalar e =
      passes_constant (integral w s) (int_value s' n) a b _ x h _ e (inline_low w n s h one scalar)
        refl
  inline_plain (integral w s) (fp_value d) a b x h one scalar e =
      passes_constant (integral w s) (fp_value d) a b _ x h _ e
        (inline_low w (conv.to_int64 d) s h one scalar) refl
  inline_plain (floating w) (int_value s n) a b x h one scalar e =
      passes_constant (floating w) (int_value s n) a b _ x h _ (rw (is_double w scalar) at e)
        (inline_float _ _ h one) refl
  inline_plain (floating w) (fp_value d) a b x h one scalar e =
      passes_constant (floating w) (fp_value d) a b _ x h _ (rw (is_double w scalar) at e)
        (inline_float _ _ h one) refl
  inline_plain (pointer t) (ptr_value q) a b x h one scalar e =
      passes_constant (pointer t) (ptr_value q) a b _ x h _ e (inline_ptr q _ h one scalar) refl
  inline_plain (reference t) v a b x h one scalar e =
      passes_constant (reference t) v a b _ x h _ e (inline_ptr a _ h one scalar) refl
  inline_plain void_type v a b x h one scalar e = elim scalar [ ]
  inline_plain (class_type t) v a b x h one scalar e = elim scalar [ ]
  inline_plain boolean object_value a b x h one scalar e = cc
  inline_plain (integral w s) (ptr_value q) a b x h one scalar e = cc
  inline_plain (integral w s) object_value a b x h one scalar e = cc
  inline_plain (floating w) (ptr_value q) a b x h one scalar e = cc
  inline_plain (floating w) object_value a b x h one scalar e = cc
  inline_plain (pointer t) (int_value s n) a b x h one scalar e = elim scalar [ ]
  inline_plain (pointer t) (fp_value d) a b x h one scalar e = elim scalar [ ]
  inline_plain (pointer t) object_value a b x h one scalar e = elim scalar [ ]

  -- The loop over the arguments.
  abbrev pub BindsAll : List CppType → List (Arg D) → List (Argument D) → List HighLevelArg → Type 0
  BindsAll pl args as' hs =
      (ops : List (Operand D)) × (inline_args bc bt dl functions as' hs fhll new m ≡ ok (m, ops))
      × (map (operand_value value_of xs) ops ≡ std_bind lower value_of xs pl args)

  binds_next :
      (p : CppType) (pl : List CppType) (a : Arg D) (args : List (Arg D)) (x : Argument D)
      (as' : List (Argument D)) (h : HighLevelArg) (hs : List HighLevelArg)
      → Passes p a x h
      → BindsAll pl args as' hs
      → BindsAll (p ∷ pl) (a ∷ args) (x ∷ as') (h ∷ hs)
  unfolding inline_args
  binds_next p pl a args x as' h hs (op, inlined, value) (ops, rest, values) =
      (op ∷ ops, rw (inlined, inline_args) (rw rest refl), rw (value, values) refl)

  inline_scalar :
      (p : CppType) (a : Arg D) (x : Argument D) (h : HighLevelArg)
      → h.types ≡ lower p ∷ []
      → IsScalar bt p a
      → bound_argument p a ≡ ok x
      → ((k : ℕ)
          → x ≡ forward_argument k
          → get_forward_args {D = D} h fhll new ≡ ok (wrapper_param k ∷ []))
      → Passes p a x h
  unfolding inline_arg
  inline_scalar p (placeholder_arg k) x h one small bound forwards =
      let low : k % 2 ^ 32 ≡ k = omega (arith, small) in
      let same : forward_argument k ≡ x = cc (low, bound) in
      rw (← same) (wrapper_param k, rw (forwards k (sym same)) refl, refl)
  inline_scalar p (plain v a b) x h one scalar bound forwards =
      inline_plain p v a b x h one scalar bound
  inline_scalar boolean (wrapper_arg t f) x h one scalar bound forwards = elim scalar [ ]
  inline_scalar p (wrapper_arg t f) x h one scalar bound forwards = elim scalar [ ]
  inline_scalar boolean (option_arg o a b) x h one scalar bound forwards = elim scalar [ ]
  inline_scalar p (option_arg o a b) x h one scalar bound forwards = elim scalar [ ]

  pub inline_args-std_bind :
      (pl : List CppType) (args : List (Arg D)) (as' : List (Argument D)) (i : ℕ)
      (hs : List HighLevelArg)
      → Bound pl args as'
      → AreScalars bt pl args
      → Reads i i (map lower pl) hs
      → Forwards as' hs
      → BindsAll pl args as' hs
  unfolding inline_args
  inline_args-std_bind [] opts as' i hs bound scalars reads forwards =
      rw (no_more opts as' bound) ([], refl, refl)
  inline_args-std_bind (p ∷ pl) (a ∷ args) (x ∷ as') i (h ∷ hs) bound scalars reads forwards =
      binds_next p pl a args x as' h hs
        (inline_scalar p a x h (ap (λ y. y.types) reads.0) scalars.0 bound.0
          (λ k e. forwards 0 k h (ap some e) refl))
        (inline_args-std_bind pl args as' (suc i) hs bound.1 scalars.1 reads.1
          (λ j. forwards (suc j)))
  inline_args-std_bind (p ∷ pl) (a ∷ args) (x ∷ as') i [] bound scalars reads forwards =
      elim reads [ ]
  inline_args-std_bind (p ∷ pl) (a ∷ args) [] i hs bound scalars reads forwards = elim bound [ ]
  inline_args-std_bind (p ∷ pl) [] as' i hs bound scalars reads forwards = elim bound [ ]
