-- ===== src/Inline/Args/Calls.antt =====
-- The call that the wrapper makes: one operand for each parameter of the function.
use Prim.Native.String.{String}
use easy_just_in_time.Prelude.{
  All, >>=-eq-ok, guard-eq-ok, ==_iff, ℕ, suc, ◌+◌, ◌≡◌, refl, sym, ap, ◌∙◌, Bool, true, false,
  List, [], ◌∷◌, Option, none, some, Result, ok, err, guard, Ensures, Ensures-bind, Ensures-any,
  Ensures-ok, length, length-append, arith, Bool-cases, Option-cases, inl, inr, ◌==◌,
}
use easy_just_in_time.Context.{
  Context, Argument, forward_argument, int_argument, float_argument, ptr_argument, struct_argument,
  module_argument,
}
use easy_just_in_time.Tracker.{BitcodeTracker}
use easy_just_in_time.Llvm.{LlvmType, IrModule, Bitcode, Symbol, IrFunction}
use easy_just_in_time.Utils.{get_entry_function_name, clone_module_with_context, unmark_entry}
use easy_just_in_time.Inline.{
  Fault, HighLevelArg, HighLevelLayout, get_new_layout, high_level_layout, assertion_failed,
  missing_symbol, link_failed, return_params,
}
use easy_just_in_time.Inline.Constants.{DataLayout, get_constant_from_raw, get_scalar_argument}
use easy_just_in_time.Inline.Link.{link_pointer_if_possible, get_named_value, make_private}
use easy_just_in_time.Inline.Structs.{drop, get_global_struct}
use easy_just_in_time.Inline.NewLayout.{Reads, length-Reads}
use easy_just_in_time.Inline.Args.Forward.{high_level_layout-ok}
use easy_just_in_time.Inline.Args.{
  Wrapper, create_wrapper_fun, get_inline_args, remap_attributes, Operand, wrapper_param,
  function_operand, params_from, find_position, get_forward_args, first_type_of, pointee,
  fields_from_raw, or_entry_fault, inline_module, inline_arg, inline_args,
}

abbrev pub OneType : HighLevelArg → Type 0
OneType h = length h.types ≡ 1

module _ {D : Type 0} where
  length-params_from :
      (i : ℕ) (ts : List LlvmType) {ops : List (Operand D)}
      → params_from i ts ≡ ops
      → length ops ≡ length ts
  unfolding params_from
  length-params_from i [] e = rw (← e) refl
  length-params_from i (t ∷ ts) e = rw (← e) (ap suc (length-params_from (suc i) ts refl))

  -- As many operands as the argument has types.
  abbrev Yields : ℕ → List (Operand D) → Type 0
  Yields n ops = length ops ≡ n

  abbrev YieldsInlined : ℕ → IrModule × List (Operand D) → Type 0
  YieldsInlined n r = length (r.1) ≡ n

module _ (D : Type 0) where
  fields_from_raw-Yields :
      (dl : DataLayout) (ts : List LlvmType) (raw : List ℕ)
      → Ensures (Yields {D = D} (length ts)) (fields_from_raw dl ts raw)
  unfolding fields_from_raw
  fields_from_raw-Yields dl [] raw = refl
  fields_from_raw-Yields dl (t ∷ ts) raw =
      Ensures-any (Yields (suc (length ts))) (get_constant_from_raw dl t raw) _ (λ c.
        Ensures-bind (Yields (length ts)) (Yields (suc (length ts)))
          (fields_from_raw dl ts (drop c.1 raw)) _ (fields_from_raw-Yields dl ts (drop c.1 raw))
          (λ rest len. ap suc len))

  get_forward_args-Yields :
      (a : HighLevelArg) (fhll new : HighLevelLayout)
      → Ensures (Yields {D = D} (length a.types)) (get_forward_args a fhll new)
  unfolding get_forward_args
  get_forward_args-Yields a fhll new = elim (Option-cases (find_position a.position new.args)) [
    | inl e ↦ rw (get_forward_args, e) tt
    | inr (w, e) ↦
        rw (get_forward_args, e)
          (length-params_from (w.first_param_idx + return_params fhll.struct_return) a.types refl)
  ]

module _ (D : Type 0) (bc : Bitcode) (bt : BitcodeTracker) (dl : DataLayout)
    (functions : ℕ → IrModule) where
  inline_module-Yields :
      (f : ℕ) (a : HighLevelArg) (m : IrModule)
      → Ensures (YieldsInlined 1) (inline_module {D = D} bc bt dl functions f a m)
  unfolding inline_module
  inline_module-Yields f a m =
      Ensures-any (YieldsInlined 1) (guard (length a.types == 1) assertion_failed) _ (λ _.
        Ensures-any (YieldsInlined 1) (or_entry_fault (get_entry_function_name (functions f))) _
          (λ name. copied name (clone_module_with_context bc (functions f))))
    where
      named :
          (name : String) (linked : IrModule) (o : Option Symbol)
          → Ensures (YieldsInlined {D = D} 1) (elim o [
            | none ↦ err missing_symbol
            | some s ↦ ok (make_private name linked, function_operand name ∷ [])
          ])
      named name linked none = tt
      named name linked (some s) = refl

      joined :
          (name : String) (o : Option IrModule)
          → Ensures (YieldsInlined {D = D} 1) (elim o [
            | none ↦ err link_failed
            | some linked ↦ elim (get_named_value name linked) [
              | none ↦ err missing_symbol
              | some s ↦ ok (make_private name linked, function_operand name ∷ [])
            ]
          ])
      joined name none = tt
      joined name (some linked) = named name linked (get_named_value name linked)

      copied :
          (name : String) (o : Option IrModule)
          → Ensures (YieldsInlined {D = D} 1) (elim o [
            | none ↦ err assertion_failed
            | some copy ↦ elim (bc.link_modules m (unmark_entry copy)) [
              | none ↦ err link_failed
              | some linked ↦ elim (get_named_value name linked) [
                | none ↦ err missing_symbol
                | some s ↦ ok (make_private name linked, function_operand name ∷ [])
              ]
            ]
          ])
      copied name none = tt
      copied name (some copy) = joined name (bc.link_modules m (unmark_entry copy))

  inline_arg-Yields :
      (x : Argument D) (a : HighLevelArg) (fhll new : HighLevelLayout) (m : IrModule)
      → length a.types ≡ 1
      → Ensures (YieldsInlined {D = D} 1) (inline_arg bc bt dl functions x a fhll new m)
  unfolding inline_arg
  inline_arg-Yields (forward_argument k) a fhll new m one =
      Ensures-bind (Yields (length a.types)) (YieldsInlined 1) (get_forward_args a fhll new) _
        (get_forward_args-Yields D a fhll new) (λ ops len. len ∙ one)
  inline_arg-Yields (int_argument n) a fhll new m one =
      Ensures-any (YieldsInlined 1) (first_type_of a) _
        (λ t. Ensures-any (YieldsInlined 1) (get_scalar_argument (int_argument n) t) _ (λ c. refl))
  inline_arg-Yields (float_argument n) a fhll new m one =
      Ensures-any (YieldsInlined 1) (first_type_of a) _ (λ t.
        Ensures-any (YieldsInlined 1) (get_scalar_argument (float_argument n) t) _ (λ c. refl))
  inline_arg-Yields (ptr_argument p) a fhll new m one =
      Ensures-any (YieldsInlined 1) (first_type_of a) _ (λ t.
        Ensures-any (YieldsInlined 1) (get_scalar_argument (ptr_argument p) t) _
          (λ c. Ensures-any (YieldsInlined 1) (link_pointer_if_possible bc bt p t m) _ (λ l. refl)))
  inline_arg-Yields (struct_argument bytes) a fhll new m one =
      elim (Bool-cases a.struct_by_pointer) [
        | inl by_pointer ↦
            rw (inline_arg, by_pointer)
              (Ensures-any (YieldsInlined 1) (first_type_of a) _ (λ t.
                Ensures-any (YieldsInlined 1) (pointee t) _ (λ s.
                  Ensures-any (YieldsInlined 1)
                    (get_global_struct dl (link_pointer_if_possible bc bt) s bytes m) _
                    (λ g. refl))))
        | inr by_value ↦
            rw (inline_arg, by_value)
              (Ensures-bind (Yields (length a.types)) (YieldsInlined 1)
                (fields_from_raw dl a.types bytes) _ (fields_from_raw-Yields D dl a.types bytes)
                (λ ops len. len ∙ one))
      ]
  inline_arg-Yields (module_argument f) a fhll new m one = inline_module-Yields f a m

  inline_args-Yields :
      (xs : List (Argument D)) (hs : List HighLevelArg) (fhll new : HighLevelLayout) (m : IrModule)
      → All OneType hs
      → Ensures
          (YieldsInlined {D = D} (length xs))
          (inline_args bc bt dl functions xs hs fhll new m)
  unfolding inline_args
  inline_args-Yields [] hs fhll new m one = refl
  inline_args-Yields (x ∷ xs) [] fhll new m one = tt
  inline_args-Yields (x ∷ xs) (h ∷ hs) fhll new m one =
      Ensures-bind (YieldsInlined 1) (YieldsInlined (length (x ∷ xs)))
        (inline_arg bc bt dl functions x h fhll new m) _ (inline_arg-Yields x h fhll new m one.0)
        (λ r len.
          Ensures-bind (YieldsInlined (length xs)) (YieldsInlined (length (x ∷ xs)))
            (inline_args bc bt dl functions xs hs fhll new r.0) _
            (inline_args-Yields xs hs fhll new r.0 one.1)
            (λ rest len'. omega (arith, len, len', length-append r.1 rest.1)))

Reads-OneType :
    (i p : ℕ) (ts : List LlvmType) (hs : List HighLevelArg) → Reads i p ts hs → All OneType hs
Reads-OneType i p [] [] r = tt
Reads-OneType i p [] (h ∷ hs) r = elim r [ ]
Reads-OneType i p (t ∷ ts) [] r = elim r [ ]
Reads-OneType i p (t ∷ ts) (h ∷ hs) r =
    let one : length h.types ≡ 1 = ap (λ a. length a.types) (r.0) in
    (one, Reads-OneType (suc i) (suc p) ts hs r.1)

get_new_layout_size :
    {D : Type 0} (c : Context D) (hll : HighLevelLayout) {new : HighLevelLayout}
    → get_new_layout c hll ≡ ok new
    → length c.argument_mapping ≡ length hll.args
unfolding get_new_layout
get_new_layout_size c hll e =
    let sizes = guard-eq-ok (length c.argument_mapping == length hll.args) assertion_failed _ e in
    (==_iff (length c.argument_mapping) (length hll.args)).0 sizes.0

-- What a step that succeeds has made.
abbrev ops_of : {D : Type 0} → Result Fault (IrModule × List (Operand D)) → List (Operand D)
ops_of (ok r) = r.1
ops_of (err e) = []

abbrev calls_of : {D : Type 0} → Result Fault (IrModule × Wrapper D) → List (Operand D)
calls_of (ok r) = r.1.call_args
calls_of (err e) = []

abbrev slot_of : {D : Type 0} → Result Fault (IrModule × Wrapper D) → Bool
slot_of (ok r) = r.1.struct_ret
slot_of (err e) = false

-- The wrapper of a function whose layout was found, if there is one, calls the function with one operand
-- for each of its parameters, whatever is bound to them; and it is no wrapper with a return slot.
pub length-create_wrapper_fun :
    {D : Type 0} (bc : Bitcode) (bt : BitcodeTracker) (dl : DataLayout) (functions : ℕ → IrModule)
    (f : IrFunction) (c : Context D) (m : IrModule) {hll : HighLevelLayout} {m' : IrModule}
    {w : Wrapper D}
    → high_level_layout f ≡ ok hll
    → create_wrapper_fun bc bt dl functions f hll c m ≡ ok (m', w)
    → (length w.call_args ≡ length f.params) × (w.struct_ret ≡ false)
unfolding create_wrapper_fun get_inline_args
length-create_wrapper_fun {D} bc bt dl functions f c m {hll} {m'} {w} laid made =
    let (no_return, reads) = high_level_layout-ok f laid in
    let (new, planned, e1) = >>=-eq-ok (get_new_layout c hll) _ made in
    let (inlined, ran, e2) = >>=-eq-ok (get_inline_args bc bt dl functions c hll new m) _ e1 in
    let (added, mapped, e3) = >>=-eq-ok (remap_attributes f.param_attrs hll.args new.args) _ e2 in
    let (args, walked, e4) =
      >>=-eq-ok (inline_args bc bt dl functions c.argument_mapping hll.args hll new m) _ ran in
    let count : length args.1 ≡ length c.argument_mapping =
      Ensures-ok (YieldsInlined (length c.argument_mapping)) _
        (inline_args-Yields D bc bt dl functions c.argument_mapping hll.args hll new m
          (Reads-OneType 0 0 f.params hll.args reads))
        walked in
    let with_slot : (elim hll.struct_return [ none ↦ args.1 | some t ↦ wrapper_param 0 ∷ args.1 ])
        ≡ inlined.1 =
      ap ops_of e4 in
    let ops : args.1 ≡ inlined.1 = rw no_return at with_slot in
    let calls : inlined.1 ≡ w.call_args = ap calls_of e3 in
    let has_slot : (elim hll.struct_return [ none ↦ false | some t ↦ true ]) ≡ w.struct_ret =
      ap slot_of e3 in
    let slot : false ≡ w.struct_ret = rw no_return at has_slot in
    (
      ap length (sym (ops ∙ calls))
          ∙ count
          ∙ get_new_layout_size c hll planned
          ∙ length-Reads 0 0 f.params hll.args reads,
      sym slot,
    )
