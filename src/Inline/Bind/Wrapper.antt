-- ===== src/Inline/Bind/Wrapper.antt =====
-- runtime/pass/InlineParameters.cpp as a whole: the wrapper for a call of `easy::jit`.
use mathlib.Core.Option
use mathlib.Core.Path.{subst}
use easy_just_in_time.Prelude.{
  ℕ, zero, suc, ◌+◌, ◌-◌, ◌<◌, ◌≡◌, refl, sym, ◌∙◌, Bool, true, false, List, [], ◌∷◌, ◌++◌, none,
  some, ok, get_elem?, length, map, ◌==◌, ==_iff, arith, guard-eq-ok, >>=-eq-ok, Option-cases, inl,
  inr, replicate, length-map,
}
use easy_just_in_time.Meta.{CppType, boolean, integral, parameter_list}
use easy_just_in_time.Meta.Mapping.{map_placeholder_to_type-first_at}
use easy_just_in_time.Context.{Context, RawBytes, Argument, forward_argument}
use easy_just_in_time.Params.{Conversions, Arg, arg_type, get_context_for_raw}
use easy_just_in_time.Params.Bound.{Bound, get_context_for_raw-Bound}
use easy_just_in_time.Tracker.{BitcodeTracker}
use easy_just_in_time.Llvm.{LlvmType, int_ty, IrModule, IrFunction, Bitcode}
use easy_just_in_time.Inline.{
  HighLevelArg, HighLevelLayout, default_arg, high_level_layout, get_new_layout, get_wrapper_ty,
  count_new_args, set_param_idx, keep_forwarded, assertion_failed,
}
use easy_just_in_time.Inline.NewLayout.{
  get_elem?-some, Reads, length-Reads, first_forward, high_level_layout-Reads,
}
use easy_just_in_time.Inline.Forwarded.{first_type, first_at-first_type, clean}
use easy_just_in_time.Inline.Signature.{Agrees, Agrees-Bound, get_new_layout_typed}
use easy_just_in_time.Inline.Constants.{Constant, DataLayout}
use easy_just_in_time.Inline.Args.{
  wrapper_param, get_forward_args, get_inline_args, remap_fields, remap_attributes, Wrapper,
  create_wrapper_fun, take_name, run_on_module,
}
use easy_just_in_time.Inline.Link.{is_function, get_named_value, make_private}
use easy_just_in_time.Utils.{mark_as_entry}
use Prim.Native.String.{String}
use easy_just_in_time.Inline.Args.Forward.{
  high_level_layout-ok, AllForwarded, get_new_layout-ok, first_forward-some, get_forward_args_lem,
  kept_first, Reads-IsEntry,
}
use easy_just_in_time.Inline.Bind.{std_bind, operand_value, AreScalars}
use easy_just_in_time.Inline.Bind.Arguments.{inline_args-std_bind}
use easy_just_in_time.Inline.Bind.Placeholders.{
  UsedOnce, first_forward-found, scalars_small, forwarded_once,
}

-- An entry of the new layout stands where an entry of the old one does.
position_of :
    (p : ℕ) (hs : List HighLevelArg) (j : ℕ) {x : HighLevelArg}
    → get_elem? (set_param_idx p hs) j ≡ some x
    → (y : HighLevelArg) × (get_elem? hs j ≡ some y) × (x.position ≡ y.position)
unfolding set_param_idx
position_of p [] j e = cc
position_of p (h ∷ hs) zero {x} e =
    let same : record h { first_param_idx = p } ≡ x = Option.some_inj.0 e in
    (h, refl, rw (← same) refl)
position_of p (h ∷ hs) (suc j) e = position_of (p + length h.types) hs j e

remap_total :
    (attrs : List (List ℕ)) (hs news : List HighLevelArg)
    → ((j : ℕ) (x : HighLevelArg)
        → get_elem? news j ≡ some x
        → (y : HighLevelArg) × (get_elem? hs x.position ≡ some y))
    → (added : List (ℕ × List ℕ)) × (remap_attributes attrs hs news ≡ ok added)
unfolding remap_attributes
remap_total attrs hs [] found = ([], refl)
remap_total attrs hs (x ∷ news) found =
    let (y, here) = found 0 x refl in
    let (added, rest) = remap_total attrs hs news (λ j. found (suc j)) in
    (
      remap_fields attrs x.types x.first_param_idx y.first_param_idx ++ added,
      rw (here, remap_attributes) (rw rest refl),
    )

module _ {D : Type 0} ⦃conv : Conversions D⦄ (lower : CppType → LlvmType) (pl : List CppType)
    (args : List (Arg D)) (xs : List (Argument D)) (hs : List HighLevelArg)
    (agrees : Agrees lower pl args xs hs) {r : List CppType}
    (typed : parameter_list pl (map arg_type args) ≡ ok r) where
  -- meta.h accepts only placeholders without a gap.
  all_forwarded : AllForwarded xs hs
  unfolding parameter_list
  all_forwarded j lt =
      let (size, firsts) = map_placeholder_to_type-first_at pl (clean args) typed in
      let (t, here) = get_elem?-some r j (omega (arith, lt, size, agrees.count 0)) in
      let aligned : length pl - length (clean args) ≡ 0 = omega (arith, agrees.same_length) in
      let found : first_type j pl (clean args) ≡ some t =
        sym (first_at-first_type j [] pl (clean args) agrees.same_length)
        ∙ sym (rw aligned at (firsts j))
        ∙ here in
      elim (Option-cases (first_forward j xs hs)) [
        | inl no_one ↦ cc (rw (no_one, found) at (agrees.first j))
        | inr (h, this) ↦ (h, this)
      ]

get_new_layout_return :
    {D : Type 0} (c : Context D) (hll : HighLevelLayout) {new : HighLevelLayout}
    → get_new_layout c hll ≡ ok new
    → new.return_type ≡ hll.return_type
unfolding get_new_layout
get_new_layout_return c hll {new} e =
    let start = replicate (count_new_args 0 c.argument_mapping) default_arg in
    let (sizes, e1) =
      guard-eq-ok (length c.argument_mapping == length hll.args) assertion_failed _ e in
    let (kept, found, e2) =
      >>=-eq-ok (keep_forwarded c.argument_mapping hll.args [] start)
        (λ kept. ok (record hll { args = set_param_idx 0 kept })) e1 in
    let same : record hll { args = set_param_idx 0 kept } ≡ new = cc e2 in rw (← same) refl

-- What the arguments of a layout and of the new one have to do with each other.
module _ {D : Type 0} (f : IrFunction) (c : Context D) (hll new : HighLevelLayout)
    (laid : high_level_layout f ≡ ok hll) (made : get_new_layout c hll ≡ ok new)
    (all : AllForwarded c.argument_mapping hll.args) where
  forwards_lem :
      ((k i j : ℕ)
        → get_elem? c.argument_mapping i ≡ some (forward_argument k)
        → get_elem? c.argument_mapping j ≡ some (forward_argument k)
        → i ≡ j)
      → (i k : ℕ) (h : HighLevelArg) → get_elem? c.argument_mapping i ≡ some (forward_argument k)
      → get_elem? hll.args i ≡ some h
      → get_forward_args {D = D} h hll new ≡ ok (wrapper_param k ∷ [])
  forwards_lem once i k h at_i here =
      let (h0, first) = first_forward-found k i c.argument_mapping hll.args at_i here in
      let (i', at_i', here') = first_forward-some k c.argument_mapping hll.args first in
      let (no_return, reads) = high_level_layout-ok f laid in
      let pos = (Reads-IsEntry 0 0 f.params hll.args reads i' here').0 in
      let this : (h0.position == i) ≡ true =
        (==_iff h0.position i).1 (omega (arith, pos, once k i' i at_i' at_i)) in
      get_forward_args_lem f c i k laid made all at_i here first ∙ rw this refl

  new_positions :
      (j : ℕ) (x : HighLevelArg)
      → get_elem? new.args j ≡ some x
      → (y : HighLevelArg) × (get_elem? hll.args x.position ≡ some y)
  new_positions j x e =
      let (kept, args, keeps) = get_new_layout-ok c hll made in
      let (h, at_j, pos) = position_of 0 kept j (rw args at e) in
      let first = kept_first c.argument_mapping hll.args kept keeps all j h at_j in
      let (i, from, here) = first_forward-some j c.argument_mapping hll.args first in
      let (no_return, reads) = high_level_layout-ok f laid in
      let place = (Reads-IsEntry 0 0 f.params hll.args reads i here).0 in
      let same : x.position ≡ i = omega (arith, pos, place) in (h, rw same here)

module _ {D : Type 0} ⦃conv : Conversions D⦄ (lower : CppType → LlvmType)
    (lower_integral : (w : ℕ) (s : Bool) → lower (integral w s) ≡ int_ty w)
    (lower_boolean : lower boolean ≡ int_ty 1) {V : Type 0} (value_of : Constant D → V)
    (xs : List V) (bc : Bitcode) (bt : BitcodeTracker) (dl : DataLayout)
    (functions : ℕ → IrModule) where
  -- The wrapper calls the function as `std::bind` would, and the module has not changed so far.
  abbrev IsBind :
      IrFunction
      → Context D
      → IrModule
      → List CppType
      → List (Arg D)
      → List CppType
      → HighLevelLayout
      → Type 0
  IsBind f c m pl args r hll =
      (w : Wrapper D) × (create_wrapper_fun bc bt dl functions f hll c m ≡ ok (m, w))
      × (w.params ≡ map lower r)
      × (w.return_type ≡ f.return_type)
      × (map (operand_value value_of xs) w.call_args ≡ std_bind lower value_of xs pl args)

  create_wrapper_fun-IsBind :
      (f : IrFunction) (c : Context D) (m : IrModule) (pl : List CppType) (args : List (Arg D))
      (hll new : HighLevelLayout) (r : List CppType)
      → high_level_layout f ≡ ok hll
      → get_new_layout c hll ≡ ok new
      → get_wrapper_ty new ≡ map lower r
      → hll.struct_return ≡ none
      → hll.return_type ≡ f.return_type
      → f.params ≡ map lower pl
      → Bound pl args c.argument_mapping
      → AreScalars bt pl args
      → UsedOnce args
      → AllForwarded c.argument_mapping hll.args
      → IsBind f c m pl args r hll
  unfolding create_wrapper_fun get_inline_args
  create_wrapper_fun-IsBind f c m pl args hll new r laid made types no_return returns params bound
        scalars once all =
      let reads : Reads 0 0 (map lower pl) hll.args =
        subst (λ ts. Reads 0 0 ts hll.args) params (high_level_layout-ok f laid).1 in
      let forwards =
        forwards_lem f c hll new laid made all
          (λ k i j. forwarded_once bt k pl args c.argument_mapping i j bound scalars once) in
      let (ops, inlined, values) =
        inline_args-std_bind lower lower_integral lower_boolean value_of xs bc bt dl functions hll
          new m pl args c.argument_mapping 0 hll.args bound scalars reads forwards in
      let (added, mapped) =
        remap_total f.param_attrs hll.args new.args (new_positions f c hll new laid made all) in
      (
        record {
          params = get_wrapper_ty new;
          return_type = new.return_type;
          call_args = ops;
          struct_ret = false;
          fn_attrs = f.fn_attrs;
          param_attrs = added;
        },
        rw (made, create_wrapper_fun) (rw (inlined, no_return, mapped) refl),
        types,
        get_new_layout_return c hll made ∙ returns,
        values,
      )

  -- What `runOnModule` leaves: the wrapper has the function's name, and calls it as `std::bind` would.
  abbrev pub IsBound :
      String
      → IrFunction
      → LlvmType
      → Context D
      → IrModule
      → List CppType
      → List (Arg D)
      → List CppType
      → Type 0
  IsBound target f ty c m pl args r =
      (w : Wrapper D) × (run_on_module bc bt dl functions target f ty c m
        ≡ ok (mark_as_entry target (take_name target ty (make_private target m)), w))
      × (w.params ≡ map lower r)
      × (w.return_type ≡ f.return_type)
      × (map (operand_value value_of xs) w.call_args ≡ std_bind lower value_of xs pl args)

  -- Take a function in the module, whose parameters are those of the C++ function, each lowered to one LLVM
  -- type (an integer to its width, `bool` to one bit), with no return slot. Let a call of `easy::jit` for
  -- it compile: its context is built, and meta.h accepts the placeholders. If the arguments for the
  -- parameters are placeholders, each used once, numbers of up to 64 bits, and pointers that are not
  -- registered, then the pass returns. The wrapper takes the parameters that meta.h computed and returns
  -- what the function does; and called with `xs` it calls the function with what
  -- `std::bind(f, args...)(xs...)` does: for a placeholder the argument of its index, and for a value the
  -- constant of what the language converts it to.
  pub run_on_module-std_bind :
      (raw : RawBytes) (pl : List CppType) (args : List (Arg D)) (target : String) (f : IrFunction)
      (ty : LlvmType) (m : IrModule) {c : Context D} {r : List CppType}
      → 0 < length pl
      → is_function (get_named_value target m) ≡ true
      → f.params ≡ map lower pl
      → f.struct_ret ≡ false
      → get_context_for_raw raw pl args ≡ ok c
      → parameter_list pl (map arg_type args) ≡ ok r
      → AreScalars bt pl args
      → UsedOnce args
      → IsBound target f ty c m pl args r
  unfolding run_on_module
  run_on_module-std_bind raw [] args target f ty m pos named params no_ret built typed scalars
        once =
      absurd (omega arith)
  run_on_module-std_bind raw (p ∷ pl) args target f ty m {c} {r} pos named params no_ret built typed
        scalars once =
      let (hs, laid, reads) = high_level_layout-Reads f params no_ret in
      let hll : HighLevelLayout = record {
        struct_return = none;
        args = hs;
        return_type = f.return_type;
      } in
      let bound = (get_context_for_raw-Bound raw (p ∷ pl) args built).0 in
      let (plain_args, small) = scalars_small bt (p ∷ pl) args c.argument_mapping bound scalars in
      let reads' : Reads 0 0 (map lower (p ∷ pl)) hs = subst (λ ts. Reads 0 0 ts hs) params reads in
      let agrees =
        Agrees-Bound lower (p ∷ pl) args c.argument_mapping 0 hs bound plain_args small reads' in
      let len : length hs ≡ length (p ∷ pl) =
        length-Reads 0 0 (map lower (p ∷ pl)) hs reads' ∙ length-map lower (p ∷ pl) in
      let (new, made, types) =
        get_new_layout_typed lower (p ∷ pl) args c hll agrees len refl typed in
      let (w, created, same_params, same_return, values) =
        create_wrapper_fun-IsBind f c m (p ∷ pl) args hll new r laid made types refl refl params
          bound scalars once
          (all_forwarded lower (p ∷ pl) args c.argument_mapping hs agrees typed) in
      (w, rw (named, laid) (rw created refl), same_params, same_return, values)
