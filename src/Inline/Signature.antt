-- ===== src/Inline/Signature.antt =====
-- The wrapper's type against the type that the program calls it by: the parameter list that meta.h
-- computes when the program is compiled is the one that the pass builds when it runs.
use mathlib.Core.Option
use mathlib.Core.Path.{subst}
use easy_just_in_time.Prelude.{
  ℕ, suc, ◌-◌, ◌<◌, ◌≡◌, refl, sym, ap, ◌∙◌, Bool, true, false, List, [], ◌∷◌, none, some, ok,
  Option-cases, inl, inr, length, get_elem?, replicate, ◌==◌, ==_iff, if◌then◌else◌, arith, All,
  map, length-map, length-replicate,
}
use easy_just_in_time.Meta.{
  CppType, is_option, discard_options, max_placeholder_from, parameter_list,
}
use easy_just_in_time.Meta.Rounds.{first_at}
use easy_just_in_time.Meta.Mapping.{map_placeholder_to_type-first_at}
use easy_just_in_time.Context.{Context, RawBytes, Argument}
use easy_just_in_time.Params.{Conversions, Arg, option_arg, arg_type, get_context_for_raw}
use easy_just_in_time.Params.Bound.{Bound, bound_argument, get_context_for_raw-Bound}
use easy_just_in_time.Llvm.{LlvmType, IrFunction}
use easy_just_in_time.Inline.{
  HighLevelArg, HighLevelLayout, default_arg, count_new_args, high_level_layout, get_new_layout,
  get_wrapper_ty, all_types, set_param_idx, keep_forwarded,
}
use easy_just_in_time.Inline.NewLayout.{
  get_elem?-some, Reads, length-Reads, kept_entry, first_forward, high_level_layout-Reads,
  keep_forwarded-Keeps, keep_forwarded_total, IsSmall, all_types-set_param_idx,
}
use easy_just_in_time.Inline.Forwarded.{
  first_type, is_index, placeholder_index, first_at-first_type, NoOption, IsSmallPlaceholder,
  forward_index-bound, count_new_args-cons, first_forward-cons, clean, clean-cons, is_this-arg_type,
  max_placeholder-cons,
}

abbrev pub arg_types : HighLevelArg → List LlvmType
arg_types h = h.types

abbrev pub one_type : (CppType → LlvmType) → CppType → List LlvmType
one_type lower t = lower t ∷ []

module _ {D : Type 0} ⦃conv : Conversions D⦄ (lower : CppType → LlvmType) where
  -- What the two sides have in common, parameter by parameter.
  pub record Agrees (pl : List CppType) (args : List (Arg D)) (xs : List (Argument D))
      (hs : List HighLevelArg) : Type 0 where
    pub same_length : length (clean args) ≡ length pl
    pub same_size : length xs ≡ length pl
    pub small : All IsSmall xs
    pub count : (n : ℕ) → count_new_args n xs ≡ max_placeholder_from n (clean args)
    pub first :
        (k : ℕ)
        → Option.map arg_types (first_forward k xs hs)
          ≡ Option.map (one_type lower) (first_type k pl (clean args))

  Agrees-nil :
      (opts : List (Arg D)) (xs : List (Argument D)) → Bound [] opts xs → Agrees [] opts xs []
  unfolding discard_options count_new_args max_placeholder_from
  Agrees-nil [] [] b = record {
    same_length = refl;
    same_size = refl;
    small = tt;
    count = λ n. refl;
    first = λ k. refl;
  }
  Agrees-nil [] (x ∷ xs) b = elim b [ ]
  Agrees-nil (option_arg o a c ∷ opts) xs b =
      let r = Agrees-nil opts xs b in
      record {
        same_length = r.same_length;
        same_size = r.same_size;
        small = r.small;
        count = r.count;
        first = r.first;
      }
  Agrees-nil (a ∷ opts) xs b = elim b [ ]

  Agrees-cons :
      (p : CppType) (pl : List CppType) (a : Arg D) (args : List (Arg D)) (x : Argument D)
      (xs : List (Argument D)) (h : HighLevelArg) (hs : List HighLevelArg)
      → is_option (arg_type a) ≡ false
      → IsSmallPlaceholder a
      → bound_argument p a ≡ ok x
      → h.types ≡ one_type lower p
      → Agrees pl args xs hs
      → Agrees (p ∷ pl) (a ∷ args) (x ∷ xs) (h ∷ hs)
  Agrees-cons p pl a args x xs h hs plain_arg small bound lowered rest =
      let (index, small_x) = forward_index-bound p a x small bound in
      let cleaned = clean-cons a args plain_arg in
      record {
        same_length = rw cleaned (ap suc rest.same_length);
        same_size = ap suc rest.same_size;
        small = (small_x, rest.small);
        count = λ n. rw (
          cleaned,
          max_placeholder-cons n a (clean args) small,
          count_new_args-cons n x xs,
          index,
          rest.count,
        );
        first = λ k.
            rw (cleaned, first_forward-cons k x xs h hs, index, is_this-arg_type k a)
              (pick k (is_index k (placeholder_index a)) lowered (rest.first k));
      }
    where
      pick :
          (k : ℕ) (b : Bool)
          → h.types ≡ one_type lower p
          → Option.map arg_types (first_forward k xs hs)
            ≡ Option.map (one_type lower) (first_type k pl (clean args))
          → Option.map arg_types (if b then some h else first_forward k xs hs)
            ≡ Option.map (one_type lower) (if b then some p else first_type k pl (clean args))
      pick k true e f = ap some e
      pick k false e f = f

  pub Agrees-Bound :
      (pl : List CppType) (args : List (Arg D)) (xs : List (Argument D)) (i : ℕ)
      (hs : List HighLevelArg)
      → Bound pl args xs
      → NoOption pl args
      → All IsSmallPlaceholder args
      → Reads i i (map lower pl) hs
      → Agrees pl args xs hs
  Agrees-Bound [] args xs i [] bound plain_args small reads = Agrees-nil args xs bound
  Agrees-Bound [] args xs i (h ∷ hs) bound plain_args small reads = elim reads [ ]
  Agrees-Bound (p ∷ pl) (a ∷ args) (x ∷ xs) i (h ∷ hs) bound plain_args small reads =
      Agrees-cons p pl a args x xs h hs plain_args.0 small.0 bound.0 (ap arg_types reads.0)
        (Agrees-Bound pl args xs (suc i) hs bound.1 plain_args.1 small.1 reads.1)
  Agrees-Bound (p ∷ pl) (a ∷ args) (x ∷ xs) i [] bound plain_args small reads = elim reads [ ]
  Agrees-Bound (p ∷ pl) (a ∷ args) [] i hs bound plain_args small reads = elim bound [ ]
  Agrees-Bound (p ∷ pl) [] xs i hs bound plain_args small reads = elim bound [ ]

module _ (lower : CppType → LlvmType) where
  all_types-lower :
      (new : List HighLevelArg) (r : List CppType)
      → length new ≡ length r
      → ((k : ℕ)
          → k < length r
          → Option.map arg_types (get_elem? new k) ≡ Option.map (one_type lower) (get_elem? r k))
      → all_types new ≡ map lower r
  all_types-lower [] [] e h = refl
  all_types-lower [] (t ∷ r) e h = absurd (omega arith)
  all_types-lower (a ∷ new) [] e h = absurd (omega arith)
  all_types-lower (a ∷ new) (t ∷ r) e h =
      let here : a.types ≡ lower t ∷ [] = cc (h 0 (omega arith)) in
      let rest = all_types-lower new r (omega arith) (λ k lt. h (suc k) (omega arith)) in
      rw (here, rest)

  module _ {D : Type 0} (k n : ℕ) (xs : List (Argument D)) (hs : List HighLevelArg) where
    kept_entry-first :
        (t : CppType)
        → Option.map arg_types (first_forward k xs hs) ≡ some (one_type lower t)
        → Option.map arg_types (kept_entry k xs hs [] (replicate n default_arg))
          ≡ some (one_type lower t)
    kept_entry-first t e = elim (Option-cases (first_forward k xs hs)) [
      | inl no_one ↦ cc (rw no_one at e)
      | inr (h, this) ↦ rw this (rw this at e)
    ]

module _ {D : Type 0} ⦃conv : Conversions D⦄ (lower : CppType → LlvmType) where
  -- At each index of the wrapper both sides have the type of the first parameter for it.
  kept_type :
      (pl : List CppType) (args : List (Arg D)) (xs : List (Argument D))
      (hs new : List HighLevelArg) (n k : ℕ) (r : List CppType)
      → Agrees lower pl args xs hs
      → get_elem? r k ≡ first_at k pl (length pl - length (clean args)) (clean args)
      → k < length r
      → get_elem? new k ≡ kept_entry k xs hs [] (replicate n default_arg)
      → Option.map arg_types (get_elem? new k) ≡ Option.map (one_type lower) (get_elem? r k)
  kept_type pl args xs hs new n k r agrees found lt kept =
      let (t, here) = get_elem?-some r k lt in
      let aligned : length pl - length (clean args) ≡ 0 = omega (arith, agrees.same_length) in
      let spec : get_elem? r k ≡ first_type k pl (clean args) =
        (rw aligned at found) ∙ first_at-first_type k [] pl (clean args) agrees.same_length in
      let meta : first_type k pl (clean args) ≡ some t = sym spec ∙ here in
      rw (kept, here) (kept_entry-first lower k n xs hs t (rw meta at (agrees.first k)))

  new_layout_of :
      (pl : List CppType) (args : List (Arg D)) (c : Context D) (hll : HighLevelLayout)
      (new : List HighLevelArg) {r : List CppType}
      → Agrees lower pl args c.argument_mapping hll.args
      → parameter_list pl (map arg_type args) ≡ ok r
      → keep_forwarded c.argument_mapping hll.args []
          (replicate (count_new_args 0 c.argument_mapping) default_arg)
        ≡ ok new
      → all_types new ≡ map lower r
  unfolding parameter_list
  new_layout_of pl args c hll new {r} agrees typed kept =
      let xs = c.argument_mapping in
      let n : ℕ = count_new_args 0 xs in
      let (size, firsts) = map_placeholder_to_type-first_at pl (clean args) typed in
      let (new_len, keeps) = keep_forwarded-Keeps xs hll.args [] (replicate n default_arg) kept in
      all_types-lower lower new r
        (omega (arith, new_len, length-replicate n default_arg, agrees.count 0, size))
        (λ k lt. kept_type pl args xs hll.args new n k r agrees (firsts k) lt (keeps k))

  pub get_new_layout_typed :
      (pl : List CppType) (args : List (Arg D)) (c : Context D) (hll : HighLevelLayout)
      {r : List CppType}
      → Agrees lower pl args c.argument_mapping hll.args
      → length hll.args ≡ length pl
      → hll.struct_return ≡ none
      → parameter_list pl (map arg_type args) ≡ ok r
      → (new : HighLevelLayout) × (get_new_layout c hll ≡ ok new)
        × (get_wrapper_ty new ≡ map lower r)
  unfolding get_new_layout get_wrapper_ty
  get_new_layout_typed pl args c hll agrees len no_return typed =
      let xs = c.argument_mapping in
      let n : ℕ = count_new_args 0 xs in
      let (new, kept) =
        keep_forwarded_total 0 xs hll.args [] (replicate n default_arg) agrees.small
          (omega (arith, length-replicate n default_arg)) in
      let sizes : (length xs == length hll.args) ≡ true =
        (==_iff (length xs) (length hll.args)).1 (omega (arith, agrees.same_size)) in
      (
        record hll { args = set_param_idx 0 new },
        rw (sizes, kept),
        rw (no_return, all_types-set_param_idx 0 new)
            (new_layout_of pl args c hll new agrees typed kept),
      )

  -- Take a function whose parameters are those of the C++ function, each lowered to one LLVM type, with
  -- no return slot in front. If a call of `easy::jit` for it compiles (its context is built, meta.h
  -- accepts the placeholders, no option stands for a parameter, placeholder numbers are unsigned), then
  -- the pass finds the wrapper's layout without a fault, and the wrapper's parameters are those that
  -- meta.h computed, lowered.
  pub get_wrapper_ty-parameter_list :
      (raw : RawBytes) (pl : List CppType) (args : List (Arg D)) (f : IrFunction) {c : Context D}
      {r : List CppType}
      → 0 < length pl
      → f.params ≡ map lower pl
      → f.struct_ret ≡ false
      → get_context_for_raw raw pl args ≡ ok c
      → NoOption pl args
      → All IsSmallPlaceholder args
      → parameter_list pl (map arg_type args) ≡ ok r
      → (hll : HighLevelLayout) × (new : HighLevelLayout) × (high_level_layout f ≡ ok hll)
        × (get_new_layout c hll ≡ ok new)
        × (get_wrapper_ty new ≡ map lower r)
  get_wrapper_ty-parameter_list raw [] args f pos params no_ret built plain_args small typed =
      absurd (omega arith)
  get_wrapper_ty-parameter_list raw (p ∷ pl) args f {c} pos params no_ret built plain_args small
        typed =
      let (hs, laid, reads) = high_level_layout-Reads f params no_ret in
      let hll : HighLevelLayout = record {
        struct_return = none;
        args = hs;
        return_type = f.return_type;
      } in
      let bound = (get_context_for_raw-Bound raw (p ∷ pl) args built).0 in
      let reads' : Reads 0 0 (map lower (p ∷ pl)) hs = subst (λ ts. Reads 0 0 ts hs) params reads in
      let agrees =
        Agrees-Bound lower (p ∷ pl) args c.argument_mapping 0 hs bound plain_args small reads' in
      let len : length hs ≡ length (p ∷ pl) =
        length-Reads 0 0 (map lower (p ∷ pl)) hs reads' ∙ length-map lower (p ∷ pl) in
      let (new, made, types) = get_new_layout_typed (p ∷ pl) args c hll agrees len refl typed in
      (hll, new, laid, made, types)
