-- ===== src/Inline/Forwarded.antt =====
-- The placeholders among the arguments of `easy::jit`, and the forwarded indices in the context that they
-- give: one by one they say the same.
use mathlib.Core.List.{append_assoc}
use mathlib.Core.Path.{subst₂}
use easy_just_in_time.Prelude.{
  ℕ, suc, ◌+◌, ◌^◌, ◌%◌, ◌<◌, max, ◌≡◌, refl, Bool, false, List, [], ◌∷◌, ◌++◌, Option, none, some,
  ok, length, ltb, ◌==◌, if◌then◌else◌, arith, map,
}
use easy_just_in_time.Meta.{
  CppType, boolean, ArgType, is_option, at, discard_options, max_placeholder_from,
}
use easy_just_in_time.Meta.Rounds.{first_at, is_this}
use easy_just_in_time.Context.{Argument, forward_argument, int_argument}
use easy_just_in_time.Params.{
  Conversions, Value, object_value, Arg, placeholder_arg, wrapper_arg, option_arg, plain, arg_type,
}
use easy_just_in_time.Params.Bound.{plain_argument, bound_argument}
use easy_just_in_time.Inline.{HighLevelArg, count_new_args}
use easy_just_in_time.Inline.NewLayout.{length-concat, first_forward, IsSmall}

-- The type of the parameter at the first argument that is the placeholder of index `k`.
abbrev pub first_type : ℕ → List CppType → List ArgType → Option CppType
first_type k (p ∷ pl) (a ∷ al) = if is_this k a then some p else first_type k pl al
first_type k _ _ = none

at-append :
    (pre : List CppType) (p : CppType) (pl : List CppType) → at (length pre) (pre ++ p ∷ pl) ≡ p
unfolding at
at-append [] p pl = refl
at-append (x ∷ pre) p pl = at-append pre p pl

pub first_at-first_type :
    (k : ℕ) (pre pl : List CppType) (al : List ArgType)
    → length al ≡ length pl
    → first_at k (pre ++ pl) (length pre) al ≡ first_type k pl al
first_at-first_type k pre [] [] e = refl
first_at-first_type k pre [] (a ∷ al) e = absurd (omega arith)
first_at-first_type k pre (p ∷ pl) [] e = absurd (omega arith)
first_at-first_type k pre (p ∷ pl) (a ∷ al) e =
    let len : length (pre ++ p ∷ []) ≡ suc (length pre) = length-concat pre p in
    let rest : first_at k (pre ++ p ∷ pl) (suc (length pre)) al ≡ first_type k pl al =
      subst₂ (λ l n. first_at k l n al ≡ first_type k pl al) (append_assoc pre (p ∷ []) pl) len
        (first_at-first_type k (pre ++ p ∷ []) pl al (omega arith)) in
    rw (at-append pre p pl, rest)

abbrev pub forward_index : {D : Type 0} → Argument D → Option ℕ
forward_index (forward_argument k) = some k
forward_index _ = none

abbrev pub placeholder_index : {D : Type 0} → Arg D → Option ℕ
placeholder_index (placeholder_arg k) = some k
placeholder_index _ = none

-- The arguments of the parameters are no options.
abbrev pub NoOption : {D : Type 0} → List CppType → List (Arg D) → Type 0
NoOption (p ∷ pl) (a ∷ args) = (is_option (arg_type a) ≡ false) × NoOption pl args
NoOption _ _ = Unit {0}

-- The number of a placeholder is an `unsigned`.
abbrev pub IsSmallPlaceholder : {D : Type 0} → Arg D → Type 0
IsSmallPlaceholder (placeholder_arg k) = k + 1 < 2 ^ 32
IsSmallPlaceholder _ = Unit {0}

-- `NNewArgs` after an argument, and whether an argument is for an index.
abbrev pub with_index : ℕ → Option ℕ → ℕ
with_index n none = n
with_index n (some k) = max n ((k + 1) % 2 ^ 32)

abbrev pub is_index : ℕ → Option ℕ → Bool
is_index k none = false
is_index k (some j) = j == k

IsSmall-none : {D : Type 0} (x : Argument D) → forward_index x ≡ none → IsSmall x
IsSmall-none (forward_argument k) h = cc
IsSmall-none (int_argument n) h = tt
IsSmall-none x h = tt

module _ {D : Type 0} ⦃conv : Conversions D⦄ where
  forward_index-plain :
      (p : CppType) (v : Value D) (a : ℕ) (b : List ℕ) (x : Argument D)
      → plain_argument p v a b ≡ ok x
      → forward_index x ≡ none
  forward_index-plain boolean v a b x h = ground arith
  forward_index-plain p v a b x h = ground arith

  -- A parameter is bound to a forwarded index exactly if its argument is a placeholder.
  pub forward_index-bound :
      (p : CppType) (a : Arg D) (x : Argument D)
      → IsSmallPlaceholder a
      → bound_argument p a ≡ ok x
      → (forward_index x ≡ placeholder_index a) × IsSmall x
  forward_index-bound p (placeholder_arg k) x small h =
      let e : k % 2 ^ 32 ≡ k = omega arith in
      let same : forward_argument k ≡ x = cc (e, h) in rw (← same) (refl, small)
  forward_index-bound p (wrapper_arg t f) x small h =
      let e : forward_index x ≡ none = ground arith in (e, IsSmall-none x e)
  forward_index-bound p (option_arg o a b) x small h =
      let e = forward_index-plain p object_value a b x h in (e, IsSmall-none x e)
  forward_index-bound p (plain v a b) x small h =
      let e = forward_index-plain p v a b x h in (e, IsSmall-none x e)

module _ {D : Type 0} where
  pub count_new_args-cons :
      (n : ℕ) (x : Argument D) (xs : List (Argument D))
      → count_new_args n (x ∷ xs) ≡ count_new_args (with_index n (forward_index x)) xs
  unfolding count_new_args
  count_new_args-cons n (forward_argument k) xs = refl
  count_new_args-cons n x xs = refl

  pub first_forward-cons :
      (k : ℕ) (x : Argument D) (xs : List (Argument D)) (h : HighLevelArg) (hs : List HighLevelArg)
      → first_forward k (x ∷ xs) (h ∷ hs)
        ≡ (if is_index k (forward_index x) then some h else first_forward k xs hs)
  first_forward-cons k (forward_argument j) xs h hs = refl
  first_forward-cons k x xs h hs = refl

-- The arguments of `easy::jit` for meta.h, less the options.
abbrev pub clean : {D : Type 0} → List (Arg D) → List ArgType
clean args = discard_options (map arg_type args)

module _ {D : Type 0} where
  pub clean-cons :
      (a : Arg D) (args : List (Arg D))
      → is_option (arg_type a) ≡ false
      → clean (a ∷ args) ≡ arg_type a ∷ clean args
  unfolding discard_options
  clean-cons a args h = ground arith

  pub is_this-arg_type :
      (k : ℕ) (a : Arg D) → is_this k (arg_type a) ≡ is_index k (placeholder_index a)
  is_this-arg_type k (placeholder_arg j) = refl
  is_this-arg_type k a = refl

  pub max_placeholder-cons :
      (n : ℕ) (a : Arg D) (al : List ArgType)
      → IsSmallPlaceholder a
      → max_placeholder_from n (arg_type a ∷ al)
        ≡ max_placeholder_from (with_index n (placeholder_index a)) al
  unfolding max_placeholder_from
  max_placeholder-cons n (placeholder_arg k) al small =
      let e : (if ltb n (suc k) then suc k else n) ≡ max n ((k + 1) % 2 ^ 32) = ground arith in rw e
  max_placeholder-cons n (wrapper_arg t f) al small = ground arith
  max_placeholder-cons n a al small = ground arith
