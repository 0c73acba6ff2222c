-- ===== src/Inline/Bind/Placeholders.antt =====
-- The placeholders of a call of `easy::jit`, each used once: in the context there is one argument for each
-- forwarded index.
use mathlib.Core.Option
use easy_just_in_time.Prelude.{
  ℕ, zero, suc, ◌≡◌, ◌≢◌, refl, sym, ap, ◌∙◌, true, false, List, [], ◌∷◌, some, ok, get_elem?, ◌==◌,
  ==_iff, All, Bool-cases, inl, inr,
}
use easy_just_in_time.Meta.{is_option, CppType, boolean}
use easy_just_in_time.Context.{Argument, forward_argument}
use easy_just_in_time.Params.{
  Conversions, Arg, placeholder_arg, wrapper_arg, option_arg, plain, arg_type,
}
use easy_just_in_time.Params.Bound.{Bound, bound_argument}
use easy_just_in_time.Tracker.{BitcodeTracker}
use easy_just_in_time.Inline.{HighLevelArg}
use easy_just_in_time.Inline.NewLayout.{first_forward}
use easy_just_in_time.Inline.Forwarded.{
  NoOption, IsSmallPlaceholder, placeholder_index, forward_index-bound,
}
use easy_just_in_time.Inline.Bind.{no_more, IsScalar, AreScalars}

-- No placeholder is used twice.
abbrev pub Unused : {D : Type 0} → ℕ → List (Arg D) → Type 0
Unused k [] = Unit {0}
Unused k (placeholder_arg j ∷ args) = (j ≢ k) × Unused k args
Unused k (a ∷ args) = Unused k args

abbrev pub UsedOnce : {D : Type 0} → List (Arg D) → Type 0
UsedOnce [] = Unit {0}
UsedOnce (placeholder_arg k ∷ args) = Unused k args × UsedOnce args
UsedOnce (a ∷ args) = UsedOnce args

module _ {D : Type 0} where
  pub first_forward-found :
      (k i : ℕ) (xs : List (Argument D)) (hs : List HighLevelArg) {h : HighLevelArg}
      → get_elem? xs i ≡ some (forward_argument k)
      → get_elem? hs i ≡ some h
      → (h0 : HighLevelArg) × (first_forward k xs hs ≡ some h0)
  first_forward-found k i [] hs at_i here = cc
  first_forward-found k i (x ∷ xs) [] at_i here = cc
  first_forward-found k zero (x ∷ xs) (h ∷ hs) at_i here =
      let same : x ≡ forward_argument k = Option.some_inj.0 at_i in
      let this : (k == k) ≡ true = (==_iff k k).1 refl in rw same (rw this (h, refl))
  first_forward-found k (suc i) (forward_argument j ∷ xs) (h ∷ hs) at_i here =
      elim (Bool-cases (j == k)) [
        | inl this ↦ rw this (h, refl)
        | inr other ↦ rw other (first_forward-found k i xs hs at_i here)
      ]
  first_forward-found k (suc i) (x ∷ xs) (h ∷ hs) at_i here =
      first_forward-found k i xs hs at_i here

  placeholder_only : (k : ℕ) (a : Arg D) → placeholder_index a ≡ some k → a ≡ placeholder_arg k
  placeholder_only k (placeholder_arg j) e = ap placeholder_arg (Option.some_inj.0 e)
  placeholder_only k (wrapper_arg t f) e = cc
  placeholder_only k (option_arg o a b) e = cc
  placeholder_only k (plain v a b) e = cc

  Unused-cons :
      (k : ℕ) (a : Arg D) (args : List (Arg D))
      → Unused k (a ∷ args)
      → (a ≢ placeholder_arg k) × Unused k args
  Unused-cons k (placeholder_arg j) args u = ((λ e. u.0 (cc e)), u.1)
  Unused-cons k (wrapper_arg t f) args u = ((λ e. cc e), u)
  Unused-cons k (option_arg o a b) args u = ((λ e. cc e), u)
  Unused-cons k (plain v a b) args u = ((λ e. cc e), u)

  UsedOnce-cons :
      (k : ℕ) (a : Arg D) (args : List (Arg D))
      → UsedOnce (a ∷ args)
      → UsedOnce args × (a ≡ placeholder_arg k → Unused k args)
  UsedOnce-cons k (placeholder_arg j) args u =
      (u.1, λ e. let same : j ≡ k = cc e in rw same at (u.0))
  UsedOnce-cons k (wrapper_arg t f) args u = (u, λ e. cc e)
  UsedOnce-cons k (option_arg o a b) args u = (u, λ e. cc e)
  UsedOnce-cons k (plain v a b) args u = (u, λ e. cc e)

  scalar_placeholder :
      (bt : BitcodeTracker) (p : CppType) (a : Arg D)
      → IsScalar bt p a
      → (is_option (arg_type a) ≡ false) × IsSmallPlaceholder a
  scalar_placeholder bt p (placeholder_arg k) s = (refl, s)
  scalar_placeholder bt p (plain v a b) s = (refl, tt)
  scalar_placeholder bt boolean (wrapper_arg t f) s = elim s [ ]
  scalar_placeholder bt p (wrapper_arg t f) s = elim s [ ]
  scalar_placeholder bt boolean (option_arg o a b) s = elim s [ ]
  scalar_placeholder bt p (option_arg o a b) s = elim s [ ]

module _ {D : Type 0} ⦃conv : Conversions D⦄ (bt : BitcodeTracker) where
  options_small :
      (opts : List (Arg D)) (xs : List (Argument D))
      → Bound [] opts xs
      → All IsSmallPlaceholder opts
  options_small [] xs bound = tt
  options_small (option_arg o a b ∷ opts) xs bound = (tt, options_small opts xs bound)
  options_small (placeholder_arg k ∷ opts) xs bound = elim bound [ ]
  options_small (wrapper_arg t f ∷ opts) xs bound = elim bound [ ]
  options_small (plain v a b ∷ opts) xs bound = elim bound [ ]

  pub scalars_small :
      (pl : List CppType) (args : List (Arg D)) (xs : List (Argument D))
      → Bound pl args xs
      → AreScalars bt pl args
      → NoOption pl args × All IsSmallPlaceholder args
  scalars_small [] args xs bound scalars = (tt, options_small args xs bound)
  scalars_small (p ∷ pl) (a ∷ args) (x ∷ xs) bound scalars =
      let (plain_arg, small) = scalar_placeholder bt p a scalars.0 in
      let rest = scalars_small pl args xs bound.1 scalars.1 in
      ((plain_arg, rest.0), (small, rest.1))
  scalars_small (p ∷ pl) (a ∷ args) [] bound scalars = elim bound [ ]
  scalars_small (p ∷ pl) [] xs bound scalars = elim bound [ ]

  forwards_of :
      (p : CppType) (a : Arg D) (x : Argument D) (k : ℕ)
      → IsScalar bt p a
      → bound_argument p a ≡ ok x
      → x ≡ forward_argument k
      → a ≡ placeholder_arg k
  forwards_of p a x k scalar bound e =
      let index = (forward_index-bound p a x (scalar_placeholder bt p a scalar).1 bound).0 in
      placeholder_only k a (sym index ∙ rw e refl)

  not_forwarded :
      (k : ℕ) (pl : List CppType) (args : List (Arg D)) (xs : List (Argument D)) (i : ℕ)
      → Bound pl args xs
      → AreScalars bt pl args
      → Unused k args
      → get_elem? xs i ≢ some (forward_argument k)
  not_forwarded k [] args xs i bound scalars unused e =
      let none_left : xs ≡ [] = no_more args xs bound in cc (rw none_left at e)
  not_forwarded k (p ∷ pl) (a ∷ args) (x ∷ xs) zero bound scalars unused e =
      (Unused-cons k a args unused).0 (forwards_of p a x k scalars.0 bound.0 (Option.some_inj.0 e))
  not_forwarded k (p ∷ pl) (a ∷ args) (x ∷ xs) (suc i) bound scalars unused e =
      not_forwarded k pl args xs i bound.1 scalars.1 (Unused-cons k a args unused).1 e
  not_forwarded k (p ∷ pl) (a ∷ args) [] i bound scalars unused e = elim bound [ ]
  not_forwarded k (p ∷ pl) [] xs i bound scalars unused e = elim bound [ ]

  -- One index, one argument.
  pub forwarded_once :
      (k : ℕ) (pl : List CppType) (args : List (Arg D)) (xs : List (Argument D)) (i j : ℕ)
      → Bound pl args xs
      → AreScalars bt pl args
      → UsedOnce args
      → get_elem? xs i ≡ some (forward_argument k)
      → get_elem? xs j ≡ some (forward_argument k)
      → i ≡ j
  forwarded_once k [] args xs i j bound scalars once at_i at_j =
      let none_left : xs ≡ [] = no_more args xs bound in cc (rw none_left at at_i)
  forwarded_once k (p ∷ pl) (a ∷ args) (x ∷ xs) zero zero bound scalars once at_i at_j = refl
  forwarded_once k (p ∷ pl) (a ∷ args) (x ∷ xs) zero (suc j) bound scalars once at_i at_j =
      let this = forwards_of p a x k scalars.0 bound.0 (Option.some_inj.0 at_i) in
      absurd
        (not_forwarded k pl args xs j bound.1 scalars.1 ((UsedOnce-cons k a args once).1 this) at_j)
  forwarded_once k (p ∷ pl) (a ∷ args) (x ∷ xs) (suc i) zero bound scalars once at_i at_j =
      let this = forwards_of p a x k scalars.0 bound.0 (Option.some_inj.0 at_j) in
      absurd
        (not_forwarded k pl args xs i bound.1 scalars.1 ((UsedOnce-cons k a args once).1 this) at_i)
  forwarded_once k (p ∷ pl) (a ∷ args) (x ∷ xs) (suc i) (suc j) bound scalars once at_i at_j =
      ap suc (
        forwarded_once k pl args xs i j bound.1 scalars.1 (UsedOnce-cons k a args once).0 at_i at_j)
  forwarded_once k (p ∷ pl) (a ∷ args) [] i j bound scalars once at_i at_j = elim bound [ ]
  forwarded_once k (p ∷ pl) [] xs i j bound scalars once at_i at_j = elim bound [ ]
