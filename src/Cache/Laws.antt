-- ===== src/Cache/Laws.antt =====
-- What the cache returns, call after call.
use mathlib.Core.Option
use easy_just_in_time.Prelude.{
  ◌≡◌, refl, Bool, true, false, List, [], ◌∷◌, Option, none, some, Result, ok, err, if◌then◌else◌,
  arith, Option-cases, inl, inr,
}
use easy_just_in_time.UnorderedMap.{find, emplace, assign_first, is_some, find-eq}
use easy_just_in_time.Cache.{FunctionWrapperBase, null_wrapper, moved, Cache, Answer, jit, has}

-- `==` on the keys is symmetric and transitive.
pub record IsPartialEquivalence {ℓ} {K : Type ℓ} (key_eq : K → K → Bool) : Type ℓ where
  pub eq_sym : (a b : K) → key_eq a b ≡ true → key_eq b a ≡ true
  pub eq_trans : (a b c : K) → key_eq a b ≡ true → key_eq b c ≡ true → key_eq a c ≡ true

-- What a call that compiles returns, and the entry that it leaves behind.
module _ {ℓ κ} {F : Type ℓ} {E : Type κ} where
  abbrev pub answer : Result E F → Answer E F
  answer (ok f) = ok (moved f)
  answer (err e) = err e

  abbrev pub entry : Result E F → FunctionWrapperBase F
  entry (ok f) = moved f
  entry (err e) = null_wrapper

module _ {ℓ κ} {K : Type ℓ} {F : Type κ} (key_eq : K → K → Bool)
    (laws : IsPartialEquivalence key_eq) where
  find_irreflexive : (k : K) (c : Cache K F) → key_eq k k ≡ false → find key_eq k c ≡ none
  unfolding find
  find_irreflexive k [] h = refl
  find_irreflexive k ((j, fw) ∷ c) h =
      ground (arith, laws.eq_sym j k, laws.eq_trans k j k, find_irreflexive k c h)

module _ {ℓ κ μ} {K : Type ℓ} {F : Type κ} {E : Type μ} (key_eq : K → K → Bool) where
  -- A call with a key that is there returns its entry and leaves the cache alone.
  jit-hit :
      (k : K) (compile : Result E F) (c : Cache K F) (fw : FunctionWrapperBase F)
      → find key_eq k c ≡ some fw
      → jit key_eq k compile c ≡ (c, ok fw)
  unfolding jit emplace
  jit-hit k compile c fw h = ground arith

  jit-miss :
      (k : K) (compile : Result E F) (c : Cache K F)
      → find key_eq k c ≡ none
      → jit key_eq k compile c ≡ ((k, entry compile) ∷ c, answer compile)
  unfolding jit emplace assign_first
  jit-miss k (ok f) c h = ground arith
  jit-miss k (err e) c h = ground arith

  -- The cache after a sequence of calls.
  abbrev pub jit_all : Cache K F → List (K × Result E F) → Cache K F
  jit_all c [] = c
  jit_all c ((k, compile) ∷ calls) = jit_all (jit key_eq k compile c).0 calls

  -- The outcome of compiling at the first call with an equal key.
  abbrev pub first_outcome : K → List (K × Result E F) → Option (Result E F)
  first_outcome k [] = none
  first_outcome k ((j, compile) ∷ calls) =
      if key_eq j k then some compile else first_outcome k calls

  abbrev or_else :
      Option (FunctionWrapperBase F) → Option (Result E F) → Option (FunctionWrapperBase F)
  or_else none o = Option.map entry o
  or_else (some fw) o = some fw

  module _ (laws : IsPartialEquivalence key_eq) where
    find-jit_all :
        (k : K) (c : Cache K F) (calls : List (K × Result E F))
        → find key_eq k (jit_all c calls) ≡ or_else (find key_eq k c) (first_outcome k calls)
    unfolding find
    find-jit_all k c [] = elim (Option-cases (find key_eq k c)) [
      | inl e ↦ rw e
      | inr (fw, e) ↦ rw e
    ]
    find-jit_all k c ((j, compile) ∷ calls) = elim (Option-cases (find key_eq j c)) [
      | inl new ↦ rw (jit-miss j compile c new) (
          ground (
            arith,
            new,
            find-jit_all k ((j, entry compile) ∷ c) calls,
            find-eq key_eq laws.eq_sym laws.eq_trans j k c,
          ))
      | inr (fw, old) ↦ rw (jit-hit j compile c fw old) (
          ground
            (arith, old, find-jit_all k c calls, find-eq key_eq laws.eq_sym laws.eq_trans j k c))
    ]

    abbrev pub expected_answer : Result E F → Option (Result E F) → Answer E F
    expected_answer compile none = answer compile
    expected_answer compile (some first) = ok (entry first)

    -- Let `==` on keys be symmetric and transitive. After any calls, `jit` answers with what compiling
    -- gives if no earlier call had an equal key. If one had, it returns what the first of them left
    -- behind, whatever compiling would give now: its function, or the null wrapper if compiling threw.
    -- `has` says whether there was such a call.
    pub jit-first_outcome :
        (calls : List (K × Result E F)) (k : K) (compile : Result E F)
        → ((jit key_eq k compile (jit_all [] calls)).1
            ≡ expected_answer compile (first_outcome k calls))
          × (has key_eq k (jit_all [] calls) ≡ is_some (first_outcome k calls))
    unfolding has find
    jit-first_outcome calls k compile = elim (Option-cases (first_outcome k calls)) [
      | inl e ↦
          let new = find-jit_all k [] calls in
          (rw e (rw (jit-miss k compile (jit_all [] calls) (rw e at new))), rw e (rw (new, e)))
      | inr (first, e) ↦
          let old = find-jit_all k [] calls in
          (
            rw e (rw (jit-hit k compile (jit_all [] calls) (entry first) (rw e at old))),
            rw e (rw (old, e)),
          )
    ]

    -- Let `==` on keys be symmetric and transitive. With a key that is not equal to itself, as one with a
    -- NaN, `jit` answers with what compiling gives and adds an entry, and `has` is false afterwards.
    pub jit_irreflexive :
        (c : Cache K F) (k : K) (compile : Result E F)
        → key_eq k k ≡ false
        → (jit key_eq k compile c ≡ ((k, entry compile) ∷ c, answer compile))
          × (has key_eq k (jit key_eq k compile c).0 ≡ false)
    unfolding has
    jit_irreflexive c k compile h =
        let missed = jit-miss k compile c (find_irreflexive key_eq laws k c h) in
        (missed, rw missed (rw (find_irreflexive key_eq laws k ((k, entry compile) ∷ c) h)))
