-- ===== src/Cache/Auto.antt =====
-- include/easy/code_cache.h, the keys that the cache makes itself, and the hash of pairs of
-- include/easy/runtime/Context.h: a function's address and the context of the call.
use Prim.Native.Nat.{bit_xor}
use mathlib.Core.Option
use easy_just_in_time.Prelude.{
  ℕ, ◌≡◌, ◌↔◌, ◌⊎◌, refl, sym, ◌∙◌, Option-cases, Bool, true, false, ◌&&◌, List, [], ◌∷◌, some,
  Result, ok, ◌>>=◌, ◌==◌, arith, Bool-cases, inl, inr,
}
use easy_just_in_time.Meta.{CppType}
use easy_just_in_time.Context.{Double, StdHash, Context, context_eq, context_hash}
use easy_just_in_time.Context.Equality.{
  IsPartialEquality, SameArguments, context_eq_iff, context_eq_partial,
}
use easy_just_in_time.Context.Hash.{IsHashOf, context_hash-context_eq}
use easy_just_in_time.Params.{Conversions, Arg, BindError, get_context_for}
use easy_just_in_time.Cache.{Cache, Answer, jit, has}
use easy_just_in_time.Cache.Laws.{
  IsPartialEquivalence, jit_all, first_outcome, answer, entry, jit-first_outcome,
}

-- `AutoKey`, with `==` and the hash of pairs.
pub record AutoKey (D : Type 0) : Type 0 where
  pub fun_ptr : ℕ
  pub context : Context D

unfoldable pub auto_key_eq : {D : Type 0} ⦃double : Double D⦄ → AutoKey D → AutoKey D → Bool
auto_key_eq k j = k.fun_ptr == j.fun_ptr && context_eq k.context j.context

unfoldable pub auto_key_hash : {D : Type 0} ⦃std : StdHash D⦄ → AutoKey D → ℕ
auto_key_hash ⦃std = std⦄ k = bit_xor (std.hash_pointer k.fun_ptr) (context_hash k.context)

-- `jit` and `has` of `Cache<AutoKey>`, for a function with these parameters.
module _ {D F E : Type 0} ⦃conv : Conversions D⦄ ⦃double : Double D⦄ where
  unfoldable pub auto_jit :
      ℕ
      → List CppType
      → List (Arg D)
      → Result E F
      → Cache (AutoKey D) F
      → Result BindError (Cache (AutoKey D) F × Answer E F)
  unfolding auto_key_eq
  auto_jit fun params args compile cache = do
    c ← get_context_for params args
    ok (jit auto_key_eq (record { fun_ptr = fun; context = c }) compile cache)

module _ {D F : Type 0} ⦃conv : Conversions D⦄ ⦃double : Double D⦄ where
  unfoldable pub auto_has :
      ℕ → List CppType → List (Arg D) → Cache (AutoKey D) F → Result BindError Bool
  unfolding auto_key_eq
  auto_has fun params args cache = do
    c ← get_context_for params args
    ok (has auto_key_eq (record { fun_ptr = fun; context = c }) cache)

module _ {D : Type 0} ⦃double : Double D⦄ where
  auto_key_eq_iff :
      (k j : AutoKey D)
      → (auto_key_eq k j ≡ true)
        ↔ ((k.fun_ptr ≡ j.fun_ptr) × (context_eq k.context j.context ≡ true))
  unfolding auto_key_eq
  auto_key_eq_iff k j = ground arith

  pub auto_key_eq-IsPartialEquivalence :
      IsPartialEquality double → IsPartialEquivalence (auto_key_eq {D = D})
  auto_key_eq-IsPartialEquivalence laws = record {
    eq_sym = λ k j h.
        let (same_fun, same) = (auto_key_eq_iff k j).0 h in
        (auto_key_eq_iff j k).1
          (sym same_fun, (context_eq_partial laws k.context j.context k.context).0 same);
    eq_trans = λ k j i h g.
        let (same_fun, same) = (auto_key_eq_iff k j).0 h in
        let (same_fun', same') = (auto_key_eq_iff j i).0 g in
        (auto_key_eq_iff k i).1 (
          same_fun ∙ same_fun',
          (context_eq_partial laws k.context j.context i.context).1 same same',
        );
  }

  -- If equal doubles have one hash, so have equal keys.
  pub auto_key_hash-auto_key_eq :
      ⦃std : StdHash D⦄
      → IsHashOf double std
      → (k j : AutoKey D) → auto_key_eq k j ≡ true
      → auto_key_hash k ≡ auto_key_hash j
  unfolding auto_key_hash
  auto_key_hash-auto_key_eq laws k j h =
      let (same_fun, same) = (auto_key_eq_iff k j).0 h in
      rw (same_fun, context_hash-context_eq laws k.context j.context same)

module _ {D F E : Type 0} ⦃double : Double D⦄ where
  -- One of the calls had this function, the same optimisation levels and the same arguments.
  abbrev pub Compiled : AutoKey D → Result E F → List (AutoKey D × Result E F) → Type 0
  Compiled k r [] = ⊥
  Compiled k r ((j, compile) ∷ calls) =
      ((j.fun_ptr ≡ k.fun_ptr)
        × (j.context.opt_level ≡ k.context.opt_level)
        × (j.context.opt_size ≡ k.context.opt_size)
        × SameArguments j.context.argument_mapping k.context.argument_mapping
        × (compile ≡ r))
      ⊎ Compiled k r calls

  first_outcome-Compiled :
      (k : AutoKey D) (calls : List (AutoKey D × Result E F)) {r : Result E F}
      → first_outcome auto_key_eq k calls ≡ some r
      → Compiled k r calls
  first_outcome-Compiled k [] h = cc
  first_outcome-Compiled k ((j, compile) ∷ calls) {r} h = elim (Bool-cases (auto_key_eq j k)) [
    | inl same ↦
        let (same_fun, same_context) = (auto_key_eq_iff j k).0 same in
        let (level, size, args) = (context_eq_iff j.context k.context).0 same_context in
        inl (same_fun, level, size, args, Option.some_inj.0 (rw same at h))
    | inr other ↦ inr (first_outcome-Compiled k calls (rw other at h))
  ]

module _ {D F E : Type 0} ⦃conv : Conversions D⦄ ⦃double : Double D⦄ where
  -- Take a cache after any calls, and a call for which a context is built, where `==` on doubles is
  -- symmetric and transitive. Either `has` is false and `jit` answers with what compiling gives now; or
  -- `has` is true and `jit` answers with what compiling gave, or the null wrapper if it threw, at an
  -- earlier call with the same function, optimisation levels and arguments.
  pub auto_jit-Compiled :
      (laws : IsPartialEquality double) (calls : List (AutoKey D × Result E F)) (fun : ℕ)
      (params : List CppType) (args : List (Arg D)) (compile : Result E F) {c : Context D}
      → get_context_for params args ≡ ok c
      → (cache' : Cache (AutoKey D) F) × (a : Answer E F) × (auto_jit fun params args compile
            (jit_all auto_key_eq [] calls)
          ≡ ok (cache', a))
        × (((auto_has fun params args (jit_all auto_key_eq [] calls) ≡ ok false)
              × (a ≡ answer compile))
            ⊎ ((r : Result E F) × (auto_has fun params args (jit_all auto_key_eq [] calls)
                  ≡ ok true)
                × Compiled (record { fun_ptr = fun; context = c }) r calls
                × (a ≡ ok (entry r))))
  unfolding auto_jit auto_has
  auto_jit-Compiled laws calls fun params args compile {c} built =
      let k : AutoKey D = record { fun_ptr = fun; context = c } in
      let (returned, there) =
        jit-first_outcome auto_key_eq (auto_key_eq-IsPartialEquivalence laws) calls k compile in
      let called = jit auto_key_eq k compile (jit_all auto_key_eq [] calls) in
      (
        called.0,
        called.1,
        rw built refl,
        (elim (Option-cases (first_outcome auto_key_eq k calls)) [
          | inl new ↦ inl (rw (built, there, new) refl, returned ∙ rw new refl)
          | inr (r, old) ↦ inr (
            r,
            rw (built, there, old) refl,
            first_outcome-Compiled k calls old,
            returned ∙ rw old refl,
          )
        ]),
      )
