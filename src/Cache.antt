-- ===== src/Cache.antt =====
-- include/easy/code_cache.h and the null object of include/easy/function_wrapper.h: compiled
-- functions kept by key. `easy::jit` is a parameter of each call, as the outcome that it would have:
-- a function or an exception. Cache.Auto is about the keys that the cache makes itself.
pub mod Laws
pub mod Auto
use easy_just_in_time.Prelude.{
  Bool, true, false, List, [], Option, none, some, Result, ok, err, if◌then◌else◌,
}
use easy_just_in_time.UnorderedMap.{find, emplace, assign_first, is_some}

-- `FunctionWrapperBase`: `Fun_`, which is null in the null object.
pub record FunctionWrapperBase {ℓ} (F : Type ℓ) : Type ℓ where
  pub fun : Option F

abbrev pub null_wrapper {ℓ} : {F : Type ℓ} → FunctionWrapperBase F
null_wrapper = record { fun = none }

-- `FWB = std::move(FW)`
abbrev pub moved {ℓ} : {F : Type ℓ} → F → FunctionWrapperBase F
moved f = record { fun = some f }

unfoldable pub is_valid {ℓ} : {F : Type ℓ} → FunctionWrapperBase F → Bool
is_valid fw = is_some fw.fun

-- `Cache_`
abbrev pub Cache {ℓ κ} : Type ℓ → Type κ → Type (ℓ ⊔ κ)
Cache K F = List (K × FunctionWrapperBase F)

-- What a call of `jit` does: the wrapper that it returns, or the exception that leaves it.
abbrev pub Answer {ℓ κ} : Type ℓ → Type κ → Type (ℓ ⊔ κ)
Answer E F = Result E (FunctionWrapperBase F)

module _ {ℓ κ μ} {K : Type ℓ} {F : Type κ} {E : Type μ} where
  -- `CacheEntry` is the wrapper in the entry, and whether this call inserted it.
  unfoldable pub compile_if_not_in_cache :
      FunctionWrapperBase F → Bool → Result E F → Cache K F → Cache K F × Answer E F
  compile_if_not_in_cache fwb true (ok f) c = let fw = moved f in (assign_first fw c, ok fw)
  compile_if_not_in_cache fwb true (err e) c = (c, err e)
  compile_if_not_in_cache fwb false compile c = (c, ok fwb)

module _ {ℓ κ μ} {K : Type ℓ} {F : Type κ} {E : Type μ} (key_eq : K → K → Bool) where
  unfoldable pub jit : K → Result E F → Cache K F → Cache K F × Answer E F
  unfolding compile_if_not_in_cache
  jit k compile c =
      let entry = find key_eq k c in
      let c' = emplace key_eq k null_wrapper c in
      elim entry [
        | none ↦ compile_if_not_in_cache null_wrapper true compile c'
        | some fwb ↦ compile_if_not_in_cache fwb false compile c'
      ]

module _ {ℓ κ} {K : Type ℓ} {F : Type κ} (key_eq : K → K → Bool) where
  unfoldable pub has : K → Cache K F → Bool
  has k c = is_some (find key_eq k c)
