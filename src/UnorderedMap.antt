-- ===== src/UnorderedMap.antt =====
-- `std::unordered_map`, as far as the runtime uses it: `find` and `emplace`. The entries are a list,
-- and keys are compared by an operation that need be no equivalence: Context.h has one that is not
-- reflexive.
use easy_just_in_time.Prelude.{
  ◌≡◌, refl, Bool, true, false, List, [], ◌∷◌, Option, none, some, if◌then◌else◌, arith,
}

abbrev pub is_some {ℓ} : {A : Type ℓ} → Option A → Bool
is_some none = false
is_some (some a) = true

-- Assignment through the iterator that `emplace` returns for a new entry, which stands first.
unfoldable pub assign_first {ℓ κ} : {K : Type ℓ} {V : Type κ} → V → List (K × V) → List (K × V)
assign_first v [] = []
assign_first v ((j, w) ∷ m) = (j, v) ∷ m

module _ {ℓ κ} {K : Type ℓ} {V : Type κ} (eq : K → K → Bool) where
  unfoldable pub find : K → List (K × V) → Option V
  find k [] = none
  find k ((j, v) ∷ m) = if eq j k then some v else find k m

  -- Nothing changes if the key is there.
  unfoldable pub emplace : K → V → List (K × V) → List (K × V)
  unfolding find
  emplace k v m = if is_some (find k m) then m else (k, v) ∷ m

  -- An entry that is there stays, and a new one is found by the keys that it equals.
  pub find-emplace :
      (k j : K) (v : V) (m : List (K × V))
      → find j (emplace k v m)
        ≡ (if is_some (find k m) then find j m else (if eq k j then some v else find j m))
  unfolding emplace
  find-emplace k j v m = ground arith

  -- Keys that are equal find one entry, if `==` is symmetric and transitive.
  pub find-eq :
      ((a b : K) → eq a b ≡ true → eq b a ≡ true)
      → ((a b c : K) → eq a b ≡ true → eq b c ≡ true → eq a c ≡ true)
      → (k j : K) (m : List (K × V)) → eq k j ≡ true
      → find k m ≡ find j m
  unfolding find
  find-eq eq_sym eq_trans k j [] e = refl
  find-eq eq_sym eq_trans k j ((i, v) ∷ m) e =
      ground (arith, eq_trans i k j, eq_trans i j k, eq_sym k j e, find-eq eq_sym eq_trans k j m e)
