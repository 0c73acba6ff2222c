-- ===== src/Search.antt =====
-- Searching a graph, as pass/MayAliasTracer.cpp does by recursion and `getReferencedFromEntry` of
-- pass/Easy.cpp by a stack: `next` are the nodes that a node leads to, in order, and the visited nodes are
-- a list, newest first. `none` means that the fuel ran out.
pub mod Reached
pub mod Depth
pub mod Worklist
pub mod Members
use easy_just_in_time.Prelude.{
  ℕ, zero, suc, Bool, true, false, ◌||◌, ◌⊎◌, ◌≡◌, List, [], ◌∷◌, Option, none, some,
}

module _ {N : Type 0} where
  infix 40 ◌∈◌
  abbrev pub ◌∈◌ : N → List N → Type 0
  n ∈ [] = ⊥
  n ∈ v ∷ vs = (v ≡ n) ⊎ (n ∈ vs)

  -- One call after the other.
  unfoldable pub visit_all : (N → List N → Option (List N)) → List N → List N → Option (List N)
  visit_all f [] vs = some vs
  visit_all f (n ∷ ns) vs = elim (f n vs) [ none ↦ none | some vs' ↦ visit_all f ns vs' ]

  -- The pushes of one round; the head of the list is the top of the stack.
  abbrev pub push_all : List N → List N → List N
  push_all [] stack = stack
  push_all (n ∷ ns) stack = push_all ns (n ∷ stack)

module _ {N : Type 0} (same : N → N → Bool) where
  abbrev pub seen : N → List N → Bool
  seen n [] = false
  seen n (v ∷ vs) = same v n || seen n vs

module _ {N : Type 0} (same : N → N → Bool) (next : N → List N) where
  unfoldable pub visit : ℕ → N → List N → Option (List N)
  unfolding visit_all
  visit zero n vs = none
  visit (suc fuel) n vs = elim (seen same n vs) [
    | true ↦ some vs
    | false ↦ visit_all (visit fuel) (next n) (n ∷ vs)
  ]

  unfoldable pub walk : ℕ → List N → List N → Option (List N)
  walk fuel [] vs = some vs
  walk zero (n ∷ stack) vs = none
  walk (suc fuel) (n ∷ stack) vs = elim (seen same n vs) [
    | true ↦ walk fuel stack vs
    | false ↦ walk fuel (push_all (next n) stack) (n ∷ vs)
  ]
