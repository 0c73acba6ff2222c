-- ===== src/Search/Reached.antt =====
-- Reachability, and how many nodes are still to be visited.
use easy_just_in_time.Prelude.{
  ℕ, suc, ◌+◌, ◌≤◌, ◌<◌, ◌≡◌, ◌↔◌, ◌⊎◌, inl, inr, refl, Bool, true, false, List, [], ◌∷◌, ◌++◌,
  if◌then◌else◌, arith, length,
}
use easy_just_in_time.Search.{◌∈◌, seen, push_all}

-- What is reached from a node by steps to the next ones.
pub data Reach {N : Type 0} (next : N → List N) (root : N) : N → Type 0 where
  here : Reach next root root
  step : {m n : N} → Reach next root m → n ∈ next m → Reach next root n

-- `same` decides equality.
abbrev pub Decides : {N : Type 0} → (N → N → Bool) → Type 0
Decides {N} same = (m n : N) → (same m n ≡ true) ↔ (m ≡ n)

-- The nodes that lead anywhere are among these.
abbrev pub Covers : {N : Type 0} → (N → List N) → List N → Type 0
Covers {N} next universe = (n m : N) → m ∈ next n → n ∈ universe

module _ {N : Type 0} (same : N → N → Bool) where
  -- The edges out of the nodes of a list that are not visited, and their number.
  abbrev pub edges : (N → List N) → List N → List N → ℕ
  edges next [] vs = 0
  edges next (u ∷ us) vs =
      let rest = edges next us vs in if seen same u vs then rest else length (next u) + rest

  abbrev pub unseen : List N → List N → ℕ
  unseen [] vs = 0
  unseen (u ∷ us) vs = let rest = unseen us vs in if seen same u vs then rest else suc rest

module _ {N : Type 0} (same : N → N → Bool) (decides : Decides same) where
  pub seen_iff : (n : N) (vs : List N) → (seen same n vs ≡ true) ↔ (n ∈ vs)
  seen_iff n [] = ground arith
  seen_iff n (v ∷ vs) = ground (arith, decides v n, seen_iff n vs)

  pub unseen-le :
      (us vs ws : List N) → ((x : N) → x ∈ vs → x ∈ ws) → unseen same us ws ≤ unseen same us vs
  unseen-le [] vs ws grows = omega arith
  unseen-le (u ∷ us) vs ws grows =
      ground (arith, unseen-le us vs ws grows, seen_iff u vs, seen_iff u ws, grows u)

  pub unseen-length : (us : List N) → unseen same us [] ≤ length us
  unseen-length [] = omega arith
  unseen-length (u ∷ us) = omega (arith, unseen-length us)

  pub unseen-cons :
      (us vs : List N) (n : N)
      → n ∈ us
      → seen same n vs ≡ false
      → unseen same us (n ∷ vs) < unseen same us vs
  unseen-cons [] vs n m new = elim m [ ]
  unseen-cons (u ∷ us) vs n (inl e) new =
      ground (arith, decides n u, unseen-le us vs (n ∷ vs) (λ x h. inr h))
  unseen-cons (u ∷ us) vs n (inr m) new = ground (arith, unseen-cons us vs n m new)

  pub edges-le :
      (next : N → List N) (us vs : List N) (n : N)
      → edges same next us (n ∷ vs) ≤ edges same next us vs
  edges-le next [] vs n = omega arith
  edges-le next (u ∷ us) vs n = ground (arith, edges-le next us vs n)

  pub edges-cons :
      (next : N → List N) (us vs : List N) (n : N)
      → n ∈ us
      → seen same n vs ≡ false
      → edges same next us (n ∷ vs) + length (next n) ≤ edges same next us vs
  edges-cons next [] vs n m new = elim m [ ]
  edges-cons next (u ∷ us) vs n (inl e) new = ground (arith, decides n u, edges-le next us vs n, e)
  edges-cons next (u ∷ us) vs n (inr m) new = ground (arith, edges-cons next us vs n m new)

pub length-push_all :
    {N : Type 0} (ns stack : List N) → length (push_all ns stack) ≡ length ns + length stack
length-push_all [] stack = omega arith
length-push_all (n ∷ ns) stack = omega (arith, length-push_all ns (n ∷ stack))

pub in_push_all :
    {N : Type 0} (ns stack : List N) (x : N) → (x ∈ push_all ns stack) ↔ ((x ∈ ns) ⊎ (x ∈ stack))
in_push_all [] stack x = ground arith
in_push_all (n ∷ ns) stack x = ground (arith, in_push_all ns (n ∷ stack) x)

pub in_append : {N : Type 0} (ns ms : List N) (x : N) → (x ∈ (ns ++ ms)) ↔ ((x ∈ ns) ⊎ (x ∈ ms))
in_append [] ms x = ground arith
in_append (n ∷ ns) ms x = ground (arith, in_append ns ms x)

-- What a search from `ns` makes of the visited nodes `vs`, where it is sent out from `root`.
pub record Explored {N : Type 0} (next : N → List N) (root : N) (ns vs ws : List N) : Type 0 where
  pub grows : (x : N) → x ∈ vs → x ∈ ws
  pub found : (x : N) → x ∈ ns → x ∈ ws
  pub closed : (x y : N) → x ∈ ws → y ∈ next x → (x ∈ vs) ⊎ (y ∈ ws)
  pub sound : (x : N) → x ∈ ws → (x ∈ vs) ⊎ Reach next root x

-- A search from nothing visited finds what is reached, no less and no more.
pub Explored-Reach :
    {N : Type 0} (next : N → List N) (root : N) (ws : List N)
    → Explored next root (root ∷ []) [] ws
    → (x : N) → (x ∈ ws) ↔ Reach next root x
Explored-Reach {N} next root ws e x =
    ((λ m. elim (e.sound x m) [ inl z ↦ elim z [ ] | inr r ↦ r ]), complete x)
  where
    complete : (x : N) → Reach next root x → x ∈ ws
    complete x here = e.found root (inl refl)
    complete x (step {m} {n} r edge) = elim (e.closed m n (complete m r) edge) [
      | inl z ↦ elim z [ ]
      | inr y ↦ y
    ]
