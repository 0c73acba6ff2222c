-- ===== src/Search/Worklist.antt =====
-- The search by a stack ends, and visits what is reached, each node once.
use easy_just_in_time.Prelude.{
  ℕ, zero, suc, ◌+◌, ◌≤◌, ◌≡◌, inl, inr, refl, sym, Bool, false, some, List, [], ◌∷◌, ◌++◌, ◌↔◌,
  arith, Bool-cases, length,
}
use easy_just_in_time.Search.{◌∈◌, push_all, seen, walk}
use easy_just_in_time.Search.Reached.{
  Reach, here, step, Decides, Covers, seen_iff, edges, edges-le, edges-cons, length-push_all,
  in_push_all, in_append, Explored, Explored-Reach,
}

abbrev pub Distinct : {N : Type 0} → List N → Type 0
Distinct [] = Unit
Distinct (n ∷ ns) = ¬ (n ∈ ns) × Distinct ns

pub Distinct-append_last :
    {N : Type 0} (ns : List N) (x : N) → ¬ (x ∈ ns) → Distinct ns → Distinct (ns ++ (x ∷ []))
Distinct-append_last [] x new d = ((λ z. elim z [ ]), tt)
Distinct-append_last (n ∷ ns) x new d = (
  ground (arith, in_append ns (x ∷ []) n, new, d, λ (e : x ≡ n). new (inl (sym e))),
  Distinct-append_last ns x (λ m. new (inr m)) d.1,
)

module _ {N : Type 0} (same : N → N → Bool) (decides : Decides same) (next : N → List N)
    (universe : List N) (covers : Covers next universe) (root : N) where
  -- A round pops one node and pushes at most the edges that it takes away.
  abbrev work : List N → List N → ℕ
  work stack vs = edges same next universe vs + length stack

  work-pushed :
      (n : N) (stack vs : List N)
      → seen same n vs ≡ false
      → work (push_all (next n) stack) (n ∷ vs) ≤ work stack vs
  work-pushed n stack vs new = go (next n) refl
    where
      go : (ns : List N) → next n ≡ ns → work (push_all (next n) stack) (n ∷ vs) ≤ work stack vs
      go [] e = rw e (omega (arith, edges-le same decides next universe vs n))
      go (m ∷ ms) e = omega (
        arith,
        length-push_all (next n) stack,
        edges-cons same decides next universe vs n (covers n m (rw e (inl refl))) new,
      )

  walk_explores :
      (fuel : ℕ) (stack vs : List N)
      → ((n : N) → n ∈ stack → Reach next root n)
      → work stack vs ≤ fuel
      → Distinct vs
      → (ws : List N) × (walk same next fuel stack vs ≡ some ws)
        × Explored next root stack vs ws
        × Distinct ws
  unfolding walk
  walk_explores fuel [] vs rs le d = (
    vs,
    refl,
    record {
      grows = λ x m. m;
      found = λ x z. elim z [ ];
      closed = λ x y m edge. inl m;
      sound = λ x m. inl m;
    },
    d,
  )
  walk_explores zero (n ∷ stack) vs rs le d = absurd (omega arith)
  walk_explores (suc fuel) (n ∷ stack) vs rs le d = elim (Bool-cases (seen same n vs)) [
    | inl old ↦
        let (ws, ends, e, d') = walk_explores fuel stack vs (λ m i. rs m (inr i)) (omega arith) d in
        (
          ws,
          rw (old, walk) ends,
          record {
            grows = e.grows;
            found = λ x m. elim m [
              | inl i ↦ e.grows x ((seen_iff same decides x vs).0 (cc (old, i)))
              | inr i ↦ e.found x i
            ];
            closed = e.closed;
            sound = e.sound;
          },
          d',
        )
    | inr new ↦
        let (ws, ends, e, d') =
          walk_explores fuel (push_all (next n) stack) (n ∷ vs)
            (λ m i. elim ((in_push_all (next n) stack m).0 i) [
              | inl edge ↦ step (rs n (inl refl)) edge
              | inr j ↦ rs m (inr j)
            ])
            (omega (arith, work-pushed n stack vs new))
            ((λ m. cc (new, (seen_iff same decides n vs).1 m)), d) in
        (
          ws,
          rw (new, walk) ends,
          record {
            grows = λ x m. e.grows x (inr m);
            found = λ x m. elim m [
              | inl i ↦ e.grows x (inl i)
              | inr i ↦ e.found x ((in_push_all (next n) stack x).1 (inr i))
            ];
            closed = λ x y m edge. elim (e.closed x y m edge) [
              | inl (inl i) ↦ inr (e.found y ((in_push_all (next n) stack y).1 (inl (rw i edge))))
              | inl (inr v) ↦ inl v
              | inr w ↦ inr w
            ];
            sound = λ x m. elim (e.sound x m) [
              | inl (inl i) ↦ inr (rw (sym i) (rs n (inl refl)))
              | inl (inr v) ↦ inl v
              | inr reached ↦ inr reached
            ];
          },
          d',
        )
  ]

  -- Fuel for every edge of the universe, and the first round, is enough.
  pub walk_reaches :
      (ws : List N) × (walk same next (suc (edges same next universe [])) (root ∷ []) [] ≡ some ws)
      × ((x : N) → (x ∈ ws) ↔ Reach next root x)
      × Distinct ws
  walk_reaches =
      let (ws, ends, e, d) =
        walk_explores (suc (edges same next universe [])) (root ∷ []) []
          (λ n i. elim i [ inl j ↦ rw (sym j) here | inr z ↦ elim z [ ] ]) (omega arith) tt in
      (ws, ends, Explored-Reach next root ws e, d)
