-- ===== src/Search/Depth.antt =====
-- The search by recursion ends and visits what is reached.
use easy_just_in_time.Prelude.{
  ℕ, zero, suc, ◌<◌, ◌≡◌, inl, inr, refl, sym, Bool, Option, some, List, [], ◌∷◌, ◌↔◌, arith,
  Bool-cases, length,
}
use easy_just_in_time.Search.{◌∈◌, visit_all, seen, visit}
use easy_just_in_time.Search.Reached.{
  Reach, here, step, Decides, Covers, seen_iff, unseen, unseen-le, unseen-cons, unseen-length,
  Explored, Explored-Reach,
}

module _ {N : Type 0} (same : N → N → Bool) (decides : Decides same) (next : N → List N)
    (universe : List N) (covers : Covers next universe) (root : N) where
  -- One call after the other, for calls that need so much fuel.
  visit_all_explores :
      (fuel : ℕ) (f : N → List N → Option (List N))
      → ((n : N) (vs : List N)
          → Reach next root n
          → unseen same universe vs < fuel
          → (ws : List N) × (f n vs ≡ some ws) × Explored next root (n ∷ []) vs ws)
      → (ns vs : List N) → ((n : N) → n ∈ ns → Reach next root n)
      → ((n : N) → n ∈ ns → unseen same universe vs < fuel)
      → (ws : List N) × (visit_all f ns vs ≡ some ws) × Explored next root ns vs ws
  unfolding visit_all
  visit_all_explores fuel f each [] vs rs lt = (
    vs,
    refl,
    record {
      grows = λ x m. m;
      found = λ x z. elim z [ ];
      closed = λ x y m edge. inl m;
      sound = λ x m. inl m;
    },
  )
  visit_all_explores fuel f each (n ∷ ns) vs rs lt =
      let (us, first, e) = each n vs (rs n (inl refl)) (lt n (inl refl)) in
      let le = unseen-le same decides universe vs us e.grows in
      let more = lt n (inl refl) in
      let (ws, rest, e') =
        visit_all_explores fuel f each ns us (λ m i. rs m (inr i)) (λ m i. omega arith) in
      (
        ws,
        rw (first, visit_all) rest,
        record {
          grows = λ x m. e'.grows x (e.grows x m);
          found = λ x m. elim m [ inl i ↦ e'.grows x (e.found x (inl i)) | inr i ↦ e'.found x i ];
          closed = λ x y m edge. elim (e'.closed x y m edge) [
            | inl i ↦ elim (e.closed x y i edge) [ inl v ↦ inl v | inr u ↦ inr (e'.grows y u) ]
            | inr w ↦ inr w
          ];
          sound = λ x m. elim (e'.sound x m) [ inl u ↦ e.sound x u | inr r ↦ inr r ];
        },
      )

  visit_explores :
      (fuel : ℕ) (n : N) (vs : List N)
      → Reach next root n
      → unseen same universe vs < fuel
      → (ws : List N) × (visit same next fuel n vs ≡ some ws) × Explored next root (n ∷ []) vs ws
  unfolding visit visit_all
  visit_explores zero n vs r lt = absurd (omega arith)
  visit_explores (suc fuel) n vs r lt = elim (Bool-cases (seen same n vs)) [
    | inl old ↦ (
      vs,
      rw (old, visit) refl,
      record {
        grows = λ x m. m;
        found = λ x m. elim m [
          | inl e ↦ (seen_iff same decides x vs).0 (cc (old, e))
          | inr z ↦ elim z [ ]
        ];
        closed = λ x y m edge. inl m;
        sound = λ x m. inl m;
      },
    )
    | inr new ↦
        let (ws, ends, e) =
          visit_all_explores fuel (visit same next fuel) (visit_explores fuel) (next n) (n ∷ vs)
            (λ m edge. step r edge)
            (λ m edge.
              omega (arith, unseen-cons same decides universe vs n (covers n m edge) new)) in
        (
          ws,
          rw (new, visit) ends,
          record {
            grows = λ x m. e.grows x (inr m);
            found = λ x m. elim m [ inl i ↦ e.grows x (inl i) | inr z ↦ elim z [ ] ];
            closed = λ x y m edge. elim (e.closed x y m edge) [
              | inl (inl i) ↦ inr (e.found y (rw i edge))
              | inl (inr v) ↦ inl v
              | inr w ↦ inr w
            ];
            sound = λ x m. elim (e.sound x m) [
              | inl (inl i) ↦ inr (rw (sym i) r)
              | inl (inr v) ↦ inl v
              | inr reached ↦ inr reached
            ];
          },
        )
  ]

  -- Fuel for every node of the universe, and one more call, is enough to visit what is reached.
  pub visit_reaches :
      (ws : List N) × (visit same next (suc (length universe)) root [] ≡ some ws)
      × ((x : N) → (x ∈ ws) ↔ Reach next root x)
  visit_reaches =
      let (ws, ends, e) =
        visit_explores (suc (length universe)) root [] here
          (omega (arith, unseen-length same decides universe)) in
      (ws, ends, Explored-Reach next root ws e)
