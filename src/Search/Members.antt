-- ===== src/Search/Members.antt =====
-- Membership in lists that are mapped and filtered.
use easy_just_in_time.Prelude.{
  ◌≡◌, ◌↔◌, inl, inr, refl, sym, Bool, true, List, [], ◌∷◌, map, arith, if◌then◌else◌, Bool-cases,
}
use easy_just_in_time.Search.{◌∈◌}

abbrev pub keep : {A : Type 0} → (A → Bool) → List A → List A
keep p [] = []
keep p (x ∷ xs) = let rest = keep p xs in if p x then x ∷ rest else rest

pub in_keep :
    {A : Type 0} (p : A → Bool) (xs : List A) (y : A) → (y ∈ keep p xs) ↔ ((y ∈ xs) × (p y ≡ true))
in_keep p [] y = ground arith
in_keep p (x ∷ xs) y = elim (Bool-cases (p x)) [
  | inl holds ↦ rw holds (
    (λ m. elim m [
      | inl e ↦ (inl e, rw (sym e) holds)
      | inr i ↦ let (j, h) = (in_keep p xs y).0 i in (inr j, h)
    ]),
    λ (m, h). elim m [ inl e ↦ inl e | inr i ↦ inr ((in_keep p xs y).1 (i, h)) ],
  )
  | inr fails ↦ rw fails (
    (λ m. let (j, h) = (in_keep p xs y).0 m in (inr j, h)),
    λ (m, h). elim m [ inl e ↦ absurd (cc (h, fails, e)) | inr i ↦ (in_keep p xs y).1 (i, h) ],
  )
]

pub in_map :
    {A B : Type 0} (f : A → B) (xs : List A) (y : B)
    → (y ∈ map f xs) ↔ ((x : A) × (x ∈ xs) × (f x ≡ y))
in_map f [] y = ((λ z. elim z [ ]), λ (x, z, e). elim z [ ])
in_map f (x ∷ xs) y = (
  (λ m. elim m [
    | inl e ↦ (x, inl refl, e)
    | inr i ↦ let (w, j, e) = (in_map f xs y).0 i in (w, inr j, e)
  ]),
  λ (w, m, e). elim m [ inl i ↦ inl (rw i e) | inr j ↦ inr ((in_map f xs y).1 (w, j, e)) ],
)

pub map_ext :
    {A B : Type 0} (f g : A → B) → ((x : A) → f x ≡ g x) → (xs : List A) → map f xs ≡ map g xs
map_ext f g same [] = refl
map_ext f g same (x ∷ xs) = cc (same x, map_ext f g same xs)

pub map_id : {A : Type 0} (f : A → A) → ((x : A) → f x ≡ x) → (xs : List A) → map f xs ≡ xs
map_id f same [] = refl
map_id f same (x ∷ xs) = cc (same x, map_id f same xs)
