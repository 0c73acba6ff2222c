-- ===== src/Meta/Mapping.antt =====
-- What the computation of meta.h finds: the type of the parameter that a placeholder first stands for.
use easy_just_in_time.Prelude.{
  ltb→lt, ℕ, zero, suc, ◌-◌, ◌≤◌, ◌≡◌, refl, sym, ◌∙◌, false, List, [], ◌∷◌, none, ok, Bool-cases,
  length, get_elem?, ltb, ◌==◌, if◌then◌else◌, arith, inl, inr,
}
use easy_just_in_time.Meta.{
  CppType, ArgType, placeholder, option_type, value_type, is_placeholder, max_placeholder_from,
  max_placeholder, map_placeholder_to_type,
}
use easy_just_in_time.Meta.Rounds.{first_at, map_helper-first_at}

le-max_placeholder_from : (n : ℕ) (al : List ArgType) → n ≤ max_placeholder_from n al
unfolding max_placeholder_from
le-max_placeholder_from n [] = omega arith
le-max_placeholder_from n (head ∷ al) =
    let rest =
      le-max_placeholder_from (if ltb n (is_placeholder head) then is_placeholder head else n) al in
    ground (arith, rest)

-- No argument is the placeholder of an index from the maximum on.
first_at_beyond :
    (k n i : ℕ) (pl : List CppType) (al : List ArgType)
    → max_placeholder_from n al ≤ k
    → first_at k pl i al ≡ none
unfolding max_placeholder_from
first_at_beyond k n i pl [] le = refl
first_at_beyond k n i pl (placeholder j ∷ al) le =
    let next : ℕ = if ltb n (suc j) then suc j else n in
    let grows = le-max_placeholder_from next al in
    let above : suc j ≤ next = ground arith in
    let other : (j == k) ≡ false = ground (arith, grows, above) in
    rw other (first_at_beyond k next (suc i) pl al le)
first_at_beyond k n i pl (option_type j ∷ al) le =
    first_at_beyond k (if ltb n 0 then 0 else n) (suc i) pl al le
first_at_beyond k n i pl (value_type j ∷ al) le =
    first_at_beyond k (if ltb n 0 then 0 else n) (suc i) pl al le

get_elem?_beyond {ℓ} : {A : Type ℓ} (xs : List A) (k : ℕ) → length xs ≤ k → get_elem? xs k ≡ none
get_elem?_beyond [] k le = refl
get_elem?_beyond (x ∷ xs) zero le = absurd (omega arith)
get_elem?_beyond (x ∷ xs) (suc k) le = get_elem?_beyond xs k (omega arith)

-- If the placeholders of a bind are accepted, the new parameter list has as many entries as the
-- highest placeholder number, and each is the type of the parameter at the first argument that is
-- its placeholder; there is no argument for further entries. (If there are fewer arguments than
-- parameters, the last parameters are bound.)
pub map_placeholder_to_type-first_at :
    (pl : List CppType) (al : List ArgType) {r : List CppType}
    → map_placeholder_to_type pl al ≡ ok r
    → (length r ≡ max_placeholder al)
      × ((k : ℕ) → get_elem? r k ≡ first_at k pl (length pl - length al) al)
unfolding map_placeholder_to_type
map_placeholder_to_type-first_at pl al {r} h =
    let (len, found) = map_helper-first_at (max_placeholder al) pl al h in
    (
      len,
      λ k. elim (Bool-cases (ltb k (length r))) [
        | inl inside ↦ found k (omega (arith, len, ltb→lt k (length r) inside))
        | inr outside ↦
            let le : length r ≤ k = ground (arith, outside) in
            get_elem?_beyond r k le
            ∙ sym (first_at_beyond k 0 (length pl - length al) pl al (omega (arith, len)))
      ],
    )
