-- ===== src/Plugin/Export/Marks.antt =====
-- What the loops of `deduceObjectsToJIT` mark.
use easy_just_in_time.Prelude.{
  ℕ, ◌≡◌, ◌↔◌, inl, inr, refl, sym, ap, ◌∙◌, Bool, true, false, ◌&&◌, ◌||◌, Option, some, List, [],
  ◌∷◌, map, arith, Bool-cases,
}
use easy_just_in_time.Search.{◌∈◌}
use easy_just_in_time.Plugin.{Value, value_at, Global, is_object}
use easy_just_in_time.Plugin.Tracer.{count, trace_returns, LeadsTo, IsObject}
use easy_just_in_time.Plugin.Export.{
  each, compiler_interface, is_constant, call_args, mark_if, deduce_from_argument, deduce_from_user,
  deduce_from_function, deduce_objects_to_jit,
}

-- A loop that ends and marks those counted objects of which `T` holds.
abbrev pub Marks : (ℕ → Type 0) → List Global → Option (List Global) → Type 0
Marks T gs r =
    (counted : ℕ → Bool) × (r ≡ some (map (mark_if counted) gs))
    × ((v : ℕ) → (counted v ≡ true) ↔ T v)

mark_if-none_at : (g : Global) → mark_if (λ v. false) g ≡ g
mark_if-none_at g = ground arith

mark_if-twice_at :
    (p q : ℕ → Bool) (g : Global) → mark_if q (mark_if p g) ≡ mark_if (λ v. p v || q v) g
mark_if-twice_at p q g = elim (Bool-cases (p g.value)) [
  | inl e ↦ elim (Bool-cases (is_object g && is_constant g)) [
    | inl o ↦ ground arith
    | inr o ↦ ground arith
  ]
  | inr e ↦ ground arith
]

mark_if-none : (gs : List Global) → map (mark_if (λ v. false)) gs ≡ gs
mark_if-none [] = refl
mark_if-none (g ∷ gs) = cc (mark_if-none_at g, mark_if-none gs)

mark_if-twice :
    (p q : ℕ → Bool) (gs : List Global)
    → map (mark_if q) (map (mark_if p) gs) ≡ map (mark_if (λ v. p v || q v)) gs
mark_if-twice p q [] = refl
mark_if-twice p q (g ∷ gs) = cc (mark_if-twice_at p q g, mark_if-twice p q gs)

each-Marks :
    {A : Type 0} (T : A → ℕ → Type 0) (f : A → List Global → Option (List Global))
    → ((a : A) (gs : List Global) → Marks (T a) gs (f a gs))
    → (items : List A) (gs : List Global)
    → Marks (λ v. (a : A) × (a ∈ items) × T a v) gs (each f items gs)
unfolding each
each-Marks T f marks [] gs =
    ((λ v. false), ap some (sym (mark_if-none gs)), λ v. ((λ e. cc), λ (a, z, t). elim z [ ]))
each-Marks T f marks (a ∷ items) gs =
    let (p, first, p_iff) = marks a gs in
    let (q, rest, q_iff) = each-Marks T f marks items (map (mark_if p) gs) in
    (
      (λ v. p v || q v),
      rw (first, each) (rest ∙ ap some (mark_if-twice p q gs)),
      λ v. (
        (λ e. elim (Bool-cases (p v)) [
          | inl b ↦ (a, inl refl, (p_iff v).0 b)
          | inr b ↦ let (x, m, t) = (q_iff v).0 (rw b at e) in (x, inr m, t)
        ]),
        λ (x, m, t). elim m [
          | inl i ↦ rw ((p_iff v).1 (rw i t)) refl
          | inr i ↦ ground (arith, (q_iff v).1 (x, i, t))
        ],
      ),
    )

-- The tracer counts a value for an argument, and so for the arguments of all calls that use a function of
-- the compiler interface.
abbrev pub Traced : (ℕ → ℕ) → List Value → ℕ → ℕ → Type 0
Traced strip values o v = LeadsTo values (strip o) v × IsObject values v

abbrev pub Deduced : (ℕ → ℕ) → List Value → List Global → ℕ → Type 0
Deduced strip values gs v =
    (f : Global) × (f ∈ compiler_interface gs)
    × ((u : ℕ) × (u ∈ (value_at values f.value).users)
        × ((o : ℕ) × (o ∈ call_args (value_at values u).kind) × Traced strip values o v))

deduce_from_argument-Marks :
    (strip : ℕ → ℕ) (values : List Value) (o : ℕ) (gs : List Global)
    → Marks (Traced strip values o) gs (deduce_from_argument strip values o gs)
deduce_from_argument-Marks strip values o gs =
    let (os, ends, iff) = trace_returns values (strip o) in
    (count os, rw (ends, deduce_from_argument) refl, iff)

pub deduce_objects_to_jit-Marks :
    (strip : ℕ → ℕ) (values : List Value) (gs : List Global)
    → Marks (Deduced strip values gs) gs (deduce_objects_to_jit strip values gs)
unfolding deduce_objects_to_jit
deduce_objects_to_jit-Marks strip values gs =
    each-Marks
      (λ f v.
        (u : ℕ) × (u ∈ (value_at values f.value).users)
        × ((o : ℕ) × (o ∈ call_args (value_at values u).kind) × Traced strip values o v))
      (deduce_from_function strip values)
      (λ f.
        each-Marks
          (λ u v. (o : ℕ) × (o ∈ call_args (value_at values u).kind) × Traced strip values o v)
          (deduce_from_user strip values)
          (λ u.
            each-Marks (Traced strip values) (deduce_from_argument strip values)
              (deduce_from_argument-Marks strip values) (call_args (value_at values u).kind))
          (value_at values f.value).users)
      (compiler_interface gs) gs
