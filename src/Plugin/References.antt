-- ===== src/Plugin/References.antt =====
-- `getReferencedFromEntry` of pass/Easy.cpp: the functions that a global value leads to.
use easy_just_in_time.Prelude.{
  ℕ, suc, ◌≡◌, ◌↔◌, inl, inr, refl, Bool, true, false, Option, none, some, List, [], ◌∷◌, ◌++◌,
  ◌==◌, ==_iff, arith, get_elem?, Bool-cases, length, if◌then◌else◌,
}
use easy_just_in_time.Search.{◌∈◌, walk}
use easy_just_in_time.Search.Reached.{Reach, Covers, edges, in_append}
use easy_just_in_time.Search.Worklist.{Distinct, Distinct-append_last, walk_reaches}
use easy_just_in_time.Plugin.{
  ValueKind, function_value, global_variable, not_a_user, Value, value_at, value_at-missing,
  operands, table, in_table, get_elem?-missing,
}

abbrev nat_same : ℕ → ℕ → Bool
nat_same v w = v == w

-- `isa<User>`
abbrev pub is_user : ValueKind → Bool
is_user not_a_user = false
is_user _ = true

-- The operands that are users.
abbrev users_of : List Value → List ℕ → List ℕ
users_of values [] = []
users_of values (v ∷ vs) =
    let rest = users_of values vs in if is_user (value_at values v).kind then v ∷ rest else rest

abbrev of_instructions : List Value → List (List ℕ) → List ℕ
of_instructions values [] = []
of_instructions values (ops ∷ rest) = users_of values ops ++ of_instructions values rest

-- What is pushed for a value that is taken from the stack, in order: for a function the operands of its
-- instructions, for a variable its initializer, and the operands of every one.
unfoldable pub to_visit : List Value → ℕ → List ℕ
to_visit values v = elim (value_at values v).kind [
  | function_value instructions ops ↦ of_instructions values instructions ++ users_of values ops
  | global_variable (some init) ↦ init ∷ users_of values (init ∷ [])
  | other ↦ users_of values (operands other)
]

-- `isa<Function>`
abbrev pub is_function_value : ValueKind → Bool
is_function_value (function_value instructions ops) = true
is_function_value _ = false

-- `Funs`, of the visited values, newest first.
abbrev pub funs : List Value → List ℕ → List ℕ
funs values [] = []
funs values (v ∷ vs) =
    let rest = funs values vs in
    if is_function_value (value_at values v).kind then rest ++ (v ∷ []) else rest

-- A round more than there are operands is enough.
unfoldable pub get_referenced_from_entry : List Value → ℕ → Option (List ℕ)
get_referenced_from_entry values entry =
    elim (walk nat_same (to_visit values)
      (suc (edges nat_same (to_visit values) (table (length values)) [])) (entry ∷ []) []) [
        | none ↦ none
        | some visited ↦ some (funs values visited)
      ]

to_visit-missing :
    (values : List Value) (v : ℕ) → get_elem? values v ≡ none → to_visit values v ≡ []
unfolding to_visit
to_visit-missing values v missing = rw (value_at-missing values v missing, to_visit) refl

to_visit-Covers : (values : List Value) → Covers (to_visit values) (table (length values))
to_visit-Covers values v w edge = elim (get_elem?-missing values v) [
  | inl missing ↦ elim (rw (to_visit-missing values v missing) at edge) [ ]
  | inr lt ↦ in_table (length values) v lt
]

abbrev pub IsFunction : List Value → ℕ → Type 0
IsFunction values v = is_function_value (value_at values v).kind ≡ true

funs_iff :
    (values : List Value) (vs : List ℕ) (f : ℕ)
    → (f ∈ funs values vs) ↔ ((f ∈ vs) × IsFunction values f)
funs_iff values [] f = ground arith
funs_iff values (v ∷ vs) f = elim (Bool-cases (v == f)) [
  | inl e ↦ ground (arith, ==_iff v f, in_append (funs values vs) (v ∷ []) f, funs_iff values vs f)
  | inr e ↦ ground (arith, ==_iff v f, in_append (funs values vs) (v ∷ []) f, funs_iff values vs f)
]

funs-Distinct : (values : List Value) (vs : List ℕ) → Distinct vs → Distinct (funs values vs)
funs-Distinct values [] d = tt
funs-Distinct values (v ∷ vs) d =
    let rest = funs-Distinct values vs d.1 in
    elim (Bool-cases (is_function_value (value_at values v).kind)) [
      | inl e ↦
          rw e
            (Distinct-append_last (funs values vs) v (λ m. d.0 ((funs_iff values vs v).0 m).0) rest)
      | inr e ↦ rw e rest
    ]

-- The loop ends, and collects exactly the functions that the entry leads to, each one once.
pub get_referenced_from_entry_returns :
    (values : List Value) (entry : ℕ)
    → (fs : List ℕ) × (get_referenced_from_entry values entry ≡ some fs)
      × ((f : ℕ) → (f ∈ fs) ↔ (Reach (to_visit values) entry f × IsFunction values f))
      × Distinct fs
unfolding get_referenced_from_entry
get_referenced_from_entry_returns values entry =
    let (visited, ends, iff, d) =
      walk_reaches nat_same ==_iff (to_visit values) (table (length values))
        (to_visit-Covers values) entry in
    (
      funs values visited,
      rw (ends, get_referenced_from_entry) refl,
      λ f. ground (arith, funs_iff values visited f, iff f),
      funs-Distinct values visited d,
    )
