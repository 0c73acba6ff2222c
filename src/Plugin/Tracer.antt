-- ===== src/Plugin/Tracer.antt =====
-- pass/MayAliasTracer.cpp: which global objects a value may lead to. A node of the search is a call of one
-- of the two methods, which keep a set of visited values each.
pub mod Stored
use easy_just_in_time.Prelude.{
  ℕ, zero, suc, ap, ◌+◌, ◌<◌, ◌≡◌, ◌↔◌, ◌⊎◌, inl, inr, refl, sym, Bool, true, false, ◌||◌, Option,
  none, some, List, [], ◌∷◌, ◌++◌, map, ◌==◌, ==_iff, arith, length, get_elem?, Option-cases,
  Bool-cases, if◌then◌else◌,
}
use easy_just_in_time.Search.{◌∈◌, visit}
use easy_just_in_time.Search.Reached.{Reach, Decides, Covers}
use easy_just_in_time.Search.Depth.{visit_reaches}
use easy_just_in_time.Plugin.{
  ValueKind, function_value, global_variable, call_inst, store_inst, alloca_inst, element_ptr_inst,
  bit_cast_inst, phi_node, select_inst, element_ptr_expr, bit_cast_expr, constant_array, other_user,
  not_a_user, Value, value_at, value_at-missing, get_elem?-missing,
}

-- `mayAliasWithStoredValues` and `mayAliasWithLoadedValues` of a value.
pub data Node : Type 0 where
  stored loaded : ℕ → Node

abbrev pub same : Node → Node → Bool
same (stored v) (stored w) = v == w
same (stored v) (loaded w) = false
same (loaded v) (stored w) = false
same (loaded v) (loaded w) = v == w

-- The calls that a call makes. A memcpy has a second argument.
abbrev pub may_alias_with_stored_values : Value → List Node
may_alias_with_stored_values value = elim value.kind [
  | call_inst true callee args ↦ elim (get_elem? args 1) [
    | none ↦ []
    | some source ↦ loaded source ∷ []
  ]
  | store_inst stored_value pointer ↦ loaded stored_value ∷ []
  | alloca_inst array_size ↦ map stored value.users
  | element_ptr_inst pointer indices ↦ map stored value.users
  | bit_cast_inst operand ↦ map stored value.users
  | _ ↦ []
]

abbrev pub may_alias_with_loaded_values : ℕ → Value → List Node
may_alias_with_loaded_values v value = elim value.kind [
  | phi_node operands ↦ map loaded operands
  | select_inst condition on_true on_false ↦ loaded on_true ∷ loaded on_false ∷ []
  | alloca_inst array_size ↦ stored v ∷ []
  | element_ptr_inst pointer indices ↦ loaded pointer ∷ []
  | bit_cast_inst operand ↦ loaded operand ∷ []
  | element_ptr_expr pointer indices ↦ loaded pointer ∷ []
  | bit_cast_expr operand ↦ loaded operand ∷ []
  | global_variable (some init) ↦ loaded init ∷ stored v ∷ []
  | global_variable none ↦ stored v ∷ []
  | constant_array operands ↦ map loaded operands
  | _ ↦ []
]

unfoldable pub next : List Value → Node → List Node
next values (stored v) = may_alias_with_stored_values (value_at values v)
next values (loaded v) = may_alias_with_loaded_values v (value_at values v)

abbrev is_global_object : ValueKind → Bool
is_global_object (function_value instructions operands) = true
is_global_object (global_variable initializer) = true
is_global_object _ = false

-- `GOs_`, of the values of the visited calls.
abbrev pub objects : List Value → List Node → List ℕ
objects values [] = []
objects values (stored v ∷ nodes) =
    let rest = objects values nodes in
    if is_global_object (value_at values v).kind then v ∷ rest else rest
objects values (loaded v ∷ nodes) =
    let rest = objects values nodes in
    if is_global_object (value_at values v).kind then v ∷ rest else rest

-- The constructor of the tracer. The recursion visits a node at most once, so that a call more than there
-- are nodes is enough.
unfoldable pub trace : List Value → ℕ → Option (List ℕ)
trace values v =
    elim (visit same (next values) (suc (length values + length values)) (loaded v) []) [
      | none ↦ none
      | some nodes ↦ some (objects values nodes)
    ]

unfoldable pub count : List ℕ → ℕ → Bool
count [] v = false
count (o ∷ os) v = o == v || count os v

-- That is, `GlobalObject` of the value table
abbrev pub IsObject : List Value → ℕ → Type 0
IsObject values v = is_global_object (value_at values v).kind ≡ true

same-Decides : Decides same
same-Decides (stored v) (stored w) = ground (arith, ==_iff v w)
same-Decides (stored v) (loaded w) = (λ e. cc, λ e. cc)
same-Decides (loaded v) (stored w) = (λ e. cc, λ e. cc)
same-Decides (loaded v) (loaded w) = ground (arith, ==_iff v w)

universe : ℕ → List Node
universe zero = []
universe (suc n) = stored n ∷ loaded n ∷ universe n

length-universe : (n : ℕ) → length (universe n) ≡ n + n
unfolding universe
length-universe zero = refl
length-universe (suc n) = omega (arith, length-universe n)

in_universe : (n v : ℕ) → v < n → (stored v ∈ universe n) × (loaded v ∈ universe n)
unfolding universe
in_universe zero v lt = absurd (omega arith)
in_universe (suc n) v lt = elim (Bool-cases (n == v)) [
  | inl e ↦ (inl (ap stored ((==_iff n v).0 e)), inr (inl (ap loaded ((==_iff n v).0 e))))
  | inr e ↦ let (s, l) = in_universe n v (ground (arith, ==_iff n v)) in (inr (inr s), inr (inr l))
]

next-missing :
    (values : List Value) (v : ℕ)
    → get_elem? values v ≡ none
    → (next values (stored v) ≡ []) × (next values (loaded v) ≡ [])
unfolding next
next-missing values v missing =
    let absent = value_at-missing values v missing in
    (ap may_alias_with_stored_values absent, ap (may_alias_with_loaded_values v) absent)

-- Only values of the table make calls.
next-Covers : (values : List Value) → Covers (next values) (universe (length values))
next-Covers values (stored v) m edge = elim (get_elem?-missing values v) [
  | inl missing ↦ elim (rw ((next-missing values v missing).0) at edge) [ ]
  | inr lt ↦ (in_universe (length values) v lt).0
]
next-Covers values (loaded v) m edge = elim (get_elem?-missing values v) [
  | inl missing ↦ elim (rw ((next-missing values v missing).1) at edge) [ ]
  | inr lt ↦ (in_universe (length values) v lt).1
]

count_iff : (os : List ℕ) (v : ℕ) → (count os v ≡ true) ↔ (v ∈ os)
unfolding count
count_iff [] v = ground arith
count_iff (o ∷ os) v = ground (arith, ==_iff o v, count_iff os v)

objects_iff :
    (values : List Value) (nodes : List Node) (v : ℕ)
    → (v ∈ objects values nodes) ↔ (((stored v ∈ nodes) ⊎ (loaded v ∈ nodes)) × IsObject values v)
objects_iff values [] v = ground arith
objects_iff values (stored w ∷ nodes) v = elim (Bool-cases (w == v)) [
  | inl e ↦
      ground (arith, ==_iff w v, same-Decides (stored w) (stored v), objects_iff values nodes v)
  | inr e ↦
      ground (arith, ==_iff w v, same-Decides (stored w) (stored v), objects_iff values nodes v)
]
objects_iff values (loaded w ∷ nodes) v = elim (Bool-cases (w == v)) [
  | inl e ↦
      ground (arith, ==_iff w v, same-Decides (loaded w) (loaded v), objects_iff values nodes v)
  | inr e ↦
      ground (arith, ==_iff w v, same-Decides (loaded w) (loaded v), objects_iff values nodes v)
]

-- A value may lead to another where the calls from its first one come to it.
abbrev pub LeadsTo : List Value → ℕ → ℕ → Type 0
LeadsTo values root v =
    Reach (next values) (loaded root) (stored v) ⊎ Reach (next values) (loaded root) (loaded v)

-- The constructor of the tracer returns, and its `count` is true of the global objects that the calls from
-- its argument come to, and of no others.
pub trace_returns :
    (values : List Value) (root : ℕ)
    → (os : List ℕ) × (trace values root ≡ some os)
      × ((v : ℕ) → (count os v ≡ true) ↔ (LeadsTo values root v × IsObject values v))
unfolding trace
trace_returns values root =
    let (nodes, ends, iff) =
      visit_reaches same same-Decides (next values) (universe (length values)) (next-Covers values)
        (loaded root) in
    (
      objects values nodes,
      rw (rw (length-universe (length values)) at ends, trace) refl,
      λ v. ground (
        arith,
        count_iff (objects values nodes) v,
        objects_iff values nodes v,
        iff (stored v),
        iff (loaded v),
      ),
    )
