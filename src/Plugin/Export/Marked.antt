-- ===== src/Plugin/Export/Marked.antt =====
-- What the marks of a global come to, and what the last loop makes of them.
use Prim.Native.String.{String}
use text.Mathlib.Text.{◌==◌ as str_eq}
use text.Mathlib.TextEquality.{eq_iff}
use easy_just_in_time.Prelude.{
  ℕ, ◌≡◌, ◌≢◌, ◌↔◌, ◌⊎◌, inl, inr, refl, sym, Bool, true, false, not, ◌&&◌, ◌||◌, List, [], ◌∷◌,
  map, arith, if◌then◌else◌, Bool-cases,
}
use easy_just_in_time.Search.Members.{keep, map_ext, map_id}
use easy_just_in_time.Plugin.{Global, SourceModule, is_object, jit_section}
use easy_just_in_time.Plugin.Export.{
  set_section, is_constant, mark_if, regex_mark, regex_functions_to_jit, collect_marked,
  can_extract_bitcode,
}
use easy_just_in_time.Plugin.Export.Marks.{Deduced}

-- A global is collected by the loop at the end.
abbrev pub marked : Global → Bool
marked g = is_object g && str_eq g.section jit_section && can_extract_bitcode g

abbrev pub unmark : Global → Global
unmark g = if is_object g && str_eq g.section jit_section then set_section "" g else g

pub collect_marked_lem :
    (gs : List Global)
    → ((collect_marked gs).0 ≡ map unmark gs)
      × ((collect_marked gs).1 ≡ map (set_section "") (keep marked gs))
unfolding collect_marked
collect_marked_lem [] = (refl, refl)
collect_marked_lem (g ∷ gs) =
    let (globals, objs) = collect_marked_lem gs in
    elim (Bool-cases (is_object g && str_eq g.section jit_section)) [
      | inl e ↦ elim (Bool-cases g.declaration) [
        | inl d ↦ simp (e, d, globals, objs) (refl, refl)
        | inr d ↦ simp (e, d, globals, objs) (refl, refl)
      ]
      | inr e ↦ simp (e, globals, objs) (refl, refl)
    ]

pub unmark-section : (g : Global) → is_object (unmark g) ≡ true → (unmark g).section ≢ jit_section
unmark-section g o jit = elim (Bool-cases (is_object g && str_eq g.section jit_section)) [
  | inl e ↦ cc (simp e at jit)
  | inr e ↦
      let object : is_object g ≡ true = simp e at o in
      let section : g.section ≡ jit_section = simp e at jit in
      let same = (eq_iff g.section jit_section).1 section in cc (e, object, same)
]

pub regex_if_any : String → (String → Bool) → Global → Global
regex_if_any regex matches g = if str_eq regex "" then g else regex_mark matches g

pub regex_functions_to_jit-map :
    (regex : String) (matches : String → Bool) (gs : List Global)
    → regex_functions_to_jit regex matches gs ≡ map (regex_if_any regex matches) gs
unfolding regex_functions_to_jit regex_if_any
regex_functions_to_jit-map regex matches gs = elim (Bool-cases (str_eq regex "")) [
  | inl e ↦
      rw (e, regex_functions_to_jit)
        (sym (map_id (regex_if_any regex matches) (λ g. rw (e, regex_if_any) refl) gs))
  | inr e ↦
      rw (e, regex_functions_to_jit)
        (map_ext (regex_mark matches) (regex_if_any regex matches)
          (λ g. sym (rw (e, regex_if_any) refl)) gs)
]

-- An object is exported: it is in the section, or its name matches, or it may be read at run time and is
-- passed to the interface.
abbrev pub Exported : (ℕ → ℕ) → String → (String → Bool) → SourceModule → Global → Type 0
Exported strip regex matches m g =
    (g.section ≡ jit_section)
    ⊎ (((regex ≢ "") × (matches g.name ≡ true))
        ⊎ ((is_constant g ≡ true) × Deduced strip m.values m.globals g.value))

-- Loops that mark, one after the other, and the one at the end.
pub marked_lem :
    (regex : String) (matches : String → Bool) (counted : ℕ → Bool) (g : Global)
    → marked (regex_if_any regex matches (mark_if counted g)) ≡ (
        is_object g
        && (((is_constant g && counted g.value)
              || ((not (str_eq regex "") && matches g.name) || str_eq g.section jit_section))
            && can_extract_bitcode g))
unfolding regex_if_any
marked_lem regex matches counted g = elim (Bool-cases (is_object g)) [
  | inl o ↦ elim (Bool-cases (is_constant g && counted g.value)) [
    | inl c ↦ elim (Bool-cases (str_eq regex "")) [
      | inl r ↦ simp (o, c, r, regex_if_any)
      | inr r ↦ elim (Bool-cases (matches g.name)) [
        | inl n ↦ simp (o, c, r, n, regex_if_any)
        | inr n ↦ simp (o, c, r, n, regex_if_any)
      ]
    ]
    | inr c ↦ elim (Bool-cases (str_eq regex "")) [
      | inl r ↦ simp (o, c, r, regex_if_any)
      | inr r ↦ elim (Bool-cases (matches g.name)) [
        | inl n ↦ simp (o, c, r, n, regex_if_any)
        | inr n ↦ simp (o, c, r, n, regex_if_any)
      ]
    ]
  ]
  | inr o ↦ elim (Bool-cases (str_eq regex "")) [
    | inl r ↦ simp (o, r, regex_if_any)
    | inr r ↦ simp (o, r, regex_if_any)
  ]
]

pub marked_iff :
    (strip : ℕ → ℕ) (regex : String) (matches : String → Bool) (m : SourceModule)
    (counted : ℕ → Bool)
    → ((v : ℕ) → (counted v ≡ true) ↔ Deduced strip m.values m.globals v)
    → (g : Global)
    → (marked (regex_if_any regex matches (mark_if counted g)) ≡ true)
      ↔ ((is_object g ≡ true) × (g.declaration ≡ false) × Exported strip regex matches m g)
marked_iff strip regex matches m counted iff g = ground (
  arith,
  marked_lem regex matches counted g,
  iff g.value,
  eq_iff g.section jit_section,
  eq_iff regex "",
)

-- Marking changes the section only.
pub set_section-if :
    (section : String) (test : Bool) (g : Global)
    → set_section "" (if test then set_section section g else g) ≡ set_section "" g
set_section-if section true g = refl
set_section-if section false g = refl

pub set_section-regex_if_any :
    (regex : String) (matches : String → Bool) (g : Global)
    → set_section "" (regex_if_any regex matches g) ≡ set_section "" g
unfolding regex_if_any
set_section-regex_if_any regex matches g = elim (Bool-cases (str_eq regex "")) [
  | inl r ↦ rw (r, regex_if_any) refl
  | inr r ↦ rw (r, regex_if_any) (set_section-if jit_section (is_object g && matches g.name) g)
]
