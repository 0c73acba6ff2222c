-- ===== src/Plugin/Register/Names.antt =====
-- `nameGlobals`: the names that the mapping registers tell the variables apart.
use Prim.Native.String.{String}
use text.Mathlib.Text.{◌==◌ as str_eq}
use text.Mathlib.TextEquality.{eq_iff}
use easy_just_in_time.Prelude.{
  ◌≡◌, ◌≢◌, ◌⊎◌, refl, sym, inl, inr, Bool, true, false, ◌&&◌, List, [], ◌∷◌, if◌then◌else◌,
  Bool-cases,
}
use easy_just_in_time.Search.{◌∈◌}
use easy_just_in_time.Search.Members.{in_keep}
use easy_just_in_time.Search.Worklist.{Distinct}
use easy_just_in_time.Plugin.{Global}
use easy_just_in_time.Plugin.Register.{
  names, is_variable, has_local_linkage, collect_local_globals, name_globals,
}

-- The names of the globals that have one.
abbrev pub given_names : List Global → List String
given_names [] = []
given_names (g ∷ gs) = let rest = given_names gs in if str_eq g.name "" then rest else g.name ∷ rest

-- A name that LLVM makes is none of those in use, and is not empty.
abbrev pub MakesFresh : (List String → String → String) → Type 0
MakesFresh unique =
    (used : List String) (name : String) → ¬ (unique used name ∈ used) × (unique used name ≢ "")

abbrev pub unnamed_local : Global → Bool
unnamed_local g = (is_variable g && has_local_linkage g.linkage) && str_eq g.name ""

pub not_empty : (s : String) → s ≢ "" → str_eq s "" ≡ false
not_empty s h = elim (Bool-cases (str_eq s "")) [
  | inl e ↦ absurd (h ((eq_iff s "").0 e))
  | inr e ↦ e
]

-- The names before and after a round: a name is made, or there is none, or it stays.
NamesRound : (List String → String → String) → List String → Global → List Global → Type 0
NamesRound unique used g gs =
    let made = unique used "unnamed_local_global" in
    let before = given_names (g ∷ gs) in
    let after = given_names (name_globals unique used (g ∷ gs)) in
    ((before ≡ given_names gs)
      × (after ≡ made ∷ given_names (name_globals unique (made ∷ used) gs)))
    ⊎ (((before ≡ given_names gs) × (after ≡ given_names (name_globals unique used gs)))
        ⊎ ((before ≡ g.name ∷ given_names gs)
            × (after ≡ g.name ∷ given_names (name_globals unique used gs))))

names_round :
    (unique : List String → String → String) (used : List String) (g : Global) (gs : List Global)
    → MakesFresh unique
    → NamesRound unique used g gs
unfolding NamesRound
names_round unique used g gs fresh =
    let named =
      not_empty (unique used "unnamed_local_global") (fresh used "unnamed_local_global").1 in
    elim (Bool-cases (is_variable g && has_local_linkage g.linkage)) [
      | inl l ↦ elim (Bool-cases (str_eq g.name "")) [
        | inl e ↦ inl (rw e refl, simp (l, e, named))
        | inr e ↦ inr (inr (rw e refl, simp (l, e)))
      ]
      | inr l ↦ elim (Bool-cases (str_eq g.name "")) [
        | inl e ↦ inr (inl (rw e refl, simp (l, e)))
        | inr e ↦ inr (inr (rw e refl, simp (l, e)))
      ]
    ]

-- A name afterwards was there before, or was not in use.
from_before :
    (unique : List String → String → String) (used : List String) (gs : List Global) (x : String)
    → MakesFresh unique
    → x ∈ given_names (name_globals unique used gs)
    → (x ∈ given_names gs) ⊎ ¬ (x ∈ used)
unfolding NamesRound
from_before unique used [] x fresh m = elim m [ ]
from_before unique used (g ∷ gs) x fresh m = elim (names_round unique used g gs fresh) [
  | inl (before, after) ↦ elim (rw after at m) [
    | inl e ↦ inr (rw (sym e) (fresh used "unnamed_local_global").0)
    | inr i ↦ elim (from_before unique (unique used "unnamed_local_global" ∷ used) gs x fresh i) [
      | inl j ↦ inl (rw before j)
      | inr new ↦ inr (λ u. new (inr u))
    ]
  ]
  | inr (inl (before, after)) ↦ elim (from_before unique used gs x fresh (rw after at m)) [
    | inl j ↦ inl (rw before j)
    | inr new ↦ inr new
  ]
  | inr (inr (before, after)) ↦ elim (rw after at m) [
    | inl e ↦ inl (rw before (inl e))
    | inr i ↦ elim (from_before unique used gs x fresh i) [
      | inl j ↦ inl (rw before (inr j))
      | inr new ↦ inr new
    ]
  ]
]

name_globals-Distinct :
    (unique : List String → String → String) (used : List String) (gs : List Global)
    → MakesFresh unique
    → ((x : String) → x ∈ given_names gs → x ∈ used)
    → Distinct (given_names gs)
    → Distinct (given_names (name_globals unique used gs))
unfolding NamesRound
name_globals-Distinct unique used [] fresh within d = tt
name_globals-Distinct unique used (g ∷ gs) fresh within d =
    elim (names_round unique used g gs fresh) [
      | inl (before, after) ↦
          let made = unique used "unnamed_local_global" in
          rw after (
            (λ m. elim (from_before unique (made ∷ used) gs made fresh m) [
              | inl j ↦ (fresh used "unnamed_local_global").0 (within made (rw before j))
              | inr new ↦ new (inl refl)
            ]),
            name_globals-Distinct unique (made ∷ used) gs fresh
                (λ x i. inr (within x (rw before i))) (rw before at d),
          )
      | inr (inl (before, after)) ↦ rw after (
          name_globals-Distinct unique used gs fresh (λ x i. within x (rw before i))
            (rw before at d))
      | inr (inr (before, after)) ↦
          let d' : Distinct (g.name ∷ given_names gs) = rw before at d in
          rw after (
            (λ m. elim (from_before unique used gs g.name fresh m) [
              | inl j ↦ d'.0 j
              | inr new ↦ new (within g.name (rw before (inl refl)))
            ]),
            name_globals-Distinct unique used gs fresh (λ x i. within x (rw before (inr i))) d'.1,
          )
    ]

local_named :
    (unique : List String → String → String) (used : List String) (gs : List Global) (g : Global)
    → MakesFresh unique
    → g ∈ name_globals unique used gs
    → (is_variable g && has_local_linkage g.linkage) ≡ true
    → g.name ≢ ""
local_named unique used [] g fresh m local = elim m [ ]
local_named unique used (h ∷ gs) g fresh m local = elim (Bool-cases (unnamed_local h)) [
  | inl e ↦
      let made = unique used "unnamed_local_global" in
      elim (rw e at m) [
        | inl same ↦ rw (sym same) (fresh used "unnamed_local_global").1
        | inr i ↦ local_named unique (made ∷ used) gs g fresh i local
      ]
  | inr e ↦ elim (rw e at m) [
    | inl same ↦ (λ empty. kept h g e same local empty)
    | inr i ↦ local_named unique used gs g fresh i local
  ]
]
  where
    kept :
        (h g : Global)
        → unnamed_local h ≡ false
        → h ≡ g
        → (is_variable g && has_local_linkage g.linkage) ≡ true
        → g.name ≢ ""
    kept h g e same local empty =
        let unnamed : unnamed_local g ≡ false = rw same at e in
        cc (unnamed, local, (eq_iff g.name "").1 empty)

given_names-names : (gs : List Global) (x : String) → x ∈ given_names gs → x ∈ names gs
given_names-names [] x m = m
given_names-names (g ∷ gs) x m = elim (Bool-cases (str_eq g.name "")) [
  | inl e ↦ inr (given_names-names gs x (rw e at m))
  | inr e ↦ elim (rw e at m) [ inl i ↦ inl i | inr j ↦ inr (given_names-names gs x j) ]
]

-- Where the given names of a module's globals differ and LLVM makes a new name for each that is to be named, the
-- names still differ after `nameGlobals`, and every local variable has one.
pub name_globals_lem :
    (unique : List String → String → String) (gs : List Global)
    → MakesFresh unique
    → Distinct (given_names gs)
    → Distinct (given_names (name_globals unique (names gs) gs))
      × ((g : Global) → g ∈ collect_local_globals (name_globals unique (names gs) gs) → g.name ≢ "")
name_globals_lem unique gs fresh d = (
  name_globals-Distinct unique (names gs) gs fresh (given_names-names gs) d,
  λ g i.
      let (there, local) =
        (in_keep (λ v. is_variable v && has_local_linkage v.linkage)
            (name_globals unique (names gs) gs) g).0
          i in
      local_named unique (names gs) gs g fresh there local,
)
