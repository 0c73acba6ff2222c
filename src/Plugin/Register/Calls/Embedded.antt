-- ===== src/Plugin/Register/Calls/Embedded.antt =====
-- What `embedBitcode` embeds, and that it returns.
use Prim.Native.String.{String, ◌++◌ as str_append}
use text.Mathlib.Text.{◌==◌ as str_eq}
use easy_just_in_time.Prelude.{
  ℕ, suc, ◌≡◌, refl, sym, ap, inl, inr, ◌⊎◌, ◌≢◌, map, some, List, [], ◌∷◌, ◌++◌, length, ok,
  Bool-cases,
}
use easy_just_in_time.Search.{◌∈◌}
use easy_just_in_time.Search.Reached.{in_append}
use easy_just_in_time.Plugin.{ValueKind, Value, byte_data, Global, SourceModule}
use easy_just_in_time.Plugin.Clean.{clean_module}
use easy_just_in_time.Plugin.Clean.Fixed.{HasNoAlias, AddsNoAlias, clean_module_ok}
use easy_just_in_time.Plugin.Register.{
  PluginLibrary, find_named, get_named_value, new_variable, insert_variable, private_variable,
  names, embed_object, embed_bitcode, write_module_to_global,
}
use easy_just_in_time.Plugin.Register.Memory.{
  Holds, Grows, Grows-refl, Grows-trans, Holds-Grows, new_variable-Holds,
}

-- The variables hold the bitcodes, with a null character at the end.
abbrev pub Stored : List Value → List ℕ → List (List ℕ) → Type 0
Stored values [] [] = Unit
Stored values (v ∷ vs) (c ∷ cs) = Holds values v (byte_data (c ++ (0 ∷ []))) × Stored values vs cs
Stored values [] (c ∷ cs) = ⊥
Stored values (v ∷ vs) [] = ⊥

-- The module that is embedded for a global of a module: what `cleanModule` leaves of a copy of the module, under
-- the identifier that it is given.
pub record IsLeftFor (lib : PluginLibrary) (m : SourceModule) (g : Global) (left : SourceModule)
    : Type 0 where
  pub entry : Global
  pub named : get_named_value g.name m.globals ≡ some entry
  pub cleaned : SourceModule
  pub cleans : clean_module lib.passes entry m ≡ ok cleaned
  pub is_left : left ≡ record cleaned { identifier = str_append g.name "_bitcode" }

-- The module with the variable that holds the bitcode.
abbrev pub with_bitcode : PluginLibrary → Global → SourceModule → SourceModule → SourceModule
with_bitcode lib entry left m =
    (new_variable lib (str_append entry.name "_bitcode")
      (byte_data (lib.write_bitcode left ++ (0 ∷ []))) m).0

-- The modules that are embedded for the globals, one after the other.
abbrev pub AllLeft : PluginLibrary → SourceModule → List Global → List SourceModule → Type 0
AllLeft lib m [] [] = Unit
AllLeft lib m (g ∷ gs) (l ∷ ls) =
    (is : IsLeftFor lib m g l) × AllLeft lib (with_bitcode lib is.entry l m) gs ls
AllLeft lib m [] (l ∷ ls) = ⊥
AllLeft lib m (g ∷ gs) [] = ⊥

-- The module that is embedded for one of the globals, when it is reached first.
abbrev pub EmbedsFor : PluginLibrary → SourceModule → List Global → Global → SourceModule → Type 0
EmbedsFor lib m [] g left = ⊥
EmbedsFor lib m (h ∷ hs) g left =
    ((h ≡ g) × IsLeftFor lib m g left)
    ⊎ ((h ≢ g)
        × (l : SourceModule) × (is : IsLeftFor lib m h l) × EmbedsFor lib
            (with_bitcode lib is.entry l m) hs g left)

pub Stored-Grows :
    {values later : List Value} (vs : List ℕ) (cs : List (List ℕ))
    → Grows values later
    → Stored values vs cs
    → Stored later vs cs
Stored-Grows [] [] g s = tt
Stored-Grows [] (c ∷ cs) g s = s
Stored-Grows (v ∷ vs) [] g s = s
Stored-Grows (v ∷ vs) (c ∷ cs) g (h, s) = (Holds-Grows g h, Stored-Grows vs cs g s)

pub AllLeft-length :
    (lib : PluginLibrary) (m : SourceModule) (gs : List Global) (ls : List SourceModule)
    → AllLeft lib m gs ls
    → length gs ≡ length (map lib.write_bitcode ls)
AllLeft-length lib m [] [] all = refl
AllLeft-length lib m [] (l ∷ ls) all = elim all [ ]
AllLeft-length lib m (g ∷ gs) [] all = elim all [ ]
AllLeft-length lib m (g ∷ gs) (l ∷ ls) (is, all) =
    ap suc (AllLeft-length lib (with_bitcode lib is.entry l m) gs ls all)

insert_variable-last :
    (v : Global) (gs : List Global) → HasNoAlias gs → insert_variable v gs ≡ gs ++ (v ∷ [])
insert_variable-last v [] none_there = refl
insert_variable-last v (g ∷ gs) none_there =
    rw (none_there g (inl refl))
      (ap (λ rest. g ∷ rest) (insert_variable-last v gs (λ x m. none_there x (inr m))))

find_named-append :
    (name : String) (gs hs : List Global) {entry : Global}
    → find_named name gs ≡ some entry
    → find_named name (gs ++ hs) ≡ some entry
find_named-append name [] hs e = cc
find_named-append name (g ∷ gs) hs e = elim (Bool-cases (str_eq g.name name)) [
  | inl found ↦ rw found (rw found at e)
  | inr other ↦ rw other (find_named-append name gs hs (rw other at e))
]

get_named_value-append :
    (name : String) (gs hs : List Global) {entry : Global}
    → get_named_value name gs ≡ some entry
    → get_named_value name (gs ++ hs) ≡ some entry
get_named_value-append name gs hs e = elim (Bool-cases (str_eq name "")) [
  | inl empty ↦ absurd (cc (rw empty at e))
  | inr named ↦ rw named (find_named-append name gs hs (rw named at e))
]

-- A new variable stands after the others, and keeps what is found by name.
new_variable-globals :
    (lib : PluginLibrary) (name : String) (init : ValueKind) (m : SourceModule)
    → HasNoAlias m.globals
    → HasNoAlias (new_variable lib name init m).0.globals
      × ((other : String) (entry : Global)
          → get_named_value other m.globals ≡ some entry
          → get_named_value other (new_variable lib name init m).0.globals ≡ some entry)
unfolding new_variable
new_variable-globals lib name init m none_there = (
  (λ g i. elim ((in_append m.globals (v ∷ []) g).0 (rw last at i)) [
    | inl j ↦ none_there g j
    | inr (inl e) ↦ rw (sym e) refl
    | inr (inr z) ↦ elim z [ ]
  ]),
  λ other entry e. rw last (get_named_value-append other m.globals (v ∷ []) e),
)
  where
    v : Global
    v = private_variable (new_variable lib name init m).1 (lib.unique_name (names m.globals) name)

    last : (new_variable lib name init m).0.globals ≡ m.globals ++ (v ∷ [])
    last = insert_variable-last v m.globals none_there

-- The names of the globals that are to be embedded are there.
abbrev pub AllNamed : SourceModule → List Global → Type 0
AllNamed m gs =
    (g : Global) → g ∈ gs → (entry : Global) × (get_named_value g.name m.globals ≡ some entry)

pub embed_bitcode_returns :
    (lib : PluginLibrary) (gs : List Global) (m : SourceModule)
    → AddsNoAlias lib.passes.strip_debug_info
    → ((kept : List ℕ) → AddsNoAlias (lib.passes.extract kept))
    → HasNoAlias m.globals
    → AllNamed m gs
    → (later : SourceModule) × (vs : List ℕ) × (ls : List SourceModule) × (embed_bitcode lib gs m
        ≡ ok (later, vs))
      × Grows m.values later.values
      × Stored later.values vs (map lib.write_bitcode ls)
      × AllLeft lib m gs ls
unfolding embed_bitcode embed_object write_module_to_global
embed_bitcode_returns lib [] m strips extracts none_there named =
    (m, [], [], refl, Grows-refl m.values, tt, tt)
embed_bitcode_returns lib (g ∷ gs) m strips extracts none_there named =
    let (entry, e) = named g (inl refl) in
    let (c, cleans) = clean_module_ok lib.passes entry m strips extracts none_there in
    let left = record c { identifier = str_append g.name "_bitcode" } in
    let bytes = lib.write_bitcode left in
    let (m', v) =
      new_variable lib (str_append entry.name "_bitcode") (byte_data (bytes ++ (0 ∷ []))) m in
    let (grows, holds) =
      new_variable-Holds lib (str_append entry.name "_bitcode") (byte_data (bytes ++ (0 ∷ []))) m in
    let (none_later, keeps) =
      new_variable-globals lib (str_append entry.name "_bitcode") (byte_data (bytes ++ (0 ∷ []))) m
        none_there in
    let (later, vs, ls, ends, grows', stored, all) =
      embed_bitcode_returns lib gs m' strips extracts none_later
        (λ h i. let (x, xe) = named h (inr i) in (x, keeps h.name x xe)) in
    (
      later,
      v ∷ vs,
      left ∷ ls,
      rw (e, embed_bitcode, embed_object) (rw cleans (rw ends refl)),
      Grows-trans grows grows',
      (Holds-Grows grows' holds, stored),
      (record { entry = entry; named = e; cleaned = c; cleans = cleans; is_left = refl }, all),
    )
