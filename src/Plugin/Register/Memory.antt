-- ===== src/Plugin/Register/Memory.antt =====
-- What the constants and the variables that the pass adds hold, once it is done: the table only grows.
use Prim.Native.String.{String}
use easy_just_in_time.Prelude.{
  ℕ, zero, suc, ◌≡◌, refl, sym, some, List, [], ◌∷◌, ◌++◌, length, get_elem?,
}
use mathlib.Core.List.{append_assoc, append-nil}
use easy_just_in_time.Plugin.{ValueKind, Value, value_at, global_variable, SourceModule}
use easy_just_in_time.Plugin.Register.{PluginLibrary, initial, new_constant, new_variable}

pub get_elem?-append :
    {A : Type 0} (xs ys : List A) (i : ℕ) {x : A}
    → get_elem? xs i ≡ some x
    → get_elem? (xs ++ ys) i ≡ some x
get_elem?-append [] ys i e = cc
get_elem?-append (y ∷ xs) ys zero e = e
get_elem?-append (y ∷ xs) ys (suc i) e = get_elem?-append xs ys i e

pub get_elem?-length :
    {A : Type 0} (xs : List A) (x : A) → get_elem? (xs ++ (x ∷ [])) (length xs) ≡ some x
get_elem?-length [] x = refl
get_elem?-length (y ∷ xs) x = get_elem?-length xs x

-- The value with this number is of this kind.
pub record IsA (values : List Value) (v : ℕ) (kind : ValueKind) : Type 0 where
  pub users : List ℕ
  pub there : get_elem? values v ≡ some (record { kind = kind; users = users })

-- The variable with this number starts with this value.
pub record Holds (values : List Value) (v : ℕ) (kind : ValueKind) : Type 0 where
  pub init : ℕ
  pub variable : IsA values v (global_variable (some init))
  pub content : IsA values init kind

pub record Grows (values later : List Value) : Type 0 where
  pub added : List Value
  pub same : later ≡ values ++ added

pub Grows-refl : (values : List Value) → Grows values values
Grows-refl values = record { added = []; same = sym (append-nil values) }

pub Grows-trans : {a b c : List Value} → Grows a b → Grows b c → Grows a c
Grows-trans {a} g h = record {
  added = g.added ++ h.added;
  same = rw (h.same, g.same) (append_assoc a g.added h.added);
}

pub IsA-Grows :
    {values later : List Value} {v : ℕ} {kind : ValueKind}
    → Grows values later
    → IsA values v kind
    → IsA later v kind
IsA-Grows {values} {later} {v} g i = record {
  users = i.users;
  there = rw g.same (get_elem?-append values g.added v i.there);
}

pub Holds-Grows :
    {values later : List Value} {v : ℕ} {kind : ValueKind}
    → Grows values later
    → Holds values v kind
    → Holds later v kind
Holds-Grows g h = record {
  init = h.init;
  variable = IsA-Grows g h.variable;
  content = IsA-Grows g h.content;
}

pub IsA-kind :
    {values : List Value} {v : ℕ} {kind : ValueKind}
    → IsA values v kind
    → (value_at values v).kind ≡ kind
IsA-kind i = rw (i.there, value_at) refl

pub Holds-initial :
    {values : List Value} {v : ℕ} {kind : ValueKind} → Holds values v kind → initial values v ≡ kind
Holds-initial h = rw (IsA-kind h.variable, initial) (IsA-kind h.content)

pub new_constant-IsA :
    (kind : ValueKind) (m : SourceModule)
    → Grows m.values (new_constant kind m).0.values
      × IsA (new_constant kind m).0.values (new_constant kind m).1 kind
unfolding new_constant
new_constant-IsA kind m =
    let value : Value = record { kind = kind; users = [] } in
    (
      record { added = value ∷ []; same = refl },
      record { users = []; there = get_elem?-length m.values value },
    )

pub new_variable-Holds :
    (lib : PluginLibrary) (name : String) (init : ValueKind) (m : SourceModule)
    → Grows m.values (new_variable lib name init m).0.values
      × Holds (new_variable lib name init m).0.values (new_variable lib name init m).1 init
unfolding new_variable
new_variable-Holds lib name init m =
    let (first, is_init) = new_constant-IsA init m in
    let (second, is_variable) =
      new_constant-IsA (global_variable (some (new_constant init m).1)) (new_constant init m).0 in
    (
      Grows-trans first second,
      record {
        init = (new_constant init m).1;
        variable = is_variable;
        content = IsA-Grows second is_init;
      },
    )
