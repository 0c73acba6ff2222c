-- ===== src/Tracker/Registered.antt =====
-- What can be looked up after any sequence of registrations.
use Prim.Native.String.{String}
use text.Mathlib.Text.{◌==◌ as str_eq}
use text.Mathlib.TextEquality.{eq_iff}
use easy_just_in_time.Prelude.{
  ℕ, ◌≡◌, refl, true, List, [], ◌∷◌, Option, none, some, Result, ok, err, sym, ap, ◌∙◌,
  Option-cases, inl, inr, ◌==◌, if◌then◌else◌, arith,
}
use easy_just_in_time.UnorderedMap.{find, is_some, find-emplace}
use easy_just_in_time.Tracker.{
  GlobalMapping, FunctionInfo, TrackerError, bitcode_not_registered, no_layout, get_layout_info,
  BitcodeTracker, new_tracker, nat_eq, has_global_mapping, get_address, get_name_and_global_mapping,
  Registration, easy_register, easy_register_layout, register, register_all,
}

-- The first registration of an address, of a name, and of a layout.
abbrev pub first_info : ℕ → List Registration → Option FunctionInfo
first_info p [] = none
first_info p (easy_register q info ∷ rs) = if q == p then some info else first_info p rs
first_info p (easy_register_layout id n ∷ rs) = first_info p rs

abbrev pub first_address : String → List Registration → Option ℕ
first_address name [] = none
first_address name (easy_register q info ∷ rs) =
    if str_eq info.name name then some q else first_address name rs
first_address name (easy_register_layout id n ∷ rs) = first_address name rs

abbrev pub or_else {ℓ} : {A : Type ℓ} → Option A → Option A → Option A
or_else none b = b
or_else (some a) b = some a

pub find-register_all :
    (p : ℕ) (bt : BitcodeTracker) (rs : List Registration)
    → find nat_eq p (register_all bt rs).functions
      ≡ or_else (find nat_eq p bt.functions) (first_info p rs)
unfolding register_all register
find-register_all p bt [] = ground arith
find-register_all p bt (easy_register q info ∷ rs) = ground (
  arith,
  find-emplace nat_eq q p info bt.functions,
  find-register_all p (register bt (easy_register q info)) rs,
)
find-register_all p bt (easy_register_layout id n ∷ rs) =
    find-register_all p (register bt (easy_register_layout id n)) rs

find_name-register_all :
    (name : String) (bt : BitcodeTracker) (rs : List Registration)
    → find str_eq name (register_all bt rs).name_to_address
      ≡ or_else (find str_eq name bt.name_to_address) (first_address name rs)
unfolding register_all register
find_name-register_all name bt [] = ground arith
find_name-register_all name bt (easy_register q info ∷ rs) = ground (
  arith,
  eq_iff info.name name,
  find-emplace str_eq info.name name q bt.name_to_address,
  find_name-register_all name (register bt (easy_register q info)) rs,
)
find_name-register_all name bt (easy_register_layout id n ∷ rs) =
    find_name-register_all name (register bt (easy_register_layout id n)) rs

abbrev pub first_layout : ℕ → List Registration → Option ℕ
first_layout id [] = none
first_layout id (easy_register q info ∷ rs) = first_layout id rs
first_layout id (easy_register_layout j n ∷ rs) = if j == id then some n else first_layout id rs

find_layout-register_all :
    (id : ℕ) (bt : BitcodeTracker) (rs : List Registration)
    → find nat_eq id (register_all bt rs).layouts
      ≡ or_else (find nat_eq id bt.layouts) (first_layout id rs)
unfolding register_all register
find_layout-register_all id bt [] = ground arith
find_layout-register_all id bt (easy_register q info ∷ rs) =
    find_layout-register_all id (register bt (easy_register q info)) rs
find_layout-register_all id bt (easy_register_layout j n ∷ rs) = ground (
  arith,
  find-emplace nat_eq j id n bt.layouts,
  find_layout-register_all id (register bt (easy_register_layout j n)) rs,
)

abbrev pub expected_mapping :
    Option FunctionInfo → Result TrackerError (String × Option (List GlobalMapping))
expected_mapping none = err bitcode_not_registered
expected_mapping (some info) = ok (info.name, info.globals)

abbrev pub expected_layout : Option ℕ → Result TrackerError ℕ
expected_layout none = err no_layout
expected_layout (some n) = ok n

-- After any registrations, an address is known by its first one: `getNameAndGlobalMapping` returns
-- that name and those globals, or throws if there is none; a name stands for the address that was
-- first registered under it; and a layout has the first number of fields, or the assertion fails.
pub register_all-first :
    (rs : List Registration) (p : ℕ) (name : String) (id : ℕ)
    → (get_name_and_global_mapping p (register_all new_tracker rs)
        ≡ expected_mapping (first_info p rs))
      × (has_global_mapping p (register_all new_tracker rs) ≡ is_some (first_info p rs))
      × (get_address name (register_all new_tracker rs) ≡ first_address name rs)
      × (get_layout_info id (register_all new_tracker rs) ≡ expected_layout (first_layout id rs))
unfolding get_name_and_global_mapping has_global_mapping get_address get_layout_info find
register_all-first rs p name id = (
  rw (get_name_and_global_mapping, find-register_all p new_tracker rs) (mapping (first_info p rs)),
  rw (find-register_all p new_tracker rs),
  rw (find_name-register_all name new_tracker rs),
  rw (get_layout_info, find_layout-register_all id new_tracker rs) (layout (first_layout id rs)),
)
  where
    mapping :
        (o : Option FunctionInfo)
        → (elim o [ none ↦ err bitcode_not_registered | some info ↦ ok (info.name, info.globals) ])
          ≡ expected_mapping o
    mapping none = refl
    mapping (some info) = refl

    layout : (o : Option ℕ) → (elim o [ none ↦ err no_layout | some n ↦ ok n ]) ≡ expected_layout o
    layout none = refl
    layout (some n) = refl

first_info-first_address :
    (name : String) (rs : List Registration) {a : ℕ}
    → first_address name rs ≡ some a
    → is_some (first_info a rs) ≡ true
first_info-first_address name [] h = cc
first_info-first_address name (easy_register q info ∷ rs) {a} h =
    ground (arith, eq_iff info.name name, first_info-first_address name rs {a = a})
first_info-first_address name (easy_register_layout id n ∷ rs) {a} h =
    first_info-first_address name rs h

-- The address that `getAddress` finds is registered: looking up its name and its globals does not
-- throw, as `Function::deserialize` and `LinkPointerIfPossible` of Function.cpp rely on.
pub get_address-registered :
    (rs : List Registration) (name : String) {a : ℕ}
    → get_address name (register_all new_tracker rs) ≡ some a
    → (info : FunctionInfo) × (first_info a rs ≡ some info)
      × (get_name_and_global_mapping a (register_all new_tracker rs) ≡ ok (info.name, info.globals))
get_address-registered rs name {a} h = elim (Option-cases (first_info a rs)) [
  | inl e ↦ absurd (cc (sym (ap is_some e) ∙ registered))
  | inr (info, e) ↦ (info, e, (register_all-first rs a name 0).0 ∙ ap expected_mapping e)
]
  where
    registered : is_some (first_info a rs) ≡ true
    registered = first_info-first_address name rs (sym (register_all-first rs a name 0).2 ∙ h)
