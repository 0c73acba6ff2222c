-- ===== src/Plugin/Register/Calls/Loaded.antt =====
-- The objects that the plugin exports are found by the runtime once the program is loaded.
use Prim.Native.String.{String}
use easy_just_in_time.Prelude.{
  ℕ, ◌≡◌, refl, sym, ap, ◌∙◌, inl, inr, Option, none, some, List, [], ◌∷◌, map, Result, ok, err,
  ◌==◌, ==_iff, Bool-cases, All, ◌≢◌, arith,
}
use easy_just_in_time.Search.{◌∈◌}
use easy_just_in_time.Tracker.{
  TrackerError, bitcode_parse_error, GlobalMapping, new_tracker, register_all,
  get_name_and_global_mapping, get_module, get_address,
}
use text.Mathlib.TextEquality.{eq_iff}
use easy_just_in_time.Tracker.Registered.{
  first_info, first_address, register_all-first, find-register_all,
}
use easy_just_in_time.UnorderedMap.{find}
use easy_just_in_time.Plugin.{Global, SourceModule}
use easy_just_in_time.Plugin.Clean.Fixed.{HasNoAlias, AddsNoAlias}
use easy_just_in_time.Plugin.Register.{PluginLibrary, RegisterCall, register_objects}
use easy_just_in_time.Plugin.Register.Calls.{execute, mapping_of}
use easy_just_in_time.Plugin.Register.Calls.Embedded.{EmbedsFor, AllLeft, AllNamed, with_bitcode}
use easy_just_in_time.Plugin.Register.Calls.Executed.{registrations, register_objects_returns}

-- Different objects are loaded at different addresses.
abbrev pub Separates : (ℕ → ℕ) → List Global → Type 0
Separates address objs =
    (g h : Global) → g ∈ objs → h ∈ objs → address g.value ≡ address h.value → g ≡ h

pub first_info-registrations :
    (lib : PluginLibrary) (m : SourceModule) (address : ℕ → ℕ) (mapping : List GlobalMapping)
    (objs : List Global) (lefts : List SourceModule) (g : Global)
    → AllLeft lib m objs lefts
    → Separates address objs
    → g ∈ objs
    → (left : SourceModule) × EmbedsFor lib m objs g left
      × (first_info
            (address g.value)
            (registrations address mapping objs (map lib.write_bitcode lefts))
          ≡ some
              (record { name = g.name; globals = some mapping; bitcode = lib.write_bitcode left }))
first_info-registrations lib m address mapping [] lefts g all apart i = elim i [ ]
first_info-registrations lib m address mapping (h ∷ hs) [] g all apart i = elim all [ ]
first_info-registrations lib m address mapping (h ∷ hs) (l ∷ ls) g (is_left, all) apart i =
    elim (Bool-cases (address h.value == address g.value)) [
      | inl e ↦
          let same = apart h g (inl refl) i ((==_iff (address h.value) (address g.value)).0 e) in
          (
            l,
            inl (same, rw (sym same) is_left),
            rw e (
                ap
                  (λ x. some (record {
                    name = x.name;
                    globals = some mapping;
                    bitcode = lib.write_bitcode l;
                  }))
                  same),
          )
      | inr e ↦
          let other : h ≢ g = λ same.
            cc (
              e,
              (==_iff (address h.value) (address g.value)).1 (ap (λ x. address x.value) same),
            ) in
          elim i [
            | inl same ↦ absurd (other same)
            | inr j ↦
                let (left, embeds, found) =
                  first_info-registrations lib (with_bitcode lib is_left.entry l m) address mapping
                    hs ls g all (λ x y xi yi. apart x y (inr xi) (inr yi)) j in
                (left, inr (other, l, is_left, embeds), rw e found)
          ]
    ]

-- What the reader makes of the bytes.
abbrev pub parsed : {M : Type 0} → String → Option M → Result TrackerError M
parsed name none = err (bitcode_parse_error name)
parsed name (some m) = ok m

-- Where the module has no alias, LLVM's passes add none, the objects are found by their names and are loaded at
-- different addresses, the objects are registered. Once the constructor has run, the tracker knows each one by
-- its name, with the names and addresses of the local variables, and the module that it returns for it is what
-- the reader makes of the bytes that the writer wrote for the module which is embedded for the object: what
-- `cleanModule` leaves of a copy of the module, with the variables for the objects before it and nothing else
-- added, under the object's name followed by "_bitcode".
pub exported_objects_are_found :
    {M : Type 0} (lib : PluginLibrary) (parse : List ℕ → Option M) (objs locals : List Global)
    (m : SourceModule) (address : ℕ → ℕ) (g : Global)
    → AddsNoAlias lib.passes.strip_debug_info
    → ((kept : List ℕ) → AddsNoAlias (lib.passes.extract kept))
    → HasNoAlias m.globals
    → AllNamed m objs
    → Separates address objs
    → g ∈ objs
    → (n : SourceModule) × (calls : List RegisterCall) × (left : SourceModule) × (register_objects
          lib objs locals m
        ≡ ok (n, calls))
      × EmbedsFor lib m objs g left
      × (get_name_and_global_mapping
            (address g.value)
            (register_all new_tracker (map (execute address n.values) calls))
          ≡ ok (g.name, some (map (mapping_of address) locals)))
      × (get_module parse
            (address g.value)
            (register_all new_tracker (map (execute address n.values) calls))
          ≡ parsed g.name (parse (lib.write_bitcode left)))
unfolding get_module get_name_and_global_mapping find
exported_objects_are_found lib parse objs locals m address g strips extracts none_there named apart
      i =
    let (n, calls, lefts, ends, all, executed) =
      register_objects_returns lib objs locals m strips extracts none_there named in
    let mapping = map (mapping_of address) locals in
    let (left, embeds, found) =
      first_info-registrations lib m address mapping objs lefts g all apart i in
    let looked_up =
      find-register_all (address g.value) new_tracker
        (registrations address mapping objs (map lib.write_bitcode lefts))
      ∙ found in
    (
      n,
      calls,
      left,
      ends,
      embeds,
      rw (executed address, get_name_and_global_mapping, looked_up) refl,
      rw (executed address, get_module, looked_up)
          (as_parsed g.name (parse (lib.write_bitcode left))),
    )
  where
    as_parsed :
        {M : Type 0} (name : String) (o : Option M)
        → (elim o [ none ↦ err (bitcode_parse_error name) | some m ↦ ok m ]) ≡ parsed name o
    as_parsed name none = refl
    as_parsed name (some m) = refl

-- A name that no exported object has stands for no address.
pub get_address-exported :
    (lib : PluginLibrary) (m : SourceModule) (address : ℕ → ℕ) (mapping : List GlobalMapping)
    (objs : List Global) (contents : List (List ℕ)) (name : String)
    → All (λ g. g.name ≢ name) objs
    → get_address name (register_all new_tracker (registrations address mapping objs contents))
      ≡ none
get_address-exported lib m address mapping objs contents name others =
    (register_all-first (registrations address mapping objs contents) 0 name 0).2
    ∙ first objs contents others
  where
    first :
        (gs : List Global) (cs : List (List ℕ))
        → All (λ g. g.name ≢ name) gs
        → first_address name (registrations address mapping gs cs) ≡ none
    first [] cs others = refl
    first (g ∷ gs) [] others = refl
    first (g ∷ gs) (c ∷ cs) (other, others) =
        ground (arith, eq_iff g.name name, first gs cs others, other)
