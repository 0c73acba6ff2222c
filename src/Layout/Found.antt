-- ===== src/Layout/Found.antt =====
-- The layouts are found by the runtime once the program is loaded.
use easy_just_in_time.Prelude.{
  ℕ, ◌≡◌, refl, sym, ap, ◌∙◌, inl, inr, not, ◌&&◌, List, [], ◌∷◌, Option, none, some, ok, map,
  length, ◌==◌, ==_iff, Bool-cases,
}
use easy_just_in_time.Search.{◌∈◌}
use easy_just_in_time.Llvm.{LlvmType}
use easy_just_in_time.Tracker.{
  Registration, easy_register_layout, new_tracker, register_all, get_layout_info,
}
use easy_just_in_time.Tracker.Registered.{first_layout, register_all-first, expected_layout}
use easy_just_in_time.Plugin.Tracer.{count}
use easy_just_in_time.Layout.{
  SerializeFunction, LayoutFunction, LayoutCall, get_serialize_struct, define_serialize_struct,
  register_layouts, SerializeBody,
}
use easy_just_in_time.Layout.Bounds.{IsSerializable, define_body_returns}

-- The calls of the constructor, where `address` is where the program is loaded.
abbrev pub execute : (ℕ → ℕ) → LayoutCall → Registration
execute address call = easy_register_layout (address call.id) call.n

-- The function that a layout function serialises with.
abbrev pub SerializesWith : LayoutFunction → SerializeFunction → Type 0
SerializesWith f s = get_serialize_struct f.instructions ≡ ok s

-- One value is one function, and different ones are loaded at different addresses.
abbrev pub AreFunctions : (ℕ → ℕ) → List LayoutFunction → Type 0
AreFunctions address fs =
    (f g : LayoutFunction) (s t : SerializeFunction)
    → f ∈ fs
    → g ∈ fs
    → SerializesWith f s
    → SerializesWith g t
    → address s.value ≡ address t.value
    → s ≡ t

-- What the loop needs of a layout function.
abbrev pub IsLayout : LayoutFunction → Type 0
IsLayout f = (s : SerializeFunction) × SerializesWith f s × IsSerializable s.by_val s.params

-- The calls are of the functions in order, with the numbers of their parameters.
abbrev CallsOf : List LayoutFunction → List LayoutCall → Type 0
CallsOf [] [] = Unit
CallsOf (f ∷ fs) (c ∷ cs) =
    ((s : SerializeFunction) × SerializesWith f s × (c.id ≡ s.value) × (c.n ≡ length s.params))
    × CallsOf fs cs
CallsOf [] (c ∷ cs) = ⊥
CallsOf (f ∷ fs) [] = ⊥

define_serialize_struct_returns :
    (type_store_size : LlvmType → ℕ) (f : SerializeFunction)
    → IsSerializable f.by_val f.params
    → (body : Option SerializeBody) × (define_serialize_struct type_store_size f ≡ ok body)
unfolding define_serialize_struct
define_serialize_struct_returns type_store_size f s = elim (Bool-cases f.declaration) [
  | inl e ↦
      let (body, defined, fit) = define_body_returns type_store_size f.by_val f.params s in
      (some body, simp (e, define_serialize_struct, defined))
  | inr e ↦ (none, simp (e, define_serialize_struct))
]

register_layouts-CallsOf :
    (type_store_size : LlvmType → ℕ) (defined : List ℕ) (fs : List LayoutFunction)
    → ((f : LayoutFunction) → f ∈ fs → IsLayout f)
    → (calls : List LayoutCall) × (register_layouts type_store_size defined fs ≡ ok calls)
      × CallsOf fs calls
unfolding register_layouts
register_layouts-CallsOf type_store_size defined [] layouts = ([], refl, tt)
register_layouts-CallsOf type_store_size defined (f ∷ fs) layouts =
    let (s, with_s, serializable) = layouts f (inl refl) in
    let (body, is_body) =
      define_serialize_struct_returns type_store_size
        (record s { declaration = s.declaration && not (count defined s.value) }) serializable in
    let (calls, ends, rest) =
      register_layouts-CallsOf type_store_size (s.value ∷ defined) fs (λ g i. layouts g (inr i)) in
    (
      record { body = body; id = s.value; n = length s.params } ∷ calls,
      simp (with_s, is_body, ends),
      ((s, with_s, refl, refl), rest),
    )

first_layout-CallsOf :
    (address : ℕ → ℕ) (fs : List LayoutFunction) (calls : List LayoutCall) (f : LayoutFunction)
    (s : SerializeFunction)
    → CallsOf fs calls
    → AreFunctions address fs
    → f ∈ fs
    → SerializesWith f s
    → first_layout (address s.value) (map (execute address) calls) ≡ some (length s.params)
first_layout-CallsOf address [] calls f s of apart i with_s = elim i [ ]
first_layout-CallsOf address (g ∷ gs) [] f s of apart i with_s = elim of [ ]
first_layout-CallsOf address (g ∷ gs) (c ∷ cs) f s ((t, with_t, id, n), of) apart i with_s =
    elim (Bool-cases (address c.id == address s.value)) [
      | inl e ↦
          let there = (==_iff (address c.id) (address s.value)).0 e in
          let same = apart g f t s (inl refl) i with_t with_s (sym (ap address id) ∙ there) in
          rw e (ap some (n ∙ ap (λ x. length x.params) same))
      | inr e ↦ elim i [
        | inl same ↦
            let is_t : t ≡ s = cc (with_t, with_s, same) in
            absurd (
              cc (
                e,
                (==_iff (address c.id) (address s.value)).1
                    (ap address (id ∙ ap (λ x. x.value) is_t)),
              ))
        | inr j ↦ rw e (
            first_layout-CallsOf address gs cs f s of
              (λ x y xs ys xi yi. apart x y xs ys (inr xi) (inr yi)) j with_s)
      ]
    ]

-- Where every layout function leads to a function whose arguments can be serialised, and different functions
-- are loaded at different addresses, the layouts are registered, and once the constructor has run the
-- tracker knows at the address of each of these functions how many parameters it has.
pub layouts_are_found :
    (type_store_size : LlvmType → ℕ) (address : ℕ → ℕ) (fs : List LayoutFunction)
    (f : LayoutFunction) (s : SerializeFunction)
    → ((g : LayoutFunction) → g ∈ fs → IsLayout g)
    → AreFunctions address fs
    → f ∈ fs
    → SerializesWith f s
    → (calls : List LayoutCall) × (register_layouts type_store_size [] fs ≡ ok calls)
      × (get_layout_info (address s.value) (register_all new_tracker (map (execute address) calls))
          ≡ ok (length s.params))
layouts_are_found type_store_size address fs f s layouts apart i with_s =
    let (calls, ends, of) = register_layouts-CallsOf type_store_size [] fs layouts in
    (
      calls,
      ends,
      (register_all-first (map (execute address) calls) 0 "" (address s.value)).3
          ∙ ap expected_layout (first_layout-CallsOf address fs calls f s of apart i with_s),
    )
