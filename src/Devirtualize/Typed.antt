-- ===== src/Devirtualize/Typed.antt =====
-- A recast call passes arguments of the types that the function takes.
use mathlib.Core.Bool.{decide_iff}
use mathlib.Core.List.{append_assoc, append-nil}
use easy_just_in_time.Prelude.{
  ℕ, ◌<◌, ◌≡◌, ◌≢◌, refl, sym, ap, ◌∙◌, inl, inr, true, false, not, ◌&&◌, some, List, [], ◌∷◌, ◌++◌,
  length, get_elem?, get_elem?-set_self, get_elem?-set_ne, Option-cases, set, ◌==◌, ==_iff, ok, err,
  Bool-cases, arith,
}
use easy_just_in_time.Llvm.{LlvmType, is_pointer_ty}
use easy_just_in_time.Inline.Link.{LlvmType-discrete}
use easy_just_in_time.Plugin.{get_elem?-missing}
use easy_just_in_time.Plugin.Register.Memory.{get_elem?-append, get_elem?-length}
use easy_just_in_time.Devirtualize.{
  IrKind, call_inst, FunctionType, IrValue, kind_at, parameter_out_of_range,
}
use easy_just_in_time.Devirtualize.Recast.{
  same_type, params_castable, cast_call_with_pointer_casts, type_at, pointer_cast, recast_args,
  set_kind, recast_call, function_type_at,
}

-- The value with this number has this type.
pub record HasType (table : List IrValue) (v : ℕ) (t : LlvmType) : Type 0 where
  pub value : IrValue
  pub there : get_elem? table v ≡ some value
  pub typed : value.ty ≡ t

abbrev pub HaveTypes : List IrValue → List ℕ → List LlvmType → Type 0
HaveTypes table [] [] = Unit
HaveTypes table (v ∷ vs) (t ∷ ts) = HasType table v t × HaveTypes table vs ts
HaveTypes table [] (t ∷ ts) = ⊥
HaveTypes table (v ∷ vs) [] = ⊥

HasType-append :
    {table : List IrValue} (added : List IrValue) {v : ℕ} {t : LlvmType}
    → HasType table v t
    → HasType (table ++ added) v t
HasType-append {table} added {v} h = record {
  value = h.value;
  there = get_elem?-append table added v h.there;
  typed = h.typed;
}

HaveTypes-append :
    (table added : List IrValue) (vs : List ℕ) (ts : List LlvmType)
    → HaveTypes table vs ts
    → HaveTypes (table ++ added) vs ts
HaveTypes-append table added [] [] h = tt
HaveTypes-append table added [] (t ∷ ts) h = h
HaveTypes-append table added (v ∷ vs) [] h = h
HaveTypes-append table added (v ∷ vs) (t ∷ ts) (h, hs) =
    (HasType-append added h, HaveTypes-append table added vs ts hs)

type_at-HasType :
    {table : List IrValue} {v : ℕ} {t : LlvmType} → HasType table v t → type_at table v ≡ t
type_at-HasType h = rw (h.there, type_at) h.typed

same_type_iff : (a b : LlvmType) → same_type a b ≡ true → a ≡ b
same_type_iff a b e = (decide_iff (LlvmType-discrete a b)).0 e

pub same_type_refl : (a : LlvmType) → same_type a a ≡ true
same_type_refl a = (decide_iff (LlvmType-discrete a a)).1 refl

-- The later table has the values of the table, and more.
abbrev pub Extends : List IrValue → List IrValue → Type 0
Extends table later = (added : List IrValue) × (later ≡ table ++ added)

HasType-last :
    (table : List IrValue) (value : IrValue)
    → HasType (table ++ (value ∷ [])) (length table) value.ty
HasType-last table value = record {
  value = value;
  there = get_elem?-length table value;
  typed = refl;
}

castable_rest :
    (c u : LlvmType) (cs us : List LlvmType)
    → params_castable (c ∷ cs) (u ∷ us) ≡ true
    → params_castable cs us ≡ true
castable_rest c u cs us e = ground (arith, e)

castable_same :
    (c u : LlvmType) (cs us : List LlvmType)
    → params_castable (c ∷ cs) (u ∷ us) ≡ true
    → (is_pointer_ty c && not (same_type c u)) ≡ false
    → same_type c u ≡ true
castable_same c u cs us e kept = ground (arith, e, kept)

recast_args_lem :
    (args : List ℕ) (cs us : List LlvmType) (table : List IrValue)
    → HaveTypes table args cs
    → params_castable cs us ≡ true
    → (later : List IrValue) × (recast : List ℕ) × (recast_args args us table ≡ ok (later, recast))
      × HaveTypes later recast us
      × Extends table later
unfolding recast_args
recast_args_lem [] [] [] table h castable = (table, [], refl, tt, ([], sym (append-nil table)))
recast_args_lem [] [] (u ∷ us) table h castable = cc
recast_args_lem [] (c ∷ cs) us table h castable = elim h [ ]
recast_args_lem (a ∷ args) [] us table h castable = elim h [ ]
recast_args_lem (a ∷ args) (c ∷ cs) [] table h castable = cc
recast_args_lem (a ∷ args) (c ∷ cs) (u ∷ us) table (h, hs) castable =
    let is_c = type_at-HasType h in
    elim (Bool-cases (is_pointer_ty c && not (same_type c u))) [
      | inl recast ↦
          let here = pointer_cast a u ∷ [] in
          let (later, rest, ends, typed, (added, e)) =
            recast_args_lem args cs us (table ++ here) (HaveTypes-append table here args cs hs)
              (castable_rest c u cs us castable) in
          (
            later,
            length table ∷ rest,
            rw (is_c, recast_args, recast, ends) refl,
            (rw e (HasType-append added (HasType-last table (pointer_cast a u))), typed),
            (here ++ added, e ∙ append_assoc table here added),
          )
      | inr kept ↦
          let same = same_type_iff c u (castable_same c u cs us castable kept) in
          let (later, rest, ends, typed, (added, e)) =
            recast_args_lem args cs us table hs (castable_rest c u cs us castable) in
          (
            later,
            a ∷ rest,
            rw (is_c, recast_args, kept, ends) refl,
            (rw (e, sym same) (HasType-append added h), typed),
            (added, e),
          )
    ]

-- An instruction that is there gets its new operands, and no value changes its type.
set_kind_lem :
    (i : ℕ) (kind : IrKind) (table : List IrValue) {value : IrValue}
    → get_elem? table i ≡ some value
    → (kind_at (set_kind i kind table) i ≡ kind)
      × ((v : ℕ) (t : LlvmType) → HasType table v t → HasType (set_kind i kind table) v t)
set_kind_lem i kind table {value} there =
    let lt : i < length table = elim (get_elem?-missing table i) [
      | inl e ↦ absurd (cc (e, there))
      | inr lt ↦ lt
    ] in
    let changed = record value { kind = kind } in
    let is_set : set_kind i kind table ≡ set table i changed = rw (there, set_kind) refl in
    let now = get_elem?-set_self table i changed lt in
    (
      rw (is_set, kind_at, now) refl,
      λ v t h. elim (Bool-cases (i == v)) [
        | inl e ↦
            let same = (==_iff i v).0 e in
            let old : value ≡ h.value = cc (there, h.there, same) in
            record {
              value = changed;
              there = ap (get_elem? (set_kind i kind table)) (sym same) ∙ rw is_set now;
              typed = ap (λ x. x.ty) old ∙ h.typed;
            }
        | inr e ↦ record {
          value = h.value;
          there =
              rw is_set (
                get_elem?-set_ne table i v changed (λ same. cc (e, (==_iff i v).1 same)) ∙ h.there);
          typed = h.typed;
        }
      ],
    )

HaveTypes-map :
    (table later : List IrValue) (vs : List ℕ) (ts : List LlvmType)
    → ((v : ℕ) (t : LlvmType) → HasType table v t → HasType later v t)
    → HaveTypes table vs ts
    → HaveTypes later vs ts
HaveTypes-map table later [] [] keeps h = tt
HaveTypes-map table later [] (t ∷ ts) keeps h = h
HaveTypes-map table later (v ∷ vs) [] keeps h = h
HaveTypes-map table later (v ∷ vs) (t ∷ ts) keeps (h, hs) =
    (keeps v t h, HaveTypes-map table later vs ts keeps hs)

cast_call-params :
    (called uncasted : FunctionType)
    → cast_call_with_pointer_casts called uncasted ≡ true
    → params_castable called.params uncasted.params ≡ true
unfolding cast_call_with_pointer_casts
cast_call-params called uncasted e = ground (arith, e)

-- A call through a cast, whose arguments have the types that the cast function takes, is recast where the types
-- of the two functions differ in pointers only: it then calls the function behind the cast, and its arguments
-- have the types which that function takes.
pub recast_call-HaveTypes :
    (strip : List IrValue → ℕ → ℕ) (i callee : ℕ) (args : List ℕ) (table : List IrValue)
    (called uncasted : FunctionType)
    → kind_at table i ≡ call_inst callee args
    → callee ≢ strip table callee
    → function_type_at table callee ≡ ok called
    → function_type_at table (strip table callee) ≡ ok uncasted
    → HaveTypes table args called.params
    → cast_call_with_pointer_casts called uncasted ≡ true
    → (later : List IrValue) × (recast : List ℕ) × (recast_call strip i table ≡ ok later)
      × (kind_at later i ≡ call_inst (strip table callee) recast)
      × HaveTypes later recast uncasted.params
unfolding recast_call
recast_call-HaveTypes strip i callee args table called uncasted is_call cast is_called is_uncasted
      typed castable =
    let (later, recast, ends, recast_typed, (added, e)) =
      recast_args_lem args called.params uncasted.params table typed
        (cast_call-params called uncasted castable) in
    let different : (callee == strip table callee) ≡ false =
      ground (arith, ==_iff callee (strip table callee), cast) in
    elim (Option-cases (get_elem? table i)) [
      | inl none_there ↦ absurd (cc (rw (kind_at, none_there) at is_call))
      | inr (value, there) ↦
          let after =
            set_kind_lem i (call_inst (strip table callee) recast) later {value = value}
              (rw e (get_elem?-append table added i there)) in
          (
            set_kind i (call_inst (strip table callee) recast) later,
            recast,
            rw (is_call, recast_call, different, is_called, is_uncasted, castable, ends) refl,
            after.0,
            HaveTypes-map later (set_kind i (call_inst (strip table callee) recast) later) recast
                uncasted.params after.1 recast_typed,
          )
    ]

-- A call with more arguments than the function behind the cast has parameters, as one of a variadic function,
-- makes the loop read the type of a parameter that is not there.
pub recast_args_out_of_range :
    (args : List ℕ) (params : List LlvmType) (table : List IrValue)
    → length params < length args
    → recast_args args params table ≡ err parameter_out_of_range
unfolding recast_args
recast_args_out_of_range [] params table lt = absurd (omega arith)
recast_args_out_of_range (a ∷ args) [] table lt = refl
recast_args_out_of_range (a ∷ args) (t ∷ params) table lt =
    elim (Bool-cases (is_pointer_ty (type_at table a) && not (same_type (type_at table a) t))) [
      | inl e ↦
          rw
            (
              e,
              recast_args,
              recast_args_out_of_range args params (table ++ (pointer_cast a t ∷ [])) (omega arith),
            )
            refl
      | inr e ↦ rw (e, recast_args, recast_args_out_of_range args params table (omega arith)) refl
    ]
