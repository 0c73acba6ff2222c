-- ===== src/Inline/NewLayout.antt =====
-- The layout of a function's parameters, and the layout that `GetNewLayout` makes of it: which
-- parameters stay, in which order, and when a step faults.
use mathlib.Core.List.{append_assoc}
use mathlib.Core.Path.{subst₂}
use easy_just_in_time.Prelude.{
  ℕ, zero, suc, ◌+◌, ◌^◌, ◌%◌, ◌≤◌, ◌<◌, max, ◌≡◌, refl, ap, ◌∙◌, true, false, List, [], ◌∷◌, ◌++◌,
  Option, none, some, Result, ok, err, guard-eq-ok, Bool-cases, Option-cases, inl, inr, length,
  get_elem?, set, ltb, lt→ltb, ltb→lt, ◌==◌, if◌then◌else◌, arith, All, length-set,
  get_elem?-set_self, get_elem?-set_ne,
}
use easy_just_in_time.Context.{Argument, forward_argument}
use easy_just_in_time.Llvm.{LlvmType, IrFunction}
use easy_just_in_time.Inline.{
  Fault, parameter_out_of_range, argument_out_of_range, HighLevelArg, one_param, layout_args,
  layout_of, high_level_layout, count_new_args, contains, keep_forwarded, set_param_idx, all_types,
}

pub get_elem?-some {ℓ} :
    {A : Type ℓ} (xs : List A) (i : ℕ) → i < length xs → (x : A) × (get_elem? xs i ≡ some x)
get_elem?-some [] i h = elim h [ ]
get_elem?-some (x ∷ xs) zero h = (x, refl)
get_elem?-some (x ∷ xs) (suc i) h = get_elem?-some xs i (omega arith)

pub lt_of_get_elem? {ℓ} :
    {A : Type ℓ} (xs : List A) (i : ℕ) {x : A} → get_elem? xs i ≡ some x → i < length xs
lt_of_get_elem? [] i h = cc
lt_of_get_elem? (x ∷ xs) zero h = omega arith
lt_of_get_elem? (x ∷ xs) (suc i) h = omega (arith, lt_of_get_elem? xs i h)

get_elem?-append {ℓ} :
    {A : Type ℓ} (xs : List A) (y : A) (ys : List A) → get_elem? (xs ++ y ∷ ys) (length xs) ≡ some y
get_elem?-append [] y ys = refl
get_elem?-append (x ∷ xs) y ys = get_elem?-append xs y ys

pub length-concat {ℓ} : {A : Type ℓ} (xs : List A) (y : A) → length (xs ++ y ∷ []) ≡ suc (length xs)
length-concat [] y = refl
length-concat (x ∷ xs) y = ap suc (length-concat xs y)

-- The loop reads one parameter for each round, from its start on.
abbrev pub Reads : ℕ → ℕ → List LlvmType → List HighLevelArg → Type 0
Reads i p [] [] = Unit
Reads i p (t ∷ ts) (h ∷ hs) = (h ≡ one_param i p t) × Reads (suc i) (suc p) ts hs
Reads i p _ _ = ⊥

pub length-Reads :
    (i p : ℕ) (ts : List LlvmType) (hs : List HighLevelArg)
    → Reads i p ts hs
    → length hs ≡ length ts
length-Reads i p [] [] r = refl
length-Reads i p [] (h ∷ hs) r = elim r [ ]
length-Reads i p (t ∷ ts) [] r = elim r [ ]
length-Reads i p (t ∷ ts) (h ∷ hs) r = ap suc (length-Reads (suc i) (suc p) ts hs r.1)

layout_args-Reads :
    (done ts : List LlvmType) (i : ℕ)
    → (hs : List HighLevelArg) × (layout_args (length ts) i (length done) (done ++ ts) ≡ ok hs)
      × Reads i (length done) ts hs
unfolding layout_args
layout_args-Reads done [] i = ([], refl, tt)
layout_args-Reads done (t ∷ ts) i =
    let here : get_elem? (done ++ t ∷ ts) (length done) ≡ some t = get_elem?-append done t ts in
    let (hs, e, reads) = layout_args-Reads (done ++ t ∷ []) ts (suc i) in
    let len : length (done ++ t ∷ []) ≡ suc (length done) = length-concat done t in
    let rest : layout_args (length ts) (suc i) (suc (length done)) (done ++ t ∷ ts) ≡ ok hs =
      subst₂ (λ n l. layout_args (length ts) (suc i) n l ≡ ok hs) len
        (append_assoc done (t ∷ []) ts) e in
    (one_param i (length done) t ∷ hs, rw (here, layout_args) (rw rest), (refl, rw (← len) reads))

layout_args_fault :
    (n i p : ℕ) (params : List LlvmType)
    → p ≤ length params
    → length params < p + n
    → layout_args n i p params ≡ err parameter_out_of_range
unfolding layout_args
layout_args_fault zero i p params le lt = absurd (omega arith)
layout_args_fault (suc n) i p params le lt = elim (Option-cases (get_elem? params p)) [
  | inl e ↦ rw (e, layout_args)
  | inr (t, e) ↦
      rw (e, layout_args)
        (rw (layout_args_fault n (suc i) (suc p) params (lt_of_get_elem? params p e) (omega arith)))
]

-- A function whose first argument is no return slot gets one entry for each parameter, in order.
pub high_level_layout-Reads :
    (f : IrFunction) {t : LlvmType} {ts : List LlvmType}
    → f.params ≡ t ∷ ts
    → f.struct_ret ≡ false
    → (hs : List HighLevelArg) × (high_level_layout f
        ≡ ok (record { struct_return = none; args = hs; return_type = f.return_type }))
      × Reads 0 0 f.params hs
unfolding high_level_layout layout_of
high_level_layout-Reads f {t} {ts} e s =
    let (hs, read, reads) = layout_args-Reads [] (t ∷ ts) 0 in (hs, rw (e, s) (rw read), rw e reads)

-- If the first argument is a return slot, the loop starts behind it and still runs once for each
-- parameter: it reads past the last one.
pub high_level_layout_struct_ret :
    (f : IrFunction)
    → 0 < length f.params
    → f.struct_ret ≡ true
    → high_level_layout f ≡ err parameter_out_of_range
unfolding high_level_layout layout_of
high_level_layout_struct_ret f pos s = rw s (go f.params pos)
  where
    go :
        (ps : List LlvmType)
        → 0 < length ps
        → layout_of ps true f.return_type ≡ err parameter_out_of_range
    go [] h = absurd (omega arith)
    go (t ∷ ts) h =
        rw (layout_args_fault (suc (length ts)) 0 1 (t ∷ ts) (omega arith) (omega arith))

abbrev done : List HighLevelArg → Result Fault (List HighLevelArg)
done = ok

module _ {D : Type 0} where
  -- The layout of the first argument that is forwarded to an index.
  abbrev pub first_forward : ℕ → List (Argument D) → List HighLevelArg → Option HighLevelArg
  first_forward k (forward_argument j ∷ as') (h ∷ hs) =
      if j == k then some h else first_forward k as' hs
  first_forward k (_ ∷ as') (h ∷ hs) = first_forward k as' hs
  first_forward k _ _ = none

  -- What the loop leaves at an index: unchanged if it was visited, and else the first argument for it.
  abbrev pub kept_entry :
      ℕ → List (Argument D) → List HighLevelArg → List ℕ → List HighLevelArg → Option HighLevelArg
  kept_entry k as' hs visited new =
      if contains k visited
      then get_elem? new k
      else (elim (first_forward k as' hs) [ none ↦ get_elem? new k | some h ↦ some h ])

  abbrev pub Keeps :
      List (Argument D)
      → List HighLevelArg
      → List ℕ
      → List HighLevelArg
      → List HighLevelArg
      → Type 0
  Keeps as' hs visited new new' =
      (length new' ≡ length new) × ((k : ℕ) → get_elem? new' k ≡ kept_entry k as' hs visited new)

  Keeps-nothing :
      (as' : List (Argument D)) (hs : List HighLevelArg) (visited : List ℕ)
      (new : List HighLevelArg)
      → ((k : ℕ) → first_forward k as' hs ≡ none)
      → {new' : List HighLevelArg} → done new ≡ ok new'
      → Keeps as' hs visited new new'
  Keeps-nothing as' hs visited new e {new'} h =
      let same : new ≡ new' = cc h in (rw same, λ k. rw (← same, e k) (ground arith))

  kept_entry_old :
      (j k : ℕ) (as' : List (Argument D)) (h : HighLevelArg) (hs : List HighLevelArg)
      (visited : List ℕ) (new : List HighLevelArg)
      → contains j visited ≡ true
      → kept_entry k as' hs visited new
        ≡ kept_entry k (forward_argument j ∷ as') (h ∷ hs) visited new
  kept_entry_old j k as' h hs visited new old = ground arith

  kept_entry_fresh :
      (j k : ℕ) (as' : List (Argument D)) (h : HighLevelArg) (hs : List HighLevelArg)
      (visited : List ℕ) (new : List HighLevelArg)
      → contains j visited ≡ false
      → j < length new
      → kept_entry k as' hs (j ∷ visited) (set new j h)
        ≡ kept_entry k (forward_argument j ∷ as') (h ∷ hs) visited new
  kept_entry_fresh j k as' h hs visited new fresh room =
      ground (arith, get_elem?-set_self new j h, get_elem?-set_ne new j k h)

  pub keep_forwarded-Keeps :
      (as' : List (Argument D)) (hs : List HighLevelArg) (visited : List ℕ)
      (new : List HighLevelArg) {new' : List HighLevelArg}
      → keep_forwarded as' hs visited new ≡ ok new'
      → Keeps as' hs visited new new'
  unfolding keep_forwarded
  keep_forwarded-Keeps (forward_argument j ∷ as') (h ∷ hs) visited new e =
      elim (Bool-cases (contains j visited)) [
        | inl old ↦
            let (len, kept) =
              keep_forwarded-Keeps as' hs visited new (rw (old, keep_forwarded) at e) in
            (len, λ k. kept k ∙ kept_entry_old j k as' h hs visited new old)
        | inr fresh ↦
            let (room, e1) =
              guard-eq-ok (ltb j (length new)) argument_out_of_range
                (keep_forwarded as' hs (j ∷ visited) (set new j h))
                (rw (fresh, keep_forwarded) at e) in
            let (len, kept) = keep_forwarded-Keeps as' hs (j ∷ visited) (set new j h) e1 in
            (
              len ∙ length-set new j h,
              λ k.
                  kept k
                  ∙ kept_entry_fresh j k as' h hs visited new fresh (ltb→lt j (length new) room),
            )
      ]
  keep_forwarded-Keeps (forward_argument j ∷ as') [] visited new e =
      Keeps-nothing (forward_argument j ∷ as') [] visited new (λ k. refl) e
  keep_forwarded-Keeps [] hs visited new e = Keeps-nothing [] hs visited new (λ k. refl) e
  keep_forwarded-Keeps (a ∷ as') [] visited new e =
      Keeps-nothing (a ∷ as') [] visited new (λ k. refl) e
  keep_forwarded-Keeps (a ∷ as') (h ∷ hs) visited new e = keep_forwarded-Keeps as' hs visited new e

  -- Every forwarded index, plus one, is an `unsigned`.
  abbrev pub IsSmall : Argument D → Type 0
  IsSmall (forward_argument k) = k + 1 < 2 ^ 32
  IsSmall _ = Unit {0}

  le-count_new_args : (n : ℕ) (as' : List (Argument D)) → n ≤ count_new_args n as'
  unfolding count_new_args
  le-count_new_args n [] = omega arith
  le-count_new_args n (forward_argument k ∷ as') =
      omega (arith, le-count_new_args (max n ((k + 1) % 2 ^ 32)) as')
  le-count_new_args n (a ∷ as') = le-count_new_args n as'

  -- With room for the highest index, the loop writes in range.
  pub keep_forwarded_total :
      (n : ℕ) (as' : List (Argument D)) (hs : List HighLevelArg) (visited : List ℕ)
      (new : List HighLevelArg)
      → All IsSmall as'
      → count_new_args n as' ≤ length new
      → (new' : List HighLevelArg) × (keep_forwarded as' hs visited new ≡ ok new')
  unfolding keep_forwarded count_new_args
  keep_forwarded_total n (forward_argument j ∷ as') (h ∷ hs) visited new small room =
      elim (Bool-cases (contains j visited)) [
        | inl old ↦
            rw (old, keep_forwarded)
              (keep_forwarded_total (max n ((j + 1) % 2 ^ 32)) as' hs visited new small.1 room)
        | inr fresh ↦
            let e : (j + 1) % 2 ^ 32 ≡ j + 1 = omega (arith, small.0) in
            let fits : j < length new =
              omega (arith, le-count_new_args (max n ((j + 1) % 2 ^ 32)) as') in
            let len : length (set new j h) ≡ length new = length-set new j h in
            rw (fresh, keep_forwarded, lt→ltb j (length new) fits)
              (keep_forwarded_total (max n ((j + 1) % 2 ^ 32)) as' hs (j ∷ visited) (set new j h)
                small.1 (rw len room))
      ]
  keep_forwarded_total n (forward_argument j ∷ as') [] visited new small room = (new, refl)
  keep_forwarded_total n [] hs visited new small room = (new, refl)
  keep_forwarded_total n (a ∷ as') [] visited new small room = (new, refl)
  keep_forwarded_total n (a ∷ as') (h ∷ hs) visited new small room =
      keep_forwarded_total n as' hs visited new small.1 room

-- Numbering the parameters changes nothing else.
pub all_types-set_param_idx :
    (i : ℕ) (new : List HighLevelArg) → all_types (set_param_idx i new) ≡ all_types new
unfolding set_param_idx
all_types-set_param_idx i [] = refl
all_types-set_param_idx i (a ∷ new) = rw (all_types-set_param_idx (i + length a.types) new)
