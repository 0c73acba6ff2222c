-- ===== src/Inline/Args/Attributes.antt =====
-- `RemapAttributes` of runtime/pass/InlineParameters.cpp: which attributes a parameter of the wrapper has.
use mathlib.Core.Option
use easy_just_in_time.Prelude.{
  ℕ, zero, suc, ◌+◌, ◌≡◌, refl, sym, ap, ◌∙◌, List, [], ◌∷◌, none, some, Result, ok, err, >>=-eq-ok,
  replicate, length, get_elem?, arith, length-replicate,
}
use easy_just_in_time.Context.{Context, Argument}
use easy_just_in_time.Llvm.{LlvmType, IrFunction, IrModule, Bitcode}
use easy_just_in_time.Inline.{
  Fault, HighLevelArg, HighLevelLayout, default_arg, high_level_layout, get_new_layout,
  count_new_args, set_param_idx,
}
use easy_just_in_time.Inline.NewLayout.{Reads, first_forward, Keeps}
use easy_just_in_time.Inline.Constants.{DataLayout}
use easy_just_in_time.Tracker.{BitcodeTracker}
use easy_just_in_time.Inline.Args.{
  remap_fields, remap_attributes, Wrapper, create_wrapper_fun, get_inline_args,
}
use easy_just_in_time.Inline.Args.Forward.{
  AllForwarded, high_level_layout-ok, get_new_layout-ok, kept_first, first_forward-some,
  Reads-IsEntry,
}

-- The attributes of a parameter of the function.
abbrev pub attributes_at : List (List ℕ) → ℕ → List ℕ
attributes_at attrs i = elim (get_elem? attrs i) [ none ↦ [] | some set ↦ set ]

-- Each entry of the new layout is one parameter, at a place of the old layout that is one parameter.
abbrev Places : List HighLevelArg → List HighLevelArg → Type 0
Places hs news =
    (j : ℕ) (x : HighLevelArg)
    → get_elem? news j ≡ some x
    → (length x.types ≡ 1)
      × ((y : HighLevelArg) × (get_elem? hs x.position ≡ some y) × (y.first_param_idx ≡ x.position))

remap_fields_one :
    (attrs : List (List ℕ)) (types : List LlvmType) (new org : ℕ)
    → length types ≡ 1
    → remap_fields attrs types new org ≡ (new, attributes_at attrs org) ∷ []
unfolding remap_fields
remap_fields_one attrs [] new org one = absurd (omega arith)
remap_fields_one attrs (t ∷ []) new org one = refl
remap_fields_one attrs (t ∷ u ∷ types) new org one = absurd (omega arith)

-- The attributes for the parameters from `p` on.
abbrev expected : List (List ℕ) → ℕ → List HighLevelArg → List (ℕ × List ℕ)
expected attrs p [] = []
expected attrs p (x ∷ news) = (p, attributes_at attrs x.position) ∷ expected attrs (suc p) news

remap_attributes-expected :
    (attrs : List (List ℕ)) (hs news : List HighLevelArg) (p : ℕ)
    → Places hs news
    → remap_attributes attrs hs (set_param_idx p news) ≡ ok (expected attrs p news)
unfolding remap_attributes set_param_idx
remap_attributes-expected attrs hs [] p places = refl
remap_attributes-expected attrs hs (x ∷ news) p places =
    let (one, (y, here, idx)) = places 0 x refl in
    let next : p + length x.types ≡ suc p = omega (arith, one) in
    let fields : remap_fields attrs x.types p y.first_param_idx
        ≡ (p, attributes_at attrs x.position) ∷ [] =
      remap_fields_one attrs x.types p y.first_param_idx one
      ∙ ap (λ i. (p, attributes_at attrs i) ∷ []) idx in
    let rest = remap_attributes-expected attrs hs news (suc p) (λ j. places (suc j)) in
    rw (here, remap_attributes) (rw (next, rest, fields) refl)

get_elem?-expected :
    (attrs : List (List ℕ)) (p j : ℕ) (news : List HighLevelArg) {x : HighLevelArg}
    → get_elem? news j ≡ some x
    → get_elem? (expected attrs p news) j ≡ some (p + j, attributes_at attrs x.position)
get_elem?-expected attrs p j [] e = cc
get_elem?-expected attrs p zero (y ∷ news) {x} e =
    let same : y ≡ x = Option.some_inj.0 e in
    rw same (ap (λ i. some (i, attributes_at attrs x.position)) (omega arith))
get_elem?-expected attrs p (suc j) (y ∷ news) {x} e =
    get_elem?-expected attrs (suc p) j news e
    ∙ ap (λ i. some (i, attributes_at attrs x.position)) (omega arith)

length-expected :
    (attrs : List (List ℕ)) (p : ℕ) (news : List HighLevelArg)
    → length (expected attrs p news) ≡ length news
length-expected attrs p [] = refl
length-expected attrs p (x ∷ news) = ap suc (length-expected attrs (suc p) news)

Reads-first_param_idx :
    (i : ℕ) (ts : List LlvmType) (hs : List HighLevelArg)
    → Reads i i ts hs
    → (j : ℕ) {h : HighLevelArg} → get_elem? hs j ≡ some h
    → h.first_param_idx ≡ i + j
Reads-first_param_idx i [] [] r j e = cc
Reads-first_param_idx i [] (x ∷ hs) r j e = elim r [ ]
Reads-first_param_idx i (t ∷ ts) [] r j e = elim r [ ]
Reads-first_param_idx i (t ∷ ts) (x ∷ hs) r zero {h} e =
    let same : x ≡ h = Option.some_inj.0 e in
    sym (ap (λ y. y.first_param_idx) same) ∙ ap (λ y. y.first_param_idx) r.0 ∙ (omega arith)
Reads-first_param_idx i (t ∷ ts) (x ∷ hs) r (suc j) {h} e =
    omega (arith, Reads-first_param_idx (suc i) ts hs r.1 j e)

module _ {D : Type 0} (as' : List (Argument D)) (hs kept : List HighLevelArg) (ts : List LlvmType)
    (keeps : Keeps as' hs [] (replicate (count_new_args 0 as') default_arg) kept)
    (all : AllForwarded as' hs) (reads : Reads 0 0 ts hs) where
  kept-Places : Places hs kept
  kept-Places j x e =
      let first = kept_first as' hs kept keeps all j x e in
      let (i, from, here) = first_forward-some j as' hs first in
      let (pos, one) = Reads-IsEntry 0 0 ts hs reads i here in
      let idx = Reads-first_param_idx 0 ts hs reads i here in
      let place : x.position ≡ i = omega (arith, pos) in
      (one, (x, ap (get_elem? hs) place ∙ here, omega (arith, place, idx)))

-- The attributes that a wrapper has been given.
abbrev attrs_of : {D : Type 0} → Result Fault (IrModule × Wrapper D) → List (ℕ × List ℕ)
attrs_of (ok r) = r.1.param_attrs
attrs_of (err e) = []

abbrev fn_attrs_of : {D : Type 0} → Result Fault (IrModule × Wrapper D) → List ℕ
fn_attrs_of (ok r) = r.1.fn_attrs
fn_attrs_of (err e) = []

-- Take a function whose layout was found, and a context in which every index below the wrapper's number of
-- arguments is forwarded to, whatever else is bound. If the wrapper is made, it has the function's own
-- attributes, and one set for each of its parameters: the parameter `k` has the attributes that the
-- function has at the position of the first argument for `k`.
pub create_wrapper_fun_attributes :
    {D : Type 0} (bc : Bitcode) (bt : BitcodeTracker) (dl : DataLayout) (functions : ℕ → IrModule)
    (f : IrFunction) (c : Context D) (m : IrModule) (k : ℕ) {hll : HighLevelLayout} {m' : IrModule}
    {w : Wrapper D} {h : HighLevelArg}
    → high_level_layout f ≡ ok hll
    → create_wrapper_fun bc bt dl functions f hll c m ≡ ok (m', w)
    → AllForwarded c.argument_mapping hll.args
    → first_forward k c.argument_mapping hll.args ≡ some h
    → (w.fn_attrs ≡ f.fn_attrs)
      × (length w.param_attrs ≡ count_new_args 0 c.argument_mapping)
      × (get_elem? w.param_attrs k ≡ some (k, attributes_at f.param_attrs h.position))
unfolding create_wrapper_fun
create_wrapper_fun_attributes bc bt dl functions f c m k {hll} {m'} {w} {h} laid made all first =
    let (no_return, reads) = high_level_layout-ok f laid in
    let (new, planned, e1) = >>=-eq-ok (get_new_layout c hll) _ made in
    let (inlined, ran, e2) = >>=-eq-ok (get_inline_args bc bt dl functions c hll new m) _ e1 in
    let (added, mapped, e3) = >>=-eq-ok (remap_attributes f.param_attrs hll.args new.args) _ e2 in
    let (kept, args, keeps) = get_new_layout-ok c hll planned in
    let places = kept-Places c.argument_mapping hll.args kept f.params keeps all reads in
    let here : get_elem? kept k ≡ some h = keeps.1 k ∙ rw first refl in
    let remapped : remap_attributes f.param_attrs hll.args new.args
        ≡ ok (expected f.param_attrs 0 kept) =
      ap (remap_attributes f.param_attrs hll.args) args
      ∙ remap_attributes-expected f.param_attrs hll.args kept 0 places in
    let same : expected f.param_attrs 0 kept ≡ added = cc (remapped, mapped) in
    let attrs : added ≡ w.param_attrs = ap attrs_of e3 in
    let own : f.fn_attrs ≡ w.fn_attrs = ap fn_attrs_of e3 in
    (
      sym own,
      ap length (sym (same ∙ attrs))
          ∙ length-expected f.param_attrs 0 kept
          ∙ keeps.0
          ∙ length-replicate (count_new_args 0 c.argument_mapping) default_arg,
      ap (λ l. get_elem? l k) (sym (same ∙ attrs))
          ∙ get_elem?-expected f.param_attrs 0 k kept here
          ∙ ap (λ i. some (i, attributes_at f.param_attrs h.position)) (omega arith),
    )
