-- ===== src/Inline/Args/Forward.antt =====
-- runtime/pass/InlineParametersHelper.cpp, `GetForwardArgs`: which parameter of the wrapper a forwarded
-- argument becomes, in the layout that `GetNewLayout` makes.
use mathlib.Core.Option
use easy_just_in_time.Prelude.{
  ℕ, zero, suc, ◌⊎◌, ◌+◌, ◌<◌, ◌≡◌, refl, sym, ap, ◌∙◌, true, false, List, [], ◌∷◌, Option, none,
  some, Result, ok, err, ◌>>=◌, >>=-eq-ok, guard-eq-ok, Bool-cases, inl, inr, length, get_elem?,
  replicate, ◌==◌, ==_iff, if◌then◌else◌, arith, length-replicate,
}
use easy_just_in_time.Context.{Context, Argument, forward_argument}
use easy_just_in_time.Llvm.{LlvmType, IrFunction}
use easy_just_in_time.Inline.{
  Fault, position_not_found, assertion_failed, HighLevelArg, HighLevelLayout, default_arg,
  one_param, count_new_args, keep_forwarded, set_param_idx, layout_of, high_level_layout,
  get_new_layout, return_params,
}
use easy_just_in_time.Inline.NewLayout.{
  Reads, first_forward, Keeps, keep_forwarded-Keeps, lt_of_get_elem?, high_level_layout-Reads,
  high_level_layout_struct_ret,
}
use easy_just_in_time.Inline.Args.{
  Operand, wrapper_param, find_position, params_from, get_forward_args,
}

-- An entry of a layout says where it stands, and is one parameter.
abbrev pub IsEntry : ℕ → HighLevelArg → Type 0
IsEntry i h = (h.position ≡ i) × (length h.types ≡ 1)

pub Reads-IsEntry :
    (i p : ℕ) (ts : List LlvmType) (hs : List HighLevelArg)
    → Reads i p ts hs
    → (j : ℕ) {h : HighLevelArg} → get_elem? hs j ≡ some h
    → IsEntry (i + j) h
Reads-IsEntry i p [] [] r j e = cc
Reads-IsEntry i p [] (x ∷ hs) r j e = elim r [ ]
Reads-IsEntry i p (t ∷ ts) [] r j e = elim r [ ]
Reads-IsEntry i p (t ∷ ts) (x ∷ hs) r zero {h} e =
    let same : one_param i p t ≡ h = sym (r.0) ∙ Option.some_inj.0 e in
    rw (← same) (omega arith, refl)
Reads-IsEntry i p (t ∷ ts) (x ∷ hs) r (suc j) {h} e =
    let (pos, one) = Reads-IsEntry (suc i) (suc p) ts hs r.1 j e in (omega (arith, pos), one)

module _ {D : Type 0} where
  -- The entry of the first argument for an index is the entry of an argument that is forwarded to it.
  pub first_forward-some :
      (k : ℕ) (as' : List (Argument D)) (hs : List HighLevelArg) {h : HighLevelArg}
      → first_forward k as' hs ≡ some h
      → (i : ℕ) × (get_elem? as' i ≡ some (forward_argument k)) × (get_elem? hs i ≡ some h)
  first_forward-some k [] hs e = cc
  first_forward-some k (a ∷ as') [] e = ground arith
  first_forward-some k (forward_argument j ∷ as') (x ∷ hs) e = elim (Bool-cases (j == k)) [
    | inl same ↦ (0, ap (λ n. some (forward_argument n)) ((==_iff j k).0 same), rw (same) at e)
    | inr other ↦
        let (i, at_i, here) = first_forward-some k as' hs (rw (other) at e) in (suc i, at_i, here)
  ]
  first_forward-some k (a ∷ as') (x ∷ hs) e =
      let (i, at_i, here) = first_forward-some k as' hs e in (suc i, at_i, here)

-- With one parameter for each entry, the entry at `k` starts at parameter `k`, counted from the first.
find_position_only :
    (pos p k : ℕ) (hs : List HighLevelArg) {h : HighLevelArg}
    → ((j : ℕ) (x : HighLevelArg) → get_elem? hs j ≡ some x → length x.types ≡ 1)
    → ((j : ℕ) (x : HighLevelArg) → get_elem? hs j ≡ some x → x.position ≡ pos → j ≡ k)
    → get_elem? hs k ≡ some h
    → h.position ≡ pos
    → find_position pos (set_param_idx p hs) ≡ some (record h { first_param_idx = p + k })
unfolding find_position set_param_idx
find_position_only pos p k [] one only e at_pos = cc
find_position_only pos p zero (x ∷ hs) {h} one only e at_pos =
    let same : x ≡ h = Option.some_inj.0 e in
    let here : (h.position == pos) ≡ true = (==_iff h.position pos).1 at_pos in
    rw (same, here) (ap (λ i. some (record h { first_param_idx = i })) (omega arith))
find_position_only pos p (suc k) (x ∷ hs) {h} one only e at_pos =
    let len : length x.types ≡ 1 = one 0 x refl in
    let other : (x.position == pos) ≡ false = elim (Bool-cases (x.position == pos)) [
      | inl same ↦ absurd (omega (arith, only 0 x refl ((==_iff x.position pos).0 same)))
      | inr no_match ↦ no_match
    ] in
    let rest =
      find_position_only pos (p + 1) k hs (λ j. one (suc j))
        (λ j y e' at_pos'. omega (arith, only (suc j) y e' at_pos')) e at_pos in
    rw (other, len) (rest ∙ ap (λ i. some (record h { first_param_idx = i })) (omega arith))

find_position-none :
    (pos p : ℕ) (hs : List HighLevelArg)
    → ((j : ℕ) (x : HighLevelArg) → get_elem? hs j ≡ some x → ¬ (x.position ≡ pos))
    → find_position pos (set_param_idx p hs) ≡ none
unfolding find_position set_param_idx
find_position-none pos p [] absent = refl
find_position-none pos p (x ∷ hs) absent =
    let other : (x.position == pos) ≡ false = elim (Bool-cases (x.position == pos)) [
      | inl same ↦ absurd (absent 0 x refl ((==_iff x.position pos).0 same))
      | inr no_match ↦ no_match
    ] in
    rw other (find_position-none pos (p + length x.types) hs (λ j. absent (suc j)))

-- Every index below the wrapper's number of arguments is forwarded to.
abbrev pub AllForwarded : {D : Type 0} → List (Argument D) → List HighLevelArg → Type 0
AllForwarded as' hs =
    (j : ℕ) → j < count_new_args 0 as' → (h : HighLevelArg) × (first_forward j as' hs ≡ some h)

-- What the search for the argument at `i` finds, if `h0` is the first one for the index `k`.
abbrev found_entry : HighLevelArg → ℕ → ℕ → Option HighLevelArg
found_entry h0 i k = if h0.position == i then some (record h0 { first_param_idx = k }) else none

module _ {D : Type 0} (as' : List (Argument D)) (hs : List HighLevelArg) (new : List HighLevelArg)
    (kept : Keeps as' hs [] (replicate (count_new_args 0 as') default_arg) new)
    (all : AllForwarded as' hs) where
  -- The kept entries are the first arguments for their indices, and no others.
  pub kept_first :
      (j : ℕ) (x : HighLevelArg) → get_elem? new j ≡ some x → first_forward j as' hs ≡ some x
  kept_first j x e =
      let len : length new ≡ count_new_args 0 as' =
        kept.0 ∙ length-replicate (count_new_args 0 as') default_arg in
      let room : j < count_new_args 0 as' = omega (arith, len, lt_of_get_elem? new j e) in
      let (h, first) = all j room in
      let here : get_elem? new j ≡ some h = kept.1 j ∙ rw first refl in cc (here, first, e)

  module _ (ts : List LlvmType) (reads : Reads 0 0 ts hs) (i k : ℕ) (h h0 : HighLevelArg)
      (at_i : get_elem? as' i ≡ some (forward_argument k)) (here : get_elem? hs i ≡ some h)
      (first : first_forward k as' hs ≡ some h0) where
    -- A kept entry at position `i` stands at `k`.
    kept_position :
        (j : ℕ) (x : HighLevelArg) → get_elem? new j ≡ some x → x.position ≡ i → (j ≡ k) × (x ≡ h0)
    kept_position j x e at_pos =
        let (i', from, entry) = first_forward-some j as' hs (kept_first j x e) in
        let pos : x.position ≡ i' = omega (arith, (Reads-IsEntry 0 0 ts hs reads i' entry).0) in
        let same_i : i' ≡ i = sym pos ∙ at_pos in
        let same : j ≡ k = cc (rw same_i at from, at_i) in
        (same, Option.some_inj.0 (sym (rw (← same) (kept_first j x e)) ∙ first))

    kept_one : (j : ℕ) (x : HighLevelArg) → get_elem? new j ≡ some x → length x.types ≡ 1
    kept_one j x e =
        let (i', from, entry) = first_forward-some j as' hs (kept_first j x e) in
        (Reads-IsEntry 0 0 ts hs reads i' entry).1

    kept_here : get_elem? new k ≡ some h0
    kept_here = kept.1 k ∙ rw first refl

    find_position-kept : find_position i (set_param_idx 0 new) ≡ found_entry h0 i k
    find_position-kept = elim (Bool-cases (h0.position == i)) [
      | inl same ↦ rw same (
          find_position_only i 0 k new kept_one (λ j x e at_pos. (kept_position j x e at_pos).0)
            kept_here ((==_iff h0.position i).0 same)
          ∙ ap (λ n. some (record h0 { first_param_idx = n })) (omega arith))
      | inr other ↦ rw other (
          find_position-none i 0 new (λ j x e at_pos.
            let gone : h0.position ≡ i =
              sym (ap (λ y. y.position) (kept_position j x e at_pos).1) ∙ at_pos in
            cc (other, (==_iff h0.position i).1 gone)))
    ]

-- A layout that was found starts without a return slot, and reads the parameters in order.
pub high_level_layout-ok :
    (f : IrFunction) {hll : HighLevelLayout}
    → high_level_layout f ≡ ok hll
    → (hll.struct_return ≡ none) × Reads 0 0 f.params hll.args
unfolding high_level_layout layout_of
high_level_layout-ok f {hll} e = go f.params refl (Bool-cases f.struct_ret)
  where
    go :
        (ps : List LlvmType)
        → f.params ≡ ps
        → (f.struct_ret ≡ true) ⊎ (f.struct_ret ≡ false)
        → (hll.struct_return ≡ none) × Reads 0 0 f.params hll.args
    go [] params s = cc (rw params at e)
    go (t ∷ ts) params (inl slot) =
        cc (e, high_level_layout_struct_ret f (rw params (omega arith)) slot)
    go (t ∷ ts) params (inr no_slot) =
        let (hs, laid, reads) = high_level_layout-Reads f params no_slot in
        let same : record { struct_return = none; args = hs; return_type = f.return_type } ≡ hll =
          cc (laid, e) in
        rw (← same) (refl, reads)

pub get_new_layout-ok :
    {D : Type 0} (c : Context D) (hll : HighLevelLayout) {new : HighLevelLayout}
    → get_new_layout c hll ≡ ok new
    → (kept : List HighLevelArg) × (new.args ≡ set_param_idx 0 kept)
      × Keeps c.argument_mapping hll.args []
          (replicate (count_new_args 0 c.argument_mapping) default_arg)
          kept
unfolding get_new_layout
get_new_layout-ok c hll {new} e =
    let xs = c.argument_mapping in
    let start = replicate (count_new_args 0 xs) default_arg in
    let (sizes, e1) =
      guard-eq-ok (length xs == length hll.args) assertion_failed
        (keep_forwarded xs hll.args [] start >>= λ kept.
          ok (record hll { args = set_param_idx 0 kept }))
        e in
    let (kept, found, e2) =
      >>=-eq-ok (keep_forwarded xs hll.args [] start)
        (λ kept. ok (record hll { args = set_param_idx 0 kept })) e1 in
    let same : record hll { args = set_param_idx 0 kept } ≡ new = cc e2 in
    (kept, rw (← same) refl, keep_forwarded-Keeps xs hll.args [] start found)

-- The operands for what the search found.
abbrev one_operand : {D : Type 0} → Option HighLevelArg → Result Fault (List (Operand D))
one_operand none = err position_not_found
one_operand (some a) = ok (wrapper_param a.first_param_idx ∷ [])

operands-one_operand :
    {D : Type 0} (ts : List LlvmType) (found : Option HighLevelArg) (slot : Option LlvmType)
    → slot ≡ none
    → length ts ≡ 1
    → (elim found [
      | none ↦ err position_not_found
      | some a ↦ ok (params_from (a.first_param_idx + return_params slot) ts)
    ])
      ≡ one_operand {D = D} found
unfolding params_from
operands-one_operand ts none slot no_slot e = refl
operands-one_operand ts (some a) (some t) no_slot e = cc
operands-one_operand [] (some a) none no_slot e = absurd (omega arith)
operands-one_operand (t ∷ []) (some a) none no_slot e =
    ap (λ n. ok (wrapper_param n ∷ [])) (omega arith)
operands-one_operand (t ∷ u ∷ ts) (some a) none no_slot e = absurd (omega arith)

-- An argument of one parameter, by the entry that the search finds.
single_forward :
    {D : Type 0} (h : HighLevelArg) (fhll new : HighLevelLayout) {found : Option HighLevelArg}
    → fhll.struct_return ≡ none
    → length h.types ≡ 1
    → find_position h.position new.args ≡ found
    → get_forward_args h fhll new ≡ one_operand {D = D} found
unfolding get_forward_args
single_forward h fhll new {found} no_return one searched =
    rw (get_forward_args, searched)
      (operands-one_operand h.types found fhll.struct_return no_return one)

-- Take the layout of a function and the layout of its wrapper for a context in which every index below
-- the wrapper's number of arguments is forwarded to. Let the argument at `i` be forwarded to `k`, and let
-- `h0` be the first argument for `k`. If that is the argument at `i`, then `GetForwardArgs` gives the
-- parameter `k` of the wrapper for it, alone; if it is an earlier one, then the search fails and its
-- result is read all the same.
pub get_forward_args_lem :
    {D : Type 0} (f : IrFunction) (c : Context D) {hll new : HighLevelLayout} (i k : ℕ)
    {h h0 : HighLevelArg}
    → high_level_layout f ≡ ok hll
    → get_new_layout c hll ≡ ok new
    → AllForwarded c.argument_mapping hll.args
    → get_elem? c.argument_mapping i ≡ some (forward_argument k)
    → get_elem? hll.args i ≡ some h
    → first_forward k c.argument_mapping hll.args ≡ some h0
    → get_forward_args {D = D} h hll new
      ≡ (if h0.position == i then ok (wrapper_param k ∷ []) else err position_not_found)
unfolding get_forward_args
get_forward_args_lem f c {hll} {new} i k {h} {h0} laid made all at_i here first =
    let (no_return, reads) = high_level_layout-ok f laid in
    let (kept, args, keeps) = get_new_layout-ok c hll made in
    let (at_pos, one) = Reads-IsEntry 0 0 f.params hll.args reads i here in
    let found =
      find_position-kept c.argument_mapping hll.args kept keeps all f.params reads i k h h0 at_i
        here first in
    let pos : h.position ≡ i = omega (arith, at_pos) in
    let searched : find_position h.position new.args ≡ found_entry h0 i k =
      ap (λ p. find_position p new.args) pos ∙ ap (find_position i) args ∙ found in
    single_forward h hll new no_return one searched
    ∙ (elim (Bool-cases (h0.position == i)) [ inl same ↦ rw same refl | inr other ↦ rw other refl ])
