-- ===== src/Context/Equality.antt =====
-- `Context::operator==`: exactly when it holds, and which laws of an equality it has.
use easy_just_in_time.Prelude.{
  Bool, ℕ, suc, ap, sym, ◌∙◌, inl, inr, Bool-cases, ◌≡◌, refl, ◌↔◌, true, false, not, ◌&&◌, List,
  [], ◌∷◌, length, ◌==◌, if◌then◌else◌, arith, All,
}
use easy_just_in_time.Context.{
  Double, Argument, forward_argument, int_argument, float_argument, ptr_argument, struct_argument,
  module_argument, bytes_eq, Context, argument_eq, arguments_eq, context_eq,
}

-- What is relied on of `==` on doubles: it is symmetric and transitive. It is not reflexive.
pub record IsPartialEquality {D : Type 0} (double : Double D) : Type 0 where
  pub eq_sym : (a b : D) → double.eq a b ≡ true → double.eq b a ≡ true
  pub eq_trans : (a b c : D) → double.eq a b ≡ true → double.eq b c ≡ true → double.eq a c ≡ true

pub bytes_eq_iff : (a b : List ℕ) → (bytes_eq a b ≡ true) ↔ (a ≡ b)
unfolding bytes_eq
bytes_eq_iff [] [] = ground arith
bytes_eq_iff [] (y ∷ b) = ground arith
bytes_eq_iff (x ∷ a) [] = ground arith
bytes_eq_iff (x ∷ a) (y ∷ b) = ground (arith, bytes_eq_iff a b)

module _ {D : Type 0} ⦃double : Double D⦄ where
  -- The same kind of argument with the same content.
  abbrev pub SameArgument : Argument D → Argument D → Type 0
  SameArgument (forward_argument m) (forward_argument n) = m ≡ n
  SameArgument (int_argument m) (int_argument n) = m ≡ n
  SameArgument (float_argument d) (float_argument e) = double.eq d e ≡ true
  SameArgument (ptr_argument p) (ptr_argument q) = p ≡ q
  SameArgument (struct_argument a) (struct_argument b) = a ≡ b
  SameArgument (module_argument f) (module_argument g) = f ≡ g
  SameArgument _ _ = ⊥

  abbrev pub SameArguments : List (Argument D) → List (Argument D) → Type 0
  SameArguments [] [] = Unit
  SameArguments (a ∷ as') (b ∷ bs) = SameArgument a b × SameArguments as' bs
  SameArguments _ _ = ⊥

  pub argument_eq_iff : (a b : Argument D) → (argument_eq a b ≡ true) ↔ SameArgument a b
  unfolding argument_eq
  argument_eq_iff (struct_argument a) (struct_argument b) = ground (arith, bytes_eq_iff a b)
  argument_eq_iff (forward_argument m) (forward_argument n) = ground arith
  argument_eq_iff (int_argument m) (int_argument n) = ground arith
  argument_eq_iff (float_argument m) (float_argument n) = ground arith
  argument_eq_iff (ptr_argument m) (ptr_argument n) = ground arith
  argument_eq_iff (module_argument m) (module_argument n) = ground arith
  argument_eq_iff _ _ = ground arith

  arguments_eq_iff :
      (as' bs : List (Argument D))
      → length as' ≡ length bs
      → (arguments_eq as' bs ≡ true) ↔ SameArguments as' bs
  unfolding arguments_eq
  arguments_eq_iff [] [] h = ground arith
  arguments_eq_iff [] (b ∷ bs) h = absurd (omega arith)
  arguments_eq_iff (a ∷ as') [] h = absurd (omega arith)
  arguments_eq_iff (a ∷ as') (b ∷ bs) h = elim (Bool-cases (argument_eq a b)) [
    | inl same ↦
        let (to, from) = arguments_eq_iff as' bs (omega arith) in
        rw same (λ e. ((argument_eq_iff a b).0 same, to e), λ s. from s.1)
    | inr other ↦ rw other (λ e. cc e, λ s. cc (sym other ∙ (argument_eq_iff a b).1 s.0))
  ]

  length-SameArguments :
      (as' bs : List (Argument D)) → SameArguments as' bs → length as' ≡ length bs
  length-SameArguments [] [] s = refl
  length-SameArguments [] (b ∷ bs) s = elim s [ ]
  length-SameArguments (a ∷ as') [] s = elim s [ ]
  length-SameArguments (a ∷ as') (b ∷ bs) s = ap suc (length-SameArguments as' bs s.1)

  -- Two contexts are equal exactly when their optimisation levels are the same, and their arguments
  -- one by one, doubles by `==`; the layout, the debug file and the raw bytes play no part.
  pub context_eq_iff :
      (c d : Context D)
      → (context_eq c d ≡ true) ↔ (
          (c.opt_level ≡ d.opt_level)
          × (c.opt_size ≡ d.opt_size)
          × SameArguments c.argument_mapping d.argument_mapping)
  unfolding context_eq
  context_eq_iff c d = (to, from)
    where
      open c use {opt_level as m, opt_size as n, argument_mapping as args}
      open d use {opt_level as m', opt_size as n', argument_mapping as args'}

      to :
          (if not (m == m' && n == n')
              then false
              else (if not (length args == length args') then false else arguments_eq args args'))
            ≡ true
          → (m ≡ m') × (n ≡ n') × SameArguments args args'
      to h =
          let e : (m ≡ m')
              × (n ≡ n')
              × (length args ≡ length args')
              × (arguments_eq args args' ≡ true) =
            ground arith in
          (e.0, e.1, (arguments_eq_iff args args' e.2).0 e.3)

      from :
          (m ≡ m') × (n ≡ n') × SameArguments args args'
          → (if not (m == m' && n == n')
              then false
              else (if not (length args == length args') then false else arguments_eq args args'))
            ≡ true
      from s =
          let l = length-SameArguments args args' s.2 in
          let e = (arguments_eq_iff args args' l).1 s.2 in ground arith

module _ {D : Type 0} ⦃double : Double D⦄ (laws : IsPartialEquality double) where
  SameArgument-sym : (a b : Argument D) → SameArgument a b → SameArgument b a
  SameArgument-sym (float_argument d) (float_argument e) s = laws.eq_sym d e s
  SameArgument-sym (forward_argument m) (forward_argument n) s = sym s
  SameArgument-sym (int_argument m) (int_argument n) s = sym s
  SameArgument-sym (ptr_argument m) (ptr_argument n) s = sym s
  SameArgument-sym (struct_argument m) (struct_argument n) s = sym s
  SameArgument-sym (module_argument m) (module_argument n) s = sym s
  SameArgument-sym _ _ s = elim s [ ]

  SameArgument-trans : (a b c : Argument D) → SameArgument a b → SameArgument b c → SameArgument a c
  SameArgument-trans (float_argument d) (float_argument e) (float_argument f) s t =
      laws.eq_trans d e f s t
  SameArgument-trans (forward_argument m) (forward_argument n) (forward_argument k) s t = s ∙ t
  SameArgument-trans (int_argument m) (int_argument n) (int_argument k) s t = s ∙ t
  SameArgument-trans (ptr_argument m) (ptr_argument n) (ptr_argument k) s t = s ∙ t
  SameArgument-trans (struct_argument m) (struct_argument n) (struct_argument k) s t = s ∙ t
  SameArgument-trans (module_argument m) (module_argument n) (module_argument k) s t = s ∙ t
  SameArgument-trans _ _ _ s t = search

  SameArguments-sym : (as' bs : List (Argument D)) → SameArguments as' bs → SameArguments bs as'
  SameArguments-sym [] [] s = tt
  SameArguments-sym (a ∷ as') (b ∷ bs) s = (SameArgument-sym a b s.0, SameArguments-sym as' bs s.1)
  SameArguments-sym _ _ s = elim s [ ]

  SameArguments-trans :
      (as' bs cs : List (Argument D))
      → SameArguments as' bs
      → SameArguments bs cs
      → SameArguments as' cs
  SameArguments-trans [] [] [] s t = tt
  SameArguments-trans (a ∷ as') (b ∷ bs) (c ∷ cs) s t =
      (SameArgument-trans a b c s.0 t.0, SameArguments-trans as' bs cs s.1 t.1)
  SameArguments-trans [] [] (c ∷ cs) s t = elim t [ ]
  SameArguments-trans (a ∷ as') (b ∷ bs) [] s t = elim t [ ]
  SameArguments-trans [] (b ∷ bs) _ s t = elim s [ ]
  SameArguments-trans (a ∷ as') [] _ s t = elim s [ ]

  pub context_eq_partial :
      (c d e : Context D)
      → (context_eq c d ≡ true → context_eq d c ≡ true)
        × (context_eq c d ≡ true → context_eq d e ≡ true → context_eq c e ≡ true)
  context_eq_partial c d e = (
    λ p.
        let s = (context_eq_iff c d).0 p in
        (context_eq_iff d c).1 (sym s.0, sym s.1, SameArguments-sym _ _ s.2),
    λ p q.
        let s = (context_eq_iff c d).0 p in
        let t = (context_eq_iff d e).0 q in
        (context_eq_iff c e).1 (s.0 ∙ t.0, s.1 ∙ t.1, SameArguments-trans _ _ _ s.2 t.2),
  )

same_test : (p q : Bool) → (p ≡ true → q ≡ true) → (q ≡ true → p ≡ true) → p ≡ q
same_test p q to from = ground arith

module _ {D : Type 0} ⦃double : Double D⦄ where
  -- Let `==` on doubles be symmetric and transitive. If two contexts are equal, so are they the other way
  -- round, and every context is equal to both or to neither.
  pub context_eq_equivalence :
      (laws : IsPartialEquality double) (c d e : Context D)
      → context_eq c d ≡ true
      → (context_eq d c ≡ true) × (context_eq c e ≡ context_eq d e)
  context_eq_equivalence laws c d e same =
      let back = (context_eq_partial laws c d c).0 same in
      (
        back,
        same_test (context_eq c e) (context_eq d e) ((context_eq_partial laws d c e).1 back)
            ((context_eq_partial laws c d e).1 same),
      )

module _ {D : Type 0} ⦃double : Double D⦄ where
  -- The doubles of an argument that `==` finds equal to themselves: all but NaN.
  abbrev pub IsComparable : Argument D → Type 0
  IsComparable (float_argument d) = double.eq d d ≡ true
  IsComparable _ = Unit {0}

  SameArgument-refl_iff : (a : Argument D) → SameArgument a a ↔ IsComparable a
  SameArgument-refl_iff (float_argument d) = (λ s. s, λ s. s)
  SameArgument-refl_iff (forward_argument n) = (λ _. tt, λ _. refl)
  SameArgument-refl_iff (int_argument n) = (λ _. tt, λ _. refl)
  SameArgument-refl_iff (ptr_argument n) = (λ _. tt, λ _. refl)
  SameArgument-refl_iff (struct_argument n) = (λ _. tt, λ _. refl)
  SameArgument-refl_iff (module_argument n) = (λ _. tt, λ _. refl)

  SameArguments-refl_iff : (as' : List (Argument D)) → SameArguments as' as' ↔ All IsComparable as'
  SameArguments-refl_iff [] = (λ s. tt, λ s. tt)
  SameArguments-refl_iff (a ∷ as') =
      let (one_to, one_from) = SameArgument-refl_iff a in
      let (to, from) = SameArguments-refl_iff as' in
      (λ s. (one_to s.0, to s.1), λ s. (one_from s.0, from s.1))

  -- A context is equal to itself exactly when none of its doubles differs from itself, as NaN does.
  pub context_eq_refl_iff :
      (c : Context D) → (context_eq c c ≡ true) ↔ All IsComparable c.argument_mapping
  context_eq_refl_iff c = (
    λ p. (SameArguments-refl_iff c.argument_mapping).0 ((context_eq_iff c c).0 p).2,
    λ s. (context_eq_iff c c).1 (refl, refl, (SameArguments-refl_iff c.argument_mapping).1 s),
  )
