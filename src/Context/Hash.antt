-- ===== src/Context/Hash.antt =====
-- `std::hash<easy::Context>`: the contract that `std::unordered_map` asks of it.
use mathlib.Core.List.{foldl}
use easy_just_in_time.Prelude.{ℕ, ◌≡◌, refl, ap, true, List, [], ◌∷◌}
use easy_just_in_time.Context.{
  Double, StdHash, Argument, forward_argument, int_argument, float_argument, ptr_argument,
  struct_argument, module_argument, xor_byte, xor_argument, Context, context_eq, argument_hash,
  context_hash,
}
use easy_just_in_time.Context.Equality.{SameArgument, SameArguments, context_eq_iff}

-- What is relied on of `std::hash<double>`: doubles that are equal, 0.0 and -0.0 among them, have
-- one hash.
pub record IsHashOf {D : Type 0} (double : Double D) (std : StdHash D) : Type 0 where
  pub hash_double_eq : (d e : D) → double.eq d e ≡ true → std.hash_double d ≡ std.hash_double e

module _ {D : Type 0} ⦃double : Double D⦄ ⦃std : StdHash D⦄ (laws : IsHashOf double std) where
  argument_hash-SameArgument :
      (a b : Argument D) → SameArgument a b → argument_hash a ≡ argument_hash b
  unfolding argument_hash
  argument_hash-SameArgument (float_argument d) (float_argument e) s = laws.hash_double_eq d e s
  argument_hash-SameArgument (forward_argument m) (forward_argument n) s = ap std.hash_unsigned s
  argument_hash-SameArgument (int_argument m) (int_argument n) s = ap std.hash_int64 s
  argument_hash-SameArgument (ptr_argument m) (ptr_argument n) s = ap std.hash_pointer s
  argument_hash-SameArgument (struct_argument a) (struct_argument b) s =
      ap (foldl (xor_byte std.hash_int64) 0) s
  argument_hash-SameArgument (module_argument m) (module_argument n) s = ap std.hash_pointer s
  argument_hash-SameArgument _ _ s = elim s [ ]

  foldl-SameArguments :
      (h : ℕ) (as' bs : List (Argument D))
      → SameArguments as' bs
      → foldl xor_argument h as' ≡ foldl xor_argument h bs
  foldl-SameArguments h [] [] s = refl
  foldl-SameArguments h (a ∷ as') (b ∷ bs) s =
      rw (argument_hash-SameArgument a b s.0) (foldl-SameArguments (xor_argument h b) as' bs s.1)
  foldl-SameArguments h _ _ s = elim s [ ]

  -- If equal doubles have one hash, so have equal contexts.
  pub context_hash-context_eq :
      (c d : Context D) → context_eq c d ≡ true → context_hash c ≡ context_hash d
  unfolding context_hash
  context_hash-context_eq c d h =
      let s = (context_eq_iff c d).0 h in
      rw (s.0, s.1, foldl-SameArguments 0 c.argument_mapping d.argument_mapping s.2)
